-- ===== src/Repositories/Searching.antt =====
-- What the text filters of the list of shipments match, by the rules of ILIKE.
use Prim.Native.Char.{Char, code}
use fastapi_shipment_import.Base.{
  String, ◌≡◌, refl, sym, ap, ◌∙◌, subst, Bool, true, false, Bool-cases, inl, inr, ◌==◌, ==_iff,
  ◌||◌, append_text, if◌then◌else◌, ◌↔◌,
}
use fastapi_shipment_import.Repositories.ShipmentQuery.{escape_each, escaped, contains_pattern}

-- PostgreSQL's rules for a pattern with a backslash as its escape character: the percent sign stands
-- for any text, a backslash for the character after it, every other character but the underscore for
-- itself; `same_letter` says that two characters differ in case at most.
pub record IsIlike (same_letter : Char → Char → Bool) (ilike : String → String → Bool)
    : Type 0 where
  pub ends : (s : String) → (ilike s "" ≡ true) ↔ (s ≡ "")
  pub percent :
      (s p : String)
      → (ilike s (append_text "%" p) ≡ true)
        ↔ ((u v : String) × (s ≡ append_text u v) × (ilike v p ≡ true))
  pub backslash :
      (s : String) (c : Char) (p : String)
      → (ilike s (append_text "\\" (String.◌∷◌ c p)) ≡ true) ↔ (
          (d : Char) × (t : String) × (s ≡ String.◌∷◌ d t)
          × (same_letter d c ≡ true)
          × (ilike t p ≡ true))
  pub plain :
      (s : String) (c : Char) (p : String)
      → (code c == 37) || (code c == 95) || (code c == 92) ≡ false
      → (ilike s (String.◌∷◌ c p) ≡ true) ↔ (
          (d : Char) × (t : String) × (s ≡ String.◌∷◌ d t)
          × (same_letter d c ≡ true)
          × (ilike t p ≡ true))

-- One pass over the text escapes as the three replacements do.
abbrev escape : String → String
escape String.[] = String.[]
escape (String.◌∷◌ c s) =
    let rest = escape s in
    if (code c == 37) || (code c == 95) || (code c == 92)
    then append_text "\\" (String.◌∷◌ c rest)
    else String.◌∷◌ c rest

escaped-escape : (s : String) → escaped s ≡ escape s
unfolding escaped escape_each append_text
escaped-escape String.[] = refl
escaped-escape (String.◌∷◌ c s) =
    let rest = escaped-escape s in
    elim (Bool-cases (code c == 92)) [
      | inl t ↦
          let is = (==_iff (code c) 92).0 t in
          let f37 : (code c == 37) ≡ false = rw is refl in
          let f95 : (code c == 95) ≡ false = rw is refl in
          rw (t, f37, f95) (ap (λ x. append_text "\\" (String.◌∷◌ c x)) rest)
      | inr f ↦ elim (Bool-cases (code c == 37)) [
        | inl t ↦
            let is = (==_iff (code c) 37).0 t in
            let f95 : (code c == 95) ≡ false = rw is refl in
            rw (f, t, f95) (ap (λ x. append_text "\\" (String.◌∷◌ c x)) rest)
        | inr g ↦ elim (Bool-cases (code c == 95)) [
          | inl t ↦ rw (f, g, t) (ap (λ x. append_text "\\" (String.◌∷◌ c x)) rest)
          | inr h ↦ rw (f, g, h) (ap (λ x. String.◌∷◌ c x) rest)
        ]
      ]
    ]

append_text-empty : (s : String) → append_text s "" ≡ s
unfolding append_text
append_text-empty String.[] = refl
append_text-empty (String.◌∷◌ c s) = ap (λ x. String.◌∷◌ c x) (append_text-empty s)

module _ (same_letter : Char → Char → Bool) where
  -- Two texts that differ in case at most.
  abbrev pub SameText : String → String → Type 0
  SameText String.[] String.[] = Unit
  SameText String.[] (String.◌∷◌ d t) = ⊥
  SameText (String.◌∷◌ c s) String.[] = ⊥
  SameText (String.◌∷◌ c s) (String.◌∷◌ d t) = (same_letter c d ≡ true) × SameText s t

  -- A part of the column is the value, up to case.
  abbrev pub HasPart : String → String → Type 0
  HasPart column value =
      (before part after : String) × (column ≡ append_text before (append_text part after))
      × SameText part value

  module _ (ilike : String → String → Bool) (rules : IsIlike same_letter ilike) where
    -- A character of the value, escaped where it has to be, matches one of the column.
    escaped_letter :
        (c : Char) (r s : String)
        → (ilike s (
              append_text
                (if (code c == 37) || (code c == 95) || (code c == 92)
                  then append_text "\\" (String.◌∷◌ c r)
                  else String.◌∷◌ c r)
                "%")
            ≡ true)
          ↔ ((d : Char) × (t : String) × (s ≡ String.◌∷◌ d t)
              × (same_letter d c ≡ true)
              × (ilike t (append_text r "%") ≡ true))
    unfolding append_text
    escaped_letter c r s = elim (Bool-cases ((code c == 37) || (code c == 95) || (code c == 92))) [
      | inl t ↦ rw t (rules.backslash s c (append_text r "%"))
      | inr f ↦ rw f (rules.plain s c (append_text r "%") f)
    ]

    -- The escaped value matches itself, and then the percent sign matches the rest.
    escape-starts :
        (value s : String)
        → ilike s (append_text (escape value) "%") ≡ true
        → (part after : String) × (s ≡ append_text part after) × SameText part value
    unfolding append_text
    escape-starts String.[] s h = ("", s, refl, tt)
    escape-starts (String.◌∷◌ c value) s h =
        let first = (escaped_letter c (escape value) s).0 h in
        let rest = escape-starts value first.1 first.4 in
        (
          String.◌∷◌ first.0 rest.0,
          rest.1,
          first.2 ∙ ap (λ t. String.◌∷◌ first.0 t) rest.2,
          (first.3, rest.3),
        )

    starts-escape :
        (value part after : String)
        → SameText part value
        → ilike (append_text part after) (append_text (escape value) "%") ≡ true
    unfolding append_text
    starts-escape String.[] String.[] after h =
        (rules.percent after "").1
          (after, "", sym (append_text-empty after), (rules.ends "").1 refl)
    starts-escape String.[] (String.◌∷◌ d part) after h = absurd h
    starts-escape (String.◌∷◌ c value) String.[] after h = absurd h
    starts-escape (String.◌∷◌ c value) (String.◌∷◌ d part) after h =
        (escaped_letter c (escape value) (append_text (String.◌∷◌ d part) after)).1
          (d, append_text part after, refl, h.0, starts-escape value part after h.1)

    -- By PostgreSQL's rules for ILIKE with a backslash as the escape character, a column matches
    -- the pattern that _contains builds exactly if some part of it is the value, up to case,
    -- whatever percent signs, underscores and backslashes the value has.
    pub contains_pattern-matches :
        (column value : String)
        → (ilike column (contains_pattern value) ≡ true) ↔ HasPart column value
    unfolding contains_pattern
    contains_pattern-matches column value =
        let same = escaped-escape value in
        (
          λ h.
              let (before, rest, split, matched) =
                (rules.percent column (append_text (escaped value) "%")).0 h in
              let start =
                escape-starts value rest
                  (subst (λ e. ilike rest (append_text e "%") ≡ true) same matched) in
              (before, start.0, start.1, split ∙ ap (append_text before) start.2, start.3),
          λ h.
              let matched = starts-escape value h.1 h.2 h.4 in
              (rules.percent column (append_text (escaped value) "%")).1 (
                h.0,
                append_text h.1 h.2,
                h.3,
                subst (λ e. ilike (append_text h.1 h.2) (append_text e "%") ≡ true) (sym same)
                    matched,
              ),
        )
