-- ===== src/Tests/Like.antt =====
-- A concrete ILIKE, on the letters as they are, that keeps the rules of patterns.
use Prim.Native.Char.{Char, code}
use fastapi_shipment_import.Base.{
  String, ◌≡◌, refl, sym, ap, subst, Bool, true, false, ◌&&◌, ◌||◌, ◌==◌, Bool-cases, inl, inr,
  arith, append_text, is_empty, if◌then◌else◌, ◌↔◌,
}
use fastapi_shipment_import.Repositories.Searching.{IsIlike, HasPart, contains_pattern-matches}
use fastapi_shipment_import.Repositories.ShipmentQuery.{contains_pattern}

abbrev pub same_code : Char → Char → Bool
same_code c d = code c == code d

abbrev head_is : Char → (String → Bool) → String → Bool
head_is c f String.[] = false
head_is c f (String.◌∷◌ d t) = same_code d c && f t

abbrev after_any : (String → Bool) → String → Bool
after_any f String.[] = false
after_any f (String.◌∷◌ d t) = f t

abbrev some_suffix : (String → Bool) → String → Bool
some_suffix f String.[] = f ""
some_suffix f (String.◌∷◌ d t) = f (String.◌∷◌ d t) || some_suffix f t

-- `escaping` says that a backslash came before.
unfoldable like : Bool → String → String → Bool
like false String.[] s = is_empty s
like true String.[] s = false
like true (String.◌∷◌ c p) s = head_is c (like false p) s
like false (String.◌∷◌ c p) s =
    let rest = like false p in
    let next = like true p in
    if code c == 37
    then some_suffix rest s
    else if code c == 92
    then next s
    else if code c == 95
    then after_any rest s
    else head_is c rest s

unfoldable pub plain_like : String → String → Bool
unfolding like
plain_like s p = like false p s

head_is-true :
    (c : Char) (f : String → Bool) (s : String)
    → head_is c f s ≡ true
    → (d : Char) × (t : String) × (s ≡ String.◌∷◌ d t) × (same_code d c ≡ true) × (f t ≡ true)
head_is-true c f String.[] h = absurd (ground (arith, h))
head_is-true c f (String.◌∷◌ d t) h = (d, t, refl, ground (arith, h), ground (arith, h))

head_is_iff :
    (c : Char) (f : String → Bool) (s : String)
    → (head_is c f s ≡ true)
      ↔ ((d : Char) × (t : String) × (s ≡ String.◌∷◌ d t) × (same_code d c ≡ true) × (f t ≡ true))
head_is_iff c f s =
    (head_is-true c f s, λ h. subst (λ s. head_is c f s ≡ true) (sym h.2) (rw (h.3, h.4) refl))

some_suffix-true :
    (f : String → Bool) (s : String)
    → some_suffix f s ≡ true
    → (u v : String) × (s ≡ append_text u v) × (f v ≡ true)
unfolding append_text
some_suffix-true f String.[] h = ("", "", refl, h)
some_suffix-true f (String.◌∷◌ d t) h = elim (Bool-cases (f (String.◌∷◌ d t))) [
  | inl e ↦ ("", String.◌∷◌ d t, refl, e)
  | inr e ↦
      let rest = some_suffix-true f t (ground (arith, h, e)) in
      (String.◌∷◌ d rest.0, rest.1, ap (λ t. String.◌∷◌ d t) rest.2, rest.3)
]

suffix-some_suffix :
    (f : String → Bool) (u v : String) → f v ≡ true → some_suffix f (append_text u v) ≡ true
unfolding append_text
suffix-some_suffix f String.[] String.[] h = h
suffix-some_suffix f String.[] (String.◌∷◌ d t) h = ground (arith, h)
suffix-some_suffix f (String.◌∷◌ c u) v h = ground (arith, suffix-some_suffix f u v h)

some_suffix_iff :
    (f : String → Bool) (s : String)
    → (some_suffix f s ≡ true) ↔ ((u v : String) × (s ≡ append_text u v) × (f v ≡ true))
some_suffix_iff f s = (
  some_suffix-true f s,
  λ h. subst (λ s. some_suffix f s ≡ true) (sym h.2) (suffix-some_suffix f h.0 h.1 h.3),
)

is_empty_iff : (s : String) → (is_empty s ≡ true) ↔ (s ≡ "")
is_empty_iff String.[] = (λ h. refl, λ h. refl)
is_empty_iff (String.◌∷◌ c s) = (λ h. absurd (ground (arith, h)), λ h. absurd (cc (h)))

plain_like-IsIlike : IsIlike same_code plain_like
unfolding plain_like append_text
plain_like-IsIlike = record {
  ends = is_empty_iff;
  percent = λ s p. some_suffix_iff (like false p) s;
  backslash = λ s c p. head_is_iff c (like false p) s;
  plain = λ s c p f.
      let f37 : (code c == 37) ≡ false = ground (arith, f) in
      let f92 : (code c == 92) ≡ false = ground (arith, f) in
      let f95 : (code c == 95) ≡ false = ground (arith, f) in
      rw (f37, f92, f95) (head_is_iff c (like false p) s);
}

contains_pattern-matches_example :
    (plain_like "Bern 50% off" (contains_pattern "0% o") ≡ true)
    ↔ HasPart same_code "Bern 50% off" "0% o"
contains_pattern-matches_example =
    contains_pattern-matches same_code plain_like plain_like-IsIlike "Bern 50% off" "0% o"
