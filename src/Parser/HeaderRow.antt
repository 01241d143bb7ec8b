-- ===== src/Parser/HeaderRow.antt =====
-- The header row of a worksheet: where the columns of the required headers are found.
use fastapi_shipment_import.Base.{
  ℕ, suc, String, ◌-◌, ◌≤◌, ◌≡◌, refl, sym, ap, subst, ◌∙◌, arith, Bool, true, not, Bool-cases, inl,
  inr, Option, none, some, List, [], ◌∷◌, ◌++◌, All, All-mono, get_elem?, any, select_where,
}
use mathlib.Core.List.{append_assoc, append-nil}
use fastapi_shipment_import.Validation.Cells.{Cell, text_cell, required_workbook_headers}
use fastapi_shipment_import.Parser

module _ (other_equal : Cell → Cell → Bool) where
  -- A header's column holds the header, once normalized.
  abbrev pub IsHeaderOf : ℕ → List (Option Cell) → Cell × ℕ → Type 0
  IsHeaderOf column cells item =
      (column ≤ item.1)
      × (c : Option Cell) × (get_elem? cells (item.1 - column) ≡ some c)
      × (Parser.normalize_text c ≡ some item.0)

  get_elem?-later :
      (column : ℕ) (cell : Option Cell) (cells : List (Option Cell)) (item : Cell × ℕ)
      → IsHeaderOf (suc column) cells item
      → IsHeaderOf column (cell ∷ cells) item
  get_elem?-later column cell cells item h =
      let next : item.1 - column ≡ suc (item.1 - suc column) = omega (arith, h.0) in
      let found : get_elem? (cell ∷ cells) (item.1 - column) ≡ some h.1 = rw next h.2 in
      (omega (arith, h.0), h.1, found, h.3)

  get_elem?-first :
      (column : ℕ) (cell : Option Cell) (cells : List (Option Cell)) (h : Cell)
      → Parser.normalize_text cell ≡ some h
      → IsHeaderOf column (cell ∷ cells) (h, column)
  get_elem?-first column cell cells h e =
      let z : column - column ≡ 0 = omega arith in
      let found : get_elem? (cell ∷ cells) (column - column) ≡ some cell = rw z refl in
      (omega arith, cell, found, e)

  -- What the loop adds to an index comes from the cells.
  abbrev Adds : ℕ → List (Option Cell) → Parser.HeaderIndex → Parser.HeaderIndex → Type 0
  Adds column cells index after =
      (added : Parser.HeaderIndex) × (after ≡ index ++ added) × All (IsHeaderOf column cells) added

  Adds-later :
      (column : ℕ) (c : Option Cell) (cs : List (Option Cell)) (index after : Parser.HeaderIndex)
      → Adds (suc column) cs index after
      → Adds column (c ∷ cs) index after
  Adds-later column c cs index after h = (
    h.0,
    h.1,
    All-mono (IsHeaderOf (suc column) cs) (IsHeaderOf column (c ∷ cs)) (get_elem?-later column c cs)
        h.0 h.2,
  )

  headers-inj : (a b : Parser.HeaderIndex) → Parser.headers a ≡ Parser.headers b → a ≡ b
  headers-inj a b e = cc

  collect_headers-Adds :
      (column : ℕ) (cells : List (Option Cell)) (index after : Parser.HeaderIndex)
      → Parser.collect_headers other_equal column cells index ≡ Parser.headers after
      → Adds column cells index after
  unfolding Parser.collect_headers
  collect_headers-Adds column [] index after e =
      ([], sym (append-nil index ∙ headers-inj index after e), tt)
  collect_headers-Adds column (c ∷ cs) index after e =
      go (λ index' e'. collect_headers-Adds (suc column) cs index' after e')
        (Parser.normalize_text c) refl e
    where
      go :
          ((index' : Parser.HeaderIndex)
            → Parser.collect_headers other_equal (suc column) cs index' ≡ Parser.headers after
            → Adds (suc column) cs index' after)
          → (n : Option Cell) → Parser.normalize_text c ≡ n
          → Parser.header_step other_equal column n index
              (Parser.collect_headers other_equal (suc column) cs)
            ≡ Parser.headers after
          → Adds column (c ∷ cs) index after
      go later none is e = Adds-later column c cs index after (later index e)
      go later (some h) is e = elim (Bool-cases (Parser.known other_equal h index)) [
        | inl t ↦ absurd (ground (arith, e, t))
        | inr f ↦
            let rest =
              Adds-later column c cs (index ++ (h, column) ∷ []) after
                (later (index ++ (h, column) ∷ []) (ground (arith, e, f))) in
            (
              (h, column) ∷ rest.0,
              rest.1 ∙ append_assoc index ((h, column) ∷ []) rest.0,
              (get_elem?-first column c cs h is, rest.2),
            )
      ]

  -- A field that has a column is a key of the index, with that column.
  column_of-known :
      (field : String) (index : Parser.HeaderIndex)
      → Parser.known other_equal (text_cell field) index ≡ true
      → (item : Cell × ℕ) × (Parser.column_of other_equal field index ≡ some item.1)
        × (Parser.same_cell other_equal item.0 (text_cell field) ≡ true)
        × ((P : Cell × ℕ → Type 0) → All P index → P item)
  unfolding Parser.column_of any
  column_of-known field [] e = absurd (ground (arith, e))
  column_of-known field ((h, column) ∷ index) e =
      elim (Bool-cases (Parser.same_cell other_equal h (text_cell field))) [
        | inl t ↦ ((h, column), rw t refl, t, λ P all. all.0)
        | inr f ↦
            let rest = column_of-known field index (ground (arith, e, f)) in
            (rest.0, rw f rest.1, rest.2, λ P all. rest.3 P all.1)
      ]

  -- Text is equal to text only.
  abbrev pub TextIsText : Type 0
  TextIsText =
      (c : Cell) (s : String)
      → Parser.same_cell other_equal c (text_cell s) ≡ true
      → c ≡ text_cell s

  none_missing :
      (index : Parser.HeaderIndex) (names : List String)
      → select_where (λ h. not (Parser.known other_equal (text_cell h) index)) names ≡ []
      → All (λ h. Parser.known other_equal (text_cell h) index ≡ true) names
  unfolding select_where
  none_missing index [] e = tt
  none_missing index (n ∷ names) e =
      elim (Bool-cases (Parser.known other_equal (text_cell n) index)) [
        | inl t ↦ (t, none_missing index names (ground (arith, e, t)))
        | inr f ↦ absurd (ground (arith, e, f))
      ]

  require_headers-ok :
      (index after : Parser.HeaderIndex) (missing : List String)
      → Parser.require_headers other_equal index missing ≡ Parser.headers after
      → (index ≡ after) × (missing ≡ [])
  unfolding Parser.require_headers
  require_headers-ok index after [] e = (cc, refl)
  require_headers-ok index after (m ∷ ms) e = absurd (ground (arith, e))

  checked_headers-ok :
      (h : Parser.Headers) (after : Parser.HeaderIndex)
      → Parser.checked_headers other_equal h ≡ Parser.headers after
      → (h ≡ Parser.headers after)
        × All (λ h. Parser.known other_equal (text_cell h) after ≡ true) required_workbook_headers
  unfolding Parser.checked_headers Parser.missing_headers
  checked_headers-ok (Parser.bad_headers m) after e = absurd (ground (arith, e))
  checked_headers-ok (Parser.headers index) after e =
      let is = require_headers-ok index after (Parser.missing_headers other_equal index) e in
      (
        ap Parser.headers is.0,
        subst
            (λ a.
              All (λ h. Parser.known other_equal (text_cell h) a ≡ true) required_workbook_headers)
            is.0 (none_missing index required_workbook_headers is.1),
      )

  -- A header has a column, and the cell in it is the header, once normalized.
  abbrev pub Found : List (Option Cell) → Parser.HeaderIndex → String → Type 0
  Found cells index h =
      (column : ℕ) × (Parser.column_of other_equal h index ≡ some column)
      × (c : Option Cell) × (get_elem? cells column ≡ some c)
      × (Parser.normalize_text c ≡ some (text_cell h))

  sub_zero : (n : ℕ) → n - 0 ≡ n
  sub_zero n = omega arith

  -- Where text equals text only, if _parse_headers returns an index, each required header has a
  -- column in it, and the cell of the header row in that column is that header, stripped.
  pub parse_headers-finds :
      (cells : List (Option Cell)) (index : Parser.HeaderIndex)
      → TextIsText
      → Parser.parse_headers other_equal (some cells) ≡ Parser.headers index
      → All (Found cells index) required_workbook_headers
  unfolding Parser.parse_headers
  parse_headers-finds cells index text e =
      let is = checked_headers-ok (Parser.collect_headers other_equal 0 cells []) index e in
      let adds = collect_headers-Adds 0 cells [] index is.0 in
      let from_cells = subst (All (IsHeaderOf 0 cells)) (sym adds.1) adds.2 in
      All-mono (λ h. Parser.known other_equal (text_cell h) index ≡ true) (Found cells index)
        (λ h known.
          let has = column_of-known h index known in
          let here = has.3 (IsHeaderOf 0 cells) from_cells in
          let at : get_elem? cells has.0.1 ≡ some here.1 = rw (← sub_zero has.0.1) here.2 in
          (has.0.1, has.1, here.1, at, here.3 ∙ ap some (text has.0.0 h has.2)))
        required_workbook_headers is.1
