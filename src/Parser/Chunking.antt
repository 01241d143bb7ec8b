-- ===== src/Parser/Chunking.antt =====
-- The rows of a worksheet, and the chunks that they are yielded in.
use fastapi_shipment_import.Base.{
  ℕ, suc, ◌-◌, ◌≤◌, ◌<◌, ◌≡◌, refl, ap, ◌∙◌, arith, Bool, true, false, not, Bool-cases, inl, inr,
  Option, some, List, [], ◌∷◌, ◌++◌, length, length-append, leb, All, All-mono, count_where,
  get_elem?,
}
use mathlib.Core.List.{append_assoc}
use fastapi_shipment_import.Validation.Cells.{Cell, ParsedWorkbookRow}
use fastapi_shipment_import.Validation.Generator.{rows_of}
use fastapi_shipment_import.Parser.{HeaderIndex, normalize_row, is_blank, data_rows, chunks_of}

abbrev pub flatten {ℓ} : {A : Type ℓ} → List (List A) → List A
flatten [] = []
flatten (xs ∷ rest) = xs ++ flatten rest

-- Every chunk but the last is full.
abbrev pub FullButLast : ℕ → List (List ParsedWorkbookRow) → Type 0
FullButLast size [] = Unit
FullButLast size (c ∷ []) = Unit
FullButLast size (c ∷ d ∷ rest) = (length c ≡ size) × FullButLast size (d ∷ rest)

abbrev pub Within : ℕ → List ParsedWorkbookRow → Type 0
Within size c = (1 ≤ length c) × (length c ≤ size)

module _ (size : ℕ) (some_size : 1 ≤ size) where
  pub flatten-chunks_of :
      (held rs : List ParsedWorkbookRow) → flatten (chunks_of size false held rs) ≡ held ++ rs
  unfolding chunks_of
  flatten-chunks_of [] [] = refl
  flatten-chunks_of (h ∷ hs) [] = refl
  flatten-chunks_of held (r ∷ rs) = elim (Bool-cases (leb size (length (held ++ r ∷ [])))) [
    | inl t ↦ rw t (
        ap (λ (x : List ParsedWorkbookRow). (held ++ r ∷ []) ++ x) (flatten-chunks_of [] rs)
        ∙ append_assoc held (r ∷ []) rs)
    | inr f ↦ rw f (flatten-chunks_of (held ++ r ∷ []) rs ∙ append_assoc held (r ∷ []) rs)
  ]

  pub chunks_of-Within :
      (broken : Bool) (held rs : List ParsedWorkbookRow)
      → length held < size
      → All (Within size) (chunks_of size broken held rs)
  unfolding chunks_of
  chunks_of-Within true held [] h = tt
  chunks_of-Within false [] [] h = tt
  chunks_of-Within false (x ∷ xs) [] h = ((omega arith, omega (arith, h)), tt)
  chunks_of-Within broken held (r ∷ rs) h =
      let more = length-append held (r ∷ []) in
      elim (Bool-cases (leb size (length (held ++ r ∷ [])))) [
        | inl t ↦ rw t (
          (omega (arith, more), omega (arith, more, h)),
          chunks_of-Within broken [] rs (omega (arith, some_size)),
        )
        | inr f ↦ rw f (chunks_of-Within broken (held ++ r ∷ []) rs (ground (arith, f)))
      ]

  FullButLast-cons :
      (c : List ParsedWorkbookRow) (rest : List (List ParsedWorkbookRow))
      → length c ≡ size
      → FullButLast size rest
      → FullButLast size (c ∷ rest)
  FullButLast-cons c [] e h = tt
  FullButLast-cons c (d ∷ rest) e h = (e, h)

  pub chunks_of-FullButLast :
      (broken : Bool) (held rs : List ParsedWorkbookRow)
      → length held < size
      → FullButLast size (chunks_of size broken held rs)
  unfolding chunks_of
  chunks_of-FullButLast true held [] h = tt
  chunks_of-FullButLast false [] [] h = tt
  chunks_of-FullButLast false (x ∷ xs) [] h = tt
  chunks_of-FullButLast broken held (r ∷ rs) h =
      let more = length-append held (r ∷ []) in
      elim (Bool-cases (leb size (length (held ++ r ∷ [])))) [
        | inl t ↦ rw t (
            FullButLast-cons (held ++ r ∷ []) (chunks_of size broken [] rs)
              (ground (arith, t, more, h))
              (chunks_of-FullButLast broken [] rs (omega (arith, some_size))))
        | inr f ↦ rw f (chunks_of-FullButLast broken (held ++ r ∷ []) rs (ground (arith, f)))
      ]

pub rows_of-flatten :
    (chunks : List (List ParsedWorkbookRow)) → rows_of chunks ≡ length (flatten chunks)
rows_of-flatten [] = refl
rows_of-flatten (c ∷ cs) = omega (arith, rows_of-flatten cs, length-append c (flatten cs))

-- The row numbers grow, from a first one on.
abbrev pub Increasing : ℕ → List ParsedWorkbookRow → Type 0
Increasing first [] = Unit
Increasing first (r ∷ rs) = (first ≤ r.row_number) × Increasing (suc r.row_number) rs

Increasing-weaker :
    (less first : ℕ) (rs : List ParsedWorkbookRow)
    → less ≤ first
    → Increasing first rs
    → Increasing less rs
Increasing-weaker less first [] le h = tt
Increasing-weaker less first (r ∷ rs) le h = (omega (arith, h.0), h.1)

module _ (other_equal : Cell → Cell → Bool) (index : HeaderIndex) where
  abbrev pub has_data : List (Option Cell) → Bool
  has_data cells = not (is_blank other_equal (normalize_row other_equal index cells))

  -- The data rows are those that are not blank.
  pub length-data_rows :
      (number : ℕ) (rows : List (List (Option Cell)))
      → length (data_rows other_equal index number rows) ≡ count_where has_data rows
  unfolding data_rows count_where
  length-data_rows number [] = refl
  length-data_rows number (cells ∷ rest) =
      elim (Bool-cases (is_blank other_equal (normalize_row other_equal index cells))) [
        | inl t ↦ rw t (omega (arith, length-data_rows (suc number) rest))
        | inr f ↦ rw f (omega (arith, length-data_rows (suc number) rest))
      ]

  -- A data row is the one that its number says, normalized.
  abbrev pub IsRowOf : ℕ → List (List (Option Cell)) → ParsedWorkbookRow → Type 0
  IsRowOf number rows r =
      (number ≤ r.row_number)
      × (cells : List (Option Cell)) × (get_elem? rows (r.row_number - number) ≡ some cells)
      × (r.values ≡ normalize_row other_equal index cells)
      × (has_data cells ≡ true)

  get_elem?-here :
      (number : ℕ) (cells : List (Option Cell)) (rest : List (List (Option Cell)))
      → get_elem? (cells ∷ rest) (number - number) ≡ some cells
  get_elem?-here number cells rest = let z : number - number ≡ 0 = omega arith in rw z refl

  IsRowOf-later :
      (number : ℕ) (cells : List (Option Cell)) (rest : List (List (Option Cell)))
      (r : ParsedWorkbookRow)
      → IsRowOf (suc number) rest r
      → IsRowOf number (cells ∷ rest) r
  IsRowOf-later number cells rest r h =
      let first = h.0 in
      let next : r.row_number - number ≡ suc (r.row_number - suc number) = omega (arith, first) in
      let found : get_elem? (cells ∷ rest) (r.row_number - number) ≡ some h.1 = rw next h.2 in
      (omega (arith, first), h.1, found, h.3, h.4)

  pub data_rows-IsRowOf :
      (number : ℕ) (rows : List (List (Option Cell)))
      → All (IsRowOf number rows) (data_rows other_equal index number rows)
  unfolding data_rows
  data_rows-IsRowOf number [] = tt
  data_rows-IsRowOf number (cells ∷ rest) =
      let later =
        All-mono (IsRowOf (suc number) rest) (IsRowOf number (cells ∷ rest))
          (λ r h. IsRowOf-later number cells rest r h)
          (data_rows other_equal index (suc number) rest) (data_rows-IsRowOf (suc number) rest) in
      elim (Bool-cases (is_blank other_equal (normalize_row other_equal index cells))) [
        | inl t ↦ rw t later
        | inr f ↦
            rw f ((omega arith, cells, get_elem?-here number cells rest, refl, rw f refl), later)
      ]

  pub data_rows-Increasing :
      (number : ℕ) (rows : List (List (Option Cell)))
      → Increasing number (data_rows other_equal index number rows)
  unfolding data_rows
  data_rows-Increasing number [] = tt
  data_rows-Increasing number (cells ∷ rest) =
      elim (Bool-cases (is_blank other_equal (normalize_row other_equal index cells))) [
        | inl t ↦ rw t (
            Increasing-weaker number (suc number) (data_rows other_equal index (suc number) rest)
              (omega arith) (data_rows-Increasing (suc number) rest))
        | inr f ↦ rw f (omega arith, data_rows-Increasing (suc number) rest)
      ]
