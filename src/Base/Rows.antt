-- ===== src/Base/Rows.antt =====
-- A table is the list of its rows. `update_where`, `delete_where`, `count_where` and `select_where`
-- are UPDATE, DELETE, COUNT and SELECT with a WHERE clause.
use Prim.Native.Nat.{ℕ, zero, suc, ◌+◌, ◌≤◌}
use mathlib.Core.Path.{◌≡◌, refl, subst}
use mathlib.Core.Bool.{Bool, true, false, ◌&&◌, ◌||◌}
use mathlib.Core.Logic.{inl, inr}
use mathlib.Core.List.{List, [], ◌∷◌, ◌++◌}
use mathlib.Core.Option.{Option, none, some}
use native.Mathlib.Omega.{arith}
use fastapi_shipment_import.Base.Tests.{is_some, if◌then◌else◌, Bool-cases}

module _ {ℓ} {A : Type ℓ} where
  abbrev pub length : List A → ℕ
  length [] = 0
  length (x ∷ xs) = suc (length xs)

  pub length-append : (xs ys : List A) → length (xs ++ ys) ≡ length xs + length ys
  length-append [] ys = omega arith
  length-append (x ∷ xs) ys = omega (arith, length-append xs ys)

  abbrev pub take : ℕ → List A → List A
  take zero xs = []
  take (suc n) [] = []
  take (suc n) (x ∷ xs) = x ∷ take n xs

  abbrev pub drop : ℕ → List A → List A
  drop zero xs = xs
  drop (suc n) [] = []
  drop (suc n) (x ∷ xs) = drop n xs

  abbrev pub get_elem? : List A → ℕ → Option A
  get_elem? [] i = none
  get_elem? (x ∷ xs) zero = some x
  get_elem? (x ∷ xs) (suc i) = get_elem? xs i

  unfoldable pub update_where : (A → Bool) → (A → A) → List A → List A
  update_where p f [] = []
  update_where p f (x ∷ xs) = (if p x then f x else x) ∷ update_where p f xs

  unfoldable pub delete_where : (A → Bool) → List A → List A
  delete_where p [] = []
  delete_where p (x ∷ xs) = let rest = delete_where p xs in if p x then rest else x ∷ rest

  unfoldable pub select_where : (A → Bool) → List A → List A
  select_where p [] = []
  select_where p (x ∷ xs) = let rest = select_where p xs in if p x then x ∷ rest else rest

  unfoldable pub count_where : (A → Bool) → List A → ℕ
  count_where p [] = 0
  count_where p (x ∷ xs) = (if p x then 1 else 0) + count_where p xs

  -- The first row that a WHERE clause selects.
  unfoldable pub find_where : (A → Bool) → List A → Option A
  find_where p [] = none
  find_where p (x ∷ xs) = let rest = find_where p xs in if p x then some x else rest

  unfoldable pub any : (A → Bool) → List A → Bool
  any p [] = false
  any p (x ∷ xs) = p x || any p xs

  abbrev pub All {κ} : (A → Type κ) → List A → Type κ
  All P [] = Unit
  All P (x ∷ xs) = P x × All P xs

module _ {ℓ κ} {A : Type ℓ} (P : A → Type κ) where
  pub All-append : (xs ys : List A) → All P xs → All P ys → All P (xs ++ ys)
  All-append [] ys hx hy = hy
  All-append (x ∷ xs) ys hx hy = (hx.0, All-append xs ys hx.1 hy)

  pub All-delete_where : (p : A → Bool) (xs : List A) → All P xs → All P (delete_where p xs)
  unfolding delete_where
  All-delete_where p [] h = tt
  All-delete_where p (x ∷ xs) h = elim (Bool-cases (p x)) [
    | inl e ↦ rw e (All-delete_where p xs h.1)
    | inr e ↦ rw e (h.0, All-delete_where p xs h.1)
  ]

  pub All-select_where : (p : A → Bool) (xs : List A) → All P xs → All P (select_where p xs)
  unfolding select_where
  All-select_where p [] h = tt
  All-select_where p (x ∷ xs) h = elim (Bool-cases (p x)) [
    | inl e ↦ rw e (h.0, All-select_where p xs h.1)
    | inr e ↦ rw e (All-select_where p xs h.1)
  ]

  pub All-find_where :
      (p : A → Bool) (xs : List A) {x : A} → All P xs → find_where p xs ≡ some x → P x
  unfolding find_where
  All-find_where p [] h e = cc
  All-find_where p (y ∷ ys) {x} h e = elim (Bool-cases (p y)) [
    | inl t ↦ let same : y ≡ x = ground arith in subst P same h.0
    | inr t ↦ All-find_where p ys h.1 (ground arith)
  ]

module _ {ℓ κ μ} {A : Type ℓ} (P : A → Type κ) (Q : A → Type μ) where
  pub All-mono : ((x : A) → P x → Q x) → (xs : List A) → All P xs → All Q xs
  All-mono f [] h = tt
  All-mono f (x ∷ xs) h = (f x h.0, All-mono f xs h.1)

  pub All-both : (xs : List A) → All P xs → All Q xs → All (λ x. P x × Q x) xs
  All-both [] hp hq = tt
  All-both (x ∷ xs) hp hq = ((hp.0, hq.0), All-both xs hp.1 hq.1)

  -- What holds of every row after an UPDATE, from what held before.
  pub All-update_where :
      (p : A → Bool) (f : A → A) (xs : List A)
      → ((x : A) → p x ≡ true → P x → Q (f x))
      → ((x : A) → p x ≡ false → P x → Q x)
      → All P xs
      → All Q (update_where p f xs)
  unfolding update_where
  All-update_where p f [] hit miss h = tt
  All-update_where p f (x ∷ xs) hit miss h = elim (Bool-cases (p x)) [
    | inl e ↦ rw e (hit x e h.0, All-update_where p f xs hit miss h.1)
    | inr e ↦ rw e (miss x e h.0, All-update_where p f xs hit miss h.1)
  ]

module _ {ℓ} {A : Type ℓ} where
  pub count-append :
      (p : A → Bool) (xs ys : List A)
      → count_where p (xs ++ ys) ≡ count_where p xs + count_where p ys
  unfolding count_where
  count-append p [] ys = omega arith
  count-append p (x ∷ xs) ys = omega (arith, count-append p xs ys)

  -- An UPDATE that does not change what `q` tests leaves its count alone.
  pub count-update_where :
      (p q : A → Bool) (f : A → A) (xs : List A)
      → ((x : A) → p x ≡ true → q (f x) ≡ q x)
      → count_where q (update_where p f xs) ≡ count_where q xs
  unfolding count_where update_where
  count-update_where p q f [] same = refl
  count-update_where p q f (x ∷ xs) same = elim (Bool-cases (p x)) [
    | inl e ↦ rw (e, same x e, count-update_where p q f xs same)
    | inr e ↦ rw (e, count-update_where p q f xs same)
  ]

  pub count-delete_where-le :
      (p q : A → Bool) (xs : List A) → count_where q (delete_where p xs) ≤ count_where q xs
  unfolding count_where delete_where
  count-delete_where-le p q [] = omega arith
  count-delete_where-le p q (x ∷ xs) = ground (arith, count-delete_where-le p q xs)

  pub count-delete_where_self : (p : A → Bool) (xs : List A) → count_where p (delete_where p xs) ≡ 0
  unfolding count_where delete_where
  count-delete_where_self p [] = refl
  count-delete_where_self p (x ∷ xs) = ground (arith, count-delete_where_self p xs)

  -- A DELETE of other rows leaves the count alone.
  pub count-delete_where_ne :
      (p q : A → Bool) (xs : List A)
      → ((x : A) → p x ≡ true → q x ≡ false)
      → count_where q (delete_where p xs) ≡ count_where q xs
  unfolding count_where delete_where
  count-delete_where_ne p q [] other = refl
  count-delete_where_ne p q (x ∷ xs) other = elim (Bool-cases (p x)) [
    | inl e ↦ rw (e, other x e) (omega (arith, count-delete_where_ne p q xs other))
    | inr e ↦ rw (e, count-delete_where_ne p q xs other)
  ]

  pub count_mono :
      (p q : A → Bool) (xs : List A)
      → ((x : A) → p x ≡ true → q x ≡ true)
      → count_where p xs ≤ count_where q xs
  unfolding count_where
  count_mono p q [] imp = omega arith
  count_mono p q (x ∷ xs) imp = ground (arith, imp x, count_mono p q xs imp)

  pub is_some-find_where : (p : A → Bool) (xs : List A) → is_some (find_where p xs) ≡ any p xs
  unfolding find_where any
  is_some-find_where p [] = refl
  is_some-find_where p (x ∷ xs) = ground (arith, is_some-find_where p xs)

  pub any-eq-false : (p : A → Bool) (xs : List A) → any p xs ≡ false → count_where p xs ≡ 0
  unfolding any count_where
  any-eq-false p [] h = refl
  any-eq-false p (x ∷ xs) h = ground (arith, any-eq-false p xs)

  pub any-count : (p : A → Bool) (xs : List A) → any p xs ≡ true → 1 ≤ count_where p xs
  unfolding any count_where
  any-count p [] h = cc
  any-count p (x ∷ xs) h = ground (arith, any-count p xs)

  pub find_where_sound :
      (p : A → Bool) (xs : List A) (x : A) → find_where p xs ≡ some x → p x ≡ true
  unfolding find_where
  find_where_sound p [] x h = cc
  find_where_sound p (y ∷ ys) x h = ground (arith, find_where_sound p ys x)

  -- An UPDATE of no row changes nothing.
  pub update_where-none :
      (p : A → Bool) (f : A → A) (xs : List A) → count_where p xs ≡ 0 → update_where p f xs ≡ xs
  unfolding update_where count_where
  update_where-none p f [] h = refl
  update_where-none p f (x ∷ xs) h = ground (arith, update_where-none p f xs)

  abbrev pub touched : (A → Bool) → (A → A) → Option A → Option A
  touched p f none = none
  touched p f (some x) = some (if p x then f x else x)

  -- What a key lookup finds after an UPDATE that keeps the keys.
  pub find_where-update_where :
      (p q : A → Bool) (f : A → A) (xs : List A)
      → ((x : A) → p x ≡ true → q (f x) ≡ q x)
      → find_where q (update_where p f xs) ≡ touched p f (find_where q xs)
  unfolding find_where update_where
  find_where-update_where p q f [] same = refl
  find_where-update_where p q f (x ∷ xs) same =
      ground (arith, same x, find_where-update_where p q f xs same)

  abbrev pub hits : (A → Bool) → Option A → ℕ
  hits p none = 0
  hits p (some x) = if p x then 1 else 0

  -- Where at most one row has the key, an UPDATE under the key and a condition changes one row or
  -- none, by the row that the key finds.
  pub count-key :
      (q p : A → Bool) (xs : List A)
      → count_where q xs ≤ 1
      → count_where (λ x. q x && p x) xs ≡ hits p (find_where q xs)
  unfolding count_where find_where
  count-key q p [] h = refl
  count-key q p (x ∷ xs) h = elim (Bool-cases (q x)) [
    | inl e ↦ rw e (ground (arith, count_mono (λ x. q x && p x) q xs (λ y s. ground arith), e))
    | inr e ↦ rw e (omega (arith, count-key q p xs (ground (arith, e))))
  ]

  -- Where the rows of a key all satisfy a condition, as many rows satisfy both as have the key.
  pub count-All :
      (q p : A → Bool) (xs : List A)
      → count_where q xs ≤ count_where (λ x. q x && p x) xs
      → All (λ x. q x ≡ true → p x ≡ true) xs
  unfolding count_where
  count-All q p [] h = tt
  count-All q p (x ∷ xs) h =
      let few : count_where (λ x. q x && p x) xs ≤ count_where q xs =
        count_mono (λ x. q x && p x) q xs (λ y s. ground arith) in
      (ground (arith, few), count-All q p xs (ground (arith, few)))

pub All-unit {ℓ} : {A : Type ℓ} (xs : List A) → All (λ x. Unit {0}) xs
All-unit [] = tt
All-unit (x ∷ xs) = (tt, All-unit xs)

-- A conclusion that each row of a kind gives holds where there is such a row.
pub All-counted {ℓ κ} :
    {A : Type ℓ} (p : A → Bool) {C : Type κ} (xs : List A)
    → count_where p xs ≡ 1
    → All (λ x. p x ≡ true → C) xs
    → C
unfolding count_where
All-counted p [] e h = absurd (omega (arith, e))
All-counted p (x ∷ xs) e h = elim (Bool-cases (p x)) [
  | inl t ↦ h.0 t
  | inr f ↦ All-counted p xs (ground (arith, f)) h.1
]
