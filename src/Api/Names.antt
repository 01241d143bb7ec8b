-- ===== src/Api/Names.antt =====
-- The names that the upload handler accepts, and the paths under which their files are stored.
use Prim.Native.Char.{code, Char}
use fastapi_shipment_import.Base.{
  String, ◌≡◌, refl, sym, ap, ◌∙◌, subst, Bool, true, false, not, ◌&&◌, Bool-cases, inl, inr,
  Option, none, some, List, [], ◌∷◌, ◌==◌, arith, All, All-select_where, select_where, is_empty,
  str_eq, eq_iff, append_text, if◌then◌else◌,
}
use fastapi_shipment_import.Storage
use fastapi_shipment_import.Storage.Paths.{
  prepend, split_slashes, last_or_empty, path_name, path_suffix,
}
use fastapi_shipment_import.Api.Errors.{responded}
use fastapi_shipment_import.Api.Imports

abbrev pub slash_free : String → Bool
slash_free String.[] = true
slash_free (String.◌∷◌ c s) = let rest = slash_free s in if code c == 47 then false else rest

abbrev pub is_component : String → Bool
is_component part = not (is_empty part) && not (str_eq part ".")

prepend-slash_free :
    (c : Char) (parts : List String)
    → (code c == 47) ≡ false
    → All (λ part. slash_free part ≡ true) parts
    → All (λ part. slash_free part ≡ true) (prepend c parts)
prepend-slash_free c [] e h = (rw e refl, tt)
prepend-slash_free c (part ∷ parts) e h = (rw e h.0, h.1)

split_slashes-slash_free : (s : String) → All (λ part. slash_free part ≡ true) (split_slashes s)
unfolding split_slashes
split_slashes-slash_free String.[] = (refl, tt)
split_slashes-slash_free (String.◌∷◌ c s) = elim (Bool-cases (code c == 47)) [
  | inl t ↦ rw t (refl, split_slashes-slash_free s)
  | inr f ↦ rw f (prepend-slash_free c (split_slashes s) f (split_slashes-slash_free s))
]

split_slashes-alone : (s : String) → slash_free s ≡ true → split_slashes s ≡ s ∷ []
unfolding split_slashes
split_slashes-alone String.[] h = refl
split_slashes-alone (String.◌∷◌ c s) h = elim (Bool-cases (code c == 47)) [
  | inl t ↦ absurd (ground (arith, t, h))
  | inr f ↦ rw f (ap (prepend c) (split_slashes-alone s (ground (arith, f, h))))
]

last_or_empty-All :
    (P : String → Type 0) (parts : List String)
    → All P parts
    → is_empty (last_or_empty parts) ≡ false
    → P (last_or_empty parts)
last_or_empty-All P [] h e = absurd (ground (arith, e))
last_or_empty-All P (part ∷ []) h e = h.0
last_or_empty-All P (part ∷ other ∷ parts) h e = last_or_empty-All P (other ∷ parts) h.1 e

select_where-All {ℓ} :
    {A : Type ℓ} (p : A → Bool) (xs : List A) → All (λ x. p x ≡ true) (select_where p xs)
unfolding select_where
select_where-All p [] = tt
select_where-All p (x ∷ xs) = elim (Bool-cases (p x)) [
  | inl t ↦ rw t (t, select_where-All p xs)
  | inr f ↦ rw f (select_where-All p xs)
]

-- The name of a path is a component: its own name.
path_name-again :
    (s : String) → is_empty (path_name s) ≡ false → path_name (path_name s) ≡ path_name s
unfolding path_name select_where
path_name-again s e =
    let parts = select_where is_component (split_slashes s) in
    let free =
      last_or_empty-All (λ part. slash_free part ≡ true) parts
        (All-select_where (λ part. slash_free part ≡ true) is_component (split_slashes s)
          (split_slashes-slash_free s))
        e in
    let ok =
      last_or_empty-All (λ part. is_component part ≡ true) parts
        (select_where-All is_component (split_slashes s)) e in
    ap (λ parts. last_or_empty (select_where is_component parts))
      (split_slashes-alone (last_or_empty parts) free)
    ∙ rw ok refl

path_name-slash_free :
    (s : String) → is_empty (path_name s) ≡ false → slash_free (path_name s) ≡ true
unfolding path_name
path_name-slash_free s e =
    last_or_empty-All (λ part. slash_free part ≡ true) (select_where is_component (split_slashes s))
      (All-select_where (λ part. slash_free part ≡ true) is_component (split_slashes s)
        (split_slashes-slash_free s))
      e

responded-inj : {A : Type 0} (a b : A) → responded a ≡ responded b → a ≡ b
responded-inj a b e = cc

-- A file name that the upload handler accepts is its own last path component and has no slash, and
-- its file is stored under the upload directory with the UUID and .xlsx as its name, whatever
-- directories the client named.
pub validate_original_file_name-stores :
    (machine : Storage.Machine) (filename : Option String) (token name : String)
    → Imports.validate_original_file_name machine.lower filename ≡ responded name
    → (path_name name ≡ name)
      × (slash_free name ≡ true)
      × (Storage.final_path machine token name
          ≡ append_text machine.upload_dir (append_text "/" (append_text token ".xlsx")))
unfolding Imports.validate_original_file_name
validate_original_file_name-stores machine none token name e = absurd (ground (arith, e))
validate_original_file_name-stores machine (some given) token name e =
    elim (Bool-cases (Imports.bad_name machine.lower (path_name given))) [
      | inl t ↦ absurd (ground (arith, e, t))
      | inr f ↦
          let is : path_name given ≡ name =
            responded-inj (path_name given) name (ground (arith, e, f)) in
          let filled : is_empty (path_name given) ≡ false = ground (arith, f) in
          let again = path_name-again given filled in
          let own : path_name name ≡ name = subst (λ n. path_name n ≡ n) is again in
          let suffix =
            (eq_iff (machine.lower (path_suffix (path_name given))) ".xlsx").0
              (ground (arith, f)) in
          let suffix' =
            subst (λ n. machine.lower (path_suffix n) ≡ ".xlsx") (is ∙ sym own) suffix in
          (
            own,
            subst (λ n. slash_free n ≡ true) is (path_name-slash_free given filled),
            ap (λ s. append_text machine.upload_dir (append_text "/" (append_text token s)))
                suffix',
          )
    ]
