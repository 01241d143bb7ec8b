-- ===== src/Storage/Receiving.antt =====
-- What the loop of `save_upload` reads and writes.
use fastapi_shipment_import.Base.{
  ℕ, ◌+◌, suc, ◌≤◌, ◌<◌, ◌≡◌, ◌∙◌, subst, sym, refl, arith, String, true, false, Bool-cases, inl,
  inr, some, List, [], ◌∷◌, ◌++◌, length, length-append, ltb, str_eq, eq_iff,
}
use mathlib.Core.List.{append_assoc, append-nil}
use fastapi_shipment_import.Storage

-- All bytes of the upload: those read before the first empty chunk or exception.
abbrev pub all_bytes : List Storage.Read → Storage.Bytes
all_bytes [] = []
all_bytes (Storage.read_failed e ∷ reads) = []
all_bytes (Storage.chunk [] ∷ reads) = []
all_bytes (Storage.chunk (b ∷ bytes) ∷ reads) = (b ∷ bytes) ++ all_bytes reads

-- The files are the same at every other path.
abbrev pub SameOff : String → Storage.Disk → Storage.Disk → Type 0
SameOff path before after = (p : String) → str_eq p path ≡ false → after.files p ≡ before.files p

abbrev pub SameFiles : Storage.Disk → Storage.Disk → Type 0
SameFiles before after = (p : String) → after.files p ≡ before.files p

-- What the loop leaves, started on `content` in the file `temp`.
abbrev pub ReceiveOutcome :
    ℕ → String → Storage.Bytes → Storage.Disk → Storage.Received → Storage.Disk → Type 0
ReceiveOutcome max_size temp all disk (Storage.received total content) after =
    (content ≡ all)
    × (total ≡ length content)
    × (total ≤ max_size)
    × (after.files temp ≡ some content)
    × SameOff temp disk after
ReceiveOutcome max_size temp all disk Storage.too_large after =
    (max_size < length all) × SameOff temp disk after
ReceiveOutcome max_size temp all disk (Storage.broken e) after = SameOff temp disk after

pub str_eq_refl : (p : String) → str_eq p p ≡ true
str_eq_refl p = (eq_iff p p).1 refl

pub ReceiveOutcome-before :
    (max_size : ℕ) (temp : String) (all : Storage.Bytes) (disk mid : Storage.Disk)
    (r : Storage.Received) (after : Storage.Disk)
    → SameOff temp disk mid
    → ReceiveOutcome max_size temp all mid r after
    → ReceiveOutcome max_size temp all disk r after
ReceiveOutcome-before max_size temp all disk mid (Storage.received total content) after off h =
    (h.0, h.1, h.2, h.3, λ p away. h.4 p away ∙ off p away)
ReceiveOutcome-before max_size temp all disk mid Storage.too_large after off h =
    (h.0, λ p away. h.1 p away ∙ off p away)
ReceiveOutcome-before max_size temp all disk mid (Storage.broken e) after off h =
    λ p away. h p away ∙ off p away

module _ (machine : Storage.Machine) where
  pub receive-outcome :
      (max_size : ℕ) (temp : String) (total : ℕ) (content : Storage.Bytes)
      (reads : List Storage.Read) (disk : Storage.Disk)
      → total ≡ length content
      → total ≤ max_size
      → disk.files temp ≡ some content
      → ReceiveOutcome max_size temp
          (content ++ all_bytes reads)
          disk
          (Storage.receive machine max_size temp total content reads disk).0
          (Storage.receive machine max_size temp total content reads disk).1
  unfolding Storage.receive
  receive-outcome max_size temp total content [] disk sized le held =
      (sym (append-nil content), sized, le, held, λ p off. refl)
  receive-outcome max_size temp total content (Storage.read_failed e ∷ reads) disk sized le held =
      λ p off. refl
  receive-outcome max_size temp total content (Storage.chunk [] ∷ reads) disk sized le held =
      (sym (append-nil content), sized, le, held, λ p off. refl)
  receive-outcome max_size temp total content (Storage.chunk (b ∷ bytes) ∷ reads) disk sized le
        held =
      let more = length-append content (b ∷ bytes) in
      let all = length-append content (b ∷ (bytes ++ all_bytes reads)) in
      let read = length-append bytes (all_bytes reads) in
      let written : Storage.Disk = record {
        files = Storage.put temp (content ++ b ∷ bytes) disk.files;
        operations = suc disk.operations;
      } in
      elim (Bool-cases (ltb max_size (total + length (b ∷ bytes)))) [
        | inl t ↦ rw t (ground (arith, t, sized, all, read), λ p off. refl)
        | inr f ↦ elim (Bool-cases (machine.refuses disk.operations)) [
          | inl refused ↦ rw (f, refused) (λ p off. refl)
          | inr fine ↦
              let later =
                receive-outcome max_size temp (total + length (b ∷ bytes)) (content ++ b ∷ bytes)
                  reads written (omega (arith, sized, more)) (ground (arith, f))
                  (rw (str_eq_refl temp) refl) in
              let moved =
                subst
                  (λ all.
                    ReceiveOutcome max_size temp all written
                      (Storage.receive machine max_size temp (total + length (b ∷ bytes))
                        (content ++ b ∷ bytes) reads written).0
                      (Storage.receive machine max_size temp (total + length (b ∷ bytes))
                        (content ++ b ∷ bytes) reads written).1)
                  (append_assoc content (b ∷ bytes) (all_bytes reads)) later in
              rw (f, fine)
                (ReceiveOutcome-before max_size temp (content ++ b ∷ (bytes ++ all_bytes reads))
                  disk written _ _ (λ p off. rw off refl) moved)
        ]
      ]
