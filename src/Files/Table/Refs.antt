-- ===== src/Files/Table/Refs.antt =====
-- How many entries share a description.
use emulite.Base.{
  ℕ, ◌+◌, ◌≤◌, ◌≡◌, refl, none, some, [], ◌∷◌, arith, ◌==◌, Bool-cases, inl, inr, if◌then◌else◌,
}
use emulite.Base.Dict.{Dict, lookup, insert, erase}
use emulite.Files.Table.{FileDescriptor, refs}

pub refs-insert :
    (h k : ℕ) (d : FileDescriptor) (fds : Dict FileDescriptor)
    → lookup k fds ≡ none
    → refs h (insert k d fds) ≡ (if d.handle == h then 1 else 0) + refs h fds
refs-insert h k d [] e = refl
refs-insert h k d ((j, c) ∷ fds) e = ground (arith, refs-insert h k d fds)

pub refs-erase :
    (h k : ℕ) (d : FileDescriptor) (fds : Dict FileDescriptor)
    → lookup k fds ≡ some d
    → refs h fds ≡ (if d.handle == h then 1 else 0) + refs h (erase k fds)
refs-erase h k d [] e = ground arith
refs-erase h k d ((j, c) ∷ fds) e = elim (Bool-cases (j == k)) [
  | inl s ↦ let same : c ≡ d = ground arith in rw (s, erase, same) refl
  | inr s ↦
      let found : lookup k fds ≡ some d = ground arith in
      rw (s, erase) (omega (arith, refs-erase h k d fds found))
]

-- an entry that is replaced by one for the same description
pub refs-replace :
    (h k : ℕ) (d e : FileDescriptor) (fds : Dict FileDescriptor)
    → lookup k fds ≡ some d
    → e.handle ≡ d.handle
    → refs h (insert k e fds) ≡ refs h fds
refs-replace h k d e [] there same = absurd (ground arith)
refs-replace h k d e ((j, c) ∷ fds) there same = elim (Bool-cases (j == k)) [
  | inl s ↦ let first : c ≡ d = ground arith in rw (s, insert, first, same) refl
  | inr s ↦
      let found : lookup k fds ≡ some d = ground arith in
      rw (s, insert) (omega (arith, refs-replace h k d e fds found same))
]

-- an entry refers to its description
pub refs-lookup :
    (k : ℕ) (d : FileDescriptor) (fds : Dict FileDescriptor)
    → lookup k fds ≡ some d
    → 1 ≤ refs d.handle fds
refs-lookup k d fds e = ground (arith, refs-erase d.handle k d fds e)
