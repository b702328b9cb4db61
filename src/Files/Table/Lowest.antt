-- ===== src/Files/Table/Lowest.antt =====
-- `next(i for i in itertools.count(min_fd) if i not in self._fds)`: its fuel and its answer.
use emulite.Base.{
  ℕ, zero, suc, ◌≤◌, ◌<◌, ◌≡◌, ◌≢◌, refl, ◌∙◌, sym, true, false, Option, none, some, [], ◌∷◌,
  length, arith, Bool-cases, Option-cases, eq_cases, inl, inr, leb, ltb, ◌&&◌,
}
use emulite.Base.Dict.{Dict, lookup, contains, erase, lookup-erase_ne, length-erase}
use emulite.Files.Table.{FileDescriptor, count_from, lowest_free}

count_from_skip :
    (fuel i : ℕ) (fds : Dict FileDescriptor)
    → contains i fds ≡ true
    → count_from (suc fuel) i fds ≡ count_from fuel (suc i) fds
unfolding count_from
count_from_skip fuel i fds e = rw (e, count_from) refl

count_from_stop :
    (fuel i : ℕ) (fds : Dict FileDescriptor)
    → contains i fds ≡ false
    → count_from (suc fuel) i fds ≡ i
unfolding count_from
count_from_stop fuel i fds e = rw (e, count_from) refl

contains-erase_ne :
    (k j : ℕ) (fds : Dict FileDescriptor) → k ≢ j → contains j (erase k fds) ≡ contains j fds
contains-erase_ne k j fds h = rw (lookup-erase_ne k j fds h, contains) refl

lookup_absent : (k : ℕ) (fds : Dict FileDescriptor) → contains k fds ≡ false → lookup k fds ≡ none
lookup_absent k fds e = by_lookup (lookup k fds) e
  where
    by_lookup :
        (o : Option FileDescriptor) → (elim o [ none ↦ false | some _ ↦ true ]) ≡ false → o ≡ none
    by_lookup none e = refl
    by_lookup (some d) e = absurd (ground arith)

length-erase_present :
    (k : ℕ) (fds : Dict FileDescriptor)
    → contains k fds ≡ true
    → suc (length (erase k fds)) ≡ length fds
length-erase_present k fds e = elim (Option-cases (lookup k fds)) [
  | inl absent ↦ absurd (ground arith)
  | inr (d, there) ↦ length-erase k d fds there
]

-- an entry below the start does not matter
count_from-erase :
    (fuel i k : ℕ) (fds : Dict FileDescriptor)
    → k < i
    → count_from fuel i (erase k fds) ≡ count_from fuel i fds
unfolding count_from
count_from-erase zero i k fds h = refl
count_from-erase (suc fuel) i k fds h =
    let same = contains-erase_ne k i fds (λ p. ground arith) in
    elim (Bool-cases (contains i fds)) [
      | inl e ↦
          count_from_skip fuel i (erase k fds) (same ∙ e)
          ∙ count_from-erase fuel (suc i) k fds (omega arith)
          ∙ sym (count_from_skip fuel i fds e)
      | inr e ↦ count_from_stop fuel i (erase k fds) (same ∙ e) ∙ sym (count_from_stop fuel i fds e)
    ]

count_from_start : (fuel i : ℕ) (fds : Dict FileDescriptor) → i ≤ count_from fuel i fds
unfolding count_from
count_from_start zero i fds = omega arith
count_from_start (suc fuel) i fds = ground (arith, count_from_start fuel (suc i) fds)

-- as much fuel as there are entries is enough
count_from_free :
    (fuel i : ℕ) (fds : Dict FileDescriptor)
    → length fds ≤ fuel
    → contains (count_from fuel i fds) fds ≡ false
unfolding count_from
count_from_free zero i [] h = refl
count_from_free zero i (e ∷ fds) h = absurd (omega arith)
count_from_free (suc fuel) i fds h = elim (Bool-cases (contains i fds)) [
  | inr free ↦ rw (count_from_stop fuel i fds free) free
  | inl taken ↦
      let fewer = length-erase_present i fds taken in
      let found = count_from fuel (suc i) fds in
      let above = count_from_start fuel (suc i) fds in
      let rest = count_from_free fuel (suc i) (erase i fds) (omega (arith, fewer)) in
      let moved : contains found (erase i fds) ≡ false =
        rw (← count_from-erase fuel (suc i) i fds (omega arith)) rest in
      rw (count_from_skip fuel i fds taken)
        (sym (contains-erase_ne i found fds (λ p. omega (arith, above))) ∙ moved)
]

count_from_least :
    (fuel i j : ℕ) (fds : Dict FileDescriptor)
    → i ≤ j
    → j < count_from fuel i fds
    → contains j fds ≡ true
unfolding count_from
count_from_least zero i j fds lo hi = absurd (omega arith)
count_from_least (suc fuel) i j fds lo hi = elim (Bool-cases (contains i fds)) [
  | inr free ↦ absurd (omega (arith, count_from_stop fuel i fds free))
  | inl taken ↦ elim (eq_cases i j) [
    | inl same ↦ rw (← same) taken
    | inr other ↦
        count_from_least fuel (suc i) j fds (omega arith)
          (omega (arith, count_from_skip fuel i fds taken))
  ]
]

-- the descriptor found is not in use
pub lowest_free_absent :
    (min_fd : ℕ) (fds : Dict FileDescriptor) → lookup (lowest_free min_fd fds) fds ≡ none
unfolding lowest_free
lowest_free_absent min_fd fds =
    lookup_absent (count_from (length fds) min_fd fds) fds
      (count_from_free (length fds) min_fd fds (omega arith))

-- The search for a descriptor ends, at one that is not in use and not below the least allowed;
-- and a descriptor `j` that is allowed and lower is in use.
pub lowest_free-IsLeast :
    (min_fd j : ℕ) (fds : Dict FileDescriptor)
    → (lookup (lowest_free min_fd fds) fds ≡ none)
      × (min_fd ≤ lowest_free min_fd fds)
      × ((leb min_fd j && ltb j (lowest_free min_fd fds))
          ≡ (leb min_fd j && ltb j (lowest_free min_fd fds) && contains j fds))
unfolding lowest_free
lowest_free-IsLeast min_fd j fds = (
  lowest_free_absent min_fd fds,
  count_from_start (length fds) min_fd fds,
  elim (Bool-cases (leb min_fd j && ltb j (count_from (length fds) min_fd fds))) [
    | inl e ↦
        let used = count_from_least (length fds) min_fd j fds (ground arith) (ground arith) in
        rw used (ground arith)
    | inr e ↦ ground arith
  ],
)
