-- ===== src/Heap/Covers.antt =====
-- How many blocks of a dict hold a byte, and how the dict operations of the allocator change it.
use emulite.Base.{
  ℕ, suc, ◌+◌, ◌≤◌, ◌<◌, ◌≡◌, ◌≢◌, refl, none, some, [], ◌∷◌, arith, ltb, leb, if◌then◌else◌,
  eq_cases, inl, inr,
}
use mathlib.Core.Path.{subst₂}
use emulite.Base.Dict.{Dict, lookup, insert, erase, lookup-insert, lookup-erase_ne}
use emulite.Heap.{find_ending}

-- 1 where `lo ≤ x < hi`
abbrev pub inside : ℕ → ℕ → ℕ → ℕ
inside lo hi x = if leb lo x then if ltb x hi then 1 else 0 else 0

-- the number of blocks that hold byte `x`; a block is as long as `w` says of its entry
abbrev pub covers : (ℕ → ℕ) → ℕ → Dict ℕ → ℕ
covers w x [] = 0
covers w x ((k, v) ∷ d) = inside k (k + w v) x + covers w x d

abbrev pub whole : ℕ → ℕ
whole v = v

-- every entry satisfies `P`, and no key occurs twice
abbrev pub Entries : (ℕ → ℕ → Type 0) → Dict ℕ → Type 0
Entries P [] = Unit
Entries P ((k, v) ∷ d) = P k v × (lookup k d ≡ none) × Entries P d

module _ (w : ℕ → ℕ) where
  pub covers-insert :
      (x k v : ℕ) (d : Dict ℕ)
      → lookup k d ≡ none
      → covers w x (insert k v d) ≡ covers w x d + inside k (k + w v) x
  covers-insert x k v [] h = omega arith
  covers-insert x k v ((j, u) ∷ d) h = ground (arith, covers-insert x k v d)

  pub covers-erase :
      (x k v : ℕ) (d : Dict ℕ)
      → lookup k d ≡ some v
      → covers w x (erase k d) + inside k (k + w v) x ≡ covers w x d
  covers-erase x k v [] h = absurd (ground arith)
  covers-erase x k v ((j, u) ∷ d) h = ground (arith, covers-erase x k v d)

  -- an entry holds its first byte
  pub covers_key : (k v : ℕ) (d : Dict ℕ) → lookup k d ≡ some v → 0 < w v → 0 < covers w k d
  covers_key k v d h p = ground (arith, covers-erase k k v d h)

module _ (P : ℕ → ℕ → Type 0) where
  pub Entries-lookup : (k v : ℕ) (d : Dict ℕ) → Entries P d → lookup k d ≡ some v → P k v
  Entries-lookup k v [] e h = absurd (ground arith)
  Entries-lookup k v ((j, u) ∷ d) e h = elim (eq_cases j k) [
    | inl p ↦ subst₂ P p (value p) e.0
    | inr n ↦ Entries-lookup k v d e.2 (ground arith)
  ]
    where
      value : j ≡ k → u ≡ v
      value p = ground arith

  pub Entries-erase : (k : ℕ) (d : Dict ℕ) → Entries P d → Entries P (erase k d)
  Entries-erase k [] e = tt
  Entries-erase k ((j, u) ∷ d) e = ground (arith, Entries-erase k d e.2, lookup-erase_ne k j d)

  pub Entries-insert :
      (k v : ℕ) (d : Dict ℕ) → Entries P d → lookup k d ≡ none → P k v → Entries P (insert k v d)
  Entries-insert k v [] e h p = (p, refl, tt)
  Entries-insert k v ((j, u) ∷ d) e h p =
      ground (arith, Entries-insert k v d e.2, lookup-insert k j v d)

  pub lookup-erase_self : (k : ℕ) (d : Dict ℕ) → Entries P d → lookup k (erase k d) ≡ none
  lookup-erase_self k [] e = refl
  lookup-erase_self k ((j, u) ∷ d) e = ground (arith, lookup-erase_self k d e.2)

  -- what the search for a block by its end returns is an entry with that end
  pub find_ending-lookup :
      (t k v : ℕ) (d : Dict ℕ)
      → Entries P d
      → find_ending t d ≡ some (k, v)
      → (lookup k d ≡ some v) × (k + v ≡ t)
  unfolding find_ending
  find_ending-lookup t k v [] e h = absurd (ground arith)
  find_ending-lookup t k v ((j, u) ∷ d) e h = ground (arith, find_ending-lookup t k v d e.2)

pub find_ending-ne :
    (t k v : ℕ) (d : Dict ℕ) → find_ending t d ≡ none → lookup k d ≡ some v → k + v ≢ t
unfolding find_ending
find_ending-ne t k v [] h l = absurd (ground arith)
find_ending-ne t k v ((j, u) ∷ d) h l = ground (arith, find_ending-ne t k v d)

pub find_ending-erase :
    (t k : ℕ) (d : Dict ℕ) → find_ending t d ≡ none → find_ending t (erase k d) ≡ none
unfolding find_ending
find_ending-erase t k [] h = refl
find_ending-erase t k ((j, u) ∷ d) h = ground (arith, find_ending-erase t k d)

pub find_ending-insert :
    (t k v : ℕ) (d : Dict ℕ)
    → find_ending t d ≡ none
    → k + v ≢ t
    → find_ending t (insert k v d) ≡ none
unfolding find_ending
find_ending-insert t k v [] h p = ground arith
find_ending-insert t k v ((j, u) ∷ d) h p = ground (arith, find_ending-insert t k v d)

-- where no block of positive size holds the byte below `t`, none ends at `t`
pub find_ending_uncovered :
    (P : ℕ → ℕ → Type 0) (positive : (k v : ℕ) → P k v → 0 < v) (t : ℕ) (d : Dict ℕ)
    → Entries P d
    → covers whole t d ≡ 0
    → find_ending (suc t) d ≡ none
unfolding find_ending
find_ending_uncovered P positive t [] e c = refl
find_ending_uncovered P positive t ((j, u) ∷ d) e c =
    ground (arith, positive j u e.0, find_ending_uncovered P positive t d e.2)

-- where no block ends at `t + 1`, the blocks that hold `t` hold `t + 1` too
pub covers_next :
    (t : ℕ) (d : Dict ℕ) → find_ending (suc t) d ≡ none → covers whole t d ≤ covers whole (suc t) d
unfolding find_ending
covers_next t [] h = omega arith
covers_next t ((j, u) ∷ d) h = ground (arith, covers_next t d)

-- a byte that no block holds is no block's first byte
pub lookup_uncovered :
    (P : ℕ → ℕ → Type 0) (w : ℕ → ℕ) (positive : (k v : ℕ) → P k v → 0 < w v) (k : ℕ) (d : Dict ℕ)
    → Entries P d
    → covers w k d ≡ 0
    → lookup k d ≡ none
lookup_uncovered P w positive k [] e c = refl
lookup_uncovered P w positive k ((j, u) ∷ d) e c =
    ground (arith, positive j u e.0, lookup_uncovered P w positive k d e.2)
