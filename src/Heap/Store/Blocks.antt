-- ===== src/Heap/Store/Blocks.antt =====
-- Where a new block lies beside the live ones, and what a write into it leaves alone.
use emulite.Base.{ℕ, ◌+◌, ◌≤◌, ◌<◌, ◌≡◌, ◌%◌, ◌⊎◌, inl, inr, some, arith, lt_cases}
use emulite.Base.Dict.{lookup}
use emulite.Heap.{HeapAllocator}
use emulite.Heap.Covers.{inside, covers, covers-erase, Entries-lookup}
use emulite.Heap.Invariant.{IsValid, IsLive, rounded, round_up_bounds, live_block}

apart_of_disjoint :
    (a m b n : ℕ)
    → 0 < m
    → 0 < n
    → ((x : ℕ) → inside a (a + m) x + inside b (b + n) x ≤ 1)
    → (a + m ≤ b) ⊎ (b + n ≤ a)
apart_of_disjoint a m b n p q d = elim (lt_cases b (a + m)) [
  | inr l ↦ inl l
  | inl l ↦ elim (lt_cases a (b + n)) [
    | inr r ↦ inr r
    | inl r ↦ elim (lt_cases a b) [
      | inl s ↦ absurd (ground (arith, d b))
      | inr s ↦ absurd (ground (arith, d a))
    ]
  ]
]

module _ {h : HeapAllocator} (v : IsValid h) where
  pub live_size : (k s : ℕ) → lookup k h.sizes ≡ some s → (0 < s) × (k % 16 ≡ 0)
  live_size k s e = Entries-lookup IsLive k s h.sizes v.live e

  pub live_ne_zero : (k s : ℕ) → lookup k h.sizes ≡ some s → 0 < k
  live_ne_zero k s e =
      let long = live_size k s e in
      let low = live_block v k s k e (omega arith) (omega (arith, round_up_bounds s)) in
      omega (arith, v.positive)

  -- the bytes of a live block are apart from those of a block that shares no byte with a live one
  pub live_apart :
      (n size k s : ℕ)
      → 0 < size
      → ((x : ℕ) → covers rounded x h.sizes + inside n (n + rounded size) x ≤ inside h.base h.end x)
      → lookup k h.sizes ≡ some s
      → (k + s ≤ n) ⊎ (n + size ≤ k)
  live_apart n size k s p free e =
      let long = live_size k s e in
      let first = round_up_bounds s in
      let second = round_up_bounds size in
      elim (apart_of_disjoint k (rounded s) n (rounded size) (omega arith) (omega arith)
        (λ x. ground (arith, free x, covers-erase rounded x k s h.sizes e))) [
          | inl l ↦ inl (omega (arith, l))
          | inr l ↦ inr (omega (arith, l))
        ]
