-- ===== src/Heap/Hole.antt =====
-- Between two steps of an operation: a block that no dict lists, and how it comes and goes.
use emulite.Base.{
  ℕ, suc, ◌+◌, ◌-◌, ◌%◌, ◌≤◌, ◌<◌, ◌≡◌, none, some, arith, leb, Bool-cases, inl, inr, false,
}
use emulite.Base.Dict.{lookup, insert, erase}
use emulite.Heap.{HeapAllocator, align, arena_size, find_ending, carve_block}
use emulite.Heap.Covers.{
  inside, covers, whole, Entries, Entries-lookup, Entries-erase, Entries-insert, covers-erase,
  covers-insert, find_ending-ne, find_ending-erase, find_ending-insert, find_ending_uncovered,
}
use emulite.Heap.Invariant.{
  IsValid, IsLive, IsFree, rounded, round_up_bounds, absent_live, absent_free, above_cursor,
  IsFree-positive,
}

-- the invariant, but for the block at `addr`
pub record HasHole (addr size : ℕ) (h : HeapAllocator) : Type 0 where
  pub positive : 0 < h.base
  pub aligned : (h.base % 16 ≡ 0) × (h.cursor % 16 ≡ 0)
  pub within : (h.base ≤ h.cursor) × (h.cursor ≤ h.end) × (h.end ≡ h.base + arena_size)
  pub live : Entries IsLive h.sizes
  pub free : Entries IsFree h.free
  pub hole : IsFree addr size
  pub tiled :
      (x : ℕ)
      → covers rounded x h.sizes + covers whole x h.free + inside addr (addr + size) x
        ≡ inside h.base h.cursor x
  pub top : find_ending h.cursor h.free ≡ none

-- the hole lies in the arena, below the cursor, and in no listed block
pub hole_bounds :
    {addr size : ℕ} {h : HeapAllocator}
    → HasHole addr size h
    → (x : ℕ) → addr ≤ x
    → x < addr + size
    → (h.base ≤ x) × (x < h.cursor) × (covers rounded x h.sizes ≡ 0) × (covers whole x h.free ≡ 0)
hole_bounds p x lo hi = ground (arith, p.tiled x)

-- a new live entry fills the hole
pub HasHole-enter :
    {addr size : ℕ} {h : HeapAllocator}
    → HasHole addr (rounded size) h
    → 0 < size
    → IsValid (record h { sizes = insert addr size h.sizes })
HasHole-enter {addr} {size} {h} p s =
    let b = hole_bounds p addr (omega arith) (omega (arith, p.hole.0)) in
    let absent = absent_live addr h.sizes p.live b.2 in
    record {
      positive = p.positive;
      aligned = p.aligned;
      within = p.within;
      live = Entries-insert IsLive addr size h.sizes p.live absent (s, p.hole.1);
      free = p.free;
      tiled = λ x. omega (arith, p.tiled x, covers-insert rounded x addr size h.sizes absent);
      top = p.top;
    }

-- a live entry that is taken out leaves a hole
pub IsValid-leave :
    {h : HeapAllocator} (addr size : ℕ)
    → IsValid h
    → lookup addr h.sizes ≡ some size
    → HasHole addr (rounded size) (record h { sizes = erase addr h.sizes })
IsValid-leave {h} addr size v e =
    let l = Entries-lookup IsLive addr size h.sizes v.live e in
    record {
      positive = v.positive;
      aligned = v.aligned;
      within = v.within;
      live = Entries-erase IsLive addr h.sizes v.live;
      free = v.free;
      hole = (omega (arith, round_up_bounds size), l.1, (round_up_bounds size).2);
      tiled = λ x. omega (arith, v.tiled x, covers-erase rounded x addr size h.sizes e);
      top = v.top;
    }

-- no free block ends above the cursor
pub no_end_above :
    {h : HeapAllocator} → IsValid h → (t : ℕ) → h.cursor < t → find_ending t h.free ≡ none
no_end_above {h} v t p =
    let e : t ≡ suc (t - 1) = omega arith in
    rw e (
      find_ending_uncovered IsFree IsFree-positive (t - 1) h.free v.free
        (above_cursor v (t - 1) (omega arith)).1)

-- the bump of the cursor
pub IsValid-bump :
    {h : HeapAllocator} (need : ℕ)
    → IsValid h
    → 0 < need
    → need % 16 ≡ 0
    → h.cursor + need ≤ h.end
    → HasHole h.cursor need (record h { cursor = h.cursor + need })
IsValid-bump {h} need v p a fits = record {
  positive = v.positive;
  aligned = (v.aligned.0, omega arith);
  within = (omega arith, fits, v.within.2);
  live = v.live;
  free = v.free;
  hole = (p, v.aligned.1, a);
  tiled = λ x. ground (arith, v.tiled x);
  top = no_end_above v (h.cursor + need) (omega arith);
}

-- a block taken from the free ones
module _ {h : HeapAllocator} (need addr block : ℕ) (v : IsValid h)
    (e : lookup addr h.free ≡ some block) (p : 0 < need) (a : need % 16 ≡ 0)
    (fits : need ≤ block) where
  is_free : IsFree addr block
  is_free = Entries-lookup IsFree addr block h.free v.free e

  rest_absent : need < block → lookup (addr + need) (erase addr h.free) ≡ none
  rest_absent more =
      absent_free (addr + need) (erase addr h.free) (Entries-erase IsFree addr h.free v.free) (
        ground (arith, v.tiled (addr + need), covers-erase whole (addr + need) addr block h.free e))

  carve_block-Entries : Entries IsFree (carve_block need addr block h.free)
  unfolding carve_block
  carve_block-Entries =
      let kept = Entries-erase IsFree addr h.free v.free in
      elim (Bool-cases (leb align (block - need))) [
        | inl more ↦ rw more (
            Entries-insert IsFree (addr + need) (block - need) (erase addr h.free) kept
              (rest_absent (ground arith))
              (ground arith, omega (arith, is_free), omega (arith, is_free)))
        | inr all ↦ rw all kept
      ]

  exact_fit : leb align (block - need) ≡ false → block ≡ need
  exact_fit all = ground (arith, is_free)

  covers-carve_block :
      (x : ℕ)
      → covers whole x (carve_block need addr block h.free) + inside addr (addr + need) x
        ≡ covers whole x h.free
  unfolding carve_block
  covers-carve_block x =
      let taken = covers-erase whole x addr block h.free e in
      elim (Bool-cases (leb align (block - need))) [
        | inl more ↦ rw more (
            ground (
              arith,
              taken,
              covers-insert whole x (addr + need) (block - need) (erase addr h.free)
                  (rest_absent (ground arith)),
            ))
        | inr all ↦ let same : block ≡ need = exact_fit all in rw all (ground (arith, taken, same))
      ]

  find_ending-carve_block : find_ending h.cursor (carve_block need addr block h.free) ≡ none
  unfolding carve_block
  find_ending-carve_block = ground (
    arith,
    find_ending-ne h.cursor addr block h.free v.top e,
    find_ending-erase h.cursor addr h.free v.top,
    find_ending-insert h.cursor (addr + need) (block - need) (erase addr h.free),
  )

  pub IsValid-carve : HasHole addr need (record h { free = carve_block need addr block h.free })
  IsValid-carve = record {
    positive = v.positive;
    aligned = v.aligned;
    within = v.within;
    live = v.live;
    free = carve_block-Entries;
    hole = (p, is_free.1, a);
    tiled = λ x. omega (arith, v.tiled x, covers-carve_block x);
    top = find_ending-carve_block;
  }
