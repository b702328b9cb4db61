-- ===== src/Heap/Release.antt =====
-- `free`: joining a block with its free neighbours, and lowering the cursor over free blocks.
use emulite.Base.{
  ℕ, zero, suc, ◌+◌, ◌%◌, ◌≤◌, ◌<◌, ◌≡◌, ◌≢◌, refl, none, some, [], ◌∷◌, arith, ◌==◌, Bool-cases,
  Option-cases, inl, inr, length,
}
use emulite.Base.Dict.{Dict, lookup, insert, erase, length-erase}
use emulite.Heap.{
  HeapAllocator, arena_size, find_ending, shrink, join_next, join_prev, settle, insert_free,
}
use emulite.Heap.Covers.{
  inside, covers, whole, Entries, Entries-lookup, Entries-erase, Entries-insert, covers-erase,
  covers-insert, find_ending-erase, find_ending-insert, find_ending-lookup,
}
use emulite.Heap.Invariant.{IsValid, IsLive, IsFree, rounded, absent_free}
use emulite.Heap.Hole.{HasHole, hole_bounds}

-- the invariant, but for what lies just below the cursor
pub record IsTiled (h : HeapAllocator) : Type 0 where
  pub positive : 0 < h.base
  pub aligned : (h.base % 16 ≡ 0) × (h.cursor % 16 ≡ 0)
  pub within : (h.base ≤ h.cursor) × (h.cursor ≤ h.end) × (h.end ≡ h.base + arena_size)
  pub live : Entries IsLive h.sizes
  pub free : Entries IsFree h.free
  pub tiled : (x : ℕ) → covers rounded x h.sizes + covers whole x h.free ≡ inside h.base h.cursor x

-- a free block under the cursor lies in the arena, and may be given back
IsTiled-lower :
    {h : HeapAllocator} (addr block : ℕ)
    → IsTiled h
    → lookup addr h.free ≡ some block
    → addr + block ≡ h.cursor
    → IsTiled (record h { cursor = addr; free = erase addr h.free })
IsTiled-lower {h} addr block t e ends =
    let f = Entries-lookup IsFree addr block h.free t.free e in
    let low : h.base ≤ addr =
      ground (arith, t.tiled addr, covers-erase whole addr addr block h.free e) in
    record {
      positive = t.positive;
      aligned = (t.aligned.0, f.1);
      within = (low, omega arith, t.within.2);
      live = t.live;
      free = Entries-erase IsFree addr h.free t.free;
      tiled = λ x. ground (arith, t.tiled x, covers-erase whole x addr block h.free e);
    }

IsTiled-top : {h : HeapAllocator} → IsTiled h → find_ending h.cursor h.free ≡ none → IsValid h
IsTiled-top t top = record {
  positive = t.positive;
  aligned = t.aligned;
  within = t.within;
  live = t.live;
  free = t.free;
  tiled = t.tiled;
  top = top;
}

find_ending_empty : (t : ℕ) (d : Dict ℕ) → length d ≤ 0 → find_ending t d ≡ none
unfolding find_ending
find_ending_empty t [] h = refl
find_ending_empty t (e ∷ d) h = absurd (omega arith)

-- From a state that is valid but for free blocks under its cursor, and with at least as much
-- fuel as there are free blocks, the loop ends with no free block under the cursor, in a valid
-- state.
pub shrink-IsValid :
    (fuel : ℕ) (h : HeapAllocator) → length h.free ≤ fuel → IsTiled h → IsValid (shrink fuel h)
unfolding shrink
shrink-IsValid zero h few t = IsTiled-top t (find_ending_empty h.cursor h.free few)
shrink-IsValid (suc fuel) h few t = elim (Option-cases (find_ending h.cursor h.free)) [
  | inl top ↦ rw (top, shrink) (IsTiled-top t top)
  | inr (found, e) ↦
      let hit = find_ending-lookup IsFree h.cursor found.0 found.1 h.free t.free e in
      rw (e, shrink)
        (shrink-IsValid fuel (record h { cursor = found.0; free = erase found.0 h.free })
          (omega (arith, length-erase found.0 found.1 h.free hit.0))
          (IsTiled-lower found.0 found.1 t hit.0 hit.1))
]

module _ {h : HeapAllocator} {addr size : ℕ} (p : HasHole addr size h) where
  -- a free block beside the hole widens it
  widen :
      (addr' size' k block : ℕ)
      → lookup k h.free ≡ some block
      → IsFree addr' size'
      → ((x : ℕ)
          → inside addr' (addr' + size') x ≡ inside addr (addr + size) x + inside k (k + block) x)
      → HasHole addr' size' (record h { free = erase k h.free })
  widen addr' size' k block e hole both = record {
    positive = p.positive;
    aligned = p.aligned;
    within = p.within;
    live = p.live;
    free = Entries-erase IsFree k h.free p.free;
    hole = hole;
    tiled = λ x. omega (arith, p.tiled x, covers-erase whole x k block h.free e, both x);
    top = find_ending-erase h.cursor k h.free p.top;
  }

  pub join_next-HasHole :
      let (size', free') = join_next addr size h.free in
      HasHole addr size' (record h { free = free' })
  unfolding join_next
  join_next-HasHole = elim (Option-cases (lookup (addr + size) h.free)) [
    | inl e ↦ rw (e, join_next) p
    | inr (next, e) ↦
        let f = Entries-lookup IsFree (addr + size) next h.free p.free e in
        rw (e, join_next)
          (widen addr (size + next) (addr + size) next e (omega (arith, f, p.hole))
            (λ x. ground arith))
  ]

  pub join_prev-HasHole :
      let (addr', size', free') = join_prev addr size h.free in
      HasHole addr' size' (record h { free = free' })
  unfolding join_prev
  join_prev-HasHole = elim (Option-cases (find_ending addr h.free)) [
    | inl e ↦ rw (e, join_prev) p
    | inr (found, e) ↦
        let hit = find_ending-lookup IsFree addr found.0 found.1 h.free p.free e in
        let f = Entries-lookup IsFree found.0 found.1 h.free p.free hit.0 in
        rw (e, join_prev)
          (widen found.0 (size + found.1) found.0 found.1 hit.0 (omega (arith, f, p.hole))
            (λ x. ground (arith, hit.1)))
  ]

  IsTiled-back : addr + size ≡ h.cursor → IsTiled (record h { cursor = addr })
  IsTiled-back ends =
      let b = hole_bounds p addr (omega arith) (omega (arith, p.hole)) in
      record {
        positive = p.positive;
        aligned = (p.aligned.0, p.hole.1);
        within = (b.0, omega (arith, p.within), p.within.2);
        live = p.live;
        free = p.free;
        tiled = λ x. ground (arith, p.tiled x, b.0, ends);
      }

  IsValid-keep : addr + size ≢ h.cursor → IsValid (record h { free = insert addr size h.free })
  IsValid-keep apart =
      let b = hole_bounds p addr (omega arith) (omega (arith, p.hole)) in
      let absent = absent_free addr h.free p.free b.3 in
      record {
        positive = p.positive;
        aligned = p.aligned;
        within = p.within;
        live = p.live;
        free = Entries-insert IsFree addr size h.free p.free absent p.hole;
        tiled = λ x. omega (arith, p.tiled x, covers-insert whole x addr size h.free absent);
        top = find_ending-insert h.cursor addr size h.free p.top apart;
      }

  pub settle-IsValid : IsValid (settle addr size h.free h)
  unfolding settle
  settle-IsValid = elim (Bool-cases (addr + size == h.cursor)) [
    | inl e ↦
        rw (e, settle)
          (shrink-IsValid (length h.free) (record h { cursor = addr }) (omega arith)
            (IsTiled-back (ground arith)))
    | inr e ↦ rw (e, settle) (IsValid-keep (λ q. ground arith))
  ]

-- A block given back becomes free, joined with its neighbours, or goes back to the cursor.
pub insert_free-IsValid :
    {h : HeapAllocator} {addr size : ℕ} → HasHole addr size h → IsValid (insert_free addr size h)
unfolding insert_free
insert_free-IsValid {h} {addr} {size} p =
    let next = join_next addr size h.free in
    let q = join_next-HasHole p in
    let prev = join_prev addr next.0 next.1 in settle-IsValid (join_prev-HasHole q)
