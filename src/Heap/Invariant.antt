-- ===== src/Heap/Invariant.antt =====
-- The valid states of the allocator: blocks, live and free, that tile the arena up to the cursor.
use emulite.Base.{ℕ, ◌+◌, ◌-◌, ◌%◌, ◌≤◌, ◌<◌, ◌≡◌, refl, none, some, arith, ap, ◌∙◌}
use emulite.Base.Dict.{Dict, lookup}
use emulite.Base.Bits.{clear_bits, clear_bits-mask}
use emulite.Heap.{HeapAllocator, align, arena_size, init, round_up, find_ending}
use emulite.Heap.Covers.{inside, covers, whole, Entries, covers-erase, lookup_uncovered}

-- the bytes that a live entry takes
abbrev pub rounded : ℕ → ℕ
rounded size = round_up size align

abbrev pub IsLive : ℕ → ℕ → Type 0
IsLive addr size = (0 < size) × (addr % 16 ≡ 0)

abbrev pub IsFree : ℕ → ℕ → Type 0
IsFree addr block = (0 < block) × (addr % 16 ≡ 0) × (block % 16 ≡ 0)

pub record IsValid (h : HeapAllocator) : Type 0 where
  pub positive : 0 < h.base
  pub aligned : (h.base % 16 ≡ 0) × (h.cursor % 16 ≡ 0)
  pub within : (h.base ≤ h.cursor) × (h.cursor ≤ h.end) × (h.end ≡ h.base + arena_size)
  pub live : Entries IsLive h.sizes
  pub free : Entries IsFree h.free
  pub tiled : (x : ℕ) → covers rounded x h.sizes + covers whole x h.free ≡ inside h.base h.cursor x
  pub top : find_ending h.cursor h.free ≡ none

pub round_up-align : (v : ℕ) → round_up v align ≡ v + 15 - (v + 15) % 16
unfolding round_up
round_up-align v = ap (λ (t : ℕ). clear_bits t 15) (omega arith) ∙ clear_bits-mask 4 (v + 15)

pub round_up_bounds :
    (v : ℕ) → (v ≤ round_up v align) × (round_up v align < v + 16) × (round_up v align % 16 ≡ 0)
round_up_bounds v = omega (arith, round_up-align v)

-- the fresh allocator, over an aligned arena that does not start at 0
pub init-IsValid : (base : ℕ) → 0 < base → base % 16 ≡ 0 → IsValid (init base)
unfolding init find_ending
init-IsValid base p a = record {
  positive = p;
  aligned = (a, a);
  within = (omega arith, omega arith, refl);
  live = tt;
  free = tt;
  tiled = λ x. ground arith;
  top = refl;
}

pub IsLive-positive : (k v : ℕ) → IsLive k v → 0 < rounded v
IsLive-positive k v p = omega (arith, round_up_bounds v)

pub IsFree-positive : (k v : ℕ) → IsFree k v → 0 < whole v
IsFree-positive k v p = p.0

-- no live entry begins at a byte that no live entry holds; and so for the free ones
pub absent_live :
    (k : ℕ) (d : Dict ℕ) → Entries IsLive d → covers rounded k d ≡ 0 → lookup k d ≡ none
absent_live k d e c = lookup_uncovered IsLive rounded IsLive-positive k d e c

pub absent_free : (k : ℕ) (d : Dict ℕ) → Entries IsFree d → covers whole k d ≡ 0 → lookup k d ≡ none
absent_free k d e c = lookup_uncovered IsFree whole IsFree-positive k d e c

module _ {h : HeapAllocator} (v : IsValid h) where
  -- the bytes of a free block belong to no live block, and lie below the cursor
  pub free_block :
      (addr block x : ℕ)
      → lookup addr h.free ≡ some block
      → addr ≤ x
      → x < addr + block
      → (covers rounded x h.sizes ≡ 0) × (h.base ≤ x) × (x < h.cursor)
  free_block addr block x e lo hi =
      ground (arith, v.tiled x, covers-erase whole x addr block h.free e)

  -- and those of a live block to no free one
  pub live_block :
      (addr size x : ℕ)
      → lookup addr h.sizes ≡ some size
      → addr ≤ x
      → x < addr + rounded size
      → (covers whole x h.free ≡ 0) × (h.base ≤ x) × (x < h.cursor)
  live_block addr size x e lo hi =
      ground (arith, v.tiled x, covers-erase rounded x addr size h.sizes e)

  pub above_cursor :
      (x : ℕ) → h.cursor ≤ x → (covers rounded x h.sizes ≡ 0) × (covers whole x h.free ≡ 0)
  above_cursor x p = ground (arith, v.tiled x)
