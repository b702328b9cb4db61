-- ===== src/Heap.antt =====
-- src/emulite/memory/heap_allocator.py: the allocator of guest-visible native memory, a bump
-- cursor over one arena with a dict of live sizes and a dict of free blocks. `calloc` and `realloc`,
-- which also touch guest memory, stand in Heap.Store.
pub mod Sort
pub mod Covers
pub mod Invariant
pub mod Hole
pub mod Place
pub mod Release
pub mod Laws
pub mod Full
pub mod Aligned
pub mod Session
pub mod Store
mod Tests
use emulite.Base.{
  ℕ, zero, suc, ◌+◌, ◌-◌, ◌≡◌, max, Option, none, some, List, [], ◌∷◌, Bool, true, false, ◌&&◌,
  ◌||◌, not, ltb, leb, ◌==◌, if◌then◌else◌, length,
}
use emulite.Base.Int.{ℤ, pos, negsuc}
use emulite.Base.Dict.{Dict, lookup, contains, insert, erase}
use emulite.Base.Action.{Action, ok, err, Result, value_error, raise, pure, ◌>>=◌, ◌>>◌}
use emulite.Base.Bits.{clear_bits}
use Prim.Native.Nat.{bit_and}
use Sort.{sorted}

abbrev pub arena_size : ℕ
arena_size = 0x0400_0000

-- `_ALIGN`
abbrev pub align : ℕ
align = 16

pub record HeapAllocator : Type 0 where
  pub base : ℕ
  pub cursor : ℕ
  pub end : ℕ
  pub sizes : Dict ℕ
  pub free : Dict ℕ

-- the constructor, at the address that `mem.mmap` has returned
unfoldable pub init : ℕ → HeapAllocator
init base = record { base = base; cursor = base; end = base + arena_size; sizes = []; free = [] }

unfoldable pub round_up : ℕ → ℕ → ℕ
round_up value alignment = clear_bits (value + alignment - 1) (alignment - 1)

unfoldable pub is_foreign : HeapAllocator → ℕ → Bool
is_foreign h addr = not (addr == 0) && not (leb h.base addr && ltb addr h.end)

-- the loop of `_take_free` over the sorted addresses: the first block that is large enough
unfoldable pub first_fit : ℕ → List ℕ → Dict ℕ → Option (ℕ × ℕ)
first_fit need [] free = none
first_fit need (addr ∷ rest) free = elim (lookup addr free) [
  | none ↦ first_fit need rest free
  | some block ↦ if leb need block then some (addr, block) else first_fit need rest free
]

-- `del self._free[addr]`, and the rest of the block goes back
unfoldable pub carve_block : ℕ → ℕ → ℕ → Dict ℕ → Dict ℕ
carve_block need addr block free =
    if leb align (block - need)
    then insert (addr + need) (block - need) (erase addr free)
    else erase addr free

-- the body of its `if block >= need`, and the `return None` after the loop
unfoldable pub take_found : ℕ → HeapAllocator → Option (ℕ × ℕ) → Option ℕ × HeapAllocator
unfolding carve_block
take_found need h none = (none, h)
take_found need h (some (addr, block)) =
    (some addr, record h { free = carve_block need addr block h.free })

unfoldable pub take_free : ℕ → HeapAllocator → Option ℕ × HeapAllocator
unfolding first_fit take_found
take_free need h = take_found need h (first_fit need (sorted h.free) h.free)

-- the `if addr is None` of `malloc`
unfoldable pub bump : ℕ → HeapAllocator → Option ℕ × HeapAllocator
bump need h =
    if ltb arena_size need || ltb h.end (h.cursor + need)
    then (none, h)
    else (some h.cursor, record h { cursor = h.cursor + need })

unfoldable pub or_bump : ℕ → Option ℕ × HeapAllocator → Option ℕ × HeapAllocator
unfolding bump
or_bump need (none, h) = bump need h
or_bump need (some addr, h) = (some addr, h)

unfoldable pub place : ℕ → HeapAllocator → Option ℕ × HeapAllocator
unfolding take_free or_bump
place need h = or_bump need (take_free need h)

-- `self._sizes[addr] = size; return addr`, or `return 0`
unfoldable pub enter : ℕ → Option ℕ × HeapAllocator → Result ℕ × HeapAllocator
enter size (none, h) = (ok 0, h)
enter size (some addr, h) = (ok addr, record h { sizes = insert addr size h.sizes })

unfoldable pub malloc : ℤ → Action HeapAllocator ℕ
unfolding place enter round_up
malloc (negsuc _) h = (err value_error, h)
malloc (pos size) h = if size == 0 then (ok 0, h) else enter size (place (round_up size align) h)

-- the first free block that ends at `target`: the loop over `prev`, and the `next(...)`
unfoldable pub find_ending : ℕ → Dict ℕ → Option (ℕ × ℕ)
find_ending target [] = none
find_ending target ((base, block) ∷ rest) =
    if base + block == target then some (base, block) else find_ending target rest

-- the `while True` of `_insert_free`; each round deletes a free block
unfoldable pub shrink : ℕ → HeapAllocator → HeapAllocator
unfolding find_ending
shrink zero h = h
shrink (suc fuel) h = elim (find_ending h.cursor h.free) [
  | none ↦ h
  | some (previous, _) ↦ shrink fuel (record h { cursor = previous; free = erase previous h.free })
]

-- the first `if` of `_insert_free`: absorb the block that follows
unfoldable pub join_next : ℕ → ℕ → Dict ℕ → ℕ × Dict ℕ
join_next addr size free = elim (lookup (addr + size) free) [
  | none ↦ (size, free)
  | some next ↦ (size + next, erase (addr + size) free)
]

-- its loop over `prev`: absorb the block that ends here
unfoldable pub join_prev : ℕ → ℕ → Dict ℕ → ℕ × ℕ × Dict ℕ
unfolding find_ending
join_prev addr size free = elim (find_ending addr free) [
  | none ↦ (addr, size, free)
  | some (prev, block) ↦ (prev, size + block, erase prev free)
]

-- its last `if`: give the block back to the cursor, or keep it
unfoldable pub settle : ℕ → ℕ → Dict ℕ → HeapAllocator → HeapAllocator
unfolding shrink
settle addr size free h =
    if addr + size == h.cursor
    then shrink (length free) (record h { cursor = addr; free = free })
    else record h { free = insert addr size free }

unfoldable pub insert_free : ℕ → ℕ → HeapAllocator → HeapAllocator
unfolding join_next join_prev settle
insert_free addr size h =
    let (size', free') = join_next addr size h.free in
    let (addr', size'', free'') = join_prev addr size' free' in settle addr' size'' free'' h

-- `free`; a name of its own, since `free` is a field
unfoldable pub release : ℕ → Action HeapAllocator (Unit {0})
unfolding insert_free round_up
release addr h = if addr == 0 then (ok tt, h) else elim (lookup addr h.sizes) [
  | none ↦ (err value_error, h)
  | some size ↦
      (ok tt, insert_free addr (round_up size align) (record h { sizes = erase addr h.sizes }))
]

unfoldable pub usable_size : ℕ → HeapAllocator → Result ℕ
unfolding is_foreign round_up
usable_size addr h =
    if is_foreign h addr
    then err value_error
    else elim (lookup addr h.sizes) [ none ↦ ok 0 | some size ↦ ok (round_up size align) ]

-- the gap below an aligned start becomes a free block
unfoldable pub pad_to : ℕ → HeapAllocator → HeapAllocator
pad_to start h =
    if ltb h.cursor start then record h { free = insert h.cursor (start - h.cursor) h.free } else h

unfoldable pub memalign_place : ℕ → ℕ → HeapAllocator → Option ℕ × HeapAllocator
unfolding pad_to
memalign_place start need h =
    if ltb arena_size need || ltb h.end (start + need)
    then (none, h)
    else (some start, record (pad_to start h) { cursor = start + need })

unfoldable pub memalign : ℤ → ℤ → Action HeapAllocator ℕ
unfolding memalign_place enter round_up
memalign (negsuc _) size h = (err value_error, h)
memalign (pos alignment) size h =
    if ltb alignment 1 || not (bit_and alignment (alignment - 1) == 0)
    then (err value_error, h)
    else elim size [
      | negsuc _ ↦ (err value_error, h)
      | pos n ↦
          if n == 0
          then (ok 0, h)
          else enter n
              (memalign_place (round_up h.cursor (max alignment align)) (round_up n align) h)
    ]
