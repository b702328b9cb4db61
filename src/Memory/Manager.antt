-- ===== src/Memory/Manager.antt =====
-- src/emulite/memory/memory_manager.py, `MemoryManager`: mappings, the break, and the cursors of
-- the arenas, over any backend and for a process of any pointer size.
pub mod Parts
pub mod Table
pub mod Sound
pub mod Calls
pub mod Arenas
pub mod Holes
pub mod Effects
pub mod Session
use emulite.Base.{
  ℕ, zero, suc, ◌+◌, ◌-◌, ◌*◌, ◌%◌, ◌^◌, min, max, Bool, true, false, not, ◌&&◌, ◌||◌, Option, none,
  some, List, [], ◌∷◌, ◌++◌, map, ltb, leb, ◌==◌, if◌then◌else◌,
}
use Prim.Native.Nat.{bit_and}
use Prim.Native.String.{String}
use emulite.Base.Int.{ℤ, pos, negsuc}
use emulite.Base.Bits.{clear_bits}
use emulite.Base.Action.{
  Result, ok, err, Action, value_error, crashed, pure, raise, gets, modify, raise_if, ◌>>=◌, ◌>>◌,
}
use emulite.Memory.Layout.{
  page_size, heap_base, mmap_base, lib_base, return_sentinel, poison_base, page_align_up,
  page_align_down,
}
use emulite.Memory.Regions.{Region, end_of, carve, insort, sort_by_base, record_region, overlaps}
use emulite.Memory.Backend.{Backend}

-- READ | WRITE
abbrev pub rw_flags : ℕ
rw_flags = 3

pub record Manager (be : Backend) : Type 0 where
  pub machine : be.Machine
  pub heap : ℕ
  pub heap_mapped_end : ℕ
  pub mmap_cursor : ℕ
  pub lib : ℕ
  pub poison : ℕ
  pub regions : List Region

-- the constructor
unfoldable pub init : (be : Backend) → be.Machine → Manager be
init be machine = record {
  machine = machine;
  heap = heap_base;
  heap_mapped_end = heap_base;
  mmap_cursor = mmap_base;
  lib = lib_base;
  poison = poison_base;
  regions = [];
}

-- the parts of a region inside `lo`, `hi`, with new permissions: `pieces` of `protect`
unfoldable pub protected_parts : ℕ → ℕ → ℕ → List Region → List Region
unfolding overlaps
protected_parts lo hi perms [] = []
protected_parts lo hi perms (r ∷ rs) =
    let rest = protected_parts lo hi perms rs in
    if overlaps lo hi r
    then record {
      base = max r.base lo;
      size = min (end_of r) hi - max r.base lo;
      perms = perms;
      label = r.label;
    }
      ∷ rest
    else rest

-- `pieces or [(address, address + size, "")]`
unfoldable pub or_whole : ℕ → ℕ → ℕ → List Region → List Region
or_whole lo hi perms [] = record { base = lo; size = hi - lo; perms = perms; label = "" } ∷ []
or_whole lo hi perms (p ∷ ps) = p ∷ ps

unfoldable pub protect_regions : ℕ → ℕ → ℕ → List Region → List Region
unfolding protected_parts or_whole
protect_regions lo hi perms rs =
    sort_by_base (carve lo hi rs ++ or_whole lo hi perms (protected_parts lo hi perms rs))

-- the generator in `_find_mmap_hole`: the regions that begin in the arena
unfoldable pub in_arena : ℕ → List Region → List Region
in_arena top [] = []
in_arena top (r ∷ rs) =
    if leb mmap_base r.base && ltb r.base top then r ∷ in_arena top rs else in_arena top rs

-- its loop; `top` is the cursor of the arena
unfoldable pub scan_holes : ℕ → ℕ → ℕ → List Region → Option ℕ
scan_holes need top cursor [] = if leb (cursor + need) top then some cursor else none
scan_holes need top cursor (r ∷ rs) =
    if leb (cursor + need) r.base
    then some cursor
    else scan_holes need top (max cursor (end_of r)) rs

unfoldable pub find_mmap_hole : ℕ → ℕ → List Region → Option ℕ
unfolding in_arena scan_holes
find_mmap_hole need top rs = scan_holes need top mmap_base (sort_by_base (in_arena top rs))

module _ (be : Backend) (pointer_size : ℕ) where
  abbrev pub address_limit : ℕ
  address_limit = 2 ^ (pointer_size * 8)

  -- a call of the backend
  abbrev on_machine : {A : Type 0} → Action be.Machine A → Action (Manager be) A
  on_machine m s = let (r, machine') = m s.machine in (r, record s { machine = machine' })

  -- the three `_validate…` methods; each hands back the natural number that it has checked
  unfoldable pub validate_address : ℤ → Action (Manager be) ℕ
  validate_address (negsuc _) s = (err value_error, s)
  validate_address (pos address) s =
      if leb address_limit address then (err value_error, s) else (ok address, s)

  unfoldable pub positive_size : ℤ → Action (Manager be) ℕ
  positive_size (negsuc _) s = (err value_error, s)
  positive_size (pos zero) s = (err value_error, s)
  positive_size (pos (suc n)) s = (ok (suc n), s)

  unfoldable pub validated_size : ℤ → Action (Manager be) ℕ
  unfolding positive_size
  validated_size size = do n ← positive_size size; pure (page_align_up n)

  unfoldable pub validate_range : ℕ → ℕ → Action (Manager be) (Unit {0})
  validate_range address size = raise_if (ltb address_limit (address + size)) value_error

  -- the loop of `_unmap_overlap` over its snapshot of the regions
  unfoldable pub unmap_each : ℕ → ℕ → List Region → Action (Manager be) (Unit {0})
  unmap_each base end [] = pure tt
  unmap_each base end (r ∷ rs) =
      let rest = unmap_each base end rs in
      let lo = max r.base base in
      let hi = min (end_of r) end in
      if overlaps base end r
      then (do
        on_machine (be.mem_unmap lo (hi - lo))
        modify (λ s. record s { regions = carve lo hi s.regions })
        rest)
      else rest

  unfoldable pub unmap_overlap : ℕ → ℕ → Action (Manager be) (Unit {0})
  unfolding unmap_each
  unmap_overlap base end s = unmap_each base end s.regions s

  -- `map`, a name of its own beside the library's
  unfoldable pub map_range : ℤ → ℤ → ℕ → String → Bool → Action (Manager be) (Unit {0})
  unfolding validate_address validated_size validate_range unmap_overlap
  map_range address size perms label replace = do
    a ← validate_address address
    raise_if (not (a % page_size == 0)) value_error
    n ← validated_size size
    validate_range a n
    if replace then unmap_overlap a (a + n) else pure tt
    on_machine (be.mem_map a n perms)
    modify (λ s. record s {
      regions =
          record_region (record { base = a; size = n; perms = perms; label = label }) s.regions;
    })

  unfoldable pub protect : ℤ → ℤ → ℕ → Action (Manager be) (Unit {0})
  unfolding validate_address positive_size validate_range protect_regions
  protect address size perms = do
    a ← validate_address address
    n ← positive_size size
    let start = page_align_down a
    let span = page_align_up (n + (a - start))
    validate_range start span
    on_machine (be.mem_protect start span perms)
    modify (λ s. record s { regions = protect_regions start (start + span) perms s.regions })

  unfoldable pub unmap : ℤ → ℤ → Action (Manager be) (Unit {0})
  unfolding validate_address positive_size validate_range
  unmap address size = do
    a ← validate_address address
    n ← positive_size size
    let start = page_align_down a
    let span = page_align_up (n + (a - start))
    validate_range start span
    on_machine (be.mem_unmap start span)
    modify (λ s. record s { regions = carve start (start + span) s.regions })

  -- the end of `mmap`, when no hole was found
  unfoldable pub mmap_at_cursor : ℕ → ℕ → String → Action (Manager be) ℕ
  unfolding map_range
  mmap_at_cursor need perms label = do
    base ← gets (λ s. s.mmap_cursor)
    raise_if (ltb lib_base (base + need)) crashed
    modify (λ s. record s { mmap_cursor = base + need })
    map_range (pos base) (pos need) perms label false
    pure base

  unfoldable pub mmap_in_hole : ℕ → ℕ → String → Option ℕ → Action (Manager be) ℕ
  unfolding mmap_at_cursor
  mmap_in_hole need perms label (some hole) = do
    map_range (pos hole) (pos need) perms label false
    pure hole
  mmap_in_hole need perms label none = mmap_at_cursor need perms label

  unfoldable pub mmap : ℤ → ℕ → String → Action (Manager be) ℕ
  unfolding validated_size find_mmap_hole mmap_in_hole
  mmap size perms label = do
    need ← validated_size size
    hole ← gets (λ s. find_mmap_hole need s.mmap_cursor s.regions)
    mmap_in_hole need perms label hole

  unfoldable pub reserve_lib : ℤ → ℤ → Action (Manager be) ℕ
  unfolding positive_size
  reserve_lib size (negsuc _) = do positive_size size; raise value_error
  reserve_lib size (pos align) = do
    n ← positive_size size
    raise_if (not (align == 0) && not (bit_and align (align - 1) == 0)) value_error
    lib ← gets (λ s. s.lib)
    let step = max align page_size
    let base = clear_bits (lib + step - 1) (step - 1)
    let end = base + page_align_up n + page_size
    raise_if (ltb return_sentinel end) crashed
    modify (λ s. record s { lib = end })
    pure base

  unfoldable pub poison_pointer : Action (Manager be) ℕ
  poison_pointer s =
      let next = s.poison + 16 in
      (
        ok s.poison,
        record s { poison = if leb (poison_base + page_size) next then poison_base else next },
      )

  -- the `if`/`elif` of `brk`: grow or shrink the mapping
  unfoldable pub move_break : ℕ → Action (Manager be) (Unit {0})
  unfolding map_range unmap
  move_break mapped_end s =
      if ltb s.heap_mapped_end mapped_end
      then map_range (pos s.heap_mapped_end) (pos (mapped_end - s.heap_mapped_end)) rw_flags "heap"
          false s
      else if ltb mapped_end s.heap_mapped_end
      then unmap (pos mapped_end) (pos (s.heap_mapped_end - mapped_end)) s
      else (ok tt, s)

  unfoldable pub brk : ℤ → Action (Manager be) ℕ
  unfolding move_break
  brk (negsuc _) = raise value_error
  brk (pos zero) = gets (λ s. s.heap)
  brk (pos (suc n)) = do
    let addr = suc n
    raise_if (ltb addr heap_base) value_error
    raise_if (ltb mmap_base addr) crashed
    let mapped_end = page_align_up addr
    move_break mapped_end
    modify (λ s. record s { heap_mapped_end = mapped_end; heap = addr })
    pure addr
