-- ===== src/Heap/Store.antt =====
-- src/emulite/memory/heap_allocator.py: `calloc` and `realloc`, over the allocator and the guest
-- memory that its blocks lie in.
pub mod Moved
pub mod Blocks
mod Tests
use emulite.Base.{
  ℕ, suc, zero, ◌-◌, ◌*◌, ◌^◌, min, none, some, List, ltb, ◌==◌, if◌then◌else◌, replicate,
}
use emulite.Base.Int.{ℤ, pos, negsuc}
use emulite.Base.Dict.{lookup}
use emulite.Base.Action.{Action, Result, ok, err, value_error}
use emulite.Guest.{GuestMemory}
use emulite.Heap.{HeapAllocator, malloc, release}

module _ (g : GuestMemory) where
  -- the allocator and its `_mem`
  abbrev pub Store : Type 0
  Store = HeapAllocator × g.Memory

  -- a call that leaves memory alone
  abbrev pub beside : {A : Type 0} → Result A × HeapAllocator → g.Memory → Result A × Store
  beside (r, h) m = (r, (h, m))

  -- the `if addr` of `calloc`
  unfoldable pub zeroed : ℕ → Result ℕ × HeapAllocator → g.Memory → Result ℕ × Store
  zeroed total (err e, h) m = (err e, (h, m))
  zeroed total (ok zero, h) m = (ok 0, (h, m))
  zeroed total (ok (suc n), h) m = (ok (suc n), (h, g.write (suc n) (replicate total 0) m))

  unfoldable pub calloc : ℕ → ℤ → ℤ → Action Store ℕ
  unfolding zeroed
  calloc pointer_size (negsuc _) size (h, m) = (err value_error, (h, m))
  calloc pointer_size (pos count) (negsuc _) (h, m) = (err value_error, (h, m))
  calloc pointer_size (pos count) (pos size) (h, m) =
      let total = count * size in
      if ltb (2 ^ (pointer_size * 8) - 1) total
      then (ok 0, (h, m))
      else zeroed total (malloc (pos total) h) m

  -- `self.free(addr); return answer`
  unfoldable pub freeing : ℕ → ℕ → HeapAllocator → g.Memory → Result ℕ × Store
  unfolding release
  freeing answer addr h m =
      let (r, h') = release addr h in
      elim r [ ok _ ↦ (ok answer, (h', m)) | err e ↦ (err e, (h', m)) ]

  -- what follows the `malloc` of `realloc`: copy what both blocks hold, and free the old one
  unfoldable pub copied : ℕ → ℕ → ℕ → Result ℕ × HeapAllocator → g.Memory → Result ℕ × Store
  unfolding freeing
  copied addr old_size size (err e, h) m = (err e, (h, m))
  copied addr old_size size (ok zero, h) m = (ok 0, (h, m))
  copied addr old_size size (ok (suc n), h) m =
      freeing (suc n) addr h
        (if old_size == 0 then m else g.write (suc n) (g.read addr (min old_size size) m) m)

  unfoldable pub realloc : ℕ → ℤ → Action Store ℕ
  unfolding copied freeing
  realloc addr (negsuc _) (h, m) = (err value_error, (h, m))
  realloc addr (pos size) (h, m) =
      if addr == 0 then beside (malloc (pos size) h) m else elim (lookup addr h.sizes) [
        | none ↦ (err value_error, (h, m))
        | some old_size ↦
            if size == 0
            then freeing 0 addr h m
            else copied addr old_size size (malloc (pos size) h) m
      ]
