-- ===== src/Heap/Tests.antt =====
-- The theorems on the heap allocator, at concrete calls.
use emulite.Base.{ℕ, ◌<◌, ◌+◌, ◌%◌, ◌≡◌, refl, some, List, [], ◌∷◌, arith}
use emulite.Base.Int.{pos}
use emulite.Base.Action.{ok}
use emulite.Base.Dict.{lookup}
use emulite.Heap.{HeapAllocator, init, malloc, memalign, release, shrink}
use emulite.Heap.Invariant.{IsValid, rounded}
use emulite.Heap.Place.{Allocated, malloc-Allocated}
use emulite.Heap.Laws.{Released, release-Released}
use emulite.Heap.Full.{malloc_exhausted}
use emulite.Heap.Aligned.{IsAligned, memalign-Allocated}
use emulite.Heap.Release.{IsTiled}
use emulite.Heap.Session.{Call, malloc_call, free_call, memalign_call, run, run-IsValid, run_empty}

abbrev base : ℕ
base = 0x2000_0000

-- the second of three blocks is given back, and cut again
abbrev mixed_calls : List Call
mixed_calls =
    malloc_call (pos 100)
    ∷ malloc_call (pos 200)
    ∷ memalign_call (pos 64) (pos 10)
    ∷ free_call 0x2000_0070
    ∷ malloc_call (pos 24)
    ∷ free_call 7
    ∷ []

abbrev balanced_calls : List Call
balanced_calls =
    malloc_call (pos 100) ∷ malloc_call (pos 24) ∷ free_call base ∷ free_call 0x2000_0070 ∷ []

-- the arena is full, but for a first block of 112 bytes
abbrev full_calls : List Call
full_calls = malloc_call (pos 100) ∷ malloc_call (pos 0x03FF_0000) ∷ free_call base ∷ []

abbrev mixed : HeapAllocator
mixed = run mixed_calls (init base)

abbrev full : HeapAllocator
full = run full_calls (init base)

mixed-IsValid : IsValid mixed
mixed-IsValid = run-IsValid mixed_calls base (omega arith) refl

full-IsValid : IsValid full
full-IsValid = run-IsValid full_calls base (omega arith) refl

run-IsValid_example : IsValid mixed
run-IsValid_example = run-IsValid mixed_calls base (omega arith) refl

malloc-Allocated_example : Allocated 30 mixed (malloc (pos 30) mixed)
malloc-Allocated_example = malloc-Allocated 30 mixed mixed-IsValid

release-Released_example : Released base mixed (release base mixed)
release-Released_example = release-Released base mixed mixed-IsValid

mixed_block : lookup base mixed.sizes ≡ some 100
unfolding init malloc release run memalign emulite.Heap.Sort.sorted emulite.Base.Bits.clear_bits
mixed_block = refl

balanced_empty : (run balanced_calls (init base)).sizes ≡ []
unfolding init malloc release run emulite.Heap.Sort.sorted emulite.Base.Bits.clear_bits
balanced_empty = refl

run_empty_example :
    ((run balanced_calls (init base)).cursor ≡ (run balanced_calls (init base)).base)
    × ((run balanced_calls (init base)).free ≡ [])
run_empty_example = run_empty balanced_calls base (omega arith) refl balanced_empty

full_refuses : (malloc (pos 0x0002_0000) full).0 ≡ ok 0
unfolding init malloc release run emulite.Heap.Sort.sorted emulite.Base.Bits.clear_bits
full_refuses = refl

full_block : lookup base full.free ≡ some 112
unfolding init malloc release run emulite.Heap.Sort.sorted emulite.Base.Bits.clear_bits
full_block = refl

malloc_exhausted_example :
    (112 < rounded 0x0002_0000) × (full.end < full.cursor + rounded 0x0002_0000)
malloc_exhausted_example =
    malloc_exhausted 0x0001_FFFF base 112 full full-IsValid full_refuses full_block

memalign-Allocated_example :
    Allocated 10 mixed (memalign (pos 64) (pos 10) mixed)
    × IsAligned 64 (memalign (pos 64) (pos 10) mixed).0
memalign-Allocated_example = memalign-Allocated 64 10 mixed mixed-IsValid (omega arith) refl

-- a block of 32 bytes lies free under the cursor
abbrev pending : HeapAllocator
pending = record {
  base = base;
  cursor = 0x2000_0020;
  end = 0x2400_0000;
  sizes = [];
  free = (base, 32) ∷ [];
}

pending-IsTiled : IsTiled pending
pending-IsTiled = record {
  positive = omega arith;
  aligned = (refl, refl);
  within = (omega arith, omega arith, refl);
  live = tt;
  free = ((omega arith, refl, refl), refl, tt);
  tiled = λ x. ground arith;
}
