-- ===== src/Heap/Store/Tests.antt =====
-- The theorems on `calloc` and `realloc`, at an arena with two blocks.
use emulite.Base.{ℕ, ◌%◌, ◌≡◌, refl, some, List, [], ◌∷◌, arith}
use emulite.Base.Int.{pos}
use emulite.Base.Action.{ok}
use emulite.Base.Dict.{lookup}
use emulite.Guest.Flat.{Bytes, flat_memory}
use emulite.Heap.{HeapAllocator, init, malloc, release}
use emulite.Heap.Session.{Call, malloc_call, run, run-IsValid}
use emulite.Heap.Invariant.{IsValid}
use emulite.Heap.Store.{calloc, realloc}
use emulite.Heap.Store.Moved.{Cleared, calloc-Cleared, Reallocated, realloc-Reallocated}

abbrev base : ℕ
base = 0x2000_0000

abbrev calls : List Call
calls = malloc_call (pos 3) ∷ malloc_call (pos 5) ∷ []

abbrev two_blocks : HeapAllocator
two_blocks = run calls (init base)

-- every byte is the last one of its address
abbrev memory : Bytes
memory = λ (a : ℕ). a % 256

two_blocks-IsValid : IsValid two_blocks
two_blocks-IsValid = run-IsValid calls base (omega arith) refl

first_block : lookup base two_blocks.sizes ≡ some 3
unfolding init malloc run emulite.Heap.Sort.sorted emulite.Base.Bits.clear_bits
first_block = refl

realloc_test : (realloc flat_memory base (pos 20) (two_blocks, memory)).0 ≡ ok 0x2000_0020
unfolding init malloc release realloc run emulite.Heap.Sort.sorted emulite.Base.Bits.clear_bits
realloc_test = refl

calloc-Cleared_example :
    Cleared flat_memory 6
      (two_blocks, memory)
      (calloc flat_memory 8 (pos 2) (pos 3) (two_blocks, memory))
calloc-Cleared_example =
    calloc-Cleared flat_memory 8 2 3 two_blocks memory two_blocks-IsValid (omega arith)

realloc-Reallocated_example :
    Reallocated flat_memory base 3 20
      (two_blocks, memory)
      (realloc flat_memory base (pos 20) (two_blocks, memory))
realloc-Reallocated_example =
    realloc-Reallocated flat_memory base 3 20 two_blocks memory two_blocks-IsValid first_block
      (omega arith)
