-- ===== src/Heap/Session.antt =====
-- Any sequence of calls on one allocator, with exceptions caught by the caller.
use emulite.Base.{
  ℕ, zero, suc, ◌-◌, ◌%◌, ◌<◌, ◌≡◌, List, [], ◌∷◌, arith, ltb, ◌==◌, Bool-cases, inl, inr, false,
  not, ◌||◌,
}
use Prim.Native.Nat.{bit_and}
use emulite.Base.Int.{ℤ, pos, negsuc}
use emulite.Base.Action.{Result, ok, err}
use emulite.Heap.{HeapAllocator, init, malloc, release, memalign}
use emulite.Heap.Invariant.{IsValid, init-IsValid}
use emulite.Heap.Place.{Allocated, malloc-Allocated}
use emulite.Heap.Laws.{Released, release-Released, empty_arena}
use emulite.Heap.Aligned.{memalign-Allocated, memalign_refuses}

pub data Call : Type 0 where
  malloc_call : ℤ → Call
  free_call : ℕ → Call
  memalign_call : ℤ → ℤ → Call

-- the allocator after one call, whether it returned or raised
unfoldable pub after : Call → HeapAllocator → HeapAllocator
after (malloc_call size) h = (malloc size h).1
after (free_call addr) h = (release addr h).1
after (memalign_call alignment size) h = (memalign alignment size h).1

unfoldable pub run : List Call → HeapAllocator → HeapAllocator
unfolding after
run [] h = h
run (c ∷ cs) h = run cs (after c h)

Allocated-IsValid :
    (n : ℕ) (h : HeapAllocator) (r : Result ℕ × HeapAllocator)
    → IsValid h
    → Allocated n h r
    → IsValid r.1
Allocated-IsValid n h (ok zero, h') v same = rw same v
Allocated-IsValid n h (ok (suc a), h') v new = new.0
Allocated-IsValid n h (err e, h') v bad = absurd bad

Released-IsValid :
    (addr : ℕ) (h : HeapAllocator) (r : Result (Unit {0}) × HeapAllocator)
    → IsValid h
    → Released addr h r
    → IsValid r.1
Released-IsValid addr h r v (inl p) = rw p.2 v
Released-IsValid addr h r v (inr (inl p)) = rw p.3 v
Released-IsValid addr h r v (inr (inr p)) = p.4

memalign-IsValid : (a s : ℤ) (h : HeapAllocator) → IsValid h → IsValid (memalign a s h).1
memalign-IsValid (negsuc _) s h v = unfold memalign in v
memalign-IsValid (pos a) s h v = elim (Bool-cases (ltb a 1 || not (bit_and a (a - 1) == 0))) [
  | inl bad ↦ rw (memalign_refuses a s h bad) v
  | inr good ↦ sized s good
]
  where
    sized :
        (s : ℤ)
        → (ltb a 1 || not (bit_and a (a - 1) == 0)) ≡ false
        → IsValid (memalign (pos a) s h).1
    sized (pos n) good =
        let m = memalign-Allocated a n h v (ground arith) (ground arith) in
        Allocated-IsValid n h (memalign (pos a) (pos n) h) v m.0
    sized (negsuc n) good = unfold memalign in (rw good v)

after-IsValid : (c : Call) (h : HeapAllocator) → IsValid h → IsValid (after c h)
unfolding after
after-IsValid (malloc_call (pos n)) h v =
    Allocated-IsValid n h (malloc (pos n) h) v (malloc-Allocated n h v)
after-IsValid (malloc_call (negsuc n)) h v = unfold malloc in v
after-IsValid (free_call addr) h v =
    Released-IsValid addr h (release addr h) v (release-Released addr h v)
after-IsValid (memalign_call a s) h v = memalign-IsValid a s h v

run_from-IsValid : (cs : List Call) (h : HeapAllocator) → IsValid h → IsValid (run cs h)
unfolding run
run_from-IsValid [] h v = v
run_from-IsValid (c ∷ cs) h v = run_from-IsValid cs (after c h) (after-IsValid c h v)

-- Whatever is called on an allocator that is fresh over an arena at a positive multiple of 16,
-- below the cursor every byte of the arena belongs to exactly one block, live or free, and no
-- other byte belongs to any.
pub run-IsValid :
    (cs : List Call) (base : ℕ) → 0 < base → base % 16 ≡ 0 → IsValid (run cs (init base))
run-IsValid cs base p a = run_from-IsValid cs (init base) (init-IsValid base p a)

-- Whatever was called on an allocator that was fresh over an arena at a positive multiple of 16,
-- once nothing is live any more the cursor is back at the base of the arena and no free block is
-- listed.
pub run_empty :
    (cs : List Call) (base : ℕ)
    → 0 < base
    → base % 16 ≡ 0
    → (run cs (init base)).sizes ≡ []
    → ((run cs (init base)).cursor ≡ (run cs (init base)).base) × ((run cs (init base)).free ≡ [])
run_empty cs base p a = empty_arena (run cs (init base)) (run-IsValid cs base p a)
