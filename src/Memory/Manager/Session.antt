-- ===== src/Memory/Manager/Session.antt =====
-- The memory manager as its clients see it: any calls, in any order, on a fresh process.
use emulite.Base.{ℕ, ◌+◌, ◌≤◌, refl, arith, Bool, List, [], ◌∷◌, some, none}
use Prim.Native.String.{String}
use emulite.Base.Int.{ℤ}
use emulite.Base.Action.{Result, ok, err, Action, Ensures}
use emulite.Memory.Backend.{Backend}
use emulite.Memory.Manager.{
  Manager, init, map_range, protect, unmap, mmap, reserve_lib, poison_pointer, brk,
}
use emulite.Memory.Manager.Sound.{IsSound, Keeps, map_range-Keeps}
use emulite.Memory.Manager.Calls.{protect-Keeps, unmap-Keeps, mmap-Keeps}
use emulite.Memory.Manager.Arenas.{reserve_lib-Keeps, poison_pointer-Keeps, brk-Keeps}

pub data Call : Type 0 where
  map_call : ℤ → ℤ → ℕ → String → Bool → Call
  protect_call : ℤ → ℤ → ℕ → Call
  unmap_call : ℤ → ℤ → Call
  mmap_call : ℤ → ℕ → String → Call
  reserve_call : ℤ → ℤ → Call
  poison_call : Call
  brk_call : ℤ → Call

module _ (be : Backend) (pointer_size : ℕ) where
  -- the manager after one call, whether it returned or raised
  unfoldable pub after : Call → Manager be → Manager be
  after (map_call address size perms label replace) s =
      (map_range be pointer_size address size perms label replace s).1
  after (protect_call address size perms) s = (protect be pointer_size address size perms s).1
  after (unmap_call address size) s = (unmap be pointer_size address size s).1
  after (mmap_call size perms label) s = (mmap be pointer_size size perms label s).1
  after (reserve_call size align) s = (reserve_lib be pointer_size size align s).1
  after poison_call s = (poison_pointer be pointer_size s).1
  after (brk_call addr) s = (brk be pointer_size addr s).1

  unfoldable pub run : List Call → Manager be → Manager be
  unfolding after
  run [] s = s
  run (c ∷ cs) s = run cs (after c s)

  state_of :
      {A : Type 0} (r : Result A × Manager be)
      → Ensures (IsSound be pointer_size) (λ _. Unit) r
      → IsSound be pointer_size r.1
  state_of (ok a, s) h = h.0
  state_of (err e, s) h = h

  kept :
      {A : Type 0} (m : Action (Manager be) A) (s : Manager be)
      → Keeps be pointer_size m
      → IsSound be pointer_size s
      → IsSound be pointer_size (m s).1
  kept m s k v = state_of (m s) (k.at s v)

  after-IsSound :
      (c : Call) (s : Manager be) → IsSound be pointer_size s → IsSound be pointer_size (after c s)
  unfolding after
  after-IsSound (map_call a n perms label replace) s v =
      kept (map_range be pointer_size a n perms label replace) s
        (map_range-Keeps be pointer_size a n perms label replace) v
  after-IsSound (protect_call a n perms) s v =
      kept (protect be pointer_size a n perms) s (protect-Keeps be pointer_size a n perms) v
  after-IsSound (unmap_call a n) s v =
      kept (unmap be pointer_size a n) s (unmap-Keeps be pointer_size a n) v
  after-IsSound (mmap_call n perms label) s v =
      kept (mmap be pointer_size n perms label) s (mmap-Keeps be pointer_size n perms label) v
  after-IsSound (reserve_call n align) s v =
      kept (reserve_lib be pointer_size n align) s (reserve_lib-Keeps be pointer_size n align) v
  after-IsSound poison_call s v =
      kept (poison_pointer be pointer_size) s (poison_pointer-Keeps be pointer_size) v
  after-IsSound (brk_call a) s v = kept (brk be pointer_size a) s (brk-Keeps be pointer_size a) v

  init-IsSound : (machine : be.Machine) → IsSound be pointer_size (init be machine)
  unfolding init emulite.Memory.Layout.page_align_up emulite.Base.Bits.clear_bits
  init-IsSound machine = record {
    table = record { disjoint = λ x. omega arith; proper = tt };
    arena = (omega arith, omega arith, refl);
    libs = (omega arith, omega arith);
    break = (omega arith, omega arith, refl);
    poisons = (omega arith, omega arith, refl);
  }

  run_from-IsSound :
      (cs : List Call) (s : Manager be)
      → IsSound be pointer_size s
      → IsSound be pointer_size (run cs s)
  unfolding run
  run_from-IsSound [] s v = v
  run_from-IsSound (c ∷ cs) s v = run_from-IsSound cs (after c s) (after-IsSound c s v)

  -- Whatever is called on a fresh manager, and whatever the backend answers, no byte is in two
  -- recorded regions, every region is whole pages inside the address space, the break and the
  -- cursors stay in their arenas, and the mapped heap ends at the page after the break.
  pub run-IsSound :
      (cs : List Call) (machine : be.Machine) → IsSound be pointer_size (run cs (init be machine))
  run-IsSound cs machine = run_from-IsSound cs (init be machine) (init-IsSound machine)
