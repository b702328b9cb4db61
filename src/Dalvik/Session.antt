-- ===== src/Dalvik/Session.antt =====
-- Any calls on the references of a VM, in any order.
use emulite.Base.{ℕ, refl, List, [], ◌∷◌}
use mathlib.Core.Option.{none-ne-some}
use emulite.Dalvik.{
  Object, DalvikVm, init, add_local, add_global, add_weak_global, delete_local, delete_global,
  delete_weak_global, local_release, outside, keys,
}
use emulite.Dalvik.Valid.{IsValid}
use emulite.Dalvik.Calls.{
  add_local-IsValid, add_global-IsValid, add_weak_global-IsValid, delete_local-IsValid,
  delete_global-IsValid, delete_weak_global-IsValid, delete_each-IsValid,
}

pub data Call : Type 0 where
  local_call : Object → Call
  global_call : Object → Call
  weak_call : Object → Call
  delete_local_call : ℕ → Call
  delete_global_call : ℕ → Call
  delete_weak_call : ℕ → Call
  release_call : List ℕ → Call

unfoldable pub after : Call → DalvikVm → DalvikVm
unfolding local_release
after (local_call o) vm = (add_local o vm).1
after (global_call o) vm = (add_global o vm).1
after (weak_call o) vm = (add_weak_global o vm).1
after (delete_local_call ref) vm = delete_local ref vm
after (delete_global_call ref) vm = delete_global ref vm
after (delete_weak_call ref) vm = delete_weak_global ref vm
after (release_call mark) vm = local_release mark vm

after-IsValid : (c : Call) (vm : DalvikVm) → IsValid vm → IsValid (after c vm)
unfolding after local_release
after-IsValid (local_call o) vm v = add_local-IsValid o vm v
after-IsValid (global_call o) vm v = add_global-IsValid o vm v
after-IsValid (weak_call o) vm v = add_weak_global-IsValid o vm v
after-IsValid (delete_local_call ref) vm v = delete_local-IsValid ref vm v
after-IsValid (delete_global_call ref) vm v = delete_global-IsValid ref vm v
after-IsValid (delete_weak_call ref) vm v = delete_weak_global-IsValid ref vm v
after-IsValid (release_call mark) vm v = delete_each-IsValid (outside mark (keys vm.local)) vm v

unfoldable pub run_refs : List Call → DalvikVm → DalvikVm
run_refs [] vm = vm
run_refs (c ∷ cs) vm = run_refs cs (after c vm)

init-IsValid : (first : ℕ) → IsValid (init first)
init-IsValid first = record {
  tidy = record {
    linked = record {
      objects-IsKeyed = tt;
      handles-IsKeyed = tt;
      forth = λ h o e. absurd (none-ne-some o e);
      back = λ i h e. absurd (none-ne-some h e);
      below = λ h o e. absurd (none-ne-some o e);
    };
    local-IsKeyed = tt;
    global-IsKeyed = tt;
    counts-IsKeyed = tt;
    weak-IsKeyed = tt;
    counted = λ h. refl;
    positive = λ h n e. absurd (none-ne-some n e);
  };
  held = λ h. refl;
}

run_refs-IsValid' : (cs : List Call) (vm : DalvikVm) → IsValid vm → IsValid (run_refs cs vm)
unfolding run_refs
run_refs-IsValid' [] vm v = v
run_refs-IsValid' (c ∷ cs) vm v = run_refs-IsValid' cs (after c vm) (after-IsValid c vm v)

-- After any references added and deleted and any frames released, from the VM as it is made,
-- whatever the identities of its objects: handles and objects refer to each other one to one, and
-- handles are below the next one; the objects that are kept are exactly those with a local, global
-- or weak reference; and the handles with a count are exactly the global ones, each count at
-- least 1.
pub run_refs-IsValid : (cs : List Call) (first : ℕ) → IsValid (run_refs cs (init first))
run_refs-IsValid cs first = run_refs-IsValid' cs (init first) (init-IsValid first)
