-- ===== src/Files/EventFd/Tests.antt =====
-- The theorems on event descriptors, at concrete calls.
use emulite.Base.{◌%◌, ◌^◌, false, List, [], ◌∷◌}
use emulite.Base.Int.{pos}
use emulite.Files.EventFd.Session.{
  Call, read_call, write_call, run, opened, IsBalanced, run-IsBalanced,
}

abbrev calls : List Call
calls =
    write_call (5 ∷ 1 ∷ 0 ∷ 0 ∷ 0 ∷ 0 ∷ 0 ∷ 0 ∷ [])
    ∷ read_call (pos 8)
    ∷ write_call (1 ∷ [])
    ∷ read_call (pos 8)
    ∷ []

run-IsBalanced_example : IsBalanced (7 % 2 ^ 64) (run calls (opened 7 false))
run-IsBalanced_example = run-IsBalanced calls 7 false
