-- ===== src/Files/Table/Tests.antt =====
-- The theorems on the descriptor table, at concrete calls.
use emulite.Base.{
  ◌≤◌, ◌≡◌, refl, true, ◌&&◌, some, none, List, [], ◌∷◌, arith, leb, ltb, ◌==◌, if◌then◌else◌,
}
use emulite.Base.Dict.{lookup, contains}
use emulite.Files.Answer.{count}
use emulite.Files.Table.{FileDescriptor, Table, init, lowest_free, dup_to, fd_cloexec}
use emulite.Files.Table.Lowest.{lowest_free-IsLeast}
use emulite.Files.Table.Session.{
  Call, open_call, close_call, dup_call, dup_to_call, close_range_call, run, IsConserved,
  run-IsConserved, dup_to-Shares,
}

-- a description is shared by three descriptors, which are closed one after the other
abbrev calls : List Call
calls =
    open_call 1
    ∷ open_call 0
    ∷ dup_call 3 10
    ∷ dup_to_call 3 4 true
    ∷ close_call 3
    ∷ close_call 3
    ∷ close_range_call 4 20
    ∷ []

abbrev opened : Table
opened = run (open_call 1 ∷ open_call 0 ∷ []) init

opened-IsConserved : IsConserved opened
opened-IsConserved = run-IsConserved (open_call 1 ∷ open_call 0 ∷ [])

run-IsConserved_example : IsConserved (run calls init)
run-IsConserved_example = run-IsConserved calls

lowest_free-IsLeast_example :
    (lookup (lowest_free 3 opened.fds) opened.fds ≡ none)
    × (3 ≤ lowest_free 3 opened.fds)
    × ((leb 3 4 && ltb 4 (lowest_free 3 opened.fds))
        ≡ (leb 3 4 && ltb 4 (lowest_free 3 opened.fds) && contains 4 opened.fds))
lowest_free-IsLeast_example = lowest_free-IsLeast 3 4 opened.fds

opened_third : lookup 3 opened.fds ≡ some (record { handle = 3; flags = 1 })
unfolding run emulite.Files.Table.install init
opened_third = refl

dup_to-Shares_example :
    let (answer, after) = dup_to 3 4 true opened in
    (answer ≡ count 4)
    × (lookup 4 after.fds
        ≡ some (
            if 3 == 4
            then record { handle = 3; flags = 1 }
            else record { handle = 3; flags = if true then fd_cloexec else 0 }))
    × (lookup 3 after.fds ≡ lookup 3 opened.fds)
dup_to-Shares_example =
    dup_to-Shares 3 4 3 true (record { handle = 3; flags = 1 }) opened opened-IsConserved
      opened_third (λ p. ground arith)
