-- ===== src/Files/Fcntl/Tests.antt =====
-- fcntl on a file that is open for reading: its flags are set to all ones, through a duplicate.
use emulite.Base.{ℕ, ◌≡◌, refl, ◌+◌, List, [], ◌∷◌, arith}
use Prim.Native.Nat.{bit_and}
use emulite.Files.Answer.{count}
use emulite.Files.Table.{init}
use emulite.Files.Table.Session.{IsConserved, run-IsConserved}
use emulite.Files.Fcntl.{OpenFiles, fcntl, o_accmode, status_flags}
use emulite.Files.Fcntl.Session.{
  Call, open_file, close_file, dup_file, fcntl_file, run, run-KeepsAccess,
}

abbrev new_process : OpenFiles
new_process = record { table = init; oflags = λ (h : ℕ). 0 }

-- descriptor 10 is a duplicate of descriptor 0
abbrev calls : List Call
calls =
    dup_file 0 10
    ∷ fcntl_file 10 4 0xffff_ffff
    ∷ open_file 0 2
    ∷ fcntl_file 0 1030 3
    ∷ close_file 0
    ∷ []

flags_test : (fcntl 10 3 0 (run calls new_process)).0 ≡ count status_flags
unfolding run fcntl init emulite.Files.Table.close emulite.Files.Table.install
    emulite.Files.Table.dup emulite.Base.Bits.clear_bits
flags_test = refl

run-KeepsAccess_example :
    IsConserved (run calls new_process).table
    × (bit_and ((run calls new_process).oflags 0) o_accmode ≡ bit_and 0 o_accmode)
unfolding init emulite.Files.Table.Session.run
run-KeepsAccess_example = run-KeepsAccess calls 0 new_process (run-IsConserved []) (omega arith)
