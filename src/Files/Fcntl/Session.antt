-- ===== src/Files/Fcntl/Session.antt =====
-- Calls on descriptors, fcntl among them: what becomes of the descriptions and of their flags.
use emulite.Base.{ℕ, ◌<◌, ◌≡◌, refl, ◌∙◌, Bool, List, [], ◌∷◌, arith}
use Prim.Native.Nat.{bit_and}
use emulite.Files.Table.{install, close, dup, dup_to, close_range, targets}
use emulite.Files.Table.Session.{
  open_call, close_call, dup_call, dup_to_call, close_range_call, after, IsConserved,
  after-IsConserved,
}
use emulite.Files.Fcntl.Access.{
  Holds, on_table, fcntl-Holds, close-fresh, dup-fresh, dup_to-fresh, close_each-fresh,
}
use emulite.Files.Fcntl.{OpenFiles, o_accmode, set_oflags, fcntl}

pub data Call : Type 0 where
  open_file : ℕ → ℕ → Call
  close_file : ℕ → Call
  dup_file : ℕ → ℕ → Call
  dup_to_file : ℕ → ℕ → Bool → Call
  close_files : ℕ → ℕ → Call
  fcntl_file : ℕ → ℕ → ℕ → Call

-- `open` installs a description that is new, with its flags
unfoldable pub call : Call → OpenFiles → OpenFiles
call (open_file flags oflags) s = record {
  table = (install flags s.table).1;
  oflags = set_oflags s.table.fresh oflags s.oflags;
}
call (close_file fd) s = record s { table = (close fd s.table).1 }
call (dup_file fd min_fd) s = record s { table = (dup fd min_fd s.table).1 }
call (dup_to_file oldfd newfd close_on_exec) s = record s {
  table = (dup_to oldfd newfd close_on_exec s.table).1;
}
call (close_files first last) s = record s { table = (close_range first last s.table).1 }
call (fcntl_file fd cmd arg) s = (fcntl fd cmd arg s).1

unfoldable pub run : List Call → OpenFiles → OpenFiles
unfolding call
run [] s = s
run (c ∷ cs) s = run cs (call c s)

-- a new description is not one that is already there
open_file-Holds :
    (h flags oflags : ℕ) (s : OpenFiles)
    → IsConserved s.table
    → h < s.table.fresh
    → Holds h s (call (open_file flags oflags) s)
unfolding call install after
open_file-Holds h flags oflags s v old =
    (after-IsConserved (open_call flags) s.table v, omega arith, ground arith)

call-Holds :
    (h : ℕ) (c : Call) (s : OpenFiles)
    → IsConserved s.table
    → h < s.table.fresh
    → Holds h s (call c s)
unfolding call after close_range
call-Holds h (open_file flags oflags) s v old = open_file-Holds h flags oflags s v old
call-Holds h (close_file fd) s v old =
    on_table h s (close fd s.table).1 (after-IsConserved (close_call fd) s.table v)
      (close-fresh fd s.table)
call-Holds h (dup_file fd min_fd) s v old =
    on_table h s (dup fd min_fd s.table).1 (after-IsConserved (dup_call fd min_fd) s.table v)
      (dup-fresh fd min_fd s.table)
call-Holds h (dup_to_file oldfd newfd e) s v old =
    on_table h s (dup_to oldfd newfd e s.table).1
      (after-IsConserved (dup_to_call oldfd newfd e) s.table v) (dup_to-fresh oldfd newfd e s.table)
call-Holds h (close_files first last) s v old =
    on_table h s (close_range first last s.table).1
      (after-IsConserved (close_range_call first last) s.table v)
      (close_each-fresh (targets first last s.table.fds) s.table)
call-Holds h (fcntl_file fd cmd arg) s v old = fcntl-Holds h fd cmd arg s v

-- From a table that conserves its descriptions, whatever is called, fcntl with any command and
-- argument included: the table still does, and a description that was handed out before is open
-- for reading, for writing or for both as it was.
pub run-KeepsAccess :
    (cs : List Call) (h : ℕ) (s : OpenFiles)
    → IsConserved s.table
    → h < s.table.fresh
    → IsConserved (run cs s).table
      × (bit_and ((run cs s).oflags h) o_accmode ≡ bit_and (s.oflags h) o_accmode)
unfolding run
run-KeepsAccess [] h s v old = (v, refl)
run-KeepsAccess (c ∷ cs) h s v old =
    let (w, more, access) = call-Holds h c s v old in
    let (valid, same) = run-KeepsAccess cs h (call c s) w (omega (arith, more)) in
    (valid, same ∙ access)
