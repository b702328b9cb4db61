-- ===== src/Files/Fcntl.antt =====
-- fcntl: src/emulite/android/android_file_system.py hands what is not about the descriptor to
-- src/emulite/filesystem/file_io.py, FileIO.fcntl, which no class of descriptions overrides.
pub mod Access
pub mod Session
mod Tests
use emulite.Base.{ℕ, ◌+◌, Option, none, some, ◌==◌, if◌then◌else◌}
use Prim.Native.Nat.{bit_and}
use emulite.Base.Bits.{clear_bits}
use emulite.Base.Dict.{lookup, insert}
use emulite.Files.Answer.{Answer, bytes, count, failed, ebadf, einval}
use emulite.Files.Table.{FileDescriptor, Table, dup, fd_cloexec}

-- src/emulite/filesystem/enums/fcntl_cmd.py
pub data FcntlCmd : Type 0 where
  f_dupfd f_getfd f_setfd f_getfl f_setfl f_getlk f_setlk f_setlkw f_dupfd_cloexec : FcntlCmd

-- `FcntlCmd(cmd)`, with `none` for the `ValueError`
unfoldable pub command : ℕ → Option FcntlCmd
command cmd =
    if cmd == 0
    then some f_dupfd
    else if cmd == 1
    then some f_getfd
    else if cmd == 2
    then some f_setfd
    else if cmd == 3
    then some f_getfl
    else if cmd == 4
    then some f_setfl
    else if cmd == 5
    then some f_getlk
    else if cmd == 6
    then some f_setlk
    else if cmd == 7
    then some f_setlkw
    else if cmd == 1030
    then some f_dupfd_cloexec
    else none

-- `_STATUS_FLAGS`
abbrev pub status_flags : ℕ
status_flags = 0x400 + 0x2000 + 0x1_0000 + 0x4_0000 + 0x800

-- `OpenFlag.O_ACCMODE`
abbrev pub o_accmode : ℕ
o_accmode = 3

-- FileIO.fcntl, on `oflags`; `|` of numbers without a common bit adds them
unfoldable pub file_fcntl : FcntlCmd → ℕ → ℕ → Answer × ℕ
file_fcntl f_getfl arg oflags = (count oflags, oflags)
file_fcntl f_setfl arg oflags = (count 0, clear_bits oflags status_flags + bit_and arg status_flags)
file_fcntl f_getlk arg oflags = (count 0, oflags)
file_fcntl f_setlk arg oflags = (count 0, oflags)
file_fcntl f_setlkw arg oflags = (count 0, oflags)
file_fcntl cmd arg oflags = (failed einval, oflags)

-- the table, and `oflags` of every description
pub record OpenFiles : Type 0 where
  pub table : Table
  pub oflags : ℕ → ℕ

-- `self._fds[fd].flags = flags`
unfoldable pub set_flags : ℕ → ℕ → Table → Table
set_flags fd flags t = elim (lookup fd t.fds) [
  | none ↦ t
  | some d ↦ record t { fds = insert fd (record { handle = d.handle; flags = flags }) t.fds }
]

abbrev pub set_oflags : ℕ → ℕ → (ℕ → ℕ) → ℕ → ℕ
set_oflags handle flags oflags h = if h == handle then flags else oflags h

-- F_DUPFD_CLOEXEC, where `dup` has answered
unfoldable pub mark_cloexec : Answer × Table → Answer × Table
unfolding set_flags
mark_cloexec (count fd, t) = (count fd, set_flags fd fd_cloexec t)
mark_cloexec (failed e, t) = (failed e, t)
mark_cloexec (bytes b, t) = (bytes b, t)

-- a command on the descriptor `fd`, whose entry is `d`
unfoldable pub descriptor_fcntl : ℕ → FileDescriptor → FcntlCmd → ℕ → OpenFiles → Answer × OpenFiles
unfolding mark_cloexec file_fcntl
descriptor_fcntl fd d f_dupfd arg s =
    let (answer, t) = dup fd arg s.table in (answer, record s { table = t })
descriptor_fcntl fd d f_dupfd_cloexec arg s =
    let (answer, t) = mark_cloexec (dup fd arg s.table) in (answer, record s { table = t })
descriptor_fcntl fd d f_getfd arg s = (count d.flags, s)
descriptor_fcntl fd d f_setfd arg s =
    (count 0, record s { table = set_flags fd (bit_and arg fd_cloexec) s.table })
descriptor_fcntl fd d cmd arg s =
    let (answer, oflags) = file_fcntl cmd arg (s.oflags d.handle) in
    (answer, record s { oflags = set_oflags d.handle oflags s.oflags })

-- for a `min_fd` of F_DUPFD that is not negative
unfoldable pub fcntl : ℕ → ℕ → ℕ → OpenFiles → Answer × OpenFiles
unfolding command descriptor_fcntl
fcntl fd cmd arg s = elim (lookup fd s.table.fds) [
  | none ↦ (failed ebadf, s)
  | some d ↦ elim (command cmd) [
    | none ↦ (failed einval, s)
    | some c ↦ descriptor_fcntl fd d c arg s
  ]
]
