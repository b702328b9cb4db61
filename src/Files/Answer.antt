-- ===== src/Files/Answer.antt =====
-- What a call on a file description answers. The source hands back bytes, a count, or a negative
-- errno; here these are three constructors.
use emulite.Base.{ℕ, List}

-- src/emulite/android/enums/errno.py, as far as the modelled calls use it
pub data Errno : Type 0 where
  ebadf eagain einval epipe erange enosys econnrefused : Errno

pub data Answer : Type 0 where
  bytes : List ℕ → Answer
  count : ℕ → Answer
  failed : Errno → Answer

-- `FileIO._MAX_RW`
abbrev pub max_rw : ℕ
max_rw = 0x7FFF_F000
