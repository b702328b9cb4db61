-- ===== src/Files/EventFd.antt =====
-- src/emulite/android/io/event_fd_io.py: the 64-bit counter behind a descriptor. A read answers,
-- and a write takes, 8 little-endian bytes. The flags that the constructor passes to `FileIO` are
-- left out: no call here reads them.
pub mod Session
mod Tests
use emulite.Base.{ℕ, ◌+◌, ◌-◌, ◌%◌, ◌^◌, Bool, not, ltb, ◌==◌, if◌then◌else◌, List, length}
use emulite.Base.Int.{ℤ, pos, negsuc}
use emulite.Base.Bytes.{pack, unpack}
use emulite.Files.Answer.{Answer, bytes, count, failed, eagain, einval}

-- 0xFFFFFFFFFFFFFFFF
abbrev pub max_u64 : ℕ
max_u64 = 2 ^ 64 - 1

pub record EventFdIo : Type 0 where
  pub counter : ℕ
  pub semaphore : Bool

-- the constructor; the mask of its first argument is a remainder
unfoldable pub init : ℕ → Bool → EventFdIo
init initval semaphore = record { counter = initval % 2 ^ 64; semaphore = semaphore }

-- `value` of `read`
unfoldable pub taken_by_read : EventFdIo → ℕ
taken_by_read this = if this.semaphore then 1 else this.counter

-- `read` of 8 bytes
unfoldable pub read_eight : EventFdIo → Answer × EventFdIo
unfolding taken_by_read
read_eight this = if this.counter == 0 then (failed eagain, this) else (
  bytes (pack 8 (taken_by_read this)),
  record this { counter = this.counter - taken_by_read this },
)

unfoldable pub read : ℤ → EventFdIo → Answer × EventFdIo
unfolding read_eight
read (negsuc _) this = (failed einval, this)
read (pos n) this = if not (n == 8) then (failed einval, this) else read_eight this

-- the end of `write`; the source has `value` on the other side of its last comparison, where the
-- difference may be negative
unfoldable pub add_value : ℕ → EventFdIo → Answer × EventFdIo
add_value value this =
    if value == max_u64
    then (failed einval, this)
    else if ltb (max_u64 - 1) (this.counter + value)
    then (failed eagain, this)
    else (count 8, record this { counter = this.counter + value })

unfoldable pub write : List ℕ → EventFdIo → Answer × EventFdIo
unfolding add_value
write sent this =
    if not (length sent == 8) then (failed einval, this) else add_value (unpack sent) this

unfoldable pub can_read : EventFdIo → Bool
can_read this = ltb 0 this.counter
