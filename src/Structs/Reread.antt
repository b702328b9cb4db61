-- ===== src/Structs/Reread.antt =====
-- The `from_bytes` of android/structs: timespec64.py, timespec32.py, timeval64.py, timeval32.py,
-- rlimit64.py and rlimit32.py; and `unlimited` of the last two.
use emulite.Base.{ℕ, Option, none, some, List, leb, length, if◌then◌else◌}
use emulite.Base.Int.{pos}
use emulite.Structs.Slot.{u32, u64, s32, s64, field_at}
use emulite.Structs.Usage.{Rlimit64, Rlimit32}
use emulite.Structs.Clock.{TimeSpec64, TimeSpec32, Timeval64, Timeval32}
use emulite.Structs.Guest.{GuestStruct}
use emulite.Structs.Guest

-- `none` is the `struct.error` of too few bytes
unfoldable pub timespec64_from_bytes : List ℕ → Option TimeSpec64
timespec64_from_bytes bytes =
    if leb 16 (length bytes)
    then some (record { sec = field_at s64 0 bytes; nsec = field_at s64 8 bytes })
    else none

unfoldable pub timespec32_from_bytes : List ℕ → Option TimeSpec32
timespec32_from_bytes bytes =
    if leb 8 (length bytes)
    then some (record { sec = field_at s32 0 bytes; nsec = field_at s32 4 bytes })
    else none

unfoldable pub timeval64_from_bytes : List ℕ → Option Timeval64
timeval64_from_bytes bytes =
    if leb 16 (length bytes)
    then some (record { sec = field_at s64 0 bytes; usec = field_at s64 8 bytes })
    else none

unfoldable pub timeval32_from_bytes : List ℕ → Option Timeval32
timeval32_from_bytes bytes =
    if leb 8 (length bytes)
    then some (record { sec = field_at s32 0 bytes; usec = field_at s32 4 bytes })
    else none

unfoldable pub rlimit64_from_bytes : List ℕ → Option Rlimit64
rlimit64_from_bytes bytes =
    if leb 16 (length bytes)
    then some (record { cur = field_at u64 0 bytes; max = field_at u64 8 bytes })
    else none

unfoldable pub rlimit32_from_bytes : List ℕ → Option Rlimit32
rlimit32_from_bytes bytes =
    if leb 8 (length bytes)
    then some (record { cur = field_at u32 0 bytes; max = field_at u32 4 bytes })
    else none

abbrev pub rlimit64_unlimited : Rlimit64
rlimit64_unlimited = record { cur = pos 0xFFFF_FFFF_FFFF_FFFF; max = pos 0xFFFF_FFFF_FFFF_FFFF }

abbrev pub rlimit32_unlimited : Rlimit32
rlimit32_unlimited = record { cur = pos 0xFFFF_FFFF; max = pos 0xFFFF_FFFF }

-- the structures that have a `from_bytes`
pub data TwoWay : Type 0 where
  timespec64 : TimeSpec64 → TwoWay
  timespec32 : TimeSpec32 → TwoWay
  timeval64 : Timeval64 → TwoWay
  timeval32 : Timeval32 → TwoWay
  rlimit64 : Rlimit64 → TwoWay
  rlimit32 : Rlimit32 → TwoWay

abbrev pub one_way : TwoWay → GuestStruct
one_way (timespec64 s) = Guest.timespec64 s
one_way (timespec32 s) = Guest.timespec32 s
one_way (timeval64 s) = Guest.timeval64 s
one_way (timeval32 s) = Guest.timeval32 s
one_way (rlimit64 s) = Guest.rlimit64 s
one_way (rlimit32 s) = Guest.rlimit32 s

abbrev classed : {A : Type 0} → (A → TwoWay) → Option A → Option TwoWay
classed f none = none
classed f (some a) = some (f a)

-- `from_bytes` of the structure's own class
unfoldable pub from_bytes : TwoWay → List ℕ → Option TwoWay
from_bytes (timespec64 s) bytes = classed timespec64 (timespec64_from_bytes bytes)
from_bytes (timespec32 s) bytes = classed timespec32 (timespec32_from_bytes bytes)
from_bytes (timeval64 s) bytes = classed timeval64 (timeval64_from_bytes bytes)
from_bytes (timeval32 s) bytes = classed timeval32 (timeval32_from_bytes bytes)
from_bytes (rlimit64 s) bytes = classed rlimit64 (rlimit64_from_bytes bytes)
from_bytes (rlimit32 s) bytes = classed rlimit32 (rlimit32_from_bytes bytes)
