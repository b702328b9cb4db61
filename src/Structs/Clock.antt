-- ===== src/Structs/Clock.antt =====
-- android/structs: timespec64.py, timespec32.py, timeval64.py, timeval32.py and tm64.py; the slots of
-- each are the values of its `pack`.
use emulite.Base.{List, [], ◌∷◌}
use emulite.Base.Int.{ℤ}
use emulite.Structs.Slot.{Slot, slot, u64, s32, s64}

pub record TimeSpec64 : Type 0 where
  pub sec : ℤ
  pub nsec : ℤ

abbrev pub timespec64_slots : TimeSpec64 → List Slot
timespec64_slots s = slot s64 0 s.sec ∷ slot s64 8 s.nsec ∷ []

pub record TimeSpec32 : Type 0 where
  pub sec : ℤ
  pub nsec : ℤ

abbrev pub timespec32_slots : TimeSpec32 → List Slot
timespec32_slots s = slot s32 0 s.sec ∷ slot s32 4 s.nsec ∷ []

pub record Timeval64 : Type 0 where
  pub sec : ℤ
  pub usec : ℤ

abbrev pub timeval64_slots : Timeval64 → List Slot
timeval64_slots s = slot s64 0 s.sec ∷ slot s64 8 s.usec ∷ []

pub record Timeval32 : Type 0 where
  pub sec : ℤ
  pub usec : ℤ

abbrev pub timeval32_slots : Timeval32 → List Slot
timeval32_slots s = slot s32 0 s.sec ∷ slot s32 4 s.usec ∷ []

pub record Tm64 : Type 0 where
  pub sec : ℤ
  pub min : ℤ
  pub hour : ℤ
  pub mday : ℤ
  pub mon : ℤ
  pub year : ℤ
  pub wday : ℤ
  pub yday : ℤ
  pub isdst : ℤ
  pub gmtoff : ℤ
  pub zone : ℤ

abbrev pub tm64_slots : Tm64 → List Slot
tm64_slots s =
    slot s32 0 s.sec
    ∷ slot s32 4 s.min
    ∷ slot s32 8 s.hour
    ∷ slot s32 12 s.mday
    ∷ slot s32 16 s.mon
    ∷ slot s32 20 s.year
    ∷ slot s32 24 s.wday
    ∷ slot s32 28 s.yday
    ∷ slot s32 32 s.isdst
    ∷ slot s64 40 s.gmtoff
    ∷ slot u64 48 s.zone
    ∷ []
