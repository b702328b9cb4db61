-- ===== src/Structs/Usage.antt =====
-- android/structs: sysinfo64.py, sysinfo32.py, rusage64.py, rusage32.py, rlimit64.py, rlimit32.py,
-- tms64.py and tms32.py; the slots of each are the values of its `pack`.
use emulite.Base.{List, [], ◌∷◌}
use emulite.Base.Int.{ℤ}
use emulite.Structs.Slot.{Slot, slot, masked, u16, u32, u64, s32, s64}

pub record Sysinfo64 : Type 0 where
  pub uptime : ℤ
  pub loads : ℤ × (ℤ × ℤ)
  pub totalram : ℤ
  pub freeram : ℤ
  pub sharedram : ℤ
  pub bufferram : ℤ
  pub procs : ℤ
  pub mem_unit : ℤ

abbrev pub sysinfo64_slots : Sysinfo64 → List Slot
sysinfo64_slots s =
    slot u64 0 s.uptime
    ∷ slot u64 8 s.loads.0
    ∷ slot u64 16 s.loads.1.0
    ∷ slot u64 24 s.loads.1.1
    ∷ slot u64 32 s.totalram
    ∷ slot u64 40 s.freeram
    ∷ slot u64 48 s.sharedram
    ∷ slot u64 56 s.bufferram
    ∷ slot u16 80 (masked 16 s.procs)
    ∷ slot u32 104 s.mem_unit
    ∷ []

pub record Sysinfo32 : Type 0 where
  pub uptime : ℤ
  pub loads : ℤ × (ℤ × ℤ)
  pub totalram : ℤ
  pub freeram : ℤ
  pub sharedram : ℤ
  pub bufferram : ℤ
  pub procs : ℤ
  pub mem_unit : ℤ

abbrev pub sysinfo32_slots : Sysinfo32 → List Slot
sysinfo32_slots s =
    slot u32 0 s.uptime
    ∷ slot u32 4 s.loads.0
    ∷ slot u32 8 s.loads.1.0
    ∷ slot u32 12 s.loads.1.1
    ∷ slot u32 16 s.totalram
    ∷ slot u32 20 s.freeram
    ∷ slot u32 24 s.sharedram
    ∷ slot u32 28 s.bufferram
    ∷ slot u16 40 (masked 16 s.procs)
    ∷ slot u32 52 s.mem_unit
    ∷ []

pub record Rusage64 : Type 0 where
  pub utime_sec : ℤ
  pub utime_usec : ℤ
  pub stime_sec : ℤ
  pub stime_usec : ℤ
  pub maxrss : ℤ
  pub nvcsw : ℤ
  pub nivcsw : ℤ

abbrev pub rusage64_slots : Rusage64 → List Slot
rusage64_slots s =
    slot s64 0 s.utime_sec
    ∷ slot s64 8 s.utime_usec
    ∷ slot s64 16 s.stime_sec
    ∷ slot s64 24 s.stime_usec
    ∷ slot s64 32 s.maxrss
    ∷ slot s64 128 s.nvcsw
    ∷ slot s64 136 s.nivcsw
    ∷ []

pub record Rusage32 : Type 0 where
  pub utime_sec : ℤ
  pub utime_usec : ℤ
  pub stime_sec : ℤ
  pub stime_usec : ℤ
  pub maxrss : ℤ
  pub nvcsw : ℤ
  pub nivcsw : ℤ

abbrev pub rusage32_slots : Rusage32 → List Slot
rusage32_slots s =
    slot s32 0 s.utime_sec
    ∷ slot s32 4 s.utime_usec
    ∷ slot s32 8 s.stime_sec
    ∷ slot s32 12 s.stime_usec
    ∷ slot s32 16 s.maxrss
    ∷ slot s32 64 s.nvcsw
    ∷ slot s32 68 s.nivcsw
    ∷ []

pub record Rlimit64 : Type 0 where
  pub cur : ℤ
  pub max : ℤ

abbrev pub rlimit64_slots : Rlimit64 → List Slot
rlimit64_slots s = slot u64 0 s.cur ∷ slot u64 8 s.max ∷ []

pub record Rlimit32 : Type 0 where
  pub cur : ℤ
  pub max : ℤ

abbrev pub rlimit32_slots : Rlimit32 → List Slot
rlimit32_slots s = slot u32 0 s.cur ∷ slot u32 4 s.max ∷ []

pub record Tms64 : Type 0 where
  pub utime : ℤ
  pub stime : ℤ
  pub cutime : ℤ
  pub cstime : ℤ

abbrev pub tms64_slots : Tms64 → List Slot
tms64_slots s =
    slot u64 0 s.utime ∷ slot u64 8 s.stime ∷ slot u64 16 s.cutime ∷ slot u64 24 s.cstime ∷ []

pub record Tms32 : Type 0 where
  pub utime : ℤ
  pub stime : ℤ
  pub cutime : ℤ
  pub cstime : ℤ

abbrev pub tms32_slots : Tms32 → List Slot
tms32_slots s =
    slot u32 0 s.utime ∷ slot u32 4 s.stime ∷ slot u32 8 s.cutime ∷ slot u32 12 s.cstime ∷ []
