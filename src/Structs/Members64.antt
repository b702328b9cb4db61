-- ===== src/Structs/Members64.antt =====
-- The declarations in C of the structures of a 64-bit guest, android/structs, each member with what
-- the record of the emulator holds for it.
use emulite.Base.{List, [], ◌∷◌}
use emulite.Structs.Declared.{Member, field, spare}
use emulite.Structs.Slot.{masked}
use emulite.Structs.Status.{Stat64, StatFs64, Statx}
use emulite.Structs.Usage.{Rlimit64, Rusage64, Sysinfo64, Tms64}
use emulite.Structs.Clock.{TimeSpec64, Timeval64, Tm64}
use emulite.Structs.Link.{DlInfo64, DlPhdrInfo64, EpollEvent, LinkMap64, RDebug64}

abbrev pub stat64_members : Stat64 → List Member
stat64_members s =
    field 8 s.dev
    ∷ field 8 s.ino
    ∷ field 4 s.mode
    ∷ field 4 s.nlink
    ∷ field 4 s.uid
    ∷ field 4 s.gid
    ∷ field 8 s.rdev
    ∷ spare 1 8
    ∷ field 8 s.size
    ∷ field 4 s.blksize
    ∷ spare 1 4
    ∷ field 8 s.blocks
    ∷ field 8 s.atime
    ∷ spare 1 8
    ∷ field 8 s.mtime
    ∷ spare 1 8
    ∷ field 8 s.ctime
    ∷ spare 1 8
    ∷ spare 2 4
    ∷ []

abbrev pub statx_members : Statx → List Member
statx_members s =
    field 4 s.mask
    ∷ field 4 s.blksize
    ∷ spare 1 8
    ∷ field 4 s.nlink
    ∷ field 4 s.uid
    ∷ field 4 s.gid
    ∷ field 2 (masked 16 s.mode)
    ∷ spare 1 2
    ∷ field 8 s.ino
    ∷ field 8 s.size
    ∷ field 8 s.blocks
    ∷ spare 1 8
    ∷ field 8 s.time_sec
    ∷ spare 2 4
    ∷ field 8 s.time_sec
    ∷ spare 2 4
    ∷ field 8 s.time_sec
    ∷ spare 2 4
    ∷ field 8 s.time_sec
    ∷ spare 2 4
    ∷ field 4 s.rdev_major
    ∷ field 4 s.rdev_minor
    ∷ spare 2 4
    ∷ spare 1 8
    ∷ spare 2 4
    ∷ spare 12 8
    ∷ []

abbrev pub statfs64_members : StatFs64 → List Member
statfs64_members s =
    field 8 s.fs_type
    ∷ field 8 s.bsize
    ∷ field 8 s.blocks
    ∷ field 8 s.bfree
    ∷ field 8 s.bavail
    ∷ field 8 s.files
    ∷ field 8 s.ffree
    ∷ field 4 s.fsid0
    ∷ field 4 s.fsid1
    ∷ field 8 s.namelen
    ∷ field 8 s.frsize
    ∷ field 8 s.flags
    ∷ spare 4 8
    ∷ []

abbrev pub sysinfo64_members : Sysinfo64 → List Member
sysinfo64_members s =
    field 8 s.uptime
    ∷ field 8 s.loads.0
    ∷ field 8 s.loads.1.0
    ∷ field 8 s.loads.1.1
    ∷ field 8 s.totalram
    ∷ field 8 s.freeram
    ∷ field 8 s.sharedram
    ∷ field 8 s.bufferram
    ∷ spare 2 8
    ∷ field 2 (masked 16 s.procs)
    ∷ spare 1 2
    ∷ spare 2 8
    ∷ field 4 s.mem_unit
    ∷ []

abbrev pub rusage64_members : Rusage64 → List Member
rusage64_members s =
    field 8 s.utime_sec
    ∷ field 8 s.utime_usec
    ∷ field 8 s.stime_sec
    ∷ field 8 s.stime_usec
    ∷ field 8 s.maxrss
    ∷ spare 11 8
    ∷ field 8 s.nvcsw
    ∷ field 8 s.nivcsw
    ∷ []

abbrev pub rlimit64_members : Rlimit64 → List Member
rlimit64_members s = field 8 s.cur ∷ field 8 s.max ∷ []

abbrev pub tms64_members : Tms64 → List Member
tms64_members s = field 8 s.utime ∷ field 8 s.stime ∷ field 8 s.cutime ∷ field 8 s.cstime ∷ []

abbrev pub timespec64_members : TimeSpec64 → List Member
timespec64_members s = field 8 s.sec ∷ field 8 s.nsec ∷ []

abbrev pub timeval64_members : Timeval64 → List Member
timeval64_members s = field 8 s.sec ∷ field 8 s.usec ∷ []

abbrev pub tm64_members : Tm64 → List Member
tm64_members s =
    field 4 s.sec
    ∷ field 4 s.min
    ∷ field 4 s.hour
    ∷ field 4 s.mday
    ∷ field 4 s.mon
    ∷ field 4 s.year
    ∷ field 4 s.wday
    ∷ field 4 s.yday
    ∷ field 4 s.isdst
    ∷ field 8 s.gmtoff
    ∷ field 8 s.zone
    ∷ []

abbrev pub link_map64_members : LinkMap64 → List Member
link_map64_members s =
    field 8 s.addr ∷ field 8 s.name ∷ field 8 s.ld ∷ field 8 s.next ∷ field 8 s.prev ∷ []

abbrev pub dl_info64_members : DlInfo64 → List Member
dl_info64_members s = field 8 s.fname ∷ field 8 s.fbase ∷ field 8 s.sname ∷ field 8 s.saddr ∷ []

abbrev pub dl_phdr_info64_members : DlPhdrInfo64 → List Member
dl_phdr_info64_members s =
    field 8 s.addr ∷ field 8 s.name ∷ field 8 s.phdr ∷ field 2 (masked 16 s.phnum) ∷ spare 4 8 ∷ []

abbrev pub r_debug64_members : RDebug64 → List Member
r_debug64_members s =
    field 4 s.version ∷ field 8 s.map ∷ field 8 s.brk ∷ field 4 s.state ∷ field 8 s.ldbase ∷ []

abbrev pub epoll_event_members : EpollEvent → List Member
epoll_event_members s = field 4 s.events ∷ field 8 s.«data» ∷ []
