-- ===== src/Structs/Members32.antt =====
-- The declarations in C of the structures of a 32-bit guest, android/structs, each member with what
-- the record of the emulator holds for it. link_map32.py and
-- r_debug32.py name the declarations of link_map64.py and r_debug64.py.
use emulite.Base.{List, [], ◌∷◌}
use emulite.Structs.Declared.{Member, field, spare}
use emulite.Structs.Slot.{masked}
use emulite.Structs.Status.{Stat32, StatFs32}
use emulite.Structs.Usage.{Rlimit32, Rusage32, Sysinfo32, Tms32}
use emulite.Structs.Clock.{TimeSpec32, Timeval32}
use emulite.Structs.Link.{DlInfo32, DlPhdrInfo32, LinkMap32, RDebug32}

abbrev pub stat32_members : Stat32 → List Member
stat32_members s =
    field 8 s.dev
    ∷ spare 4 1
    ∷ field 4 (masked 32 s.ino)
    ∷ field 4 s.mode
    ∷ field 4 s.nlink
    ∷ field 4 s.uid
    ∷ field 4 s.gid
    ∷ field 8 s.rdev
    ∷ spare 4 1
    ∷ field 8 s.size
    ∷ field 4 s.blksize
    ∷ field 8 s.blocks
    ∷ field 4 s.atime
    ∷ spare 1 4
    ∷ field 4 s.mtime
    ∷ spare 1 4
    ∷ field 4 s.ctime
    ∷ spare 1 4
    ∷ field 8 s.ino
    ∷ []

abbrev pub statfs32_members : StatFs32 → List Member
statfs32_members s =
    field 4 s.fs_type
    ∷ field 4 s.bsize
    ∷ field 8 s.blocks
    ∷ field 8 s.bfree
    ∷ field 8 s.bavail
    ∷ field 8 s.files
    ∷ field 8 s.ffree
    ∷ field 4 s.fsid0
    ∷ field 4 s.fsid1
    ∷ field 4 s.namelen
    ∷ field 4 s.frsize
    ∷ field 4 s.flags
    ∷ spare 4 4
    ∷ []

abbrev pub sysinfo32_members : Sysinfo32 → List Member
sysinfo32_members s =
    field 4 s.uptime
    ∷ field 4 s.loads.0
    ∷ field 4 s.loads.1.0
    ∷ field 4 s.loads.1.1
    ∷ field 4 s.totalram
    ∷ field 4 s.freeram
    ∷ field 4 s.sharedram
    ∷ field 4 s.bufferram
    ∷ spare 2 4
    ∷ field 2 (masked 16 s.procs)
    ∷ spare 1 2
    ∷ spare 2 4
    ∷ field 4 s.mem_unit
    ∷ spare 8 1
    ∷ []

abbrev pub rusage32_members : Rusage32 → List Member
rusage32_members s =
    field 4 s.utime_sec
    ∷ field 4 s.utime_usec
    ∷ field 4 s.stime_sec
    ∷ field 4 s.stime_usec
    ∷ field 4 s.maxrss
    ∷ spare 11 4
    ∷ field 4 s.nvcsw
    ∷ field 4 s.nivcsw
    ∷ []

abbrev pub rlimit32_members : Rlimit32 → List Member
rlimit32_members s = field 4 s.cur ∷ field 4 s.max ∷ []

abbrev pub tms32_members : Tms32 → List Member
tms32_members s = field 4 s.utime ∷ field 4 s.stime ∷ field 4 s.cutime ∷ field 4 s.cstime ∷ []

abbrev pub timespec32_members : TimeSpec32 → List Member
timespec32_members s = field 4 s.sec ∷ field 4 s.nsec ∷ []

abbrev pub timeval32_members : Timeval32 → List Member
timeval32_members s = field 4 s.sec ∷ field 4 s.usec ∷ []

abbrev pub link_map32_members : LinkMap32 → List Member
link_map32_members s =
    field 4 s.addr ∷ field 4 s.name ∷ field 4 s.ld ∷ field 4 s.next ∷ field 4 s.prev ∷ []

abbrev pub dl_info32_members : DlInfo32 → List Member
dl_info32_members s = field 4 s.fname ∷ field 4 s.fbase ∷ field 4 s.sname ∷ field 4 s.saddr ∷ []

abbrev pub dl_phdr_info32_members : DlPhdrInfo32 → List Member
dl_phdr_info32_members s =
    field 4 s.addr
    ∷ field 4 s.name
    ∷ field 4 s.phdr
    ∷ field 2 (masked 16 s.phnum)
    ∷ spare 2 8
    ∷ spare 2 4
    ∷ []

abbrev pub r_debug32_members : RDebug32 → List Member
r_debug32_members s =
    field 4 s.version ∷ field 4 s.map ∷ field 4 s.brk ∷ field 4 s.state ∷ field 4 s.ldbase ∷ []
