-- ===== src/Structs/Guest.antt =====
-- Every structure whose `pack` writes its values at fixed offsets, PackedStruct of
-- android/structs/packed_struct.py: its size, its slots and the bytes it packs to.
use emulite.Base.{ℕ, Option, List}
use emulite.Structs.Slot.{Slot, packed}
use emulite.Structs.Status.{
  Stat64, stat64_slots, Stat32, stat32_slots, Statx, statx_slots, StatFs64, statfs64_slots,
  StatFs32, statfs32_slots,
}
use emulite.Structs.Usage.{
  Sysinfo64, sysinfo64_slots, Sysinfo32, sysinfo32_slots, Rusage64, rusage64_slots, Rusage32,
  rusage32_slots, Rlimit64, rlimit64_slots, Rlimit32, rlimit32_slots, Tms64, tms64_slots, Tms32,
  tms32_slots,
}
use emulite.Structs.Clock.{
  TimeSpec64, timespec64_slots, TimeSpec32, timespec32_slots, Timeval64, timeval64_slots, Timeval32,
  timeval32_slots, Tm64, tm64_slots,
}
use emulite.Structs.Link.{
  LinkMap64, link_map64_slots, LinkMap32, link_map32_slots, DlInfo64, dl_info64_slots, DlInfo32,
  dl_info32_slots, DlPhdrInfo64, dl_phdr_info64_slots, DlPhdrInfo32, dl_phdr_info32_slots, RDebug64,
  r_debug64_slots, RDebug32, r_debug32_slots, EpollEvent, epoll_event_slots,
}

pub data GuestStruct : Type 0 where
  stat64 : Stat64 → GuestStruct
  stat32 : Stat32 → GuestStruct
  statx : Statx → GuestStruct
  statfs64 : StatFs64 → GuestStruct
  statfs32 : StatFs32 → GuestStruct
  sysinfo64 : Sysinfo64 → GuestStruct
  sysinfo32 : Sysinfo32 → GuestStruct
  rusage64 : Rusage64 → GuestStruct
  rusage32 : Rusage32 → GuestStruct
  rlimit64 : Rlimit64 → GuestStruct
  rlimit32 : Rlimit32 → GuestStruct
  tms64 : Tms64 → GuestStruct
  tms32 : Tms32 → GuestStruct
  timespec64 : TimeSpec64 → GuestStruct
  timespec32 : TimeSpec32 → GuestStruct
  timeval64 : Timeval64 → GuestStruct
  timeval32 : Timeval32 → GuestStruct
  tm64 : Tm64 → GuestStruct
  link_map64 : LinkMap64 → GuestStruct
  link_map32 : LinkMap32 → GuestStruct
  dl_info64 : DlInfo64 → GuestStruct
  dl_info32 : DlInfo32 → GuestStruct
  dl_phdr_info64 : DlPhdrInfo64 → GuestStruct
  dl_phdr_info32 : DlPhdrInfo32 → GuestStruct
  r_debug64 : RDebug64 → GuestStruct
  r_debug32 : RDebug32 → GuestStruct
  epoll_event : EpollEvent → GuestStruct

abbrev pub slots_of : GuestStruct → List Slot
slots_of (stat64 s) = stat64_slots s
slots_of (stat32 s) = stat32_slots s
slots_of (statx s) = statx_slots s
slots_of (statfs64 s) = statfs64_slots s
slots_of (statfs32 s) = statfs32_slots s
slots_of (sysinfo64 s) = sysinfo64_slots s
slots_of (sysinfo32 s) = sysinfo32_slots s
slots_of (rusage64 s) = rusage64_slots s
slots_of (rusage32 s) = rusage32_slots s
slots_of (rlimit64 s) = rlimit64_slots s
slots_of (rlimit32 s) = rlimit32_slots s
slots_of (tms64 s) = tms64_slots s
slots_of (tms32 s) = tms32_slots s
slots_of (timespec64 s) = timespec64_slots s
slots_of (timespec32 s) = timespec32_slots s
slots_of (timeval64 s) = timeval64_slots s
slots_of (timeval32 s) = timeval32_slots s
slots_of (tm64 s) = tm64_slots s
slots_of (link_map64 s) = link_map64_slots s
slots_of (link_map32 s) = link_map32_slots s
slots_of (dl_info64 s) = dl_info64_slots s
slots_of (dl_info32 s) = dl_info32_slots s
slots_of (dl_phdr_info64 s) = dl_phdr_info64_slots s
slots_of (dl_phdr_info32 s) = dl_phdr_info32_slots s
slots_of (r_debug64 s) = r_debug64_slots s
slots_of (r_debug32 s) = r_debug32_slots s
slots_of (epoll_event s) = epoll_event_slots s

-- SIZE of the class
abbrev pub size_of : GuestStruct → ℕ
size_of (stat64 s) = 128
size_of (stat32 s) = 104
size_of (statx s) = 256
size_of (statfs64 s) = 120
size_of (statfs32 s) = 88
size_of (sysinfo64 s) = 112
size_of (sysinfo32 s) = 64
size_of (rusage64 s) = 144
size_of (rusage32 s) = 72
size_of (rlimit64 s) = 16
size_of (rlimit32 s) = 8
size_of (tms64 s) = 32
size_of (tms32 s) = 16
size_of (timespec64 s) = 16
size_of (timespec32 s) = 8
size_of (timeval64 s) = 16
size_of (timeval32 s) = 8
size_of (tm64 s) = 56
size_of (link_map64 s) = 40
size_of (link_map32 s) = 20
size_of (dl_info64 s) = 32
size_of (dl_info32 s) = 16
size_of (dl_phdr_info64 s) = 64
size_of (dl_phdr_info32 s) = 40
size_of (r_debug64 s) = 40
size_of (r_debug32 s) = 20
size_of (epoll_event s) = 12

-- `pack` of the class
abbrev pub pack_struct : GuestStruct → Option (List ℕ)
pack_struct g = packed (size_of g) (slots_of g)
