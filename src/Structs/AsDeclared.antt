-- ===== src/Structs/AsDeclared.antt =====
-- The offsets at which the structures are packed, beside their declarations in C.
use emulite.Base.{ℕ, ◌≡◌, refl, Bool, true, false, ◌∙◌, some, List, map, length, arith}
use emulite.Base.Int.{ℤ}
use mathlib.Core.Path.{subst}
use emulite.Structs.Filled.{place_of, Holds}
use emulite.Structs.Pack.{pack_struct-Holds}
use emulite.Structs.Declared.{Member, filled_from, size_declared}
use emulite.Structs.Members64.{
  stat64_members, statx_members, statfs64_members, sysinfo64_members, rusage64_members,
  rlimit64_members, tms64_members, timespec64_members, timeval64_members, tm64_members,
  link_map64_members, dl_info64_members, dl_phdr_info64_members, r_debug64_members,
  epoll_event_members,
}
use emulite.Structs.Members32.{
  stat32_members, statfs32_members, sysinfo32_members, rusage32_members, rlimit32_members,
  tms32_members, timespec32_members, timeval32_members, link_map32_members, dl_info32_members,
  dl_phdr_info32_members, r_debug32_members,
}
use emulite.Structs.Guest.{
  GuestStruct, slots_of, size_of, pack_struct, stat64, stat32, statx, statfs64, statfs32, sysinfo64,
  sysinfo32, rusage64, rusage32, rlimit64, rlimit32, tms64, tms32, timespec64, timespec32,
  timeval64, timeval32, tm64, link_map64, link_map32, dl_info64, dl_info32, dl_phdr_info64,
  dl_phdr_info32, r_debug64, r_debug32, epoll_event,
}

abbrev pub declared : GuestStruct → List Member
declared (stat64 s) = stat64_members s
declared (stat32 s) = stat32_members s
declared (statx s) = statx_members s
declared (statfs64 s) = statfs64_members s
declared (statfs32 s) = statfs32_members s
declared (sysinfo64 s) = sysinfo64_members s
declared (sysinfo32 s) = sysinfo32_members s
declared (rusage64 s) = rusage64_members s
declared (rusage32 s) = rusage32_members s
declared (rlimit64 s) = rlimit64_members s
declared (rlimit32 s) = rlimit32_members s
declared (tms64 s) = tms64_members s
declared (tms32 s) = tms32_members s
declared (timespec64 s) = timespec64_members s
declared (timespec32 s) = timespec32_members s
declared (timeval64 s) = timeval64_members s
declared (timeval32 s) = timeval32_members s
declared (tm64 s) = tm64_members s
declared (link_map64 s) = link_map64_members s
declared (link_map32 s) = link_map32_members s
declared (dl_info64 s) = dl_info64_members s
declared (dl_info32 s) = dl_info32_members s
declared (dl_phdr_info64 s) = dl_phdr_info64_members s
declared (dl_phdr_info32 s) = dl_phdr_info32_members s
declared (r_debug64 s) = r_debug64_members s
declared (r_debug32 s) = r_debug32_members s
declared (epoll_event s) = epoll_event_members s

abbrev pub is_epoll_event : GuestStruct → Bool
is_epoll_event (stat64 s) = false
is_epoll_event (stat32 s) = false
is_epoll_event (statx s) = false
is_epoll_event (statfs64 s) = false
is_epoll_event (statfs32 s) = false
is_epoll_event (sysinfo64 s) = false
is_epoll_event (sysinfo32 s) = false
is_epoll_event (rusage64 s) = false
is_epoll_event (rusage32 s) = false
is_epoll_event (rlimit64 s) = false
is_epoll_event (rlimit32 s) = false
is_epoll_event (tms64 s) = false
is_epoll_event (tms32 s) = false
is_epoll_event (timespec64 s) = false
is_epoll_event (timespec32 s) = false
is_epoll_event (timeval64 s) = false
is_epoll_event (timeval32 s) = false
is_epoll_event (tm64 s) = false
is_epoll_event (link_map64 s) = false
is_epoll_event (link_map32 s) = false
is_epoll_event (dl_info64 s) = false
is_epoll_event (dl_info32 s) = false
is_epoll_event (dl_phdr_info64 s) = false
is_epoll_event (dl_phdr_info32 s) = false
is_epoll_event (r_debug64 s) = false
is_epoll_event (r_debug32 s) = false
is_epoll_event (epoll_event s) = true

-- the values that `pack` writes, and the members declared
slots_of-declared :
    (g : GuestStruct)
    → is_epoll_event g ≡ false
    → (map place_of (slots_of g) ≡ filled_from 0 (declared g))
      × (size_of g ≡ size_declared (declared g))
slots_of-declared (stat64 s) h = (refl, refl)
slots_of-declared (stat32 s) h = (refl, refl)
slots_of-declared (statx s) h = (refl, refl)
slots_of-declared (statfs64 s) h = (refl, refl)
slots_of-declared (statfs32 s) h = (refl, refl)
slots_of-declared (sysinfo64 s) h = (refl, refl)
slots_of-declared (sysinfo32 s) h = (refl, refl)
slots_of-declared (rusage64 s) h = (refl, refl)
slots_of-declared (rusage32 s) h = (refl, refl)
slots_of-declared (rlimit64 s) h = (refl, refl)
slots_of-declared (rlimit32 s) h = (refl, refl)
slots_of-declared (tms64 s) h = (refl, refl)
slots_of-declared (tms32 s) h = (refl, refl)
slots_of-declared (timespec64 s) h = (refl, refl)
slots_of-declared (timespec32 s) h = (refl, refl)
slots_of-declared (timeval64 s) h = (refl, refl)
slots_of-declared (timeval32 s) h = (refl, refl)
slots_of-declared (tm64 s) h = (refl, refl)
slots_of-declared (link_map64 s) h = (refl, refl)
slots_of-declared (link_map32 s) h = (refl, refl)
slots_of-declared (dl_info64 s) h = (refl, refl)
slots_of-declared (dl_info32 s) h = (refl, refl)
slots_of-declared (dl_phdr_info64 s) h = (refl, refl)
slots_of-declared (dl_phdr_info32 s) h = (refl, refl)
slots_of-declared (r_debug64 s) h = (refl, refl)
slots_of-declared (r_debug32 s) h = (refl, refl)
slots_of-declared (epoll_event s) h = absurd (ground (arith, h))

-- The bytes of a structure of `GuestStruct`, EpollEvent excepted, are what a C program of the guest
-- reads by the declaration: they are as many as its `sizeof`, and each declared member that the
-- emulator fills has there, at the offset at which the compiler puts it, in its width and in little
-- endian, the value that the record has for that member.
pub pack_struct-declared :
    (g : GuestStruct) (bytes : List ℕ)
    → is_epoll_event g ≡ false
    → pack_struct g ≡ some bytes
    → (length bytes ≡ size_declared (declared g)) × Holds (filled_from 0 (declared g)) bytes
pack_struct-declared g bytes h packs =
    let (size, holds) = pack_struct-Holds g bytes packs in
    let (places, sizeof) = slots_of-declared g h in
    (size ∙ sizeof, subst (λ (members : List (ℕ × ℕ × ℤ)). Holds members bytes) places holds)
