-- ===== src/Structs/Link.antt =====
-- android/structs: link_map64.py, link_map32.py, dl_info64.py, dl_info32.py, dl_phdr_info64.py,
-- dl_phdr_info32.py, r_debug64.py, r_debug32.py and epoll_event.py; the slots of each are the values of
-- its `pack`.
use emulite.Base.{List, [], ◌∷◌}
use emulite.Base.Int.{ℤ}
use emulite.Structs.Slot.{Slot, slot, masked, u16, u32, u64, s32}

pub record LinkMap64 : Type 0 where
  pub addr : ℤ
  pub name : ℤ
  pub ld : ℤ
  pub next : ℤ
  pub prev : ℤ

abbrev pub link_map64_slots : LinkMap64 → List Slot
link_map64_slots s =
    slot u64 0 s.addr
    ∷ slot u64 8 s.name
    ∷ slot u64 16 s.ld
    ∷ slot u64 24 s.next
    ∷ slot u64 32 s.prev
    ∷ []

pub record LinkMap32 : Type 0 where
  pub addr : ℤ
  pub name : ℤ
  pub ld : ℤ
  pub next : ℤ
  pub prev : ℤ

abbrev pub link_map32_slots : LinkMap32 → List Slot
link_map32_slots s =
    slot u32 0 s.addr
    ∷ slot u32 4 s.name
    ∷ slot u32 8 s.ld
    ∷ slot u32 12 s.next
    ∷ slot u32 16 s.prev
    ∷ []

pub record DlInfo64 : Type 0 where
  pub fname : ℤ
  pub fbase : ℤ
  pub sname : ℤ
  pub saddr : ℤ

abbrev pub dl_info64_slots : DlInfo64 → List Slot
dl_info64_slots s =
    slot u64 0 s.fname ∷ slot u64 8 s.fbase ∷ slot u64 16 s.sname ∷ slot u64 24 s.saddr ∷ []

pub record DlInfo32 : Type 0 where
  pub fname : ℤ
  pub fbase : ℤ
  pub sname : ℤ
  pub saddr : ℤ

abbrev pub dl_info32_slots : DlInfo32 → List Slot
dl_info32_slots s =
    slot u32 0 s.fname ∷ slot u32 4 s.fbase ∷ slot u32 8 s.sname ∷ slot u32 12 s.saddr ∷ []

pub record DlPhdrInfo64 : Type 0 where
  pub addr : ℤ
  pub name : ℤ
  pub phdr : ℤ
  pub phnum : ℤ

abbrev pub dl_phdr_info64_slots : DlPhdrInfo64 → List Slot
dl_phdr_info64_slots s =
    slot u64 0 s.addr
    ∷ slot u64 8 s.name
    ∷ slot u64 16 s.phdr
    ∷ slot u16 24 (masked 16 s.phnum)
    ∷ []

pub record DlPhdrInfo32 : Type 0 where
  pub addr : ℤ
  pub name : ℤ
  pub phdr : ℤ
  pub phnum : ℤ

abbrev pub dl_phdr_info32_slots : DlPhdrInfo32 → List Slot
dl_phdr_info32_slots s =
    slot u32 0 s.addr ∷ slot u32 4 s.name ∷ slot u32 8 s.phdr ∷ slot u16 12 (masked 16 s.phnum) ∷ []

pub record RDebug64 : Type 0 where
  pub version : ℤ
  pub map : ℤ
  pub brk : ℤ
  pub state : ℤ
  pub ldbase : ℤ

abbrev pub r_debug64_slots : RDebug64 → List Slot
r_debug64_slots s =
    slot s32 0 s.version
    ∷ slot u64 8 s.map
    ∷ slot u64 16 s.brk
    ∷ slot s32 24 s.state
    ∷ slot u64 32 s.ldbase
    ∷ []

pub record RDebug32 : Type 0 where
  pub version : ℤ
  pub map : ℤ
  pub brk : ℤ
  pub state : ℤ
  pub ldbase : ℤ

abbrev pub r_debug32_slots : RDebug32 → List Slot
r_debug32_slots s =
    slot s32 0 s.version
    ∷ slot u32 4 s.map
    ∷ slot u32 8 s.brk
    ∷ slot s32 12 s.state
    ∷ slot u32 16 s.ldbase
    ∷ []

pub record EpollEvent : Type 0 where
  pub events : ℤ
  pub «data» : ℤ

abbrev pub epoll_event_slots : EpollEvent → List Slot
epoll_event_slots s = slot u32 0 s.events ∷ slot u64 4 s.«data» ∷ []
