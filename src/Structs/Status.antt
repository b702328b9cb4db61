-- ===== src/Structs/Status.antt =====
-- android/structs: stat64.py, stat32.py, statx.py, statfs64.py and statfs32.py; the slots of each are
-- the `pack_into` calls of its `pack`.
use emulite.Base.{List, [], ◌∷◌}
use emulite.Base.Int.{ℤ}
use emulite.Structs.Slot.{Slot, slot, masked, u16, u32, u64, s32, s64}

pub record Stat64 : Type 0 where
  pub dev : ℤ
  pub ino : ℤ
  pub mode : ℤ
  pub nlink : ℤ
  pub uid : ℤ
  pub gid : ℤ
  pub rdev : ℤ
  pub size : ℤ
  pub blksize : ℤ
  pub blocks : ℤ
  pub atime : ℤ
  pub mtime : ℤ
  pub ctime : ℤ

abbrev pub stat64_slots : Stat64 → List Slot
stat64_slots s =
    slot u64 0 s.dev
    ∷ slot u64 8 s.ino
    ∷ slot u32 16 s.mode
    ∷ slot u32 20 s.nlink
    ∷ slot u32 24 s.uid
    ∷ slot u32 28 s.gid
    ∷ slot u64 32 s.rdev
    ∷ slot s64 48 s.size
    ∷ slot u32 56 s.blksize
    ∷ slot s64 64 s.blocks
    ∷ slot s64 72 s.atime
    ∷ slot s64 88 s.mtime
    ∷ slot s64 104 s.ctime
    ∷ []

pub record Stat32 : Type 0 where
  pub dev : ℤ
  pub ino : ℤ
  pub mode : ℤ
  pub nlink : ℤ
  pub uid : ℤ
  pub gid : ℤ
  pub rdev : ℤ
  pub size : ℤ
  pub blksize : ℤ
  pub blocks : ℤ
  pub atime : ℤ
  pub mtime : ℤ
  pub ctime : ℤ

abbrev pub stat32_slots : Stat32 → List Slot
stat32_slots s =
    slot u64 0 s.dev
    ∷ slot u32 12 (masked 32 s.ino)
    ∷ slot u32 16 s.mode
    ∷ slot u32 20 s.nlink
    ∷ slot u32 24 s.uid
    ∷ slot u32 28 s.gid
    ∷ slot u64 32 s.rdev
    ∷ slot s64 48 s.size
    ∷ slot u32 56 s.blksize
    ∷ slot u64 64 s.blocks
    ∷ slot s32 72 s.atime
    ∷ slot s32 80 s.mtime
    ∷ slot s32 88 s.ctime
    ∷ slot u64 96 s.ino
    ∷ []

pub record Statx : Type 0 where
  pub blksize : ℤ
  pub nlink : ℤ
  pub uid : ℤ
  pub gid : ℤ
  pub ino : ℤ
  pub mode : ℤ
  pub size : ℤ
  pub blocks : ℤ
  pub time_sec : ℤ
  pub rdev_major : ℤ
  pub rdev_minor : ℤ
  pub mask : ℤ

abbrev pub statx_slots : Statx → List Slot
statx_slots s =
    slot u32 0 s.mask
    ∷ slot u32 4 s.blksize
    ∷ slot u32 16 s.nlink
    ∷ slot u32 20 s.uid
    ∷ slot u32 24 s.gid
    ∷ slot u16 28 (masked 16 s.mode)
    ∷ slot u64 32 s.ino
    ∷ slot u64 40 s.size
    ∷ slot u64 48 s.blocks
    ∷ slot u64 64 s.time_sec
    ∷ slot u64 80 s.time_sec
    ∷ slot u64 96 s.time_sec
    ∷ slot u64 112 s.time_sec
    ∷ slot u32 128 s.rdev_major
    ∷ slot u32 132 s.rdev_minor
    ∷ []

pub record StatFs64 : Type 0 where
  pub fs_type : ℤ
  pub bsize : ℤ
  pub blocks : ℤ
  pub bfree : ℤ
  pub bavail : ℤ
  pub files : ℤ
  pub ffree : ℤ
  pub fsid0 : ℤ
  pub fsid1 : ℤ
  pub namelen : ℤ
  pub frsize : ℤ
  pub flags : ℤ

abbrev pub statfs64_slots : StatFs64 → List Slot
statfs64_slots s =
    slot s64 0 s.fs_type
    ∷ slot s64 8 s.bsize
    ∷ slot s64 16 s.blocks
    ∷ slot s64 24 s.bfree
    ∷ slot s64 32 s.bavail
    ∷ slot s64 40 s.files
    ∷ slot s64 48 s.ffree
    ∷ slot s32 56 s.fsid0
    ∷ slot s32 60 s.fsid1
    ∷ slot s64 64 s.namelen
    ∷ slot s64 72 s.frsize
    ∷ slot s64 80 s.flags
    ∷ []

pub record StatFs32 : Type 0 where
  pub fs_type : ℤ
  pub bsize : ℤ
  pub blocks : ℤ
  pub bfree : ℤ
  pub bavail : ℤ
  pub files : ℤ
  pub ffree : ℤ
  pub fsid0 : ℤ
  pub fsid1 : ℤ
  pub namelen : ℤ
  pub frsize : ℤ
  pub flags : ℤ

abbrev pub statfs32_slots : StatFs32 → List Slot
statfs32_slots s =
    slot u32 0 s.fs_type
    ∷ slot u32 4 s.bsize
    ∷ slot u64 8 s.blocks
    ∷ slot u64 16 s.bfree
    ∷ slot u64 24 s.bavail
    ∷ slot u64 32 s.files
    ∷ slot u64 40 s.ffree
    ∷ slot s32 48 s.fsid0
    ∷ slot s32 52 s.fsid1
    ∷ slot u32 56 s.namelen
    ∷ slot u32 60 s.frsize
    ∷ slot u32 64 s.flags
    ∷ []
