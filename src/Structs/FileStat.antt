-- ===== src/Structs/FileStat.antt =====
-- filesystem/structs/file_stat.py, FileStat, and the `from_file_stat` of android/structs/stat64.py
-- and stat32.py.
use emulite.Base.{ℕ, ◌+◌, Option, none, some}
use emulite.Base.Int.{ℤ, pos, +ℤ, floor_div}
use emulite.Structs.Status.{Stat64, Stat32}

abbrev s_ififo : ℕ
s_ififo = 0x1000

abbrev s_ifchr : ℕ
s_ifchr = 0x2000

abbrev s_ifdir : ℕ
s_ifdir = 0x4000

abbrev s_ifreg : ℕ
s_ifreg = 0x8000

abbrev s_ifsock : ℕ
s_ifsock = 0xC000

abbrev fixed_mtime : ℕ
fixed_mtime = 1677974400

abbrev default_blksize : ℕ
default_blksize = 0x1000

-- the type bits and the permission bits have no bit in common, so `|` adds them
abbrev pub reg_mode : ℤ
reg_mode = pos (s_ifreg + 0x1A4)

abbrev pub dir_mode : ℤ
dir_mode = pos (s_ifdir + 0x16D)

abbrev pub chr_mode : ℤ
chr_mode = pos (s_ifchr + 0x1B6)

abbrev pub sock_mode : ℤ
sock_mode = pos (s_ifsock + 0x1FF)

abbrev pub fifo_mode : ℤ
fifo_mode = pos (s_ififo + 0x1A4)

abbrev pub anon_mode : ℤ
anon_mode = pos (s_ifreg + 0x180)

pub record FileStat : Type 0 where
  pub mode : ℤ
  pub size : ℤ
  pub rdev : ℤ
  pub nlink : ℤ
  pub uid : ℤ
  pub gid : ℤ
  pub ino : ℤ
  pub dev : ℤ
  pub blksize : ℤ
  pub atime : ℤ
  pub mtime : ℤ
  pub ctime : ℤ

abbrev pub blocks : FileStat → ℤ
blocks this = floor_div (+ℤ this.size (pos 511)) 512

-- `FileStat(mode=, size=, rdev=, nlink=)`, every other field by its default
abbrev made : ℤ → ℤ → ℤ → ℤ → FileStat
made mode size rdev nlink = record {
  mode = mode;
  size = size;
  rdev = rdev;
  nlink = nlink;
  uid = pos 0;
  gid = pos 0;
  ino = pos 0;
  dev = pos 0;
  blksize = pos default_blksize;
  atime = pos fixed_mtime;
  mtime = pos fixed_mtime;
  ctime = pos fixed_mtime;
}

abbrev or_else : Option ℤ → ℤ → ℤ
or_else none d = d
or_else (some mode) d = mode

abbrev pub for_file : ℤ → Option ℤ → FileStat
for_file size mode = made (or_else mode reg_mode) size (pos 0) (pos 1)

abbrev pub for_directory : Option ℤ → FileStat
for_directory mode = made (or_else mode dir_mode) (pos default_blksize) (pos 0) (pos 2)

abbrev pub for_char_device : ℤ → Option ℤ → FileStat
for_char_device rdev mode = made (or_else mode chr_mode) (pos 0) rdev (pos 1)

abbrev pub for_socket : Option ℤ → FileStat
for_socket mode = made (or_else mode sock_mode) (pos 0) (pos 0) (pos 1)

abbrev pub for_fifo : Option ℤ → FileStat
for_fifo mode = made (or_else mode fifo_mode) (pos 0) (pos 0) (pos 1)

abbrev pub for_anon_inode : Option ℤ → FileStat
for_anon_inode mode = made (or_else mode anon_mode) (pos 0) (pos 0) (pos 1)

-- Stat64.from_file_stat
unfoldable pub stat64_of : FileStat → Stat64
stat64_of stat = record {
  dev = stat.dev;
  ino = stat.ino;
  mode = stat.mode;
  nlink = stat.nlink;
  uid = stat.uid;
  gid = stat.gid;
  rdev = stat.rdev;
  size = stat.size;
  blksize = stat.blksize;
  blocks = blocks stat;
  atime = stat.atime;
  mtime = stat.mtime;
  ctime = stat.ctime;
}

-- Stat32.from_file_stat
unfoldable pub stat32_of : FileStat → Stat32
stat32_of stat = record {
  dev = stat.dev;
  ino = stat.ino;
  mode = stat.mode;
  nlink = stat.nlink;
  uid = stat.uid;
  gid = stat.gid;
  rdev = stat.rdev;
  size = stat.size;
  blksize = stat.blksize;
  blocks = blocks stat;
  atime = stat.atime;
  mtime = stat.mtime;
  ctime = stat.ctime;
}
