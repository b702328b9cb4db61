-- ===== src/Calls.antt =====
-- src/emulite/android/arm64/android_syscall_handler64.py: the calls that move bytes between open
-- files and guest memory, and the smaller ones on descriptors and futexes, with
-- src/emulite/android/structs/iovec64.py. What is logged is left out.
pub mod Scatter
mod Tests
use emulite.Base.{
  ℕ, zero, suc, ◌+◌, ◌*◌, ◌/◌, ◌%◌, ◌^◌, min, Option, none, some, List, [], ◌∷◌, ◌++◌, Bool, true,
  false, ◌&&◌, ◌||◌, not, ltb, ◌==◌, if◌then◌else◌, length, take, drop, is_empty,
}
use emulite.Base.Int.{ℤ, pos, negsuc}
use emulite.Files.Answer.{Answer, bytes, count, failed, ebadf, einval, erange, eagain, enosys}
use emulite.Guest.{GuestMemory, read_u32, read_u64, write_u32, write_u64}

-- AndroidFileSystem, as far as these calls use it: each method with the descriptors that it leaves
pub record FileSystem : Type 1 where
  pub Files : Type 0
  pub read : ℕ → ℕ → Files → Answer × Files
  pub write : ℕ → List ℕ → Files → Answer × Files
  pub pread : ℕ → ℕ → ℤ → Files → Answer × Files
  pub pwrite : ℕ → List ℕ → ℤ → Files → Answer × Files
  pub ftruncate : ℕ → ℤ → Files → Answer × Files
  pub dup : ℕ → Files → Answer × Files
  pub dup_to : ℕ → ℕ → Bool → Files → Answer × Files
  pub close : ℕ → Files → Answer × Files
  pub is_open : ℕ → Files → Bool

pub record Iovec64 : Type 0 where
  pub base : ℕ
  pub length : ℕ

module _ (g : GuestMemory) (fs : FileSystem) where
  pub record IoState : Type 0 where
    pub memory : g.Memory
    pub files : fs.Files
    pub clear_child_tid : ℕ
    pub robust_list_head : ℕ

  unfoldable pub read_iovec : ℕ → g.Memory → Iovec64
  read_iovec address m = record { base = read_u64 g address m; length = read_u64 g (address + 8) m }

  unfoldable pub read_iovecs : ℕ → ℕ → g.Memory → List Iovec64
  read_iovecs address zero m = []
  read_iovecs address (suc n) m = read_iovec address m ∷ read_iovecs (address + 16) n m

  unfoldable pub iovecs : ℕ → ℕ → g.Memory → List Iovec64
  iovecs iov iovcnt m = read_iovecs iov (min iovcnt 1024) m

  abbrev pub total : List Iovec64 → ℕ
  total [] = 0
  total (v ∷ vs) = v.length + total vs

  -- what `readv` writes: an address and a chunk for each segment, up to the first empty chunk
  unfoldable pub scatter : List Iovec64 → List ℕ → List (ℕ × List ℕ)
  scatter [] data' = []
  scatter (v ∷ vs) data' =
      let chunk = take v.length data' in
      let rest = scatter vs (drop (length chunk) data') in
      if is_empty chunk then [] else (v.base, chunk) ∷ rest

  unfoldable pub write_all : List (ℕ × List ℕ) → g.Memory → g.Memory
  write_all [] m = m
  write_all ((at, chunk) ∷ rest) m = write_all rest (g.write at chunk m)

  unfoldable pub read : ℕ → ℕ → ℕ → IoState → Answer × IoState
  read fd buf size s =
      let (answer, files) = fs.read fd size s.files in
      elim answer [
        | bytes chunk ↦
            (count (length chunk), record s { files = files; memory = g.write buf chunk s.memory })
        | count n ↦ (count n, record s { files = files })
        | failed e ↦ (failed e, record s { files = files })
      ]

  unfoldable pub write : ℕ → ℕ → ℕ → IoState → Answer × IoState
  write fd buf size s =
      let (answer, files) = fs.write fd (g.read buf size s.memory) s.files in
      (answer, record s { files = files })

  unfoldable pub readv : ℕ → ℕ → ℕ → IoState → Answer × IoState
  readv fd iov iovcnt s =
      let segments = iovecs iov iovcnt s.memory in
      let (answer, files) = fs.read fd (total segments) s.files in
      elim answer [
        | bytes chunk ↦ (
          count (length chunk),
          record s { files = files; memory = write_all (scatter segments chunk) s.memory },
        )
        | count n ↦ (count n, record s { files = files })
        | failed e ↦ (failed e, record s { files = files })
      ]

  -- the bytes of the segments that are not empty
  unfoldable pub gather : List Iovec64 → g.Memory → List ℕ
  gather [] m = []
  gather (v ∷ vs) m =
      let rest = gather vs m in if v.length == 0 then rest else g.read v.base v.length m ++ rest

  unfoldable pub writev : ℕ → ℕ → ℕ → IoState → Answer × IoState
  writev fd iov iovcnt s =
      let sent = gather (iovecs iov iovcnt s.memory) s.memory in
      let (answer, files) = fs.write fd sent s.files in
      elim answer [
        | failed e ↦ (failed e, record s { files = files })
        | count n ↦ (count (length sent), record s { files = files })
        | bytes b ↦ (count (length sent), record s { files = files })
      ]

  abbrev pub is_negative : ℤ → Bool
  is_negative (pos n) = false
  is_negative (negsuc n) = true

  unfoldable pub pread64 : ℕ → ℕ → ℕ → ℤ → IoState → Answer × IoState
  pread64 fd buf size offset s =
      let (answer, files) = fs.pread fd size offset s.files in
      if is_negative offset then (failed einval, s) else elim answer [
        | bytes chunk ↦
            (count (length chunk), record s { files = files; memory = g.write buf chunk s.memory })
        | count n ↦ (count n, record s { files = files })
        | failed e ↦ (failed e, record s { files = files })
      ]

  unfoldable pub pwrite64 : ℕ → ℕ → ℕ → ℤ → IoState → Answer × IoState
  pwrite64 fd buf size offset s =
      let (answer, files) = fs.pwrite fd (g.read buf size s.memory) offset s.files in
      if is_negative offset then (failed einval, s) else (answer, record s { files = files })

  unfoldable pub getcwd : ℕ → ℕ → IoState → Answer × IoState
  getcwd buf size s =
      if ltb size 2
      then (failed erange, s)
      else (count 2, record s { memory = g.write buf (0x2F ∷ 0 ∷ []) s.memory })

  unfoldable pub dup_call : ℕ → IoState → Answer × IoState
  dup_call oldfd s =
      let (answer, files) = fs.dup oldfd s.files in (answer, record s { files = files })

  abbrev pub o_cloexec : ℕ
  o_cloexec = 0x8_0000

  -- flags & ~O_CLOEXEC, of one bit
  unfoldable pub dup3 : ℕ → ℕ → ℕ → IoState → Answer × IoState
  dup3 oldfd newfd flags s =
      let (answer, files) = fs.dup_to oldfd newfd (flags == o_cloexec) s.files in
      if oldfd == newfd
      then (failed einval, s)
      else if not ((flags == 0) || (flags == o_cloexec))
      then (failed einval, s)
      else (answer, record s { files = files })

  unfoldable pub close_call : ℕ → IoState → Answer × IoState
  close_call fd s =
      let (answer, files) = fs.close fd s.files in (answer, record s { files = files })

  unfoldable pub ftruncate_call : ℕ → ℤ → IoState → Answer × IoState
  ftruncate_call fd size s =
      let (answer, files) = fs.ftruncate fd size s.files in
      if is_negative size then (failed einval, s) else (answer, record s { files = files })

  unfoldable pub fallocate : ℕ → ℕ → ℕ → IoState → Answer × IoState
  fallocate fd offset size s =
      let (answer, files) = fs.ftruncate fd (pos (offset + size)) s.files in
      if fs.is_open fd s.files then (answer, record s { files = files }) else (failed ebadf, s)

  -- fchmod, fchown, fsync and fdatasync only ask whether the descriptor is open
  unfoldable pub checked : ℕ → IoState → Answer × IoState
  checked fd s = (if fs.is_open fd s.files then count 0 else failed ebadf, s)

  -- op & 0x7F; the value is compared as 32 bits
  unfoldable pub futex : ℕ → ℕ → ℕ → IoState → Answer × IoState
  futex uaddr op val s =
      let command = op % 128 in
      if (command == 0) || (command == 9)
      then (if read_u32 g uaddr s.memory == val % 2 ^ 32 then count 0 else failed eagain, s)
      else if (command == 1) || (command == 10)
      then (count 0, s)
      else (failed enosys, s)

  unfoldable pub set_tid_address : ℕ → ℕ → IoState → Answer × IoState
  set_tid_address process_tid tid_address s =
      (count process_tid, record s { clear_child_tid = tid_address })

  unfoldable pub set_robust_list : ℕ → ℕ → IoState → Answer × IoState
  set_robust_list head size s = (count 0, record s { robust_list_head = head })

  unfoldable pub get_robust_list : ℕ → ℕ → ℕ → IoState → Answer × IoState
  get_robust_list pid head_ptr len_ptr s =
      let m1 =
        if head_ptr == 0 then s.memory else write_u64 g head_ptr s.robust_list_head s.memory in
      let m2 = if len_ptr == 0 then m1 else write_u64 g len_ptr 24 m1 in
      (count 0, record s { memory = m2 })
