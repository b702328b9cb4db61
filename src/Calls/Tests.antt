-- ===== src/Calls/Tests.antt =====
-- A `readv` of four bytes into two segments.
use emulite.Base.{ℕ, ◌≡◌, refl, true, List, [], ◌∷◌, take, drop, arith}
use emulite.Files.Answer.{bytes, count}
use emulite.Guest.{write_u64}
use emulite.Guest.Flat.{flat_memory}
use emulite.Calls.{FileSystem, IoState, readv, iovecs}
use emulite.Calls.Scatter.{first_bytes, readv-scatter}

-- every descriptor is the same file, which is only read
abbrev one_file : FileSystem
one_file = record {
  Files = List ℕ;
  read = λ fd size f. (bytes (take size f), drop size f);
  write = λ fd sent f. (count 0, f);
  pread = λ fd size offset f. (bytes [], f);
  pwrite = λ fd sent offset f. (count 0, f);
  ftruncate = λ fd size f. (count 0, f);
  dup = λ fd f. (count fd, f);
  dup_to = λ oldfd newfd cloexec f. (count newfd, f);
  close = λ fd f. (count 0, f);
  is_open = λ fd f. true;
}

abbrev two_segments : IoState flat_memory one_file
two_segments = record {
  memory = write_u64 flat_memory 0x100 0x2000 (
      write_u64 flat_memory 0x108 3
        (write_u64 flat_memory 0x110 0x3000 (write_u64 flat_memory 0x118 2 (λ a. 0))));
  files = 10 ∷ 11 ∷ 12 ∷ 13 ∷ [];
  clear_child_tid = 0;
  robust_list_head = 0;
}

readv-scatter_example :
    let s' = (readv flat_memory one_file 5 0x100 2 two_segments).1 in
    ((readv flat_memory one_file 5 0x100 2 two_segments).0 ≡ count 4)
    × (s'.files ≡ [])
    × (first_bytes flat_memory one_file 4
          (iovecs flat_memory one_file 0x100 2 two_segments.memory)
          s'.memory
        ≡ 10 ∷ 11 ∷ 12 ∷ 13 ∷ [])
unfolding iovecs emulite.Calls.read_iovecs emulite.Calls.read_iovec emulite.Guest.read_unsigned
    emulite.Base.Bytes.unpack emulite.Guest.write_unsigned emulite.Base.Bytes.pack
readv-scatter_example =
    readv-scatter flat_memory one_file 5 0x100 2 (10 ∷ 11 ∷ 12 ∷ 13 ∷ []) [] two_segments refl refl
      refl (omega arith)
