-- ===== src/Structs/Laid.antt =====
-- Reading a packed structure back with the `from_bytes` of its class.
use emulite.Base.{ℕ, ◌≡◌, refl, true, some, List, leb, length, arith}
use emulite.Structs.Pack.{pack_struct-ReadsBack}
use emulite.Structs.Guest.{pack_struct}
use emulite.Structs.Reread.{
  TwoWay, one_way, from_bytes, timespec64_from_bytes, timespec32_from_bytes, timeval64_from_bytes,
  timeval32_from_bytes, rlimit64_from_bytes, rlimit32_from_bytes, timespec64, timespec32, timeval64,
  timeval32, rlimit64, rlimit32,
}

-- A structure of a class with a `from_bytes` comes back from the bytes that it packs to.
pub from_bytes-pack_struct :
    (t : TwoWay) (bytes : List ℕ)
    → pack_struct (one_way t) ≡ some bytes
    → from_bytes t bytes ≡ some t
unfolding from_bytes timespec64_from_bytes timespec32_from_bytes timeval64_from_bytes
    timeval32_from_bytes rlimit64_from_bytes rlimit32_from_bytes
from_bytes-pack_struct (timespec64 s) bytes h =
    let r = pack_struct-ReadsBack (one_way (timespec64 s)) bytes h in
    let long : leb 16 (length bytes) ≡ true = ground (arith, r.0) in
    rw (long, r.1.0, r.1.1.0, from_bytes) refl
from_bytes-pack_struct (timespec32 s) bytes h =
    let r = pack_struct-ReadsBack (one_way (timespec32 s)) bytes h in
    let long : leb 8 (length bytes) ≡ true = ground (arith, r.0) in
    rw (long, r.1.0, r.1.1.0, from_bytes) refl
from_bytes-pack_struct (timeval64 s) bytes h =
    let r = pack_struct-ReadsBack (one_way (timeval64 s)) bytes h in
    let long : leb 16 (length bytes) ≡ true = ground (arith, r.0) in
    rw (long, r.1.0, r.1.1.0, from_bytes) refl
from_bytes-pack_struct (timeval32 s) bytes h =
    let r = pack_struct-ReadsBack (one_way (timeval32 s)) bytes h in
    let long : leb 8 (length bytes) ≡ true = ground (arith, r.0) in
    rw (long, r.1.0, r.1.1.0, from_bytes) refl
from_bytes-pack_struct (rlimit64 s) bytes h =
    let r = pack_struct-ReadsBack (one_way (rlimit64 s)) bytes h in
    let long : leb 16 (length bytes) ≡ true = ground (arith, r.0) in
    rw (long, r.1.0, r.1.1.0, from_bytes) refl
from_bytes-pack_struct (rlimit32 s) bytes h =
    let r = pack_struct-ReadsBack (one_way (rlimit32 s)) bytes h in
    let long : leb 8 (length bytes) ≡ true = ground (arith, r.0) in
    rw (long, r.1.0, r.1.1.0, from_bytes) refl
