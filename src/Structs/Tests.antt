-- ===== src/Structs/Tests.antt =====
-- The theorems on the structures, at concrete ones.
use emulite.Base.{ℕ, ◌≡◌, refl, false, Option, none, some, List, [], ◌∷◌, ◌↔◌, length}
use emulite.Base
use emulite.Base.Int.{pos, negsuc}
use emulite.Structs.Slot.{u32, u64, s32, s64, field_at, all_fit, ReadsBack}
use emulite.Structs.Clock.{TimeSpec32}
use emulite.Structs.Link.{RDebug64}
use emulite.Structs.Guest.{pack_struct, timespec32, r_debug64, stat64, stat32}
use emulite.Structs.Pack.{pack_struct-ReadsBack}
use emulite.Structs.Declared.{filled_from}
use emulite.Structs.AsDeclared.{declared, pack_struct-declared}
use emulite.Structs.Filled.{Holds}
use emulite.Structs.Reread.{one_way, from_bytes}
use emulite.Structs.Reread
use emulite.Structs.Laid.{from_bytes-pack_struct}
use emulite.Structs.FileStat.{FileStat, for_file, stat64_of, stat32_of}

-- half a second before the epoch
abbrev before_epoch : TimeSpec32
before_epoch = record { sec = negsuc 0; nsec = pos 500_000_000 }

abbrev before_epoch_bytes : List ℕ
before_epoch_bytes = 255 ∷ 255 ∷ 255 ∷ 255 ∷ 0 ∷ 101 ∷ 205 ∷ 29 ∷ []

pack_struct-ReadsBack_example :
    (length before_epoch_bytes ≡ 8)
    × ((field_at s32 0 before_epoch_bytes ≡ negsuc 0)
        × ((field_at s32 4 before_epoch_bytes ≡ pos 500_000_000) × Unit {0}))
unfolding emulite.Structs.Slot.packed emulite.Base.Bytes.pack
pack_struct-ReadsBack_example =
    pack_struct-ReadsBack (timespec32 before_epoch) before_epoch_bytes refl

from_bytes-pack_struct_example :
    from_bytes (Reread.timespec32 before_epoch) before_epoch_bytes
    ≡ some (Reread.timespec32 before_epoch)
unfolding emulite.Structs.Slot.packed emulite.Base.Bytes.pack
from_bytes-pack_struct_example =
    from_bytes-pack_struct (Reread.timespec32 before_epoch) before_epoch_bytes refl

-- the year 2038 does not fit a 32-bit `time_t`
abbrev rendezvous : RDebug64
rendezvous = record {
  version = pos 1;
  map = pos 0x1000;
  brk = pos 0;
  state = pos 0;
  ldbase = pos 0x7000;
}

abbrev bytes_of : Option (List ℕ) → List ℕ
bytes_of none = []
bytes_of (some bytes) = bytes

abbrev rendezvous_bytes : List ℕ
rendezvous_bytes = bytes_of (pack_struct (r_debug64 rendezvous))

pack_struct-declared_example :
    (length rendezvous_bytes ≡ 40)
    × Holds (filled_from 0 (declared (r_debug64 rendezvous))) rendezvous_bytes
pack_struct-declared_example =
    pack_struct-declared (r_debug64 rendezvous) rendezvous_bytes refl
      (unfold emulite.Structs.Slot.packed emulite.Base.Bytes.pack in refl)

-- a file of 1000 bytes
abbrev small_file : FileStat
small_file = for_file (pos 1000) none

abbrev wide : List ℕ
wide = bytes_of (pack_struct (stat64 (stat64_of small_file)))

abbrev narrow : List ℕ
narrow = bytes_of (pack_struct (stat32 (stat32_of small_file)))
