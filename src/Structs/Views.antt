-- ===== src/Structs/Views.antt =====
-- The metadata of one file as a 64-bit guest and a 32-bit guest find it.
use emulite.Base.{ℕ, ◌≡◌, sym, ◌∙◌, some, List}
use emulite.Structs.Slot.{u32, u64, s32, s64, field_at}
use emulite.Structs.Guest.{pack_struct, stat64, stat32}
use emulite.Structs.FileStat.{FileStat, stat64_of, stat32_of, blocks}
use emulite.Structs.Pack.{pack_struct-ReadsBack}

-- Where the metadata of a file packs for guests of both widths, the two find the same mode, size
-- in bytes, number of blocks, whole inode number and time of the last change of the contents,
-- each at its own offset, and the number of blocks is the size divided by 512, rounded up.
pub stat64_of-stat32_of :
    (stat : FileStat) (wide narrow : List ℕ)
    → pack_struct (stat64 (stat64_of stat)) ≡ some wide
    → pack_struct (stat32 (stat32_of stat)) ≡ some narrow
    → (field_at u32 16 wide ≡ field_at u32 16 narrow)
      × (field_at s64 48 wide ≡ field_at s64 48 narrow)
      × (field_at s64 64 wide ≡ field_at u64 64 narrow)
      × (field_at u64 8 wide ≡ field_at u64 96 narrow)
      × (field_at s64 88 wide ≡ field_at s32 80 narrow)
      × (field_at s64 64 wide ≡ blocks stat)
unfolding stat64_of stat32_of
stat64_of-stat32_of stat wide narrow h k =
    let (_, a) = pack_struct-ReadsBack (stat64 (stat64_of stat)) wide h in
    let (_, b) = pack_struct-ReadsBack (stat32 (stat32_of stat)) narrow k in
    (
      a.1.1.0 ∙ sym b.1.1.0,
      a.1.1.1.1.1.1.1.0 ∙ sym b.1.1.1.1.1.1.1.0,
      a.1.1.1.1.1.1.1.1.1.0 ∙ sym b.1.1.1.1.1.1.1.1.1.0,
      a.1.0 ∙ sym b.1.1.1.1.1.1.1.1.1.1.1.1.1.0,
      a.1.1.1.1.1.1.1.1.1.1.1.0 ∙ sym b.1.1.1.1.1.1.1.1.1.1.1.0,
      a.1.1.1.1.1.1.1.1.1.0,
    )
