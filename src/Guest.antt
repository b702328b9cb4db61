-- ===== src/Guest.antt =====
-- src/emulite/memory/memory_manager.py, MemoryManager: reading and writing numbers in guest memory.
pub mod Access
pub mod Flat
pub mod Text
use emulite.Base.{
  ℕ, ◌+◌, ◌≤◌, ◌≡◌, ◌%◌, ◌^◌, ◌⊎◌, List, ◌++◌, length, Option, none, some, if◌then◌else◌, ◌==◌,
}
use emulite.Base.Int.{ℤ, pos}
use emulite.Base.Bytes.{pack, unpack}
use emulite.Structs.Slot.{Format, u16, u32, u64, s32, s64, width, fits, decoded, field_bytes}

-- Mapped memory of the CPU engine, `mem_read` and `mem_write` of src/emulite/cpu/backend.py: what
-- is written is read back, a write changes no other byte, a read gives as many bytes as it asks for,
-- and a long read gives what two short ones give.
pub record GuestMemory : Type 1 where
  pub Memory : Type 0
  pub read : ℕ → ℕ → Memory → List ℕ
  pub write : ℕ → List ℕ → Memory → Memory
  pub length-read : (at size : ℕ) (m : Memory) → length (read at size m) ≡ size
  pub read-append : (at n k : ℕ) (m : Memory) → read at (n + k) m ≡ read at n m ++ read (at + n) k m
  pub read-write :
      (at : ℕ) (bytes : List ℕ) (m : Memory) → read at (length bytes) (write at bytes m) ≡ bytes
  pub read-write_apart :
      (at size to : ℕ) (bytes : List ℕ) (m : Memory)
      → (at + size ≤ to) ⊎ (to + length bytes ≤ at)
      → read at size (write to bytes m) ≡ read at size m

module _ (g : GuestMemory) where
  -- `struct.unpack` of what is read: read_u16, read_u32, read_u64, read_s32 and read_s64
  unfoldable pub read_as : Format → ℕ → g.Memory → ℤ
  read_as f address m = decoded f (unpack (g.read address (width f) m))

  unfoldable pub read_unsigned : ℕ → ℕ → g.Memory → ℕ
  read_unsigned size address m = unpack (g.read address size m)

  abbrev pub read_u8 : ℕ → g.Memory → ℕ
  read_u8 = read_unsigned 1

  abbrev pub read_u16 : ℕ → g.Memory → ℕ
  read_u16 = read_unsigned 2

  abbrev pub read_u32 : ℕ → g.Memory → ℕ
  read_u32 = read_unsigned 4

  abbrev pub read_u64 : ℕ → g.Memory → ℕ
  read_u64 = read_unsigned 8

  abbrev pub read_s32 : ℕ → g.Memory → ℤ
  read_s32 = read_as s32

  abbrev pub read_s64 : ℕ → g.Memory → ℤ
  read_s64 = read_as s64

  -- the value is cut to its width first
  unfoldable pub write_unsigned : ℕ → ℕ → ℕ → g.Memory → g.Memory
  write_unsigned size address value m = g.write address (pack size (value % 256 ^ size)) m

  abbrev pub write_u8 : ℕ → ℕ → g.Memory → g.Memory
  write_u8 = write_unsigned 1

  abbrev pub write_u16 : ℕ → ℕ → g.Memory → g.Memory
  write_u16 = write_unsigned 2

  abbrev pub write_u32 : ℕ → ℕ → g.Memory → g.Memory
  write_u32 = write_unsigned 4

  abbrev pub write_u64 : ℕ → ℕ → g.Memory → g.Memory
  write_u64 = write_unsigned 8

  -- a signed value that does not fit is a `struct.error`
  unfoldable pub write_signed : Format → ℕ → ℤ → g.Memory → Option g.Memory
  write_signed f address value m =
      if fits f value then some (g.write address (field_bytes f value) m) else none

  abbrev pub write_s32 : ℕ → ℤ → g.Memory → Option g.Memory
  write_s32 = write_signed s32

  abbrev pub write_s64 : ℕ → ℤ → g.Memory → Option g.Memory
  write_s64 = write_signed s64

  -- `pointer_size` of the architecture
  unfoldable pub read_ptr : ℕ → ℕ → g.Memory → ℕ
  read_ptr pointer_size address m =
      if pointer_size == 8 then read_u64 address m else read_u32 address m

  unfoldable pub write_ptr : ℕ → ℕ → ℕ → g.Memory → g.Memory
  write_ptr pointer_size address value m =
      if pointer_size == 8 then write_u64 address value m else write_u32 address value m
