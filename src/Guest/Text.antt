-- ===== src/Guest/Text.antt =====
-- src/emulite/memory/memory_manager.py, MemoryManager: reading the bytes of a C string, page by page.
-- Which pages are mapped, by their number, is an argument: `mem_read` of src/emulite/cpu/backend.py
-- raises EmulatorCrashed at any other, and no chunk has bytes of two pages.
pub mod Whole
mod Tests
use emulite.Base.{
  ℕ, zero, suc, ◌+◌, ◌-◌, ◌/◌, ◌%◌, min, Bool, true, Option, none, some, List, [], ◌∷◌, ◌++◌,
  length, take, ltb, ◌==◌, if◌then◌else◌,
}
use emulite.Memory.Layout.{page_size}
use emulite.Guest.{GuestMemory}

-- chunk.find(b"\x00")
unfoldable pub find_nul : List ℕ → Option ℕ
find_nul [] = none
find_nul (byte ∷ bytes) =
    let rest = find_nul bytes in
    if byte == 0 then some 0 else elim rest [ none ↦ none | some n ↦ some (suc n) ]

abbrev pub max_length : ℕ
max_length = 0x1_0000

-- chunk_size
abbrev pub chunk_size : ℕ → ℕ → ℕ
chunk_size current got = min (page_size - current % page_size) (max_length - got)

-- for a reader that meets mapped memory only
abbrev pub everywhere : ℕ → Bool
everywhere page = true

module _ (g : GuestMemory) (mapped : ℕ → Bool) where
  -- the loop, with what it has read; each round reads up to the end of a page, and ends the loop
  -- where that page is not mapped
  unfoldable pub read_chunks : ℕ → ℕ → List ℕ → g.Memory → List ℕ
  unfolding find_nul
  read_chunks zero address out m = out
  read_chunks (suc fuel) address out m =
      let current = address + length out in
      let chunk = g.read current (chunk_size current (length out)) m in
      let more = read_chunks fuel address (out ++ chunk) m in
      if ltb (length out) max_length
      then (if mapped (current / page_size)
          then (elim (find_nul chunk) [ none ↦ more | some nul ↦ out ++ take nul chunk ])
          else out)
      else out

  unfoldable pub read_cstr_bytes : ℕ → g.Memory → List ℕ
  unfolding read_chunks
  read_cstr_bytes address m = read_chunks 17 address [] m
