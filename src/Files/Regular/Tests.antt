-- ===== src/Files/Regular/Tests.antt =====
-- The theorems on files in memory, at a concrete file.
use emulite.Base.{
  ℕ, ◌+◌, ◌-◌, ◌≡◌, refl, true, ◌&&◌, some, none, List, [], ◌∷◌, arith, length, get_elem?, leb, ltb,
  if◌then◌else◌,
}
use emulite.Base.Int.{pos}
use emulite.Files.Answer.{bytes, count}
use emulite.Files.Regular.{RegularFileIo, pread, pwrite}
use emulite.Files.Regular.Contents.{pwrite-pread, pwrite-Stores}

abbrev letters : List ℕ
letters = 104 ∷ 105 ∷ 33 ∷ []

-- open for appending, with the cursor at its start
abbrev log_file : RegularFileIo
log_file = record { buffer = 1 ∷ 2 ∷ []; cursor = 0; writable = true; append = true }

pwrite-pread_test :
    pread (pos 5) (pos (length letters)) (pwrite (pos 5) letters log_file).1 ≡ bytes letters
pwrite-pread_test = pwrite-pread 5 letters log_file refl (omega arith)

pwrite-Stores_test :
    let (answer, file) = pwrite (pos 5) letters log_file in
    (answer ≡ count (length letters))
    × (file.cursor ≡ log_file.cursor)
    × (get_elem? file.buffer 3 ≡ (
        if leb 5 3 && ltb 3 (5 + length letters)
        then get_elem? letters (3 - 5)
        else if ltb 3 (length log_file.buffer)
        then get_elem? log_file.buffer 3
        else if ltb 3 5
        then some 0
        else none))
pwrite-Stores_test = pwrite-Stores 3 5 letters log_file refl (omega arith)
