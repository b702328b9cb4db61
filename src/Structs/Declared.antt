-- ===== src/Structs/Declared.antt =====
-- The declarations in C that head the files of android/structs, and where a C compiler for the
-- guest puts their members: each at the next multiple of its own width. A `long`, a pointer and a
-- `size_t` are as wide as the guest's registers.
use emulite.Base.{ℕ, ◌+◌, ◌*◌, ◌-◌, ◌/◌, max, List, [], ◌∷◌}
use emulite.Base.Int.{ℤ}

-- a member that the emulator fills, by its width, with its value; and members it leaves zero, by
-- number and width
pub data Member : Type 0 where
  field : ℕ → ℤ → Member
  spare : ℕ → ℕ → Member

abbrev next_multiple : ℕ → ℕ → ℕ
next_multiple at width = (at + width - 1) / width * width

-- offsets, widths and values of the members that are filled, from an offset on
abbrev pub filled_from : ℕ → List Member → List (ℕ × ℕ × ℤ)
filled_from at [] = []
filled_from at (field w value ∷ rest) =
    let from = next_multiple at w in (from, w, value) ∷ filled_from (from + w) rest
filled_from at (spare n w ∷ rest) = filled_from (next_multiple at w + n * w) rest

abbrev end_from : ℕ → List Member → ℕ
end_from at [] = at
end_from at (field w value ∷ rest) = end_from (next_multiple at w + w) rest
end_from at (spare n w ∷ rest) = end_from (next_multiple at w + n * w) rest

abbrev alignment : List Member → ℕ
alignment [] = 1
alignment (field w value ∷ rest) = max w (alignment rest)
alignment (spare n w ∷ rest) = max w (alignment rest)

-- C's `sizeof`
abbrev pub size_declared : List Member → ℕ
size_declared members = next_multiple (end_from 0 members) (alignment members)
