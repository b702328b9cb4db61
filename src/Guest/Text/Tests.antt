-- ===== src/Guest/Text/Tests.antt =====
-- The theorem on C strings, at a string over the end of a page, and one that is cut there.
use emulite.Base.{ℕ, ◌≡◌, refl, [], ◌∷◌, ltb, Bool, ◌==◌, if◌then◌else◌}
use emulite.Guest.Flat.{Bytes, flat_memory}
use emulite.Guest.Text.{max_length, everywhere, read_cstr_bytes}
use emulite.Guest.Text.Whole.{until_nul, reach, read_cstr_bytes-until_nul}

abbrev memory : Bytes
memory = λ (a : ℕ). if ltb a 0x1002 then 65 else 0

abbrev first_page : ℕ → Bool
first_page page = page == 0

read_cstr_bytes_test : read_cstr_bytes flat_memory everywhere 0xffe memory ≡ 65 ∷ 65 ∷ 65 ∷ 65 ∷ []
unfolding read_cstr_bytes
read_cstr_bytes_test = refl

read_cstr_bytes-until_nul_example :
    read_cstr_bytes flat_memory first_page 0xffe memory
    ≡ until_nul (flat_memory.read 0xffe (reach first_page max_length 0xffe) memory)
read_cstr_bytes-until_nul_example = read_cstr_bytes-until_nul flat_memory first_page 0xffe memory

-- the second page is not mapped
cut_test : read_cstr_bytes flat_memory first_page 0xffe memory ≡ 65 ∷ 65 ∷ []
unfolding read_cstr_bytes
cut_test = refl
