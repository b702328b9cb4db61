-- ===== src/SvcTrap/Tests.antt =====
-- The theorems on trampolines, at three handlers of which one is removed.
use emulite.Base.{ℕ, ◌+◌, ◌≡◌, refl, some, List, [], ◌∷◌}
use emulite.Guest.{read_unsigned}
use emulite.Guest.Flat.{Bytes, flat_memory}
use emulite.SvcTrap.{free_slot, alloc_slot, on_interrupt, called, missing_slot, returned}
use emulite.SvcTrap.Arch.{arm64, arm32, encode_svc64, decode_svc64}
use emulite.SvcTrap.Session.{Call, enter, remove, run, fresh, trap-run, FreshOrFull, alloc_slot-run}
use emulite.Base.Int.{pos, negsuc}
use emulite.Base.Bytes.{pack, unpack}

abbrev zeros : Bytes
zeros = λ (a : ℕ). 0

abbrev calls64 : List (Call flat_memory arm64)
calls64 = enter 70 ∷ enter 71 ∷ remove 0x6000_0000 ∷ enter 72 ∷ enter 73 ∷ remove 0x6000_0010 ∷ []

abbrev calls32 : List (Call flat_memory arm32)
calls32 = enter 70 ∷ enter 71 ∷ []

trap-run_example :
    on_interrupt flat_memory arm64
      (0x6000_0000 + 4)
      (run flat_memory arm64 calls64 (fresh flat_memory arm64 zeros)).trap
      (run flat_memory arm64 calls64 (fresh flat_memory arm64 zeros)).memory
    ≡ called 72
trap-run_example =
    trap-run flat_memory arm64 calls64 zeros 0x6000_0000 72
      (unfold alloc_slot free_slot encode_svc64 in refl)

alloc_slot-run_example :
    FreshOrFull flat_memory arm32 (run flat_memory arm32 calls32 (fresh flat_memory arm32 zeros)) (
      alloc_slot flat_memory arm32 74 (
        (run flat_memory arm32 calls32 (fresh flat_memory arm32 zeros)).trap,
        (run flat_memory arm32 calls32 (fresh flat_memory arm32 zeros)).memory,
      ))
alloc_slot-run_example = alloc_slot-run flat_memory arm32 calls32 zeros 74

-- the slot of the handler that was removed last
removed_test :
    on_interrupt flat_memory arm64 0x6000_0014
      (run flat_memory arm64 calls64 (fresh flat_memory arm64 zeros)).trap
      (run flat_memory arm64 calls64 (fresh flat_memory arm64 zeros)).memory
    ≡ missing_slot
unfolding alloc_slot free_slot encode_svc64 on_interrupt decode_svc64 read_unsigned pack unpack
removed_test = refl

-- svc #3
encode_test : encode_svc64 3 ≡ some 0xD400_0061
unfolding encode_svc64
encode_test = refl

-- -38 in a register of 32 bits
returned_test : returned 4 (negsuc 37) ≡ pos 0xFFFF_FFDA
unfolding returned
returned_test = refl
