-- ===== src/Structs/Pack.antt =====
-- What the bytes of a packed structure hold, for every structure.
use emulite.Base.{
  ℕ, zero, ◌≡◌, refl, sym, ◌∙◌, true, false, ◌&&◌, none, some, List, map, length, replicate, arith,
  length-replicate, Bool-cases, inl, inr, ◌↔◌,
}
use mathlib.Core.Path.{subst}
use mathlib.Core.Option.{none-ne-some}
use emulite.Structs.Slot.{all_apart, all_inside, all_fit, packed, ReadsBack}
use emulite.Structs.Filled.{Holds, place_of, fill-Filled, fill_fit, fill_unfit}
use emulite.Structs.Guest.{
  GuestStruct, slots_of, size_of, pack_struct, stat64, stat32, statx, statfs64, statfs32, sysinfo64,
  sysinfo32, rusage64, rusage32, rlimit64, rlimit32, tms64, tms32, timespec64, timespec32,
  timeval64, timeval32, tm64, link_map64, link_map32, dl_info64, dl_info32, dl_phdr_info64,
  dl_phdr_info32, r_debug64, r_debug32, epoll_event,
}

-- the slots lie inside the structure, none over another
layout : (g : GuestStruct) → (all_apart (slots_of g) && all_inside (size_of g) (slots_of g)) ≡ true
layout (stat64 s) = refl
layout (stat32 s) = refl
layout (statx s) = refl
layout (statfs64 s) = refl
layout (statfs32 s) = refl
layout (sysinfo64 s) = refl
layout (sysinfo32 s) = refl
layout (rusage64 s) = refl
layout (rusage32 s) = refl
layout (rlimit64 s) = refl
layout (rlimit32 s) = refl
layout (tms64 s) = refl
layout (tms32 s) = refl
layout (timespec64 s) = refl
layout (timespec32 s) = refl
layout (timeval64 s) = refl
layout (timeval32 s) = refl
layout (tm64 s) = refl
layout (link_map64 s) = refl
layout (link_map32 s) = refl
layout (dl_info64 s) = refl
layout (dl_info32 s) = refl
layout (dl_phdr_info64 s) = refl
layout (dl_phdr_info32 s) = refl
layout (r_debug64 s) = refl
layout (r_debug32 s) = refl
layout (epoll_event s) = refl

-- The bytes that a structure packs to are as many as its SIZE, and at the offset of each of its
-- values, in the value's own format, they read back as that value.
pub pack_struct-ReadsBack :
    (g : GuestStruct) (bytes : List ℕ)
    → pack_struct g ≡ some bytes
    → (length bytes ≡ size_of g) × ReadsBack (slots_of g) bytes
unfolding packed
pack_struct-ReadsBack g bytes h =
    let f =
      fill-Filled (slots_of g) (replicate (size_of g) zero) bytes h (ground (arith, layout g)) in
    (f.size ∙ length-replicate (size_of g) zero, f.reads)

-- and each stands there in its bytes
pub pack_struct-Holds :
    (g : GuestStruct) (bytes : List ℕ)
    → pack_struct g ≡ some bytes
    → (length bytes ≡ size_of g) × Holds (map place_of (slots_of g)) bytes
unfolding packed
pack_struct-Holds g bytes h =
    let f =
      fill-Filled (slots_of g) (replicate (size_of g) zero) bytes h (ground (arith, layout g)) in
    (f.size ∙ length-replicate (size_of g) zero, f.holds)

-- A structure packs to bytes exactly when each of its values is in the range of its format: else
-- `pack` raises `struct.error`.
pub pack_struct-none_iff :
    (g : GuestStruct) → (pack_struct g ≡ none) ↔ (all_fit (slots_of g) ≡ false)
unfolding packed
pack_struct-none_iff g =
    let empty = replicate (size_of g) zero in
    (
      λ h. elim (Bool-cases (all_fit (slots_of g))) [
        | inl fit ↦
            let within : all_inside (length empty) (slots_of g) ≡ true =
              subst (λ (n : ℕ). all_inside n (slots_of g) ≡ true)
                (sym (length-replicate (size_of g) zero)) (ground (arith, layout g)) in
            let (out, e) = fill_fit (slots_of g) empty fit within in
            absurd (none-ne-some out (sym h ∙ e))
        | inr unfit ↦ unfit
      ],
      λ unfit. fill_unfit (slots_of g) empty unfit,
    )
