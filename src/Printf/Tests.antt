-- ===== src/Printf/Tests.antt =====
-- The theorems on variadic arguments, at concrete calls.
use emulite.Base.{
  ℕ, zero, suc, ◌+◌, ◌-◌, ◌*◌, ◌/◌, ◌%◌, ◌^◌, ◌≤◌, ◌<◌, ◌≡◌, refl, some, List, [], ◌∷◌, arith, ltb,
  leb, ◌==◌, ◌&&◌, if◌then◌else◌, Bool, true, Option, none, length, ==_iff,
}
use emulite.Base.Bytes.{unpack}
use emulite.Guest.{read_unsigned}
use emulite.Guest.Flat.{Bytes, flat_memory}
use emulite.Guest.Text.{everywhere}
use emulite.Printf.{Request, narrow, wide, double, draws}
use emulite.Base.Int.{ℤ, pos, negsuc}
use emulite.Printf.Numbers.{number_text}
use emulite.Printf.Spec.{pieces}
use emulite.Printf.Format.{format}
use emulite.Printf.Format.Alike.{NoCount}
use emulite.Printf.Format.Same.{format-valist_args64, format-valist_args32}
use emulite.Printf.Args64.{RegisterArgs64, VaListArgs64}
use emulite.Printf.Args32.{RegisterArgs32}
use emulite.Printf.Args64 as A64
use emulite.Printf.Args32 as A32
use emulite.Printf.Args64.Same as Same64
use emulite.Printf.Args32.Same as Same32

-- eight X registers saved below 0x1000 and eight Q registers below 0x2000, and words on the stack
abbrev x : ℕ → ℕ
x i = 10 + i

abbrev q : ℕ → ℕ
q i = 2 ^ 64 + 70 + i

abbrev memory64 : Bytes
memory64 = λ (a : ℕ).
    if leb 0xfc0 a && (ltb a 0x1000 && (a % 8 == 0))
    then x ((a - 0xfc0) / 8)
    else if leb 0x1f80 a && (ltb a 0x2000 && (a % 16 == 0))
    then 70 + (a - 0x1f80) / 16
    else if a % 8 == 0
    then 3
    else 0

all_below : ℕ → (ℕ → Bool) → Bool
all_below zero p = true
all_below (suc n) p = p n && all_below n p

all_below_sound : (n : ℕ) (p : ℕ → Bool) (i : ℕ) → all_below n p ≡ true → i < n → p i ≡ true
unfolding all_below
all_below_sound zero p i h below = absurd (omega arith)
all_below_sound (suc n) p i h below = ground (arith, all_below_sound n p i)

abbrev general_at : ℕ → Bool
general_at i = read_unsigned flat_memory 8 (0x1000 + 8 * i - 64) memory64 == x i

abbrev vector_at : ℕ → Bool
vector_at i = read_unsigned flat_memory 8 (0x2000 + 16 * i - 128) memory64 == q i % 2 ^ 64

general_table : all_below 8 general_at ≡ true
unfolding all_below read_unsigned unpack
general_table = refl

vector_table : all_below 8 vector_at ≡ true
unfolding all_below read_unsigned unpack
vector_table = refl

saved64 : Same64.IsSaved flat_memory x q memory64 2 0x1000 0x2000
saved64 = record {
  room = omega arith;
  general = λ i l h. (==_iff _ _).0 (all_below_sound 8 general_at i general_table h);
  vector = λ i h. (==_iff _ _).0 (all_below_sound 8 vector_at i vector_table h);
}

-- two named arguments, and seven general requests, of which the last finds the stack
abbrev requests : List Request
requests = narrow ∷ double ∷ wide ∷ wide ∷ wide ∷ wide ∷ wide ∷ wide ∷ []

draws64_test :
    draws (A64.valist_args64 flat_memory) requests (Same64.started 2 0x3000 0x1000 0x2000) memory64
    ≡ some (12 ∷ 70 ∷ 13 ∷ 14 ∷ 15 ∷ 16 ∷ 17 ∷ 3 ∷ [])
unfolding A64.valist_integer A64.valist_real read_unsigned unpack
draws64_test = refl

-- four core registers right below the stack pointer 0x1000, and words on the stack
abbrev memory32 : Bytes
memory32 = λ (a : ℕ).
    if leb 0xff0 a && (ltb a 0x1000 && (a % 4 == 0))
    then x ((a - 0xff0) / 4)
    else if a % 4 == 0
    then 3
    else 0

abbrev core_at : ℕ → Bool
core_at i = read_unsigned flat_memory 4 (0x1000 + 4 * i - 16) memory32 == x i

core_table : all_below 4 core_at ≡ true
unfolding all_below read_unsigned unpack
core_table = refl

saved32 : Same32.IsSaved flat_memory x memory32 1 0x1000
saved32 = record {
  room = (omega arith, refl);
  core = λ i l h. (==_iff _ _).0 (all_below_sound 4 core_at i core_table h);
}

-- the wide request passes R1 over
abbrev mixed : List Request
mixed = wide ∷ narrow ∷ double ∷ []

draws32_test :
    draws (A32.valist_args32 flat_memory) mixed 0xff4 memory32
    ≡ some ((12 + 13 * 2 ^ 32) ∷ 3 ∷ (3 + 3 * 2 ^ 32) ∷ [])
unfolding A32.valist_integer A32.valist_real read_unsigned unpack emulite.Base.Bits.clear_bits
draws32_test = refl

-- "%d|%-06p"
abbrev fmt : List ℕ
fmt = b'%' ∷ b'd' ∷ b'|' ∷ b'%' ∷ b'-' ∷ b'0' ∷ b'6' ∷ b'p' ∷ []

abbrev no_decoding : List ℕ → List ℕ
no_decoding bytes = bytes

-- the digits alone
abbrev plain_integers : ℕ → List ℕ → Option ℕ → Option ℕ → ℤ → List ℕ
plain_integers conv flags width precision (pos n) = number_text (if conv == b'x' then 16 else 10) n
plain_integers conv flags width precision (negsuc n) = b'-' ∷ number_text 10 (suc n)

abbrev no_reals : ℕ → List ℕ → Option ℕ → Option ℕ → ℕ → List ℕ
no_reals conv flags width precision value = []

no_counts : NoCount (pieces fmt)
unfolding pieces
no_counts = (refl, (refl, tt))

-- "12|0xd   "
format_test :
    format
      (A64.valist_args64 flat_memory)
      8
      everywhere
      no_decoding
      plain_integers
      no_reals
      fmt
      (Same64.started 2 0x3000 0x1000 0x2000)
      memory64
    ≡ some (
      b'1' ∷ b'2' ∷ b'|' ∷ b'0' ∷ b'x' ∷ b'd' ∷ b' ' ∷ b' ' ∷ b' ' ∷ [],
      Same64.started 4 0x3000 0x1000 0x2000,
      memory64,
    )
unfolding format number_text A64.valist_integer read_unsigned unpack
format_test = refl

format-valist_args64_example :
    (text : List ℕ) × (a' : RegisterArgs64) × (v' : VaListArgs64) × (format
        (A64.register_args64 flat_memory x q)
        8
        everywhere
        no_decoding
        plain_integers
        no_reals
        fmt
        (record { gp = 2; fp = 0; stack = 0x3000 })
        memory64
      ≡ some (text, a', memory64))
    × (format
          (A64.valist_args64 flat_memory)
          8
          everywhere
          no_decoding
          plain_integers
          no_reals
          fmt
          (Same64.started 2 0x3000 0x1000 0x2000)
          memory64
        ≡ some (text, v', memory64))
format-valist_args64_example =
    format-valist_args64 flat_memory memory64 8 everywhere no_decoding plain_integers no_reals fmt x
      q 2 0x3000 0x1000 0x2000 (record { gp = 2; fp = 0; stack = 0x3000 }) no_counts saved64
      (unfold A64.start_args in refl)

format-valist_args32_example :
    (text : List ℕ) × (a' : RegisterArgs32) × (cursor : ℕ) × (format
        (A32.register_args32 flat_memory x)
        4
        everywhere
        no_decoding
        plain_integers
        no_reals
        fmt
        (record { core = 1; stack = 0x1000 })
        memory32
      ≡ some (text, a', memory32))
    × (format
          (A32.valist_args32 flat_memory)
          4
          everywhere
          no_decoding
          plain_integers
          no_reals
          fmt
          (0x1000 + 4 * 1 - 16)
          memory32
        ≡ some (text, cursor, memory32))
format-valist_args32_example =
    format-valist_args32 flat_memory memory32 4 everywhere no_decoding plain_integers no_reals fmt x
      1 0x1000 (record { core = 1; stack = 0x1000 }) no_counts saved32
      (unfold A32.start_args in refl)
