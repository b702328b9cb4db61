-- ===== src/SvcTrap/Arch.antt =====
-- The `svc` instructions of both architectures, and that each reads back its immediate.
use emulite.Base.{
  ℕ, ◌+◌, ◌*◌, ◌/◌, ◌%◌, ◌^◌, ◌≤◌, ◌<◌, ◌≡◌, ◌&&◌, Option, none, some, leb, ◌==◌, if◌then◌else◌,
  arith,
}
use emulite.SvcTrap.{SvcArch}

-- _SVC_BASE | (imm << 5), whose bits are apart
unfoldable pub encode_svc64 : ℕ → Option ℕ
encode_svc64 imm = if leb imm 0xFFFF then some (0xD400_0001 + imm * 2 ^ 5) else none

-- of a word of 32 bits: what _SVC_MASK keeps is the 5 low bits and the 11 high ones
unfoldable pub decode_svc64 : ℕ → Option ℕ
decode_svc64 w =
    if (w % 2 ^ 5 == 1) && (w / 2 ^ 21 == 0x6A0) then some (w / 2 ^ 5 % 2 ^ 16) else none

pub encodes64 : (imm : ℕ) → imm ≤ 512 → (w : ℕ) × (encode_svc64 imm ≡ some w)
unfolding encode_svc64
encodes64 imm h = (0xD400_0001 + imm * 2 ^ 5, ground arith)

pub small64 : (imm w : ℕ) → encode_svc64 imm ≡ some w → w < 2 ^ 32
unfolding encode_svc64
small64 imm w e = ground arith

pub decode_svc64-encode_svc64 : (imm w : ℕ) → encode_svc64 imm ≡ some w → decode_svc64 w ≡ some imm
unfolding encode_svc64 decode_svc64
decode_svc64-encode_svc64 imm w e = ground arith

abbrev pub arm64 : SvcArch
arm64 = record {
  encode_svc = encode_svc64;
  ret_instruction = 0xD65F_03C0;
  decode_svc = decode_svc64;
  encodes = encodes64;
  small = small64;
  decode-encode = decode_svc64-encode_svc64;
}

-- _SVC_A32 | imm, whose bits are apart
unfoldable pub encode_svc32 : ℕ → Option ℕ
encode_svc32 imm = if leb imm 0xFF_FFFF then some (0xEF00_0000 + imm) else none

-- of a word of 32 bits, in A32 state
unfoldable pub decode_svc32 : ℕ → Option ℕ
decode_svc32 w = if w / 2 ^ 24 == 0xEF then some (w % 2 ^ 24) else none

pub encodes32 : (imm : ℕ) → imm ≤ 512 → (w : ℕ) × (encode_svc32 imm ≡ some w)
unfolding encode_svc32
encodes32 imm h = (0xEF00_0000 + imm, ground arith)

pub small32 : (imm w : ℕ) → encode_svc32 imm ≡ some w → w < 2 ^ 32
unfolding encode_svc32
small32 imm w e = ground arith

pub decode_svc32-encode_svc32 : (imm w : ℕ) → encode_svc32 imm ≡ some w → decode_svc32 w ≡ some imm
unfolding encode_svc32 decode_svc32
decode_svc32-encode_svc32 imm w e = ground arith

abbrev pub arm32 : SvcArch
arm32 = record {
  encode_svc = encode_svc32;
  ret_instruction = 0xE12F_FF1E;
  decode_svc = decode_svc32;
  encodes = encodes32;
  small = small32;
  decode-encode = decode_svc32-encode_svc32;
}
