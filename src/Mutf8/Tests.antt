-- ===== src/Mutf8/Tests.antt =====
-- The round trip, at a text with code points of every width.
use emulite.Base.{◌≡◌, refl, none, some, List, ℕ, [], ◌∷◌}
use emulite.Mutf8.{encode, decode}
use emulite.Mutf8.RoundTrip.{decode-encode}

abbrev every_width : List ℕ
every_width = 0 ∷ 0x41 ∷ 0xE9 ∷ 0x20AC ∷ 0xFFFD ∷ 0x1_F600 ∷ 0x10_FFFF ∷ []

decode-encode_example : decode (encode every_width) ≡ some every_width
decode-encode_example = decode-encode every_width refl

-- a lone continuation byte and an overlong encoding are refused
refused : (decode (0x80 ∷ []) ≡ none) × (decode (0xC1 ∷ 0x81 ∷ []) ≡ none)
unfolding decode emulite.Mutf8.decode_from emulite.Mutf8.next_char
refused = (refl, refl)
