-- ===== src/Hex.antt =====
-- EncodeToString and DecodeString of encoding/hex, as src/svc/internal/api/totp.go calls them. A byte
-- is a number below 256.
use dcalcon.Base.{
  ℕ, ◌+◌, ◌-◌, ◌*◌, ◌/◌, ◌%◌, Bool, true, ◌&&◌, ◌||◌, Option, none, some, List, [], ◌∷◌, Text, all,
  ltb, leb, if◌then◌else◌, ◌≡◌, refl, arith,
}

hex_digit : ℕ → ℕ
hex_digit d = if ltb d 10 then b'0' + d else b'a' + (d - 10)

unfoldable pub encode : List ℕ → Text
unfolding hex_digit
encode [] = []
encode (b ∷ bytes) = hex_digit (b / 16) ∷ hex_digit (b % 16) ∷ encode bytes

hex_value : ℕ → Option ℕ
hex_value c =
    if leb b'0' c && leb c b'9'
    then some (c - b'0')
    else if leb b'a' c && leb c b'f'
    then some (c - b'a' + 10)
    else if leb b'A' c && leb c b'F'
    then some (c - b'A' + 10)
    else none

both : Option ℕ → Option ℕ → Option (List ℕ) → Option (List ℕ)
both (some h) (some l) (some rest) = some ((h * 16 + l) ∷ rest)
both _ _ _ = none

unfoldable pub decode : Text → Option (List ℕ)
unfolding hex_value both
decode [] = some []
decode (c ∷ []) = none
decode (c ∷ d ∷ s) = both (hex_value c) (hex_value d) (decode s)

abbrev pub is_byte : ℕ → Bool
is_byte b = ltb b 256

hex_value-hex_digit : (d : ℕ) → ltb d 16 ≡ true → hex_value (hex_digit d) ≡ some d
unfolding hex_value hex_digit
hex_value-hex_digit d h = ground arith

-- Bytes that are encoded are read back.
pub decode-encode : (bytes : List ℕ) → all is_byte bytes ≡ true → decode (encode bytes) ≡ some bytes
unfolding decode encode all
decode-encode [] h = refl
decode-encode (b ∷ bytes) h =
    let whole : b / 16 * 16 + b % 16 ≡ b = omega arith in
    rw
      (
        hex_value-hex_digit (b / 16) (ground arith),
        hex_value-hex_digit (b % 16) (ground arith),
        decode-encode bytes (ground arith),
      )
      (unfold both in rw whole refl)

abbrev pub is_hex : ℕ → Bool
is_hex c = (leb b'0' c && leb c b'9') || (leb b'a' c && leb c b'f')

pub encode-hex : (bytes : List ℕ) → all is_byte bytes ≡ true → all is_hex (encode bytes) ≡ true
unfolding encode hex_digit all
encode-hex [] h = refl
encode-hex (b ∷ bytes) h = ground (arith, encode-hex bytes)
