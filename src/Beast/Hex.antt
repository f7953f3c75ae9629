-- ===== src/Beast/Hex.antt =====
-- `hex.DecodeString` and `hex.EncodeToString`, which agent/uat.go, agent/config.go and
-- agent/receiver_inventory.go call.
use flightpatch.Common.{
  ℕ, ◌+◌, ◌-◌, ◌*◌, ◌/◌, ◌%◌, ◌<◌, ◌&&◌, [], ◌∷◌, Option, none, some, leb, ltb, if◌then◌else◌, ◌≡◌,
  refl, arith,
}
use flightpatch.Text.{Str, IsBytes}

-- The value of a hexadecimal digit of either case.
unfoldable pub from_hex : ℕ → Option ℕ
from_hex c =
    if leb b'0' c && leb c b'9'
    then some (c - b'0')
    else if leb b'a' c && leb c b'f'
    then some (c - b'a' + 10)
    else if leb b'A' c && leb c b'F'
    then some (c - b'A' + 10)
    else none

abbrev joined : Option ℕ → Option ℕ → Option Str → Option Str
joined (some h) (some l) (some rest) = some ((h * 16 + l) ∷ rest)
joined _ _ _ = none

-- An odd number of digits is an error, like a byte that is no digit.
unfoldable pub decode_string : Str → Option Str
unfolding from_hex
decode_string [] = some []
decode_string (a ∷ []) = none
decode_string (a ∷ (b ∷ s)) = joined (from_hex a) (from_hex b) (decode_string s)

unfoldable pub hex_digit : ℕ → ℕ
hex_digit n = if ltb n 10 then b'0' + n else b'a' + (n - 10)

unfoldable pub encode_to_string : Str → Str
unfolding hex_digit
encode_to_string [] = []
encode_to_string (b ∷ bs) = hex_digit (b / 16) ∷ (hex_digit (b % 16) ∷ encode_to_string bs)

pub from_hex-hex_digit : (n : ℕ) → n < 16 → from_hex (hex_digit n) ≡ some n
unfolding from_hex hex_digit
from_hex-hex_digit n h = ground arith

-- Decoding is the inverse of encoding.
pub decode_string-encode_to_string :
    (bs : Str) → IsBytes bs → decode_string (encode_to_string bs) ≡ some bs
unfolding decode_string encode_to_string
decode_string-encode_to_string [] h = refl
decode_string-encode_to_string (b ∷ bs) h =
    rw (from_hex-hex_digit (b / 16) (omega (arith, h.0)), from_hex-hex_digit (b % 16) (omega arith))
      (rw (decode_string-encode_to_string bs h.1) (ground arith))
