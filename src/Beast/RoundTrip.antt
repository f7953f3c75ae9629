-- ===== src/Beast/RoundTrip.antt =====
-- A message printed as an AVR line, as uat2esnt prints it, and converted to Beast.
use flightpatch.Common.{ℕ, [], ◌∷◌, ◌++◌, some, length, ◌≡◌, ◌⊎◌, ◌∙◌, ap, arith}
use flightpatch.Text.{Str, IsBytes, IsBlank, trim_suffix}
use flightpatch.Text.Trim.{trim_space_avr}
use flightpatch.Beast.{avr_text, avr_frame, avr_checked, avr_to_beast}
use flightpatch.Beast.Hex.{decode_string, encode_to_string, decode_string-encode_to_string}

trim_suffix-concat : (s : Str) (p : ℕ) → trim_suffix p (s ++ (p ∷ [])) ≡ s
unfolding trim_suffix
trim_suffix-concat [] p = ground arith
trim_suffix-concat (x ∷ []) p = ground arith
trim_suffix-concat (x ∷ (y ∷ s)) p = ap (◌∷◌ x) (trim_suffix-concat (y ∷ s) p)

avr_text-line :
    (text pad : Str) → IsBlank pad → avr_text ((b'*' ∷ (text ++ (b';' ∷ []))) ++ pad) ≡ text
unfolding avr_text
avr_text-line text pad h = rw (trim_space_avr text pad h) (trim_suffix-concat text b';')

-- Every message of seven or fourteen bytes, printed in hexadecimal between `*` and `;` with any
-- white space behind it, is converted, into the frame of just those bytes.
pub avr_to_beast-line :
    (raw pad : Str)
    → IsBytes raw
    → IsBlank pad
    → (length raw ≡ 7) ⊎ (length raw ≡ 14)
    → avr_to_beast ((b'*' ∷ (encode_to_string raw ++ (b';' ∷ []))) ++ pad) ≡ some (avr_frame raw)
unfolding avr_to_beast
avr_to_beast-line raw pad bytes blank lengths =
    ap (λ s. avr_checked (decode_string s)) (avr_text-line (encode_to_string raw) pad blank)
    ∙ ap avr_checked (decode_string-encode_to_string raw bytes)
    ∙ (unfold avr_checked in ground arith)
