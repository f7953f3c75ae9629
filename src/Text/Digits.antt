-- ===== src/Text/Digits.antt =====
-- `strings.TrimSpace` on rows of digits.
use flightpatch.Common.{ℕ, true, false, [], ◌∷◌, ◌++◌, ◌≡◌, refl, ap, arith}
use flightpatch.Text.Decimal.{is_digit, all_digits, decimal, all_digits-decimal}
use flightpatch.Text.Trim.{trim_space_ends, trim_space_one}
use flightpatch.Text.{Str, is_empty, trim_space}

abbrev pub EndsInDigit : Str → Type 0
EndsInDigit s = (front : Str) × (c : ℕ) × ((s ≡ front ++ (c ∷ [])) × (is_digit c ≡ true))

pub last_digit : (s : Str) → all_digits s ≡ true → is_empty s ≡ false → EndsInDigit s
unfolding all_digits
last_digit [] h k = absurd (ground arith)
last_digit (x ∷ []) h k = ([], x, (refl, ground arith))
last_digit (x ∷ (y ∷ s)) h k =
    let (front, c, (e, d)) = last_digit (y ∷ s) (ground arith) refl in
    (x ∷ front, c, (ap (λ r. x ∷ r) e, d))

trim_space-digits : (s : Str) → all_digits s ≡ true → trim_space s ≡ s
unfolding all_digits
trim_space-digits [] h = unfold trim_space in refl
trim_space-digits (x ∷ []) h = trim_space_one x (ground (arith, h))
trim_space-digits (x ∷ (y ∷ s)) h =
    let (front, c, (e, d)) = last_digit (y ∷ s) (ground (arith, h)) refl in
    rw e (
      trim_space_ends x front c (ground (arith, h)) (ground (arith, h)) (ground arith)
        (ground arith))

-- A printed number has no space around it.
pub trim_space-decimal : (n : ℕ) → trim_space (decimal n) ≡ decimal n
trim_space-decimal n = trim_space-digits (decimal n) (all_digits-decimal n).0
