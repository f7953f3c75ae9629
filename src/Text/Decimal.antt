-- ===== src/Text/Decimal.antt =====
-- `strconv.Itoa` of a number that is not negative, and the verb `%03d`.
use flightpatch.Common.{
  Bool, true, false, ◌&&◌, leb, ℕ, zero, suc, ◌+◌, ◌-◌, ◌*◌, ◌/◌, ◌%◌, ◌≤◌, [], ◌∷◌, ltb,
  if◌then◌else◌, ◌≡◌, refl, ap, sym, ◌∙◌, arith, length, inl, inr, Bool-cases,
}
use flightpatch.Text.{Str, is_empty}

abbrev pub is_digit : ℕ → Bool
is_digit c = leb b'0' c && leb c b'9'

unfoldable pub all_digits : Str → Bool
all_digits [] = true
all_digits (x ∷ xs) = is_digit x && all_digits xs

-- The digits of `n` in front of `rest`; the fuel `n` is enough, since each round divides by ten.
unfoldable pub digits_onto : ℕ → ℕ → Str → Str
digits_onto zero n rest = (b'0' + n % 10) ∷ rest
digits_onto (suc fuel) n rest =
    let more = digits_onto fuel (n / 10) ((b'0' + n % 10) ∷ rest) in
    if ltb n 10 then (b'0' + n % 10) ∷ rest else more

unfoldable pub decimal : ℕ → Str
unfolding digits_onto
decimal n = digits_onto n n []

pad_zeros : ℕ → Str → Str
pad_zeros zero s = s
pad_zeros (suc n) s = b'0' ∷ pad_zeros n s

all_digits-digits_onto :
    (fuel n : ℕ) (rest : Str)
    → all_digits rest ≡ true
    → (all_digits (digits_onto fuel n rest) ≡ true) × (is_empty (digits_onto fuel n rest) ≡ false)
unfolding all_digits digits_onto
all_digits-digits_onto zero n rest h = (ground arith, refl)
all_digits-digits_onto (suc fuel) n rest h =
    let ih = all_digits-digits_onto fuel (n / 10) ((b'0' + n % 10) ∷ rest) (ground arith) in
    elim (Bool-cases (ltb n 10)) [
      | inl small ↦ rw small (ground arith, refl)
      | inr large ↦ rw large ih
    ]

pub all_digits-decimal : (n : ℕ) → (all_digits (decimal n) ≡ true) × (is_empty (decimal n) ≡ false)
unfolding decimal all_digits
all_digits-decimal n = all_digits-digits_onto n n [] refl

-- At least three digits, with leading zeros.
unfoldable pub decimal3 : ℕ → Str
unfolding decimal pad_zeros
decimal3 n = pad_zeros (3 - length (decimal n)) (decimal n)

-- The number that a row of digits stands for, read from the left.
unfoldable pub value_onto : ℕ → Str → ℕ
value_onto acc [] = acc
value_onto acc (c ∷ cs) = value_onto (acc * 10 + (c - b'0')) cs

value_onto-digits_onto :
    (fuel n : ℕ) (rest : Str)
    → n ≤ fuel
    → value_onto 0 (digits_onto fuel n rest) ≡ value_onto n rest
unfolding value_onto digits_onto
value_onto-digits_onto zero n rest h = ground arith
value_onto-digits_onto (suc fuel) n rest h = elim (Bool-cases (ltb n 10)) [
  | inl small ↦ rw small (ap (λ m. value_onto m rest) (ground arith))
  | inr large ↦ rw large (
      value_onto-digits_onto fuel (n / 10) ((b'0' + n % 10) ∷ rest) (ground arith)
      ∙ ap (λ m. value_onto m rest) (ground arith))
]

-- Printing keeps the number, so numbers that print alike are equal.
pub value_onto-decimal : (n : ℕ) → value_onto 0 (decimal n) ≡ n
unfolding decimal
value_onto-decimal n = value_onto-digits_onto n n [] (omega arith) ∙ (unfold value_onto in refl)

all_digits-pad_zeros : (k : ℕ) (s : Str) → all_digits s ≡ true → all_digits (pad_zeros k s) ≡ true
unfolding all_digits pad_zeros
all_digits-pad_zeros zero s h = h
all_digits-pad_zeros (suc k) s h = all_digits-pad_zeros k s h

pub all_digits-decimal3 : (n : ℕ) → all_digits (decimal3 n) ≡ true
unfolding decimal3
all_digits-decimal3 n =
    all_digits-pad_zeros (3 - length (decimal n)) (decimal n) (all_digits-decimal n).0

value_onto-pad_zeros : (k : ℕ) (s : Str) → value_onto 0 (pad_zeros k s) ≡ value_onto 0 s
unfolding value_onto pad_zeros
value_onto-pad_zeros zero s = refl
value_onto-pad_zeros (suc k) s = value_onto-pad_zeros k s

pub value_onto-decimal3 : (n : ℕ) → value_onto 0 (decimal3 n) ≡ n
unfolding decimal3
value_onto-decimal3 n =
    value_onto-pad_zeros (3 - length (decimal n)) (decimal n) ∙ value_onto-decimal n

pub decimal-injective : (m n : ℕ) → decimal m ≡ decimal n → m ≡ n
decimal-injective m n e = sym (value_onto-decimal m) ∙ ap (value_onto 0) e ∙ value_onto-decimal n

pub decimal3-injective : (m n : ℕ) → decimal3 m ≡ decimal3 n → m ≡ n
decimal3-injective m n e = sym (value_onto-decimal3 m) ∙ ap (value_onto 0) e ∙ value_onto-decimal3 n
