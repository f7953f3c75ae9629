-- ===== src/Update/Versions.antt =====
-- `parseVer` of agent/update.go on printed versions.
use flightpatch.Common.{
  ℕ, ◌^◌, ◌<◌, true, [], ◌∷◌, ◌++◌, none, some, ◌≡◌, refl, sym, ap, ◌∙◌, arith, append_assoc,
}
use flightpatch.Text.Decimal.{all_digits, decimal, value_onto-decimal, all_digits-decimal}
use flightpatch.Text.Digits.{EndsInDigit, last_digit}
use flightpatch.Text.Trim.{trim_space_tag}
use flightpatch.Text.{Str, trim_space, trim_prefix}
use flightpatch.Update.{cut, split3, trim_left_digits, trim_right_digits, atoi, part, parse_ver}

cut-digits : (s : Str) → all_digits s ≡ true → cut s ≡ (s, none)
unfolding cut all_digits
cut-digits [] h = refl
cut-digits (x ∷ s) h = ground (arith, cut-digits s)

cut-concat : (s t : Str) → all_digits s ≡ true → cut (s ++ (b'.' ∷ t)) ≡ (s, some t)
unfolding cut all_digits
cut-concat [] t h = refl
cut-concat (x ∷ s) t h = ground (arith, cut-concat s t)

trim_left_digits-eq : (s : Str) → all_digits s ≡ true → trim_left_digits s ≡ s
unfolding trim_left_digits all_digits
trim_left_digits-eq [] h = refl
trim_left_digits-eq (x ∷ s) h = ground arith

trim_right_digits-eq : (s : Str) → all_digits s ≡ true → trim_right_digits s ≡ s
unfolding trim_right_digits all_digits
trim_right_digits-eq [] h = refl
trim_right_digits-eq (x ∷ s) h = ground (arith, trim_right_digits-eq s)

part-decimal : (n : ℕ) → n < 2 ^ 63 → part (decimal n) ≡ n
unfolding atoi
part-decimal n h =
    let digits = all_digits-decimal n in
    rw (trim_left_digits-eq (decimal n) (digits.0)) (
      rw (trim_right_digits-eq (decimal n) (digits.0))
        (rw (digits.0) (rw (digits.1) (rw (value_onto-decimal n) (ground arith)))))

EndsInDigit-append : (s t : Str) → EndsInDigit t → EndsInDigit (s ++ t)
EndsInDigit-append s t (front, c, (e, d)) =
    (s ++ front, c, (ap (λ r. s ++ r) e ∙ sym (append_assoc s front (c ∷ [])), d))

abbrev pub print_numbers : ℕ → ℕ → ℕ → Str
print_numbers a b c = decimal a ++ (b'.' ∷ (decimal b ++ (b'.' ∷ decimal c)))

EndsInDigit-print : (a b c : ℕ) → EndsInDigit (print_numbers a b c)
EndsInDigit-print a b c =
    let digits = all_digits-decimal c in
    let last =
      EndsInDigit-append (b'.' ∷ []) (decimal c) (last_digit (decimal c) digits.0 digits.1) in
    let two = EndsInDigit-append (b'.' ∷ decimal b) (b'.' ∷ decimal c) last in
    EndsInDigit-append (decimal a) (b'.' ∷ (decimal b ++ (b'.' ∷ decimal c))) two

trim_space-EndsInDigit : (s : Str) → EndsInDigit s → trim_space (b'v' ∷ s) ≡ b'v' ∷ s
trim_space-EndsInDigit s (front, c, (e, d)) =
    rw e (trim_space_tag front c (ground arith) (ground arith))

split3-print :
    (a b c : ℕ) → split3 (print_numbers a b c) ≡ decimal a ∷ (decimal b ∷ (decimal c ∷ []))
unfolding split3
split3-print a b c =
    rw (cut-concat (decimal a) (decimal b ++ (b'.' ∷ decimal c)) ((all_digits-decimal a).0))
      (rw (cut-concat (decimal b) (decimal c) ((all_digits-decimal b).0)) refl)

-- A tag of the form v1.2.3, of numbers that an int holds, parses to these numbers.
pub parse_ver-print :
    (a b c : ℕ)
    → a < 2 ^ 63
    → b < 2 ^ 63
    → c < 2 ^ 63
    → parse_ver (b'v' ∷ print_numbers a b c) ≡ (a, b, c)
unfolding parse_ver trim_prefix
parse_ver-print a b c ha hb hc =
    rw (trim_space-EndsInDigit (print_numbers a b c) (EndsInDigit-print a b c)) (
      rw (split3-print a b c)
        (rw (part-decimal a ha) (rw (part-decimal b hb) (rw (part-decimal c hc) refl))))
