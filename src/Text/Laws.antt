-- ===== src/Text/Laws.antt =====
-- What comparing two byte strings means.
use flightpatch.Common.{true, false, ◌∷◌, ◌≡◌, ◌≢◌, ◌↔◌, refl, arith}
use flightpatch.Text.{Str, str_eq}

pub str_eq_iff : (a b : Str) → (str_eq a b ≡ true) ↔ (a ≡ b)
unfolding str_eq
str_eq_iff (x ∷ a) (y ∷ b) = ground (arith, str_eq_iff a b)
str_eq_iff _ _ = ground arith

pub str_eq_refl : (a : Str) → str_eq a a ≡ true
str_eq_refl a = (str_eq_iff a a).1 refl

pub str_eq-false : (a b : Str) → a ≢ b → str_eq a b ≡ false
str_eq-false a b h = ground (arith, str_eq_iff a b)
