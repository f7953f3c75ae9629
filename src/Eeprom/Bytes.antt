-- ===== src/Eeprom/Bytes.antt =====
-- Which bytes the writing loops change.
use flightpatch.Common.{
  ℕ, zero, suc, ◌+◌, ◌*◌, ◌≤◌, ◌<◌, [], ◌∷◌, ◌≡◌, ◌≢◌, ◌⊎◌, inl, refl, ap, ◌∙◌, arith, length, set,
  drop, length-set,
}
use native.Mathlib.Decide.{dec_lt}
use flightpatch.Eeprom.{at, write_units, zero_fill}
use flightpatch.Text.{Str}

pub at-set_self : (d : Str) (i v : ℕ) → i < length d → at (set d i v) i ≡ v
at-set_self [] i v h = elim h [ ]
at-set_self (x ∷ d) zero v h = refl
at-set_self (x ∷ d) (suc i) v h = at-set_self d i v (omega arith)

pub at-set_ne : (d : Str) (i j v : ℕ) → i ≢ j → at (set d i v) j ≡ at d j
at-set_ne [] i j v h = refl
at-set_ne (x ∷ d) zero zero v h = absurd (h refl)
at-set_ne (x ∷ d) zero (suc j) v h = refl
at-set_ne (x ∷ d) (suc i) zero v h = refl
at-set_ne (x ∷ d) (suc i) (suc j) v h = at-set_ne d i j v (λ e. h (ap suc e))

pub drop-set : (d : Str) (i n v : ℕ) → i < n → drop n (set d i v) ≡ drop n d
drop-set [] i n v h = refl
drop-set (x ∷ d) i zero v h = elim h [ ]
drop-set (x ∷ d) zero (suc n) v h = refl
drop-set (x ∷ d) (suc i) (suc n) v h = drop-set d i n v (omega arith)

pub length-write_units : (cs : Str) (pos : ℕ) (d : Str) → length (write_units cs pos d) ≡ length d
unfolding write_units
length-write_units [] pos d = refl
length-write_units (c ∷ cs) pos d =
    length-write_units cs (pos + 2) (set (set d pos c) (pos + 1) 0)
    ∙ length-set (set d pos c) (pos + 1) 0
    ∙ length-set d pos c

pub length-zero_fill : (n pos : ℕ) (d : Str) → length (zero_fill n pos d) ≡ length d
unfolding zero_fill
length-zero_fill zero pos d = refl
length-zero_fill (suc n) pos d = length-zero_fill n (pos + 1) (set d pos 0) ∙ length-set d pos 0

pub at-write_units :
    (cs : Str) (pos : ℕ) (d : Str) (j : ℕ)
    → (j < pos) ⊎ (pos + 2 * length cs ≤ j)
    → at (write_units cs pos d) j ≡ at d j
unfolding write_units
at-write_units [] pos d j h = refl
at-write_units (c ∷ cs) pos d j h =
    at-write_units cs (pos + 2) (set (set d pos c) (pos + 1) 0) j (omega arith)
    ∙ at-set_ne (set d pos c) (pos + 1) j 0 (omega arith)
    ∙ at-set_ne d pos j c (omega arith)

pub at-zero_fill_out :
    (n pos : ℕ) (d : Str) (j : ℕ) → (j < pos) ⊎ (pos + n ≤ j) → at (zero_fill n pos d) j ≡ at d j
unfolding zero_fill
at-zero_fill_out zero pos d j h = refl
at-zero_fill_out (suc n) pos d j h =
    at-zero_fill_out n (pos + 1) (set d pos 0) j (omega arith) ∙ at-set_ne d pos j 0 (omega arith)

pub at-zero_fill :
    (n pos : ℕ) (d : Str) (j : ℕ)
    → pos + n ≤ length d
    → pos ≤ j
    → j < pos + n
    → at (zero_fill n pos d) j ≡ 0
unfolding zero_fill
at-zero_fill zero pos d j h k l = absurd (omega arith)
at-zero_fill (suc n) pos d j h k l = elim (dec_lt pos j) [
  | yes p ↦
      at-zero_fill n (pos + 1) (set d pos 0) j (omega (arith, length-set d pos 0)) (omega arith)
        (omega arith)
  | no p ↦
      let here : j ≡ pos = omega arith in
      at-zero_fill_out n (pos + 1) (set d pos 0) j (inl (omega arith))
      ∙ rw here (at-set_self d pos 0 (omega arith))
]

pub drop-write_units :
    (cs : Str) (pos n : ℕ) (d : Str)
    → pos + 2 * length cs ≤ n
    → drop n (write_units cs pos d) ≡ drop n d
unfolding write_units
drop-write_units [] pos n d h = refl
drop-write_units (c ∷ cs) pos n d h =
    drop-write_units cs (pos + 2) n (set (set d pos c) (pos + 1) 0) (omega arith)
    ∙ drop-set (set d pos c) (pos + 1) n 0 (omega arith)
    ∙ drop-set d pos n c (omega arith)

pub drop-zero_fill : (k pos n : ℕ) (d : Str) → pos + k ≤ n → drop n (zero_fill k pos d) ≡ drop n d
unfolding zero_fill
drop-zero_fill zero pos n d h = refl
drop-zero_fill (suc k) pos n d h =
    drop-zero_fill k (pos + 1) n (set d pos 0) (omega arith) ∙ drop-set d pos n 0 (omega arith)
