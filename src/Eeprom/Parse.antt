-- ===== src/Eeprom/Parse.antt =====
-- What the parser reads of two images that agree where it looks, and what it reads of the units
-- that were written.
use native.Mathlib.Nat.{suc-add, zero-add}
use flightpatch.Common.{
  ℕ, zero, suc, ◌+◌, ◌-◌, ◌/◌, ltb, Bool-cases, ◌*◌, ◌≤◌, ◌<◌, [], ◌∷◌, ◌++◌, some, ◌≡◌, inl, inr,
  refl, ap, ◌∙◌, arith, length, set, length-set,
}
use flightpatch.Eeprom.Bytes.{at-set_self, at-set_ne, at-write_units}
use flightpatch.Eeprom.{at, read_units, parse_from, skip, write_units}
use flightpatch.Text.{Str}

-- Two images agree from `lo` up to `hi`.
abbrev pub Agree : Str → Str → ℕ → ℕ → Type 0
Agree d e lo hi = (j : ℕ) → lo ≤ j → j < hi → at d j ≡ at e j

pub read_units-Agree :
    (fuel : ℕ) (d e : Str) (j stop : ℕ)
    → Agree d e j stop
    → read_units fuel d j stop ≡ read_units fuel e j stop
unfolding read_units
read_units-Agree zero d e j stop h = refl
read_units-Agree (suc fuel) d e j stop h =
    ground (arith, h j, read_units-Agree fuel d e (j + 2) stop (λ i l r. h i (omega arith) r))

-- What a walk that succeeds has seen.
pub skip-suc :
    (k : ℕ) (d : Str) (pos start : ℕ)
    → skip (suc k) d pos ≡ some start
    → (pos + 1 < length d)
      × (2 ≤ at d pos)
      × (at d (pos + 1) ≡ 0x03)
      × (skip k d (pos + at d pos) ≡ some start)
unfolding skip
skip-suc k d pos start h = ground arith

pub skip-le : (k : ℕ) (d : Str) (pos start : ℕ) → skip k d pos ≡ some start → pos + 2 * k ≤ start
skip-le zero d pos start h = unfold skip in ground arith
skip-le (suc k) d pos start h =
    let (inside, two, three', rest) = skip-suc k d pos start h in
    omega (arith, skip-le k d (pos + at d pos) start rest)

-- A descriptor that is in order, and what follows it.
pub parse_from_descriptor :
    (k : ℕ) (d : Str) (pos : ℕ)
    → pos + 1 < length d
    → 2 ≤ at d pos
    → at d (pos + 1) ≡ 0x03
    → pos + at d pos ≤ length d
    → parse_from (suc k) d pos
      ≡ read_units (at d pos) d (pos + 2) (pos + at d pos) ∷ parse_from k d (pos + at d pos)
unfolding parse_from
parse_from_descriptor k d pos inside two three' fit = ground arith

skip_zero : (d : Str) (pos start : ℕ) → skip 0 d pos ≡ some start → pos ≡ start
unfolding skip
skip_zero d pos start h = ground arith

-- The parser reads the descriptors that the walk passed over as they were in the original, then
-- those from where the walk ended.
pub parse_from-skip :
    (k n : ℕ) (orig out : Str) (pos start : ℕ)
    → length out ≡ length orig
    → skip k orig pos ≡ some start
    → start ≤ length orig
    → Agree out orig pos start
    → parse_from (k + n) out pos ≡ parse_from k orig pos ++ parse_from n out start
unfolding parse_from
parse_from-skip zero n orig out pos start len h fit agree =
    rw zero-add (ap (parse_from n out) (skip_zero orig pos start h))
parse_from-skip (suc k) n orig out pos start len h fit agree =
    let (inside, two, three', rest) = skip-suc k orig pos start h in
    let below = skip-le k orig (pos + at orig pos) start rest in
    let same = agree pos (omega arith) (omega arith) in
    let typed = agree (pos + 1) (omega arith) (omega arith) in
    rw (suc-add k n) (
      parse_from_descriptor (k + n) out pos (omega arith) (omega arith) (typed ∙ three')
        (omega arith)
      ∙ rw (
        same,
        read_units-Agree (at orig pos) out orig (pos + 2) (pos + at orig pos)
            (λ j l r. agree j (omega arith) (omega arith)),
        parse_from-skip k n orig out (pos + at orig pos) start len rest fit
            (λ j l r. agree j (omega arith) r),
        parse_from_descriptor k orig pos inside two three' (omega arith),
      ))

-- The walk of `k` descriptors is a parse of `k` strings.
pub length-parse_from :
    (k : ℕ) (d : Str) (pos start : ℕ)
    → skip k d pos ≡ some start
    → start ≤ length d
    → length (parse_from k d pos) ≡ k
length-parse_from zero d pos start h fit = unfold parse_from in refl
length-parse_from (suc k) d pos start h fit =
    let (inside, two, three', rest) = skip-suc k d pos start h in
    let below = skip-le k d (pos + at d pos) start rest in
    rw (parse_from_descriptor k d pos inside two three' (omega arith))
      (ap suc (length-parse_from k d (pos + at d pos) start rest fit))

read_units_step :
    (fuel : ℕ) (e : Str) (j stop : ℕ)
    → j + 1 < stop
    → read_units (suc fuel) e j stop ≡ at e j ∷ read_units fuel e (j + 2) stop
unfolding read_units
read_units_step fuel e j stop h = ground arith

write_units_cons :
    (c : ℕ) (cs : Str) (pos : ℕ) (d : Str)
    → write_units (c ∷ cs) pos d ≡ write_units cs (pos + 2) (set (set d pos c) (pos + 1) 0)
unfolding write_units
write_units_cons c cs pos d = refl

-- With fuel to spare the units that were written are read.
pub read_units-write_units :
    (cs : Str) (fuel pos : ℕ) (d e : Str)
    → length cs < fuel
    → pos + 2 * length cs ≤ length d
    → Agree e (write_units cs pos d) pos (pos + 2 * length cs)
    → read_units fuel e pos (pos + 2 * length cs) ≡ cs
read_units-write_units cs zero pos d e more fit agree = absurd (omega arith)
read_units-write_units [] (suc fuel) pos d e more fit agree = unfold read_units in ground arith
read_units-write_units (c ∷ cs) (suc fuel) pos d e more fit agree =
    let out = set (set d pos c) (pos + 1) 0 in
    let split : (j : ℕ) → at (write_units (c ∷ cs) pos d) j ≡ at (write_units cs (pos + 2) out) j =
      λ j. ap (λ w. at w j) (write_units_cons c cs pos d) in
    let first : at e pos ≡ c =
      agree pos (omega arith) (omega arith)
      ∙ split pos
      ∙ at-write_units cs (pos + 2) out pos (inl (omega arith))
      ∙ at-set_ne (set d pos c) (pos + 1) pos 0 (omega arith)
      ∙ at-set_self d pos c (omega arith) in
    let later : read_units fuel e (pos + 2) (pos + 2 + 2 * length cs) ≡ cs =
      read_units-write_units cs fuel (pos + 2) out e (omega arith)
        (omega (arith, length-set (set d pos c) (pos + 1) 0, length-set d pos c))
        (λ j l r. agree j (omega arith) (omega arith) ∙ split j) in
    let stop : pos + 2 * suc (length cs) ≡ pos + 2 + 2 * length cs = omega arith in
    read_units_step fuel e pos (pos + 2 * suc (length cs)) (omega arith) ∙ rw (first, stop, later)

-- Enough fuel is given once it reaches from `j` to `stop`: one more round changes nothing.
pub read_units_fuel :
    (fuel : ℕ) (d : Str) (j stop : ℕ)
    → stop ≤ j + fuel
    → read_units (suc fuel) d j stop ≡ read_units fuel d j stop
unfolding read_units
read_units_fuel zero d j stop h = ground arith
read_units_fuel (suc fuel) d j stop h = ground (arith, read_units_fuel fuel d (j + 2) stop)

read_units_more :
    (extra fuel : ℕ) (d : Str) (j stop : ℕ)
    → stop ≤ j + fuel
    → read_units (extra + fuel) d j stop ≡ read_units fuel d j stop
read_units_more zero fuel d j stop h = ap (λ n. read_units n d j stop) (zero-add fuel)
read_units_more (suc extra) fuel d j stop h =
    ap (λ n. read_units n d j stop) (suc-add extra fuel)
    ∙ read_units_fuel (extra + fuel) d j stop (omega (arith, h))
    ∙ read_units_more extra fuel d j stop h

length-read_units :
    (fuel : ℕ) (d : Str) (j stop : ℕ)
    → stop ≤ j + fuel
    → length (read_units fuel d j stop) ≡ (stop - j) / 2
unfolding read_units
length-read_units zero d j stop h = omega (arith, h)
length-read_units (suc fuel) d j stop h = elim (Bool-cases (ltb (j + 1) stop)) [
  | inl more ↦ rw more (ground (arith, length-read_units fuel d (j + 2) stop))
  | inr done ↦ rw done (ground arith)
]

-- The loop over the units of a string ends by itself: the fuel that it is given, the length byte, is
-- enough, since more changes nothing, and it makes one round for each two bytes of the string.
pub read_units-rounds :
    (extra pos : ℕ) (d : Str)
    → (read_units (extra + at d pos) d (pos + 2) (pos + at d pos)
        ≡ read_units (at d pos) d (pos + 2) (pos + at d pos))
      × (length (read_units (at d pos) d (pos + 2) (pos + at d pos)) ≡ (at d pos - 2) / 2)
read_units-rounds extra pos d = (
  read_units_more extra (at d pos) d (pos + 2) (pos + at d pos) (omega arith),
  length-read_units (at d pos) d (pos + 2) (pos + at d pos) (omega arith)
      ∙ ap (λ n. n / 2) (omega arith),
)
