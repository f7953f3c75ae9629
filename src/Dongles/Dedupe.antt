-- ===== src/Dongles/Dedupe.antt =====
-- Serials that collide: `uniqueSerial` and `dedupeSerials` of agent/decoders.go. Writing a dongle's
-- serial is an argument.
use flightpatch.Common.{
  ℕ, zero, suc, ◌+◌, ◌≤◌, ◌<◌, Bool, true, false, not, List, [], ◌∷◌, ◌++◌, if◌then◌else◌, if_case,
  Bool-cases, inl, inr, drop, length, ◌≡◌, refl, sym, ap, ◌∙◌, arith,
}
use flightpatch.Decoders.{Dongle}
use flightpatch.Dict.{mem}
use flightpatch.Text.Decimal.{decimal3, decimal3-injective}
use flightpatch.Text.Laws.{str_eq_iff, str_eq-false}
use flightpatch.Text.{Str, codes, str_eq}

-- `ADSBIQ%03d`
abbrev pub serial_number : ℕ → Str
serial_number i = codes "ADSBIQ" ++ decimal3 i

-- The loop from `i` on, with as many rounds as are left.
unfoldable pub unique_from : ℕ → ℕ → List Str → Str
unique_from zero i taken = codes "ADSBIQ000"
unique_from (suc rounds) i taken =
    let next = unique_from rounds (i + 1) taken in
    if not (mem (serial_number i) taken) then serial_number i else next

abbrev pub serial_count : ℕ
serial_count = 99999

-- `uniqueSerial`
unfoldable pub unique_serial : List Str → Str
unique_serial taken = unique_from serial_count 1 taken

-- The loop of `dedupeSerials` over the hardware `S`: the serials seen, and whether one was changed.
-- `writes` gives whether the write for an index worked.
unfoldable pub dedupe_loop :
    {S : Type 0} → (ℕ → Str → S → Bool × S) → List Dongle → List Str → Bool → S → Bool × S
dedupe_loop writes [] seen changed s = (changed, s)
dedupe_loop writes (d ∷ rest) seen changed s =
    let fresh = unique_serial seen in
    let (worked, s') = writes d.index fresh s in
    let first = dedupe_loop writes rest (d.serial ∷ seen) changed s in
    let failed = dedupe_loop writes rest (d.serial ∷ seen) changed s' in
    let rewritten = dedupe_loop writes rest (fresh ∷ seen) true s' in
    if not (mem d.serial seen) then first else if not worked then failed else rewritten

-- `dedupeSerials`, with what the devices are cycled by and enumerated with.
unfoldable pub dedupe_serials :
    {S : Type 0}
    → (ℕ → Str → S → Bool × S)
    → (S → S)
    → (S → List Dongle)
    → List Dongle
    → S
    → List Dongle × S
dedupe_serials writes reset enumerates dongles s =
    let (changed, s') = dedupe_loop writes dongles [] false s in
    if changed then (enumerates (reset s'), reset s') else (dongles, s')

-- The serials without one of them.
abbrev without : Str → List Str → List Str
without s [] = []
without s (t ∷ ts) = if str_eq t s then without s ts else t ∷ without s ts

length-without : (s : Str) (ts : List Str) → length (without s ts) ≤ length ts
length-without s [] = omega arith
length-without s (t ∷ ts) = ground (arith, length-without s ts)

length-without-lt : (s : Str) (ts : List Str) → mem s ts ≡ true → length (without s ts) < length ts
unfolding mem
length-without-lt s [] h = absurd (ground arith)
length-without-lt s (t ∷ ts) h = ground (arith, length-without s ts, length-without-lt s ts)

mem-without : (r s : Str) (ts : List Str) → str_eq s r ≡ false → mem r (without s ts) ≡ mem r ts
unfolding mem
mem-without r s [] h = refl
mem-without r s (t ∷ ts) h =
    ground (arith, mem-without r s ts h, str_eq_iff t s, str_eq_iff t r, str_eq_iff s r)

serial_number_ne : (i j : ℕ) → i < j → str_eq (serial_number i) (serial_number j) ≡ false
serial_number_ne i j h =
    str_eq-false (serial_number i) (serial_number j)
      (λ e. omega (arith, h, decimal3-injective i j (ap (drop 6) e)))

-- Later serials are looked for alike without an earlier one.
unique_from-without :
    (rounds i j : ℕ) (taken : List Str)
    → i < j
    → unique_from rounds j taken ≡ unique_from rounds j (without (serial_number i) taken)
unfolding unique_from
unique_from-without zero i j taken h = refl
unique_from-without (suc rounds) i j taken h =
    rw (mem-without (serial_number j) (serial_number i) taken (serial_number_ne i j h))
      (rw (unique_from-without rounds i (j + 1) taken (omega (arith, h))) refl)

pub unique_from_lem :
    (rounds i : ℕ) (taken : List Str)
    → length taken < rounds
    → (k : ℕ) × (i ≤ k)
      × (unique_from rounds i taken ≡ serial_number k)
      × (mem (serial_number k) taken ≡ false)
unfolding unique_from
unique_from_lem zero i taken h = absurd (omega (arith, h))
unique_from_lem (suc rounds) i taken h = elim (Bool-cases (mem (serial_number i) taken)) [
  | inr free ↦ (i, omega arith, rw free refl, free)
  | inl used ↦
      let less = without (serial_number i) taken in
      let (k, above, found, free) =
        unique_from_lem rounds (i + 1) less
          (omega (arith, h, length-without-lt (serial_number i) taken used)) in
      let other =
        mem-without (serial_number k) (serial_number i) taken
          (serial_number_ne i k (omega (arith, above))) in
      (
        k,
        omega (arith, above),
        rw used (unique_from-without rounds i (i + 1) taken (omega arith) ∙ found),
        sym other ∙ free,
      )
]

-- Where fewer than 99999 serials are taken, the one that is found is not among them.
pub unique_serial_free :
    (taken : List Str) → length taken < serial_count → mem (unique_serial taken) taken ≡ false
unfolding unique_serial
unique_serial_free taken h =
    let (k, above, found, free) = unique_from_lem serial_count 1 taken h in rw found free

-- No serial is seen before it.
abbrev pub AllNew : List Str → List Dongle → Type 0
AllNew seen [] = Unit
AllNew seen (d ∷ rest) = (mem d.serial seen ≡ false) × AllNew (d.serial ∷ seen) rest

dedupe_loop-AllNew :
    {S : Type 0} (writes : ℕ → Str → S → Bool × S) (dongles : List Dongle) (seen : List Str) (s : S)
    → AllNew seen dongles
    → dedupe_loop writes dongles seen false s ≡ (false, s)
unfolding dedupe_loop
dedupe_loop-AllNew writes [] seen s h = refl
dedupe_loop-AllNew writes (d ∷ rest) seen s h =
    if_case (λ r. r ≡ (false, s)) (not (mem d.serial seen))
      (λ _. dedupe_loop-AllNew writes rest (d.serial ∷ seen) s h.1)
      (λ old. absurd (ground (arith, h.0)))

-- Where the serials are distinct, nothing is written, no device is cycled and the list stands.
pub dedupe_serials-AllNew :
    {S : Type 0} (writes : ℕ → Str → S → Bool × S) (reset : S → S) (enumerates : S → List Dongle)
    (dongles : List Dongle) (s : S)
    → AllNew [] dongles
    → dedupe_serials writes reset enumerates dongles s ≡ (dongles, s)
unfolding dedupe_serials
dedupe_serials-AllNew writes reset enumerates dongles s h =
    rw (dedupe_loop-AllNew writes dongles [] s h) refl
