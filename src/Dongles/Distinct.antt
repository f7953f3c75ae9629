-- ===== src/Dongles/Distinct.antt =====
-- The serials that `dedupeSerials` of agent/decoders.go leaves in hardware that takes each write.
use flightpatch.Common.{
  ℕ, ◌+◌, ◌≤◌, Bool, true, false, List, [], ◌∷◌, ◌++◌, map, append_assoc, if◌then◌else◌, if_case,
  Bool-cases, inl, inr, set, length, ◌≡◌, refl, ap, arith,
}
use flightpatch.Decoders.{Dongle}
use flightpatch.Dict.{mem}
use flightpatch.Dongles.Dedupe.{
  serial_count, unique_serial, dedupe_loop, dedupe_serials, unique_serial_free,
}
use flightpatch.Text.{Str}

-- The hardware as the serials by index, and a write to it.
abbrev pub Hardware : Type 0
Hardware = List Str

abbrev pub program_serial : ℕ → Str → Hardware → Bool × Hardware
program_serial i s hw = (true, set hw i s)

abbrev pub serials_of : List Dongle → Hardware
serials_of ds = map (λ d. d.serial) ds

-- The dongles are listed by their indexes, from `i` on.
abbrev pub IsNumbered : ℕ → List Dongle → Type 0
IsNumbered i [] = Unit
IsNumbered i (d ∷ ds) = (d.index ≡ i) × IsNumbered (i + 1) ds

-- No serial is among those seen or those before it.
abbrev pub AllFresh : List Str → List Str → Type 0
AllFresh seen [] = Unit
AllFresh seen (s ∷ ss) = (mem s seen ≡ false) × AllFresh (s ∷ seen) ss

-- The serials one by one.
relabelled : List Str → List Dongle → List Str
relabelled seen [] = []
relabelled seen (d ∷ ds) =
    let s = if mem d.serial seen then unique_serial seen else d.serial in
    s ∷ relabelled (s ∷ seen) ds

set_here {ℓ} :
    {A : Type ℓ} (before rest : List A) (x s : A)
    → set (before ++ (x ∷ rest)) (length before) s ≡ before ++ (s ∷ rest)
set_here [] rest x s = refl
set_here (b ∷ before) rest x s = ap (λ t. b ∷ t) (set_here before rest x s)

length-append_one {ℓ} :
    {A : Type ℓ} (before : List A) (s : A) → length (before ++ (s ∷ [])) ≡ length before + 1
length-append_one [] s = refl
length-append_one (b ∷ before) s = omega (arith, length-append_one before s)

-- The serials before the loop's place, and those from there on.
dedupe_loop-relabelled :
    (ds : List Dongle) (before : Hardware) (seen : List Str) (changed : Bool)
    → IsNumbered (length before) ds
    → (dedupe_loop program_serial ds seen changed (before ++ serials_of ds)).1
      ≡ before ++ relabelled seen ds
unfolding dedupe_loop relabelled
dedupe_loop-relabelled [] before seen changed h = refl
dedupe_loop-relabelled (d ∷ ds) before seen changed h =
    let step = λ (s : Str) (c : Bool).
      let numbered : IsNumbered (length (before ++ (s ∷ []))) ds =
        rw (length-append_one before s) h.1 in
      let on = dedupe_loop-relabelled ds (before ++ (s ∷ [])) (s ∷ seen) c numbered in
      rw
        (
          append_assoc before (s ∷ []) (serials_of ds),
          append_assoc before (s ∷ []) (relabelled (s ∷ seen) ds),
        )
        at on in
    elim (Bool-cases (mem d.serial seen)) [
      | inr first ↦ rw first (step d.serial changed)
      | inl again ↦
          let u = unique_serial seen in
          let written : set (before ++ (d.serial ∷ serials_of ds)) d.index u
              ≡ before ++ (u ∷ serials_of ds) =
            rw h.0 (set_here before (serials_of ds) d.serial u) in
          rw again (rw written (step u true))
    ]

relabelled-AllFresh :
    (ds : List Dongle) (seen : List Str)
    → length seen + length ds ≤ serial_count
    → AllFresh seen (relabelled seen ds)
unfolding relabelled
relabelled-AllFresh [] seen h = tt
relabelled-AllFresh (d ∷ ds) seen h =
    let s = if mem d.serial seen then unique_serial seen else d.serial in
    (
      if_case (λ t. mem t seen ≡ false) (mem d.serial seen)
          (λ _. unique_serial_free seen (omega (arith, h))) (λ first. first),
      relabelled-AllFresh ds (s ∷ seen) (omega (arith, h)),
    )

-- Where the dongles are listed by their indexes, fewer than 100000 of them, and each write works, the
-- serials in the hardware are distinct afterwards.
pub dedupe_serials-AllFresh :
    (enumerates : Hardware → List Dongle) (ds : List Dongle)
    → IsNumbered 0 ds
    → length ds ≤ serial_count
    → AllFresh [] (dedupe_serials program_serial (λ hw. hw) enumerates ds (serials_of ds)).1
unfolding dedupe_serials
dedupe_serials-AllFresh enumerates ds h small =
    let result = dedupe_loop program_serial ds [] false (serials_of ds) in
    let left : AllFresh [] result.1 =
      rw (dedupe_loop-relabelled ds [] [] false h)
        (relabelled-AllFresh ds [] (omega (arith, small))) in
    if_case (λ (r : List Dongle × Hardware). AllFresh [] r.1) result.0 (λ _. left) (λ _. left)
