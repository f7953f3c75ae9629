-- ===== src/Service/Renaming.antt =====
-- What `--set-serial` of agent/main.go does to a dongle.
use flightpatch.Common.{
  ℕ, ◌<◌, ◌^◌, true, false, [], ◌∷◌, ◌++◌, some, ◌≡◌, ◌⊎◌, inl, inr, sym, refl, ap, ◌∙◌, arith,
}
use mathlib.Core.Path.{subst}
use flightpatch.Eeprom.Device.{Machine, Failure, Result, ok, err, write_dongle_serial}
use flightpatch.Eeprom.Rules.{Post, IsFaithful}
use flightpatch.Eeprom.SelfTest.{Renamed, SerialLeft, write_dongle_serial-SerialLeft}
use flightpatch.Service.Modes.Bodies.{ended, run_set_serial}
use flightpatch.Service.Modes.{Tools, returned, fatal, ModeEnd, cut_at, read_index}
use flightpatch.Text.Decimal.{
  all_digits, decimal, value_onto, all_digits-decimal, value_onto-decimal,
}
use flightpatch.Text.Digits.{trim_space-decimal}
use flightpatch.Text.{Str, is_empty, trim_space}

cut_at-digits : (s t : Str) → all_digits s ≡ true → cut_at b'=' (s ++ (b'=' ∷ t)) ≡ some (s, t)
unfolding cut_at all_digits
cut_at-digits [] t h = refl
cut_at-digits (x ∷ s) t h = ground (arith, cut_at-digits s t)

read_index-digits :
    (s : Str)
    → all_digits s ≡ true
    → is_empty s ≡ false
    → value_onto 0 s < 2 ^ 63
    → read_index s ≡ some (value_onto 0 s)
unfolding read_index all_digits
read_index-digits [] h k l = absurd (ground (arith, k))
read_index-digits (c ∷ s) h k l = ground (arith, h, l)

read_index-decimal : (n : ℕ) → n < 2 ^ 63 → read_index (decimal n) ≡ some n
read_index-decimal n h =
    let digits = all_digits-decimal n in
    read_index-digits (decimal n) digits.0 digits.1 (rw (value_onto-decimal n) h)
    ∙ ap some (value_onto-decimal n)

module _ {S : Type 0} (t : Tools S) where
  run_set_serial-decimal :
      (n : ℕ) (serial : Str) (m : Machine S)
      → n < 2 ^ 63
      → run_set_serial t (decimal n ++ (b'=' ∷ serial)) m
        ≡ ended (λ _. []) (write_dongle_serial (t.driver n) t.loaded (trim_space serial) m)
  unfolding run_set_serial
  run_set_serial-decimal n serial m h =
      rw (cut_at-digits (decimal n) serial (all_digits-decimal n).0)
        (rw (trim_space-decimal n) (rw (read_index-decimal n h) refl))

  -- A mode ends by a return where its action succeeds, and else with the line that names its failure.
  abbrev pub Ended : (Machine S → Type 0) → (Failure → Machine S → Type 0) → ModeEnd S → Type 0
  Ended Q E o =
      ((o.exit ≡ returned) × Q o.machine)
      ⊎ ((o.exit ≡ fatal) × ((e : Failure) × ((o.failure ≡ some e) × E e o.machine)))

  ended-Ended :
      (Q : Machine S → Type 0) (E : Failure → Machine S → Type 0)
      (r : Result (Unit {0}) × Machine S)
      → Post (λ _. Q) E r
      → Ended Q E (ended (λ _. []) r)
  ended-Ended Q E (ok a, m) h = inl (refl, h)
  ended-Ended Q E (err e, m) h = inr (refl, (e, (refl, h)))

  -- Given the index of a dongle that does what its driver says, in decimal, and a serial, `--set-serial`
  -- either returns, and then this dongle has the serial without the space around it and all else in its
  -- EEPROM is as before, or it ends with a failure, and then it has at most what `writeDongleSerial`
  -- leaves that fails in this way.
  pub run_set_serial-Ended :
      (n : ℕ) (serial : Str) (m : Machine S) (content : S → Str)
      (f : IsFaithful (t.driver n) content)
      → n < 2 ^ 63
      → Ended
          (Renamed (t.driver n) t.loaded content f (trim_space serial) (content m.chip))
          (SerialLeft (t.driver n) t.loaded content f (trim_space serial) (content m.chip))
          (run_set_serial t (decimal n ++ (b'=' ∷ serial)) m)
  run_set_serial-Ended n serial m content f h =
      let c = content m.chip in
      let new = trim_space serial in
      let Q = Renamed (t.driver n) t.loaded content f new c in
      let E = SerialLeft (t.driver n) t.loaded content f new c in
      subst (Ended Q E) (sym (run_set_serial-decimal n serial m h)) (
        ended-Ended Q E (write_dongle_serial (t.driver n) t.loaded new m)
          (write_dongle_serial-SerialLeft (t.driver n) t.loaded content f new m))
