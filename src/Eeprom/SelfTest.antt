-- ===== src/Eeprom/SelfTest.antt =====
-- What `writeDongleSerial` and `eepromSelfTest` of agent/eeprom_windows.go leave behind.
use flightpatch.Common.{
  ℕ, Bool, true, false, ◌++◌, some, take, drop, length, length-take, take-drop, ◌≡◌, ◌≢◌, ◌⊎◌, refl,
  sym, ap, ◌∙◌, arith, inl, inr,
}
use flightpatch.Dict.{lookup, lookup-insert}
use flightpatch.Eeprom.Device.{
  Driver, Machine, Failure, not_read, rejected, not_written, not_read_back, unverified,
  not_restored, restore_not_read, write_unverified, restore_unverified, Result, ok, err, serial_of,
  write_dongle_serial, backup_path, back_up, test_and_restore, eeprom_self_test,
}
use flightpatch.Eeprom.Serial.{
  drop-set_eeprom_serial, parse-set_eeprom_serial, length-set_eeprom_serial,
}
use flightpatch.Eeprom.{parse_eeprom_strings, set_eeprom_serial}
use flightpatch.Files.{Files, write}
use flightpatch.Text.Decimal.{decimal}
use flightpatch.Text.Laws.{str_eq_refl}
use flightpatch.Text.{Str, codes, str_eq}
use flightpatch.Eeprom.Rules.{
  Post, IsFaithful, At, or_fail_then, check_then, check-Post, read_then, write_then,
}

module _ {S : Type 0} (d : Driver S) (loaded : Bool) (content : S → Str)
    (f : IsFaithful d content) where
  -- The state of a write that was followed to its end: the serial is the new one, all else the old.
  abbrev pub Renamed : Str → Str → Machine S → Type 0
  Renamed serial c m =
      (parse_eeprom_strings (content m.chip)
        ≡ ((parse_eeprom_strings c).0, (parse_eeprom_strings c).1, serial))
      × (drop 128 (content m.chip) ≡ drop 128 c)

  -- What a failed `writeDongleSerial` leaves; a failed write of the driver may leave anything.
  abbrev pub SerialLeft : Str → Str → Failure → Machine S → Type 0
  SerialLeft serial c not_read m = content m.chip ≡ c
  SerialLeft serial c rejected m = content m.chip ≡ c
  SerialLeft serial c not_written m = Unit
  SerialLeft serial c not_read_back m = Renamed serial c m
  SerialLeft serial c unverified m = ⊥
  SerialLeft serial c not_restored m = ⊥
  SerialLeft serial c restore_not_read m = ⊥
  SerialLeft serial c write_unverified m = ⊥
  SerialLeft serial c restore_unverified m = ⊥

  changed_whole :
      (c serial changed : Str)
      → set_eeprom_serial c serial ≡ some changed
      → take 128 changed ++ drop (length (take 128 changed)) c ≡ changed
  changed_whole c serial changed h =
      let (long, enough) = length-set_eeprom_serial c serial h in
      let n : length (take 128 changed) ≡ 128 =
        length-take 128 changed (omega (arith, long, enough)) in
      rw n (
        ap (λ r. take 128 changed ++ r) (sym (drop-set_eeprom_serial c serial h))
        ∙ take-drop 128 changed)

  Renamed-set :
      (c serial changed : Str) (m : Machine S)
      → set_eeprom_serial c serial ≡ some changed
      → content m.chip ≡ changed
      → Renamed serial c m
  Renamed-set c serial changed m h e = (
    ap parse_eeprom_strings e ∙ parse-set_eeprom_serial c serial h,
    ap (drop 128) e ∙ drop-set_eeprom_serial c serial h,
  )

  sure :
      (c serial changed : Str)
      → set_eeprom_serial c serial ≡ some changed
      → str_eq (serial_of d loaded changed) serial ≡ true
  sure c serial changed h =
      rw (ap (λ t. t.2) (parse-set_eeprom_serial c serial h)) (str_eq_refl serial)

  no_doubt :
      (c serial changed : Str)
      → set_eeprom_serial c serial ≡ some changed
      → str_eq (serial_of d loaded changed) serial ≢ false
  no_doubt c serial changed h = ground (arith, sure c serial changed h)

  -- On hardware that does what its driver says, `writeDongleSerial` either sets the serial, keeping
  -- the other strings and all behind byte 128, or says that it could not: what is stored is as it was
  -- before if the image could not be read or changed, the serial is set if only the read-back failed,
  -- and the verification never fails.
  pub write_dongle_serial-SerialLeft :
      (serial : Str) (m : Machine S)
      → Post
          (λ _. Renamed serial (content m.chip))
          (SerialLeft serial (content m.chip))
          (write_dongle_serial d loaded serial m)
  unfolding write_dongle_serial
  write_dongle_serial-SerialLeft serial m =
      let c = content m.chip in
      let fs = m.files in
      let Q : Unit {0} → Machine S → Type 0 = λ _. Renamed serial c in
      let E = SerialLeft serial c in
      read_then d loaded content f Q E not_read m c fs (refl, refl) _
        (λ m1 at1.
          or_fail_then Q E _ rejected m1 (set_eeprom_serial c serial)
            (λ changed set.
              let whole = changed_whole c serial changed set in
              write_then d loaded content f Q E not_written m1 c fs at1 _ (take 128 changed)
                (λ m2 at2.
                  let at_set : At d loaded content f changed fs m2 = (at2.0 ∙ whole, at2.1) in
                  read_then d loaded content f Q E not_read_back m2 changed fs at_set _
                    (λ m3 at3.
                      check-Post Q E (str_eq (serial_of d loaded changed) serial) unverified m3
                        (λ _. Renamed-set c serial changed m3 set at3.0)
                        (λ differs. no_doubt c serial changed set differs))
                    (λ m3 at3. Renamed-set c serial changed m3 set at3.0))
                (λ m2 _. tt))
            (λ _. at1.0))
        (λ m1 at1. at1.0)

  -- What a failed self-test leaves: the restored image, unless it stopped before the restore or the
  -- driver failed to write.
  abbrev pub TestLeft : Str → Str → Failure → Machine S → Type 0
  TestLeft serial c not_read m = content m.chip ≡ c
  TestLeft serial c rejected m = content m.chip ≡ c
  TestLeft serial c not_written m = Unit
  TestLeft serial c not_read_back m = Renamed serial c m
  TestLeft serial c unverified m = ⊥
  TestLeft serial c not_restored m = Unit
  TestLeft serial c restore_not_read m = content m.chip ≡ c
  TestLeft serial c write_unverified m = ⊥
  TestLeft serial c restore_unverified m = ⊥

  abbrev pub test_serial : ℕ → Str
  test_serial index = codes "ADSBIQ" ++ decimal index

  restored_whole :
      (c serial changed : Str)
      → set_eeprom_serial c serial ≡ some changed
      → take 128 c ++ drop (length (take 128 c)) changed ≡ c
  restored_whole c serial changed h =
      let (long, enough) = length-set_eeprom_serial c serial h in
      let n : length (take 128 c) ≡ 128 = length-take 128 c enough in
      rw n (ap (λ r. take 128 c ++ r) (drop-set_eeprom_serial c serial h) ∙ take-drop 128 c)

  test_and_restore_lem :
      (index : ℕ) (m : Machine S) (c : Str) (fs : Files)
      → At d loaded content f c fs m
      → Post
          (λ _. At d loaded content f c fs)
          (λ e m'. TestLeft (test_serial index) c e m' × (m'.files ≡ fs))
          (test_and_restore d loaded index c m)
  unfolding test_and_restore
  test_and_restore_lem index m c fs h =
      let serial = test_serial index in
      let Q : Unit {0} → Machine S → Type 0 = λ _. At d loaded content f c fs in
      let E : Failure → Machine S → Type 0 = λ e m'. TestLeft serial c e m' × (m'.files ≡ fs) in
      or_fail_then Q E _ rejected m (set_eeprom_serial c serial)
        (λ changed set.
          write_then d loaded content f Q E not_written m c fs h _ (take 128 changed)
            (λ m2 at2.
              let at_set : At d loaded content f changed fs m2 =
                (at2.0 ∙ changed_whole c serial changed set, at2.1) in
              read_then d loaded content f Q E not_read_back m2 changed fs at_set _
                (λ m3 at3.
                  write_then d loaded content f Q E not_restored m3 changed fs at3 _ (take 128 c)
                    (λ m4 at4.
                      let at_end : At d loaded content f c fs m4 =
                        (at4.0 ∙ restored_whole c serial changed set, at4.1) in
                      read_then d loaded content f Q E restore_not_read m4 c fs at_end _
                        (λ m5 at5.
                          check_then Q E _ write_unverified m5
                            (str_eq (serial_of d loaded changed) serial)
                            (λ _.
                              check-Post Q E (str_eq (serial_of d loaded c) (serial_of d loaded c))
                                restore_unverified m5 (λ _. at5)
                                (λ differs.
                                  absurd (ground (arith, str_eq_refl (serial_of d loaded c)))))
                            (λ differs. absurd (no_doubt c serial changed set differs)))
                        (λ m5 at5. at5))
                    (λ m4 kept. (tt, kept)))
                (λ m3 at3. (Renamed-set c serial changed m3 set at3.0, at3.1)))
            (λ m2 kept. (tt, kept)))
        (λ _. h)

  -- The backup holds the image, if it could be written.
  abbrev pub BackedUp : Bool → Str → Str → Machine S → Type 0
  BackedUp works path c m = (works ≡ false) ⊎ (lookup path m.files.disk ≡ some c)

  abbrev pub TestFailed : Bool → Str → ℕ → Str → Failure → Machine S → Type 0
  TestFailed works temp index c e m =
      TestLeft (test_serial index) c e m
      × ((e ≡ not_read)
          ⊎ BackedUp works (backup_path d loaded temp index (serial_of d loaded c)) c m)

  weaken :
      (r : Result (Unit {0}) × Machine S) (fs : Files) (works : Bool) (temp : Str) (index : ℕ)
      (c : Str)
      → (works ≡ false)
        ⊎ (lookup (backup_path d loaded temp index (serial_of d loaded c)) fs.disk ≡ some c)
      → Post
          (λ _. At d loaded content f c fs)
          (λ e m'. TestLeft (test_serial index) c e m' × (m'.files ≡ fs))
          r
      → Post (λ _ m'. content m'.chip ≡ c) (TestFailed works temp index c) r
  weaken (ok a, m) fs works temp index c b h = h.0
  weaken (err e, m) fs works temp index c b h = (
    h.0,
    inr (elim b [
      | inl broken ↦ inl broken
      | inr found ↦ inr (
          ap (λ (x : Files). lookup (backup_path d loaded temp index (serial_of d loaded c)) x.disk)
            h.1
          ∙ found)
    ]),
  )

  backup_held :
      (works : Bool) (path c : Str) (fs : Files)
      → (works ≡ false) ⊎ (lookup path (write works path c fs).1.disk ≡ some c)
  unfolding write
  backup_held false path c fs = inl refl
  backup_held true path c fs =
      inr (lookup-insert path path c fs.disk ∙ (rw (str_eq_refl path) refl))

  -- On hardware that does what its driver says, a self-test that passes leaves the image as it was.
  -- One that fails leaves it too, unless the driver failed to write, or the read-back behind the test
  -- write failed: then the test serial stays. The verifications never fail, and from the first
  -- write on the backup holds the image if it could be written.
  pub eeprom_self_test-TestFailed :
      (works : Bool) (temp : Str) (index : ℕ) (m : Machine S)
      → Post
          (λ _ m'. content m'.chip ≡ content m.chip)
          (TestFailed works temp index (content m.chip))
          (eeprom_self_test d loaded works temp index m)
  unfolding eeprom_self_test back_up
  eeprom_self_test-TestFailed works temp index m =
      let c = content m.chip in
      let path = backup_path d loaded temp index (serial_of d loaded c) in
      read_then d loaded content f (λ _ m'. content m'.chip ≡ c) (TestFailed works temp index c)
        not_read m c m.files (refl, refl) _
        (λ m1 at1.
          let fs = (write works path c m1.files).1 in
          let m2 : Machine S = record m1 { files = fs } in
          weaken (test_and_restore d loaded index c m2) fs works temp index c
            (backup_held works path c m1.files) (test_and_restore_lem index m2 c fs (at1.0, refl)))
        (λ m1 at1. (at1.0, inl refl))
