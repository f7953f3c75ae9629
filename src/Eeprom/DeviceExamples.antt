-- ===== src/Eeprom/DeviceExamples.antt =====
-- Instances of the theorems on the EEPROM of a dongle.
use flightpatch.Common.{Bool, true, false, [], ◌++◌, ◌≡◌, refl, arith}
use flightpatch.Beast.Hex.{hex_digit}
use flightpatch.Eeprom.Device.{
  not_read, Driver, Machine, Result, ok, err, write_dongle_serial, eeprom_self_test,
}
use flightpatch.Eeprom.Dump.{ascii_only, spaced_hex, dump_line, backup_file, dump_eeprom}
use flightpatch.Eeprom.Memory.{memory, content, memory-IsFaithful, test_image}
use flightpatch.Eeprom.Printed.{read_dump, dump_eeprom-Post}
use flightpatch.Eeprom.{parse_eeprom_strings}
use flightpatch.Files.{write}
use flightpatch.Text.Decimal.{decimal3}
use flightpatch.Eeprom.Rules.{Post}
use flightpatch.Eeprom.SelfTest.{
  Renamed, SerialLeft, TestFailed, write_dongle_serial-SerialLeft, eeprom_self_test-TestFailed,
}
use flightpatch.Text.{Str, IsBytes, codes}

abbrev machine : Machine Str
machine = record { chip = test_image; files = record { disk = []; past = [] } }

write_dongle_serial-SerialLeft_example :
    Post
      (λ _. Renamed memory true content memory-IsFaithful (codes "ADSBIQ1") test_image)
      (SerialLeft memory true content memory-IsFaithful (codes "ADSBIQ1") test_image)
      (write_dongle_serial memory true (codes "ADSBIQ1") machine)
write_dongle_serial-SerialLeft_example =
    write_dongle_serial-SerialLeft memory true content memory-IsFaithful (codes "ADSBIQ1") machine

eeprom_self_test-TestFailed_example :
    Post
      (λ _ m. content m.chip ≡ test_image)
      (TestFailed memory true content memory-IsFaithful true (codes "/tmp/") 0 test_image)
      (eeprom_self_test memory true true (codes "/tmp/") 0 machine)
eeprom_self_test-TestFailed_example =
    eeprom_self_test-TestFailed memory true content memory-IsFaithful true (codes "/tmp/") 0 machine

abbrev has_passed : Result (Unit {0}) → Bool
has_passed (ok a) = true
has_passed (err e) = false

self_test_passes : has_passed (eeprom_self_test memory true true (codes "/tmp/") 0 machine).0 ≡ true
unfolding eeprom_self_test flightpatch.Eeprom.Device.read_eeprom flightpatch.Eeprom.Device.read_chip
    flightpatch.Eeprom.Device.back_up flightpatch.Eeprom.Device.test_and_restore
    flightpatch.Eeprom.set_eeprom_serial flightpatch.Text.Decimal.decimal
    flightpatch.Eeprom.Device.write_eeprom flightpatch.Eeprom.Device.write_chip
    flightpatch.Text.str_eq flightpatch.Eeprom.parse_eeprom_strings flightpatch.Eeprom.write_serial
self_test_passes = refl

-- Of an EEPROM of two lines.
abbrev small : Str
small = codes "(2" ++ codes "ADSBIQ RECEIVER!"

small-IsBytes : IsBytes small
small-IsBytes = ground arith

dump_eeprom-Post_example :
    let m : Machine Str = record { chip = small; files = record { disk = []; past = [] } } in
    Post
      (λ dump m'.
        (content m'.chip ≡ small)
        × (read_dump dump.lines ≡ small)
        × (dump.strings ≡ parse_eeprom_strings small)
        × (m'.files ≡ (write true (backup_file (codes "/tmp/")) small m.files).1))
      (λ e m'. (e ≡ not_read) × (content m'.chip ≡ small) × (m'.files ≡ m.files))
      (dump_eeprom memory true true (codes "/tmp/") m)
dump_eeprom-Post_example =
    dump_eeprom-Post memory true content memory-IsFaithful true (codes "/tmp/")
      (record { chip = small; files = record { disk = []; past = [] } }) small-IsBytes

second_line : dump_line 16 (codes "R!") ≡ codes "  016: 52 21  |R!|"
unfolding spaced_hex ascii_only decimal3 hex_digit
second_line = refl
