-- ===== src/Eeprom/Examples.antt =====
-- The image of agent/eeprom_windows_test.go, and instances of the theorems on images.
use flightpatch.Common.{ℕ, ◌+◌, ◌-◌, ◌/◌, ◌≤◌, ◌<◌, [], none, some, ◌≡◌, ◌≢◌, ◌⊎◌, refl, length}
use flightpatch.Eeprom.Memory.{test_image, zeros}
use flightpatch.Eeprom.Parse.{read_units-rounds}
use flightpatch.Eeprom.Serial.{parse-set_eeprom_serial, set_eeprom_serial-keeps}
use flightpatch.Eeprom.{
  at, read_units, parse_eeprom_strings, set_eeprom_serial, write_serial, descriptor_length, skip,
}
use flightpatch.Text.{Str, codes}

parse_test : parse_eeprom_strings test_image ≡ (codes "RTLSDRBlog", codes "Blog V4", codes "BLOGV4")
unfolding parse_eeprom_strings
parse_test = refl

abbrev pub rewritten : Str
rewritten = write_serial (codes "ADSBIQ1") 47 test_image

set_test : set_eeprom_serial test_image (codes "ADSBIQ1") ≡ some rewritten
unfolding set_eeprom_serial
set_test = refl

rejects_empty : set_eeprom_serial test_image [] ≡ none
unfolding set_eeprom_serial
rejects_empty = refl

rejects_blank : set_eeprom_serial (zeros 256) (codes "X") ≡ none
unfolding set_eeprom_serial
rejects_blank = refl

parse-set_eeprom_serial_example :
    parse_eeprom_strings rewritten
    ≡ ((parse_eeprom_strings test_image).0, (parse_eeprom_strings test_image).1, codes "ADSBIQ1")
parse-set_eeprom_serial_example = parse-set_eeprom_serial test_image (codes "ADSBIQ1") set_test

set_eeprom_serial-keeps_example :
    (start : ℕ) × (skip 2 test_image 0x09 ≡ some start)
    × (length rewritten ≡ length test_image)
    × ((j : ℕ) → j ≢ 6 → (j < start) ⊎ (128 ≤ j) → at rewritten j ≡ at test_image j)
    × ((j : ℕ) → start + descriptor_length (codes "ADSBIQ1") ≤ j → j < 128 → at rewritten j ≡ 0)
set_eeprom_serial-keeps_example = set_eeprom_serial-keeps test_image (codes "ADSBIQ1") set_test

read_units-rounds_example :
    (read_units (3 + at test_image 9) test_image (9 + 2) (9 + at test_image 9)
      ≡ read_units (at test_image 9) test_image (9 + 2) (9 + at test_image 9))
    × (length (read_units (at test_image 9) test_image (9 + 2) (9 + at test_image 9))
        ≡ (at test_image 9 - 2) / 2)
read_units-rounds_example = read_units-rounds 3 9 test_image
