-- ===== src/Eeprom/Dump.antt =====
-- The printed copy of a dongle's EEPROM: `dumpEEPROM` and `asciiOnly` of agent/eeprom_windows.go.
use flightpatch.Beast.Hex.{hex_digit}
use flightpatch.Common.{
  ℕ, zero, suc, ◌+◌, ◌/◌, ◌%◌, ◌&&◌, Bool, List, [], ◌∷◌, ◌++◌, ltb, leb, if◌then◌else◌, length,
  take, drop,
}
use flightpatch.Eeprom.Device.{Driver, not_read, M, ok, read_eeprom, ◌>>=◌}
use flightpatch.Eeprom.{parse_eeprom_strings}
use flightpatch.Files.{write}
use flightpatch.Text.Decimal.{decimal3}
use flightpatch.Text.{Str, codes}

-- `asciiOnly`
unfoldable pub ascii_only : Str → Str
ascii_only [] = []
ascii_only (c ∷ b) = (if leb 0x20 c && ltb c 0x7f then c else b'.') ∷ ascii_only b

-- The verb `% x`: two digits for each byte, with spaces between them.
unfoldable pub spaced_hex : Str → Str
spaced_hex [] = []
spaced_hex (c ∷ []) = hex_digit (c / 16) ∷ (hex_digit (c % 16) ∷ [])
spaced_hex (c ∷ (c' ∷ b)) = hex_digit (c / 16) ∷ (hex_digit (c % 16) ∷ (b' ' ∷ spaced_hex (c' ∷ b)))

abbrev pub dump_line : ℕ → Str → Str
dump_line i part =
    codes "  "
    ++ (decimal3 i
        ++ (codes ": " ++ (spaced_hex part ++ (codes "  |" ++ (ascii_only part ++ codes "|")))))

-- The loop over the lines from byte `i` on, with fuel.
unfoldable pub dump_from : ℕ → ℕ → Str → List Str
dump_from zero i image = []
dump_from (suc fuel) i image =
    let rest = dump_from fuel (i + 16) image in
    if ltb i (length image) then dump_line i (take 16 (drop i image)) ∷ rest else []

pub record Dump : Type 0 where
  pub lines : List Str
  pub strings : Str × Str × Str

abbrev pub dump_of : Str → Dump
dump_of image = record {
  lines = dump_from (length image) 0 image;
  strings = parse_eeprom_strings image;
}

abbrev pub backup_file : Str → Str
backup_file temp = temp ++ codes "adsbiq-eeprom-backup.bin"

-- `dumpEEPROM`; the backup may fail unnoticed, and `temp` is its folder with the separator.
abbrev pub dumped : {S : Type 0} → Bool → Str → Str → M S Dump
dumped works temp image m =
    (ok (dump_of image), record m { files = (write works (backup_file temp) image m.files).1 })

unfoldable pub dump_eeprom : {S : Type 0} → Driver S → Bool → Bool → Str → M S Dump
dump_eeprom d loaded works temp = read_eeprom d loaded not_read >>= dumped works temp
