-- ===== src/Eeprom/Memory.antt =====
-- A driver for tests, a dongle whose EEPROM is a row of bytes, and the image of
-- agent/eeprom_windows_test.go.
use flightpatch.Common.{ℕ, zero, suc, true, [], ◌∷◌, ◌++◌, some, drop, length, refl}
use flightpatch.Eeprom.Device.{Driver}
use flightpatch.Eeprom.Rules.{IsFaithful}
use flightpatch.Eeprom.{descriptor_length}
use flightpatch.Text.{Str, codes}

abbrev pub memory : Driver Str
memory = record {
  open_device = λ s. (true, s);
  read_bytes = λ s. (some s, s);
  write_bytes = λ bytes s. (true, bytes ++ drop (length bytes) s);
  close_device = λ s. s;
}

abbrev pub content : Str → Str
content s = s

pub memory-IsFaithful : IsFaithful memory content
memory-IsFaithful = record {
  opens = λ s. refl;
  closes = λ s. refl;
  reads = λ s. refl;
  gives = λ s bytes h. cc;
  stores = λ s bytes h. refl;
}

abbrev pub zeros : ℕ → Str
zeros zero = []
zeros (suc n) = 0 ∷ zeros n

abbrev units : Str → Str
units [] = []
units (c ∷ cs) = c ∷ (0 ∷ units cs)

abbrev descriptor : Str → Str
descriptor s = descriptor_length s ∷ (0x03 ∷ units s)

abbrev head : Str
head = 0x28 ∷ 0x32 ∷ 0xda ∷ 0x0b ∷ 0x38 ∷ 0x28 ∷ 0xa5 ∷ 0x16 ∷ 0x02 ∷ []

-- 9 bytes, descriptors of 22, 16 and 14 bytes, and zeros up to 256.
abbrev pub test_image : Str
test_image =
    head
    ++ (descriptor (codes "RTLSDRBlog")
        ++ (descriptor (codes "Blog V4") ++ (descriptor (codes "BLOGV4") ++ zeros 195)))
