-- ===== src/Eeprom.antt =====
-- The EEPROM image of a dongle: `parseEEPROMStrings` and `setEEPROMSerial` of
-- agent/eeprom_windows.go. An image is its bytes; every access of the source is within the image,
-- so `at` is read at 0 beyond it only where the source does not read.
pub mod Bytes
pub mod Parse
pub mod Frame
pub mod Serial
pub mod Device
pub mod Rules
pub mod SelfTest
pub mod Dump
pub mod Printed
pub mod Memory
mod Examples
mod DeviceExamples
use flightpatch.Common.{
  ℕ, zero, suc, ◌+◌, ◌-◌, ◌*◌, Bool, not, ◌&&◌, ◌||◌, List, [], ◌∷◌, Option, none, some, ltb, ◌==◌,
  if◌then◌else◌, length, get_or, set,
}
use flightpatch.Text.{Str, is_empty}

abbrev pub at : Str → ℕ → ℕ
at d i = get_or d i 0

abbrev pub has_magic : Str → Bool
has_magic d = at d 0 == 0x28 && at d 1 == 0x32

-- The inner loop of the parser: the low byte of each unit before `stop`, with fuel.
pub read_units : ℕ → Str → ℕ → ℕ → Str
read_units zero d j stop = []
read_units (suc fuel) d j stop =
    let rest = at d j ∷ read_units fuel d (j + 2) stop in if ltb (j + 1) stop then rest else []

-- The length byte is in order, the type byte is, and the descriptor ends within the image.
abbrev pub is_descriptor : Str → ℕ → Bool
is_descriptor d pos =
    not (ltb (at d pos) 2 || (not (at d (pos + 1) == 0x03) || ltb (length d) (pos + at d pos)))

-- The loop over the descriptors, `k` of them at most; it is left at the first that is not in order.
pub parse_from : ℕ → Str → ℕ → List Str
parse_from zero d pos = []
parse_from (suc k) d pos =
    let here = read_units (at d pos) d (pos + 2) (pos + at d pos) in
    let rest = here ∷ parse_from k d (pos + at d pos) in
    if not (ltb (pos + 1) (length d)) then [] else if is_descriptor d pos then rest else []

-- Missing strings are empty.
abbrev pub three : List Str → Str × Str × Str
three [] = ([], [], [])
three (m ∷ []) = (m, [], [])
three (m ∷ (p ∷ [])) = (m, p, [])
three (m ∷ (p ∷ (s ∷ rest))) = (m, p, s)

-- The manufacturer, the product and the serial.
unfoldable pub parse_eeprom_strings : Str → Str × Str × Str
unfolding parse_from read_units
parse_eeprom_strings d =
    if ltb (length d) 10 || not (has_magic d) then ([], [], []) else three (parse_from 3 d 0x09)

-- The walk past `k` descriptors.
pub skip : ℕ → Str → ℕ → Option ℕ
skip zero d pos = some pos
skip (suc k) d pos =
    let next = skip k d (pos + at d pos) in
    if not (ltb (pos + 1) (length d))
    then none
    else if ltb (at d pos) 2 || not (at d (pos + 1) == 0x03)
    then none
    else next

-- The loop that writes the units of the serial.
pub write_units : Str → ℕ → Str → Str
write_units [] pos out = out
write_units (c ∷ cs) pos out = write_units cs (pos + 2) (set (set out pos c) (pos + 1) 0x00)

-- The loop that zeroes `n` bytes.
pub zero_fill : ℕ → ℕ → Str → Str
zero_fill zero pos out = out
zero_fill (suc n) pos out = zero_fill n (pos + 1) (set out pos 0x00)

abbrev pub descriptor_length : Str → ℕ
descriptor_length serial = 2 + 2 * length serial

-- The image with the serial's descriptor at `start`.
pub write_serial : Str → ℕ → Str → Str
unfolding write_units zero_fill
write_serial serial start orig =
    let dlen = descriptor_length serial in
    let headed = set (set (set orig 6 0xa5) start dlen) (start + 1) 0x03 in
    zero_fill (128 - (start + dlen)) (start + dlen) (write_units serial (start + 2) headed)

abbrev pub fits : Str → ℕ → Bool
fits serial start = not (
    is_empty serial
    || (ltb 254 (descriptor_length serial) || ltb 128 (start + descriptor_length serial)))

abbrev pub set_at : Option ℕ → Str → Str → Option Str
set_at none orig serial = none
set_at (some start) orig serial =
    if fits serial start then some (write_serial serial start orig) else none

unfoldable pub set_eeprom_serial : Str → Str → Option Str
unfolding skip
set_eeprom_serial orig serial =
    if ltb (length orig) 128 || not (has_magic orig)
    then none
    else set_at (skip 2 orig 0x09) orig serial
