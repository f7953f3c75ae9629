-- ===== src/Eeprom/Serial.antt =====
-- What an image says after its serial was set.
use flightpatch.Common.{
  ℕ, ◌+◌, ◌*◌, ◌≤◌, ◌<◌, List, [], ◌∷◌, ◌++◌, Option, none, some, true, ◌≡◌, ◌≢◌, ◌⊎◌, inl, refl,
  ap, sym, ◌∙◌, arith, length, drop,
}
use flightpatch.Eeprom.Frame.{
  headed, length-headed, length-write_serial, at-write_serial_out, at-write_serial_units,
  at-write_serial-length, at-write_serial_type, at-write_serial_zero, drop-write_serial,
}
use flightpatch.Eeprom.Parse.{
  Agree, skip-le, parse_from-skip, parse_from_descriptor, length-parse_from, read_units-write_units,
}
use flightpatch.Eeprom.{
  at, has_magic, three, parse_from, parse_eeprom_strings, skip, set_at, set_eeprom_serial,
  descriptor_length, write_serial, read_units,
}
use flightpatch.Text.{Str}

-- What `setEEPROMSerial` has checked when it returns an image, and what it returns.
pub record SerialSet (orig serial out : Str) (start : ℕ) : Type 0 where
  pub whole : 128 ≤ length orig
  pub magic : has_magic orig ≡ true
  pub walked : skip 2 orig 0x09 ≡ some start
  pub fit : start + descriptor_length serial ≤ 128
  pub written : out ≡ write_serial serial start orig

set_at_inv :
    (o : Option ℕ) (orig serial out : Str)
    → set_at o orig serial ≡ some out
    → (start : ℕ) × (o ≡ some start)
      × (start + descriptor_length serial ≤ 128)
      × (out ≡ write_serial serial start orig)
set_at_inv none orig serial out h = cc
set_at_inv (some start) orig serial out h = (start, refl, ground arith, ground arith)

set_eeprom_serial_inv :
    (orig serial out : Str)
    → set_eeprom_serial orig serial ≡ some out
    → (128 ≤ length orig)
      × (has_magic orig ≡ true)
      × (set_at (skip 2 orig 0x09) orig serial ≡ some out)
unfolding set_eeprom_serial
set_eeprom_serial_inv orig serial out h = (ground arith, ground arith, ground arith)

pub set_eeprom_serial-SerialSet :
    (orig serial out : Str)
    → set_eeprom_serial orig serial ≡ some out
    → (start : ℕ) × SerialSet orig serial out start
set_eeprom_serial-SerialSet orig serial out h =
    let (whole, magic, set) = set_eeprom_serial_inv orig serial out h in
    let (start, walked, fit, written) = set_at_inv (skip 2 orig 0x09) orig serial out set in
    (start, record { whole = whole; magic = magic; walked = walked; fit = fit; written = written })

module _ (orig serial : Str) (start : ℕ) where
  abbrev image : Str
  image = write_serial serial start orig

  module _ (whole : 128 ≤ length orig) (walked : skip 2 orig 0x09 ≡ some start)
      (fit : start + descriptor_length serial ≤ 128) where
    start_bound : 13 ≤ start
    start_bound = skip-le 2 orig 0x09 start walked

    image_before : Agree image orig 0x09 start
    image_before j l r = at-write_serial_out serial start orig j fit (omega arith) (inl r)

    image_units :
        read_units (descriptor_length serial) image (start + 2) (start + descriptor_length serial)
        ≡ serial
    image_units =
        let stop : start + descriptor_length serial ≡ start + 2 + 2 * length serial = omega arith in
        rw stop (
          read_units-write_units serial (descriptor_length serial) (start + 2)
            (headed serial start orig) image (omega arith)
            (omega (arith, length-headed serial start orig))
            (λ j l r. at-write_serial_units serial start orig j (omega arith)))

    parse_from-image : parse_from 1 image start ≡ serial ∷ []
    parse_from-image =
        let len = length-write_serial serial start orig in
        let dlen =
          at-write_serial-length serial start orig (omega (arith, start_bound)) (omega arith) in
        let typed = at-write_serial_type serial start orig (omega arith) in
        parse_from_descriptor 0 image start (omega arith) (omega arith) typed (omega arith)
        ∙ rw (dlen, image_units) (unfold parse_from in refl)

    parse_image : parse_from 3 image 0x09 ≡ parse_from 2 orig 0x09 ++ serial ∷ []
    parse_image =
        parse_from-skip 2 1 orig image 0x09 start (length-write_serial serial start orig) walked
          (omega arith) image_before
        ∙ ap (λ s. parse_from 2 orig 0x09 ++ s) parse_from-image

    image_magic : has_magic image ≡ has_magic orig
    image_magic = rw (
      at-write_serial_out serial start orig 0 fit (omega arith) (inl (omega (arith, start_bound))),
      at-write_serial_out serial start orig 1 fit (omega arith) (inl (omega (arith, start_bound))),
    )

    parse_orig : parse_from 3 orig 0x09 ≡ parse_from 2 orig 0x09 ++ parse_from 1 orig start
    parse_orig = parse_from-skip 2 1 orig orig 0x09 start refl walked (omega arith) (λ j l r. refl)

three-append :
    (xs ys : List Str) (s : Str)
    → length xs ≡ 2
    → three (xs ++ s ∷ []) ≡ ((three (xs ++ ys)).0, (three (xs ++ ys)).1, s)
three-append [] ys s h = absurd (omega arith)
three-append (x ∷ []) ys s h = absurd (omega arith)
three-append (x ∷ (y ∷ [])) [] s h = refl
three-append (x ∷ (y ∷ [])) (z ∷ zs) s h = refl
three-append (x ∷ (y ∷ (z ∷ zs))) ys s h = absurd (omega arith)

parse_whole :
    (d : Str)
    → 128 ≤ length d
    → has_magic d ≡ true
    → parse_eeprom_strings d ≡ three (parse_from 3 d 0x09)
unfolding parse_eeprom_strings
parse_whole d whole magic = ground arith

-- An image whose serial was set parses to the serial that was asked for, and to the manufacturer and
-- the product of the original.
pub parse-set_eeprom_serial :
    (orig serial : Str) {out : Str}
    → set_eeprom_serial orig serial ≡ some out
    → parse_eeprom_strings out
      ≡ ((parse_eeprom_strings orig).0, (parse_eeprom_strings orig).1, serial)
parse-set_eeprom_serial orig serial {out} h =
    let (start, set) = set_eeprom_serial-SerialSet orig serial out h in
    let rest = parse_from 1 orig start in
    let len = length-parse_from 2 orig 0x09 start set.walked (omega (arith, set.fit, set.whole)) in
    let new =
      parse_whole (write_serial serial start orig)
        (omega (arith, set.whole, length-write_serial serial start orig))
        (image_magic orig serial start set.whole set.walked set.fit ∙ set.magic)
      ∙ ap three (parse_image orig serial start set.whole set.walked set.fit)
      ∙ three-append (parse_from 2 orig 0x09) rest serial len in
    let old =
      parse_whole orig set.whole set.magic
      ∙ ap three (parse_orig orig serial start set.whole set.walked set.fit) in
    rw set.written (new ∙ ap (λ t. (t.0, t.1, serial)) (sym old))

-- Setting a serial keeps the length of the image, and every byte of it but the flag at 6 and those
-- from the serial's descriptor up to 128; there it leaves nothing of the old descriptors behind.
pub set_eeprom_serial-keeps :
    (orig serial : Str) {out : Str}
    → set_eeprom_serial orig serial ≡ some out
    → (start : ℕ) × (skip 2 orig 0x09 ≡ some start)
      × (length out ≡ length orig)
      × ((j : ℕ) → j ≢ 6 → (j < start) ⊎ (128 ≤ j) → at out j ≡ at orig j)
      × ((j : ℕ) → start + descriptor_length serial ≤ j → j < 128 → at out j ≡ 0)
set_eeprom_serial-keeps orig serial {out} h =
    let (start, set) = set_eeprom_serial-SerialSet orig serial out h in
    (
      start,
      set.walked,
      rw set.written (length-write_serial serial start orig),
      λ j six outside. rw set.written (at-write_serial_out serial start orig j set.fit six outside),
      λ j behind before.
          rw set.written (at-write_serial_zero serial start orig j set.whole behind before),
    )

-- Only the first 128 bytes are ever written to the chip, and beyond them nothing differs.
pub drop-set_eeprom_serial :
    (orig serial : Str) {out : Str}
    → set_eeprom_serial orig serial ≡ some out
    → drop 128 out ≡ drop 128 orig
drop-set_eeprom_serial orig serial {out} h =
    let (start, set) = set_eeprom_serial-SerialSet orig serial out h in
    rw set.written (drop-write_serial serial start orig set.fit)

pub length-set_eeprom_serial :
    (orig serial : Str) {out : Str}
    → set_eeprom_serial orig serial ≡ some out
    → (length out ≡ length orig) × (128 ≤ length orig)
length-set_eeprom_serial orig serial {out} h =
    let (start, set) = set_eeprom_serial-SerialSet orig serial out h in
    (rw set.written (length-write_serial serial start orig), set.whole)
