-- ===== src/Eeprom/Frame.antt =====
-- What `setEEPROMSerial` leaves of an image as it was, and what it writes, byte by byte.
use flightpatch.Common.{
  ℕ, ◌+◌, ◌-◌, ◌≤◌, ◌<◌, ◌≡◌, ◌≢◌, ◌⊎◌, inl, sym, ◌∙◌, arith, length, set, drop, length-set,
}
use flightpatch.Eeprom.Bytes.{
  at-set_self, at-set_ne, drop-set, length-write_units, length-zero_fill, at-write_units,
  at-zero_fill_out, at-zero_fill, drop-write_units, drop-zero_fill,
}
use flightpatch.Eeprom.{at, write_units, write_serial, descriptor_length}
use flightpatch.Text.{Str}

module _ (serial : Str) (start : ℕ) (orig : Str) where
  -- The image with the head of the descriptor.
  abbrev pub headed : Str
  headed = set (set (set orig 6 0xa5) start (descriptor_length serial)) (start + 1) 0x03

  pub length-headed : length headed ≡ length orig
  length-headed =
      length-set (set (set orig 6 0xa5) start (descriptor_length serial)) (start + 1) 0x03
      ∙ length-set (set orig 6 0xa5) start (descriptor_length serial)
      ∙ length-set orig 6 0xa5

  abbrev pub with_units : Str
  with_units = write_units serial (start + 2) headed

  length-with_units : length with_units ≡ length orig
  length-with_units = length-write_units serial (start + 2) headed ∙ length-headed

  pub length-write_serial : length (write_serial serial start orig) ≡ length orig
  unfolding write_serial
  length-write_serial =
      length-zero_fill (128 - (start + descriptor_length serial)) (start + descriptor_length serial)
        with_units
      ∙ length-with_units

  -- Nothing before the descriptor changes but the byte 6, and nothing from 128 on.
  pub at-write_serial_out :
      (j : ℕ)
      → start + descriptor_length serial ≤ 128
      → j ≢ 6
      → (j < start) ⊎ (128 ≤ j)
      → at (write_serial serial start orig) j ≡ at orig j
  unfolding write_serial
  at-write_serial_out j fit six out =
      at-zero_fill_out (128 - (start + descriptor_length serial)) (start + descriptor_length serial)
        with_units j (omega arith)
      ∙ at-write_units serial (start + 2) headed j (omega arith)
      ∙ at-set_ne (set (set orig 6 0xa5) start (descriptor_length serial)) (start + 1) j 0x03
          (omega arith)
      ∙ at-set_ne (set orig 6 0xa5) start j (descriptor_length serial) (omega arith)
      ∙ at-set_ne orig 6 j 0xa5 (λ e. six (sym e))

  -- Up to the end of the units the zeroes change nothing.
  pub at-write_serial_units :
      (j : ℕ)
      → j < start + descriptor_length serial
      → at (write_serial serial start orig) j ≡ at with_units j
  unfolding write_serial
  at-write_serial_units j h =
      at-zero_fill_out (128 - (start + descriptor_length serial)) (start + descriptor_length serial)
        with_units j (inl h)

  pub at-write_serial-length :
      6 < start
      → start < length orig
      → at (write_serial serial start orig) start ≡ descriptor_length serial
  at-write_serial-length six inside =
      at-write_serial_units start (omega arith)
      ∙ at-write_units serial (start + 2) headed start (inl (omega arith))
      ∙ at-set_ne (set (set orig 6 0xa5) start (descriptor_length serial)) (start + 1) start 0x03
          (omega arith)
      ∙ at-set_self (set orig 6 0xa5) start (descriptor_length serial)
          (omega (arith, length-set orig 6 0xa5))

  pub at-write_serial_type :
      start + 1 < length orig → at (write_serial serial start orig) (start + 1) ≡ 0x03
  at-write_serial_type inside =
      at-write_serial_units (start + 1) (omega arith)
      ∙ at-write_units serial (start + 2) headed (start + 1) (inl (omega arith))
      ∙ at-set_self (set (set orig 6 0xa5) start (descriptor_length serial)) (start + 1) 0x03 (
          omega (
            arith,
            length-set (set orig 6 0xa5) start (descriptor_length serial),
            length-set orig 6 0xa5,
          ))

  -- No stale byte is left behind the descriptor.
  pub at-write_serial_zero :
      (j : ℕ)
      → 128 ≤ length orig
      → start + descriptor_length serial ≤ j
      → j < 128
      → at (write_serial serial start orig) j ≡ 0
  unfolding write_serial
  at-write_serial_zero j whole behind before =
      at-zero_fill (128 - (start + descriptor_length serial)) (start + descriptor_length serial)
        with_units j (omega (arith, length-with_units)) behind (omega arith)

  pub drop-write_serial :
      start + descriptor_length serial ≤ 128
      → drop 128 (write_serial serial start orig) ≡ drop 128 orig
  unfolding write_serial
  drop-write_serial fit =
      drop-zero_fill (128 - (start + descriptor_length serial)) (start + descriptor_length serial)
        128 with_units (omega arith)
      ∙ drop-write_units serial (start + 2) 128 headed (omega arith)
      ∙ drop-set (set (set orig 6 0xa5) start (descriptor_length serial)) (start + 1) 128 0x03
          (omega arith)
      ∙ drop-set (set orig 6 0xa5) start 128 (descriptor_length serial) (omega arith)
      ∙ drop-set orig 6 128 0xa5 (omega arith)
