-- ===== src/Eeprom/Printed.antt =====
-- What the printed copy of a dongle's EEPROM tells: the lines of `dumpEEPROM` of
-- agent/eeprom_windows.go, read back.
use flightpatch.Beast.Hex.{from_hex, from_hex-hex_digit}
use flightpatch.Common.{
  ℕ, zero, suc, ◌+◌, ◌*◌, ◌/◌, ◌%◌, ◌≤◌, Bool, true, List, [], ◌∷◌, ◌++◌, ltb, ◌==◌, if◌then◌else◌,
  option_else, length, take, drop, take-drop, drop_beyond, drop_twice, ◌≡◌, refl, sym, ap, ◌∙◌,
  arith, Bool-cases, inl, inr,
}
use flightpatch.Eeprom.Device.{Driver, Machine, not_read}
use flightpatch.Eeprom.Dump.{
  ascii_only, spaced_hex, dump_line, dump_from, dump_of, backup_file, dumped, dump_eeprom,
}
use flightpatch.Eeprom.Rules.{Post, IsFaithful, read_then}
use flightpatch.Eeprom.{parse_eeprom_strings}
use flightpatch.Files.{write}
use flightpatch.Text.Decimal.{all_digits, decimal3, all_digits-decimal3}
use flightpatch.Text.{Str, IsBytes, codes}

-- The bytes of a row of two digits and a space each, up to what is no digit.
unfoldable pub read_cells : Str → Str
read_cells (a ∷ (b ∷ (c ∷ s))) =
    let rest = read_cells s in
    option_else (from_hex a) [] (λ h. option_else (from_hex b) [] (λ l. (h * 16 + l) ∷ rest))
read_cells _ = []

-- What follows the colon and the space.
unfoldable pub behind_colon : Str → Str
behind_colon [] = []
behind_colon (c ∷ s) = let rest = behind_colon s in if c == b':' then drop 1 s else rest

unfoldable pub read_line : Str → Str
read_line s = read_cells (behind_colon (drop 2 s))

unfoldable pub read_dump : List Str → Str
read_dump [] = []
read_dump (s ∷ lines) = read_line s ++ read_dump lines

read_cells-space : (t : Str) → read_cells (b' ' ∷ t) ≡ []
unfolding read_cells from_hex
read_cells-space [] = refl
read_cells-space (x ∷ []) = refl
read_cells-space (x ∷ (y ∷ t)) = refl

-- Two spaces end the row.
read_cells-spaced_hex :
    (b t : Str) → IsBytes b → read_cells (spaced_hex b ++ (b' ' ∷ (b' ' ∷ t))) ≡ b
unfolding read_cells spaced_hex
read_cells-spaced_hex [] t h = read_cells-space (b' ' ∷ t)
read_cells-spaced_hex (c ∷ []) t h =
    rw (from_hex-hex_digit (c / 16) (omega (arith, h.0)), from_hex-hex_digit (c % 16) (omega arith))
      (rw (read_cells-space t) (ground arith))
read_cells-spaced_hex (c ∷ (c' ∷ b)) t h =
    rw (from_hex-hex_digit (c / 16) (omega (arith, h.0)), from_hex-hex_digit (c % 16) (omega arith))
      (rw (read_cells-spaced_hex (c' ∷ b) t h.1) (ground arith))

behind_colon-digits :
    (s t : Str) → all_digits s ≡ true → behind_colon (s ++ (b':' ∷ (b' ' ∷ t))) ≡ t
unfolding behind_colon all_digits
behind_colon-digits [] t h = refl
behind_colon-digits (x ∷ s) t h = ground (arith, behind_colon-digits s t)

read_line-dump_line : (i : ℕ) (b : Str) → IsBytes b → read_line (dump_line i b) ≡ b
unfolding read_line
read_line-dump_line i b h =
    ap read_cells (
      behind_colon-digits (decimal3 i)
        (spaced_hex b ++ (codes "  |" ++ (ascii_only b ++ codes "|"))) (all_digits-decimal3 i))
    ∙ read_cells-spaced_hex b (b'|' ∷ (ascii_only b ++ codes "|")) h

IsBytes-drop : (n : ℕ) (s : Str) → IsBytes s → IsBytes (drop n s)
IsBytes-drop zero s h = h
IsBytes-drop (suc n) [] h = tt
IsBytes-drop (suc n) (x ∷ s) h = IsBytes-drop n s h.1

IsBytes-take : (n : ℕ) (s : Str) → IsBytes s → IsBytes (take n s)
IsBytes-take zero s h = tt
IsBytes-take (suc n) [] h = tt
IsBytes-take (suc n) (x ∷ s) h = (h.0, IsBytes-take n s h.1)

read_dump-from :
    (fuel i : ℕ) (image : Str)
    → IsBytes image
    → length image ≤ i + 16 * fuel
    → read_dump (dump_from fuel i image) ≡ drop i image
unfolding read_dump dump_from
read_dump-from zero i image h k = sym (drop_beyond i image (omega arith))
read_dump-from (suc fuel) i image h k = elim (Bool-cases (ltb i (length image))) [
  | inr done ↦ rw done (sym (drop_beyond i image (ground arith)))
  | inl more ↦ rw more (
      ap (λ s. s ++ read_dump (dump_from fuel (i + 16) image))
        (read_line-dump_line i (take 16 (drop i image))
          (IsBytes-take 16 (drop i image) (IsBytes-drop i image h)))
      ∙ ap (λ s. take 16 (drop i image) ++ s)
          (read_dump-from fuel (i + 16) image h (omega arith) ∙ sym (drop_twice i 16 image))
      ∙ take-drop 16 (drop i image))
]

-- The lines of any image tell all of its bytes.
read_dump-dump_of : (image : Str) → IsBytes image → read_dump (dump_of image).lines ≡ image
read_dump-dump_of image h = read_dump-from (length image) 0 image h (omega arith)

module _ {S : Type 0} (d : Driver S) (loaded : Bool) (content : S → Str)
    (f : IsFaithful d content) where
  -- On hardware that does what its driver says, and an EEPROM of bytes, `dumpEEPROM` leaves the EEPROM
  -- as it is, whether it fails or not. If it fails, the files too are as they were; otherwise the
  -- lines that it prints, read back, are the content byte for byte, the strings are those of the
  -- content, and of the files at most the backup was written, with the content.
  pub dump_eeprom-Post :
      (works : Bool) (temp : Str) (m : Machine S)
      → IsBytes (content m.chip)
      → Post
          (λ dump m'.
            (content m'.chip ≡ content m.chip)
            × (read_dump dump.lines ≡ content m.chip)
            × (dump.strings ≡ parse_eeprom_strings (content m.chip))
            × (m'.files ≡ (write works (backup_file temp) (content m.chip) m.files).1))
          (λ e m'. (e ≡ not_read) × (content m'.chip ≡ content m.chip) × (m'.files ≡ m.files))
          (dump_eeprom d loaded works temp m)
  unfolding dump_eeprom
  dump_eeprom-Post works temp m h =
      let c = content m.chip in
      read_then d loaded content f
        (λ dump m'.
          (content m'.chip ≡ c)
          × (read_dump dump.lines ≡ c)
          × (dump.strings ≡ parse_eeprom_strings c)
          × (m'.files ≡ (write works (backup_file temp) c m.files).1))
        (λ e m'. (e ≡ not_read) × (content m'.chip ≡ c) × (m'.files ≡ m.files)) not_read m c m.files
        (refl, refl) (dumped works temp)
        (λ m' at. (
          at.0,
          read_dump-dump_of c h,
          refl,
          ap (λ fs. (write works (backup_file temp) c fs).1) at.1,
        ))
        (λ m' at. (refl, at.0, at.1))
