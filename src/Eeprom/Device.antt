-- ===== src/Eeprom/Device.antt =====
-- Reading and writing a dongle's EEPROM: `readEEPROM`, `writeEEPROM`, `writeDongleSerial` and
-- `eepromSelfTest` of agent/eeprom_windows.go. The driver librtlsdr is an interface.
use flightpatch.Common.{
  ℕ, Bool, true, false, not, ◌∷◌, ◌++◌, Option, none, some, take, if◌then◌else◌,
}
use flightpatch.Eeprom.{parse_eeprom_strings, set_eeprom_serial}
use flightpatch.Files.{Files, write}
use flightpatch.Text.Decimal.{decimal}
use flightpatch.Text.{Str, codes, str_eq}

-- The calls of librtlsdr for one dongle, over the state of its hardware: `rtlsdr_open` gives a device
-- or not, `rtlsdr_read_eeprom` fills the buffer of 256 bytes, `rtlsdr_write_eeprom` writes from 0 on.
pub record Driver (S : Type 0) : Type 0 where
  pub open_device : S → Bool × S
  pub read_bytes : S → Option Str × S
  pub write_bytes : Str → S → Bool × S
  pub close_device : S → S

-- The hardware, and the files of the machine.
pub record Machine (S : Type 0) : Type 0 where
  pub chip : S
  pub files : Files

pub data Failure : Type 0 where
  not_read rejected not_written not_read_back unverified : Failure
  not_restored restore_not_read write_unverified restore_unverified : Failure

pub data Result (A : Type 0) : Type 0 where
  ok : A → Result A
  err : Failure → Result A

abbrev pub M : Type 0 → Type 0 → Type 0
M S A = Machine S → Result A × Machine S

abbrev pub bind : {S A B : Type 0} → Result A → (A → M S B) → M S B
bind (ok a) f m = f a m
bind (err e) f m = (err e, m)

infixl 5 ◌>>=◌ ◌>>◌
abbrev pub ◌>>=◌ : {S A B : Type 0} → M S A → (A → M S B) → M S B
◌>>=◌ act f m = bind (act m).0 f (act m).1

abbrev pub ◌>>◌ : {S A B : Type 0} → M S A → M S B → M S B
act >> next = act >>= λ _. next

abbrev pub or_fail : {S A : Type 0} → Option A → Failure → M S A
or_fail none e m = (err e, m)
or_fail (some a) e m = (ok a, m)

abbrev pub check : {S : Type 0} → Bool → Failure → M S (Unit {0})
check true e m = (ok tt, m)
check false e m = (err e, m)

module _ {S : Type 0} (d : Driver S) (loaded : Bool) where
  -- `loaded`: the library and its procedures were found.
  unfoldable pub read_chip : S → Option Str × S
  read_chip s =
      let (opened, s1) = d.open_device s in
      let (bytes, s2) = d.read_bytes s1 in
      if not loaded
      then (none, s)
      else if not opened
      then (none, s1)
      else (bytes, d.close_device s2)

  unfoldable pub write_chip : Str → S → Bool × S
  write_chip bytes s =
      let (opened, s1) = d.open_device s in
      let (written, s2) = d.write_bytes bytes s1 in
      if not loaded
      then (false, s)
      else if not opened
      then (false, s1)
      else (written, d.close_device s2)

  -- `readEEPROM` and `writeEEPROM`, with the error that their callers make of a failure.
  unfoldable pub read_eeprom : Failure → M S Str
  read_eeprom e m = let r = read_chip m.chip in or_fail r.0 e (record m { chip = r.1 })

  unfoldable pub write_eeprom : Str → Failure → M S (Unit {0})
  write_eeprom bytes e m = let r = write_chip bytes m.chip in check r.0 e (record m { chip = r.1 })

  abbrev pub serial_of : Str → Str
  serial_of image = (parse_eeprom_strings image).2

  unfoldable pub write_dongle_serial : Str → M S (Unit {0})
  write_dongle_serial serial = do
    orig ← read_eeprom not_read
    changed ← or_fail (set_eeprom_serial orig serial) rejected
    write_eeprom (take 128 changed) not_written
    after ← read_eeprom not_read_back
    check (str_eq (serial_of after) serial) unverified

  -- The backup, which may fail unnoticed.
  abbrev pub backup_path : Str → ℕ → Str → Str
  backup_path temp index serial =
      temp ++ (codes "adsbiq-eeprom-" ++ (decimal index ++ (b'-' ∷ (serial ++ codes ".bak"))))

  unfoldable pub back_up : Bool → Str → Str → M S (Unit {0})
  back_up works path bytes m = (ok tt, record m { files = (write works path bytes m.files).1 })

  -- The part behind the backup.
  unfoldable pub test_and_restore : ℕ → Str → M S (Unit {0})
  test_and_restore index orig = do
    let test_serial = codes "ADSBIQ" ++ decimal index
    changed ← or_fail (set_eeprom_serial orig test_serial) rejected
    write_eeprom (take 128 changed) not_written
    after ← read_eeprom not_read_back
    write_eeprom (take 128 orig) not_restored
    restored ← read_eeprom restore_not_read
    check (str_eq (serial_of after) test_serial) write_unverified
    check (str_eq (serial_of restored) (serial_of orig)) restore_unverified

  -- `eepromSelfTest`; `temp` is the folder of the backup with its separator.
  unfoldable pub eeprom_self_test : Bool → Str → ℕ → M S (Unit {0})
  eeprom_self_test works temp index = do
    orig ← read_eeprom not_read
    back_up works (backup_path temp index (serial_of orig)) orig
    test_and_restore index orig
