-- ===== src/Service/Modes.antt =====
-- The modes of agent/main.go that end before the registration: the flags that ask for them and what
-- they do. The hardware, the ping of the job test and the polls are arguments.
pub mod Bodies
use flightpatch.Common.{
  ℕ, zero, suc, ◌+◌, ◌-◌, ◌%◌, ◌^◌, Bool, true, false, not, ◌||◌, List, [], ◌∷◌, ◌++◌, map, Option,
  none, some, if◌then◌else◌, option_else, ltb, ◌==◌, length,
}
use flightpatch.Config.{DeviceConfig}
use flightpatch.Decoders.Probe.{Programs, Children, probe_dongle}
use flightpatch.Decoders.{Dongle}
use flightpatch.Dongles.Dedupe.{dedupe_serials}
use flightpatch.Dongles.{Cache, Reading, enumerate_dongles}
use flightpatch.Eeprom.Device.{
  Driver, Machine, Failure, Result, ok, err, write_dongle_serial, eeprom_self_test,
}
use flightpatch.Eeprom.Dump.{Dump, dump_eeprom}
use flightpatch.Service.{DeviceStatus, wait_ready}
use flightpatch.Text.Decimal.{all_digits, value_onto, decimal}
use flightpatch.Text.{Str, codes, is_empty, str_eq, trim_space}

-- The flags of the modes: whether the wait is positive, and the index of the self-test unless it is
-- negative, as it is by default.
pub record ModeFlags : Type 0 where
  pub wait_positive : Bool
  pub eeprom_dump : Bool
  pub eeprom_test : Option ℕ
  pub set_serial : Str
  pub job_test : Bool
  pub reset_usb : Bool
  pub dedupe : Bool
  pub watch : Bool
  pub probe_only : Bool

pub data Mode : Type 0 where
  waiting dumping testing_job resetting deduping watching probing feeding : Mode
  self_testing : ℕ → Mode
  renaming : Str → Mode

-- The order in which `main` asks for the flags.
unfoldable pub mode_of : ModeFlags → Mode
mode_of f =
    if f.wait_positive
    then waiting
    else if f.eeprom_dump
    then dumping
    else option_else f.eeprom_test
        (if not (is_empty f.set_serial)
          then renaming f.set_serial
          else if f.job_test
          then testing_job
          else if f.reset_usb
          then resetting
          else if f.dedupe
          then deduping
          else if f.watch
          then watching
          else if f.probe_only
          then probing
          else feeding)
        self_testing

-- `strings.SplitN(s, sep, 2)` in two parts, for a separator of one byte.
unfoldable pub cut_at : ℕ → Str → Option (Str × Str)
cut_at sep [] = none
cut_at sep (c ∷ s) =
    let rest = cut_at sep s in
    if c == sep then some ([], s) else option_else rest none (λ t. some (c ∷ t.0, t.1))

abbrev below : ℕ → Str → Option ℕ
below bound s =
    if is_empty s || not (all_digits s)
    then none
    else if ltb (value_onto 0 s) bound
    then some (value_onto 0 s)
    else none

abbrev negated : Option ℕ → Option ℕ
negated none = none
negated (some n) = some ((2 ^ 64 - n) % 2 ^ 64)

-- `strconv.Atoi`: the 64 bits of the number, which is all that becomes of it.
unfoldable pub read_index : Str → Option ℕ
read_index [] = none
read_index (c ∷ s) =
    if c == b'-'
    then negated (below (2 ^ 63 + 1) s)
    else if c == b'+'
    then below (2 ^ 63) s
    else below (2 ^ 63) (c ∷ s)

-- How `main` ends: with `log.Fatalf`, by a return, with an exit code, or not by itself.
pub data Exit : Type 0 where
  fatal returned endless : Exit
  code : ℕ → Exit

-- What a mode prints of the dongles.
pub data Printed : Type 0 where
  a_dongle : Dongle → Printed
  a_role : Str → Printed
  a_dump : Dump → Printed
  a_list : ℕ → Str → Printed

-- What the modes use: the driver for each index, whether librtlsdr was found, what the devices answer
-- to an enumeration, `resetRtlDevices`, the programs, and strings in quotes (`%q`).
pub record Tools (S : Type 0) : Type 0 where
  pub driver : ℕ → Driver S
  pub loaded : Bool
  pub readings : S → List Reading
  pub ports : S → List Str
  pub reset : S → S
  pub is_windows : Bool
  pub programs : Programs
  pub children : Children
  pub quoted : Str → Str
  pub temp : Str
  pub writes_backup : Bool
  pub starts_ping : Bool

-- What the rounds of the wait meet, the settings that are loaded between them, and what the
-- polls of the watch enumerate.
pub record Polls : Type 0 where
  pub statuses : List (Option DeviceStatus)
  pub reloads : List DeviceConfig
  pub enumerations : List (List Dongle)

-- How a mode ends, with the failure that its last line names, what it leaves, and what it prints.
pub record ModeEnd (S : Type 0) : Type 0 where
  pub exit : Exit
  pub failure : Option Failure
  pub machine : Machine S
  pub printed : List Printed
