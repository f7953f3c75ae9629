-- ===== src/Service/Modes/Bodies.antt =====
-- What `main` of agent/main.go does in each mode that ends before the registration.
use flightpatch.Common.{
  ℕ, zero, suc, Bool, true, false, not, List, [], ◌∷◌, ◌++◌, map, Option, none, some, if◌then◌else◌,
  option_else, length,
}
use flightpatch.Config.{DeviceConfig}
use flightpatch.Decoders.Probe.{probe_dongle}
use flightpatch.Decoders.{Dongle}
use flightpatch.Dongles.Dedupe.{dedupe_serials}
use flightpatch.Dongles.{Cache, enumerate_dongles}
use flightpatch.Eeprom.Device.{Machine, Result, ok, err, write_dongle_serial, eeprom_self_test}
use flightpatch.Eeprom.Dump.{dump_eeprom}
use flightpatch.Service.{DeviceStatus, wait_ready}
use flightpatch.Text.Decimal.{decimal}
use flightpatch.Text.{Str, codes, str_eq, trim_space}
use flightpatch.Service.Modes.{
  Mode, waiting, dumping, testing_job, resetting, deduping, watching, probing, feeding,
  self_testing, renaming, cut_at, read_index, Exit, fatal, returned, endless, code, Printed,
  a_dongle, a_role, a_dump, a_list, Tools, Polls, ModeEnd,
}

abbrev pairs :
    DeviceConfig
    → List DeviceConfig
    → List (Option DeviceStatus)
    → List (DeviceConfig × Option DeviceStatus)
pairs c reloads [] = []
pairs c [] (s ∷ statuses) = (c, s) ∷ []
pairs c (c' ∷ reloads) (s ∷ statuses) = (c, s) ∷ pairs c' reloads statuses

abbrev exit_of : ℕ → Exit
exit_of zero = returned
exit_of (suc n) = code (suc n)

-- The line of the watch.
unfoldable pub dongle_list : (Str → Str) → List Dongle → Str
dongle_list quoted [] = []
dongle_list quoted (d ∷ ds) =
    codes "[#"
    ++ (decimal d.index
        ++ (codes " serial="
            ++ (quoted d.serial
                ++ (codes " port="
                    ++ (quoted d.port
                        ++ (b' ' ∷ (quoted d.product ++ (codes "] " ++ dongle_list quoted ds))))))))

-- Its polls, after the line `prev`: a changed line is printed with the number of the dongles.
unfoldable pub run_watch : (Str → Str) → List (List Dongle) → Str → List Printed
run_watch quoted [] prev = []
run_watch quoted (ds ∷ polls) prev =
    let cur = dongle_list quoted ds in
    let rest = run_watch quoted polls cur in
    if not (str_eq cur prev) then a_list (length ds) cur ∷ rest else rest

abbrev is_ok : {A : Type 0} → Result A → Bool
is_ok (ok a) = true
is_ok (err e) = false

abbrev pub ended : {S A : Type 0} → (A → List Printed) → Result A × Machine S → ModeEnd S
ended show (ok a, m) = record { exit = returned; failure = none; machine = m; printed = show a }
ended show (err e, m) = record { exit = fatal; failure = some e; machine = m; printed = [] }

module _ {S : Type 0} (t : Tools S) where
  -- `enumerateDongles`
  abbrev enumerate : Machine S × Cache → List Dongle × Cache
  enumerate (m, cache) = enumerate_dongles t.loaded (t.readings m.chip) (t.ports m.chip) cache

  -- `--set-serial`
  unfoldable pub run_set_serial : Str → Machine S → ModeEnd S
  run_set_serial text m =
      let refused : ModeEnd S = record {
        exit = fatal;
        failure = none;
        machine = m;
        printed = [];
      } in
      option_else (cut_at b'=' text) refused (λ parts.
        option_else (read_index (trim_space parts.0)) refused (λ index.
          ended (λ _. []) (write_dongle_serial (t.driver index) t.loaded (trim_space parts.1) m)))

  abbrev reset_machine : Machine S × Cache → Machine S × Cache
  reset_machine (m, cache) = (record m { chip = t.reset m.chip }, cache)

  abbrev rewrite : ℕ → Str → Machine S × Cache → Bool × (Machine S × Cache)
  rewrite index serial (m, cache) =
      let (result, m') = write_dongle_serial (t.driver index) t.loaded serial m in
      (is_ok result, (m', cache))

  -- `--reset-usb`
  unfoldable pub run_reset_usb : Machine S → ModeEnd S
  run_reset_usb m =
      let (m', cache) = reset_machine (m, []) in
      record {
        exit = returned;
        failure = none;
        machine = m';
        printed = map a_dongle (enumerate (m', cache)).0;
      }

  -- `--dedupe`, which enumerates before it and again for it.
  unfoldable pub run_dedupe : Machine S → ModeEnd S
  run_dedupe m =
      let (before, cache) = enumerate (m, []) in
      let (dongles, cache') = enumerate (m, cache) in
      let (after, (m', _)) =
        dedupe_serials rewrite reset_machine (λ s. (enumerate s).0) dongles (m, cache') in
      record {
        exit = returned;
        failure = none;
        machine = m';
        printed = map a_dongle before ++ map a_dongle after;
      }

  abbrev probe_each : DeviceConfig → List Dongle → List Printed
  probe_each c [] = []
  probe_each c (d ∷ ds) =
      a_dongle d
      ∷ (a_role (probe_dongle t.programs t.children t.is_windows c d).0 ∷ probe_each c ds)

  -- `--probe-only`
  unfoldable pub run_probe_only : DeviceConfig → Machine S → ModeEnd S
  run_probe_only c m = record {
    exit = returned;
    failure = none;
    machine = m;
    printed = probe_each c (enumerate (m, [])).0;
  }

  -- The body of each mode but the last.
  unfoldable pub run_mode : Polls → Mode → DeviceConfig → Machine S → ModeEnd S
  run_mode p waiting c m = record {
    exit = exit_of (wait_ready (pairs c p.reloads p.statuses) []);
    failure = none;
    machine = m;
    printed = [];
  }
  run_mode p dumping c m =
      ended (λ d. a_dump d ∷ []) (dump_eeprom (t.driver 0) t.loaded t.writes_backup t.temp m)
  run_mode p (self_testing index) c m =
      ended (λ _. []) (eeprom_self_test (t.driver index) t.loaded t.writes_backup t.temp index m)
  run_mode p (renaming text) c m = run_set_serial text m
  run_mode p testing_job c m = record {
    exit = if t.starts_ping then returned else fatal;
    failure = none;
    machine = m;
    printed = [];
  }
  run_mode p resetting c m = run_reset_usb m
  run_mode p deduping c m = run_dedupe m
  run_mode p watching c m = record {
    exit = endless;
    failure = none;
    machine = m;
    printed = run_watch t.quoted p.enumerations [];
  }
  run_mode p probing c m = run_probe_only c m
  run_mode p feeding c m = record { exit = endless; failure = none; machine = m; printed = [] }
