-- ===== src/Service/MainExamples.antt =====
-- Runs of `main` with a dongle in memory, and instances of the theorems on it.
use flightpatch.Common.{true, false, [], ◌∷◌, ◌++◌, none, some, ◌≡◌, refl, arith}
use flightpatch.Config.Save.{complete, SaveFaults}
use flightpatch.Config.{DeviceConfig, zero_config}
use flightpatch.Eeprom.Device.{Machine}
use flightpatch.Eeprom.Memory.{memory, content, memory-IsFaithful, test_image}
use flightpatch.Eeprom.SelfTest.{Renamed, SerialLeft}
use flightpatch.Service.Main.{Outside, Given, main}
use flightpatch.Service.Modes.Bodies.{run_set_serial, run_watch, dongle_list}
use flightpatch.Service.Modes.{ModeFlags, Tools, Polls, cut_at, read_index, a_list}
use flightpatch.Decoders.{Dongle}
use flightpatch.Service.Offline.{Allowed, main-Allowed}
use flightpatch.Service.Renaming.{Ended, run_set_serial-Ended}
use flightpatch.Service.{Flags}
use flightpatch.Text.Decimal.{decimal}
use flightpatch.Text.{Str, codes, trim_space}

abbrev tools : Tools Str
tools = record {
  driver = λ index. memory;
  loaded = true;
  readings = λ s. [];
  ports = λ s. [];
  reset = λ s. s;
  is_windows = true;
  programs = record {
    exists = λ path. false;
    join = λ dir name. dir ++ (b'/' ∷ name);
    look_path = λ name. none;
  };
  children = record {
    decodes = λ command. (false, []);
    listens = λ command. record { starts = false; reads = none };
  };
  quoted = λ s. b'"' ∷ (s ++ (b'"' ∷ []));
  temp = codes "/tmp/";
  writes_backup = true;
  starts_ping = true;
}

abbrev polls : Polls
polls = record { statuses = []; reloads = []; enumerations = [] }

abbrev working : SaveFaults
working = record { makes_dir = true; writes = complete; renames = true }

abbrev outside : Outside
outside = record {
  marshal = λ c. some (codes "id=" ++ c.device_id);
  flag_saves = working;
  identity_saves = working;
  reply_saves = working;
  raw = some (1 ∷ 2 ∷ []);
  network = λ r. some (200, r.body);
  encode = λ r. some r.device_id;
  decode = λ s. some (record { device_id = s; token = codes "t"; feed_addr = [] });
  platform = codes "windows/amd64";
}

abbrev no_flags : Flags
no_flags = record {
  server = [];
  local = [];
  decoder_dir = [];
  default_role = [];
  org = [];
  email = [];
  install_source = [];
}

abbrev no_modes : ModeFlags
no_modes = record {
  wait_positive = false;
  eeprom_dump = false;
  eeprom_test = none;
  set_serial = [];
  job_test = false;
  reset_usb = false;
  dedupe = false;
  watch = false;
  probe_only = false;
}

abbrev plain : Given
plain = record { flags = no_flags; modes = no_modes; register_only = false }

abbrev probes : Given
probes = record plain { modes = record no_modes { probe_only = true } }

abbrev config : DeviceConfig
config = record zero_config { path = codes "agent.json" }

abbrev machine : Machine Str
machine = record { chip = test_image; files = record { disk = []; past = [] } }

main-Allowed_example : Allowed no_modes (main tools polls outside plain config machine)
main-Allowed_example = main-Allowed tools polls outside plain config machine

run_set_serial-Ended_example :
    Ended tools
      (Renamed memory true content memory-IsFaithful (trim_space (codes " ADSBIQ7")) test_image)
      (SerialLeft memory true content memory-IsFaithful (trim_space (codes " ADSBIQ7")) test_image)
      (run_set_serial tools (decimal 12 ++ (b'=' ∷ codes " ADSBIQ7")) machine)
run_set_serial-Ended_example =
    run_set_serial-Ended tools 12 (codes " ADSBIQ7") machine content memory-IsFaithful (omega arith)

-- The first separator counts, a sign is read, and a number that an int does not hold is refused.
reads_flags :
    (cut_at b'=' (codes "1=A=B") ≡ some (codes "1", codes "A=B"))
    × (read_index (codes "+7") ≡ some 7)
    × (read_index (codes "-1") ≡ some 18446744073709551615)
    × (read_index (codes "9223372036854775808") ≡ none)
unfolding cut_at read_index flightpatch.Text.Decimal.all_digits flightpatch.Text.Decimal.value_onto
reads_flags = (refl, refl, refl, refl)

abbrev dongle : Dongle
dongle = record { index = 0; serial = codes "S"; product = codes "P"; port = codes "1-2" }

-- The watch prints when a dongle comes and when it goes.
watch_sees :
    run_watch tools.quoted ([] ∷ ((dongle ∷ []) ∷ ((dongle ∷ []) ∷ ([] ∷ [])))) []
    ≡ a_list 1 (codes "[#0 serial=\"S\" port=\"1-2\" \"P\"] ") ∷ (a_list 0 [] ∷ [])
unfolding run_watch dongle_list flightpatch.Text.str_eq decimal
watch_sees = refl
