-- ===== src/System/Examples.antt =====
-- A reply with a role and the round behind it, and a start behind another one.
use flightpatch.Common.{
  ℕ, true, false, [], ◌∷◌, ◌++◌, Option, none, some, drop, ◌≡◌, ◌≢◌, refl, arith,
}
use flightpatch.Config.Load.{IsStorable}
use flightpatch.Config.Save.{
  complete, SaveFaults, save, replace, write_file, ensure_device_identity,
}
use flightpatch.Config.{
  DeviceConfig, role_vdl2, role_off, find_role, zero_config, fill_defaults, set_role,
}
use flightpatch.Control.Push.{IsMap}
use flightpatch.Control.{
  text, object, Fields, end, field, Response, Weather, Agent, beat, up_to_date, lookup, as_object,
  apply_config, push_config, push_text, push_roles, enabled_after, on_reply, run_commands,
}
use flightpatch.Decoders.Pushed.{dongle_keys}
use flightpatch.Decoders.Run.{World, Tick, round}
use flightpatch.Decoders.{Dongle, key, Manager, child_for}
use flightpatch.Dict.{mem}
use flightpatch.Dongles.{dongle_of, list_dongles, enumerate_dongles}
use flightpatch.Files.{Files}
use flightpatch.Service.{RegisterResp, Start, fatal, serving, start, enrol}
use flightpatch.Stats.{new_stats}
use flightpatch.System.Durable.{Kept, start-Kept}
use flightpatch.System.Remote.{enumerated, pushed_role-runs}
use flightpatch.Text.{Str, codes, str_eq}

abbrev strings : Str × Str
strings = (codes "RTL2838", codes "S1")

abbrev dongle : Dongle
dongle = dongle_of 0 (codes "1-2") strings

abbrev roles : Fields
roles = field (codes "1-2") (text role_vdl2) end

abbrev pushed : Fields
pushed = field (codes "roles") (object roles) end

abbrev response : Response
response = record { enabled = true; config = some pushed; commands = [] }

abbrev weather : Weather
weather = record { reply = some response; update = up_to_date; ack_ok = true }

abbrev agent : Agent
agent = record { cfg = zero_config; enabled = true; acked = [] }

abbrev working : SaveFaults
working = record { makes_dir = true; writes = complete; renames = true }

abbrev tick : Tick
tick = record {
  control = λ c. (beat weather agent).agent.cfg;
  enabled = (beat weather agent).agent.enabled;
  loaded = true;
  readings = some strings ∷ [];
  ports = codes "1-2" ∷ [];
  found = λ name. true;
  is_windows = true;
  probes = λ d. record { found = true; starts = true; lines = [] };
  saves = working;
  inventory_saves = working;
}

abbrev manager : Manager
manager = record {
  enabled = true;
  active = [];
  forwarders = [];
  status = [];
  receivers = [];
  events = [];
}

abbrev world : World
world = record {
  cfg = zero_config;
  manager = manager;
  stats = new_stats;
  cache = [];
  files = record { disk = []; past = [] };
}

gives_object : as_object (lookup pushed (codes "roles")) ≡ some roles
unfolding lookup str_eq
gives_object = refl

is_map : IsMap roles
unfolding lookup
is_map = (refl, tt)

gives_role : lookup roles (key dongle) ≡ some (text role_vdl2)
unfolding lookup str_eq key
gives_role = refl

is_on : (beat weather agent).agent.enabled ≡ true
unfolding beat on_reply run_commands apply_config push_config push_text push_roles enabled_after
    lookup str_eq set_role
is_on = refl

finds : enumerated tick world ≡ dongle ∷ []
unfolding enumerate_dongles list_dongles flightpatch.Dict.lookup
finds = refl

vdl2_runs : str_eq role_vdl2 role_off ≡ false
unfolding str_eq
vdl2_runs = refl

unconfirmed : find_role agent.cfg.local_roles (key dongle) ≡ none
unfolding find_role
unconfirmed = refl

empty-absent : mem (key dongle) (dongle_keys []) ≡ false
unfolding mem
empty-absent = refl

pushed_role-runs_example :
    (adsb_slot : ℕ) × (vdl2_slot : ℕ) × (flightpatch.Dict.lookup
        (key dongle)
        (round
          (λ s. s)
          (λ c. none)
          (λ receivers. none)
          (codes "receivers.json")
          tick
          world).manager.active
      ≡ some (child_for (record { dongle = dongle; role = role_vdl2 }) adsb_slot vdl2_slot))
pushed_role-runs_example =
    pushed_role-runs (λ s. s) (λ c. none) (λ receivers. none) (codes "receivers.json") weather
      response agent pushed roles tick world [] [] dongle role_vdl2 refl refl gives_object is_map
      gives_role refl vdl2_runs unconfirmed is_on refl refl finds empty-absent empty-absent

-- A reading of settings: what a document does not have is at its default.
abbrev marshal : DeviceConfig → Option Str
marshal c = some (codes "id=" ++ c.device_id)

abbrev unmarshal : Str → DeviceConfig → DeviceConfig
unmarshal b c = record (fill_defaults (some (codes "/opt")) c) {
  device_id = drop 3 b;
  token = codes "t";
}

abbrev fresh : DeviceConfig
fresh = fill_defaults (some (codes "/opt")) (record zero_config { path = codes "agent.json" })

abbrev answer : RegisterResp
answer = record { device_id = codes "dev-1"; token = codes "t"; feed_addr = [] }

abbrev nothing : Files
nothing = record { disk = []; past = [] }

abbrev first : Start × DeviceConfig × Files
first =
    start marshal working working (some (1 ∷ 2 ∷ [])) (λ req. some answer) (codes "windows/amd64")
      false fresh nothing

first-serves : first.0 ≡ serving
unfolding start ensure_device_identity save replace write_file flightpatch.Files.write
    flightpatch.Files.rename flightpatch.Dict.lookup flightpatch.Dict.insert str_eq enrol
    flightpatch.Dict.erase fill_defaults
first-serves = refl

first-IsStorable : IsStorable unmarshal (codes "etc") none first.1 (codes "id=dev-1")
unfolding start ensure_device_identity save replace write_file flightpatch.Files.write
    flightpatch.Files.rename flightpatch.Dict.lookup flightpatch.Dict.insert str_eq enrol
    flightpatch.Dict.erase fill_defaults
first-IsStorable = record { named = refl; complete = ground arith; has_dir = refl; decodes = refl }

first-marshal : marshal first.1 ≡ some (codes "id=dev-1")
unfolding start ensure_device_identity save replace write_file flightpatch.Files.write
    flightpatch.Files.rename flightpatch.Dict.lookup flightpatch.Dict.insert str_eq enrol
    flightpatch.Dict.erase fill_defaults
first-marshal = refl

first-goes_on : first.0 ≢ fatal
first-goes_on e = absurd (ground (arith, e, first-serves))

start-Kept_example :
    Kept marshal unmarshal
      (codes "etc")
      none
      answer
      (codes "windows/amd64")
      working
      none
      nothing
      first
start-Kept_example =
    start-Kept marshal unmarshal (codes "etc") none working working working (some (1 ∷ 2 ∷ [])) none
      (λ req. some answer) (codes "windows/amd64") false fresh nothing nothing answer
      (codes "id=dev-1") refl refl (first-goes_on, first-marshal, first-IsStorable)
