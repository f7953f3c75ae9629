-- ===== src/Decoders/RunExamples.antt =====
-- A run of `run` in which a dongle is plugged in, feeding is paused, and the service stops.
use flightpatch.Common.{true, false, List, [], ◌∷◌, Option, some, ◌≡◌, refl, arith}
use flightpatch.Config.Save.{complete, cut_short, SaveFaults, IsOld}
use flightpatch.Config.{DeviceConfig, zero_config}
use flightpatch.Decoders.Accounts.{WorldAccounted, rounds-Accounted, run-Stopped}
use flightpatch.Decoders.Tally.{count_key, tally, starts, stops, relay_starts, relay_stops}
use flightpatch.Decoders.Run.{Tick, World, rounds, run}
use flightpatch.Decoders.{ReceiverInventory}
use flightpatch.Dict.{lookup}
use flightpatch.Files.{Files}
use flightpatch.Stats.{new_stats}
use flightpatch.Text.{Str, codes}

abbrev sha256 : Str → Str
sha256 s = codes "0123456789"

abbrev marshal : DeviceConfig → Option Str
marshal c = some c.device_id

abbrev document : List ReceiverInventory → Option Str
document receivers = some (codes "[]")

abbrev working : SaveFaults
working = record { makes_dir = true; writes = complete; renames = true }

abbrev path : Str
path = codes "receivers.json"

abbrev idle : World
idle = record {
  cfg = zero_config;
  manager = record {
    enabled = true;
    active = [];
    forwarders = [];
    status = [];
    receivers = [];
    events = [];
  };
  stats = new_stats;
  cache = [];
  files = record { disk = []; past = [] };
}

-- Both decoders are bundled, and the probe hears a blank line and a message.
abbrev plugged : Tick
plugged = record {
  control = λ c. c;
  enabled = true;
  loaded = true;
  readings = some (codes "RTL2838", codes "1") ∷ [];
  ports = codes "1-2" ∷ [];
  found = λ name. true;
  is_windows = true;
  probes = λ d. record { found = true; starts = true; lines = codes " " ∷ codes "msg" ∷ [] };
  saves = working;
  inventory_saves = working;
}

abbrev paused : Tick
paused = record plugged { enabled = false }

abbrev ticks : List Tick
ticks = plugged ∷ paused ∷ plugged ∷ []

idle_accounted : (k : Str) → WorldAccounted k idle
unfolding tally count_key
idle_accounted k = record {
  decoders = omega arith;
  one_decoder = omega arith;
  relays = omega arith;
  one_relay = omega arith;
}

rounds-Accounted_example :
    WorldAccounted (codes "1-2") (rounds sha256 marshal document path ticks idle)
rounds-Accounted_example =
    rounds-Accounted sha256 marshal document path (codes "1-2") ticks idle
      (idle_accounted (codes "1-2"))

run-Stopped_example :
    let m = (run sha256 marshal document path ticks idle).manager in
    (m.active ≡ [])
    × (m.forwarders ≡ [])
    × (tally (starts (codes "1-2")) m.events ≡ tally (stops (codes "1-2")) m.events)
    × (tally (relay_starts (codes "1-2")) m.events ≡ tally (relay_stops (codes "1-2")) m.events)
run-Stopped_example =
    run-Stopped sha256 marshal document path (codes "1-2") ticks idle (idle_accounted (codes "1-2"))

-- The disk is full.
abbrev full : SaveFaults
full = record { makes_dir = true; writes = cut_short (codes "["); renames = true }

abbrev files : Files
files = record { disk = (path, codes "old") ∷ []; past = [] }

files-IsOld : IsOld path (some (codes "old")) (codes "[]") files
unfolding lookup flightpatch.Text.str_eq
files-IsOld = record { here = refl; before = tt }
