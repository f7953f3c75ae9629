-- ===== src/Control/Home.antt =====
-- The loop of `phoneHome` in agent/main.go, with `snapshot` of agent/stats.go, as steps of the loop and
-- of the goroutines beside it. What a beat does with the reply is in the parent module.
pub mod Wakeups
mod Examples
use flightpatch.Common.{
  ℕ, ◌<◌, ◌+◌, ◌-◌, ◌/◌, ◌%◌, ◌^◌, Bool, true, false, not, ◌&&◌, List, [], ◌∷◌, ◌++◌, Option, none,
  some, ltb, ◌==◌, if◌then◌else◌, option_else, ◌≡◌, ◌⊎◌,
}
use flightpatch.Config.{DeviceConfig, set_role}
use flightpatch.Control.{Agent, Weather, Response, beat}
use flightpatch.Decoders.Run.{join_nul}
use flightpatch.Decoders.{ReceiverInventory, Manager}
use flightpatch.Stats.Links.{Link, bit_of}
use flightpatch.Stats.Race.{Thread, setting, step_nth}
use flightpatch.Stats.{Stats, notify}
use flightpatch.Text.{Str, str_eq}

-- Times are nanoseconds of the monotonic clock. The rate is the difference of the counts, as a bit
-- pattern, over the time between, before it is rounded to a floating-point number; none is 0.
pub record Snapshot : Type 0 where
  pub bytes : ℕ
  pub connected : Bool
  pub uptime_s : ℕ
  pub rate : Option (ℕ × ℕ)

abbrev rate_since : ℕ → ℕ → ℕ → ℕ → Option (ℕ × ℕ)
rate_since bytes prev_bytes now at =
    if ltb at now then some ((bytes + 2 ^ 64 - prev_bytes) % 2 ^ 64, now - at) else none

-- `snapshot`; `prev_at` is none for the zero time.
unfoldable pub snapshot : ℕ → ℕ → Option ℕ → ℕ → Stats → Snapshot
snapshot started prev_bytes prev_at now s = record {
  bytes = s.bytes_fed;
  connected = s.connected == 1;
  uptime_s = (now - started) / 1000000000;
  rate = option_else prev_at none (rate_since s.bytes_fed prev_bytes now);
}

-- The request of a beat: `telemetryReq`, with the entries of its map that are no constants.
pub record Heartbeat : Type 0 where
  pub install_source : Str
  pub device_id : Str
  pub uptime_s : ℕ
  pub bytes_fed : ℕ
  pub msg_rate : Option (ℕ × ℕ)
  pub connected : Bool
  pub acked : List ℕ
  pub org : Str
  pub gain : Str
  pub decoders : List Str
  pub receivers : List ReceiverInventory

-- Where the loop is: before its first beat, behind its snapshot, with a request on its way, in the `select`, in the 75 ms
-- after it was woken, back from `phoneHome`, or out of the process.
pub data Phase : Type 0 where
  starting sending waiting settling stopped exited : Phase
  reading : Snapshot → Phase

-- The variables of `phoneHome`, with what it shares with other goroutines: the counters, and the
-- status and the inventory of the manager. `beats` holds the requests, the last one first, and
-- `failed` says that the last one was not answered. `calls` are the calls of `setLink` that run, and
-- `owed` those of `addBytes` and `setActive` that are about to notify.
pub record Home : Type 0 where
  pub agent : Agent
  pub stats : Stats
  pub manager : Manager
  pub prev_bytes : ℕ
  pub prev_at : Option ℕ
  pub phase : Phase
  pub beats : List Heartbeat
  pub failed : Bool
  pub calls : List Thread
  pub owed : ℕ

abbrev pub heartbeat : Snapshot → Home → Heartbeat
heartbeat s h = record {
  install_source = h.agent.cfg.install_source;
  device_id = h.agent.cfg.device_id;
  uptime_s = s.uptime_s;
  bytes_fed = s.bytes;
  msg_rate = s.rate;
  connected = s.connected;
  acked = h.agent.acked;
  org = h.agent.cfg.org_name;
  gain = h.agent.cfg.gain;
  decoders = h.manager.status;
  receivers = h.manager.receivers;
}

-- The snapshot of a beat, at a time.
unfoldable pub look : ℕ → ℕ → Home → Home
look started now h =
    let s = snapshot started h.prev_bytes h.prev_at now h.stats in
    record h { prev_bytes = s.bytes; prev_at = some now; phase = reading s }

-- The request, which reads the status and the inventory.
unfoldable pub send_beat : Snapshot → Home → Home
send_beat s h = record h { phase = sending; beats = heartbeat s h ∷ h.beats }

abbrev is_lost : Option Response → Bool
is_lost none = true
is_lost (some r) = false

-- The rest of the beat: what the reply brings.
unfoldable pub end_beat : Weather → Home → Home
end_beat w h =
    let b = beat w h.agent in
    record h {
      agent = b.agent;
      phase = if b.exited then exited else waiting;
      failed = is_lost w.reply;
    }

-- `addBytes` and `setActive`, up to the notification that they make or do not make.
unfoldable pub deliver_bytes : ℕ → Home → Home
deliver_bytes n h = record h {
  stats = record h.stats { bytes_fed = (h.stats.bytes_fed + n) % 2 ^ 64 };
  owed = if h.stats.bytes_fed == 0 && not (n == 0) then h.owed + 1 else h.owed;
}

unfoldable pub publish_status : List Str → Home → Home
publish_status a h = record h {
  manager = record h.manager { status = a };
  owed = if str_eq (join_nul h.manager.status) (join_nul a) then h.owed else h.owed + 1;
}

-- One of them notifies.
unfoldable pub notify_owed : Home → Home
notify_owed h = record h { stats = notify h.stats; owed = h.owed - 1 }

-- A token is taken off the channel.
abbrev pub take_token : Home → Home
take_token h = record h { stats = record h.stats { channel = some false }; phase = settling }

-- The ways on from a select.
pub data CanBeat : Phase → Type 0 where
  at_start : CanBeat starting
  on_tick : CanBeat waiting
  on_settled : CanBeat settling

pub data CanStop : Phase → Type 0 where
  in_select : CanStop waiting
  in_settling : CanStop settling

-- The steps of the loop, and those of the relays (a link is marked, by the atomic steps of `setLink`,
-- and bytes are counted) and of the supervisor (its status, its inventory or a role is set), which
-- come at any time.
pub data Step (started : ℕ) : Home → Home → Type 0 where
  begin : (now : ℕ) (h : Home) → CanBeat h.phase → Step started h (look started now h)
  send : (s : Snapshot) (h : Home) → h.phase ≡ reading s → Step started h (send_beat s h)
  reply : (w : Weather) (h : Home) → h.phase ≡ sending → Step started h (end_beat w h)
  wake :
      (h : Home) → h.phase ≡ waiting → h.stats.channel ≡ some true → Step started h (take_token h)
  stop : (h : Home) → CanStop h.phase → Step started h (record h { phase = stopped })
  call :
      (l : Link) (v : Bool) (h : Home)
      → Step started h (record h { calls = h.calls ++ setting (bit_of l) v ∷ [] })
  advance :
      (n : ℕ) (h : Home)
      → Step started h (record h {
        stats = (step_nth n h.calls h.stats).0;
        calls = (step_nth n h.calls h.stats).1;
      })
  count : (n : ℕ) (h : Home) → Step started h (deliver_bytes n h)
  publish : (a : List Str) (h : Home) → Step started h (publish_status a h)
  tell : (h : Home) → 0 < h.owed → Step started h (notify_owed h)
  stock :
      (rs : List ReceiverInventory) (h : Home)
      → Step started h (record h { manager = record h.manager { receivers = rs } })
  assign :
      (k role : Str) (h : Home)
      → Step started h
          (record h { agent = record h.agent { cfg = (set_role h.agent.cfg k role).0 } })

-- The states that steps lead to.
pub data Reach (started : ℕ) (h : Home) : Home → Type 0 where
  here : Reach started h h
  later : {t u : Home} → Reach started h t → Step started t u → Reach started h u
