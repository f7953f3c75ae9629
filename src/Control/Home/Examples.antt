-- ===== src/Control/Home/Examples.antt =====
-- Data that is delivered while the first request is on its way.
use flightpatch.Common.{true, false, [], none, some, ◌≡◌, ◌⊎◌, refl, arith}
use flightpatch.Config.{zero_config}
use flightpatch.Control.Home.Wakeups.{IsHome, IsAwake, Reported, Reach-Noted}
use flightpatch.Control.Home.{
  starting, waiting, at_start, Home, Snapshot, snapshot, look, send_beat, end_beat, deliver_bytes,
  notify_owed, begin, send, reply, count, tell, Reach, here, later,
}
use flightpatch.Control.{Weather, Response, beat, up_to_date}
use flightpatch.Stats.{new_stats}

abbrev at_first : Home
at_first = record {
  agent = record { cfg = zero_config; enabled = true; acked = [] };
  stats = new_stats;
  manager = record {
    enabled = true;
    active = [];
    forwarders = [];
    status = [];
    receivers = [];
    events = [];
  };
  prev_bytes = 0;
  prev_at = none;
  phase = starting;
  beats = [];
  failed = false;
  calls = [];
  owed = 0;
}

abbrev quiet : Response
quiet = record { enabled = true; config = none; commands = [] }

abbrev answered : Weather
answered = record { reply = some quiet; update = up_to_date; ack_ok = true }

abbrev first : Snapshot
first = snapshot 0 0 none 5 at_first.stats

abbrev sent_first : Home
sent_first = send_beat first (look 0 5 at_first)

abbrev fed : Home
fed = deliver_bytes 112 sent_first

abbrev notifies : Home
notifies = notify_owed fed

at_first-IsHome : IsHome at_first
unfolding new_stats
at_first-IsHome = record { pending = false; listens = refl; holds = tt }

reached : Reach 0 at_first (end_beat answered notifies)
unfolding look send_beat deliver_bytes new_stats notify_owed
reached =
    later
      (later
        (later
          (later (later here (begin 5 at_first at_start)) (send first (look 0 5 at_first) refl))
          (count 112 sent_first))
        (tell fed (omega arith)))
      (reply answered notifies refl)

ends_waiting : (end_beat answered notifies).phase ≡ waiting
unfolding end_beat beat
ends_waiting = refl

Reach-Noted_example :
    IsAwake (end_beat answered notifies)
    ⊎ (((end_beat answered notifies).failed ≡ true)
        ⊎ Reported (end_beat answered notifies).beats (end_beat answered notifies))
Reach-Noted_example = Reach-Noted at_first-IsHome reached ends_waiting

-- The data came behind the snapshot, so a token waits.
token_waits : (end_beat answered notifies).stats.channel ≡ some true
unfolding end_beat send_beat new_stats notify_owed flightpatch.Stats.notify deliver_bytes look
token_waits = refl
