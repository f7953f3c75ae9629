-- ===== src/Relay/Examples.antt =====
-- Sessions of the relays, and instances of the theorems on them.
use flightpatch.Beast.{avr_to_beast, beast_receiver_frame}
use flightpatch.Common.{
  ℕ, true, false, List, [], ◌∷◌, ◌++◌, map, Option, none, some, length, suc, ◌<◌, ◌^◌, ◌≡◌, refl,
  arith,
}
use flightpatch.Decoders.{Dongle}
use flightpatch.Relay.Counted.{IsCounted, run_forward-IsCounted}
use flightpatch.Relay.Forward.{AllIdentified, run_forward-AllIdentified}
use flightpatch.Relay.Link.{IsDown}
use flightpatch.Relay.Open.{IsOpen, run_forward-IsOpen}
use flightpatch.Relay.Streams.{Added, stream_of, IsLive, run_forward-Added}
use flightpatch.Relay.Uat.Cleanup.{Left, run_uat-Left}
use flightpatch.Relay.Uat.Received.{
  AllTaken, read_frames, frames_of, bodies_of, send_all-read_frames,
}
use flightpatch.Relay.Uat.{Outcomes, Pipeline, send_all, run_uat}
use flightpatch.Relay.Vdl2.Laws.{Relayed, relayed, run_vdl2_forward-Relayed}
use flightpatch.Relay.Vdl2.Recorded.{lines_of, history_begins}
use flightpatch.Relay.Vdl2.{
  Event, datagram, timed_out, timed_out_ended, HistoryFiles, Setup, run_vdl2_forward,
}
use flightpatch.Relay.{
  Attempt, connects, refused, Write, sent, Session, Relay, Turn, returned, run_forward, dial_loop,
}
use flightpatch.Stats.Links.{udp, is_up, new_stats-IsValid}
use flightpatch.Stats.{Stats, new_stats}
use flightpatch.Text.{Str, codes}

abbrev identity : Str
identity = 1 ∷ 2 ∷ 0x1a ∷ 3 ∷ 4 ∷ 5 ∷ 6 ∷ 7 ∷ []

abbrev whole : Write
whole = record { taken = 100; works = true }

abbrev cut_short : Write
cut_short = record { taken = 1; works = false }

-- The decoder is refused once; the second write to the feed breaks.
abbrev session : Session
session = record {
  ended_before = false;
  decoder = refused ∷ (connects ∷ []);
  feed = connects ∷ [];
  greeting = whole;
  chunks =
      record { payload = codes "abc"; write = whole }
      ∷ (record { payload = codes "def"; write = cut_short } ∷ []);
  ended_after = false;
  ended_waiting = false;
}

abbrev sessions : List Session
sessions = session ∷ (session ∷ [])

abbrev idle : Relay
idle = record { stats = some new_stats; open_count = 0; streams = [] }

run_forward-AllIdentified_example :
    AllIdentified identity (run_forward identity sessions idle).1.streams
run_forward-AllIdentified_example = run_forward-AllIdentified identity sessions idle refl tt

idle-IsCounted : IsCounted 0 0 idle
unfolding new_stats
idle-IsCounted = (0, refl, refl)

run_forward-IsCounted_example : IsCounted 0 0 (run_forward identity sessions idle).1
run_forward-IsCounted_example = run_forward-IsCounted identity sessions idle 0 0 idle-IsCounted

idle-IsDown : IsDown idle.stats
unfolding new_stats
idle-IsDown = (new_stats-IsValid, refl)

session-IsLive : IsLive session
unfolding dial_loop
session-IsLive = record { starts = refl; decoder = refl; feed = refl; lasts = refl; waits = refl }

run_forward-Added_example :
    Added (map (stream_of identity) sessions) idle (run_forward identity sessions idle)
run_forward-Added_example =
    run_forward-Added identity sessions idle (session-IsLive, (session-IsLive, tt))

-- A session whose identity cannot be written, before the context ends.
abbrev ungreeted : Session
ungreeted = record session { greeting = cut_short }

abbrev after_end : Session
after_end = record session { ended_before = true }

links_of : Option Stats → ℕ
links_of none = 0
links_of (some st) = st.links

-- The relay has returned, and its link is still marked.
stays_marked : links_of (run_forward identity (ungreeted ∷ (after_end ∷ [])) idle).1.stats ≡ 1
unfolding run_forward links_of flightpatch.Relay.forward_once flightpatch.Relay.dial_decoder
    dial_loop flightpatch.Relay.dial_feed flightpatch.Relay.greet flightpatch.Stats.set_connected
    new_stats flightpatch.Stats.next_links
stays_marked = refl

abbrev setup : Setup
setup = record { listens = true; dials = true; has_folder = true; renames = true; opens = true }

abbrev history : HistoryFiles
history = record { content = codes "old"; previous = none }

-- A datagram that is not empty counts as valid.
abbrev entry_of : ℕ → Str → Option Str
entry_of at [] = none
entry_of at (c ∷ s) = some (at ∷ (codes "{" ++ (c ∷ s)))

-- The write of the second line breaks, and nothing is written of the third.
abbrev events : List Event
events =
    datagram (codes "{}") whole 49 whole
    ∷ (timed_out
        ∷ (datagram [] whole 50 whole
            ∷ (datagram (codes "[]") whole 51 cut_short
                ∷ (datagram (codes "{}") whole 52 whole ∷ (timed_out_ended ∷ [])))))

new_stats-small : new_stats.bytes_fed < 2 ^ 64
unfolding new_stats
new_stats-small = omega arith

run_vdl2_forward-Relayed_example :
    Relayed entry_of new_stats
      (is_up udp new_stats.links)
      (history_begins setup history)
      (relayed events)
      (run_vdl2_forward entry_of setup events new_stats history)
run_vdl2_forward-Relayed_example =
    run_vdl2_forward-Relayed entry_of setup events new_stats history refl refl new_stats-IsValid
      new_stats-small

records_lines : lines_of entry_of (relayed events) ≡ codes "1{{}" ++ 10 ∷ codes "3"
records_lines = refl

abbrev dongle : Dongle
dongle = record { index = 0; serial = codes "s"; product = codes "p"; port = codes "1-1" }

abbrev message : Str
message = codes "*1A000000000000;"

abbrev outcomes : Outcomes
outcomes = record {
  pipes = true;
  starts = λ _. true;
  feed = connects ∷ [];
  greeting = whole;
  lines = (message, whole) ∷ ((codes "noise", cut_short) ∷ []);
  scans = true;
}

abbrev pipeline : Pipeline
pipeline = record {
  stats = new_stats;
  processes = (6, codes "dumpvdl2" ∷ []) ∷ [];
  spawned = 7;
  open_count = 0;
  sent_bytes = [];
}

abbrev digest : Str → Str
digest s = identity

abbrev programs : List Str
programs = codes "rtl_sdr" ∷ (codes "dump978" ∷ (codes "uat2esnt" ∷ []))

run_uat-Left_example : Left pipeline.processes 0 (
    run_uat digest (λ name. some name) programs (codes "dev") (codes "40") dongle outcomes pipeline)
run_uat-Left_example =
    run_uat-Left digest (λ name. some name) programs (codes "dev") (codes "40") dongle outcomes
      pipeline (omega arith, tt) idle-IsDown

identity_taken :
    sent outcomes.greeting (beast_receiver_frame identity) ≡ beast_receiver_frame identity
unfolding beast_receiver_frame
identity_taken = refl

lines_taken : AllTaken outcomes.lines
unfolding avr_to_beast
lines_taken = (refl, refl, tt)

send_all-read_frames_example :
    read_frames
      (suc (length (frames_of outcomes.lines)))
      (send_all identity outcomes pipeline).1.sent_bytes
    ≡ some (identity ∷ bodies_of outcomes.lines, [])
send_all-read_frames_example =
    send_all-read_frames identity outcomes pipeline refl refl identity_taken lines_taken refl

run_forward-IsOpen_example : IsOpen idle.open_count (run_forward identity sessions idle)
run_forward-IsOpen_example = run_forward-IsOpen identity sessions idle
