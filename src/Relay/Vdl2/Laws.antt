-- ===== src/Relay/Vdl2/Laws.antt =====
-- What `runVDL2Forward` of agent/vdl2_forward.go marks, counts and records.
use flightpatch.Common.{
  ℕ, ◌+◌, ◌%◌, ◌^◌, ◌<◌, Bool, true, false, ◌&&◌, ◌||◌, List, [], ◌∷◌, Option, none, some,
  if◌then◌else◌, if_case2, length, ◌≡◌, refl, ◌∙◌, arith,
}
use flightpatch.Relay.Vdl2.{
  Event, timed_out, timed_out_ended, read_failed, datagram, Ending, running, ended, read_error,
  write_error, History, HistoryFiles, Vdl2Relay, keep_entry, count_datagram, relay_loop, Setup,
  open_history, run_vdl2_forward,
}
use flightpatch.Relay.{sent}
use flightpatch.Stats.Links.{set_link-bytes_fed, IsValid, tcp, udp, is_up, set_link-IsValid}
use flightpatch.Stats.{Stats, set_link, add_bytes, notify, vdl2_link_bit}
use flightpatch.Text.{Str}
use flightpatch.Relay.Vdl2.Recorded.{
  Sent, lines_of, history_begins, Recorded, Added, nothing-Added, keep_entry-Added, opened_lem,
}

-- The datagrams that are relayed before the loop ends.
abbrev pub relayed : List Event → List Sent
relayed [] = []
relayed (timed_out ∷ rest) = relayed rest
relayed (timed_out_ended ∷ rest) = []
relayed (read_failed ∷ rest) = []
relayed (datagram p w at f ∷ rest) =
    let more = record { payload = p; bytes = sent w p; at = at; recording = f } ∷ relayed rest in
    if w.works then more else []

abbrev pub sent_length : List Sent → ℕ
sent_length [] = 0
sent_length (x ∷ rest) = length x.bytes + sent_length rest

abbrev pub is_some_datagram : List Sent → Bool
is_some_datagram [] = false
is_some_datagram (x ∷ rest) = true

abbrev pub is_running : Ending → Bool
is_running running = true
is_running _ = false

-- How a relay stands that began with the counters `st`: it is valid, has counted `n` bytes more, and
-- its own link is as given and that of TCP as it was.
pub record Stands (st : Stats) (n : ℕ) (up : Bool) (st' : Stats) : Type 0 where
  pub valid : IsValid st'
  pub counted : st'.bytes_fed ≡ (st.bytes_fed + n) % 2 ^ 64
  pub own : is_up udp st'.links ≡ up
  pub other : is_up tcp st'.links ≡ is_up tcp st.links

mark-Stands :
    (st st' : Stats) (n : ℕ) (up v : Bool)
    → Stands st n up st'
    → Stands st n v (set_link st' vdl2_link_bit v)
mark-Stands st st' n up v h =
    let (valid, ups) = set_link-IsValid st' udp v h.valid in
    record {
      valid = valid;
      counted = set_link-bytes_fed st' vdl2_link_bit v ∙ h.counted;
      own = ups udp;
      other = ups tcp ∙ h.other;
    }

add_bytes-Stands :
    (st st' : Stats) (n k : ℕ) (up : Bool)
    → Stands st n up st'
    → Stands st (n + k) up (add_bytes st' k)
unfolding add_bytes notify
add_bytes-Stands st st' n k up h = record {
  valid = record {
    mask = ground (arith, h.valid.mask);
    reported = ground (arith, h.valid.reported);
  };
  counted = ground (arith, h.counted);
  own = ground (arith, h.own);
  other = ground (arith, h.other);
}

-- What a run that relayed `rs` leaves of the counters `st`.
abbrev pub Counts : Stats → ℕ → Bool → List Sent → Ending × Vdl2Relay → Type 0
Counts st n up rs (e, r) =
    Stands st (n + sent_length rs) (is_running e && (up || is_some_datagram rs)) r.stats

-- The same with the writer of the history, or with its files at the beginning.
abbrev Goes :
    (ℕ → Str → Option Str)
    → Stats
    → ℕ
    → Bool
    → Option History
    → List Sent
    → Ending × Vdl2Relay
    → Type 0
Goes entry st n up h rs out = Counts st n up rs out × Added (lines_of entry rs) h out.1.history

abbrev pub Relayed :
    (ℕ → Str → Option Str)
    → Stats
    → Bool
    → Option (Str × Option Str)
    → List Sent
    → Ending × Vdl2Relay
    → Type 0
Relayed entry st up h rs out = Counts st 0 up rs out × Recorded (lines_of entry rs) h out.1.history

down_lem :
    (entry : ℕ → Str → Option Str) (st st' : Stats) (n : ℕ) (up : Bool) (h : Option History)
    (e : Ending)
    → is_running e ≡ false
    → Stands st n up st'
    → Goes entry st n up h [] (e, record { stats = set_link st' vdl2_link_bit false; history = h })
down_lem entry st st' n up h e stops s =
    let m = mark-Stands st st' n up false s in
    (
      record {
        valid = m.valid;
        counted = ground (arith, m.counted);
        own = ground (arith, m.own);
        other = m.other;
      },
      nothing-Added h,
    )

widen :
    (entry : ℕ → Str → Option Str) (st : Stats) (n : ℕ) (up : Bool) (h : Option History) (x : Sent)
    (rs : List Sent) (out : Ending × Vdl2Relay)
    → Goes entry st
        (n + length x.bytes)
        true
        (keep_entry (entry x.at x.payload) x.recording h)
        rs
        out
    → Goes entry st n up h (x ∷ rs) out
widen entry st n up h x rs (e, r) (s, k) = (
  record {
    valid = s.valid;
    counted = ground (arith, s.counted);
    own = ground (arith, s.own);
    other = s.other;
  },
  keep_entry-Added (entry x.at x.payload) x.recording h (lines_of entry rs) r.history k,
)

relay_loop-Goes :
    (entry : ℕ → Str → Option Str) (events : List Event) (st st' : Stats) (n : ℕ) (up : Bool)
    (h : Option History)
    → Stands st n up st'
    → Goes entry st n up h
        (relayed events)
        (relay_loop entry events (record { stats = st'; history = h }))
unfolding relay_loop count_datagram
relay_loop-Goes entry [] st st' n up h s = (
  record {
    valid = s.valid;
    counted = ground (arith, s.counted);
    own = ground (arith, s.own);
    other = s.other;
  },
  nothing-Added h,
)
relay_loop-Goes entry (timed_out ∷ rest) st st' n up h s =
    relay_loop-Goes entry rest st st' n up h s
relay_loop-Goes entry (timed_out_ended ∷ rest) st st' n up h s =
    down_lem entry st st' n up h ended refl s
relay_loop-Goes entry (read_failed ∷ rest) st st' n up h s =
    down_lem entry st st' n up h read_error refl s
relay_loop-Goes entry (datagram p w at f ∷ rest) st st' n up h s =
    let x : Sent = record { payload = p; bytes = sent w p; at = at; recording = f } in
    let k = length x.bytes in
    if_case2 (λ (out : Ending × Vdl2Relay) (rs : List Sent). Goes entry st n up h rs out) w.works
      (λ _.
        widen entry st n up h x (relayed rest)
          (relay_loop entry rest
            (count_datagram entry p w at f (record { stats = st'; history = h })))
          (relay_loop-Goes entry rest st (add_bytes (set_link st' vdl2_link_bit true) k) (n + k)
            true (keep_entry (entry at p) f h)
            (add_bytes-Stands st (set_link st' vdl2_link_bit true) n k true
              (mark-Stands st st' n up true s))))
      (λ _. down_lem entry st st' n up h write_error refl s)

-- A VDL2 relay whose sockets open, and whose record of the links is valid, counts in 64 bits what it
-- sent of the datagrams that it relayed, and leaves the link of TCP alone. For each of them that is
-- valid, in order, it adds a line to the history, behind what stood there, or to a new file where the
-- old one was too large and is put aside; once the write of a line fails or takes less, no more is
-- added. Its own link is down once it has returned, for whatever reason; while it runs the link is
-- up if it was before or if a datagram was relayed.
pub run_vdl2_forward-Relayed :
    (entry : ℕ → Str → Option Str) (s : Setup) (events : List Event) (st : Stats) (h : HistoryFiles)
    → s.listens ≡ true
    → s.dials ≡ true
    → IsValid st
    → st.bytes_fed < 2 ^ 64
    → Relayed entry st
        (is_up udp st.links)
        (history_begins s h)
        (relayed events)
        (run_vdl2_forward entry s events st h)
unfolding run_vdl2_forward
run_vdl2_forward-Relayed entry s events st h listens dials valid small =
    let opened : Option History =
      if s.has_folder && s.opens then some (open_history s.renames h) else none in
    let start : Stands st 0 (is_up udp st.links) st = record {
      valid = valid;
      counted = ground (arith);
      own = refl;
      other = refl;
    } in
    let (counts, added) = relay_loop-Goes entry events st st 0 (is_up udp st.links) opened start in
    rw (listens, dials)
      (
        counts,
        opened_lem s h (lines_of entry (relayed events))
            (relay_loop entry events (record { stats = st; history = opened })).1.history added,
      )
