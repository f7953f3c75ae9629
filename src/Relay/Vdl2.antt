-- ===== src/Relay/Vdl2.antt =====
-- The relay of VDL2 datagrams: `runVDL2Forward` of agent/vdl2_forward.go. What the sockets and the
-- files give is an argument, and so is the JSON of an entry of the history, with its time.
pub mod Laws
pub mod Recorded
use flightpatch.Common.{
  ℕ, ◌+◌, ◌*◌, Bool, true, false, not, ◌&&◌, List, [], ◌∷◌, ◌++◌, Option, none, some, ltb,
  if◌then◌else◌, length, ◌==◌,
}
use flightpatch.Relay.{Write, sent}
use flightpatch.Stats.{Stats, set_link, add_bytes, vdl2_link_bit}
use flightpatch.Text.{Str}

-- A turn of the loop: the read times out, with the context lasting or ended, or it fails, or a
-- datagram comes, is relayed, and its entry, if there is one, is written to the history at a time.
pub data Event : Type 0 where
  timed_out timed_out_ended read_failed : Event
  datagram : Str → Write → ℕ → Write → Event

-- The context's error, one of the calls', or none so far.
pub data Ending : Type 0 where
  running ended not_listening not_dialled read_error write_error : Ending

-- The files of the history: the one written to, and the one put aside before.
pub record HistoryFiles : Type 0 where
  pub content : Str
  pub previous : Option Str

-- The writer, with the files: an error of a write stays with it, and then it writes nothing more.
pub record History : Type 0 where
  pub files : HistoryFiles
  pub broken : Bool

-- The counters, and the history where it could be opened.
pub record Vdl2Relay : Type 0 where
  pub stats : Stats
  pub history : Option History

-- A write that takes less than it is given is an error, too.
abbrev pub takes_all : Write → Str → Bool
takes_all w s = w.works && length (sent w s) == length s

-- The entry and its line feed, flushed; what the calls return is dropped.
abbrev pub append_entry : Str → Write → History → History
append_entry entry w h =
    let line = entry ++ 0x0a ∷ [] in
    let files' : HistoryFiles = record h.files { content = h.files.content ++ sent w line } in
    if h.broken then h else record { files = files'; broken = not (takes_all w line) }

-- A datagram is recorded where it is valid JSON.
abbrev pub keep_entry : Option Str → Write → Option History → Option History
keep_entry none w h = h
keep_entry (some entry) w none = none
keep_entry (some entry) w (some h) = some (append_entry entry w h)

abbrev pub mark : Bool → Vdl2Relay → Vdl2Relay
mark v r = record r { stats = set_link r.stats vdl2_link_bit v }

-- A datagram that was written.
unfoldable pub count_datagram :
    (ℕ → Str → Option Str) → Str → Write → ℕ → Write → Vdl2Relay → Vdl2Relay
count_datagram entry p w at f r = record {
  stats = add_bytes (set_link r.stats vdl2_link_bit true) (length (sent w p));
  history = keep_entry (entry at p) f r.history;
}

unfoldable pub relay_loop : (ℕ → Str → Option Str) → List Event → Vdl2Relay → Ending × Vdl2Relay
relay_loop entry [] r = (running, r)
relay_loop entry (timed_out ∷ rest) r = relay_loop entry rest r
relay_loop entry (timed_out_ended ∷ rest) r = (ended, mark false r)
relay_loop entry (read_failed ∷ rest) r = (read_error, mark false r)
relay_loop entry (datagram p w at f ∷ rest) r =
    let more = relay_loop entry rest (count_datagram entry p w at f r) in
    if w.works then more else (write_error, mark false r)

abbrev pub history_limit : ℕ
history_limit = 16 * 1024 * 1024

-- A history that is too large is put aside first.
unfoldable pub open_history : Bool → HistoryFiles → History
open_history renames h =
    let fresh : HistoryFiles = record { content = []; previous = some h.content } in
    let files' = if ltb history_limit (length h.content) && renames then fresh else h in
    record { files = files'; broken = false }

-- What the calls before the loop give: whether there is a folder, and the file opens.
pub record Setup : Type 0 where
  pub listens : Bool
  pub dials : Bool
  pub has_folder : Bool
  pub renames : Bool
  pub opens : Bool

-- `runVDL2Forward`, over the history that is on disk.
unfoldable pub run_vdl2_forward :
    (ℕ → Str → Option Str) → Setup → List Event → Stats → HistoryFiles → Ending × Vdl2Relay
run_vdl2_forward entry s events st h =
    let opened = if s.has_folder && s.opens then some (open_history s.renames h) else none in
    if not s.listens
    then (not_listening, record { stats = st; history = none })
    else if not s.dials
    then (not_dialled, record { stats = st; history = none })
    else relay_loop entry events (record { stats = st; history = opened })
