-- ===== src/Relay/Uat.antt =====
-- The UAT pipeline: `runUAT` of agent/uat.go. What the system and the network give is an argument.
pub mod Cleanup
pub mod Received
use flightpatch.Beast.{avr_to_beast, beast_receiver_frame}
use flightpatch.Common.{
  ℕ, ◌+◌, ◌-◌, Bool, true, false, not, List, [], ◌∷◌, ◌++◌, Option, none, some, if◌then◌else◌,
  option_else, length, ◌==◌,
}
use flightpatch.Decoders.{Dongle, key, receiver_identity}
use flightpatch.Relay.{Attempt, Dialled, connected, cancelled, dialling, dial_loop, Write, sent}
use flightpatch.Stats.{Stats, set_connected, add_bytes}
use flightpatch.Text.Decimal.{decimal}
use flightpatch.Text.{Str, codes}

pub data UatError : Type 0 where
  not_found : Str → UatError
  no_pipe not_started not_dialled not_greeted not_written not_scanned : UatError
  pipeline_ended : ℕ → UatError

-- A process, by its id, and its command line.
abbrev pub Process : Type 0
Process = ℕ × List Str

-- The counters, the processes that run or were not waited for, the next id of a process, the connections to the feed that
-- are open, and what was sent on them.
pub record Pipeline : Type 0 where
  pub stats : Stats
  pub processes : List Process
  pub spawned : ℕ
  pub open_count : ℕ
  pub sent_bytes : Str

-- What the calls give: whether the pipes are made, which command starts (by its path), the dial, the
-- write of the identity, the lines that are scanned with the write of each, and the scanner's end.
pub record Outcomes : Type 0 where
  pub pipes : Bool
  pub starts : Str → Bool
  pub feed : List Attempt
  pub greeting : Write
  pub lines : List (Str × Write)
  pub scans : Bool

-- No error so far (none) only while it dials.
abbrev pub Run : Type 0
Run = Option UatError × Pipeline

-- The loop over the names; the first that is missing is the error.
unfoldable pub find_paths : (Str → Option Str) → List Str → Option Str × List Str
find_paths exe_path [] = (none, [])
find_paths exe_path (name ∷ rest) =
    let (missing, paths) = find_paths exe_path rest in
    elim (exe_path name) [ none ↦ (some name, []) | some p ↦ (missing, p ∷ paths) ]

-- `Start` of a command.
abbrev pub spawn : List Str → Pipeline → Pipeline
spawn command p = record p {
  processes = p.processes ++ (p.spawned, command) ∷ [];
  spawned = p.spawned + 1;
}

-- The loop that starts the commands, up to one that does not start; it gives `started`, the
-- processes that are to be killed.
unfoldable pub start_all : (Str → Bool) → List (List Str) → Pipeline → Bool × (List ℕ × Pipeline)
start_all starts [] p = (true, ([], p))
start_all starts ([] ∷ rest) p = start_all starts rest p
start_all starts ((path ∷ args) ∷ rest) p =
    let (ok, (started, p')) = start_all starts rest (spawn (path ∷ args) p) in
    if starts path then (ok, (p.spawned ∷ started, p')) else (false, ([], p))

-- `Kill` and `Wait` of a process, on the processes that run.
unfoldable pub kill : ℕ → List Process → List Process
kill id [] = []
kill id ((k, command) ∷ rest) =
    let others = kill id rest in if k == id then others else (k, command) ∷ others

-- The loop of `cleanup`.
unfoldable pub kill_all : List ℕ → List Process → List Process
kill_all [] ps = ps
kill_all (id ∷ ids) ps = kill_all ids (kill id ps)

-- The loop over the scanned lines; one that does not convert is passed over.
unfoldable pub relay_lines : Bool → List (Str × Write) → ℕ → Pipeline → Run
relay_lines scans [] frames p = (some (if scans then pipeline_ended frames else not_scanned), p)
relay_lines scans ((line, w) ∷ rest) frames p =
    let skip = relay_lines scans rest frames p in
    option_else (avr_to_beast line) skip (λ frame.
      let p' : Pipeline = record p {
        stats = add_bytes p.stats (length (sent w frame));
        sent_bytes = p.sent_bytes ++ sent w frame;
      } in
      let more = relay_lines scans rest (frames + 1) p' in
      if w.works then more else (some not_written, p'))

-- The deferred calls: the connection is closed, and the link marked down.
abbrev pub hang_up : Run → Run
hang_up (e, p) = (e, record p { open_count = p.open_count - 1 })

abbrev pub mark_down : Run → Run
mark_down (e, p) = (e, record p { stats = set_connected p.stats false })

-- The part with the connection.
unfoldable pub send_all : Str → Outcomes → Pipeline → Run
send_all receiver_id o p =
    let frame = beast_receiver_frame receiver_id in
    let p' : Pipeline = record p { sent_bytes = p.sent_bytes ++ sent o.greeting frame } in
    let relayed =
      relay_lines o.scans o.lines 0 (record p' { stats = set_connected p'.stats true }) in
    if o.greeting.works then mark_down relayed else (some not_greeted, p')

unfoldable pub dial_uat : Str → Outcomes → Dialled → Pipeline → Run
dial_uat receiver_id o connected p =
    hang_up (send_all receiver_id o (record p { open_count = p.open_count + 1 }))
dial_uat receiver_id o cancelled p = (some not_dialled, p)
dial_uat receiver_id o dialling p = (none, p)

-- The deferred `cleanup`: each process that was started is killed and waited for. While the call
-- dials, they run.
abbrev pub clean_up : List ℕ → Run → Run
clean_up started (none, p) = (none, p)
clean_up started (some e, p) = (some e, record p { processes = kill_all started p.processes })

-- The three command lines, consumers first.
abbrev pub commands : Str → Str → List Str → List (List Str)
commands index gain (rtl ∷ (demod ∷ (convert ∷ rest))) =
    (convert ∷ [])
    ∷ ((demod ∷ [])
        ∷ ((rtl
              ∷ (codes "-d"
                  ∷ (index
                      ∷ (codes "-f"
                          ∷ (codes "978000000"
                              ∷ (codes "-s"
                                  ∷ (codes "2083334"
                                      ∷ (codes "-g" ∷ (gain ∷ (codes "-" ∷ []))))))))))
            ∷ []))
commands index gain _ = []

unfoldable pub run_pipeline : Str → Outcomes → List (List Str) → Pipeline → Run
run_pipeline receiver_id o cmds p =
    let (ok, (started, p')) = start_all o.starts cmds p in
    let dialled = dial_uat receiver_id o (dial_loop o.feed) p' in
    clean_up started (if ok then dialled else (some not_started, p'))

-- `runUAT`: `names` are the programs, `exe_path` and the digest are parameters.
unfoldable pub run_uat :
    (Str → Str) → (Str → Option Str) → List Str → Str → Str → Dongle → Outcomes → Pipeline → Run
run_uat sha256 exe_path names device_id gain d o p =
    let (missing, paths) = find_paths exe_path names in
    let receiver_id = (receiver_identity sha256 device_id (key d)).0 in
    let ran = run_pipeline receiver_id o (commands (decimal d.index) gain paths) p in
    option_else missing (if o.pipes then ran else (some no_pipe, p))
      (λ name. (some (not_found name), p))
