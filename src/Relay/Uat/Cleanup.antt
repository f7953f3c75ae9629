-- ===== src/Relay/Uat/Cleanup.antt =====
-- What `runUAT` of agent/uat.go leaves running, open and marked.
use mathlib.Core.Path.{subst}
use flightpatch.Common.{
  ℕ, ◌+◌, Bool, true, false, List, [], ◌∷◌, ◌++◌, Option, none, some, if◌then◌else◌, if_case,
  option_case, length, ◌≡◌, refl, sym, ap, ◌∙◌, ◌<◌, arith,
}
use flightpatch.Beast.{avr_to_beast, beast_receiver_frame}
use flightpatch.Decoders.{Dongle, key, receiver_identity}
use flightpatch.Relay.Uat.{
  not_started, Pipeline, Outcomes, Run, find_paths, start_all, relay_lines, mark_down, send_all,
  dial_uat, hang_up, clean_up, Process, spawn, kill, kill_all, commands, run_pipeline, run_uat,
}
use flightpatch.Relay.{Dialled, connected, cancelled, dialling, dial_loop, Write, sent}
use flightpatch.Stats.Links.{IsValid, tcp, is_up, set_link-IsValid}
use flightpatch.Stats.{Stats, set_connected, add_bytes, notify}
use flightpatch.Text.Decimal.{decimal}
use flightpatch.Text.{Str}

abbrev pub IsDown : Stats → Type 0
IsDown st = IsValid st × (is_up tcp st.links ≡ false)

-- Nothing is left behind: the processes are those before, the connections too, and the link is down.
-- While the call dials, its processes may run.
abbrev pub Left : List Process → ℕ → Run → Type 0
Left ps n (some e, p) = (p.processes ≡ ps) × (p.open_count ≡ n) × IsDown p.stats
Left ps n (none, p) = (p.open_count ≡ n) × IsDown p.stats

-- The same with the link in any state, of a call that has ended.
abbrev Ended : List Process → ℕ → Run → Type 0
Ended ps n (some e, p) = (p.processes ≡ ps) × (p.open_count ≡ n) × IsValid p.stats
Ended ps n (none, p) = ⊥

add_bytes-IsValid : (st : Stats) (n : ℕ) → IsValid st → IsValid (add_bytes st n)
unfolding add_bytes notify
add_bytes-IsValid st n h = record {
  mask = ground (arith, h.mask);
  reported = ground (arith, h.reported);
}

relay_lines-Ended :
    (scans : Bool) (lines : List (Str × Write)) (frames : ℕ) (p : Pipeline)
    → IsValid p.stats
    → Ended p.processes p.open_count (relay_lines scans lines frames p)
unfolding relay_lines
relay_lines-Ended scans [] frames p h = (refl, refl, h)
relay_lines-Ended scans ((line, w) ∷ rest) frames p h =
    option_case (Ended p.processes p.open_count) (avr_to_beast line)
      (λ _. relay_lines-Ended scans rest frames p h)
      (λ frame _.
        let st = add_bytes p.stats (length (sent w frame)) in
        let p' : Pipeline = record p { stats = st; sent_bytes = p.sent_bytes ++ sent w frame } in
        let valid = add_bytes-IsValid p.stats (length (sent w frame)) h in
        if_case (Ended p.processes p.open_count) w.works
          (λ _. relay_lines-Ended scans rest (frames + 1) p' valid) (λ _. (refl, refl, valid)))

mark_down-Left : (ps : List Process) (n : ℕ) (r : Run) → Ended ps n r → Left ps n (mark_down r)
unfolding set_connected
mark_down-Left ps n (some e, p) h =
    let (valid, ups) = set_link-IsValid p.stats tcp false h.2 in (h.0, h.1, (valid, ups tcp))
mark_down-Left ps n (none, p) h = absurd h

send_all-Left :
    (receiver_id : Str) (o : Outcomes) (p : Pipeline)
    → IsDown p.stats
    → Left p.processes p.open_count (send_all receiver_id o p)
unfolding send_all set_connected
send_all-Left receiver_id o p h =
    let frame = beast_receiver_frame receiver_id in
    let p' : Pipeline = record p { sent_bytes = p.sent_bytes ++ sent o.greeting frame } in
    let up : Pipeline = record p' { stats = set_connected p'.stats true } in
    if_case (Left p.processes p.open_count) o.greeting.works
      (λ _.
        mark_down-Left p.processes p.open_count (relay_lines o.scans o.lines 0 up)
          (relay_lines-Ended o.scans o.lines 0 up (set_link-IsValid p.stats tcp true h.0).0))
      (λ _. (refl, refl, h))

hang_up-Left : (ps : List Process) (n : ℕ) (r : Run) → Left ps (n + 1) r → Left ps n (hang_up r)
hang_up-Left ps n (some e, p) h = (h.0, omega (arith, h.1), h.2)
hang_up-Left ps n (none, p) h = (omega (arith, h.0), h.1)

dial_uat-Left :
    (receiver_id : Str) (o : Outcomes) (d : Dialled) (p : Pipeline)
    → IsDown p.stats
    → Left p.processes p.open_count (dial_uat receiver_id o d p)
unfolding dial_uat
dial_uat-Left receiver_id o connected p h =
    let p' : Pipeline = record p { open_count = p.open_count + 1 } in
    hang_up-Left p.processes p.open_count (send_all receiver_id o p')
      (send_all-Left receiver_id o p' h)
dial_uat-Left receiver_id o cancelled p h = (refl, refl, h)
dial_uat-Left receiver_id o dialling p h = (refl, h)

-- Each of the processes has an id below the next one.
abbrev pub AllBelow : ℕ → List Process → Type 0
AllBelow n [] = Unit
AllBelow n ((k, command) ∷ ps) = (k < n) × AllBelow n ps

spawn-AllBelow :
    (n : ℕ) (ps : List Process) (command : List Str)
    → AllBelow n ps
    → AllBelow (n + 1) (ps ++ (n, command) ∷ [])
spawn-AllBelow n [] command h = (omega arith, tt)
spawn-AllBelow n ((k, c) ∷ ps) command h = (omega (arith, h.0), spawn-AllBelow n ps command h.1)

-- A process that was just started is killed alone.
kill-spawned :
    (n : ℕ) (ps : List Process) (command : List Str)
    → AllBelow n ps
    → kill n (ps ++ (n, command) ∷ []) ≡ ps
unfolding kill
kill-spawned n [] command h = ground arith
kill-spawned n ((k, c) ∷ ps) command h =
    let other : k < n = h.0 in ground (arith, kill-spawned n ps command h.1)

kill-kill : (a b : ℕ) (ps : List Process) → kill a (kill b ps) ≡ kill b (kill a ps)
unfolding kill
kill-kill a b [] = refl
kill-kill a b ((k, c) ∷ ps) = ground (arith, kill-kill a b ps)

kill_all-kill :
    (ids : List ℕ) (a : ℕ) (ps : List Process) → kill_all ids (kill a ps) ≡ kill a (kill_all ids ps)
unfolding kill_all
kill_all-kill [] a ps = refl
kill_all-kill (b ∷ ids) a ps =
    ap (kill_all ids) (kill-kill b a ps) ∙ kill_all-kill ids a (kill b ps)

-- Starting commands changes only what runs, and killing what it gives undoes that.
abbrev Undone : Pipeline → Bool × (List ℕ × Pipeline) → Type 0
Undone p (ok, (started, p')) =
    (kill_all started p'.processes ≡ p.processes)
    × (p'.open_count ≡ p.open_count)
    × (p'.stats ≡ p.stats)

start_all-Undone :
    (starts : Str → Bool) (cmds : List (List Str)) (p : Pipeline)
    → AllBelow p.spawned p.processes
    → Undone p (start_all starts cmds p)
unfolding start_all kill_all
start_all-Undone starts [] p h = (refl, refl, refl)
start_all-Undone starts ([] ∷ rest) p h = start_all-Undone starts rest p h
start_all-Undone starts ((path ∷ args) ∷ rest) p h =
    let q = spawn (path ∷ args) p in
    let (ok, (started, p')) = start_all starts rest q in
    let below = spawn-AllBelow p.spawned p.processes (path ∷ args) h in
    let (undone, same_count, same_stats) = start_all-Undone starts rest q below in
    if_case (Undone p) (starts path)
      (λ _. (
        kill_all-kill started p.spawned p'.processes
            ∙ ap (kill p.spawned) undone
            ∙ kill-spawned p.spawned p.processes (path ∷ args) h,
        same_count,
        same_stats,
      ))
      (λ _. (refl, refl, refl))

clean_up-Left :
    (started : List ℕ) (before ps : List Process) (n : ℕ) (r : Run)
    → kill_all started ps ≡ before
    → Left ps n r
    → Left before n (clean_up started r)
clean_up-Left started before ps n (some e, p) u h = (ap (kill_all started) h.0 ∙ u, h.1, h.2)
clean_up-Left started before ps n (none, p) u h = h

run_pipeline-Left :
    (receiver_id : Str) (o : Outcomes) (cmds : List (List Str)) (p : Pipeline)
    → AllBelow p.spawned p.processes
    → IsDown p.stats
    → Left p.processes p.open_count (run_pipeline receiver_id o cmds p)
unfolding run_pipeline
run_pipeline-Left receiver_id o cmds p below h =
    let (ok, (started, p')) = start_all o.starts cmds p in
    let (undone, same_count, same_stats) = start_all-Undone o.starts cmds p below in
    let down : IsDown p'.stats = subst IsDown (sym same_stats) h in
    let r : Run =
      if ok then dial_uat receiver_id o (dial_loop o.feed) p' else (some not_started, p') in
    let left : Left p'.processes p'.open_count r =
      if_case (Left p'.processes p'.open_count) ok
        (λ _. dial_uat-Left receiver_id o (dial_loop o.feed) p' down) (λ _. (refl, refl, down)) in
    clean_up-Left started p.processes p'.processes p.open_count r undone
      (subst (λ n. Left p'.processes n r) same_count left)

-- However a UAT pipeline ends that began with the link down, and with processes whose ids are below
-- the next one, just the processes run that ran before: each one that it started is killed, and no
-- other. No connection is left open, and the link is down; while it dials, it has no connection and
-- the link is down.
pub run_uat-Left :
    (sha256 : Str → Str) (exe_path : Str → Option Str) (names : List Str) (device_id gain : Str)
    (d : Dongle) (o : Outcomes) (p : Pipeline)
    → AllBelow p.spawned p.processes
    → IsDown p.stats
    → Left p.processes p.open_count (run_uat sha256 exe_path names device_id gain d o p)
unfolding run_uat
run_uat-Left sha256 exe_path names device_id gain d o p below h =
    let receiver_id = (receiver_identity sha256 device_id (key d)).0 in
    let paths = (find_paths exe_path names).1 in
    option_case (Left p.processes p.open_count) (find_paths exe_path names).0
      (λ _.
        if_case (Left p.processes p.open_count) o.pipes
          (λ _. run_pipeline-Left receiver_id o (commands (decimal d.index) gain paths) p below h)
          (λ _. (refl, refl, h)))
      (λ name _. (refl, refl, h))
