-- ===== src/Control/Beats.antt =====
-- What a beat does with the commands and the acknowledgements.
use flightpatch.Common.{
  ℕ, Bool, true, false, ◌&&◌, ◌||◌, List, [], ◌∷◌, ◌++◌, Option, none, some, if◌then◌else◌, ◌≡◌,
  refl, sym, ap, ◌∙◌, arith, inl, inr, Bool-cases, append-nil, append_assoc,
}
use flightpatch.Control.{
  is_staged, Command, UpdateOutcome, handle_command, Response, Agent, Weather, Beat, relaunch,
  run_commands, on_reply, beat, apply_config, enabled_after,
}
use flightpatch.Text.Laws.{str_eq_iff}
use flightpatch.Text.{codes, str_eq}

-- The ids in delivered requests and those still to be sent, in order.
abbrev pub accounted : Beat → List ℕ
accounted b = if b.exited then b.delivered else b.delivered ++ b.agent.acked

relaunch-accounted :
    (xs : List ℕ) (id : ℕ) (ok : Bool) (a : Agent)
    → a.acked ≡ xs ++ (id ∷ [])
    → accounted (relaunch a id ok) ≡ xs ++ (relaunch a id ok).executed
relaunch-accounted xs id true a e = e
relaunch-accounted xs id false a e = e

run_commands-accounted :
    (w : Weather) (cs : List Command) (a : Agent)
    → accounted (run_commands w cs a) ≡ a.acked ++ (run_commands w cs a).executed
unfolding run_commands
run_commands-accounted w [] a = sym (append-nil a.acked)
run_commands-accounted w (c ∷ cs) a =
    let a' : Agent = record a {
      enabled = (handle_command w.update c a.enabled).0;
      acked = a.acked ++ (c.id ∷ []);
    } in
    elim (Bool-cases (handle_command w.update c a.enabled).1) [
      | inl restart ↦ rw restart (relaunch-accounted a.acked c.id w.ack_ok a' refl)
      | inr on ↦ rw on (
          run_commands-accounted w cs a'
          ∙ append_assoc a.acked (c.id ∷ []) (run_commands w cs a').executed)
    ]

sent_before :
    (b : Beat) (ids : List ℕ)
    → accounted (record b { delivered = ids ++ b.delivered }) ≡ ids ++ accounted b
sent_before b ids = elim (Bool-cases b.exited) [
  | inl e ↦ rw e
  | inr e ↦ rw e (append_assoc ids b.delivered b.agent.acked)
]

on_reply-accounted :
    (w : Weather) (r : Response) (a : Agent)
    → accounted (on_reply w r a) ≡ a.acked ++ (on_reply w r a).executed
unfolding on_reply
on_reply-accounted w r a =
    let (cfg, actions) = apply_config r.config a.cfg in
    let a' : Agent = record { cfg = cfg; enabled = enabled_after actions r.enabled; acked = [] } in
    let b = run_commands w r.commands a' in
    sent_before b a.acked ∙ ap (λ e. a.acked ++ e) (run_commands-accounted w r.commands a')

beat_with :
    (w : Weather) (a : Agent) (reply : Option Response)
    → w.reply ≡ reply
    → accounted (beat w a) ≡ a.acked ++ (beat w a).executed
unfolding beat
beat_with w a none e = rw (e, beat) (sym (append-nil a.acked))
beat_with w a (some r) e = rw (e, beat) (on_reply-accounted w r a)

-- A beat and what follows it; there is nothing behind an exit.
abbrev pub then_beat : Beat → Beat → Beat
then_beat first later =
    let both : Beat = record {
      agent = later.agent;
      delivered = first.delivered ++ later.delivered;
      executed = first.executed ++ later.executed;
      exited = later.exited;
    } in
    if first.exited then first else both

then_beat-accounted :
    (first later : Beat) (waiting : List ℕ)
    → accounted first ≡ waiting ++ first.executed
    → accounted later ≡ first.agent.acked ++ later.executed
    → accounted (then_beat first later) ≡ waiting ++ (then_beat first later).executed
then_beat-accounted first later waiting h k = ground (
  arith,
  append_assoc first.delivered later.delivered later.agent.acked,
  append_assoc first.delivered first.agent.acked later.executed,
  append_assoc waiting first.executed later.executed,
)

-- The loop of `phoneHome`: one beat after the other.
pub run_beats : List Weather → Agent → Beat
run_beats [] a = record { agent = a; delivered = []; executed = []; exited = false }
run_beats (w ∷ ws) a = let b = beat w a in then_beat b (run_beats ws b.agent)

-- No acknowledgement is lost or repeated, in any run of beats, whichever requests fail: the ids that
-- were delivered and those still to be sent are together the ids that were waiting at the start and
-- those of the commands that ran, each once and in order. If the process exits, all are delivered.
pub run_beats-accounted :
    (ws : List Weather) (a : Agent)
    → accounted (run_beats ws a) ≡ a.acked ++ (run_beats ws a).executed
unfolding run_beats
run_beats-accounted [] a = sym (append-nil a.acked)
run_beats-accounted (w ∷ ws) a =
    then_beat-accounted (beat w a) (run_beats ws (beat w a).agent) a.acked
      (beat_with w a w.reply refl) (run_beats-accounted ws (beat w a).agent)

-- Whether a command makes the service relaunch.
abbrev pub wants_relaunch : UpdateOutcome → Command → Bool
wants_relaunch outcome c =
    str_eq c.cmd (codes "restart") || (str_eq c.cmd (codes "update") && is_staged outcome)

abbrev pub any_relaunch : UpdateOutcome → List Command → Bool
any_relaunch outcome [] = false
any_relaunch outcome (c ∷ cs) = wants_relaunch outcome c || any_relaunch outcome cs

-- The commands up to the first that makes the service relaunch, with it.
pub up_to_relaunch : UpdateOutcome → List Command → List ℕ
up_to_relaunch outcome [] = []
up_to_relaunch outcome (c ∷ cs) =
    c.id ∷ (if wants_relaunch outcome c then [] else up_to_relaunch outcome cs)

handle_command-relaunch :
    (outcome : UpdateOutcome) (c : Command) (enabled : Bool)
    → (handle_command outcome c enabled).1 ≡ wants_relaunch outcome c
unfolding handle_command
handle_command-relaunch outcome c enabled = ground (
  arith,
  str_eq_iff c.cmd (codes "enable"),
  str_eq_iff c.cmd (codes "disable"),
  str_eq_iff c.cmd (codes "restart"),
  str_eq_iff c.cmd (codes "update"),
)

run_commands_lem :
    (w : Weather) (cs : List Command) (a : Agent)
    → ((run_commands w cs a).exited ≡ (any_relaunch w.update cs && w.ack_ok))
      × ((run_commands w cs a).executed ≡ up_to_relaunch w.update cs)
unfolding run_commands up_to_relaunch
run_commands_lem w [] a = (refl, refl)
run_commands_lem w (c ∷ cs) a =
    let a' : Agent = record a {
      enabled = (handle_command w.update c a.enabled).0;
      acked = a.acked ++ (c.id ∷ []);
    } in
    ground (arith, handle_command-relaunch w.update c a.enabled, run_commands_lem w cs a')

-- What a beat does, by the reply that it gets.
abbrev pub BeatOf : Weather → Agent → Option Response → Type 0
BeatOf w a none = ((beat w a).executed ≡ []) × ((beat w a).exited ≡ false) × ((beat w a).agent ≡ a)
BeatOf w a (some r) =
    ((beat w a).executed ≡ up_to_relaunch w.update r.commands)
    × ((beat w a).exited ≡ (any_relaunch w.update r.commands && w.ack_ok))

on_reply_lem :
    (w : Weather) (r : Response) (a : Agent)
    → ((on_reply w r a).executed ≡ up_to_relaunch w.update r.commands)
      × ((on_reply w r a).exited ≡ (any_relaunch w.update r.commands && w.ack_ok))
unfolding on_reply
on_reply_lem w r a =
    let (cfg, actions) = apply_config r.config a.cfg in
    let a' : Agent = record { cfg = cfg; enabled = enabled_after actions r.enabled; acked = [] } in
    let (exited, executed) = run_commands_lem w r.commands a' in (executed, exited)

beat_of : (w : Weather) (a : Agent) (reply : Option Response) → w.reply ≡ reply → BeatOf w a reply
unfolding beat
beat_of w a none e = (rw (e, beat), rw (e, beat), rw (e, beat))
beat_of w a (some r) e = (rw (e, beat) (on_reply_lem w r a).0, rw (e, beat) (on_reply_lem w r a).1)

-- A beat whose request got through runs the commands in the order of the reply, up to the first
-- that makes the service relaunch, and no other; the process exits exactly if there is such a
-- command and the request that acknowledges it gets through. A beat whose request failed runs
-- nothing, does not exit and leaves the agent as it was.
pub beat-executed : (w : Weather) (a : Agent) → BeatOf w a w.reply
beat-executed w a = beat_of w a w.reply refl

relaunch-cfg : (a : Agent) (id : ℕ) (ok : Bool) → (relaunch a id ok).agent.cfg ≡ a.cfg
relaunch-cfg a id true = refl
relaunch-cfg a id false = refl

run_commands-cfg :
    (w : Weather) (cs : List Command) (a : Agent) → (run_commands w cs a).agent.cfg ≡ a.cfg
unfolding run_commands
run_commands-cfg w [] a = refl
run_commands-cfg w (c ∷ cs) a =
    let a' : Agent = record a {
      enabled = (handle_command w.update c a.enabled).0;
      acked = a.acked ++ (c.id ∷ []);
    } in
    elim (Bool-cases (handle_command w.update c a.enabled).1) [
      | inl restart ↦ rw restart (relaunch-cfg a' c.id w.ack_ok)
      | inr on ↦ rw on (run_commands-cfg w cs a')
    ]

-- A beat whose request got through leaves the settings as the reply makes them.
pub beat-cfg :
    (w : Weather) (r : Response) (a : Agent)
    → w.reply ≡ some r
    → (beat w a).agent.cfg ≡ (apply_config r.config a.cfg).0
unfolding on_reply beat
beat-cfg w r a e = rw (e, beat) (run_commands-cfg w r.commands _)
