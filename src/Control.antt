-- ===== src/Control.antt =====
-- What the server can do to a running agent: agent/main.go `applyConfig`, `handleCommand` and the
-- beat of `phoneHome`. A reply of the server and the outcome of each request are inputs.
pub mod Push
pub mod Bounced
pub mod Beats
pub mod Home
mod Examples
use flightpatch.Common.{
  ℕ, Bool, true, false, not, ◌&&◌, ◌||◌, List, [], ◌∷◌, ◌++◌, Option, none, some, if◌then◌else◌,
}
use flightpatch.Config.{DeviceConfig, set_role}
use flightpatch.Text.{Str, codes, str_eq, is_empty}

-- A decoded JSON value, as far as the type assertions of the agent tell values apart.
mutual
  pub data Value : Type 0 where
    text : Str → Value
    object : Fields → Value
    other : Value

  -- A map, in the order in which a loop visits it.
  pub data Fields : Type 0 where
    end : Fields
    field : Str → Value → Fields → Fields

unfoldable pub lookup : Fields → Str → Option Value
lookup end k = none
lookup (field j v fs) k = if str_eq j k then some v else lookup fs k

-- `m[k].(string)` and `m[k].(map[string]any)`
abbrev pub as_text : Option Value → Option Str
as_text none = none
as_text (some (text s)) = some s
as_text (some (object fs)) = none
as_text (some other) = none

abbrev pub as_object : Option Value → Option Fields
as_object none = none
as_object (some (text s)) = none
as_object (some (object fs)) = some fs
as_object (some other) = none

-- `if v, ok := …; ok && v != "" && v != cur`
unfoldable pub push_text : Option Str → Str → Str × Bool
push_text none cur = (cur, false)
push_text (some v) cur = if not (is_empty v) && not (str_eq v cur) then (v, true) else (cur, false)

-- The loop over the pushed roles; values that are no strings are passed over.
unfoldable pub push_roles : Fields → DeviceConfig → DeviceConfig × Bool
push_roles end c = (c, false)
push_roles (field serial (text role) fs) c =
    let (c', changed) = set_role c serial role in
    let (c'', later) = push_roles fs c' in (c'', changed || later)
push_roles (field serial (object o) fs) c = push_roles fs c
push_roles (field serial other fs) c = push_roles fs c

abbrev pub push_object : Option Fields → DeviceConfig → DeviceConfig × Bool
push_object none c = (c, false)
push_object (some roles) c = push_roles roles c

-- What the agent does beside changing its settings in memory.
pub data Action : Type 0 where
  save : DeviceConfig → Action
  set_enabled : Bool → Action
  sleep_ms : ℕ → Action

abbrev all_pushed : DeviceConfig × Bool → Bool → DeviceConfig × Bool
all_pushed (c, changed) before = (c, before || changed)

-- The settings after a push, and whether any changed.
unfoldable pub push_config : Fields → DeviceConfig → DeviceConfig × Bool
unfolding lookup push_text push_roles
push_config m c =
    let (feed, changed1) = push_text (as_text (lookup m (codes "feed"))) c.feed in
    let (vdl2_feed, changed2) = push_text (as_text (lookup m (codes "vdl2_feed"))) c.vdl2_feed in
    let (gain, changed3) = push_text (as_text (lookup m (codes "gain"))) c.gain in
    let c' : DeviceConfig = record c { feed = feed; vdl2_feed = vdl2_feed; gain = gain } in
    all_pushed (push_object (as_object (lookup m (codes "roles"))) c')
      (changed1 || (changed2 || changed3))

abbrev pub bounce : DeviceConfig → List Action
bounce c = save c ∷ set_enabled false ∷ sleep_ms 1500 ∷ set_enabled true ∷ []

-- `applyConfig`: a changed setting is saved, and the decoders are bounced.
unfoldable pub apply_config : Option Fields → DeviceConfig → DeviceConfig × List Action
apply_config none c = (c, [])
apply_config (some m) c =
    let (c', changed) = push_config m c in (c', if changed then bounce c' else [])

-- The enabled flag of the decoder manager behind a row of actions.
unfoldable pub enabled_after : List Action → Bool → Bool
enabled_after [] enabled = enabled
enabled_after (save c ∷ rest) enabled = enabled_after rest enabled
enabled_after (set_enabled b ∷ rest) enabled = enabled_after rest b
enabled_after (sleep_ms n ∷ rest) enabled = enabled_after rest enabled

-- An id is only copied, so its 64 bits may be any number.
pub record Command : Type 0 where
  pub id : ℕ
  pub cmd : Str

-- What `checkUpdate` and `selfUpdate` come to: an error of either, no newer release, or a new
-- executable in place.
pub data UpdateOutcome : Type 0 where
  failed up_to_date staged : UpdateOutcome

abbrev pub is_staged : UpdateOutcome → Bool
is_staged staged = true
is_staged failed = false
is_staged up_to_date = false

-- `handleCommand`: the enabled flag afterwards, and whether the service is to relaunch.
unfoldable pub handle_command : UpdateOutcome → Command → Bool → Bool × Bool
handle_command update c enabled =
    if str_eq c.cmd (codes "enable")
    then (true, false)
    else if str_eq c.cmd (codes "disable")
    then (false, false)
    else if str_eq c.cmd (codes "restart")
    then (enabled, true)
    else if str_eq c.cmd (codes "update")
    then (enabled, is_staged update)
    else (enabled, false)

pub record Response : Type 0 where
  pub enabled : Bool
  pub config : Option Fields
  pub commands : List Command

-- The variables of `phoneHome` that outlive a beat, with the manager's flag.
pub record Agent : Type 0 where
  pub cfg : DeviceConfig
  pub enabled : Bool
  pub acked : List ℕ

-- What a beat meets: the server's reply, the outcome of an update, and whether the request that
-- acknowledges a restart gets through.
pub record Weather : Type 0 where
  pub reply : Option Response
  pub update : UpdateOutcome
  pub ack_ok : Bool

-- How a beat ends: `delivered` are the ids in the requests that got through, `executed` those of
-- the commands that were run, `exited` says that the process exits for its restart.
pub record Beat : Type 0 where
  pub agent : Agent
  pub delivered : List ℕ
  pub executed : List ℕ
  pub exited : Bool

abbrev pub relaunch : Agent → ℕ → Bool → Beat
relaunch a id true = record { agent = a; delivered = a.acked; executed = id ∷ []; exited = true }
relaunch a id false = record { agent = a; delivered = []; executed = id ∷ []; exited = false }

-- The loop over the commands; it is left by the first that asks for a relaunch.
unfoldable pub run_commands : Weather → List Command → Agent → Beat
run_commands w [] a = record { agent = a; delivered = []; executed = []; exited = false }
run_commands w (c ∷ cs) a =
    let (enabled, restart) = handle_command w.update c a.enabled in
    let a' : Agent = record a { enabled = enabled; acked = a.acked ++ (c.id ∷ []) } in
    let last = relaunch a' c.id w.ack_ok in
    let later = run_commands w cs a' in
    let on = record later { executed = c.id ∷ later.executed } in if restart then last else on

-- A beat whose request got through: the ids in it are dropped from the list, the settings are
-- taken over, and the commands are run.
unfoldable pub on_reply : Weather → Response → Agent → Beat
unfolding apply_config enabled_after
on_reply w r a =
    let (cfg, actions) = apply_config r.config a.cfg in
    let enabled = enabled_after actions r.enabled in
    let b = run_commands w r.commands (record { cfg = cfg; enabled = enabled; acked = [] }) in
    record b { delivered = a.acked ++ b.delivered }

unfoldable pub beat : Weather → Agent → Beat
unfolding on_reply run_commands handle_command
beat w a = elim w.reply [
  | none ↦ record { agent = a; delivered = []; executed = []; exited = false }
  | some r ↦ on_reply w r a
]
