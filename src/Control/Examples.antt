-- ===== src/Control/Examples.antt =====
-- A reply with settings and commands, and instances of the theorems on the control of the agent.
use flightpatch.Common.{true, false, [], ◌∷◌, ◌++◌, none, some, ◌≡◌, refl}
use flightpatch.Config.{
  DeviceConfig, find_role, role_adsb, role_vdl2, role_for, zero_config, set_role,
}
use flightpatch.Control.Beats.{accounted, run_beats, run_beats-accounted, BeatOf, beat-executed}
use flightpatch.Control.Push.{IsPush, role_for-apply_config, apply_config_again}
use flightpatch.Control.{
  text, object, Fields, end, field, apply_config, push_config, push_text, push_roles, enabled_after,
  lookup, Response, Weather, Agent, beat, up_to_date, on_reply, run_commands, handle_command,
}
use flightpatch.Text.{Str, codes, str_eq}

abbrev port_1 : Str
port_1 = codes "port-1"

abbrev pushed : Fields
pushed =
    field (codes "feed") (text (codes "feed.example:30004"))
      (field (codes "roles") (object (field port_1 (text role_adsb) end)) end)

abbrev confirmed : DeviceConfig
confirmed = record zero_config { local_roles = record { serial = port_1; role = role_vdl2 } ∷ [] }

found : find_role confirmed.local_roles port_1 ≡ some role_vdl2
unfolding find_role str_eq
found = refl

role_for-apply_config_example : role_for (apply_config (some pushed) confirmed).0 port_1 ≡ role_vdl2
role_for-apply_config_example = role_for-apply_config (some pushed) confirmed port_1 found

is_push : IsPush pushed
unfolding lookup str_eq
is_push = (refl, tt)

apply_config_again_example :
    apply_config (some pushed) (apply_config (some pushed) confirmed).0
    ≡ ((apply_config (some pushed) confirmed).0, [])
apply_config_again_example = apply_config_again pushed confirmed is_push

-- The server pauses the agent and pushes a setting in the same reply.
abbrev paused : Response
paused = record {
  enabled = false;
  config = some pushed;
  commands =
      record { id = 7; cmd = codes "restart" } ∷ (record { id = 8; cmd = codes "enable" } ∷ []);
}

abbrev refused : Weather
refused = record { reply = some paused; update = up_to_date; ack_ok = false }

abbrev answered : Weather
answered = record {
  reply = some (record { enabled = true; config = none; commands = [] });
  update = up_to_date;
  ack_ok = true;
}

abbrev agent : Agent
agent = record { cfg = confirmed; enabled = true; acked = 5 ∷ [] }

pause_is_undone : (beat refused agent).agent.enabled ≡ true
unfolding beat on_reply run_commands handle_command apply_config push_config push_text push_roles
    enabled_after lookup str_eq set_role
pause_is_undone = refl

run_beats-accounted_example :
    accounted (run_beats (refused ∷ answered ∷ []) agent)
    ≡ agent.acked ++ (run_beats (refused ∷ answered ∷ []) agent).executed
run_beats-accounted_example = run_beats-accounted (refused ∷ answered ∷ []) agent

beat-executed_example : BeatOf refused agent refused.reply
beat-executed_example = beat-executed refused agent
