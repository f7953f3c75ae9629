-- ===== src/Config/Examples.antt =====
-- The cases of agent/config_test.go, and instances of the theorems on settings.
use flightpatch.Common.{false, [], ◌∷◌, some, ◌≡◌, refl}
use flightpatch.Config.{
  DeviceConfig, role_adsb, role_vdl2, role_for, apply_default_role, fill_defaults, zero_config,
}
use flightpatch.Text.{Str, codes, str_eq, is_empty}

abbrev port_1 : Str
port_1 = codes "port-1"

abbrev port_2 : Str
port_2 = codes "port-2"

abbrev installed : DeviceConfig
installed = record zero_config {
  default_role = role_adsb;
  roles = record { serial = port_1; role = role_adsb } ∷ [];
}

abbrev confirmed : DeviceConfig
confirmed = record installed { local_roles = record { serial = port_1; role = role_vdl2 } ∷ [] }

local_role_wins : role_for confirmed port_1 ≡ role_vdl2
unfolding role_for str_eq
local_role_wins = refl

same_choice_keeps : (apply_default_role installed role_adsb).roles ≡ installed.roles
unfolding apply_default_role str_eq
same_choice_keeps = refl

other_choice_drops : (apply_default_role installed role_vdl2).roles ≡ []
unfolding apply_default_role str_eq
other_choice_drops = refl

abbrev loaded : DeviceConfig
loaded = fill_defaults (some (codes "/opt/adsbiq")) installed

has_dir : is_empty loaded.decoder_dir ≡ false
unfolding fill_defaults
has_dir = refl
