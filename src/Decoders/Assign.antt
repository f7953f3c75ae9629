-- ===== src/Decoders/Assign.antt =====
-- The roles of the dongles: `assignRoles` and `probeRole` of agent/decoders.go, with the names of the
-- programs. Whether `exePath` finds a program, and whether a probe hears VDL2, are parameters.
use flightpatch.Common.{Bool, true, false, ◌&&◌, not, List, [], ◌∷◌, if◌then◌else◌}
use flightpatch.Config.{DeviceConfig, role_adsb, role_uat, role_vdl2, role_off, role_for, set_role}
use flightpatch.Decoders.{Dongle, key, RoleAssignment}
use flightpatch.Text.{Str, codes, str_eq, is_empty}

abbrev pub adsb_exe_name : Bool → Str
adsb_exe_name is_windows = if is_windows then codes "dump1090.exe" else codes "dump1090"

abbrev pub vdl2_exe_name : Bool → Str
vdl2_exe_name is_windows = if is_windows then codes "dumpvdl2.exe" else codes "dumpvdl2"

abbrev pub uat_exe_names : Bool → List Str
uat_exe_names is_windows =
    if is_windows
    then codes "rtl_sdr.exe" ∷ (codes "dump978.exe" ∷ (codes "uat2esnt.exe" ∷ []))
    else codes "rtl_sdr" ∷ (codes "dump978" ∷ (codes "uat2esnt" ∷ []))

unfoldable pub all_found : (Str → Bool) → List Str → Bool
all_found found [] = true
all_found found (name ∷ names) = found name && all_found found names

unfoldable pub uat_available : (Str → Bool) → Bool → Bool
unfolding all_found
uat_available found is_windows = all_found found (uat_exe_names is_windows)

-- The decoders that are at hand.
pub record Bundle : Type 0 where
  pub adsb : Bool
  pub vdl2 : Bool
  pub uat : Bool

unfoldable pub bundle_of : (Str → Bool) → Bool → Bundle
bundle_of found is_windows = record {
  adsb = found (adsb_exe_name is_windows);
  vdl2 = found (vdl2_exe_name is_windows);
  uat = uat_available found is_windows;
}

-- `probeRole`, by whether the VDL2 decoder decoded a line.
abbrev pub probe_role : Bool → Str
probe_role heard = if heard then role_vdl2 else role_adsb

-- The switch for one dongle: its role, and whether it was probed.
unfoldable pub choose : Bundle → Str → Str → Bool → Str × Bool
choose b default_role configured heard =
    if not (is_empty configured)
    then (configured, false)
    else if str_eq default_role role_adsb && b.adsb
    then (role_adsb, false)
    else if str_eq default_role role_vdl2 && b.vdl2
    then (role_vdl2, false)
    else if str_eq default_role role_uat && b.uat
    then (role_uat, false)
    else if b.adsb && not b.vdl2
    then (role_adsb, false)
    else if b.vdl2 && not b.adsb
    then (role_vdl2, false)
    else if b.adsb && b.vdl2
    then (probe_role heard, true)
    else (role_off, false)

-- The role is recorded unless it is off; the flag says whether the settings are saved.
unfoldable pub settle : DeviceConfig → Str → Str → DeviceConfig × Bool
settle c k role =
    let recorded = set_role c k role in if str_eq role role_off then (c, false) else recorded

-- The settings at the end, the assignments, the keys of the dongles that were probed, and the
-- settings that were saved.
pub record Assigning : Type 0 where
  pub cfg : DeviceConfig
  pub out : List RoleAssignment
  pub probed : List Str
  pub saved : List DeviceConfig

unfoldable pub assign_roles : Bundle → (Dongle → Bool) → List Dongle → DeviceConfig → Assigning
assign_roles b heard [] c = record { cfg = c; out = []; probed = []; saved = [] }
assign_roles b heard (d ∷ ds) c =
    let (role, probes) = choose b c.default_role (role_for c (key d)) (heard d) in
    let (c', changed) = settle c (key d) role in
    let rest = assign_roles b heard ds c' in
    record {
      cfg = rest.cfg;
      out = (record { dongle = d; role = role }) ∷ rest.out;
      probed = if probes then key d ∷ rest.probed else rest.probed;
      saved = if changed then c' ∷ rest.saved else rest.saved;
    }
