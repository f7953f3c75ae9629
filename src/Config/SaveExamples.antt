-- ===== src/Config/SaveExamples.antt =====
-- Instances of the theorems on writing the settings.
use flightpatch.Common.{
  false, option_else, get_elem?, true, [], ◌∷◌, ◌++◌, Option, some, none, refl, ◌≡◌, arith, drop,
}
use flightpatch.Config.Save.{
  complete, cut_short, SaveFaults, save, ensure_device_identity, Identified,
  ensure_device_identity-Identified,
}
use flightpatch.Config.Load.{default_config_path, AllLoad, IsStorable, load_config, save-AllLoad}
use flightpatch.Config.Defaults.{IsComplete}
use flightpatch.Config.{DeviceConfig, zero_config, fill_defaults}
use flightpatch.Files.{Files}
use flightpatch.Text.{Str, codes}

abbrev config : DeviceConfig
config = record zero_config { path = codes "agent.json" }

abbrev marshal : DeviceConfig → Option Str
marshal c = some (codes "id=" ++ c.device_id)

abbrev files : Files
files = record { disk = (codes "agent.json", codes "id=") ∷ []; past = [] }

-- The disk is full.
abbrev full : SaveFaults
full = record { makes_dir = true; writes = cut_short (codes "i"); renames = true }

abbrev working : SaveFaults
working = record { makes_dir = true; writes = complete; renames = true }

-- A reading of such a document: what it does not have is at its default.
abbrev unmarshal : Str → DeviceConfig → DeviceConfig
unmarshal b c = record (fill_defaults (some (codes "/opt")) c) { device_id = drop 3 b }

abbrev whole : DeviceConfig
whole = unmarshal (codes "id=dev-1") config

whole_path : whole.path ≡ codes "agent.json"
unfolding fill_defaults
whole_path = refl

whole-IsComplete : IsComplete whole
unfolding fill_defaults
whole-IsComplete = ground arith

whole-IsStorable : IsStorable unmarshal (codes "etc") none whole (codes "id=dev-1")
unfolding fill_defaults
whole-IsStorable = record {
  named = refl;
  complete = whole-IsComplete;
  has_dir = refl;
  decodes = refl;
}

-- The disk is full: the old settings remain.
save-AllLoad_example :
    let result = save marshal full whole files in
    AllLoad unmarshal
      (codes "etc")
      none
      whole.path
      (load_config unmarshal (codes "etc") none whole.path files.disk)
      whole
      (result.1.disk ∷ result.1.past)
    × (result.0 ≡ true → load_config unmarshal (codes "etc") none whole.path result.1.disk ≡ whole)
save-AllLoad_example =
    save-AllLoad unmarshal (codes "etc") none marshal full whole (codes "id=dev-1") files.disk refl
      whole-IsStorable

ensure_device_identity-Identified_example : Identified marshal config (
    ensure_device_identity marshal working
      (some (1 ∷ 2 ∷ []))
      config
      (record { disk = files.disk; past = [] }))
ensure_device_identity-Identified_example =
    ensure_device_identity-Identified marshal working (some (1 ∷ 2 ∷ [])) config files.disk refl

-- Without the variable of the environment the folder is on C:.
windows_path :
    default_config_path (record {
      os = codes "windows";
      program_data = [];
      home = [];
      has_var_lib = false;
      join = λ parts. option_else (get_elem? parts 0) [] (λ base. base);
    })
    ≡ b'C' ∷ (b':' ∷ (92 ∷ codes "ProgramData"))
unfolding default_config_path flightpatch.Text.str_eq
windows_path = refl
