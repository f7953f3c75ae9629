-- ===== src/Config/Load.antt =====
-- `LoadConfig` of agent/config.go, on the disks that `Save` leaves. Decoding JSON into a record, which
-- may end in an error half-way, is a parameter, and so is the default path of the platform.
use flightpatch.Common.{
  Option-cases, Bool-cases, Bool, true, false, List, [], ◌∷◌, ◌++◌, Option, none, some,
  if◌then◌else◌, ◌≡◌, ◌⊎◌, inl, inr, refl, sym, ap, ◌∙◌, arith,
}
use flightpatch.Config.Defaults.{IsComplete, fill_defaults-eq}
use flightpatch.Config.Save.{
  Written, not_created, cut_short, complete, replace, tmp_path, write_file, SaveFaults, save,
  AllIntact, save-Replaced,
}
use flightpatch.Config.{DeviceConfig, zero_config, fill_defaults}
use flightpatch.Dict.{lookup}
use flightpatch.Files.Paths.{Alike, rename-Alike}
use flightpatch.Files.{Disk, Files, write}
use flightpatch.Text.{Str, codes, str_eq, is_empty}

-- What the path of the settings depends on: the environment, the home, and whether /var/lib is there.
pub record Host : Type 0 where
  pub os : Str
  pub program_data : Str
  pub home : Str
  pub has_var_lib : Bool
  pub join : List Str → Str

-- `defaultConfigPath`
unfoldable pub default_config_path : Host → Str
default_config_path h =
    let base = if is_empty h.program_data then codes "C:\\ProgramData" else h.program_data in
    let support = codes "Library" ∷ (codes "Application Support" ∷ (codes "ADSBiq" ∷ [])) in
    let file = codes "agent.json" in
    if str_eq h.os (codes "windows")
    then h.join (base ∷ (codes "ADSBiq" ∷ (file ∷ [])))
    else if str_eq h.os (codes "darwin")
    then h.join (h.home ∷ (support ++ (file ∷ [])))
    else if h.has_var_lib
    then codes "/var/lib/adsbiq/agent.json"
    else h.join (h.home ∷ (codes ".config" ∷ (codes "adsbiq" ∷ (file ∷ []))))

-- A file that is not there or cannot be read leaves the zero value.
abbrev decoded : (Str → DeviceConfig → DeviceConfig) → Option Str → DeviceConfig → DeviceConfig
decoded unmarshal none c = c
decoded unmarshal (some b) c = unmarshal b c

-- The part behind the choice of the path, by what is read there.
unfoldable pub load_from :
    (Str → DeviceConfig → DeviceConfig) → Option Str → Str → Option Str → DeviceConfig
load_from unmarshal exe_dir path content =
    let c = decoded unmarshal content (record zero_config { path = path }) in
    fill_defaults exe_dir (record c { path = path })

-- `LoadConfig`
unfoldable pub load_config :
    (Str → DeviceConfig → DeviceConfig) → Str → Option Str → Str → Disk → DeviceConfig
load_config unmarshal default_path exe_dir path disk =
    let chosen = if is_empty path then default_path else path in
    load_from unmarshal exe_dir chosen (lookup chosen disk)

-- What `Save` does to the disk does not depend on the disks before.
replace-Alike :
    (makes renames : Bool) (writes : Written) (path b : Str) (fs : Files)
    → let w : SaveFaults = record { makes_dir = makes; writes = writes; renames = renames } in
      Alike (replace w path b fs) (replace w path b (record { disk = fs.disk; past = [] }))
unfolding replace write_file write
replace-Alike makes renames not_created path b fs = (refl, refl)
replace-Alike makes renames (cut_short part) path b fs = (refl, refl)
replace-Alike makes renames complete path b fs =
    rename-Alike renames (tmp_path path) path (write true (tmp_path path) b fs).1
      (write true (tmp_path path) b (record { disk = fs.disk; past = [] })).1 refl

save-Alike :
    (marshal : DeviceConfig → Option Str) (w : SaveFaults) (c : DeviceConfig) (fs : Files)
    → Alike (save marshal w c fs) (save marshal w c (record { disk = fs.disk; past = [] }))
unfolding save replace
save-Alike marshal w c fs = elim (Bool-cases w.makes_dir) [
  | inr refused ↦ rw refused (refl, refl)
  | inl made ↦ elim (Option-cases (marshal c)) [
    | inl e ↦ rw made (rw e (refl, refl))
    | inr (b, e) ↦ rw made (rw e (replace-Alike w.makes_dir w.renames w.writes c.path b fs))
  ]
]

module _ (unmarshal : Str → DeviceConfig → DeviceConfig) (default_path : Str)
    (exe_dir : Option Str) where
  abbrev load : Str → Disk → DeviceConfig
  load = load_config unmarshal default_path exe_dir

  load_at :
      (path : Str) (disk : Disk)
      → is_empty path ≡ false
      → load path disk ≡ load_from unmarshal exe_dir path (lookup path disk)
  unfolding load_config
  load_at path disk named = rw named refl

  -- Each disk loads as the one before, or as the new settings.
  abbrev pub AllLoad : Str → DeviceConfig → DeviceConfig → List Disk → Type 0
  AllLoad path before after [] = Unit
  AllLoad path before after (d ∷ ds) =
      ((load path d ≡ before) ⊎ (load path d ≡ after)) × AllLoad path before after ds

  -- The settings have all that the agent needs, and their JSON decodes to them.
  pub record IsStorable (c : DeviceConfig) (b : Str) : Type 0 where
    pub named : is_empty c.path ≡ false
    pub complete : IsComplete c
    pub has_dir : is_empty c.decoder_dir ≡ false
    pub decodes : unmarshal b (record zero_config { path = c.path }) ≡ c

  load-some :
      (c : DeviceConfig) (b : Str)
      → IsStorable c b
      → load_from unmarshal exe_dir c.path (some b) ≡ c
  unfolding load_from
  load-some c b s = rw s.decodes (fill_defaults-eq exe_dir c s.complete s.has_dir)

  load_new :
      (c : DeviceConfig) (b : Str) (disk : Disk)
      → IsStorable c b
      → lookup c.path disk ≡ some b
      → load c.path disk ≡ c
  load_new c b disk s e = load_at c.path disk s.named ∙ (rw e (load-some c b s))

  load_old :
      (path : Str) (disk first : Disk)
      → is_empty path ≡ false
      → lookup path disk ≡ lookup path first
      → load path disk ≡ load path first
  load_old path disk first named e =
      load_at path disk named
      ∙ (ap (load_from unmarshal exe_dir path) e)
      ∙ sym (load_at path first named)

  all_load :
      (c : DeviceConfig) (b : Str) (first : Disk) (ds : List Disk)
      → IsStorable c b
      → AllIntact c.path (lookup c.path first) b ds
      → AllLoad c.path (load c.path first) c ds
  all_load c b first [] s h = tt
  all_load c b first (d ∷ ds) s (here, rest) = (
    elim here [
      | inl old ↦ inl (load_old c.path d first s.named old)
      | inr new ↦ inr (load_new c b d s new)
    ],
    all_load c b first ds s rest,
  )

  -- Wherever the machine stops while `Save` writes settings that have all that the agent needs and
  -- whose JSON decodes to them, `LoadConfig` gives the settings that it would have given before, or
  -- the new ones, whole; and once `Save` has succeeded it gives the new ones.
  pub save-AllLoad :
      (marshal : DeviceConfig → Option Str) (w : SaveFaults) (c : DeviceConfig) (b : Str) (d : Disk)
      → marshal c ≡ some b
      → IsStorable c b
      → let result = save marshal w c (record { disk = d; past = [] }) in
        AllLoad c.path (load c.path d) c (result.1.disk ∷ result.1.past)
        × (result.0 ≡ true → load c.path result.1.disk ≡ c)
  save-AllLoad marshal w c b d e s =
      let result = save marshal w c (record { disk = d; past = [] }) in
      let (intact, ends) =
        save-Replaced marshal w c (record { disk = d; past = [] }) (lookup c.path d) b e
          (record { here = refl; before = tt }) in
      (
        all_load c b d (result.1.disk ∷ result.1.past) s intact,
        λ ok. elim ends [
          | inl (done, new) ↦ load_new c b result.1.disk s new
          | inr (failed, old) ↦ absurd (ground (arith, ok, failed))
        ],
      )

  -- Once `Save` has succeeded, from whatever disk, `LoadConfig` gives what was saved.
  pub load_saved :
      (marshal : DeviceConfig → Option Str) (w : SaveFaults) (c : DeviceConfig) (b : Str)
      (fs : Files)
      → marshal c ≡ some b
      → IsStorable c b
      → (save marshal w c fs).0 ≡ true
      → load c.path (save marshal w c fs).1.disk ≡ c
  load_saved marshal w c b fs e s ok =
      let (same, disk) = save-Alike marshal w c fs in
      ap (load c.path) disk ∙ (save-AllLoad marshal w c b fs.disk e s).1 (sym same ∙ ok)
