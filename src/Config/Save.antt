-- ===== src/Config/Save.antt =====
-- Writing the settings: `Save` and `EnsureDeviceIdentity` of agent/config.go. The JSON of the
-- settings and the random bytes are parameters.
use flightpatch.Beast.Hex.{encode_to_string}
use flightpatch.Common.{
  Bool, true, false, not, List, [], ◌∷◌, ◌++◌, Option, none, some, if◌then◌else◌, ◌≡◌, ◌⊎◌, inl,
  inr, refl, sym, ap, ◌∙◌, arith, Bool-cases, Option-cases,
}
use flightpatch.Config.{DeviceConfig}
use flightpatch.Dict.{lookup, insert, lookup-insert}
use flightpatch.Files.{Disk, Files, write, rename}
use flightpatch.Files.Paths.{append_ne, rename-cases, lookup-moved}
use flightpatch.Text.Laws.{str_eq_refl}
use flightpatch.Text.{Str, codes, is_empty}

-- How `os.WriteFile` ends.
pub data Written : Type 0 where
  not_created complete : Written
  cut_short : Str → Written

unfoldable pub write_file : Written → Str → Str → Files → Bool × Files
write_file not_created p s fs = (false, fs)
write_file (cut_short part) p s fs = (false, (write true p part fs).1)
write_file complete p s fs = write true p s fs

-- Which operations work.
pub record SaveFaults : Type 0 where
  pub makes_dir : Bool
  pub writes : Written
  pub renames : Bool

abbrev pub tmp_path : Str → Str
tmp_path path = path ++ codes ".tmp"

-- A temporary file is written and takes the place of the old one.
unfoldable pub replace : SaveFaults → Str → Str → Files → Bool × Files
replace w path b fs =
    let (ok, fs') = write_file w.writes (tmp_path path) b fs in
    let renamed = rename w.renames (tmp_path path) path fs' in if ok then renamed else (false, fs')

abbrev pub replace_with : SaveFaults → Str → Option Str → Files → Bool × Files
replace_with w path none fs = (false, fs)
replace_with w path (some b) fs = replace w path b fs

-- `Save`
unfoldable pub save : (DeviceConfig → Option Str) → SaveFaults → DeviceConfig → Files → Bool × Files
save marshal w c fs =
    let replaced = replace_with w c.path (marshal c) fs in
    if not w.makes_dir then (false, fs) else replaced

abbrev identified :
    (DeviceConfig → Option Str)
    → SaveFaults
    → DeviceConfig
    → Option Str
    → Files
    → Bool × DeviceConfig × Files
identified marshal w c none fs = (false, c, fs)
identified marshal w c (some raw) fs =
    let c' : DeviceConfig = record c { device_id = codes "dev-" ++ encode_to_string raw } in
    let (ok, fs') = save marshal w c' fs in
    if ok then (true, c', fs') else (false, (record c' { device_id = [] }), fs')

-- `EnsureDeviceIdentity`, with what the source of random bytes gives.
unfoldable pub ensure_device_identity :
    (DeviceConfig → Option Str)
    → SaveFaults
    → Option Str
    → DeviceConfig
    → Files
    → Bool × DeviceConfig × Files
ensure_device_identity marshal w raw c fs =
    let made = identified marshal w c raw fs in if is_empty c.device_id then made else (true, c, fs)

module _ (path : Str) (old : Option Str) (b : Str) where
  -- The file is the old one, or all of the new one.
  abbrev pub IsIntact : Disk → Type 0
  IsIntact d = (lookup path d ≡ old) ⊎ (lookup path d ≡ some b)

  abbrev pub AllIntact : List Disk → Type 0
  AllIntact [] = Unit
  AllIntact (d ∷ ds) = IsIntact d × AllIntact ds

  pub record IsOld (fs : Files) : Type 0 where
    pub here : lookup path fs.disk ≡ old
    pub before : AllIntact fs.past

  abbrev pub Replaced : Bool × Files → Type 0
  Replaced (ok, fs) =
      AllIntact (fs.disk ∷ fs.past)
      × (((ok ≡ true) × (lookup path fs.disk ≡ some b))
          ⊎ ((ok ≡ false) × (lookup path fs.disk ≡ old)))

  pub refused_lem : (fs : Files) → IsOld fs → Replaced (false, fs)
  refused_lem fs h = ((inl h.here, h.before), inr (refl, h.here))

  write-IsOld : (s : Str) (fs : Files) → IsOld fs → IsOld (write true (tmp_path path) s fs).1
  unfolding write
  write-IsOld s fs h =
      let ne = append_ne path (codes ".tmp") 3 refl in
      let opened : lookup path (insert (tmp_path path) [] fs.disk) ≡ old =
        lookup-insert (tmp_path path) path [] fs.disk ∙ (rw ne h.here) in
      record {
        here = lookup-insert (tmp_path path) path s fs.disk ∙ (rw ne h.here);
        before = (inl opened, (inl h.here, h.before));
      }

  written-tmp :
      (s : Str) (fs : Files)
      → lookup (tmp_path path) (write true (tmp_path path) s fs).1.disk ≡ some s
  unfolding write
  written-tmp s fs =
      lookup-insert (tmp_path path) (tmp_path path) s fs.disk
      ∙ (rw (str_eq_refl (tmp_path path)) refl)

  rename-Replaced :
      (works : Bool) (fs : Files)
      → IsOld fs
      → lookup (tmp_path path) fs.disk ≡ some b
      → Replaced (rename works (tmp_path path) path fs)
  rename-Replaced works fs h e = elim (rename-cases works (tmp_path path) path fs) [
    | inl stays ↦ rw stays (refused_lem fs h)
    | inr (s, (found, moves)) ↦
        let new = lookup-moved (tmp_path path) path s fs.disk ∙ sym found ∙ e in
        rw moves ((inr new, (inl h.here, h.before)), inl (refl, new))
  ]

  pub replace_lem :
      (writes : Written) (renames : Bool) (fs : Files)
      → IsOld fs
      → Replaced
          (replace (record { makes_dir = true; writes = writes; renames = renames }) path b fs)
  unfolding replace write_file
  replace_lem not_created renames fs h = refused_lem fs h
  replace_lem (cut_short part) renames fs h =
      refused_lem (write true (tmp_path path) part fs).1 (write-IsOld part fs h)
  replace_lem complete renames fs h =
      let fs' = (write true (tmp_path path) b fs).1 in
      unfold write in rename-Replaced renames fs' (write-IsOld b fs h) (written-tmp b fs)

-- Where the old file, or what is not there, is at the path, and every earlier disk has it or the new
-- one, every disk since has the old file or all of the new one; the new one is there at the end if
-- Save succeeds, and the old one if it fails.
pub save-Replaced :
    (marshal : DeviceConfig → Option Str) (w : SaveFaults) (c : DeviceConfig) (fs : Files)
    (old : Option Str) (b : Str)
    → marshal c ≡ some b
    → IsOld c.path old b fs
    → Replaced c.path old b (save marshal w c fs)
unfolding save
save-Replaced marshal w c fs old b e h = elim (Bool-cases w.makes_dir) [
  | inl made ↦ rw made (rw e (replace_lem c.path old b w.writes w.renames fs h))
  | inr failed ↦ rw failed (refused_lem c.path old b fs h)
]

not_marshalled :
    (marshal : DeviceConfig → Option Str) (w : SaveFaults) (c : DeviceConfig) (fs : Files)
    → marshal c ≡ none
    → (save marshal w c fs).0 ≡ false
unfolding save
not_marshalled marshal w c fs e = elim (Bool-cases w.makes_dir) [
  | inl made ↦ rw made (rw e refl)
  | inr failed ↦ rw failed refl
]

pub save_ok :
    (marshal : DeviceConfig → Option Str) (w : SaveFaults) (c : DeviceConfig) (d : Disk)
    → let fs : Files = record { disk = d; past = [] } in
      (save marshal w c fs).0 ≡ true
      → (b : Str) × ((marshal c ≡ some b) × (lookup c.path (save marshal w c fs).1.disk ≡ some b))
save_ok marshal w c d ok = elim (Option-cases (marshal c)) [
  | inl e ↦
      let no = not_marshalled marshal w c (record { disk = d; past = [] }) e in
      absurd (ground arith)
  | inr (b, e) ↦
      let fs : Files = record { disk = d; past = [] } in
      let r =
        save-Replaced marshal w c fs (lookup c.path d) b e (record { here = refl; before = tt }) in
      elim r.1 [ inl (done, new) ↦ (b, (e, new)) | inr (failed, kept) ↦ absurd (ground arith) ]
]

is_empty-nil : (s : Str) → is_empty s ≡ true → s ≡ []
is_empty-nil [] h = refl
is_empty-nil (x ∷ s) h = absurd (ground arith)

abbrev pub Identified :
    (DeviceConfig → Option Str) → DeviceConfig → Bool × DeviceConfig × Files → Type 0
Identified marshal c (ok, c', fs') =
    ((ok ≡ true)
      × ((is_empty c'.device_id ≡ false)
          × ((b : Str) × ((marshal c' ≡ some b) × (lookup c.path fs'.disk ≡ some b)))))
    ⊎ ((ok ≡ false) × (c' ≡ c))

-- A device without an identity either has one afterwards, and the file holds the settings with it,
-- or the call fails and the settings are what they were.
pub ensure_device_identity-Identified :
    (marshal : DeviceConfig → Option Str) (w : SaveFaults) (raw : Option Str) (c : DeviceConfig)
    (d : Disk)
    → is_empty c.device_id ≡ true
    → Identified marshal c (ensure_device_identity marshal w raw c (record { disk = d; past = [] }))
unfolding ensure_device_identity
ensure_device_identity-Identified marshal w none c d h = rw h (inr (refl, refl))
ensure_device_identity-Identified marshal w (some raw) c d h =
    let c' : DeviceConfig = record c { device_id = codes "dev-" ++ encode_to_string raw } in
    let fs : Files = record { disk = d; past = [] } in
    elim (Bool-cases (save marshal w c' fs).0) [
      | inl ok ↦ rw h (rw ok (inl (refl, (refl, save_ok marshal w c' d ok))))
      | inr failed ↦ rw h (
          rw failed
            (inr (refl, ap (λ i. record c { device_id = i }) (sym (is_empty-nil c.device_id h)))))
    ]
