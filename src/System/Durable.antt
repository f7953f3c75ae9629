-- ===== src/System/Durable.antt =====
-- A start of the agent behind another one: `main` of agent/main.go, and `Save` and `LoadConfig` of
-- agent/config.go.
use flightpatch.Common.{
  Bool, true, false, Option, some, Bool-cases, inl, inr, ◌≡◌, ◌≢◌, refl, sym, ap, ◌∙◌,
}
use flightpatch.Config.Load.{IsStorable, load_config, load_saved}
use flightpatch.Config.Save.{SaveFaults, save, ensure_device_identity}
use flightpatch.Config.{DeviceConfig}
use flightpatch.Files.{Files}
use mathlib.Core.Path.{subst}
use flightpatch.Service.{
  RegisterReq, RegisterResp, Start, fatal, refreshed, enrol, request_of, start,
}
use flightpatch.Text.{Str, is_empty}

enrol_saved :
    (marshal : DeviceConfig → Option Str) (w : SaveFaults) (once : Bool) (r : RegisterResp)
    (c : DeviceConfig) (fs : Files)
    → (enrol marshal w once (some r) c fs).0 ≢ fatal
    → (save marshal w (refreshed r c) fs).0 ≡ true
unfolding enrol
enrol_saved marshal w once r c fs h = elim (Bool-cases (save marshal w (refreshed r c) fs).0) [
  | inl ok ↦ ok
  | inr failed ↦ absurd (h (rw failed refl))
]

start-enrol :
    (marshal : DeviceConfig → Option Str) (w w' : SaveFaults) (raw : Option Str)
    (registers : RegisterReq → Option RegisterResp) (platform : Str) (once : Bool)
    (c : DeviceConfig) (fs : Files)
    → (start marshal w w' raw registers platform once c fs).0 ≢ fatal
    → let made = ensure_device_identity marshal w raw c fs in
      (made.0 ≡ true)
      × (start marshal w w' raw registers platform once c fs
          ≡ enrol marshal w' once (registers (request_of platform made.1)) made.1 made.2)
unfolding start
start-enrol marshal w w' raw registers platform once c fs h =
    elim (Bool-cases (ensure_device_identity marshal w raw c fs).0) [
      | inl ok ↦ (ok, rw ok refl)
      | inr failed ↦ absurd (h (rw failed refl))
    ]

ensure_device_identity_again :
    (marshal : DeviceConfig → Option Str) (w : SaveFaults) (raw : Option Str) (c : DeviceConfig)
    (fs : Files)
    → is_empty c.device_id ≡ false
    → (ensure_device_identity marshal w raw c fs).1 ≡ c
unfolding ensure_device_identity
ensure_device_identity_again marshal w raw c fs h = rw h refl

module _ (marshal : DeviceConfig → Option Str) (unmarshal : Str → DeviceConfig → DeviceConfig)
    (default_path : Str) (exe_dir : Option Str) where
  -- What the settings are at the next start: as they were at the end of this one, with the identity
  -- and the token of the reply, which the next registration is made with, whatever its random bytes.
  abbrev pub Kept :
      RegisterResp → Str → SaveFaults → Option Str → Files → Start × DeviceConfig × Files → Type 0
  Kept r platform w raw files (s, c, fs) =
      let again = load_config unmarshal default_path exe_dir c.path fs.disk in
      let made = ensure_device_identity marshal w raw again files in
      (again ≡ c)
      × (again.device_id ≡ r.device_id)
      × (again.token ≡ r.token)
      × ((request_of platform made.1).device_id ≡ r.device_id)

  -- The end of a start that went on, whose settings can be stored.
  abbrev pub Stored : Str → Start × DeviceConfig × Files → Type 0
  Stored b (s, c, fs) =
      (s ≢ fatal) × (marshal c ≡ some b) × IsStorable unmarshal default_path exe_dir c b

  enrol-Kept :
      (w : SaveFaults) (once : Bool) (r : RegisterResp) (c : DeviceConfig) (fs : Files) (b : Str)
      (platform : Str) (w' : SaveFaults) (raw : Option Str) (files : Files)
      → is_empty r.device_id ≡ false
      → Stored b (enrol marshal w once (some r) c fs)
      → Kept r platform w' raw files (enrol marshal w once (some r) c fs)
  unfolding enrol
  enrol-Kept w once r c fs b platform w' raw files named (goes_on, e, s) =
      let again : load_config unmarshal default_path exe_dir c.path
            (save marshal w (refreshed r c) fs).1.disk
          ≡ refreshed r c =
        load_saved unmarshal default_path exe_dir marshal w (refreshed r c) b fs e s
          (enrol_saved marshal w once r c fs goes_on) in
      (
        again,
        ap (λ x. x.device_id) again,
        ap (λ x. x.token) again,
        ap (λ x. (ensure_device_identity marshal w' raw x files).1.device_id) again
            ∙ ap (λ x. x.device_id)
                (ensure_device_identity_again marshal w' raw (refreshed r c) files named),
      )

  -- Where the server has answered the registration of a start that went on, with an identity, and the
  -- settings at its end have all that the agent needs and JSON that decodes to them, the next
  -- start loads these settings, with the identity and the token of the reply, and registers under
  -- this identity, whatever its random bytes are.
  pub start-Kept :
      (w w' w'' : SaveFaults) (raw raw' : Option Str)
      (registers : RegisterReq → Option RegisterResp) (platform : Str) (once : Bool)
      (c : DeviceConfig) (fs files : Files) (r : RegisterResp) (b : Str)
      → registers (request_of platform (ensure_device_identity marshal w raw c fs).1) ≡ some r
      → is_empty r.device_id ≡ false
      → Stored b (start marshal w w' raw registers platform once c fs)
      → Kept r platform w'' raw' files (start marshal w w' raw registers platform once c fs)
  start-Kept w w' w'' raw raw' registers platform once c fs files r b answered named stored =
      let made = ensure_device_identity marshal w raw c fs in
      let (_, e) = start-enrol marshal w w' raw registers platform once c fs stored.0 in
      let ends = e ∙ ap (λ o. enrol marshal w' once o made.1 made.2) answered in
      subst (Kept r platform w'' raw' files) (sym ends) (
        enrol-Kept w' once r made.1 made.2 b platform w'' raw' files named
          (subst (Stored b) ends stored))
