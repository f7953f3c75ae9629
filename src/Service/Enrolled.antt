-- ===== src/Service/Enrolled.antt =====
-- What a start of `main` in agent/main.go comes to.
use flightpatch.Common.{
  Bool, true, false, not, ◌&&◌, List, [], ◌∷◌, ◌++◌, Option, none, some, if_case, Bool-cases,
  Option-cases, ◌≡◌, ◌⊎◌, ◌↔◌, inl, inr, refl, arith,
}
use flightpatch.Beast.Hex.{encode_to_string}
use flightpatch.Config.Save.{SaveFaults, save, ensure_device_identity}
use flightpatch.Config.{DeviceConfig}
use flightpatch.Files.{Files}
use flightpatch.Service.{
  Network, RegisterReq, RegisterResp, DeviceStatus, Start, fatal, request_of, post_json, register,
  enrol, start, wait_ready, wait_ready_exit_code,
}
use flightpatch.Text.{Str, codes, is_empty}

-- The device has an identity and a token.
abbrev pub IsEnrolled : DeviceConfig → Type 0
IsEnrolled c = (is_empty c.device_id ≡ false) × (is_empty c.token ≡ false)

abbrev pub Begun : Start × DeviceConfig × Files → Type 0
Begun (s, c, fs) = (s ≡ fatal) ⊎ IsEnrolled c

register_lem :
    (network : Network) (marshal : RegisterReq → Option Str) (unmarshal : Str → Option RegisterResp)
    (server : Str) (req : RegisterReq) (r : RegisterResp)
    → register network marshal unmarshal server req ≡ some r
    → (is_empty r.device_id ≡ false) × (is_empty r.token ≡ false)
unfolding register
register_lem network marshal unmarshal server req r e =
    elim (Option-cases (
      post_json network unmarshal (server ++ codes "/api/v2/feeder/device/register") []
        (marshal req))) [
          | inl nothing ↦ absurd (ground (arith, e, nothing))
          | inr (out, got) ↦ ground (arith, e, got)
        ]

ensure_device_identity-named :
    (marshal : DeviceConfig → Option Str) (w : SaveFaults) (raw : Option Str) (c : DeviceConfig)
    (fs : Files)
    → (ensure_device_identity marshal w raw c fs).0 ≡ true
    → is_empty (ensure_device_identity marshal w raw c fs).1.device_id ≡ false
unfolding ensure_device_identity
ensure_device_identity-named marshal w none c fs ok = elim (Bool-cases (is_empty c.device_id)) [
  | inl blank ↦ absurd (ground (arith, ok, blank))
  | inr named ↦ rw named named
]
ensure_device_identity-named marshal w (some raw) c fs ok =
    elim (Bool-cases (is_empty c.device_id)) [
      | inr named ↦ rw named named
      | inl blank ↦
          let c' : DeviceConfig = record c { device_id = codes "dev-" ++ encode_to_string raw } in
          elim (Bool-cases (save marshal w c' fs).0) [
            | inl saved ↦ rw blank (rw saved refl)
            | inr failed ↦ absurd (ground (arith, ok, blank, failed))
          ]
    ]

enrol-Begun :
    (marshal : DeviceConfig → Option Str) (w : SaveFaults) (once : Bool)
    (answer : Option RegisterResp) (c : DeviceConfig) (fs : Files)
    → is_empty c.device_id ≡ false
    → ((r : RegisterResp)
        → answer ≡ some r
        → (is_empty r.device_id ≡ false) × (is_empty r.token ≡ false))
    → Begun (enrol marshal w once answer c fs)
unfolding enrol
enrol-Begun marshal w once none c fs named h = elim (Bool-cases (is_empty c.token)) [
  | inl blank ↦ inl (rw blank refl)
  | inr held ↦ inr (named, held)
]
enrol-Begun marshal w once (some r) c fs named h = inr (h r refl)

-- With the server's registration, the agent comes to feed, or to print its identity, only with an
-- identity and a token.
pub start-Begun :
    (marshal : DeviceConfig → Option Str) (w w' : SaveFaults) (raw : Option Str) (network : Network)
    (encode : RegisterReq → Option Str) (decode : Str → Option RegisterResp) (platform : Str)
    (once : Bool) (c : DeviceConfig) (fs : Files)
    → Begun (start marshal w w' raw (register network encode decode c.server) platform once c fs)
unfolding start enrol
start-Begun marshal w w' raw network encode decode platform once c fs =
    let made = ensure_device_identity marshal w raw c fs in
    let registers = register network encode decode c.server in
    elim (Bool-cases made.0) [
      | inr failed ↦ rw failed (inl refl)
      | inl ok ↦ rw ok (
          enrol-Begun marshal w' once (registers (request_of platform made.1)) made.1 made.2
            (ensure_device_identity-named marshal w raw c fs ok)
            (register_lem network encode decode c.server (request_of platform made.1)))
    ]

-- Some round of the wait hears, for settings with an identity and a token, that data is delivered.
abbrev pub IsFed : List (DeviceConfig × Option DeviceStatus) → Type 0
IsFed [] = ◌≡◌ {A = Bool} true false
IsFed ((c, none) ∷ rest) = IsFed rest
IsFed ((c, some s) ∷ rest) = (IsEnrolled c × (s.feeding ≡ true)) ⊎ IsFed rest

-- The wait succeeds exactly if some round, with an identity and a token, hears that data is delivered.
pub wait_ready_iff :
    (rounds : List (DeviceConfig × Option DeviceStatus)) (last : Str)
    → (wait_ready rounds last ≡ 0) ↔ IsFed rounds
unfolding wait_ready wait_ready_exit_code
wait_ready_iff [] last = (λ e. absurd (ground (arith, e)), λ e. absurd cc)
wait_ready_iff ((c, none) ∷ rest) last =
    if_case (λ x. (x ≡ 0) ↔ IsFed rest) (not (is_empty c.device_id) && not (is_empty c.token))
      (λ _. wait_ready_iff rest last) (λ _. wait_ready_iff rest last)
wait_ready_iff ((c, some s) ∷ rest) last =
    ground (arith, wait_ready_iff rest last, wait_ready_iff rest s.state)
