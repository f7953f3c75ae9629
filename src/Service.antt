-- ===== src/Service.antt =====
-- Starting the agent: the flags, the wait for the server's verdict and the registration of `main` in
-- agent/main.go, and the requests of agent/device.go. What a request meets is an argument, and so is
-- the JSON of its body and of the reply.
pub mod Enrolled
pub mod Modes
pub mod Main
pub mod Offline
pub mod Renaming
mod Examples
mod MainExamples
use flightpatch.Common.{
  ℕ, Bool, true, false, not, ◌&&◌, ◌||◌, List, [], ◌∷◌, ◌++◌, Option, none, some, ltb, leb,
  if◌then◌else◌, option_else, take,
}
use flightpatch.Config.Save.{SaveFaults, save, ensure_device_identity}
use flightpatch.Config.{DeviceConfig, apply_default_role}
use flightpatch.Files.{Files}
use flightpatch.Text.{Str, codes, str_eq, is_empty}

abbrev pub agent_version : Str
agent_version = codes "0.4.14"

pub record Request : Type 0 where
  pub url : Str
  pub headers : List (Str × Str)
  pub body : Str

-- One request by `httpClient`: none where it cannot be made, or the status and the body of the reply.
abbrev pub Network : Type 0
Network = Request → Option (ℕ × Str)

-- What is read of a body: 1 << 20 bytes.
abbrev pub limit : ℕ
limit = 1048576

unfoldable pub accepted : Option (ℕ × Str) → Option Str
accepted none = none
accepted (some (status, body)) =
    if ltb status 200 || leb 300 status then none else some (take limit body)

abbrev pub and_then {ℓ κ} : {A : Type ℓ} {B : Type κ} → Option A → (A → Option B) → Option B
and_then o f = option_else o none f

abbrev user_agent : Str × Str
user_agent = (codes "User-Agent", codes "adsbiq-feed-agent/" ++ agent_version)

-- `postJSON`, with the marshalled body, if it can be marshalled.
unfoldable pub post_json :
    {A : Type 0} → Network → (Str → Option A) → Str → Str → Option Str → Option A
post_json network unmarshal url token body = and_then body (λ b.
    let common = (codes "Content-Type", codes "application/json") ∷ user_agent ∷ [] in
    let secret = common ++ ((codes "X-Device-Token", token) ∷ []) in
    let sent =
      network
        (record { url = url; headers = if is_empty token then common else secret; body = b }) in
    and_then (accepted sent) unmarshal)

pub record RegisterReq : Type 0 where
  pub install_source : Str
  pub device_id : Str
  pub org_name : Str
  pub user_email : Str
  pub platform : Str
  pub version : Str

pub record RegisterResp : Type 0 where
  pub device_id : Str
  pub token : Str
  pub feed_addr : Str

abbrev confirmed : RegisterResp → Option RegisterResp
confirmed r = if is_empty r.token || is_empty r.device_id then none else some r

-- `Register`
unfoldable pub register :
    Network
    → (RegisterReq → Option Str)
    → (Str → Option RegisterResp)
    → Str
    → RegisterReq
    → Option RegisterResp
register network marshal unmarshal server req =
    and_then
      (post_json network unmarshal (server ++ codes "/api/v2/feeder/device/register") []
        (marshal req))
      confirmed

-- `Telemetry`, with the types of its request and its reply.
unfoldable pub telemetry :
    {A B : Type 0} → Network → (A → Option Str) → (Str → Option B) → Str → Str → A → Option B
telemetry network marshal unmarshal server token req =
    post_json network unmarshal (server ++ codes "/api/v2/feeder/device/telemetry") token
      (marshal req)

pub record DeviceStatus : Type 0 where
  pub state : Str
  pub feeding : Bool
  pub bytes_fed : ℕ

-- `DeviceStatus`
unfoldable pub device_status :
    Network → (Str → Option DeviceStatus) → Str → Str → Str → Option DeviceStatus
device_status network unmarshal server token id =
    and_then
      (accepted (
        network (record {
          url = server ++ codes "/api/v2/feeder/device/" ++ id ++ codes "/status";
          headers =
              (codes "X-Device-Token", token)
              ∷ (codes "Authorization", codes "Bearer " ++ token)
              ∷ user_agent
              ∷ [];
          body = [];
        })))
      unmarshal

-- The flags that change the settings; one that was not given is empty.
pub record Flags : Type 0 where
  pub server : Str
  pub local : Str
  pub decoder_dir : Str
  pub default_role : Str
  pub org : Str
  pub email : Str
  pub install_source : Str

abbrev given : Str → Str → Str
given flag old = if is_empty flag then old else flag

abbrev with_flags : Flags → DeviceConfig → DeviceConfig
with_flags f c =
    let located : DeviceConfig = record c {
      server = given f.server c.server;
      local_beast = given f.local c.local_beast;
      decoder_dir = given f.decoder_dir c.decoder_dir;
    } in
    let roled = apply_default_role located f.default_role in
    record roled {
      org_name = given f.org roled.org_name;
      user_email = given f.email roled.user_email;
    }

-- The settings with the flags, and whether the agent goes on: a new install source must be saved.
unfoldable pub apply_flags :
    (DeviceConfig → Option Str)
    → SaveFaults
    → Flags
    → DeviceConfig
    → Files
    → Bool × DeviceConfig × Files
apply_flags marshal w f c fs =
    let c' = with_flags f c in
    let sourced : DeviceConfig = record c' { install_source = f.install_source } in
    let (ok, fs') = save marshal w sourced fs in
    if not (is_empty f.install_source) && not (str_eq c'.install_source f.install_source)
    then (ok, sourced, fs')
    else (true, c', fs)

-- `waitReadyExitCode`
unfoldable pub wait_ready_exit_code : Str → ℕ
wait_ready_exit_code state =
    if str_eq state (codes "connected")
    then 5
    else if str_eq state (codes "decoder_started")
    then 4
    else if str_eq state (codes "starting")
    then 3
    else 2

-- The rounds of the wait up to its deadline, from the last state on: in each the settings as they were
-- loaded, and what the request for the status gives if it is sent. The exit code is 0 for a return.
unfoldable pub wait_ready : List (DeviceConfig × Option DeviceStatus) → Str → ℕ
wait_ready [] last = wait_ready_exit_code last
wait_ready ((c, status) ∷ rest) last =
    let on = wait_ready rest last in
    let heard =
      option_else status on
        (λ s. let on' = wait_ready rest s.state in if s.feeding then 0 else on') in
    if not (is_empty c.device_id) && not (is_empty c.token) then heard else on

-- `log.Fatalf`, the return with `-register-only`, or the start of the decoders and the beats.
pub data Start : Type 0 where
  fatal registered_only serving : Start

abbrev pub begun : Bool → Start
begun once = if once then registered_only else serving

abbrev pub refreshed : RegisterResp → DeviceConfig → DeviceConfig
refreshed r c = record c {
  device_id = r.device_id;
  token = r.token;
  feed = given r.feed_addr c.feed;
}

-- What is made of the outcome of `Register`.
unfoldable pub enrol :
    (DeviceConfig → Option Str)
    → SaveFaults
    → Bool
    → Option RegisterResp
    → DeviceConfig
    → Files
    → Start × DeviceConfig × Files
enrol marshal w once none c fs = (if is_empty c.token then fatal else begun once, c, fs)
enrol marshal w once (some r) c fs =
    let (ok, fs') = save marshal w (refreshed r c) fs in
    (if ok then begun once else fatal, refreshed r c, fs')

abbrev pub request_of : Str → DeviceConfig → RegisterReq
request_of platform c = record {
  install_source = c.install_source;
  device_id = c.device_id;
  org_name = c.org_name;
  user_email = c.user_email;
  platform = platform;
  version = agent_version;
}

-- The registration of `main`: the durable identity, the request, and the saving of the reply. The
-- random bytes, the faults of the two savings and the network are arguments.
unfoldable pub start :
    (DeviceConfig → Option Str)
    → SaveFaults
    → SaveFaults
    → Option Str
    → (RegisterReq → Option RegisterResp)
    → Str
    → Bool
    → DeviceConfig
    → Files
    → Start × DeviceConfig × Files
start marshal w w' raw registers platform once c fs =
    let (ok, c', fs') = ensure_device_identity marshal w raw c fs in
    let enrolled = enrol marshal w' once (registers (request_of platform c')) c' fs' in
    if not ok then (fatal, c', fs') else enrolled
