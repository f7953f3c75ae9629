-- ===== src/Service/Examples.antt =====
-- A first start, a start without the server, and a wait.
use flightpatch.Common.{true, false, List, [], ◌∷◌, ◌++◌, Option, none, some, ◌≡◌, refl}
use flightpatch.Config.Save.{
  complete, SaveFaults, save, replace, write_file, ensure_device_identity,
}
use flightpatch.Config.{DeviceConfig, zero_config}
use flightpatch.Files.{Files}
use flightpatch.Service.{
  Network, RegisterReq, RegisterResp, DeviceStatus, serving, register, post_json, accepted, enrol,
  start, wait_ready, wait_ready_exit_code,
}
use flightpatch.Text.{Str, codes, is_empty}

abbrev config : DeviceConfig
config = record zero_config { path = codes "agent.json" }

abbrev marshal : DeviceConfig → Option Str
marshal c = some (codes "id=" ++ c.device_id)

abbrev working : SaveFaults
working = record { makes_dir = true; writes = complete; renames = true }

abbrev nothing : Files
nothing = record { disk = []; past = [] }

abbrev encode : RegisterReq → Option Str
encode r = some r.device_id

abbrev decode : Str → Option RegisterResp
decode s = some (record { device_id = s; token = codes "t"; feed_addr = [] })

-- A server that answers with the identity it was sent.
abbrev echoing : Network
echoing r = some (200, r.body)

-- The device starts to feed, with the identity that it made itself.
starts :
    (start marshal working working
      (some (1 ∷ 2 ∷ []))
      (register echoing encode decode config.server)
      (codes "windows/amd64")
      false
      config
      nothing).0
    ≡ serving
unfolding start ensure_device_identity save replace write_file flightpatch.Files.write
    flightpatch.Files.rename flightpatch.Dict.lookup flightpatch.Dict.insert flightpatch.Text.str_eq
    enrol register post_json accepted flightpatch.Dict.erase
starts = refl

-- A reply of the server is dropped where its status is none of the 2xx.
unavailable : post_json (λ r. some (503, codes "{}")) decode (codes "u") [] (some []) ≡ none
unfolding post_json accepted
unavailable = refl

abbrev polls : List (DeviceConfig × Option DeviceStatus)
polls =
    (config, none)
    ∷ (
      (record config { device_id = codes "dev-1"; token = codes "t" }),
      some (record { state = codes "feeding"; feeding = true; bytes_fed = 7 }),
    )
    ∷ []

-- The second round hears that data is delivered.
wait_succeeds : wait_ready polls (codes "starting") ≡ 0
unfolding wait_ready
wait_succeeds = refl

-- A wait in vain gives the code of the last state.
wait_in_vain : wait_ready ((config, none) ∷ []) (codes "starting") ≡ 3
unfolding wait_ready wait_ready_exit_code flightpatch.Text.str_eq
wait_in_vain = refl
