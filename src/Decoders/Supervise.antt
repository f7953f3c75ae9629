-- ===== src/Decoders/Supervise.antt =====
-- The loop around one decoder: `superviseDecoder` of agent/decoders.go and `superviseUAT` of
-- agent/uat.go, with the command lines of `buildDecoderCmd`. Times are whole seconds.
use flightpatch.Common.{
  ℕ, zero, suc, ◌*◌, ◌≤◌, List, [], ◌∷◌, ◌++◌, Option, none, some, ltb, if◌then◌else◌, arith,
}
use flightpatch.Config.{DeviceConfig, role_adsb, role_vdl2}
use flightpatch.Decoders.{Dongle, PortSet}
use flightpatch.Text.Decimal.{decimal}
use flightpatch.Text.{Str, codes, str_eq}

-- What a round of the loop meets: no program for the role, a program that does not start, or one
-- that ran for some seconds. The context ends when the list does.
pub data Attempt : Type 0 where
  unavailable not_started : Attempt
  exited : ℕ → Attempt

abbrev pub min_dur : ℕ → ℕ → ℕ
min_dur a b = if ltb a b then a else b

-- The pause behind an attempt, and the next value of `backoff`.
unfoldable pub pause : Attempt → ℕ → ℕ × ℕ
pause unavailable backoff = (30, backoff)
pause not_started backoff = (backoff, min_dur (backoff * 2) 30)
pause (exited seconds) backoff =
    let reset = if ltb 60 seconds then 2 else backoff in (reset, min_dur (reset * 2) 30)

-- The pauses of the loop.
unfoldable pub supervise : List Attempt → ℕ → List ℕ
supervise [] backoff = []
supervise (a ∷ rest) backoff =
    let (seconds, next) = pause a backoff in seconds ∷ supervise rest next

unfoldable pub supervise_decoder : List Attempt → List ℕ
supervise_decoder attempts = supervise attempts 2

-- `superviseUAT` for some number of rounds: its backoff is never reset.
unfoldable pub supervise_uat_from : ℕ → ℕ → List ℕ
supervise_uat_from zero backoff = []
supervise_uat_from (suc n) backoff = backoff ∷ supervise_uat_from n (min_dur (backoff * 2) 30)

unfoldable pub supervise_uat : ℕ → List ℕ
supervise_uat n = supervise_uat_from n 2

abbrev with_args : List Str → Option Str → Option (List Str)
with_args args none = none
with_args args (some exe) = some (exe ∷ args)

-- `buildDecoderCmd`: the program and its arguments, with `exePath` as a parameter.
unfoldable pub build_decoder_cmd :
    (Str → Option Str) → Str → Str → DeviceConfig → Str → Dongle → PortSet → Option (List Str)
build_decoder_cmd exe_path adsb_exe_name vdl2_exe_name cfg role d ports =
    let adsb =
      codes "--device-index"
      ∷ (decimal d.index
          ∷ (codes "--net"
              ∷ (codes "--net-beast"
                  ∷ (codes "--net-bo-port"
                      ∷ (decimal ports.beast
                          ∷ (codes "--net-sbs-port" ∷ (decimal ports.sbs ∷ []))))))) in
    let vdl2 =
      codes "--rtlsdr"
      ∷ (decimal d.index
          ∷ (codes "--gain"
              ∷ (cfg.gain
                  ∷ (codes "--output"
                      ∷ ((codes "decoded:json:udp:address=127.0.0.1,port=" ++ decimal ports.vdl2)
                          ∷ cfg.vdl2_freqs))))) in
    if str_eq role role_adsb
    then with_args adsb (exe_path adsb_exe_name)
    else if str_eq role role_vdl2
    then with_args vdl2 (exe_path vdl2_exe_name)
    else none

abbrev pub AllWithin : ℕ → ℕ → List ℕ → Type 0
AllWithin low high [] = Unit
AllWithin low high (n ∷ ns) = ((low ≤ n) × (n ≤ high)) × AllWithin low high ns

supervise-AllWithin :
    (attempts : List Attempt) (backoff : ℕ)
    → 2 ≤ backoff
    → backoff ≤ 30
    → AllWithin 2 30 (supervise attempts backoff)
unfolding supervise pause
supervise-AllWithin [] backoff low high = tt
supervise-AllWithin (unavailable ∷ rest) backoff low high =
    ((omega arith, omega arith), supervise-AllWithin rest backoff low high)
supervise-AllWithin (not_started ∷ rest) backoff low high =
    ((low, high), supervise-AllWithin rest (min_dur (backoff * 2) 30) (ground arith) (ground arith))
supervise-AllWithin (exited seconds ∷ rest) backoff low high =
    let reset = if ltb 60 seconds then 2 else backoff in
    (
      (ground arith, ground arith),
      supervise-AllWithin rest (min_dur (reset * 2) 30) (ground arith) (ground arith),
    )

supervise_uat_from-AllWithin :
    (n backoff : ℕ) → 2 ≤ backoff → backoff ≤ 30 → AllWithin 2 30 (supervise_uat_from n backoff)
unfolding supervise_uat_from
supervise_uat_from-AllWithin zero backoff low high = tt
supervise_uat_from-AllWithin (suc n) backoff low high = (
  (low, high),
  supervise_uat_from-AllWithin n (min_dur (backoff * 2) 30) (ground arith) (ground arith),
)

-- Between two attempts at a decoder the loops wait for 2 to 30 seconds, whatever the attempts meet.
pub supervise_decoder-AllWithin :
    (attempts : List Attempt) (n : ℕ)
    → AllWithin 2 30 (supervise_decoder attempts) × AllWithin 2 30 (supervise_uat n)
unfolding supervise_decoder supervise_uat
supervise_decoder-AllWithin attempts n = (
  supervise-AllWithin attempts 2 (omega arith) (omega arith),
  supervise_uat_from-AllWithin n 2 (omega arith) (omega arith),
)
