-- ===== src/Service/Main.antt =====
-- `main` of agent/main.go as a whole: the flags, the mode, and the registration of the agent that
-- feeds.
use flightpatch.Common.{Bool, true, false, List, [], Option, if◌then◌else◌}
use flightpatch.Config.Save.{SaveFaults}
use flightpatch.Config.{DeviceConfig}
use flightpatch.Eeprom.Device.{Machine}
use flightpatch.Files.{Files}
use flightpatch.Service.Modes.Bodies.{run_mode}
use flightpatch.Service.Modes.{
  ModeFlags, Mode, feeding, mode_of, Exit, Printed, Tools, Polls, ModeEnd,
}
use flightpatch.Service.{
  Network, RegisterReq, RegisterResp, Flags, apply_flags, Start, fatal, register, start,
}
use flightpatch.Text.{Str}

-- What `main` meets outside: JSON, the faults of its three savings, the random bytes, the network, and
-- the name of the platform.
pub record Outside : Type 0 where
  pub marshal : DeviceConfig → Option Str
  pub flag_saves : SaveFaults
  pub identity_saves : SaveFaults
  pub reply_saves : SaveFaults
  pub raw : Option Str
  pub network : Network
  pub encode : RegisterReq → Option Str
  pub decode : Str → Option RegisterResp
  pub platform : Str

pub record Given : Type 0 where
  pub flags : Flags
  pub modes : ModeFlags
  pub register_only : Bool

pub data End : Type 0 where
  ends : Exit → End
  starts : Start → End

pub record Ran (S : Type 0) : Type 0 where
  pub end : End
  pub cfg : DeviceConfig
  pub machine : Machine S
  pub printed : List Printed

abbrev pub is_feeding : Mode → Bool
is_feeding feeding = true
is_feeding _ = false

abbrev pub with_files : {S : Type 0} → Machine S → Files → Machine S
with_files m fs = record m { files = fs }

abbrev pub of_mode : {S : Type 0} → DeviceConfig → ModeEnd S → Ran S
of_mode c o = record { end = ends o.exit; cfg = c; machine = o.machine; printed = o.printed }

abbrev pub of_start : {S : Type 0} → Machine S → Start × DeviceConfig × Files → Ran S
of_start m (s, c, fs) = record { end = starts s; cfg = c; machine = with_files m fs; printed = [] }

module _ {S : Type 0} (t : Tools S) (p : Polls) (o : Outside) where
  -- The part behind the flags that change the settings.
  unfoldable pub main_behind_flags : Mode → Bool → DeviceConfig → Machine S → Ran S
  main_behind_flags mode once c m =
      let registers = register o.network o.encode o.decode c.server in
      let fed =
        start o.marshal o.identity_saves o.reply_saves o.raw registers o.platform once c m.files in
      let ran = run_mode t p mode c m in if is_feeding mode then of_start m fed else of_mode c ran

  unfoldable pub main : Given → DeviceConfig → Machine S → Ran S
  main g c m =
      let (ok, c', fs) = apply_flags o.marshal o.flag_saves g.flags c m.files in
      let m' = with_files m fs in
      let rest = main_behind_flags (mode_of g.modes) g.register_only c' m' in
      let failed : Ran S = record { end = starts fatal; cfg = c'; machine = m'; printed = [] } in
      if ok then rest else failed
