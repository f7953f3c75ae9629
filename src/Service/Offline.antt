-- ===== src/Service/Offline.antt =====
-- Which runs of `main` of agent/main.go come to feed, and which leave the server alone.
use flightpatch.Common.{
  Bool, true, false, Option, if_case, if_case2, ◌≡◌, ◌⊎◌, inl, inr, refl, sym, ap, ◌∙◌, arith,
  is_some,
}
use flightpatch.Config.{DeviceConfig}
use flightpatch.Eeprom.Device.{Machine}
use flightpatch.Files.{Files}
use flightpatch.Service.Enrolled.{IsEnrolled, Begun, start-Begun}
use flightpatch.Service.Main.{
  Outside, Given, ends, starts, Ran, is_feeding, with_files, of_mode, of_start, main_behind_flags,
  main,
}
use flightpatch.Service.Modes.Bodies.{run_mode}
use flightpatch.Service.Modes.{ModeFlags, Mode, mode_of, Tools, Polls}
use flightpatch.Service.{Network, Start, fatal, apply_flags, start, register}
use flightpatch.Text.{Str, is_empty}

-- No flag asks for a mode that ends before the registration.
pub record IsPlain (f : ModeFlags) : Type 0 where
  pub wait_positive : f.wait_positive ≡ false
  pub eeprom_dump : f.eeprom_dump ≡ false
  pub eeprom_test : is_some f.eeprom_test ≡ false
  pub set_serial : is_empty f.set_serial ≡ true
  pub job_test : f.job_test ≡ false
  pub reset_usb : f.reset_usb ≡ false
  pub dedupe : f.dedupe ≡ false
  pub watch : f.watch ≡ false
  pub probe_only : f.probe_only ≡ false

mode_of-IsPlain : (f : ModeFlags) → is_feeding (mode_of f) ≡ true → IsPlain f
unfolding mode_of
mode_of-IsPlain f h = ground (arith, h)

-- The agent ends, or it goes on with an identity and a token.
abbrev pub Allowed : {S : Type 0} → ModeFlags → Ran S → Type 0
Allowed f r = elim r.end [
  | ends e ↦ is_feeding (mode_of f) ≡ false
  | starts s ↦ (s ≡ fatal) ⊎ (IsPlain f × IsEnrolled r.cfg)
]

module _ {S : Type 0} (t : Tools S) (p : Polls) where
  of_start-Allowed :
      (f : ModeFlags) (m : Machine S) (r : Start × DeviceConfig × Files)
      → IsPlain f
      → Begun r
      → Allowed f (of_start m r)
  of_start-Allowed f m r plain (inl e) = inl e
  of_start-Allowed f m r plain (inr e) = inr (plain, e)

  main_behind_flags-Allowed :
      (o : Outside) (f : ModeFlags) (once : Bool) (c : DeviceConfig) (m : Machine S)
      → Allowed f (main_behind_flags t p o (mode_of f) once c m)
  unfolding main_behind_flags
  main_behind_flags-Allowed o f once c m =
      if_case (Allowed f) (is_feeding (mode_of f))
        (λ e.
          let registers = register o.network o.encode o.decode c.server in
          of_start-Allowed f m
            (start o.marshal o.identity_saves o.reply_saves o.raw registers o.platform once c
              m.files)
            (mode_of-IsPlain f e)
            (start-Begun o.marshal o.identity_saves o.reply_saves o.raw o.network o.encode o.decode
              o.platform once c m.files))
        (λ e. e)

  -- `main` goes on to feed, or to print its identity, only if no flag asks for another mode and the
  -- device has an identity and a token.
  pub main-Allowed :
      (o : Outside) (g : Given) (c : DeviceConfig) (m : Machine S)
      → Allowed g.modes (main t p o g c m)
  unfolding main
  main-Allowed o g c m =
      let (ok, c', fs) = apply_flags o.marshal o.flag_saves g.flags c m.files in
      if_case (Allowed g.modes) ok
        (λ _. main_behind_flags-Allowed o g.modes g.register_only c' (with_files m fs))
        (λ _. inl refl)

  main_behind_flags_lem :
      (o : Outside) (mode : Mode) (once : Bool) (c : DeviceConfig) (m : Machine S)
      → is_feeding mode ≡ false
      → main_behind_flags t p o mode once c m ≡ of_mode c (run_mode t p mode c m)
  unfolding main_behind_flags
  main_behind_flags_lem o mode once c m h = rw h refl

  -- In a mode that ends before the registration, what the network answers to a registration and the
  -- random bytes make no difference, and the settings are those that the flags gave.
  pub main_offline :
      (o : Outside) (network : Network) (raw : Option Str) (g : Given) (c : DeviceConfig)
      (m : Machine S)
      → is_feeding (mode_of g.modes) ≡ false
      → let o' : Outside = record o { network = network; raw = raw } in
        (main t p o' g c m ≡ main t p o g c m)
        × ((main t p o g c m).cfg ≡ (apply_flags o.marshal o.flag_saves g.flags c m.files).1)
  unfolding main
  main_offline o network raw g c m h =
      let (ok, c', fs) = apply_flags o.marshal o.flag_saves g.flags c m.files in
      let o' : Outside = record o { network = network; raw = raw } in
      let mode = mode_of g.modes in
      let m' = with_files m fs in
      let behind = main_behind_flags_lem o mode g.register_only c' m' h in
      let behind' = main_behind_flags_lem o' mode g.register_only c' m' h in
      (
        if_case2 {A = Ran S} {B = Ran S} (λ r r'. r ≡ r') ok (λ _. behind' ∙ sym behind)
            (λ _. refl),
        if_case {A = Ran S} (λ r. r.cfg ≡ c') ok (λ _. ap (λ r. r.cfg) behind) (λ _. refl),
      )
