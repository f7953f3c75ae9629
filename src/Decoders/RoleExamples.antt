-- ===== src/Decoders/RoleExamples.antt =====
-- Tests and instances of the theorems on the roles of the dongles and the pauses between attempts.
use flightpatch.Common.{
  ◌++◌, Option, is_some, none, some, ltb, Bool, true, false, List, [], ◌∷◌, ◌≡◌, refl, arith,
}
use flightpatch.Config.{DeviceConfig, zero_config, find_role, role_vdl2, role_off, set_role}
use flightpatch.Decoders.Assign.{Bundle, Assigning, assign_roles, bundle_of}
use flightpatch.Decoders.Settled.{NoneBlank, unchanged, assign_roles_again}
use flightpatch.Decoders.Probe.{
  Programs, Children, exe_path, probe_dongle, listen_vdl2, probe_adsb_bytes, count_bytes,
}
use flightpatch.Decoders.Run.{probe_vdl2, count_lines}
use flightpatch.Decoders.Runnable.{AreRunnable, AllRunnable, assign_roles-AllRunnable}
use flightpatch.Decoders.Supervise.{Attempt, unavailable, not_started, exited, supervise_decoder}
use flightpatch.Decoders.{Dongle, key, RoleAssignment, PortSet, Manager, child_for}
use flightpatch.Decoders.Pushed.{dongle_keys}
use flightpatch.Dict.{mem}
use flightpatch.Text.{Str, codes, str_eq, trim_space}

abbrev attempts : List Attempt
attempts = not_started ∷ not_started ∷ unavailable ∷ exited 5 ∷ exited 5 ∷ exited 5 ∷ exited 61 ∷ []

pauses : supervise_decoder attempts ≡ 2 ∷ 4 ∷ 30 ∷ 8 ∷ 16 ∷ 30 ∷ 2 ∷ []
unfolding supervise_decoder flightpatch.Decoders.Supervise.supervise
    flightpatch.Decoders.Supervise.pause
pauses = refl

abbrev both : Bundle
both = record { adsb = true; vdl2 = true; uat = false }

abbrev first_dongle : Dongle
first_dongle = record { index = 0; serial = codes "s0"; product = codes "p"; port = codes "1-1" }

abbrev second_dongle : Dongle
second_dongle = record { index = 1; serial = codes "s1"; product = codes "p"; port = codes "1-2" }

abbrev dongles : List Dongle
dongles = first_dongle ∷ second_dongle ∷ []

-- The second dongle hears VDL2.
abbrev heard : Dongle → Bool
heard d = ltb 0 d.index

abbrev deaf : Dongle → Bool
deaf d = false

both_are_probed :
    (assign_roles both heard dongles zero_config).probed ≡ codes "1-1" ∷ (codes "1-2" ∷ [])
unfolding assign_roles flightpatch.Decoders.Assign.choose flightpatch.Config.role_for
    flightpatch.Text.str_eq flightpatch.Decoders.key flightpatch.Decoders.Assign.settle
    flightpatch.Config.set_role
both_are_probed = refl

zero_config-NoneBlank : NoneBlank both zero_config
unfolding find_role
zero_config-NoneBlank k e = absurd (ground arith)

assign_roles_again_example :
    let first = assign_roles both heard dongles zero_config in
    assign_roles both deaf dongles first.cfg ≡ unchanged both first.cfg first.out
assign_roles_again_example =
    assign_roles_again both heard deaf dongles zero_config zero_config-NoneBlank

second_key-absent : mem (key second_dongle) (dongle_keys (first_dongle ∷ [])) ≡ false
unfolding key mem str_eq
second_key-absent = refl

empty-absent : mem (key second_dongle) (dongle_keys []) ≡ false
unfolding mem
empty-absent = refl

none_confirmed : find_role zero_config.local_roles (key second_dongle) ≡ none
unfolding find_role
none_confirmed = refl

vdl2_runs : str_eq role_vdl2 role_off ≡ false
unfolding str_eq
vdl2_runs = refl

abbrev digest : Str → Str
digest s = s

abbrev manager : Manager
manager = record {
  enabled = true;
  active = [];
  forwarders = [];
  status = [];
  receivers = [];
  events = [];
}

-- Only the ADS-B decoder lies beside the agent.
abbrev beside : Programs
beside = record {
  exists = str_eq (codes "/opt/dump1090");
  join = λ dir name. dir ++ (b'/' ∷ name);
  look_path = λ name. none;
}

abbrev find : Str → Option Str
find name = exe_path beside (codes "/opt") name

abbrev slot : PortSet
slot = record { beast = 30005; sbs = 30003; vdl2 = 5552 }

zero_config-AreRunnable : AreRunnable find false zero_config first_dongle slot zero_config
unfolding flightpatch.Config.role_for
zero_config-AreRunnable k = refl

assign_roles-AllRunnable_example :
    let a =
      assign_roles (bundle_of (λ name. is_some (find name)) false) heard dongles zero_config in
    AllRunnable find false zero_config first_dongle slot a.out
    × AreRunnable find false zero_config first_dongle slot a.cfg
assign_roles-AllRunnable_example =
    assign_roles-AllRunnable find false zero_config first_dongle slot heard dongles zero_config
      zero_config-AreRunnable

finds_beside : find (codes "dump1090") ≡ some (codes "/opt/dump1090")
unfolding exe_path str_eq
finds_beside = refl

abbrev deaf_children : Children
deaf_children = record {
  decodes = λ command. (true, codes "  " ∷ []);
  listens = λ command. record {
    starts = true;
    reads = some ((100, false) ∷ ((20, true) ∷ ((7, false) ∷ [])));
  };
}

-- A blank line is no message, and the bytes up to the first error of a read are counted.
hears_adsb :
    probe_dongle beside deaf_children false
      (record zero_config { decoder_dir = codes "/opt" })
      first_dongle
    ≡ (codes "adsb", some 120)
unfolding probe_dongle listen_vdl2 probe_adsb_bytes exe_path count_bytes probe_vdl2 count_lines
    str_eq trim_space
hears_adsb = refl
