-- ===== src/Update/Examples.antt =====
-- Tests on versions and updates, and instances of the theorems on them.
use flightpatch.Common.{[], ◌∷◌, some, none, true, false, ◌≡◌, refl, arith}
use flightpatch.Files.{Files}
use flightpatch.Dict.{lookup}
use flightpatch.Text.{Str, codes}
use flightpatch.Update.Order.{Precedes, FirstAsset, check_update-settles}
use flightpatch.Update.Swap.{Stands, Outcome, self_update-Outcome}
use flightpatch.Update.Versions.{print_numbers, parse_ver-print}
use flightpatch.Update.{
  Asset, GhRelease, Faults, Download, fetched, parse_ver, semver_newer, check_update, find_asset,
  released, self_update,
}

abbrev exe : Str
exe = codes "agent"

abbrev before : Files
before = record { disk = (exe, codes "v1") ∷ []; past = [] }

-- The new program cannot be moved into place, and the old one not back.
abbrev stuck : Faults
stuck = record {
  creates = true;
  removes_old = true;
  moves_aside = true;
  removes_new = true;
  installs = false;
  rolls_back = false;
}

before-Stands : Stands exe (codes "v1") exe before
unfolding lookup flightpatch.Text.str_eq
before-Stands = record { here = refl; before = tt }

-- An update that is stuck leaves no executable.
stuck_update : lookup exe (self_update (some exe) (fetched (codes "v2")) stuck before).1.disk ≡ none
unfolding lookup self_update flightpatch.Update.download flightpatch.Files.write
    flightpatch.Update.swap flightpatch.Files.rename flightpatch.Files.remove flightpatch.Dict.erase
    flightpatch.Dict.insert flightpatch.Text.str_eq flightpatch.Update.install
stuck_update = refl

abbrev working : Faults
working = record {
  creates = true;
  removes_old = false;
  moves_aside = true;
  removes_new = true;
  installs = true;
  rolls_back = true;
}

self_update-Outcome_example :
    Outcome exe
      (codes "v1")
      (fetched (codes "v2"))
      true
      (self_update (some exe) (fetched (codes "v2")) working before)
self_update-Outcome_example =
    self_update-Outcome exe (codes "v1") (fetched (codes "v2")) working before before-Stands

self_update_works : (self_update (some exe) (fetched (codes "v2")) working before).0 ≡ true
unfolding self_update flightpatch.Update.download flightpatch.Files.write flightpatch.Update.swap
    flightpatch.Files.rename lookup flightpatch.Files.remove flightpatch.Dict.insert
    flightpatch.Text.str_eq flightpatch.Update.install flightpatch.Dict.erase
self_update_works = refl

newer_patch : semver_newer (codes "0.2.0") (codes "v0.2.1") ≡ true
unfolding semver_newer flightpatch.Update.is_newer parse_ver flightpatch.Update.split3
    flightpatch.Text.trim_prefix flightpatch.Text.trim_space flightpatch.Update.atoi
    flightpatch.Update.trim_right_digits flightpatch.Update.trim_left_digits
    flightpatch.Text.Decimal.value_onto
newer_patch = refl

newer_minor : semver_newer (codes "v0.2.1") (codes "v0.10.0") ≡ true
unfolding semver_newer flightpatch.Update.is_newer parse_ver flightpatch.Update.split3
    flightpatch.Text.trim_prefix flightpatch.Text.trim_space flightpatch.Update.atoi
    flightpatch.Update.trim_right_digits flightpatch.Update.trim_left_digits
    flightpatch.Text.Decimal.value_onto
newer_minor = refl

-- A patch level with a suffix behind it reads as 0.
suffix_reads_as_zero : parse_ver (codes "v1.2.3-4") ≡ (1, 2, 0)
unfolding parse_ver flightpatch.Update.split3 flightpatch.Text.trim_prefix
    flightpatch.Text.trim_space flightpatch.Update.atoi flightpatch.Update.trim_right_digits
    flightpatch.Update.trim_left_digits flightpatch.Text.Decimal.value_onto
suffix_reads_as_zero = refl

parse_ver-print_example : parse_ver (b'v' ∷ print_numbers 0 12 3) ≡ (0, 12, 3)
parse_ver-print_example = parse_ver-print 0 12 3 (omega arith) (omega arith) (omega arith)

abbrev latest : GhRelease
latest = record {
  tag_name = codes "v0.3.0";
  assets =
      record { name = codes "a-linux-amd64"; url = codes "u1" }
      ∷ (record { name = codes "a-windows-amd64.exe"; url = codes "u2" } ∷ []);
}

abbrev platform : Str
platform = codes "windows-amd64.exe"

offered_once :
    check_update platform (codes "0.2.0") (released latest) ≡ some (codes "v0.3.0", codes "u2")
unfolding check_update semver_newer flightpatch.Update.is_newer parse_ver flightpatch.Update.split3
    flightpatch.Text.trim_prefix flightpatch.Text.trim_space flightpatch.Update.atoi
    flightpatch.Update.trim_right_digits flightpatch.Update.trim_left_digits
    flightpatch.Text.Decimal.value_onto find_asset flightpatch.Update.has_suffix
    flightpatch.Text.str_eq
offered_once = refl

check_update-settles_example :
    (codes "v0.3.0" ≡ latest.tag_name)
    × (Precedes (parse_ver (codes "0.2.0")) (parse_ver (codes "v0.3.0"))
        × (FirstAsset platform (codes "u2") latest.assets
            × (check_update platform (codes "v0.3.0") (released latest) ≡ some ([], []))))
check_update-settles_example =
    check_update-settles platform (codes "0.2.0") (codes "v0.3.0") (codes "u2") latest offered_once
      refl
