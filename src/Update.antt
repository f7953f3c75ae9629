-- ===== src/Update.antt =====
-- Updates of the agent: agent/update.go. Versions, the choice of a release's asset, and the swap of
-- the executable over the files of Files.antt.
pub mod Versions
pub mod Order
pub mod Swap
pub mod Installed
mod Examples
use flightpatch.Common.{
  ℕ, ◌+◌, ◌*◌, ◌-◌, Bool, true, false, not, ◌&&◌, ◌||◌, ◌^◌, List, [], ◌∷◌, ◌++◌, map, Option, none,
  some, ltb, leb, ◌==◌, if◌then◌else◌,
}
use flightpatch.Files.{Files, write, remove, rename}
use flightpatch.Text.Decimal.{is_digit, all_digits, value_onto}
use flightpatch.Text.{Str, codes, str_eq, is_empty, trim_space, trim_prefix}

-- The text before the first dot, and the text behind it where there is one.
unfoldable pub cut : Str → Str × Option Str
cut [] = ([], none)
cut (x ∷ xs) =
    let (before, rest) = cut xs in if x == b'.' then ([], some xs) else (x ∷ before, rest)

abbrev rest_parts : Option Str → (Str → List Str) → List Str
rest_parts none f = []
rest_parts (some s) f = f s

-- `strings.SplitN(s, ".", 3)`
unfoldable pub split3 : Str → List Str
unfolding cut
split3 s = (cut s).0 ∷ rest_parts (cut s).1 (λ t. (cut t).0 ∷ rest_parts (cut t).1 (λ u. u ∷ []))

-- `strings.TrimFunc` with the test of a digit, its left and its right half. No byte of a rune beyond
-- ASCII is a digit.
unfoldable pub trim_left_digits : Str → Str
trim_left_digits [] = []
trim_left_digits (x ∷ xs) = let rest = trim_left_digits xs in if is_digit x then x ∷ xs else rest

unfoldable pub trim_right_digits : Str → Str
trim_right_digits [] = []
trim_right_digits (x ∷ xs) =
    let rest = trim_right_digits xs in if is_empty rest && not (is_digit x) then [] else x ∷ rest

-- The value that `strconv.Atoi` returns beside its error for a text without a sign: 0 for a text
-- that is no number, and the greatest int for a number out of range.
unfoldable pub atoi : Str → ℕ
unfolding all_digits
atoi s =
    if is_empty s || not (all_digits s)
    then 0
    else if ltb (value_onto 0 s) (2 ^ 63)
    then value_onto 0 s
    else 2 ^ 63 - 1

abbrev pub Version : Type 0
Version = ℕ × ℕ × ℕ

-- The array that the loop fills.
abbrev versioned : List ℕ → Version
versioned [] = (0, 0, 0)
versioned (a ∷ []) = (a, 0, 0)
versioned (a ∷ (b ∷ [])) = (a, b, 0)
versioned (a ∷ (b ∷ (c ∷ rest))) = (a, b, c)

abbrev pub part : Str → ℕ
part p = atoi (trim_right_digits (trim_left_digits p))

unfoldable pub parse_ver : Str → Version
parse_ver s = versioned (map part (split3 (trim_prefix b'v' (trim_space s))))

-- The loop of `semverNewer` on two parsed versions.
unfoldable pub is_newer : Version → Version → Bool
is_newer (c0, c1, c2) (t0, t1, t2) =
    if not (t0 == c0)
    then ltb c0 t0
    else if not (t1 == c1)
    then ltb c1 t1
    else if not (t2 == c2)
    then ltb c2 t2
    else false

unfoldable pub semver_newer : Str → Str → Bool
semver_newer current tag = is_newer (parse_ver current) (parse_ver tag)

pub record Asset : Type 0 where
  pub name : Str
  pub url : Str

pub record GhRelease : Type 0 where
  pub tag_name : Str
  pub assets : List Asset

-- `assetSuffix`, by the names of the platform.
unfoldable pub asset_suffix : Str → Str → Str
asset_suffix os arch =
    let s = os ++ (b'-' ∷ arch) in if str_eq os (codes "windows") then s ++ codes ".exe" else s

-- `strings.HasSuffix`
unfoldable pub has_suffix : Str → Str → Bool
has_suffix [] suf = is_empty suf
has_suffix (x ∷ xs) suf = str_eq (x ∷ xs) suf || has_suffix xs suf

-- The loop over the assets.
unfoldable pub find_asset : Str → List Asset → Option Str
find_asset suf [] = none
find_asset suf (a ∷ rest) = if has_suffix a.name suf then some a.url else find_asset suf rest

-- What the request came to: an error, a status that is not 200, a body that is no release, or one.
pub data Reply : Type 0 where
  unreachable undecodable : Reply
  refused : ℕ → Reply
  released : GhRelease → Reply

abbrev offered : Str → Option Str → Option (Str × Str)
offered tag none = none
offered tag (some url) = some (tag, url)

-- The tag and the address of the asset, both empty where there is nothing newer; none is an error.
unfoldable pub check_update : Str → Str → Reply → Option (Str × Str)
check_update suf current unreachable = none
check_update suf current undecodable = none
check_update suf current (refused status) = none
check_update suf current (released rel) =
    if not (semver_newer current rel.tag_name)
    then some ([], [])
    else offered rel.tag_name (find_asset suf rel.assets)

-- What a download came to: an error before the file is created, a body that breaks off, or all of it.
pub data Download : Type 0 where
  not_fetched : Download
  broken_off : Str → Download
  fetched : Str → Download

-- `download`, where the file may also fail to be created.
unfoldable pub download : Bool → Download → Str → Files → Bool × Files
download can_create not_fetched dst fs = (false, fs)
download can_create (broken_off part) dst fs = (false, (write can_create dst part fs).1)
download can_create (fetched body) dst fs = write can_create dst body fs

-- Which operations on files work.
pub record Faults : Type 0 where
  pub creates : Bool
  pub removes_old : Bool
  pub moves_aside : Bool
  pub removes_new : Bool
  pub installs : Bool
  pub rolls_back : Bool

abbrev pub new_path : Str → Str
new_path exe = exe ++ codes ".new"

abbrev pub old_path : Str → Str
old_path exe = exe ++ codes ".old"

-- The last part of `selfUpdate`, with the executable moved aside.
unfoldable pub install : Faults → Str → Files → Bool × Files
install w exe fs =
    let (installed, fs') = rename w.installs (new_path exe) exe fs in
    if installed then (true, fs') else (false, (rename w.rolls_back (old_path exe) exe fs').1)

-- The part behind the download.
unfoldable pub swap : Faults → Str → Files → Bool × Files
swap w exe fs =
    let (aside, fs') =
      rename w.moves_aside exe (old_path exe) (remove w.removes_old (old_path exe) fs).1 in
    let rest = install w exe fs' in
    if aside then rest else (false, (remove w.removes_new (new_path exe) fs').1)

-- `selfUpdate` for the path of the executable, where the system knows it. The mode of the new file
-- is not modelled.
unfoldable pub self_update : Option Str → Download → Faults → Files → Bool × Files
self_update none d w fs = (false, fs)
self_update (some exe) d w fs =
    let (ok, fs1) = download w.creates d (new_path exe) fs in
    if ok then swap w exe fs1 else (false, fs1)
