-- ===== src/Files.antt =====
-- The files that the agent writes (package os): contents by path, with every earlier state of the
-- disk, since the machine may stop between two operations. An operation that does not work changes
-- nothing; whether it works is an argument.
pub mod Paths
use flightpatch.Common.{Bool, true, false, List, ◌∷◌, [], Option, none, some, if◌then◌else◌}
use flightpatch.Dict.{lookup, insert, erase}
use flightpatch.Text.{Str}

abbrev pub Disk : Type 0
Disk = List (Str × Str)

pub record Files : Type 0 where
  pub disk : Disk
  pub past : List Disk

-- The disk is as given from here on.
abbrev pub become : Disk → Files → Files
become d fs = record { disk = d; past = fs.disk ∷ fs.past }

-- A file is created, or emptied, and then written.
unfoldable pub write : Bool → Str → Str → Files → Bool × Files
write works p s fs =
    if works
    then (true, become (insert p s fs.disk) (become (insert p [] fs.disk) fs))
    else (false, fs)

unfoldable pub remove : Bool → Str → Files → Bool × Files
remove works p fs = if works then (true, become (erase p fs.disk) fs) else (false, fs)

abbrev move : Str → Str → Option Str → Files → Bool × Files
move from to none fs = (false, fs)
move from to (some s) fs = (true, become (insert to s (erase from fs.disk)) fs)

-- `os.Rename`, which replaces its target at once and needs its source.
unfoldable pub rename : Bool → Str → Str → Files → Bool × Files
rename works from to fs =
    let moved = move from to (lookup from fs.disk) fs in if works then moved else (false, fs)
