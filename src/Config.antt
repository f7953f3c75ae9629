-- ===== src/Config.antt =====
-- The persisted settings of the agent: agent/config.go, with `applyDefaultRole` of agent/main.go.
pub mod Roles
pub mod Defaults
pub mod Save
pub mod Load
mod Examples
mod SaveExamples
use flightpatch.Common.{
  Bool, true, false, ◌&&◌, ◌||◌, not, List, [], ◌∷◌, Option, none, some, if◌then◌else◌,
}
use flightpatch.Text.{Str, codes, str_eq, is_empty}

-- The roles of agent/decoders.go.
abbrev pub role_adsb : Str
role_adsb = codes "adsb"

abbrev pub role_uat : Str
role_uat = codes "uat"

abbrev pub role_vdl2 : Str
role_vdl2 = codes "vdl2"

abbrev pub role_off : Str
role_off = codes "off"

pub record DongleRole : Type 0 where
  pub serial : Str
  pub role : Str

pub record DeviceConfig : Type 0 where
  pub install_source : Str
  pub device_id : Str
  pub token : Str
  pub org_name : Str
  pub user_email : Str
  pub server : Str
  pub feed : Str
  pub local_beast : Str
  pub decoder_dir : Str
  pub vdl2_feed : Str
  pub local_vdl2 : Str
  pub gain : Str
  pub default_role : Str
  pub vdl2_freqs : List Str
  pub roles : List DongleRole
  pub local_roles : List DongleRole
  pub path : Str

-- A loop of `roleFor`: the role of the first entry with the serial.
unfoldable pub find_role : List DongleRole → Str → Option Str
find_role [] serial = none
find_role (r ∷ rs) serial = if str_eq r.serial serial then some r.role else find_role rs serial

abbrev or_else : Option Str → Option Str → Str
or_else (some r) second = r
or_else none (some r) = r
or_else none none = []

-- `""` for a dongle with no assignment.
unfoldable pub role_for : DeviceConfig → Str → Str
unfolding find_role
role_for c serial = or_else (find_role c.local_roles serial) (find_role c.roles serial)

-- The loop of `setRole`, which updates an entry in place or appends one, and the result.
pub set_role_in : List DongleRole → Str → Str → List DongleRole × Bool
set_role_in [] serial role = (record { serial = serial; role = role } ∷ [], true)
set_role_in (r ∷ rs) serial role =
    let (rest, changed) = set_role_in rs serial role in
    if str_eq r.serial serial
    then (if str_eq r.role role then (r ∷ rs, false) else (record r { role = role } ∷ rs, true))
    else (r ∷ rest, changed)

unfoldable pub set_role : DeviceConfig → Str → Str → DeviceConfig × Bool
unfolding set_role_in
set_role c serial role =
    let (roles, changed) = set_role_in c.roles serial role in (record c { roles = roles }, changed)

-- An explicit choice of the installer that differs from the old one drops the server's assignments.
unfoldable pub apply_default_role : DeviceConfig → Str → DeviceConfig
apply_default_role c role =
    if (str_eq role role_adsb || (str_eq role role_vdl2 || str_eq role (codes "auto")))
      && not (str_eq c.default_role role)
    then record c { default_role = role; roles = [] }
    else c

abbrev default_to : Str → Str → Str
default_to d v = if is_empty v then d else v

abbrev default_freqs : List Str
default_freqs =
    codes "136650000"
    ∷ codes "136700000"
    ∷ codes "136725000"
    ∷ codes "136750000"
    ∷ codes "136775000"
    ∷ codes "136800000"
    ∷ codes "136825000"
    ∷ codes "136875000"
    ∷ codes "136975000"
    ∷ []

abbrev default_list : List Str → List Str → List Str
default_list d [] = d
default_list d (f ∷ fs) = f ∷ fs

-- The directory of the executable, where the system tells it.
abbrev default_dir : Option Str → Str → Str
default_dir none dir = dir
default_dir (some exe_dir) dir = default_to exe_dir dir

-- The defaults that `LoadConfig` fills in, with the directory of `os.Executable()`.
unfoldable pub fill_defaults : Option Str → DeviceConfig → DeviceConfig
fill_defaults exe_dir c = record c {
  server = default_to (codes "https://adsbiq.com") c.server;
  feed = default_to (codes "feed.adsbiq.com:30004") c.feed;
  local_beast = default_to (codes "127.0.0.1:30005") c.local_beast;
  vdl2_feed = default_to (codes "feed.adsbiq.com:5552") c.vdl2_feed;
  local_vdl2 = default_to (codes "127.0.0.1:5553") c.local_vdl2;
  gain = default_to (codes "40") c.gain;
  default_role = default_to (codes "auto") c.default_role;
  vdl2_freqs = default_list default_freqs c.vdl2_freqs;
  decoder_dir = default_dir exe_dir c.decoder_dir;
}

-- The zero value of the struct.
abbrev pub zero_config : DeviceConfig
zero_config = record {
  install_source = [];
  device_id = [];
  token = [];
  org_name = [];
  user_email = [];
  server = [];
  feed = [];
  local_beast = [];
  decoder_dir = [];
  vdl2_feed = [];
  local_vdl2 = [];
  gain = [];
  default_role = [];
  vdl2_freqs = [];
  roles = [];
  local_roles = [];
  path = [];
}
