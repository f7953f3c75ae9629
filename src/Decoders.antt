-- ===== src/Decoders.antt =====
-- The supervisor of the decoders: agent/decoders.go, the reconciliation of `run`, with the inventory
-- of agent/receiver_inventory.go. Goroutines and processes are named by what they were started with.
pub mod Cycle
pub mod Active
pub mod Ports
pub mod Forwarders
pub mod Reconcile
pub mod Supervise
pub mod Assign
pub mod Probe
pub mod Runnable
pub mod Settled
pub mod Run
pub mod Tally
pub mod Balance
pub mod Accounts
pub mod Pushed
pub mod Desired
pub mod Inventory
mod Examples
mod RoleExamples
mod RunExamples
use flightpatch.Beast.Hex.{encode_to_string}
use flightpatch.Common.{
  ℕ, ◌+◌, ◌*◌, Bool, true, false, ◌&&◌, ◌||◌, not, List, [], ◌∷◌, ◌++◌, map, Option, none, some,
  ◌==◌, if◌then◌else◌, take, drop,
}
use flightpatch.Config.{DeviceConfig, role_adsb, role_uat, role_vdl2, role_off}
use flightpatch.Dict.{lookup, insert, erase, retain, dropped, mem}
use flightpatch.Text.Decimal.{decimal}
use flightpatch.Text.{Str, codes, str_eq, str_lt, is_empty}

pub record Dongle : Type 0 where
  pub index : ℕ
  pub serial : Str
  pub product : Str
  pub port : Str

-- The USB port, or the serial where there is none.
unfoldable pub key : Dongle → Str
key d = if not (is_empty d.port) then d.port else d.serial

-- `%s|%s|%d`
unfoldable pub identity : Dongle → Str
identity d = d.serial ++ (b'|' ∷ (d.product ++ (b'|' ∷ decimal d.index)))

pub record RoleAssignment : Type 0 where
  pub dongle : Dongle
  pub role : Str

pub record PortSet : Type 0 where
  pub beast : ℕ
  pub sbs : ℕ
  pub vdl2 : ℕ

-- A running decoder.
pub record Child : Type 0 where
  pub role : Str
  pub identity : Str
  pub ports : PortSet

-- A relay, by what its goroutine was started with.
pub record Forwarder : Type 0 where
  pub local_port : ℕ
  pub feed : Str
  pub receiver_id : Str

pub record ReceiverInventory : Type 0 where
  pub key : Str
  pub serial : Str
  pub product : Str
  pub index : ℕ
  pub role : Str
  pub frequency_hz : ℕ
  pub ports : PortSet
  pub receiver_id : Str

pub data Event : Type 0 where
  decoder_started decoder_stopped : Str → Event
  forwarder_started forwarder_stopped : Str → Event

-- The manager, with the maps of `run`, and what was started and stopped so far.
pub record Manager : Type 0 where
  pub enabled : Bool
  pub active : List (Str × Child)
  pub forwarders : List (Str × Forwarder)
  pub status : List Str
  pub receivers : List ReceiverInventory
  pub events : List Event

-- The ports for a role, from the slots that are free.
unfoldable pub ports_for : Str → ℕ → ℕ → PortSet
ports_for role adsb_slot vdl2_slot =
    if str_eq role role_adsb
    then record { beast = 30005 + adsb_slot * 100; sbs = 30003 + adsb_slot * 100; vdl2 = 0 }
    else if str_eq role role_vdl2
    then record { beast = 0; sbs = 0; vdl2 = 5553 + vdl2_slot }
    else record { beast = 0; sbs = 0; vdl2 = 0 }

abbrev pub next_slot : Str → Str → ℕ → ℕ
next_slot role r slot = if str_eq role r then slot + 1 else slot

unfoldable pub frequency : Str → ℕ
frequency role =
    if str_eq role role_adsb
    then 1090000000
    else if str_eq role role_uat
    then 978000000
    else if str_eq role role_vdl2
    then 136975000
    else 0

-- `receiverIdentity`: the first eight bytes of a digest, and their text. SHA-256 is a parameter.
unfoldable pub receiver_identity : (Str → Str) → Str → Str → Str × Str
receiver_identity sha256 device_id k =
    let raw = take 8 (sha256 (device_id ++ (b'|' ∷ k))) in
    let x = encode_to_string raw in
    (raw, take 8 x ++ (b'-' ∷ (take 4 (drop 8 x) ++ (b'-' ∷ take 4 (drop 12 x)))))

-- The variables of the loop over the assignments.
pub record Round : Type 0 where
  pub seen : List Str
  pub inventory : List ReceiverInventory
  pub adsb_slot : ℕ
  pub vdl2_slot : ℕ
  pub active : List (Str × Child)
  pub events : List Event

abbrev pub same_child : Child → Child → Bool
same_child a b =
    str_eq a.role b.role
    && (str_eq a.identity b.identity
        && (a.ports.beast == b.ports.beast
            && (a.ports.sbs == b.ports.sbs && a.ports.vdl2 == b.ports.vdl2)))

-- A decoder that runs as wanted is left alone; one that does not is stopped first.
unfoldable pub place : Str → Child → Option Child → Round → Round
place k c none r = record r {
  active = insert k c r.active;
  events = r.events ++ decoder_started k ∷ [];
}
place k c (some running) r = if same_child running c then r else record r {
  active = insert k c (erase k r.active);
  events = r.events ++ decoder_stopped k ∷ (decoder_started k ∷ []);
}

abbrev pub child_for : RoleAssignment → ℕ → ℕ → Child
child_for a adsb_slot vdl2_slot = record {
  role = a.role;
  identity = identity a.dongle;
  ports = ports_for a.role adsb_slot vdl2_slot;
}

unfoldable pub entry_for : (Str → Str) → Str → RoleAssignment → ℕ → ℕ → ReceiverInventory
entry_for sha256 device_id a adsb_slot vdl2_slot = record {
  key = key a.dongle;
  serial = a.dongle.serial;
  product = a.dongle.product;
  index = a.dongle.index;
  role = a.role;
  frequency_hz = frequency a.role;
  ports = ports_for a.role adsb_slot vdl2_slot;
  receiver_id = (receiver_identity sha256 device_id (key a.dongle)).1;
}

-- The part of the loop's body before the decoders: the receiver is listed and takes its slot.
unfoldable pub list_receiver : (Str → Str) → Str → RoleAssignment → Round → Round
list_receiver sha256 device_id a r = record r {
  seen = key a.dongle ∷ r.seen;
  inventory = r.inventory ++ entry_for sha256 device_id a r.adsb_slot r.vdl2_slot ∷ [];
  adsb_slot = next_slot a.role role_adsb r.adsb_slot;
  vdl2_slot = next_slot a.role role_vdl2 r.vdl2_slot;
}

-- The body of the loop over the assignments; a receiver that is off is passed over.
unfoldable pub assign_one : (Str → Str) → Str → RoleAssignment → Round → Round
assign_one sha256 device_id a r =
    let k = key a.dongle in
    let r' = list_receiver sha256 device_id a r in
    if str_eq a.role role_off
    then r'
    else place k (child_for a r.adsb_slot r.vdl2_slot) (lookup k r'.active) r'

unfoldable pub assign_all : (Str → Str) → Str → List RoleAssignment → Round → Round
assign_all sha256 device_id [] r = r
assign_all sha256 device_id (a ∷ rest) r =
    assign_all sha256 device_id rest (assign_one sha256 device_id a r)
