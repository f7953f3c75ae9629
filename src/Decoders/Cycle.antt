-- ===== src/Decoders/Cycle.antt =====
-- One round of `run` of agent/decoders.go: the closures `stopAll` and `reconcile`, with the sorting
-- of `writeReceiverInventory` of agent/receiver_inventory.go.
use flightpatch.Common.{
  Bool, true, false, ◌&&◌, not, List, [], ◌∷◌, ◌++◌, map, Option, none, some, if◌then◌else◌,
}
use flightpatch.Config.{DeviceConfig, role_adsb, role_uat, role_off}
use flightpatch.Decoders.{
  Dongle, RoleAssignment, Child, Forwarder, ReceiverInventory, Event, decoder_stopped,
  forwarder_started, forwarder_stopped, Manager, Round, assign_all, receiver_identity,
}
use flightpatch.Dict.{lookup, insert, retain, dropped, mem}
use flightpatch.Text.{Str, str_eq, str_lt}

abbrev pub is_empty_list {ℓ} : {A : Type ℓ} → List A → Bool
is_empty_list [] = true
is_empty_list (x ∷ xs) = false

-- Everything is stopped and the dongles are free.
unfoldable pub stop_all : Manager → Manager
stop_all m = record m {
  active = [];
  forwarders = [];
  status = [];
  events =
      m.events
      ++ (map (λ t. decoder_stopped t.0) m.active ++ map (λ t. forwarder_stopped t.0) m.forwarders);
}

-- `role:key`, and whether a receiver has a relay of its own.
abbrev pub relay_key : ReceiverInventory → Str
relay_key e = e.role ++ (b':' ∷ e.key)

abbrev pub has_relay : Str → Bool
has_relay role = not (str_eq role role_off) && not (str_eq role role_uat)

-- What the relay of a receiver is started with.
unfoldable pub forwarder_for : (Str → Str) → DeviceConfig → ReceiverInventory → Forwarder
forwarder_for sha256 cfg e =
    if str_eq e.role role_adsb
    then record {
      local_port = e.ports.beast;
      feed = cfg.feed;
      receiver_id = (receiver_identity sha256 cfg.device_id e.key).0;
    }
    else record { local_port = e.ports.vdl2; feed = cfg.vdl2_feed; receiver_id = [] }

pub record Relays : Type 0 where
  pub wanted : List Str
  pub running : List (Str × Forwarder)
  pub events : List Event

-- A relay that runs is left alone.
unfoldable pub keep_or_start : Str → Forwarder → Option Forwarder → Relays → Relays
keep_or_start k f (some old) r = r
keep_or_start k f none r = record r {
  running = insert k f r.running;
  events = r.events ++ forwarder_started k ∷ [];
}

unfoldable pub relay_one : (Str → Str) → DeviceConfig → ReceiverInventory → Relays → Relays
relay_one sha256 cfg e r =
    if has_relay e.role
    then keep_or_start (relay_key e) (forwarder_for sha256 cfg e) (lookup (relay_key e) r.running)
        (record r { wanted = relay_key e ∷ r.wanted })
    else r

unfoldable pub relay_all : (Str → Str) → DeviceConfig → List ReceiverInventory → Relays → Relays
relay_all sha256 cfg [] r = r
relay_all sha256 cfg (e ∷ es) r = relay_all sha256 cfg es (relay_one sha256 cfg e r)

-- The order of the inventory: by role, and by key within a role.
unfoldable pub inventory_lt : ReceiverInventory → ReceiverInventory → Bool
inventory_lt a b = if str_eq a.role b.role then str_lt a.key b.key else str_lt a.role b.role

unfoldable pub insert_sorted : ReceiverInventory → List ReceiverInventory → List ReceiverInventory
unfolding inventory_lt
insert_sorted e [] = e ∷ []
insert_sorted e (f ∷ fs) =
    let rest = f ∷ insert_sorted e fs in if inventory_lt f e then rest else e ∷ (f ∷ fs)

-- `sort.Slice`; receivers of one role and key, which it may leave in any order, keep theirs.
unfoldable pub sort_inventory : List ReceiverInventory → List ReceiverInventory
unfolding insert_sorted
sort_inventory [] = []
sort_inventory (e ∷ es) = insert_sorted e (sort_inventory es)

abbrev pub status_of : Str × Child → Str
status_of (k, c) = c.role ++ (b'@' ∷ k)

abbrev pub first_round : Manager → Round
first_round m = record {
  seen = [];
  inventory = [];
  adsb_slot = 0;
  vdl2_slot = 0;
  active = m.active;
  events = m.events;
}

-- The reconciliation behind the assignment of the roles.
unfoldable pub reconcile_assigned :
    (Str → Str) → DeviceConfig → List RoleAssignment → Manager → Manager
reconcile_assigned sha256 cfg assigns m =
    let r = assign_all sha256 cfg.device_id assigns (first_round m) in
    let is_seen = λ (k : Str). mem k r.seen in
    let active = retain is_seen r.active in
    let gone = map decoder_stopped (dropped is_seen r.active) in
    let relays : Relays = record {
      wanted = [];
      running = m.forwarders;
      events = r.events ++ gone;
    } in
    let f = relay_all sha256 cfg r.inventory relays in
    let is_wanted = λ (k : Str). mem k f.wanted in
    let idle = map forwarder_stopped (dropped is_wanted f.running) in
    record m {
      active = active;
      forwarders = retain is_wanted f.running;
      status = map status_of active;
      receivers = sort_inventory r.inventory;
      events = f.events ++ idle;
    }

-- `reconcile`, with the dongles that were enumerated and the roles that they were given.
unfoldable pub reconcile :
    (Str → Str) → DeviceConfig → List Dongle → List RoleAssignment → Manager → Manager
reconcile sha256 cfg dongles assigns m =
    if not m.enabled
    then (if is_empty_list m.active && is_empty_list m.forwarders then m else stop_all m)
    else if is_empty_list dongles
    then m
    else reconcile_assigned sha256 cfg assigns m
