-- ===== src/Decoders/Examples.antt =====
-- Two dongles with one serial, in different ports, and instances of the theorems.
use flightpatch.Common.{
  is_some, ℕ, true, false, [], ◌∷◌, ◌++◌, Option, none, some, ◌≡◌, refl, arith, map, if◌then◌else◌,
}
use flightpatch.Config.{DeviceConfig, role_adsb, role_off, zero_config}
use flightpatch.Decoders.Active.{keys}
use flightpatch.Decoders.Cycle.{
  reconcile, reconcile_assigned, first_round, relay_all, relay_one, keep_or_start, forwarder_for,
}
use flightpatch.Decoders.Forwarders.{reconcile_assigned-forwarders, wanted_relay, first_of_two}
use flightpatch.Decoders.Ports.{entries, used_ports, ArePorts, assign_all-ArePorts}
use flightpatch.Decoders.Desired.{desired, running, start_each, reconcile-desired}
use flightpatch.Decoders.Reconcile.{IsFor, reconcile-active}
use flightpatch.Decoders.{
  Child, Dongle, key, RoleAssignment, Manager, assign_all, assign_one, list_receiver, place,
  entry_for, ports_for, identity, Forwarder,
}
use flightpatch.Dict.{lookup, insert, erase, retain, mem}
use flightpatch.Text.Decimal.{decimal}
use flightpatch.Text.{Str, codes, str_eq}

-- A stand-in for SHA-256: the instances hold for any function.
abbrev digest : Str → Str
digest s = s ++ s

abbrev config : DeviceConfig
config = record zero_config { device_id = codes "dev-0123456789"; feed = codes "feed:30004" }

abbrev first_dongle : Dongle
first_dongle = record {
  index = 0;
  serial = codes "BLOGV4";
  product = codes "Blog V4";
  port = codes "1-2";
}

abbrev second_dongle : Dongle
second_dongle = record {
  index = 1;
  serial = codes "BLOGV4";
  product = codes "Blog V4";
  port = codes "1-3";
}

keys_differ : str_eq (key first_dongle) (key second_dongle) ≡ false
unfolding key str_eq
keys_differ = refl

abbrev first_assigned : RoleAssignment
first_assigned = record { dongle = first_dongle; role = role_adsb }

abbrev second_assigned : RoleAssignment
second_assigned = record { dongle = second_dongle; role = role_adsb }

abbrev idle : Manager
idle = record {
  enabled = true;
  active = [];
  forwarders = [];
  status = [];
  receivers = [];
  events = [];
}

abbrev both : Manager
both =
    reconcile digest config (first_dongle ∷ second_dongle ∷ [])
      (first_assigned ∷ second_assigned ∷ []) idle

both_active : map (λ t. t.0) both.active ≡ codes "1-2" ∷ codes "1-3" ∷ []
unfolding reconcile reconcile_assigned assign_all assign_one list_receiver place entry_for ports_for
    key lookup insert retain mem str_eq
both_active = refl

absent : mem (key second_dongle) (keys []) ≡ false
unfolding mem keys
absent = refl

-- The second dongle gets the second ADS-B slot.
reconcile-active_example :
    (c : Child) × ((lookup (key second_dongle) both.active ≡ some c)
      × IsFor second_assigned (first_assigned ∷ []) c)
reconcile-active_example =
    reconcile-active digest config (first_dongle ∷ second_dongle ∷ []) (first_assigned ∷ []) []
      second_assigned idle refl refl absent (unfold str_eq in refl)

-- The first dongle is unplugged.
abbrev unplugged : Manager
unplugged = reconcile digest config (second_dongle ∷ []) (second_assigned ∷ []) both

both_enabled : both.enabled ≡ true
unfolding reconcile reconcile_assigned
both_enabled = refl

-- The server switches the second dongle off: its decoder goes on.
abbrev second_off : RoleAssignment
second_off = record { dongle = second_dongle; role = role_off }

reconcile-desired_example :
    running
      (reconcile digest config
        (first_dongle ∷ second_dongle ∷ [])
        (first_assigned ∷ second_off ∷ [])
        both)
      (key second_dongle)
    ≡ desired both.enabled
        (first_dongle ∷ second_dongle ∷ [])
        (first_assigned ∷ second_off ∷ [])
        (running both)
        (key second_dongle)
reconcile-desired_example =
    reconcile-desired digest config (first_dongle ∷ second_dongle ∷ [])
      (first_assigned ∷ second_off ∷ []) both (key second_dongle)

off_goes_on :
    desired true
      (first_dongle ∷ second_dongle ∷ [])
      (first_assigned ∷ second_off ∷ [])
      (running both)
      (key second_dongle)
    ≡ running both (key second_dongle)
unfolding desired start_each key str_eq mem keys
off_goes_on = refl

assign_all-ArePorts_example : ArePorts (
    used_ports
      (assign_all digest
        (codes "dev")
        (first_assigned ∷ second_assigned ∷ [])
        (first_round idle)).inventory)
assign_all-ArePorts_example =
    assign_all-ArePorts digest (codes "dev") (first_assigned ∷ second_assigned ∷ [])
      (first_round idle) (omega arith) refl refl refl

-- After the first dongle was unplugged the second decoder moves to the first slot, and the relay of
-- the second dongle still reads the port of the second slot.
reconcile_assigned-forwarders_example :
    let k = codes "adsb:1-3" in
    let asked =
      wanted_relay digest config (entries digest config.device_id (second_assigned ∷ []) 0 0) k in
    lookup k (reconcile_assigned digest config (second_assigned ∷ []) both).forwarders
    ≡ (if is_some asked then first_of_two (lookup k both.forwarders) asked else none)
reconcile_assigned-forwarders_example =
    reconcile_assigned-forwarders digest config (second_assigned ∷ []) both (codes "adsb:1-3")

relay_port : Option Forwarder → ℕ
relay_port none = 0
relay_port (some f) = f.local_port

stale_relay :
    (relay_port (lookup (codes "adsb:1-3") unplugged.forwarders) ≡ 30105)
    × (map (λ t. t.1.ports.beast) unplugged.active ≡ 30005 ∷ [])
unfolding relay_port reconcile reconcile_assigned assign_all assign_one list_receiver place
    entry_for ports_for key lookup insert erase retain mem str_eq relay_all relay_one keep_or_start
    forwarder_for identity decimal
stale_relay = (refl, refl)
