-- ===== src/Decoders/Forwarders.antt =====
-- Which relays run after a round.
use flightpatch.Common.{
  is_some, ◌&&◌, ◌||◌, List, [], ◌∷◌, Option, none, some, if◌then◌else◌, ◌≡◌, refl, ◌∙◌, arith,
}
use flightpatch.Config.{DeviceConfig}
use flightpatch.Decoders.Cycle.{
  relay_key, has_relay, forwarder_for, Relays, keep_or_start, relay_one, relay_all, first_round,
  reconcile_assigned,
}
use flightpatch.Decoders.Ports.{entries, assign_all-inventory}
use flightpatch.Decoders.{RoleAssignment, Forwarder, ReceiverInventory, Manager}
use flightpatch.Dict.{lookup, mem, lookup-insert, lookup-retain}
use flightpatch.Text.Laws.{str_eq_iff}
use flightpatch.Text.{Str, str_eq}

abbrev pub first_of_two {ℓ} : {A : Type ℓ} → Option A → Option A → Option A
first_of_two (some a) other = some a
first_of_two none other = other

module _ (sha256 : Str → Str) (cfg : DeviceConfig) where
  -- The relay that an inventory asks for under a key: that of the first receiver with the key.
  pub wanted_relay : List ReceiverInventory → Str → Option Forwarder
  wanted_relay [] k = none
  wanted_relay (e ∷ es) k =
      if has_relay e.role && str_eq (relay_key e) k
      then some (forwarder_for sha256 cfg e)
      else wanted_relay es k

  keep_or_start-running :
      (k : Str) (f : Forwarder) (old : Option Forwarder) (r : Relays) (j : Str)
      → lookup k r.running ≡ old
      → lookup j (keep_or_start k f old r).running
        ≡ first_of_two (lookup j r.running) (if str_eq k j then some f else none)
  unfolding keep_or_start
  keep_or_start-running k f none r j h =
      ground (arith, str_eq_iff k j, lookup-insert k j f r.running)
  keep_or_start-running k f (some g) r j h = ground (arith, str_eq_iff k j)

  relay_one-running :
      (e : ReceiverInventory) (r : Relays) (j : Str)
      → lookup j (relay_one sha256 cfg e r).running
        ≡ first_of_two (lookup j r.running) (wanted_relay (e ∷ []) j)
  unfolding relay_one wanted_relay
  relay_one-running e r j =
      let k = relay_key e in
      ground (
        arith,
        keep_or_start-running k (forwarder_for sha256 cfg e) (lookup k r.running)
            (record r { wanted = k ∷ r.wanted }) j refl,
      )

  relay_all-running :
      (es : List ReceiverInventory) (r : Relays) (j : Str)
      → lookup j (relay_all sha256 cfg es r).running
        ≡ first_of_two (lookup j r.running) (wanted_relay es j)
  unfolding relay_all wanted_relay
  relay_all-running [] r j = ground arith
  relay_all-running (e ∷ es) r j =
      ground (arith, relay_one-running e r j, relay_all-running es (relay_one sha256 cfg e r) j)

  relay_one-wanted :
      (e : ReceiverInventory) (r : Relays) (j : Str)
      → mem j (relay_one sha256 cfg e r).wanted
        ≡ (is_some (wanted_relay (e ∷ []) j) || mem j r.wanted)
  unfolding relay_one wanted_relay keep_or_start mem
  relay_one-wanted e r j = ground arith

  mem-relay_all :
      (es : List ReceiverInventory) (r : Relays) (j : Str)
      → mem j (relay_all sha256 cfg es r).wanted ≡ (is_some (wanted_relay es j) || mem j r.wanted)
  unfolding relay_all wanted_relay
  mem-relay_all [] r j = refl
  mem-relay_all (e ∷ es) r j =
      ground (arith, relay_one-wanted e r j, mem-relay_all es (relay_one sha256 cfg e r) j)

  -- The relays after a round: under each key that the inventory of the assigned receivers asks for,
  -- the relay that ran under it before, whatever it was started with, and a new one for the first
  -- such receiver if none ran; under every other key, none.
  pub reconcile_assigned-forwarders :
      (assigns : List RoleAssignment) (m : Manager) (k : Str)
      → let asked = wanted_relay (entries sha256 cfg.device_id assigns 0 0) k in
        lookup k (reconcile_assigned sha256 cfg assigns m).forwarders
        ≡ (if is_some asked then first_of_two (lookup k m.forwarders) asked else none)
  unfolding reconcile_assigned mem
  reconcile_assigned-forwarders assigns m k =
      rw (assign_all-inventory sha256 cfg.device_id assigns (first_round m))
        (lookup-retain _ k _ ∙ rw (mem-relay_all, relay_all-running) (ground arith))
