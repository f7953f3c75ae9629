-- ===== src/Decoders/Accounts.antt =====
-- The account of `run` of agent/decoders.go through its rounds.
use flightpatch.Common.{
  not, ◌&&◌, List, [], ◌∷◌, ◌++◌, map, append_assoc, Option, none, some, if_case, ◌≡◌, refl, ◌∙◌,
  arith,
}
use flightpatch.Config.{DeviceConfig, role_off}
use flightpatch.Decoders.Balance.{
  Accounted, start_decoder-Accounted, stop_decoder-Accounted, start_relay-Accounted,
  drop_decoders-Accounted, drop_relays-Accounted, stop_all-Accounted,
}
use flightpatch.Decoders.Cycle.{
  relay_key, has_relay, forwarder_for, Relays, keep_or_start, relay_one, relay_all, first_round,
  is_empty_list, stop_all, reconcile, reconcile_assigned,
}
use flightpatch.Decoders.Run.{Tick, World, feed_round, idle_round, round, rounds, run}
use flightpatch.Decoders.Tally.{count_key, tally, starts, stops, relay_starts, relay_stops}
use flightpatch.Decoders.{
  Dongle, key, RoleAssignment, Child, Forwarder, ReceiverInventory, decoder_started,
  decoder_stopped, Manager, Round, same_child, child_for, place, list_receiver, assign_one,
  assign_all,
}
use flightpatch.Dict.{lookup, erase, retain, dropped, mem, lookup-erase}
use flightpatch.Dongles.{enumerate_dongles}
use flightpatch.Text.Laws.{str_eq_refl}
use flightpatch.Text.{Str, str_eq}

module _ (k : Str) where
  abbrev RoundAccounted : List (Str × Forwarder) → Round → Type 0
  RoundAccounted fw r = Accounted r.active fw r.events k

  abbrev RelaysAccounted : List (Str × Child) → Relays → Type 0
  RelaysAccounted a r = Accounted a r.running r.events k

  abbrev pub ManagerAccounted : Manager → Type 0
  ManagerAccounted m = Accounted m.active m.forwarders m.events k

  place-Accounted :
      (fw : List (Str × Forwarder)) (j : Str) (c : Child) (old : Option Child) (r : Round)
      → lookup j r.active ≡ old
      → RoundAccounted fw r
      → RoundAccounted fw (place j c old r)
  unfolding place
  place-Accounted fw j c none r e h = start_decoder-Accounted k j c r.active fw r.events e h
  place-Accounted fw j c (some old) r e h =
      if_case (RoundAccounted fw) (same_child old c) (λ _. h)
        (λ _.
          let stopped = stop_decoder-Accounted k j old r.active fw r.events e h in
          let gone : lookup j (erase j r.active) ≡ none =
            lookup-erase j j r.active ∙ (rw (str_eq_refl j) refl) in
          let both =
            start_decoder-Accounted k j c (erase j r.active) fw (r.events ++ decoder_stopped j ∷ [])
              gone stopped in
          rw (append_assoc r.events (decoder_stopped j ∷ []) (decoder_started j ∷ [])) at both)

  assign_one-Accounted :
      (sha256 : Str → Str) (id : Str) (fw : List (Str × Forwarder)) (a : RoleAssignment) (r : Round)
      → RoundAccounted fw r
      → RoundAccounted fw (assign_one sha256 id a r)
  unfolding assign_one list_receiver
  assign_one-Accounted sha256 id fw a r h =
      let r' = list_receiver sha256 id a r in
      if_case (RoundAccounted fw) (str_eq a.role role_off) (λ _. h)
        (λ _.
          place-Accounted fw (key a.dongle) (child_for a r.adsb_slot r.vdl2_slot)
            (lookup (key a.dongle) r'.active) r' refl h)

  assign_all-Accounted :
      (sha256 : Str → Str) (id : Str) (fw : List (Str × Forwarder)) (assigns : List RoleAssignment)
      (r : Round)
      → RoundAccounted fw r
      → RoundAccounted fw (assign_all sha256 id assigns r)
  unfolding assign_all
  assign_all-Accounted sha256 id fw [] r h = h
  assign_all-Accounted sha256 id fw (a ∷ assigns) r h =
      assign_all-Accounted sha256 id fw assigns (assign_one sha256 id a r)
        (assign_one-Accounted sha256 id fw a r h)

  keep_or_start-Accounted :
      (a : List (Str × Child)) (j : Str) (f : Forwarder) (old : Option Forwarder) (r : Relays)
      → lookup j r.running ≡ old
      → RelaysAccounted a r
      → RelaysAccounted a (keep_or_start j f old r)
  unfolding keep_or_start
  keep_or_start-Accounted a j f none r e h = start_relay-Accounted k j f a r.running r.events e h
  keep_or_start-Accounted a j f (some old) r e h = h

  relay_all-Accounted :
      (sha256 : Str → Str) (cfg : DeviceConfig) (a : List (Str × Child))
      (es : List ReceiverInventory) (r : Relays)
      → RelaysAccounted a r
      → RelaysAccounted a (relay_all sha256 cfg es r)
  unfolding relay_all relay_one
  relay_all-Accounted sha256 cfg a [] r h = h
  relay_all-Accounted sha256 cfg a (e ∷ es) r h =
      let j = relay_key e in
      relay_all-Accounted sha256 cfg a es (relay_one sha256 cfg e r) (
        if_case (RelaysAccounted a) (has_relay e.role)
          (λ _.
            keep_or_start-Accounted a j (forwarder_for sha256 cfg e) (lookup j r.running)
              (record r { wanted = j ∷ r.wanted }) refl h)
          (λ _. h))

  reconcile_assigned-Accounted :
      (sha256 : Str → Str) (cfg : DeviceConfig) (assigns : List RoleAssignment) (m : Manager)
      → ManagerAccounted m
      → ManagerAccounted (reconcile_assigned sha256 cfg assigns m)
  unfolding reconcile_assigned
  reconcile_assigned-Accounted sha256 cfg assigns m h =
      let r = assign_all sha256 cfg.device_id assigns (first_round m) in
      let is_seen = λ (j : Str). mem j r.seen in
      let assigned =
        assign_all-Accounted sha256 cfg.device_id m.forwarders assigns (first_round m) h in
      let kept = drop_decoders-Accounted k is_seen r.active m.forwarders r.events assigned in
      let relays : Relays = record {
        wanted = [];
        running = m.forwarders;
        events = r.events ++ map decoder_stopped (dropped is_seen r.active);
      } in
      let f = relay_all sha256 cfg r.inventory relays in
      drop_relays-Accounted k (λ (j : Str). mem j f.wanted) (retain is_seen r.active) f.running
        f.events (relay_all-Accounted sha256 cfg (retain is_seen r.active) r.inventory relays kept)

  reconcile-Accounted :
      (sha256 : Str → Str) (cfg : DeviceConfig) (ds : List Dongle) (assigns : List RoleAssignment)
      (m : Manager)
      → ManagerAccounted m
      → ManagerAccounted (reconcile sha256 cfg ds assigns m)
  unfolding reconcile
  reconcile-Accounted sha256 cfg ds assigns m h =
      if_case ManagerAccounted (not m.enabled)
        (λ _.
          if_case ManagerAccounted (is_empty_list m.active && is_empty_list m.forwarders) (λ _. h)
            (λ _. unfold stop_all in stop_all-Accounted k m h))
        (λ _.
          if_case ManagerAccounted (is_empty_list ds) (λ _. h)
            (λ _. reconcile_assigned-Accounted sha256 cfg assigns m h))

  abbrev pub WorldAccounted : World → Type 0
  WorldAccounted w = ManagerAccounted w.manager

module _ (sha256 : Str → Str) (marshal : DeviceConfig → Option Str)
    (document : List ReceiverInventory → Option Str) (path : Str) (k : Str) where
  round-Accounted :
      (t : Tick) (w : World)
      → WorldAccounted k w
      → WorldAccounted k (round sha256 marshal document path t w)
  unfolding round feed_round idle_round
  round-Accounted t w h =
      let m : Manager = record w.manager { enabled = t.enabled } in
      let w' : World = record w { cfg = t.control w.cfg; manager = m } in
      let out = enumerate_dongles t.loaded t.readings t.ports w.cache in
      if_case (WorldAccounted k) (not t.enabled)
        (λ _. reconcile-Accounted k sha256 (t.control w.cfg) [] [] m h)
        (λ _.
          if_case (WorldAccounted k) (is_empty_list out.0) (λ _. h)
            (λ _. reconcile-Accounted k sha256 _ out.0 _ m h))

  -- In any run of rounds, whatever they meet, the decoders and the relays under each key are as many
  -- as were started and not yet stopped, and never more than one, if it was so before.
  pub rounds-Accounted :
      (ts : List Tick) (w : World)
      → WorldAccounted k w
      → WorldAccounted k (rounds sha256 marshal document path ts w)
  unfolding rounds
  rounds-Accounted [] w h = h
  rounds-Accounted (t ∷ ts) w h =
      rounds-Accounted ts (round sha256 marshal document path t w) (round-Accounted t w h)

  -- When the loop has ended nothing runs, and each decoder and each relay that was started was stopped
  -- once, whatever the rounds met.
  pub run-Stopped :
      (ts : List Tick) (w : World)
      → WorldAccounted k w
      → let m = (run sha256 marshal document path ts w).manager in
        (m.active ≡ [])
        × (m.forwarders ≡ [])
        × (tally (starts k) m.events ≡ tally (stops k) m.events)
        × (tally (relay_starts k) m.events ≡ tally (relay_stops k) m.events)
  unfolding run
  run-Stopped ts w h =
      let last = (rounds sha256 marshal document path ts w).manager in
      let done = stop_all-Accounted k last (rounds-Accounted ts w h) in
      (
        unfold stop_all in refl,
        unfold stop_all in refl,
        unfold count_key in omega (arith, done.decoders),
        unfold count_key in omega (arith, done.relays),
      )
