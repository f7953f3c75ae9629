-- ===== src/System/Remote.antt =====
-- From a reply of the server to the decoder that runs: `phoneHome` and `applyConfig` of agent/main.go,
-- and `run` of agent/decoders.go.
use flightpatch.Common.{
  ℕ, Bool, true, false, List, ◌∷◌, ◌++◌, Option, none, some, ◌≡◌, refl, ap, ◌∙◌,
}
use flightpatch.Config.{DeviceConfig, role_off, role_for, find_role}
use flightpatch.Control.Beats.{beat-cfg}
use flightpatch.Control.Push.{IsMap, pushed_role}
use flightpatch.Control.{
  Fields, text, lookup, as_object, Response, Agent, Weather, apply_config, beat,
}
use flightpatch.Decoders.Assign.{bundle_of, assign_roles}
use flightpatch.Decoders.Cycle.{is_empty_list, reconcile}
use flightpatch.Decoders.Pushed.{dongle_keys, configured_role-runs, is_empty_list-append}
use flightpatch.Decoders.Run.{World, Tick, probe_vdl2, feed_round, round}
use flightpatch.Decoders.{Dongle, key, ReceiverInventory, Manager, child_for}
use flightpatch.Dict.{mem}
use flightpatch.Dongles.{enumerate_dongles}
use flightpatch.Text.{Str, codes, str_eq, is_empty}

-- The dongles that a round finds.
abbrev pub enumerated : Tick → World → List Dongle
enumerated t w = (enumerate_dongles t.loaded t.readings t.ports w.cache).0

module _ (sha256 : Str → Str) (marshal : DeviceConfig → Option Str)
    (document : List ReceiverInventory → Option Str) (inventory_path : Str) where
  round_manager :
      (t : Tick) (w : World)
      → t.enabled ≡ true
      → is_empty_list (enumerated t w) ≡ false
      → let a =
          assign_roles
            (bundle_of t.found t.is_windows)
            (λ d. (probe_vdl2 (t.probes d)).0)
            (enumerated t w)
            (t.control w.cfg) in
        (round sha256 marshal document inventory_path t w).manager
        ≡ reconcile sha256 a.cfg (enumerated t w) a.out (record w.manager { enabled = t.enabled })
  unfolding round feed_round
  round_manager t w on found = rw on (rw found refl)

  -- Where a reply gives a dongle a role that runs a decoder, the user has confirmed none for it, and
  -- the beat leaves the agent enabled, the next round that finds the dongle runs the decoder for
  -- that role and that dongle, whatever else the reply says, which dongles are there beside it, and
  -- what ran before.
  pub pushed_role-runs :
      (b : Weather) (r : Response) (a : Agent) (m roles : Fields) (t : Tick) (w : World)
      (before after : List Dongle) (d : Dongle) (role : Str)
      → b.reply ≡ some r
      → r.config ≡ some m
      → as_object (lookup m (codes "roles")) ≡ some roles
      → IsMap roles
      → lookup roles (key d) ≡ some (text role)
      → is_empty role ≡ false
      → str_eq role role_off ≡ false
      → find_role a.cfg.local_roles (key d) ≡ none
      → (beat b a).agent.enabled ≡ true
      → t.enabled ≡ (beat b a).agent.enabled
      → t.control w.cfg ≡ (beat b a).agent.cfg
      → enumerated t w ≡ before ++ d ∷ after
      → mem (key d) (dongle_keys before) ≡ false
      → mem (key d) (dongle_keys after) ≡ false
      → (adsb_slot : ℕ) × (vdl2_slot : ℕ) × (flightpatch.Dict.lookup
            (key d)
            (round sha256 marshal document inventory_path t w).manager.active
          ≡ some (child_for (record { dongle = d; role = role }) adsb_slot vdl2_slot))
  pushed_role-runs b r a m roles t w before after d role replied config object distinct given named
        runs free enabled takes_flag takes_cfg found early late =
      let k = key d in
      let c = t.control w.cfg in
      let on : t.enabled ≡ true = takes_flag ∙ enabled in
      let configured : role_for c k ≡ role =
        ap (λ x. role_for x k)
          (takes_cfg ∙ beat-cfg b r a replied ∙ ap (λ x. (apply_config x a.cfg).0) config)
        ∙ pushed_role m roles a.cfg k role object distinct given free in
      let bundle = bundle_of t.found t.is_windows in
      let heard : Dongle → Bool = λ x. (probe_vdl2 (t.probes x)).0 in
      let mgr : Manager = record w.manager { enabled = t.enabled } in
      let some_found : is_empty_list (enumerated t w) ≡ false =
        ap is_empty_list found ∙ is_empty_list-append before after d in
      let (adsb, vdl2, e) =
        configured_role-runs sha256 bundle heard before after d role c mgr configured named runs
          early late on in
      (
        adsb,
        vdl2,
        ap (λ x. flightpatch.Dict.lookup k x.active) (round_manager t w on some_found)
            ∙ ap
                (λ ds.
                  let x = assign_roles bundle heard ds c in
                  flightpatch.Dict.lookup k (reconcile sha256 x.cfg ds x.out mgr).active)
                found
            ∙ e,
      )
