-- ===== src/Decoders/Reconcile.antt =====
-- What runs after a round of `reconcile`.
use native.Mathlib.Nat.{zero-add}
use flightpatch.Common.{
  ℕ, ◌+◌, ◌*◌, Bool, true, false, ◌&&◌, List, [], ◌∷◌, ◌++◌, none, some, if◌then◌else◌, ◌≡◌, refl,
  sym, ap, ◌∙◌, arith, inl, inr, Bool-cases, map, append-nil,
}
use flightpatch.Config.{DeviceConfig, role_adsb, role_vdl2, role_off}
use flightpatch.Decoders.Active.{
  keys, count_role, assign_one-active, assign_all-append, assign_all-cons, assign_all-absent,
  mem-assign_all, assign_all-active,
}
use flightpatch.Decoders.Cycle.{first_round, is_empty_list, reconcile, reconcile_assigned, stop_all}
use flightpatch.Decoders.{
  Dongle, key, identity, ports_for, PortSet, RoleAssignment, Child, Forwarder, Event, Manager,
  Round, child_for, assign_one, assign_all, decoder_stopped, forwarder_stopped,
}
use flightpatch.Dict.{lookup, mem, lookup-retain}
use flightpatch.Text.Decimal.{decimal}
use flightpatch.Text.Laws.{str_eq_iff, str_eq_refl}
use flightpatch.Text.{Str, str_eq}

-- The ports of a decoder for a role behind `n` earlier assignments of that role.
abbrev pub HasPorts : Str → ℕ → PortSet → Type 0
HasPorts role n p =
    (role ≡ role_adsb → (p.beast ≡ 30005 + 100 * n) × (p.sbs ≡ 30003 + 100 * n) × (p.vdl2 ≡ 0))
    × (role ≡ role_vdl2 → (p.beast ≡ 0) × (p.sbs ≡ 0) × (p.vdl2 ≡ 5553 + n))
    × (str_eq role role_adsb ≡ false
        → str_eq role role_vdl2 ≡ false
        → (p.beast ≡ 0) × (p.sbs ≡ 0) × (p.vdl2 ≡ 0))

-- A decoder that is meant for an assignment behind the others: its role, its dongle by serial,
-- product and index, and its ports.
abbrev pub IsFor : RoleAssignment → List RoleAssignment → Child → Type 0
IsFor a before c =
    (c.role ≡ a.role)
    × (c.identity
        ≡ a.dongle.serial ++ (b'|' ∷ (a.dongle.product ++ (b'|' ∷ decimal a.dongle.index))))
    × HasPorts a.role (count_role a.role before) c.ports

vdl2_is_not_adsb : str_eq role_vdl2 role_adsb ≡ false
unfolding str_eq
vdl2_is_not_adsb = refl

child_for-IsFor :
    (a : RoleAssignment) (before : List RoleAssignment)
    → IsFor a before (child_for a (count_role role_adsb before) (count_role role_vdl2 before))
unfolding ports_for identity
child_for-IsFor a before = (
  refl,
  refl,
  (
    λ e. rw e (rw (str_eq_refl role_adsb) (omega arith, omega arith, refl)),
    λ e. rw e (rw (vdl2_is_not_adsb, str_eq_refl role_vdl2) (refl, refl, omega arith)),
    λ h k. rw (h, k) (refl, refl, refl),
  ),
)

module _ (sha256 : Str → Str) (cfg : DeviceConfig) where
  abbrev pub round_of : List RoleAssignment → Manager → Round
  round_of assigns m = assign_all sha256 cfg.device_id assigns (first_round m)

  -- A decoder runs on only if its dongle is among those that were assigned.
  pub lookup-reconcile_assigned :
      (assigns : List RoleAssignment) (m : Manager) (k : Str)
      → lookup k (reconcile_assigned sha256 cfg assigns m).active
        ≡ (if mem k (keys assigns) then lookup k (round_of assigns m).active else none)
  unfolding reconcile_assigned
  lookup-reconcile_assigned assigns m k =
      lookup-retain (λ j. mem j (round_of assigns m).seen) k (round_of assigns m).active
      ∙ rw (mem-assign_all sha256 cfg.device_id assigns (first_round m) k)
          (unfold mem in ground arith)

  pub reconcile_on :
      (dongles : List Dongle) (assigns : List RoleAssignment) (m : Manager)
      → m.enabled ≡ true
      → is_empty_list dongles ≡ false
      → reconcile sha256 cfg dongles assigns m ≡ reconcile_assigned sha256 cfg assigns m
  unfolding reconcile
  reconcile_on dongles assigns m on found = rw (on, reconcile) (rw found)

  keys-append :
      (before after : List RoleAssignment) (a : RoleAssignment)
      → mem (key a.dongle) (keys (before ++ a ∷ after)) ≡ true
  unfolding mem keys
  keys-append [] after a = rw (str_eq_refl (key a.dongle))
  keys-append (x ∷ before) after a = ground (arith, keys-append before after a)

  -- The same of a dongle with its slots, by the functions of the loop.
  pub lookup-reconcile :
      (dongles : List Dongle) (before after : List RoleAssignment) (a : RoleAssignment)
      (m : Manager)
      → m.enabled ≡ true
      → is_empty_list dongles ≡ false
      → mem (key a.dongle) (keys after) ≡ false
      → str_eq a.role role_off ≡ false
      → lookup (key a.dongle) (reconcile sha256 cfg dongles (before ++ a ∷ after) m).active
        ≡ some (child_for a (count_role role_adsb before) (count_role role_vdl2 before))
  lookup-reconcile dongles before after a m on found absent role =
      ap (λ n. lookup (key a.dongle) n.active)
        (reconcile_on dongles (before ++ a ∷ after) m on found)
      ∙ lookup-reconcile_assigned (before ++ a ∷ after) m (key a.dongle)
      ∙ rw (keys-append before after a) (
          assign_all-active sha256 cfg.device_id before after a (first_round m) absent role
          ∙ simp zero-add)

  -- While feeding is enabled and a dongle is enumerated, a round leaves each dongle that is assigned a
  -- role other than `off`, and whose key no later assignment has, with a decoder for that role and
  -- that dongle, by its serial, product and index, whatever ran before. With `n` earlier assignments
  -- of the role, one for `adsb` is on the ports 30005 + 100 n and 30003 + 100 n and one for `vdl2` on
  -- 5553 + n; one for another role has none.
  pub reconcile-active :
      (dongles : List Dongle) (before after : List RoleAssignment) (a : RoleAssignment)
      (m : Manager)
      → m.enabled ≡ true
      → is_empty_list dongles ≡ false
      → mem (key a.dongle) (keys after) ≡ false
      → str_eq a.role role_off ≡ false
      → (c : Child) × ((lookup
              (key a.dongle)
              (reconcile sha256 cfg dongles (before ++ a ∷ after) m).active
            ≡ some c)
          × IsFor a before c)
  reconcile-active dongles before after a m on found absent role = (
    child_for a (count_role role_adsb before) (count_role role_vdl2 before),
    (lookup-reconcile dongles before after a m on found absent role, child_for-IsFor a before),
  )

  -- A dongle that is not assigned any more has no decoder after the round.
  pub reconcile_gone :
      (dongles : List Dongle) (assigns : List RoleAssignment) (m : Manager) (k : Str)
      → m.enabled ≡ true
      → is_empty_list dongles ≡ false
      → mem k (keys assigns) ≡ false
      → lookup k (reconcile sha256 cfg dongles assigns m).active ≡ none
  reconcile_gone dongles assigns m k on found absent =
      ap (λ n. lookup k n.active) (reconcile_on dongles assigns m on found)
      ∙ lookup-reconcile_assigned assigns m k
      ∙ rw absent

  -- A dongle that is switched to `off` keeps the decoder that it has: the round lists it as seen,
  -- does not start one, and does not stop the one that runs.
  pub reconcile_off :
      (dongles : List Dongle) (before after : List RoleAssignment) (a : RoleAssignment)
      (m : Manager)
      → m.enabled ≡ true
      → is_empty_list dongles ≡ false
      → mem (key a.dongle) (keys before) ≡ false
      → mem (key a.dongle) (keys after) ≡ false
      → a.role ≡ role_off
      → lookup (key a.dongle) (reconcile sha256 cfg dongles (before ++ a ∷ after) m).active
        ≡ lookup (key a.dongle) m.active
  reconcile_off dongles before after a m on found early late role =
      let k = key a.dongle in
      let r = assign_all sha256 cfg.device_id before (first_round m) in
      ap (λ n. lookup k n.active) (reconcile_on dongles (before ++ a ∷ after) m on found)
      ∙ lookup-reconcile_assigned (before ++ a ∷ after) m k
      ∙ rw (keys-append before after a) (
          ap (λ (s : Round). lookup k s.active)
            (assign_all-append sha256 cfg.device_id before (a ∷ after) (first_round m))
          ∙ ap (λ (s : Round). lookup k s.active) (assign_all-cons sha256 cfg.device_id a after r)
          ∙ assign_all-absent sha256 cfg.device_id after (assign_one sha256 cfg.device_id a r) k
              late
          ∙ assign_one-active sha256 cfg.device_id a r k
          ∙ rw ((str_eq_iff a.role role_off).1 role, str_eq_refl k)
              (assign_all-absent sha256 cfg.device_id before (first_round m) k early))

is_empty_list_lem {ℓ} : {A : Type ℓ} (xs : List A) → is_empty_list xs ≡ true → xs ≡ []
is_empty_list_lem [] h = refl
is_empty_list_lem (x ∷ xs) h = cc

idle_events :
    (es : List Event) (xs : List (Str × Child)) (ys : List (Str × Forwarder))
    → xs ≡ []
    → ys ≡ []
    → es ≡ es ++ (map (λ t. decoder_stopped t.0) xs ++ map (λ t. forwarder_stopped t.0) ys)
idle_events es xs ys h k = rw (h, k) (sym (append-nil es))

both_true : (a b : Bool) → (a && b) ≡ true → (a ≡ true) × (b ≡ true)
both_true a b h = ground arith

-- While feeding is disabled a round stops every decoder and relay, and starts none.
pub reconcile_disabled :
    (sha256 : Str → Str) (cfg : DeviceConfig) (dongles : List Dongle)
    (assigns : List RoleAssignment) (m : Manager)
    → m.enabled ≡ false
    → let m' = reconcile sha256 cfg dongles assigns m in
      (m'.active ≡ [])
      × (m'.forwarders ≡ [])
      × (m'.events
          ≡ m.events
            ++ (map (λ t. decoder_stopped t.0) m.active
                ++ map (λ t. forwarder_stopped t.0) m.forwarders))
unfolding reconcile stop_all
reconcile_disabled sha256 cfg dongles assigns m off =
    elim (Bool-cases (is_empty_list m.active && is_empty_list m.forwarders)) [
      | inl idle ↦
          let (one, two) = both_true _ _ idle in
          let none_active = is_empty_list_lem m.active one in
          let none_relayed = is_empty_list_lem m.forwarders two in
          rw (off, reconcile)
            (rw idle (
              none_active,
              none_relayed,
              idle_events m.events m.active m.forwarders none_active none_relayed,
            ))
      | inr busy ↦ rw (off, reconcile) (rw busy (refl, refl, refl))
    ]
