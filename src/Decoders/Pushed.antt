-- ===== src/Decoders/Pushed.antt =====
-- A role that the server has assigned, in the next round of `run` of agent/decoders.go.
use flightpatch.Common.{
  ℕ, Bool, true, false, List, [], ◌∷◌, ◌++◌, map, none, some, Bool-cases, inl, inr, ◌≡◌, refl, ap,
  ◌∙◌, arith,
}
use flightpatch.Config.Roles.{role_for-set_role}
use flightpatch.Config.{DeviceConfig, role_adsb, role_vdl2, role_off, role_for, find_role, set_role}
use flightpatch.Decoders.Active.{keys, count_role}
use flightpatch.Decoders.Assign.{Bundle, choose, settle, assign_roles}
use flightpatch.Decoders.Cycle.{is_empty_list, reconcile}
use flightpatch.Decoders.Reconcile.{lookup-reconcile}
use flightpatch.Decoders.Settled.{
  choose_filled, role_for-other, dongles_of, dongles_of-assign_roles,
}
use flightpatch.Decoders.{Dongle, key, RoleAssignment, Manager, child_for}
use flightpatch.Dict.{lookup, mem}
use flightpatch.Text.Laws.{str_eq_refl}
use flightpatch.Text.{Str, str_eq, is_empty}

abbrev pub dongle_keys : List Dongle → List Str
dongle_keys ds = map key ds

keys-dongles_of :
    (b : Bundle) (out : List RoleAssignment) → keys out ≡ dongle_keys (dongles_of b out)
unfolding keys
keys-dongles_of b [] = refl
keys-dongles_of b (a ∷ out) = ap (λ ks. key a.dongle ∷ ks) (keys-dongles_of b out)

settle-role_for :
    (b : Bundle) (c : DeviceConfig) (k r other : Str)
    → str_eq k other ≡ false
    → role_for (settle c k r).0 other ≡ role_for c other
unfolding settle
settle-role_for b c k r other h = elim (Bool-cases (str_eq r role_off)) [
  | inl off ↦ rw off refl
  | inr on ↦ rw on (role_for-other b c k r other h)
]

-- The assignments with one of a dongle in it, behind which its key does not return.
abbrev HasRole : Dongle → Str → List RoleAssignment → Type 0
HasRole d role out =
    (front : List RoleAssignment) × (back : List RoleAssignment) × (out
      ≡ front ++ (record { dongle = d; role = role }) ∷ back)
    × (mem (key d) (keys back) ≡ false)

assign_roles-HasRole :
    (b : Bundle) (heard : Dongle → Bool) (before after : List Dongle) (d : Dongle) (role : Str)
    (c : DeviceConfig)
    → role_for c (key d) ≡ role
    → is_empty role ≡ false
    → mem (key d) (dongle_keys before) ≡ false
    → mem (key d) (dongle_keys after) ≡ false
    → HasRole d role (assign_roles b heard (before ++ d ∷ after) c).out
unfolding assign_roles mem
assign_roles-HasRole b heard [] after d role c e named early late =
    let chosen : choose b c.default_role (role_for c (key d)) (heard d) ≡ (role, false) =
      rw e (choose_filled b c.default_role role (heard d) named) in
    let rest = assign_roles b heard after (settle c (key d) role).0 in
    (
      [],
      rest.out,
      rw chosen refl,
      ap (mem (key d)) (
            keys-dongles_of b rest.out
            ∙ ap dongle_keys (dongles_of-assign_roles b heard after (settle c (key d) role).0))
          ∙ late,
    )
assign_roles-HasRole b heard (x ∷ before) after d role c e named early late =
    let r = (choose b c.default_role (role_for c (key x)) (heard x)).0 in
    let other : str_eq (key x) (key d) ≡ false = ground arith in
    let (front, back, split, gone) =
      assign_roles-HasRole b heard before after d role (settle c (key x) r).0
        (settle-role_for b c (key x) r (key d) other ∙ e) named (ground arith) late in
    (
      (record { dongle = x; role = r }) ∷ front,
      back,
      ap (λ l. (record { dongle = x; role = r }) ∷ l) split,
      gone,
    )

pub is_empty_list-append :
    (before after : List Dongle) (d : Dongle) → is_empty_list (before ++ d ∷ after) ≡ false
is_empty_list-append [] after d = refl
is_empty_list-append (x ∷ before) after d = refl

-- A round with a dongle for which a role is configured.
pub configured_role-runs :
    (sha256 : Str → Str) (b : Bundle) (heard : Dongle → Bool) (before after : List Dongle)
    (d : Dongle) (role : Str) (c : DeviceConfig) (m : Manager)
    → role_for c (key d) ≡ role
    → is_empty role ≡ false
    → str_eq role role_off ≡ false
    → mem (key d) (dongle_keys before) ≡ false
    → mem (key d) (dongle_keys after) ≡ false
    → m.enabled ≡ true
    → let ds = before ++ d ∷ after in
      let a = assign_roles b heard ds c in
      (adsb_slot : ℕ) × (vdl2_slot : ℕ) × (lookup (key d) (reconcile sha256 a.cfg ds a.out m).active
        ≡ some (child_for (record { dongle = d; role = role }) adsb_slot vdl2_slot))
configured_role-runs sha256 b heard before after d role c m configured named runs early late on =
    let k = key d in
    let ds = before ++ d ∷ after in
    let a = assign_roles b heard ds c in
    let (front, back, split, gone) =
      assign_roles-HasRole b heard before after d role c configured named early late in
    let found = is_empty_list-append before after d in
    let assigned : RoleAssignment = record { dongle = d; role = role } in
    (
      count_role role_adsb front,
      count_role role_vdl2 front,
      ap (λ out. lookup k (reconcile sha256 a.cfg ds out m).active) split
          ∙ lookup-reconcile sha256 a.cfg ds front back assigned m on found gone runs,
    )

-- Once the server has assigned a role to a dongle that the user has confirmed none for, the next
-- round with the dongle runs the decoder for that role and that dongle, if it is a role that runs
-- one, whichever dongles are there beside it and whatever ran before.
pub assigned_role-runs :
    (sha256 : Str → Str) (b : Bundle) (heard : Dongle → Bool) (before after : List Dongle)
    (d : Dongle) (role : Str) (c : DeviceConfig) (m : Manager)
    → find_role c.local_roles (key d) ≡ none
    → is_empty role ≡ false
    → str_eq role role_off ≡ false
    → mem (key d) (dongle_keys before) ≡ false
    → mem (key d) (dongle_keys after) ≡ false
    → m.enabled ≡ true
    → let ds = before ++ d ∷ after in
      let a = assign_roles b heard ds (set_role c (key d) role).0 in
      (adsb_slot : ℕ) × (vdl2_slot : ℕ) × (lookup (key d) (reconcile sha256 a.cfg ds a.out m).active
        ≡ some (child_for (record { dongle = d; role = role }) adsb_slot vdl2_slot))
assigned_role-runs sha256 b heard before after d role c m free named runs early late on =
    let k = key d in
    let c' = (set_role c k role).0 in
    let configured : role_for c' k ≡ role =
      role_for-set_role c k role k ∙ (rw free (rw (str_eq_refl k) refl)) in
    configured_role-runs sha256 b heard before after d role c' m configured named runs early late on
