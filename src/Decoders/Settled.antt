-- ===== src/Decoders/Settled.antt =====
-- A second round of `assignRoles` of agent/decoders.go.
use flightpatch.Common.{
  Bool, true, false, List, [], ◌∷◌, some, ◌≡◌, ◌≢◌, ◌⊎◌, inl, inr, refl, sym, ap, ◌∙◌, arith,
  Option-cases, Bool-cases,
}
use flightpatch.Config.Roles.{role_for-set_role, find_role-set_role_in, set_role_in_unchanged}
use flightpatch.Config.{DeviceConfig, role_off, find_role, role_for, set_role}
use mathlib.Core.Path.{subst}
use flightpatch.Decoders.Assign.{Bundle, choose, settle, Assigning, assign_roles}
use flightpatch.Decoders.{Dongle, key, RoleAssignment}
use flightpatch.Text.Laws.{str_eq_iff, str_eq_refl}
use flightpatch.Text.{Str, str_eq, is_empty}

is_empty-false : (s : Str) → s ≢ [] → is_empty s ≡ false
is_empty-false [] h = absurd (h refl)
is_empty-false (x ∷ s) h = refl

module _ (b : Bundle) where
  -- The role is what the switch gives without a probe, and it is recorded unless it is off.
  record Settled (c : DeviceConfig) (k role : Str) : Type 0 where
    pub chosen : (heard : Bool) → choose b c.default_role (role_for c k) heard ≡ (role, false)
    pub recorded : (str_eq role role_off ≡ true) ⊎ (find_role c.roles k ≡ some role)

  -- A settled dongle changes nothing.
  settle-Settled :
      (c : DeviceConfig) (k role : Str) → Settled c k role → settle c k role ≡ (c, false)
  unfolding settle set_role
  settle-Settled c k role h = elim h.recorded [
    | inl off ↦ rw off refl
    | inr e ↦ rw (set_role_in_unchanged c.roles k role e) (ground arith)
  ]

  -- No role that the user confirmed is the empty one.
  abbrev pub NoneBlank : DeviceConfig → Type 0
  NoneBlank c = (k : Str) → find_role c.local_roles k ≢ some []

  -- No probe answers off.
  choose_off :
      (default_role configured : Str) (heard other : Bool)
      → str_eq (choose b default_role configured heard).0 role_off ≡ true
      → choose b default_role configured other ≡ ((choose b default_role configured heard).0, false)
  unfolding choose str_eq
  choose_off default_role configured heard other h = ground arith

  pub choose_filled :
      (default_role role : Str) (heard : Bool)
      → is_empty role ≡ false
      → choose b default_role role heard ≡ (role, false)
  unfolding choose
  choose_filled default_role role heard h = rw h refl

  choose_named :
      (default_role configured : Str) (heard : Bool)
      → is_empty (choose b default_role configured heard).0 ≡ false
  unfolding choose
  choose_named default_role configured heard = ground arith

  choose_local :
      (c : DeviceConfig) (k r : Str) (heard : Bool)
      → find_role c.local_roles k ≡ some r
      → is_empty r ≡ false
      → choose b c.default_role (role_for c k) heard ≡ (r, false)
  unfolding role_for
  choose_local c k r heard e h = rw e (choose_filled c.default_role r heard h)

  role_for-same :
      (c : DeviceConfig) (k : Str) (heard : Bool)
      → NoneBlank c
      → let r = (choose b c.default_role (role_for c k) heard).0 in
        role_for (set_role c k r).0 k ≡ r
  role_for-same c k heard none_blank =
      let r = (choose b c.default_role (role_for c k) heard).0 in
      elim (Option-cases (find_role c.local_roles k)) [
        | inl e ↦ role_for-set_role c k r k ∙ (rw e (rw (str_eq_refl k) refl))
        | inr (l, e) ↦
            let named : is_empty l ≡ false = is_empty-false l (λ p. none_blank k (e ∙ ap some p)) in
            role_for-set_role c k r k
            ∙ (rw e (sym (ap (λ t. t.0) (choose_local c k l heard e named))))
      ]

  find_role-same : (c : DeviceConfig) (k r : Str) → find_role (set_role c k r).0.roles k ≡ some r
  unfolding set_role
  find_role-same c k r = find_role-set_role_in c.roles k r k ∙ (rw (str_eq_refl k) refl)

  default_role-same :
      (c : DeviceConfig) (k r : Str) → (set_role c k r).0.default_role ≡ c.default_role
  unfolding set_role
  default_role-same c k r = refl

  -- Whatever role a dongle is given, it is settled with it.
  choose-Settled :
      (c : DeviceConfig) (k : Str) (heard : Bool)
      → NoneBlank c
      → let r = (choose b c.default_role (role_for c k) heard).0 in Settled (settle c k r).0 k r
  unfolding settle
  choose-Settled c k heard none_blank =
      let r = (choose b c.default_role (role_for c k) heard).0 in
      elim (Bool-cases (str_eq r role_off)) [
        | inl off ↦ rw off (record {
          chosen = λ other. choose_off c.default_role (role_for c k) heard other off;
          recorded = inl off;
        })
        | inr on ↦ rw on (record {
          chosen = λ other. rw (role_for-same c k heard none_blank) (
              choose_filled (set_role c k r).0.default_role r other
                (choose_named c.default_role (role_for c k) heard));
          recorded = inr (find_role-same c k r);
        })
      ]

  settle-local_roles : (c : DeviceConfig) (k r : Str) → (settle c k r).0.local_roles ≡ c.local_roles
  unfolding settle set_role
  settle-local_roles c k r = ground arith

  settle-NoneBlank : (c : DeviceConfig) (k r : Str) → NoneBlank c → NoneBlank (settle c k r).0
  settle-NoneBlank c k r h =
      λ j e. h j (sym (ap (λ rs. find_role rs j) (settle-local_roles c k r)) ∙ e)

  pub role_for-other :
      (c : DeviceConfig) (k r other : Str)
      → str_eq k other ≡ false
      → role_for (set_role c k r).0 other ≡ role_for c other
  role_for-other c k r other h = elim (Option-cases (find_role c.local_roles other)) [
    | inl e ↦ role_for-set_role c k r other ∙ (rw e (rw h refl))
    | inr (l, e) ↦ role_for-set_role c k r other ∙ (rw e (unfold role_for in rw e refl))
  ]

  find_role-other :
      (c : DeviceConfig) (k r other : Str)
      → str_eq k other ≡ false
      → find_role (set_role c k r).0.roles other ≡ find_role c.roles other
  unfolding set_role
  find_role-other c k r other h = find_role-set_role_in c.roles k r other ∙ (rw h refl)

  settle_other-Settled :
      (c : DeviceConfig) (k r other role : Str)
      → str_eq k other ≡ false
      → Settled c other role
      → Settled (settle c k r).0 other role
  unfolding settle
  settle_other-Settled c k r other role h settled = elim (Bool-cases (str_eq r role_off)) [
    | inl off ↦ rw off settled
    | inr on ↦ rw on (record {
      chosen = λ heard. rw (role_for-other c k r other h) (
          ap (λ d. choose b d (role_for c other) heard) (default_role-same c k r)
          ∙ settled.chosen heard);
      recorded = elim settled.recorded [
        | inl off ↦ inl off
        | inr e ↦ inr (find_role-other c k r other h ∙ e)
      ];
    })
  ]

  -- A settled dongle stays settled, whichever dongle is given a role next.
  settle_next-Settled :
      (c : DeviceConfig) (k other role : Str) (heard : Bool)
      → Settled c other role
      → Settled (settle c k (choose b c.default_role (role_for c k) heard).0).0 other role
  settle_next-Settled c k other role heard settled =
      let r = (choose b c.default_role (role_for c k) heard).0 in
      elim (Bool-cases (str_eq k other)) [
        | inr ne ↦ settle_other-Settled c k r other role ne settled
        | inl eq ↦
            let e : k ≡ other = (str_eq_iff k other).0 eq in
            let settled' : Settled c k role = subst (λ j. Settled c j role) (sym e) settled in
            let same : r ≡ role = ap (λ t. t.0) (settled'.chosen heard) in
            subst (λ d. Settled d other role)
              (sym (
                ap (λ q. (settle c k q).0) same ∙ ap (λ t. t.0) (settle-Settled c k role settled')))
              settled
      ]

  abbrev AllSettled : DeviceConfig → List RoleAssignment → Type 0
  AllSettled c [] = Unit
  AllSettled c (a ∷ rest) = Settled c (key a.dongle) a.role × AllSettled c rest

  assign_roles_keep :
      (heard : Dongle → Bool) (ds : List Dongle) (c : DeviceConfig) (k role : Str)
      → Settled c k role
      → Settled (assign_roles b heard ds c).cfg k role
  unfolding assign_roles
  assign_roles_keep heard [] c k role h = h
  assign_roles_keep heard (d ∷ ds) c k role h =
      let r = (choose b c.default_role (role_for c (key d)) (heard d)).0 in
      assign_roles_keep heard ds (settle c (key d) r).0 k role
        (settle_next-Settled c (key d) k role (heard d) h)

  assign_roles-AllSettled :
      (heard : Dongle → Bool) (ds : List Dongle) (c : DeviceConfig)
      → NoneBlank c
      → AllSettled (assign_roles b heard ds c).cfg (assign_roles b heard ds c).out
  unfolding assign_roles
  assign_roles-AllSettled heard [] c h = tt
  assign_roles-AllSettled heard (d ∷ ds) c h =
      let r = (choose b c.default_role (role_for c (key d)) (heard d)).0 in
      let c' = (settle c (key d) r).0 in
      (
        assign_roles_keep heard ds c' (key d) r (choose-Settled c (key d) (heard d) h),
        assign_roles-AllSettled heard ds c' (settle-NoneBlank c (key d) r h),
      )

  abbrev pub dongles_of : List RoleAssignment → List Dongle
  dongles_of [] = []
  dongles_of (a ∷ rest) = a.dongle ∷ dongles_of rest

  pub dongles_of-assign_roles :
      (heard : Dongle → Bool) (ds : List Dongle) (c : DeviceConfig)
      → dongles_of (assign_roles b heard ds c).out ≡ ds
  unfolding assign_roles
  dongles_of-assign_roles heard [] c = refl
  dongles_of-assign_roles heard (d ∷ ds) c =
      let r = (choose b c.default_role (role_for c (key d)) (heard d)).0 in
      ap (λ rest. d ∷ rest) (dongles_of-assign_roles heard ds (settle c (key d) r).0)

  -- The settings stand, and nothing was probed or saved.
  abbrev pub unchanged : DeviceConfig → List RoleAssignment → Assigning
  unchanged c out = record { cfg = c; out = out; probed = []; saved = [] }

  assign_roles_settled :
      (heard : Dongle → Bool) (out : List RoleAssignment) (c : DeviceConfig)
      → AllSettled c out
      → assign_roles b heard (dongles_of out) c ≡ unchanged c out
  unfolding assign_roles
  assign_roles_settled heard [] c h = refl
  assign_roles_settled heard (a ∷ rest) c h = rw (h.0.chosen (heard a.dongle)) (
      rw (settle-Settled c (key a.dongle) a.role h.0)
        (rw (assign_roles_settled heard rest c h.1) refl))

  -- Where no confirmed role is empty, a round over the same dongles and the settings that a round
  -- left gives the same roles, whatever a probe would hear now; it probes no dongle, and it neither
  -- changes nor saves the settings.
  pub assign_roles_again :
      (heard other : Dongle → Bool) (ds : List Dongle) (c : DeviceConfig)
      → NoneBlank c
      → let first = assign_roles b heard ds c in
        assign_roles b other ds first.cfg ≡ unchanged first.cfg first.out
  assign_roles_again heard other ds c h =
      let first = assign_roles b heard ds c in
      sym (ap (λ l. assign_roles b other l first.cfg) (dongles_of-assign_roles heard ds c))
      ∙ assign_roles_settled other first.out first.cfg (assign_roles-AllSettled heard ds c h)
