-- ===== src/Decoders/Runnable.antt =====
-- The programs for the roles that `assignRoles` of agent/decoders.go gives.
use flightpatch.Common.{
  if_case, Bool, true, false, ◌&&◌, ◌||◌, not, List, [], ◌∷◌, Option, none, if◌then◌else◌, is_some,
  ◌≡◌, inl, inr, refl, sym, ◌∙◌, arith, Option-cases,
}
use mathlib.Core.Path.{subst}
use flightpatch.Config.Roles.{role_for-set_role}
use flightpatch.Config.{
  DeviceConfig, role_adsb, role_vdl2, role_uat, role_off, role_for, find_role, set_role,
}
use flightpatch.Decoders.Assign.{
  adsb_exe_name, vdl2_exe_name, uat_exe_names, uat_available, all_found, bundle_of, Bundle, choose,
  settle, assign_roles,
}
use flightpatch.Decoders.Supervise.{build_decoder_cmd}
use flightpatch.Decoders.{Dongle, key, RoleAssignment, PortSet}
use flightpatch.Relay.Uat.{find_paths}
use flightpatch.Text.{Str, str_eq, is_empty}

-- What the switch gives has what each of its cases has.
choose_case :
    (P : Str → Type 0) (b : Bundle) (default_role configured : Str) (heard : Bool)
    → (is_empty configured ≡ false → P configured)
    → (b.adsb ≡ true → P role_adsb)
    → (b.vdl2 ≡ true → P role_vdl2)
    → (b.uat ≡ true → P role_uat)
    → P role_off
    → P (choose b default_role configured heard).0
unfolding choose
choose_case P b default_role configured heard c a v u o =
    let Q : Str × Bool → Type 0 = λ r. P r.0 in
    if_case Q (not (is_empty configured)) (λ e. c (ground (arith, e)))
      (λ _.
        if_case Q (str_eq default_role role_adsb && b.adsb) (λ e. a (ground (arith, e)))
          (λ _.
            if_case Q (str_eq default_role role_vdl2 && b.vdl2) (λ e. v (ground (arith, e)))
              (λ _.
                if_case Q (str_eq default_role role_uat && b.uat) (λ e. u (ground (arith, e)))
                  (λ _.
                    if_case Q (b.adsb && not b.vdl2) (λ e. a (ground (arith, e)))
                      (λ _.
                        if_case Q (b.vdl2 && not b.adsb) (λ e. v (ground (arith, e)))
                          (λ _.
                            if_case Q (b.adsb && b.vdl2)
                              (λ e.
                                if_case P heard (λ _. v (ground (arith, e)))
                                  (λ _. a (ground (arith, e))))
                              (λ _. o)))))))

-- A role after `setRole` is one from before it, or the assigned one.
set_role_case :
    (P : Str → Type 0) (c : DeviceConfig) (k role other : Str)
    → P (role_for c other)
    → P role
    → P (role_for (set_role c k role).0 other)
set_role_case P c k role other old new = elim (Option-cases (find_role c.local_roles other)) [
  | inl e ↦
      subst P (sym (role_for-set_role c k role other ∙ (rw e refl)))
        (if_case P (str_eq k other) (λ _. new) (λ _. old))
  | inr (l, e) ↦
      subst P (sym (role_for-set_role c k role other ∙ (rw e (unfold role_for in rw e refl)))) old
]

module _ (find : Str → Option Str) (is_windows : Bool) (built : DeviceConfig) (to : Dongle)
    (ports : PortSet) where
  abbrev found : Str → Bool
  found name = is_some (find name)

  -- What the role runs is found: the programs of the pipeline, or one for the command line.
  abbrev pub runs : Str → Bool
  runs role =
      if str_eq role role_uat
      then not (is_some (find_paths find (uat_exe_names is_windows)).0)
      else is_some (
          build_decoder_cmd find (adsb_exe_name is_windows) (vdl2_exe_name is_windows) built role to
            ports)

  -- Off, or a role that runs.
  abbrev pub IsRunnable : Str → Type 0
  IsRunnable role = (str_eq role role_off || runs role) ≡ true

  -- No role is configured, or one that runs.
  abbrev pub AreRunnable : DeviceConfig → Type 0
  AreRunnable c =
      (k : Str)
      → (is_empty (role_for c k) || (str_eq (role_for c k) role_off || runs (role_for c k))) ≡ true

  abbrev pub AllRunnable : List RoleAssignment → Type 0
  AllRunnable [] = Unit
  AllRunnable (a ∷ rest) = IsRunnable a.role × AllRunnable rest

  runs_adsb : found (adsb_exe_name is_windows) ≡ true → runs role_adsb ≡ true
  unfolding build_decoder_cmd str_eq
  runs_adsb h = elim (Option-cases (find (adsb_exe_name is_windows))) [
    | inl e ↦ absurd (ground (arith, h, e))
    | inr (p, e) ↦ rw e refl
  ]

  runs_vdl2 : found (vdl2_exe_name is_windows) ≡ true → runs role_vdl2 ≡ true
  unfolding build_decoder_cmd str_eq
  runs_vdl2 h = elim (Option-cases (find (vdl2_exe_name is_windows))) [
    | inl e ↦ absurd (ground (arith, h, e))
    | inr (p, e) ↦ rw e refl
  ]

  find_paths-all_found :
      (names : List Str) → all_found found names ≡ true → (find_paths find names).0 ≡ none
  unfolding find_paths all_found
  find_paths-all_found [] h = refl
  find_paths-all_found (name ∷ names) h = elim (Option-cases (find name)) [
    | inl e ↦ absurd (ground (arith, h, e))
    | inr (p, e) ↦ rw (e, find_paths) (find_paths-all_found names (ground (arith, h, e)))
  ]

  runs_uat : uat_available found is_windows ≡ true → runs role_uat ≡ true
  unfolding uat_available str_eq
  runs_uat h = rw (find_paths-all_found (uat_exe_names is_windows) h) refl

  choose-IsRunnable :
      (default_role configured : Str) (heard : Bool)
      → (is_empty configured || (str_eq configured role_off || runs configured)) ≡ true
      → IsRunnable (choose (bundle_of found is_windows) default_role configured heard).0
  unfolding bundle_of str_eq
  choose-IsRunnable default_role configured heard h =
      choose_case IsRunnable (bundle_of found is_windows) default_role configured heard
        (λ e. ground (arith, h, e)) runs_adsb runs_vdl2 runs_uat refl

  settle-AreRunnable :
      (c : DeviceConfig) (k role : Str)
      → AreRunnable c
      → IsRunnable role
      → AreRunnable (settle c k role).0
  unfolding settle
  settle-AreRunnable c k role h r =
      if_case {A = DeviceConfig × Bool} (λ t. AreRunnable t.0) (str_eq role role_off) (λ _. h)
        (λ _ j.
          set_role_case (λ s. (is_empty s || (str_eq s role_off || runs s)) ≡ true) c k role j (h j)
            (ground (arith, r)))

  -- Where each configured role is off or has its programs, so does each role that `assignRoles` gives,
  -- whatever is bundled, chosen at installation and heard by the probes, and the roles that it records.
  pub assign_roles-AllRunnable :
      (heard : Dongle → Bool) (dongles : List Dongle) (c : DeviceConfig)
      → AreRunnable c
      → AllRunnable (assign_roles (bundle_of found is_windows) heard dongles c).out
        × AreRunnable (assign_roles (bundle_of found is_windows) heard dongles c).cfg
  unfolding assign_roles
  assign_roles-AllRunnable heard [] c h = (tt, h)
  assign_roles-AllRunnable heard (d ∷ dongles) c h =
      let b = bundle_of found is_windows in
      let role = (choose b c.default_role (role_for c (key d)) (heard d)).0 in
      let r = choose-IsRunnable c.default_role (role_for c (key d)) (heard d) (h (key d)) in
      let (rest, kept) =
        assign_roles-AllRunnable heard dongles (settle c (key d) role).0
          (settle-AreRunnable c (key d) role h r) in
      ((r, rest), kept)
