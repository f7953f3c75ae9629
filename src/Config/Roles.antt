-- ===== src/Config/Roles.antt =====
-- Which role a dongle has after the assignments were changed.
use flightpatch.Common.{
  false, List, [], ◌∷◌, none, some, if◌then◌else◌, ◌≡◌, ◌≢◌, ◌↔◌, refl, arith, ◌⊎◌, ap,
}
use flightpatch.Config.{
  DongleRole, DeviceConfig, find_role, role_for, set_role_in, set_role, apply_default_role,
}
use flightpatch.Text.Laws.{str_eq_iff}
use flightpatch.Text.{Str, str_eq}

pub find_role-set_role_in :
    (rs : List DongleRole) (serial role other : Str)
    → find_role (set_role_in rs serial role).0 other
      ≡ (if str_eq serial other then some role else find_role rs other)
unfolding find_role set_role_in
find_role-set_role_in [] serial role other = refl
find_role-set_role_in (r ∷ rs) serial role other = ground (
  arith,
  str_eq_iff r.serial serial,
  str_eq_iff serial other,
  str_eq_iff r.serial other,
  str_eq_iff r.role role,
  find_role-set_role_in rs serial role other,
)

pub set_role_in_unchanged :
    (rs : List DongleRole) (serial role : Str)
    → find_role rs serial ≡ some role
    → set_role_in rs serial role ≡ (rs, false)
unfolding find_role set_role_in
set_role_in_unchanged [] serial role h = cc
set_role_in_unchanged (r ∷ rs) serial role h =
    ground (arith, str_eq_iff r.role role, set_role_in_unchanged rs serial role)

set_role_in_found :
    (rs : List DongleRole) (serial role : Str)
    → (set_role_in rs serial role).1 ≡ false
    → find_role rs serial ≡ some role
unfolding find_role set_role_in
set_role_in_found [] serial role h = cc
set_role_in_found (r ∷ rs) serial role h =
    ground (arith, str_eq_iff r.role role, set_role_in_found rs serial role)

-- The role of a dongle after the server or a probe assigned `role` to the serial `serial`: a role
-- that the user confirmed locally stands; otherwise the assigned dongle has the new role, and every
-- other dongle has the role that it had.
pub role_for-set_role :
    (c : DeviceConfig) (serial role other : Str)
    → role_for (set_role c serial role).0 other ≡ elim (find_role c.local_roles other) [
      | some r ↦ r
      | none ↦ if str_eq serial other then role else role_for c other
    ]
unfolding role_for set_role
role_for-set_role c serial role other =
    ground (arith, find_role-set_role_in c.roles serial role other)

-- `setRole` answers that nothing changed exactly when the first assignment of the serial holds the
-- role already, and then the settings are what they were.
pub set_role_unchanged_iff :
    (c : DeviceConfig) (serial role : Str)
    → ((set_role c serial role).1 ≡ false ↔ find_role c.roles serial ≡ some role)
      × ((set_role c serial role).1 ≡ false → (set_role c serial role).0 ≡ c)
unfolding set_role
set_role_unchanged_iff c serial role =
    let found = set_role_in_found c.roles serial role in
    let same = set_role_in_unchanged c.roles serial role in
    ((found, λ e. ap (λ t. t.1) (same e)), λ e. ap (λ t. record c { roles = t.0 }) (same (found e)))

-- No serial has two assignments.
abbrev pub IsDistinct : List DongleRole → Type 0
IsDistinct [] = Unit
IsDistinct (r ∷ rs) = (find_role rs r.serial ≡ none) × IsDistinct rs

set_role_in-none :
    (rs : List DongleRole) (serial role other : Str)
    → find_role rs other ≡ none
    → str_eq serial other ≡ false
    → find_role (set_role_in rs serial role).0 other ≡ none
set_role_in-none rs serial role other h e = rw (find_role-set_role_in rs serial role other) (rw e h)

set_role_in-IsDistinct :
    (rs : List DongleRole) (serial role : Str)
    → IsDistinct rs
    → IsDistinct (set_role_in rs serial role).0
unfolding find_role set_role_in
set_role_in-IsDistinct [] serial role h = (refl, tt)
set_role_in-IsDistinct (r ∷ rs) serial role h = ground (
  arith,
  str_eq_iff r.serial serial,
  str_eq_iff serial r.serial,
  set_role_in-IsDistinct rs serial role,
  set_role_in-none rs serial role r.serial,
)

-- Assigning roles keeps one assignment for each serial, also when the installer's choice is applied.
pub set_role-IsDistinct :
    (c : DeviceConfig) (serial role choice : Str)
    → IsDistinct c.roles
    → IsDistinct (set_role c serial role).0.roles × IsDistinct (apply_default_role c choice).roles
unfolding set_role apply_default_role
set_role-IsDistinct c serial role choice h =
    (set_role_in-IsDistinct c.roles serial role h, ground arith)

-- An install choice of `adsb`, `vdl2` or `auto` that differs from the recorded one is recorded and
-- leaves each dongle with the role that the user confirmed for it, or with none; every other choice
-- changes nothing.
pub apply_default_role_lem :
    (c : DeviceConfig) (choice serial : Str)
    → (apply_default_role c choice ≡ c)
      ⊎ (((apply_default_role c choice).default_role ≡ choice)
          × (choice ≢ c.default_role)
          × (role_for (apply_default_role c choice) serial
              ≡ elim (find_role c.local_roles serial) [ some r ↦ r | none ↦ [] ]))
unfolding role_for apply_default_role
apply_default_role_lem c choice serial = ground (arith, str_eq_iff c.default_role choice)
