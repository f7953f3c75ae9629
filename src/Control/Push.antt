-- ===== src/Control/Push.antt =====
-- What a configuration pushed by the server does, and what it cannot do.
use flightpatch.Common.{false, [], Option, none, some, if◌then◌else◌, ◌≡◌, refl, ap, ◌∙◌, arith}
use flightpatch.Config.{DeviceConfig, find_role, role_for, set_role}
use flightpatch.Config.Roles.{set_role_in_unchanged, find_role-set_role_in}
use flightpatch.Control.{
  text, object, other, Fields, end, field, lookup, push_text, push_roles, push_object, as_object,
  as_text, push_config, apply_config,
}
use flightpatch.Text.Laws.{str_eq_iff, str_eq_refl}
use flightpatch.Text.{Str, str_eq, codes}

set_role-roles :
    (c : DeviceConfig) (s r : Str)
    → (set_role c s r).0 ≡ record c { roles = (set_role c s r).0.roles }
unfolding set_role
set_role-roles c s r = refl

-- A push of roles touches nothing else.
push_roles-roles :
    (fs : Fields) (c : DeviceConfig)
    → (push_roles fs c).0 ≡ record c { roles = (push_roles fs c).0.roles }
unfolding push_roles
push_roles-roles end c = refl
push_roles-roles (field s (text r) fs) c =
    push_roles-roles fs (set_role c s r).0
    ∙ ap (λ (d : DeviceConfig). record d { roles = (push_roles fs (set_role c s r).0).0.roles })
        (set_role-roles c s r)
push_roles-roles (field s (object o) fs) c = push_roles-roles fs c
push_roles-roles (field s other fs) c = push_roles-roles fs c

push_object-roles :
    (o : Option Fields) (c : DeviceConfig)
    → (push_object o c).0 ≡ record c { roles = (push_object o c).0.roles }
push_object-roles none c = refl
push_object-roles (some fs) c = push_roles-roles fs c

apply_config-local_roles :
    (m : Option Fields) (c : DeviceConfig) → (apply_config m c).0.local_roles ≡ c.local_roles
unfolding apply_config push_config
apply_config-local_roles none c = refl
apply_config-local_roles (some m) c =
    ap (λ d. d.local_roles) (push_object-roles (as_object (lookup m (codes "roles"))) _)

-- The role that the user confirmed for a dongle stands, whatever the server pushes.
pub role_for-apply_config :
    (m : Option Fields) (c : DeviceConfig) (serial : Str) {role : Str}
    → find_role c.local_roles serial ≡ some role
    → role_for (apply_config m c).0 serial ≡ role
unfolding role_for
role_for-apply_config m c serial h = rw (apply_config-local_roles m c) (rw h)

-- The keys of a map are distinct.
abbrev pub IsMap : Fields → Type 0
IsMap end = Unit
IsMap (field k v fs) = (lookup fs k ≡ none) × IsMap fs

-- Every role that the map gives is assigned.
Assigned : Fields → DeviceConfig → Type 0
Assigned end c = Unit
Assigned (field s (text r) fs) c = (find_role c.roles s ≡ some r) × Assigned fs c
Assigned (field s (object o) fs) c = Assigned fs c
Assigned (field s other fs) c = Assigned fs c

find_role-set_role :
    (c : DeviceConfig) (serial role k : Str)
    → find_role (set_role c serial role).0.roles k
      ≡ (if str_eq serial k then some role else find_role c.roles k)
unfolding set_role
find_role-set_role c serial role k = find_role-set_role_in c.roles serial role k

find_role-push_roles :
    (fs : Fields) (c : DeviceConfig) (serial : Str)
    → lookup fs serial ≡ none
    → find_role (push_roles fs c).0.roles serial ≡ find_role c.roles serial
unfolding push_roles lookup
find_role-push_roles end c serial h = refl
find_role-push_roles (field s (text r) fs) c serial h =
    ground
      (arith, find_role-push_roles fs (set_role c s r).0 serial, find_role-set_role c s r serial)
find_role-push_roles (field s (object o) fs) c serial h =
    ground (arith, find_role-push_roles fs c serial)
find_role-push_roles (field s other fs) c serial h =
    ground (arith, find_role-push_roles fs c serial)

Assigned-cong :
    (fs : Fields) (c d : DeviceConfig) → c.roles ≡ d.roles → Assigned fs c → Assigned fs d
unfolding Assigned
Assigned-cong end c d e h = tt
Assigned-cong (field s (text r) fs) c d e h = (rw (← e) h.0, Assigned-cong fs c d e h.1)
Assigned-cong (field s (object o) fs) c d e h = Assigned-cong fs c d e h
Assigned-cong (field s other fs) c d e h = Assigned-cong fs c d e h

push_roles-Assigned : (fs : Fields) (c : DeviceConfig) → IsMap fs → Assigned fs (push_roles fs c).0
unfolding push_roles Assigned
push_roles-Assigned end c h = tt
push_roles-Assigned (field s (text r) fs) c h = (
  find_role-push_roles fs (set_role c s r).0 s h.0
      ∙ find_role-set_role c s r s
      ∙ rw (str_eq_refl s),
  push_roles-Assigned fs (set_role c s r).0 h.1,
)
push_roles-Assigned (field s (object o) fs) c h = push_roles-Assigned fs c h.1
push_roles-Assigned (field s other fs) c h = push_roles-Assigned fs c h.1

Assigned-lookup :
    (fs : Fields) (c : DeviceConfig) (serial role : Str)
    → Assigned fs c
    → lookup fs serial ≡ some (text role)
    → find_role c.roles serial ≡ some role
unfolding Assigned lookup
Assigned-lookup end c serial role h e = absurd cc
Assigned-lookup (field s (text r) fs) c serial role h e =
    ground (arith, h, e, str_eq_iff s serial, Assigned-lookup fs c serial role)
Assigned-lookup (field s (object o) fs) c serial role h e =
    ground (arith, h, e, str_eq_iff s serial, Assigned-lookup fs c serial role)
Assigned-lookup (field s other fs) c serial role h e =
    ground (arith, h, e, str_eq_iff s serial, Assigned-lookup fs c serial role)

set_role_kept :
    (c : DeviceConfig) (s r : Str) → find_role c.roles s ≡ some r → set_role c s r ≡ (c, false)
unfolding set_role
set_role_kept c s r h = rw (set_role_in_unchanged c.roles s r h)

push_roles_again : (fs : Fields) (c : DeviceConfig) → Assigned fs c → push_roles fs c ≡ (c, false)
unfolding push_roles Assigned
push_roles_again end c h = refl
push_roles_again (field s (text r) fs) c h =
    let kept = set_role_kept c s r h.0 in rw kept (rw (push_roles_again fs c h.1))
push_roles_again (field s (object o) fs) c h = push_roles_again fs c h
push_roles_again (field s other fs) c h = push_roles_again fs c h

push_text_again :
    (o : Option Str) (cur v : Str) → v ≡ (push_text o cur).0 → push_text o v ≡ (v, false)
unfolding push_text
push_text_again none cur v e = refl
push_text_again (some t) cur v e = ground (arith, str_eq_refl t, str_eq_iff t cur, str_eq_iff t v)

-- The pushed roles have distinct keys, as the keys of a Go map have.
abbrev pub IsRoleMap : Option Fields → Type 0
IsRoleMap none = Unit
IsRoleMap (some roles) = IsMap roles

abbrev pub IsPush : Fields → Type 0
IsPush m = IsRoleMap (as_object (lookup m (codes "roles")))

push_object_again :
    (o : Option Fields) (c : DeviceConfig)
    → IsRoleMap o
    → push_object o (push_object o c).0 ≡ ((push_object o c).0, false)
push_object_again none c h = refl
push_object_again (some fs) c h =
    push_roles_again fs (push_roles fs c).0 (push_roles-Assigned fs c h)

push_config_again :
    (m : Fields) (c : DeviceConfig)
    → IsPush m
    → push_config m (push_config m c).0 ≡ ((push_config m c).0, false)
unfolding push_config
push_config_again m c h =
    let o = as_object (lookup m (codes "roles")) in
    let feed = as_text (lookup m (codes "feed")) in
    let vdl2 = as_text (lookup m (codes "vdl2_feed")) in
    let gain = as_text (lookup m (codes "gain")) in
    let c1 : DeviceConfig = record c {
      feed = (push_text feed c.feed).0;
      vdl2_feed = (push_text vdl2 c.vdl2_feed).0;
      gain = (push_text gain c.gain).0;
    } in
    let same = push_object-roles o c1 in
    rw
      (
        push_text_again feed c.feed _ (ap (λ d. d.feed) same),
        push_text_again vdl2 c.vdl2_feed _ (ap (λ d. d.vdl2_feed) same),
        push_text_again gain c.gain _ (ap (λ d. d.gain) same),
      )
      (rw (push_object_again o c1 h))

-- A configuration that is applied a second time right behind the first, before anything else touches
-- the settings, changes nothing, so this second time nothing is saved and no decoder is bounced,
-- where the keys of the pushed roles are distinct.
pub apply_config_again :
    (m : Fields) (c : DeviceConfig)
    → IsPush m
    → apply_config (some m) (apply_config (some m) c).0 ≡ ((apply_config (some m) c).0, [])
unfolding apply_config
apply_config_again m c h = rw (push_config_again m c h)

pushed_config :
    (m roles : Fields) (c : DeviceConfig) (serial role : Str)
    → as_object (lookup m (codes "roles")) ≡ some roles
    → IsMap roles
    → lookup roles serial ≡ some (text role)
    → find_role (push_config m c).0.roles serial ≡ some role
unfolding push_config
pushed_config m roles c serial role e distinct found =
    rw e (Assigned-lookup roles _ serial role (push_roles-Assigned roles _ distinct) found)

-- A role that is pushed for a dongle that the user has confirmed none for is its role.
pub pushed_role :
    (m roles : Fields) (c : DeviceConfig) (serial role : Str)
    → as_object (lookup m (codes "roles")) ≡ some roles
    → IsMap roles
    → lookup roles serial ≡ some (text role)
    → find_role c.local_roles serial ≡ none
    → role_for (apply_config (some m) c).0 serial ≡ role
unfolding role_for
pushed_role m roles c serial role e distinct found free =
    let given = pushed_config m roles c serial role e distinct found in
    rw (apply_config-local_roles (some m) c) (rw free (unfold apply_config in rw given refl))
