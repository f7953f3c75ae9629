-- ===== src/Control/Bounced.antt =====
-- A push that changes nothing, and one that bounces the decoders: `applyConfig` of agent/main.go.
use flightpatch.Common.{
  Bool, true, false, ◌||◌, [], Option, none, some, ◌≡◌, refl, ◌∙◌, arith, ◌⊎◌, inl, inr, Bool-cases,
}
use flightpatch.Config.{DeviceConfig, set_role}
use flightpatch.Config.Roles.{set_role_unchanged_iff}
use flightpatch.Control.{
  text, object, other, Fields, end, field, lookup, push_text, push_roles, push_object, as_object,
  as_text, push_config, apply_config, enabled_after, bounce,
}
use flightpatch.Text.{Str, codes}

both_false : (a b : Bool) → (a || b) ≡ false → (a ≡ false) × (b ≡ false)
both_false a b e = ground arith

push_text_same :
    (o : Option Str) (cur : Str) → (push_text o cur).1 ≡ false → (push_text o cur).0 ≡ cur
unfolding push_text
push_text_same none cur e = refl
push_text_same (some t) cur e = ground arith

push_roles_same :
    (fs : Fields) (c : DeviceConfig) → (push_roles fs c).1 ≡ false → (push_roles fs c).0 ≡ c
unfolding push_roles
push_roles_same end c e = refl
push_roles_same (field s (text r) fs) c e =
    let (first, later) = both_false _ _ e in
    push_roles_same fs (set_role c s r).0 later ∙ (set_role_unchanged_iff c s r).1 first
push_roles_same (field s (object o) fs) c e = push_roles_same fs c e
push_roles_same (field s other fs) c e = push_roles_same fs c e

push_object_same :
    (o : Option Fields) (c : DeviceConfig) → (push_object o c).1 ≡ false → (push_object o c).0 ≡ c
push_object_same none c e = refl
push_object_same (some fs) c e = push_roles_same fs c e

push_config_same :
    (m : Fields) (c : DeviceConfig) → (push_config m c).1 ≡ false → (push_config m c).0 ≡ c
unfolding push_config
push_config_same m c e =
    let (texts, roles) = both_false _ _ e in
    let (feed, rest) = both_false _ _ texts in
    let (vdl2, gain) = both_false _ _ rest in
    push_object_same (as_object (lookup m (codes "roles"))) _ roles ∙ (λ i. record c {
      feed = push_text_same (as_text (lookup m (codes "feed"))) c.feed feed i;
      vdl2_feed = push_text_same (as_text (lookup m (codes "vdl2_feed"))) c.vdl2_feed vdl2 i;
      gain = push_text_same (as_text (lookup m (codes "gain"))) c.gain gain i;
    })

-- A push either changes nothing at all, and the enabled flag stands, or it saves the new settings
-- and bounces the decoders, and then leaves them enabled, whatever the flag was before.
pub apply_config_lem :
    (m : Option Fields) (c : DeviceConfig) (enabled : Bool)
    → let (c', actions) = apply_config m c in
      ((actions ≡ []) × (c' ≡ c) × (enabled_after actions enabled ≡ enabled))
      ⊎ ((actions ≡ bounce c') × (enabled_after actions enabled ≡ true))
unfolding apply_config enabled_after
apply_config_lem none c enabled = inl (refl, refl, refl)
apply_config_lem (some m) c enabled = elim (Bool-cases (push_config m c).1) [
  | inl changed ↦ inr (rw changed, rw changed)
  | inr same ↦ inl (rw same, push_config_same m c same, rw same)
]
