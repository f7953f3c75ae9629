-- ===== src/Decoders/Desired.antt =====
-- What `reconcile` of agent/decoders.go is for: the decoders as a function from keys, which forgets the
-- map, the events and how a decoder was replaced.
use flightpatch.Common.{
  ℕ, Bool, true, false, not, ◌&&◌, List, [], ◌∷◌, Option, none, some, if◌then◌else◌, Bool-cases,
  inl, inr, ◌≡◌, refl, sym, ap, ◌∙◌, arith,
}
use flightpatch.Config.{DeviceConfig, role_adsb, role_vdl2, role_off}
use flightpatch.Decoders.Active.{keys, assign_one-active, assign_one-list_receiver}
use flightpatch.Decoders.Cycle.{first_round, is_empty_list, reconcile}
use flightpatch.Decoders.Reconcile.{lookup-reconcile_assigned, reconcile_on, reconcile_disabled}
use flightpatch.Decoders.{
  Dongle, key, RoleAssignment, Child, Manager, Round, child_for, next_slot, list_receiver,
  assign_one, assign_all,
}
use flightpatch.Dict.{lookup, mem}
use flightpatch.Text.{Str, str_eq}

-- The decoders that run, by the keys of their dongles.
abbrev pub Running : Type 0
Running = Str → Option Child

-- One assignment, in the slots that are free: the dongle gets the decoder of its role, unless it is
-- off.
abbrev pub start_one : RoleAssignment → ℕ → ℕ → Running → Running
start_one a adsb_slot vdl2_slot f k =
    if str_eq (key a.dongle) k && not (str_eq a.role role_off)
    then some (child_for a adsb_slot vdl2_slot)
    else f k

unfoldable pub start_each : List RoleAssignment → ℕ → ℕ → Running → Running
start_each [] adsb_slot vdl2_slot f = f
start_each (a ∷ rest) adsb_slot vdl2_slot f =
    start_each rest (next_slot a.role role_adsb adsb_slot) (next_slot a.role role_vdl2 vdl2_slot)
      (start_one a adsb_slot vdl2_slot f)

-- A round: nothing runs while feeding is disabled; nothing changes while no dongle is found; otherwise
-- the assigned dongles have what they are assigned, and no other dongle has a decoder.
unfoldable pub desired : Bool → List Dongle → List RoleAssignment → Running → Running
desired enabled dongles assigns f k =
    if not enabled
    then none
    else if is_empty_list dongles
    then f k
    else if mem k (keys assigns)
    then start_each assigns 0 0 f k
    else none

abbrev pub running : Manager → Running
running m k = lookup k m.active

start_each-same :
    (assigns : List RoleAssignment) (adsb vdl2 : ℕ) (f g : Running) (k : Str)
    → f k ≡ g k
    → start_each assigns adsb vdl2 f k ≡ start_each assigns adsb vdl2 g k
unfolding start_each
start_each-same [] adsb vdl2 f g k h = h
start_each-same (a ∷ assigns) adsb vdl2 f g k h =
    start_each-same assigns (next_slot a.role role_adsb adsb) (next_slot a.role role_vdl2 vdl2)
      (start_one a adsb vdl2 f) (start_one a adsb vdl2 g) k (ground (arith, h))

assign_all-start_each :
    (sha256 : Str → Str) (id : Str) (assigns : List RoleAssignment) (r : Round) (k : Str)
    → lookup k (assign_all sha256 id assigns r).active
      ≡ start_each assigns r.adsb_slot r.vdl2_slot (λ j. lookup j r.active) k
unfolding assign_all start_each
assign_all-start_each sha256 id [] r k = refl
assign_all-start_each sha256 id (a ∷ assigns) r k =
    let r' = assign_one sha256 id a r in
    let f : Running = λ j. lookup j r.active in
    let slots = assign_one-list_receiver sha256 id a r in
    let ih = assign_all-start_each sha256 id assigns r' k in
    let adsb : r'.adsb_slot ≡ next_slot a.role role_adsb r.adsb_slot =
      unfold list_receiver in slots.2 in
    let vdl2 : r'.vdl2_slot ≡ next_slot a.role role_vdl2 r.vdl2_slot =
      unfold list_receiver in slots.3 in
    ih
    ∙ ap (λ n. start_each assigns n r'.vdl2_slot (λ j. lookup j r'.active) k) adsb
    ∙ ap
        (λ n.
          start_each assigns (next_slot a.role role_adsb r.adsb_slot) n (λ j. lookup j r'.active) k)
        vdl2
    ∙ start_each-same assigns (next_slot a.role role_adsb r.adsb_slot)
        (next_slot a.role role_vdl2 r.vdl2_slot) (λ j. lookup j r'.active)
        (start_one a r.adsb_slot r.vdl2_slot f) k (assign_one-active sha256 id a r k)

idle_none : (xs : List (Str × Child)) (k : Str) → is_empty_list xs ≡ true → lookup k xs ≡ none
unfolding lookup
idle_none [] k h = refl
idle_none (x ∷ xs) k h = absurd (ground (arith, h))

reconcile_blip :
    (sha256 : Str → Str) (cfg : DeviceConfig) (dongles : List Dongle)
    (assigns : List RoleAssignment) (m : Manager) (k : Str)
    → m.enabled ≡ true
    → is_empty_list dongles ≡ true
    → running (reconcile sha256 cfg dongles assigns m) k ≡ running m k
unfolding reconcile
reconcile_blip sha256 cfg dongles assigns m k on gone = rw (on, reconcile) (rw gone refl)

module _ (dongles : List Dongle) (assigns : List RoleAssignment) (f : Running) (k : Str) where
  desired_off : (enabled : Bool) → enabled ≡ false → desired enabled dongles assigns f k ≡ none
  unfolding desired
  desired_off enabled off = rw off refl

  desired_blip :
      (enabled : Bool)
      → enabled ≡ true
      → is_empty_list dongles ≡ true
      → desired enabled dongles assigns f k ≡ f k
  unfolding desired
  desired_blip enabled on gone = rw on (rw gone refl)

  desired_on :
      (enabled : Bool)
      → enabled ≡ true
      → is_empty_list dongles ≡ false
      → desired enabled dongles assigns f k
        ≡ (if mem k (keys assigns) then start_each assigns 0 0 f k else none)
  unfolding desired
  desired_on enabled on found = rw on (rw found refl)

-- A round of `reconcile` does just what it is for, whatever is enumerated and assigned and whatever
-- ran before: under each key runs the decoder that is desired, and no other.
pub reconcile-desired :
    (sha256 : Str → Str) (cfg : DeviceConfig) (dongles : List Dongle)
    (assigns : List RoleAssignment) (m : Manager) (k : Str)
    → running (reconcile sha256 cfg dongles assigns m) k
      ≡ desired m.enabled dongles assigns (running m) k
reconcile-desired sha256 cfg dongles assigns m k = elim (Bool-cases m.enabled) [
  | inr off ↦
      idle_none (reconcile sha256 cfg dongles assigns m).active k
        (ap is_empty_list (reconcile_disabled sha256 cfg dongles assigns m off).0)
      ∙ sym (desired_off dongles assigns (running m) k m.enabled off)
  | inl on ↦ elim (Bool-cases (is_empty_list dongles)) [
    | inl gone ↦
        reconcile_blip sha256 cfg dongles assigns m k on gone
        ∙ sym (desired_blip dongles assigns (running m) k m.enabled on gone)
    | inr found ↦
        ap (λ n. lookup k n.active) (reconcile_on sha256 cfg dongles assigns m on found)
        ∙ lookup-reconcile_assigned sha256 cfg assigns m k
        ∙ ap (λ o. if mem k (keys assigns) then o else none)
            (assign_all-start_each sha256 cfg.device_id assigns (first_round m) k)
        ∙ sym (desired_on dongles assigns (running m) k m.enabled on found)
  ]
]
