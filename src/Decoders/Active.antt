-- ===== src/Decoders/Active.antt =====
-- Which decoders run after the loop over the assignments.
use flightpatch.Common.{
  ℕ, ◌+◌, true, false, ◌&&◌, ◌||◌, not, List, [], ◌∷◌, ◌++◌, Option, none, some, if◌then◌else◌, ◌≡◌,
  refl, ap, ◌∙◌, arith, Option-cases,
}
use flightpatch.Config.{role_adsb, role_vdl2, role_off}
use flightpatch.Decoders.{
  key, RoleAssignment, Child, Round, same_child, place, child_for, assign_one, assign_all,
  list_receiver,
}
use flightpatch.Dict.{lookup, erase, lookup-insert, lookup-erase, mem}
use flightpatch.Text.Laws.{str_eq_iff, str_eq_refl}
use flightpatch.Text.{Str, str_eq}

same_child_lem : (a b : Child) → same_child a b ≡ true → a ≡ b
same_child_lem a b h = ground (arith, str_eq_iff a.role b.role, str_eq_iff a.identity b.identity)

same_child_refl : (a : Child) → same_child a a ≡ true
same_child_refl a = ground (arith, str_eq_refl a.role, str_eq_refl a.identity)

place-active :
    (k : Str) (c : Child) (old : Option Child) (r : Round) (j : Str)
    → lookup k r.active ≡ old
    → lookup j (place k c old r).active ≡ (if str_eq k j then some c else lookup j r.active)
unfolding place
place-active k c none r j h = lookup-insert k j c r.active
place-active k c (some running) r j h = ground (
  arith,
  same_child_lem running c,
  str_eq_iff k j,
  lookup-insert k j c (erase k r.active),
  lookup-erase k j r.active,
)

list_receiver-active :
    (sha256 : Str → Str) (device_id : Str) (a : RoleAssignment) (r : Round)
    → (list_receiver sha256 device_id a r).active ≡ r.active
unfolding list_receiver
list_receiver-active sha256 device_id a r = refl

-- After one assignment the decoder of its dongle is the one that is wanted, unless the role is off.
pub assign_one-active :
    (sha256 : Str → Str) (device_id : Str) (a : RoleAssignment) (r : Round) (j : Str)
    → lookup j (assign_one sha256 device_id a r).active ≡ (
        if str_eq (key a.dongle) j && not (str_eq a.role role_off)
        then some (child_for a r.adsb_slot r.vdl2_slot)
        else lookup j r.active)
unfolding assign_one
assign_one-active sha256 device_id a r j =
    let r' = list_receiver sha256 device_id a r in
    let c = child_for a r.adsb_slot r.vdl2_slot in
    let k = key a.dongle in
    ground (
      arith,
      list_receiver-active sha256 device_id a r,
      place-active k c (lookup k r'.active) r' j refl,
    )

-- The decoders aside, an assignment lists its receiver and takes its slot.
pub assign_one-list_receiver :
    (sha256 : Str → Str) (device_id : Str) (a : RoleAssignment) (r : Round)
    → let r' = assign_one sha256 device_id a r in
      let n = list_receiver sha256 device_id a r in
      (r'.seen ≡ n.seen)
      × (r'.inventory ≡ n.inventory)
      × (r'.adsb_slot ≡ n.adsb_slot)
      × (r'.vdl2_slot ≡ n.vdl2_slot)
unfolding assign_one place
assign_one-list_receiver sha256 device_id a r =
    ground (arith, Option-cases (lookup (key a.dongle) (list_receiver sha256 device_id a r).active))

unfoldable pub keys : List RoleAssignment → List Str
keys [] = []
keys (a ∷ rest) = key a.dongle ∷ keys rest

-- How many of the assignments have a role.
unfoldable pub count_role : Str → List RoleAssignment → ℕ
count_role role [] = 0
count_role role (a ∷ rest) = (if str_eq a.role role then 1 else 0) + count_role role rest

module _ (sha256 : Str → Str) (device_id : Str) where
  abbrev all : List RoleAssignment → Round → Round
  all = assign_all sha256 device_id

  pub assign_all-cons :
      (x : RoleAssignment) (xs : List RoleAssignment) (r : Round)
      → assign_all sha256 device_id (x ∷ xs) r
        ≡ assign_all sha256 device_id xs (assign_one sha256 device_id x r)
  unfolding assign_all
  assign_all-cons x xs r = refl

  pub assign_all-append :
      (xs ys : List RoleAssignment) (r : Round)
      → assign_all sha256 device_id (xs ++ ys) r
        ≡ assign_all sha256 device_id ys (assign_all sha256 device_id xs r)
  unfolding assign_all
  assign_all-append [] ys r = refl
  assign_all-append (x ∷ xs) ys r = assign_all-append xs ys (assign_one sha256 device_id x r)

  pub assign_all-slots :
      (xs : List RoleAssignment) (r : Round)
      → ((all xs r).adsb_slot ≡ r.adsb_slot + count_role role_adsb xs)
        × ((all xs r).vdl2_slot ≡ r.vdl2_slot + count_role role_vdl2 xs)
  unfolding assign_all count_role list_receiver
  assign_all-slots [] r = omega arith
  assign_all-slots (x ∷ xs) r = ground (
    arith,
    assign_one-list_receiver sha256 device_id x r,
    assign_all-slots xs (assign_one sha256 device_id x r),
  )

  -- The decoder of a dongle that is not assigned is left alone by the loop.
  pub assign_all-absent :
      (xs : List RoleAssignment) (r : Round) (k : Str)
      → mem k (keys xs) ≡ false
      → lookup k (all xs r).active ≡ lookup k r.active
  unfolding assign_all keys mem
  assign_all-absent [] r k h = refl
  assign_all-absent (x ∷ xs) r k h = ground (
    arith,
    assign_one-active sha256 device_id x r k,
    assign_all-absent xs (assign_one sha256 device_id x r) k,
  )

  pub mem-assign_all :
      (xs : List RoleAssignment) (r : Round) (k : Str)
      → mem k (all xs r).seen ≡ (mem k (keys xs) || mem k r.seen)
  unfolding assign_all keys mem list_receiver
  mem-assign_all [] r k = refl
  mem-assign_all (x ∷ xs) r k = ground (
    arith,
    assign_one-list_receiver sha256 device_id x r,
    mem-assign_all xs (assign_one sha256 device_id x r) k,
  )

  -- The decoder of an assigned dongle, in the slot behind those of the assignments before it.
  pub assign_all-active :
      (before after : List RoleAssignment) (a : RoleAssignment) (r : Round)
      → mem (key a.dongle) (keys after) ≡ false
      → str_eq a.role role_off ≡ false
      → lookup (key a.dongle) (all (before ++ a ∷ after) r).active
        ≡ some (
            child_for a
              (r.adsb_slot + count_role role_adsb before)
              (r.vdl2_slot + count_role role_vdl2 before))
  unfolding assign_all
  assign_all-active before after a r absent on =
      let r' = all before r in
      let (adsb, vdl2) = assign_all-slots before r in
      ap (λ (s : Round). lookup (key a.dongle) s.active) (assign_all-append before (a ∷ after) r)
      ∙ assign_all-absent after (assign_one sha256 device_id a r') (key a.dongle) absent
      ∙ assign_one-active sha256 device_id a r' (key a.dongle)
      ∙ rw (str_eq_refl (key a.dongle), on) (rw (adsb, vdl2))
