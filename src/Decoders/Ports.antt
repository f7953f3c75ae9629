-- ===== src/Decoders/Ports.antt =====
-- The local ports that a round hands out.
use flightpatch.Common.{
  ℕ, ◌+◌, ◌*◌, ◌≤◌, ◌<◌, List, [], ◌∷◌, ◌++◌, if◌then◌else◌, ◌≡◌, ◌≢◌, refl, sym, ◌∙◌, arith, ◌⊎◌,
  inl, inr, Bool-cases, ◌==◌, length, append-nil, append_assoc,
}
use flightpatch.Config.{role_adsb, role_vdl2}
use flightpatch.Decoders.Active.{assign_one-list_receiver}
use flightpatch.Decoders.{
  RoleAssignment, PortSet, ReceiverInventory, Round, ports_for, next_slot, entry_for, list_receiver,
  assign_one, assign_all,
}
use flightpatch.Text.Laws.{str_eq_iff}
use flightpatch.Text.{Str, str_eq}

-- The inventory of a list of assignments, from the slots that are free.
pub entries : (Str → Str) → Str → List RoleAssignment → ℕ → ℕ → List ReceiverInventory
entries sha256 device_id [] adsb_slot vdl2_slot = []
entries sha256 device_id (a ∷ rest) adsb_slot vdl2_slot =
    entry_for sha256 device_id a adsb_slot vdl2_slot
    ∷ entries sha256 device_id rest (next_slot a.role role_adsb adsb_slot)
        (next_slot a.role role_vdl2 vdl2_slot)

pub assign_all-inventory :
    (sha256 : Str → Str) (device_id : Str) (xs : List RoleAssignment) (r : Round)
    → (assign_all sha256 device_id xs r).inventory
      ≡ r.inventory ++ entries sha256 device_id xs r.adsb_slot r.vdl2_slot
unfolding assign_all entries list_receiver
assign_all-inventory sha256 device_id [] r = sym (append-nil r.inventory)
assign_all-inventory sha256 device_id (x ∷ xs) r =
    let (seen, inventory, adsb, vdl2) = assign_one-list_receiver sha256 device_id x r in
    assign_all-inventory sha256 device_id xs (assign_one sha256 device_id x r)
    ∙ rw (inventory, adsb, vdl2)
        (append_assoc r.inventory (entry_for sha256 device_id x r.adsb_slot r.vdl2_slot ∷ []) _)

-- The ports that a receiver's decoder binds.
abbrev used : PortSet → List ℕ
used p =
    let beast = p.beast ∷ (p.sbs ∷ []) in
    if p.beast == 0 then (if p.vdl2 == 0 then [] else p.vdl2 ∷ []) else beast

pub used_ports : List ReceiverInventory → List ℕ
used_ports [] = []
used_ports (e ∷ es) = used e.ports ++ used_ports es

-- Every number is another one, and a port.
abbrev pub IsFresh : ℕ → List ℕ → Type 0
IsFresh p [] = Unit
IsFresh p (q ∷ qs) = (p ≢ q) × IsFresh p qs

abbrev pub ArePorts : List ℕ → Type 0
ArePorts [] = Unit
ArePorts (p ∷ ps) = (0 < p) × (p < 65536) × IsFresh p ps × ArePorts ps

-- What the free slots may yet give: a VDL2 port from `v` on, or an ADS-B port from `a` on.
abbrev Beyond : ℕ → ℕ → List ℕ → Type 0
Beyond a v [] = Unit
Beyond a v (p ∷ ps) = (((5553 + v ≤ p) × (p < 6000)) ⊎ (30003 + a * 100 ≤ p)) × Beyond a v ps

Beyond-mono : (a a' v v' : ℕ) (ps : List ℕ) → a ≤ a' → v ≤ v' → Beyond a' v' ps → Beyond a v ps
Beyond-mono a a' v v' [] h k b = tt
Beyond-mono a a' v v' (p ∷ ps) h k b = (omega (arith, b.0), Beyond-mono a a' v v' ps h k b.1)

IsFresh-adsb :
    (a v p : ℕ) (ps : List ℕ) → 6000 ≤ p → p < 30003 + a * 100 → Beyond a v ps → IsFresh p ps
IsFresh-adsb a v p [] h k b = tt
IsFresh-adsb a v p (q ∷ ps) h k b = (omega (arith, b.0), IsFresh-adsb a v p ps h k b.1)

IsFresh-vdl2 : (a v p : ℕ) (ps : List ℕ) → p < 6000 → p < 5553 + v → Beyond a v ps → IsFresh p ps
IsFresh-vdl2 a v p [] h k b = tt
IsFresh-vdl2 a v p (q ∷ ps) h k b = (omega (arith, b.0), IsFresh-vdl2 a v p ps h k b.1)

-- A role takes two ports and an ADS-B slot, a port and a VDL2 slot, or nothing.
data Taken (role : Str) (a v : ℕ) : Type 0 where
  adsb :
      used (ports_for role a v) ≡ (30005 + a * 100) ∷ ((30003 + a * 100) ∷ [])
      → next_slot role role_adsb a ≡ a + 1
      → next_slot role role_vdl2 v ≡ v
      → Taken role a v
  vdl2 :
      used (ports_for role a v) ≡ (5553 + v) ∷ []
      → next_slot role role_adsb a ≡ a
      → next_slot role role_vdl2 v ≡ v + 1
      → Taken role a v
  none_taken :
      used (ports_for role a v) ≡ []
      → next_slot role role_adsb a ≡ a
      → next_slot role role_vdl2 v ≡ v
      → Taken role a v

taken : (role : Str) (a v : ℕ) → Taken role a v
unfolding ports_for
taken role a v = elim (Bool-cases (str_eq role role_adsb)) [
  | inl first ↦
      let is_adsb = (str_eq_iff role role_adsb).0 first in
      adsb (ground arith) (rw first) (rw is_adsb (unfold str_eq in refl))
  | inr later ↦ elim (Bool-cases (str_eq role role_vdl2)) [
    | inl second ↦ vdl2 (ground arith) (rw later) (rw second)
    | inr neither ↦ none_taken (ground arith) (rw later) (rw neither)
  ]
]

-- The ports of one receiver in front of those of later slots.
used-ports_for :
    (role : Str) (a v : ℕ) (ps : List ℕ)
    → Taken role a v
    → a < 355
    → v < 355
    → ArePorts ps
    → Beyond (next_slot role role_adsb a) (next_slot role role_vdl2 v) ps
    → ArePorts (used (ports_for role a v) ++ ps) × Beyond a v (used (ports_for role a v) ++ ps)
used-ports_for role a v ps (adsb u e f) ha hv fresh b =
    let later : Beyond (a + 1) v ps = Beyond-mono (a + 1) _ v _ ps (omega arith) (omega arith) b in
    rw u (
      (
        omega arith,
        omega arith,
        (
          omega arith,
          IsFresh-adsb (a + 1) v (30005 + a * 100) ps (omega arith) (omega arith) later,
        ),
        (
          omega arith,
          omega arith,
          IsFresh-adsb (a + 1) v (30003 + a * 100) ps (omega arith) (omega arith) later,
          fresh,
        ),
      ),
      (
        inr (omega arith),
        (inr (omega arith), Beyond-mono a (a + 1) v v ps (omega arith) (omega arith) later),
      ),
    )
used-ports_for role a v ps (vdl2 u e f) ha hv fresh b =
    let later : Beyond a (v + 1) ps = Beyond-mono a _ (v + 1) _ ps (omega arith) (omega arith) b in
    rw u (
      (
        omega arith,
        omega arith,
        IsFresh-vdl2 a (v + 1) (5553 + v) ps (omega arith) (omega arith) later,
        fresh,
      ),
      (
        inl (omega arith, omega arith),
        Beyond-mono a a v (v + 1) ps (omega arith) (omega arith) later,
      ),
    )
used-ports_for role a v ps (none_taken u e f) ha hv fresh b =
    rw u (fresh, Beyond-mono a _ v _ ps (omega arith) (omega arith) b)

next_slot-le : (role r : Str) (slot : ℕ) → next_slot role r slot ≤ slot + 1
next_slot-le role r slot = ground arith

entries-ArePorts :
    (sha256 : Str → Str) (device_id : Str) (xs : List RoleAssignment) (a v : ℕ)
    → a + length xs ≤ 355
    → v + length xs ≤ 355
    → ArePorts (used_ports (entries sha256 device_id xs a v))
      × Beyond a v (used_ports (entries sha256 device_id xs a v))
unfolding entries used_ports entry_for
entries-ArePorts sha256 device_id [] a v ha hv = (tt, tt)
entries-ArePorts sha256 device_id (x ∷ xs) a v ha hv =
    let (fresh, b) =
      entries-ArePorts sha256 device_id xs (next_slot x.role role_adsb a)
        (next_slot x.role role_vdl2 v) (omega (arith, next_slot-le x.role role_adsb a))
        (omega (arith, next_slot-le x.role role_vdl2 v)) in
    used-ports_for x.role a v _ (taken x.role a v) (omega arith) (omega arith) fresh b

-- Up to 355 receivers, every decoder of a round gets ports of its own: the ports that the round
-- lists for the decoders are valid port numbers and no two of them are equal.
pub assign_all-ArePorts :
    (sha256 : Str → Str) (device_id : Str) (xs : List RoleAssignment) (r : Round)
    → length xs ≤ 355
    → r.inventory ≡ []
    → r.adsb_slot ≡ 0
    → r.vdl2_slot ≡ 0
    → ArePorts (used_ports (assign_all sha256 device_id xs r).inventory)
assign_all-ArePorts sha256 device_id xs r h empty adsb_first vdl2_first =
    rw (assign_all-inventory sha256 device_id xs r, empty, adsb_first, vdl2_first)
      (entries-ArePorts sha256 device_id xs 0 0 (omega arith) (omega arith)).0
