-- ===== src/Children.antt =====
-- The child processes on Windows: the creation flags and the job object of agent/child_windows.go.
-- What the system calls answer is an argument.
mod Examples
use flightpatch.Common.{
  ℕ, ◌+◌, Bool, true, false, not, ◌&&◌, ◌||◌, List, [], ◌∷◌, Option, none, some, if◌then◌else◌,
  option_else, if_case, Bool-cases, Option-cases, inl, inr, ◌==◌, ◌≡◌, refl, sym, ap, ◌∙◌, arith,
}

abbrev pub create_no_window : ℕ
create_no_window = 0x08000000

abbrev pub idle_priority_class : ℕ
idle_priority_class = 0x00000040

pub record SysProcAttr : Type 0 where
  pub creation_flags : ℕ
  pub hide_window : Bool

-- `configureChild`; the two flags are different bits.
abbrev pub configure_child : SysProcAttr
configure_child = record {
  creation_flags = create_no_window + idle_priority_class;
  hide_window = true;
}

-- `jobOnce` and `jobH`, with what the system holds: whether closing the job kills its members, and the
-- members, the last one first.
pub record Job : Type 0 where
  pub tried : Bool
  pub handle : ℕ
  pub kills : Bool
  pub members : List ℕ

abbrev pub no_job : Job
no_job = record { tried = false; handle = 0; kills = false; members = [] }

-- `ensureJob`, by the handle that `CreateJobObjectW` gives, or 0, and whether
-- `SetInformationJobObject` works.
unfoldable pub ensure_job : ℕ → Bool → Job → Job
ensure_job created limits j =
    let opened : Job = record j { tried = true; handle = created; kills = limits } in
    if j.tried then j else if created == 0 then record j { tried = true } else opened

-- A child, with what its assignment meets: its process if it has one, the answers for the job, and
-- whether `OpenProcess` and `AssignProcessToJobObject` work.
pub record Spawn : Type 0 where
  pub process : Option ℕ
  pub created : ℕ
  pub limits : Bool
  pub opens : Bool
  pub assigns : Bool

-- `assignChildToJob`
unfoldable pub assign_child_to_job : Spawn → Job → Job
assign_child_to_job s j =
    let j' = ensure_job s.created s.limits j in
    option_else s.process j (λ pid.
      let member : Job = record j' { members = pid ∷ j'.members } in
      if j'.handle == 0 then j' else if not s.opens then j' else if s.assigns then member else j')

unfoldable pub assign_each : List Spawn → Job → Job
assign_each [] j = j
assign_each (s ∷ rest) j = assign_each rest (assign_child_to_job s j)

-- The processes that die with the agent, when the handle is closed.
unfoldable pub doomed : Job → List ℕ
doomed j = if j.kills then j.members else []

-- The children that can be assigned, the last one first, in front of some others.
unfoldable pub assignable : List Spawn → List ℕ → List ℕ
assignable [] others = others
assignable (s ∷ rest) others =
    option_else s.process (assignable rest others)
      (λ pid. assignable rest (if s.opens && s.assigns then pid ∷ others else others))

-- Whether the first child with a process gets a job that kills.
unfoldable pub first_job : List Spawn → Bool
first_job [] = false
first_job (s ∷ rest) =
    option_else s.process (first_job rest) (λ pid. not (s.created == 0) && s.limits)

ensure_job_again :
    (created : ℕ) (limits : Bool) (j : Job) → j.tried ≡ true → ensure_job created limits j ≡ j
unfolding ensure_job
ensure_job_again created limits j h = rw h refl

-- Another child of a job that was made.
assigned : Spawn → Job → Job
assigned s j =
    option_else s.process j
      (λ pid. record j { members = if s.opens && s.assigns then pid ∷ j.members else j.members })

assign_child_to_job-assigned :
    (s : Spawn) (j : Job)
    → j.tried ≡ true
    → (j.handle == 0) ≡ false
    → assign_child_to_job s j ≡ assigned s j
unfolding assign_child_to_job assigned
assign_child_to_job-assigned s j h k = rw (ensure_job_again s.created s.limits j h) (
    rw k (elim (Option-cases s.process) [ inl e ↦ rw e refl | inr (pid, e) ↦ rw e (ground arith) ]))

assign_child_to_job_failed :
    (s : Spawn) (j : Job) → j.tried ≡ true → (j.handle == 0) ≡ true → assign_child_to_job s j ≡ j
unfolding assign_child_to_job
assign_child_to_job_failed s j h k =
    rw (ensure_job_again s.created s.limits j h)
      (rw k (elim (Option-cases s.process) [ inl e ↦ rw e refl | inr (pid, e) ↦ rw e refl ]))

doomed-assign_each :
    (spawns : List Spawn) (j : Job)
    → j.tried ≡ true
    → (j.handle == 0) ≡ false
    → doomed (assign_each spawns j) ≡ (if j.kills then assignable spawns j.members else [])
unfolding assign_each assignable assigned
doomed-assign_each [] j h k = unfold doomed in refl
doomed-assign_each (s ∷ spawns) j h k =
    ap (λ i. doomed (assign_each spawns i)) (assign_child_to_job-assigned s j h k)
    ∙ elim (Option-cases s.process) [
      | inl e ↦ rw e (doomed-assign_each spawns j h k)
      | inr (pid, e) ↦ rw e (
          doomed-assign_each spawns
            (record j { members = if s.opens && s.assigns then pid ∷ j.members else j.members }) h
            k)
    ]

assign_each_failed :
    (spawns : List Spawn) (j : Job)
    → j.tried ≡ true
    → (j.handle == 0) ≡ true
    → assign_each spawns j ≡ j
unfolding assign_each
assign_each_failed [] j h k = refl
assign_each_failed (s ∷ spawns) j h k =
    ap (assign_each spawns) (assign_child_to_job_failed s j h k) ∙ assign_each_failed spawns j h k

unassigned : (s : Spawn) (j : Job) → s.process ≡ none → assign_child_to_job s j ≡ j
unfolding assign_child_to_job
unassigned s j e = rw e refl

-- The job that the first child makes.
made : Spawn → Job
made s = record { tried = true; handle = s.created; kills = s.limits; members = [] }

ensure_job_first :
    (s : Spawn) → (s.created == 0) ≡ false → ensure_job s.created s.limits no_job ≡ made s
unfolding ensure_job made
ensure_job_first s k = rw k refl

assign_child_to_job-first :
    (s : Spawn) (pid : ℕ)
    → s.process ≡ some pid
    → (s.created == 0) ≡ false
    → assign_child_to_job s no_job ≡ assign_child_to_job s (made s)
unfolding assign_child_to_job made ensure_job
assign_child_to_job-first s pid e k = rw e (
    rw (ensure_job_first s k)
      (rw (ensure_job_again s.created s.limits (made s) (unfold made in refl)) refl))

first_failed :
    (s : Spawn) (pid : ℕ)
    → s.process ≡ some pid
    → (s.created == 0) ≡ true
    → assign_child_to_job s no_job ≡ record no_job { tried = true }
unfolding assign_child_to_job ensure_job
first_failed s pid e k = rw e (rw k refl)

-- The processes that die with the agent are all the children that could be assigned, if the first
-- child's job was made with its limit, and none otherwise: a failure then is for good.
pub assign_each-doomed :
    (spawns : List Spawn)
    → doomed (assign_each spawns no_job) ≡ (if first_job spawns then assignable spawns [] else [])
unfolding assign_each first_job assignable made
assign_each-doomed [] = unfold doomed in refl
assign_each-doomed (s ∷ spawns) = elim (Option-cases s.process) [
  | inl e ↦
      ap (λ i. doomed (assign_each spawns i)) (unassigned s no_job e)
      ∙ assign_each-doomed spawns
      ∙ (rw e refl)
  | inr (pid, e) ↦ elim (Bool-cases (s.created == 0)) [
    | inl bad ↦
        ap (λ i. doomed (assign_each spawns i)) (first_failed s pid e bad)
        ∙ ap doomed (assign_each_failed spawns (record no_job { tried = true }) refl refl)
        ∙ (rw e (rw bad (unfold doomed in refl)))
    | inr good ↦
        ap (λ i. doomed (assign_each spawns i)) (assign_child_to_job-first s pid e good)
        ∙ doomed-assign_each (s ∷ spawns) (made s) refl good
        ∙ (rw e (rw good refl))
  ]
]
