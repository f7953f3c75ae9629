-- ===== src/Control/Home/Wakeups.antt =====
-- What the loop of `phoneHome` in agent/main.go has told while it waits.
use flightpatch.Common.{
  ℕ, ◌<◌, Bool, true, false, not, ◌&&◌, List, [], ◌∷◌, some, ◌==◌, if_case, ◌≡◌, ◌⊎◌, inl, inr,
  refl, sym, ◌∙◌, arith, Bool-cases,
}
use mathlib.Core.Path.{subst}
use flightpatch.Control.Home.{
  Snapshot, snapshot, look, Heartbeat, Phase, starting, reading, sending, waiting, settling,
  stopped, exited, Home, send_beat, end_beat, deliver_bytes, publish_status, notify_owed, Step,
  begin, send, reply, wake, stop, call, advance, count, publish, tell, stock, assign, Reach, here,
  later,
}
use flightpatch.Control.{Weather, beat}
use flightpatch.Decoders.Run.{join_nul}
use flightpatch.Stats.Race.{step_nth, step_nth-Kept}
use flightpatch.Stats.{Stats, notify}
use flightpatch.Text.Laws.{str_eq_iff}
use flightpatch.Text.{str_eq}

-- A token waits, or a goroutine is about to send one.
abbrev pub IsAwake : Home → Type 0
IsAwake h = (h.stats.channel ≡ some true) ⊎ (0 < h.owed)

-- Some data was reported if some was delivered.
abbrev IsCounted : ℕ → Home → Type 0
IsCounted bytes h = bytes ≡ 0 → h.stats.bytes_fed ≡ 0

-- The last request told which decoders run (as `setActive` tells them apart), and of data if any
-- was delivered.
abbrev pub Reported : List Heartbeat → Home → Type 0
Reported [] h = ◌≡◌ {A = Bool} true false
Reported (b ∷ bs) h = (join_nul b.decoders ≡ join_nul h.manager.status) × IsCounted b.bytes_fed h

-- What holds in a phase; before a snapshot nothing does.
abbrev Holds : Phase → Home → Type 0
Holds starting h = Unit
Holds settling h = Unit
Holds stopped h = Unit
Holds exited h = Unit
Holds (reading s) h = IsAwake h ⊎ IsCounted s.bytes h
Holds sending h = IsAwake h ⊎ Reported h.beats h
Holds waiting h = IsAwake h ⊎ ((h.failed ≡ true) ⊎ Reported h.beats h)

pub record IsHome (h : Home) : Type 0 where
  pub pending : Bool
  pub listens : h.stats.channel ≡ some pending
  pub holds : Holds h.phase h

-- Another goroutine has gone on: it keeps the loop awake, or wakes it if it changes what is told.
abbrev IsTold : Home → Home → Type 0
IsTold h t =
    (IsAwake h → IsAwake t)
    × (IsAwake t
        ⊎ ((join_nul h.manager.status ≡ join_nul t.manager.status)
            × (h.stats.bytes_fed ≡ 0 → t.stats.bytes_fed ≡ 0)))

told-Reported :
    (bs : List Heartbeat) (h t : Home)
    → (join_nul h.manager.status ≡ join_nul t.manager.status)
      × (h.stats.bytes_fed ≡ 0 → t.stats.bytes_fed ≡ 0)
    → Reported bs h
    → Reported bs t
told-Reported [] h t same r = r
told-Reported (b ∷ bs) h t (status, bytes) (d, n) = (d ∙ status, λ e. bytes (n e))

told_case :
    (A B : Type 0) (h t : Home)
    → IsTold h t
    → ((join_nul h.manager.status ≡ join_nul t.manager.status)
          × (h.stats.bytes_fed ≡ 0 → t.stats.bytes_fed ≡ 0)
        → A
        → B)
    → IsAwake h ⊎ A
    → IsAwake t ⊎ B
told_case A B h t (keeps, tells) f (inl awake) = inl (keeps awake)
told_case A B h t (keeps, tells) f (inr a) = elim tells [
  | inl awake ↦ inl awake
  | inr same ↦ inr (f same a)
]

told-Holds :
    (p : Phase) (h t : Home)
    → t.beats ≡ h.beats
    → t.failed ≡ h.failed
    → IsTold h t
    → Holds p h
    → Holds p t
told-Holds starting h t b f told k = tt
told-Holds settling h t b f told k = tt
told-Holds stopped h t b f told k = tt
told-Holds exited h t b f told k = tt
told-Holds (reading s) h t b f told k =
    told_case (IsCounted s.bytes h) (IsCounted s.bytes t) h t told (λ same n e. same.1 (n e)) k
told-Holds sending h t b f told k =
    subst (λ bs. IsAwake t ⊎ Reported bs t) (sym b)
      (told_case (Reported h.beats h) (Reported h.beats t) h t told (told-Reported h.beats h t) k)
told-Holds waiting h t b f told k =
    subst (λ bs. IsAwake t ⊎ ((t.failed ≡ true) ⊎ Reported bs t)) (sym b)
      (told_case ((h.failed ≡ true) ⊎ Reported h.beats h) ((t.failed ≡ true) ⊎ Reported h.beats t) h
        t told
        (λ same r. elim r [
          | inl lost ↦ inl (f ∙ lost)
          | inr r' ↦ inr (told-Reported h.beats h t same r')
        ])
        k)

count-IsTold : (n : ℕ) (h : Home) → IsTold h (deliver_bytes n h)
unfolding deliver_bytes
count-IsTold n h = elim (Bool-cases (h.stats.bytes_fed == 0 && not (n == 0))) [
  | inl first ↦ rw first (λ _. inr (omega arith), inl (inr (omega arith)))
  | inr more ↦ rw more (λ awake. awake, inr (refl, λ e. ground (arith, e, more)))
]

publish-IsTold : (a : List flightpatch.Text.Str) (h : Home) → IsTold h (publish_status a h)
unfolding publish_status
publish-IsTold a h = elim (Bool-cases (str_eq (join_nul h.manager.status) (join_nul a))) [
  | inl same ↦
      rw same
        (λ awake. awake, inr ((str_eq_iff (join_nul h.manager.status) (join_nul a)).0 same, λ e. e))
  | inr other ↦ rw other (λ _. inr (omega arith), inl (inr (omega arith)))
]

notified : (s : Stats) (pending : Bool) → s.channel ≡ some pending → (notify s).channel ≡ some true
unfolding notify
notified s pending e = rw e refl

begin-IsHome : (started now : ℕ) (h : Home) → IsHome h → IsHome (look started now h)
unfolding look snapshot
begin-IsHome started now h i = record {
  pending = i.pending;
  listens = i.listens;
  holds = inr (λ e. e);
}

send-IsHome : (s : Snapshot) (h : Home) → h.phase ≡ reading s → IsHome h → IsHome (send_beat s h)
unfolding send_beat
send-IsHome s h e i = record {
  pending = i.pending;
  listens = i.listens;
  holds = elim (subst (λ p. Holds p h) e i.holds) [ inl awake ↦ inl awake | inr n ↦ inr (refl, n) ];
}

end-IsHome : (w : Weather) (h : Home) → h.phase ≡ sending → IsHome h → IsHome (end_beat w h)
unfolding end_beat
end-IsHome w h e i = record {
  pending = i.pending;
  listens = i.listens;
  holds =
      if_case (λ (p : Phase). Holds p (end_beat w h)) (beat w h.agent).exited (λ _. tt)
        (λ _. elim (subst (λ p. Holds p h) e i.holds) [
          | inl awake ↦ inl awake
          | inr r ↦ inr (inr (told-Reported h.beats h (end_beat w h) (refl, λ z. z) r))
        ]);
}

advance-IsHome :
    (n : ℕ) (h : Home)
    → IsHome h
    → IsHome (record h {
      stats = (step_nth n h.calls h.stats).0;
      calls = (step_nth n h.calls h.stats).1;
    })
advance-IsHome n h i =
    let (bytes, kept) = step_nth-Kept n h.calls h.stats in
    let t : Home = record h {
      stats = (step_nth n h.calls h.stats).0;
      calls = (step_nth n h.calls h.stats).1;
    } in
    let awake : IsAwake h → IsAwake t = λ a. elim a [
      | inl waits ↦ elim (kept true waits) [ inl x ↦ inl x | inr x ↦ inl x ]
      | inr owed ↦ inr owed
    ] in
    let told : IsTold h t = (awake, inr (refl, λ e. bytes ∙ e)) in
    let holds : Holds h.phase t = told-Holds h.phase h t refl refl told i.holds in
    elim (kept i.pending i.listens) [
      | inl x ↦ record { pending = i.pending; listens = x; holds = holds }
      | inr x ↦ record { pending = true; listens = x; holds = holds }
    ]

tell-IsHome : (h : Home) → IsHome h → IsHome (notify_owed h)
unfolding notify_owed
tell-IsHome h i =
    let t = notify_owed h in
    let waits = notified h.stats i.pending i.listens in
    record {
      pending = true;
      listens = waits;
      holds = told-Holds h.phase h t refl refl (λ _. inl waits, inl (inl waits)) i.holds;
    }

Step-IsHome : {started : ℕ} {h t : Home} → Step started h t → IsHome h → IsHome t
unfolding deliver_bytes publish_status
Step-IsHome {started} (begin now h c) i = begin-IsHome started now h i
Step-IsHome (send s h e) i = send-IsHome s h e i
Step-IsHome (reply w h e) i = end-IsHome w h e i
Step-IsHome (wake h e waits) i = record { pending = false; listens = refl; holds = tt }
Step-IsHome (stop h c) i = record { pending = i.pending; listens = i.listens; holds = tt }
Step-IsHome (call l v h) i = record {
  pending = i.pending;
  listens = i.listens;
  holds = told-Holds h.phase h _ refl refl (λ a. a, inr (refl, λ z. z)) i.holds;
}
Step-IsHome (advance n h) i = advance-IsHome n h i
Step-IsHome (count n h) i = record {
  pending = i.pending;
  listens = i.listens;
  holds = told-Holds h.phase h (deliver_bytes n h) refl refl (count-IsTold n h) i.holds;
}
Step-IsHome (publish a h) i = record {
  pending = i.pending;
  listens = i.listens;
  holds = told-Holds h.phase h (publish_status a h) refl refl (publish-IsTold a h) i.holds;
}
Step-IsHome (tell h owed) i = tell-IsHome h i
Step-IsHome (stock rs h) i = record {
  pending = i.pending;
  listens = i.listens;
  holds =
      told-Holds h.phase h (record h { manager = record h.manager { receivers = rs } }) refl refl
        (λ a. a, inr (refl, λ z. z)) i.holds;
}
Step-IsHome (assign k role h) i = record {
  pending = i.pending;
  listens = i.listens;
  holds = told-Holds h.phase h _ refl refl (λ a. a, inr (refl, λ z. z)) i.holds;
}

Reach-IsHome : {started : ℕ} {h t : Home} → IsHome h → Reach started h t → IsHome t
Reach-IsHome i here = i
Reach-IsHome i (later r step) = Step-IsHome step (Reach-IsHome i r)

-- While the loop waits in its select, whatever steps led there from a state where it holds, one of
-- these is so: a token waits that sends the next request; or a call of `addBytes` or `setActive` is
-- about to notify; or the last request was not answered; or that request told which decoders run,
-- and that data was delivered if it was.
pub Reach-Noted :
    {started : ℕ} {h t : Home}
    → IsHome h
    → Reach started h t
    → t.phase ≡ waiting
    → IsAwake t ⊎ ((t.failed ≡ true) ⊎ Reported t.beats t)
Reach-Noted {t = t} i r e = subst (λ p. Holds p t) e (Reach-IsHome i r).holds
