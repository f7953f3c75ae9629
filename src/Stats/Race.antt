-- ===== src/Stats/Race.antt =====
-- `setLink` called by several threads at once: each atomic operation of agent/stats.go is a step,
-- and a schedule says whose step comes next.
pub mod Log
use flightpatch.Common.{
  some, ◌⊎◌, inl, inr, if_case, ℕ, zero, suc, Bool, true, false, List, [], ◌∷◌, ◌++◌, ◌==◌,
  if◌then◌else◌, ◌≡◌, refl, sym, ap, ◌∙◌, arith, map,
}
use flightpatch.Stats.Links.{Link, tcp, udp, bit_of}
use flightpatch.Stats.{Stats, notify, next_links, flag, is_edge}

-- Where a thread stands: before it loads the mask, before its comparison, before it stores the flag,
-- before it wakes telemetry, and behind its return.
pub data Counter : Type 0 where
  ready : Counter
  loaded : ℕ → Counter
  swapped : ℕ → ℕ → Counter
  stored : ℕ → ℕ → Counter
  returned : Counter

pub record Thread : Type 0 where
  pub bit : ℕ
  pub up : Bool
  pub counter : Counter

-- One atomic operation of a thread at a counter, with what it computes before the next one.
pub step_at_counter : Counter → Thread → Stats → Stats × Counter
step_at_counter ready t s =
    (s, if s.links == next_links s.links t.bit t.up then returned else loaded s.links)
step_at_counter (loaded old) t s =
    let next = next_links old t.bit t.up in
    if s.links == old then (record s { links = next }, swapped old next) else (s, ready)
step_at_counter (swapped old next) t s = (record s { connected = flag next }, stored old next)
step_at_counter (stored old next) t s = (if is_edge old next then notify s else s, returned)
step_at_counter returned t s = (s, returned)

abbrev pub moved : Thread → Stats × Counter → Stats × Thread
moved t (s, c) = (s, record t { counter = c })

abbrev pub step_thread : Thread → Stats → Stats × Thread
step_thread t s = moved t (step_at_counter t.counter t s)

abbrev behind : Thread → Stats × List Thread → Stats × List Thread
behind t (s, ts) = (s, t ∷ ts)

abbrev in_front : List Thread → Stats × Thread → Stats × List Thread
in_front ts (s, t) = (s, t ∷ ts)

-- A step of the thread at a position; where there is none, nothing happens.
pub step_nth : ℕ → List Thread → Stats → Stats × List Thread
unfolding step_at_counter
step_nth n [] s = (s, [])
step_nth zero (t ∷ ts) s = in_front ts (step_thread t s)
step_nth (suc n) (t ∷ ts) s = behind t (step_nth n ts s)

-- What a step of a call leaves of the rest: the count, and a token that waits.
abbrev pub Kept : Stats → Stats → Type 0
Kept s s' =
    (s'.bytes_fed ≡ s.bytes_fed)
    × ((pending : Bool)
        → s.channel ≡ some pending
        → (s'.channel ≡ some pending) ⊎ (s'.channel ≡ some true))

notify-Kept : (s : Stats) → Kept s (notify s)
unfolding notify
notify-Kept s = (ground arith, λ pending e. inr (ground (arith, e)))

step_at_counter-Kept : (c : Counter) (t : Thread) (s : Stats) → Kept s (step_at_counter c t s).0
unfolding step_at_counter
step_at_counter-Kept ready t s = (refl, λ pending e. inl e)
step_at_counter-Kept (loaded old) t s =
    if_case (λ (r : Stats × Counter). Kept s r.0) (s.links == old) (λ _. (refl, λ pending e. inl e))
      (λ _. (refl, λ pending e. inl e))
step_at_counter-Kept (swapped old next) t s = (refl, λ pending e. inl e)
step_at_counter-Kept (stored old next) t s =
    if_case (λ (s' : Stats). Kept s s') (is_edge old next) (λ _. notify-Kept s)
      (λ _. (refl, λ pending e. inl e))
step_at_counter-Kept returned t s = (refl, λ pending e. inl e)

pub step_nth-Kept : (n : ℕ) (ts : List Thread) (s : Stats) → Kept s (step_nth n ts s).0
unfolding step_nth
step_nth-Kept n [] s = (refl, λ pending e. inl e)
step_nth-Kept zero (t ∷ ts) s = step_at_counter-Kept t.counter t s
step_nth-Kept (suc n) (t ∷ ts) s = step_nth-Kept n ts s

unfoldable pub run_schedule : List ℕ → List Thread → Stats → Stats × List Thread
unfolding step_nth
run_schedule [] ts s = (s, ts)
run_schedule (n ∷ ns) ts s = let (s', ts') = step_nth n ts s in run_schedule ns ts' s'

abbrev pub setting : ℕ → Bool → Thread
setting bit up = record { bit = bit; up = up; counter = ready }

abbrev pub other_link : Link → Link
other_link tcp = udp
other_link udp = tcp

-- The flag can be left wrong: while one link goes down the other comes up, and the store of the
-- first thread comes last. Both calls have returned, the other link is up in the mask, and the
-- agent reports that it is not connected.
pub run_schedule_stale :
    (s : Stats) (l : Link)
    → s.links ≡ bit_of l
    → let (s', ts) =
        run_schedule
          (0 ∷ 0 ∷ 1 ∷ 1 ∷ 1 ∷ 1 ∷ 0 ∷ 0 ∷ [])
          (setting (bit_of l) false ∷ setting (bit_of (other_link l)) true ∷ [])
          s in
      (s'.links ≡ bit_of (other_link l))
      × (s'.connected ≡ 0)
      × (map (λ t. t.counter) ts ≡ returned ∷ returned ∷ [])
unfolding run_schedule notify next_links
run_schedule_stale s tcp h = ground arith
run_schedule_stale s udp h = ground arith
