-- ===== src/Stats/Race/Log.antt =====
-- What calls of `setLink` of agent/stats.go that run at once come to: each takes effect once.
use flightpatch.Common.{
  ℕ, zero, suc, ◌<◌, Bool, true, false, List, [], ◌∷◌, ◌++◌, ◌==◌, if◌then◌else◌, ◌≡◌, refl, sym,
  ap, ◌∙◌, arith, Bool-cases, inl, inr, append_assoc, append-nil,
}
use flightpatch.Stats.Links.{
  Link, tcp, udp, bit_of, is_up, same_link, next_links-lt, next_links-is_up,
}
use flightpatch.Stats.Race.{
  Counter, ready, loaded, swapped, stored, returned, Thread, step_at_counter, step_thread, step_nth,
  run_schedule,
}
use flightpatch.Stats.{Stats, notify, next_links}

-- Whether a call is out of its loop.
abbrev pub is_done : Counter → Bool
is_done ready = false
is_done (loaded old) = false
is_done (swapped old next) = true
is_done (stored old next) = true
is_done returned = true

-- The bit that a call sets, and whether its link came up; with the position of the thread.
abbrev pub Change : Type 0
Change = ℕ × Bool

abbrev pub Entry : Type 0
Entry = ℕ × Change

abbrev change : Thread → Change
change t = (t.bit, t.up)

abbrev leaves : Counter → Counter → Bool
leaves c c' = if is_done c then false else is_done c'

-- The step in which a thread leaves its loop is logged, whatever it does to the mask.
abbrev logged_step : ℕ → Thread → Stats → List Entry
logged_step k t s =
    if leaves t.counter (step_at_counter t.counter t s).1 then (k, change t) ∷ [] else []

log_nth : ℕ → ℕ → List Thread → Stats → List Entry
log_nth k n [] s = []
log_nth k zero (t ∷ ts) s = logged_step k t s
log_nth k (suc n) (t ∷ ts) s = log_nth k n ts s

-- The log of a run.
pub logged : List ℕ → List Thread → Stats → List Entry
logged [] ts s = []
logged (n ∷ ns) ts s = log_nth n n ts s ++ logged ns (step_nth n ts s).1 (step_nth n ts s).0

-- What the log says of a link that was up or not before: the last entry for its bit counts.
pub last_value : Link → List Entry → Bool → Bool
last_value m [] v = v
last_value m ((k, (bit, up)) ∷ log) v = last_value m log (if bit == bit_of m then up else v)

-- The changes that the log has of the thread at a position.
pub made : ℕ → List Entry → List Change
made i [] = []
made i ((k, c) ∷ log) = let rest = made i log in if i == k then c ∷ rest else rest

abbrev settled_of : Thread → List Change
settled_of t = if is_done t.counter then change t ∷ [] else []

-- The change of the thread at a position, if it is out of its loop.
pub settled : ℕ → List Thread → List Change
settled i [] = []
settled zero (t ∷ ts) = settled_of t
settled (suc i) (t ∷ ts) = settled i ts

-- Each thread sets one of the two links.
abbrev pub AllOfLinks : List Thread → Type 0
AllOfLinks [] = Unit
AllOfLinks (t ∷ ts) = ((l : Link) × (t.bit ≡ bit_of l)) × AllOfLinks ts

same_bit : (l m : Link) → (bit_of l == bit_of m) ≡ same_link l m
same_bit tcp tcp = refl
same_bit tcp udp = refl
same_bit udp tcp = refl
same_bit udp udp = refl

-- A mask behind some steps, by what was logged of them.
abbrev IsAsLogged : List Entry → ℕ → ℕ → Type 0
IsAsLogged log links links' =
    (links' < 4) × ((m : Link) → is_up m links' ≡ last_value m log (is_up m links))

next_links-IsAsLogged :
    (k links bit : ℕ) (up : Bool) (l : Link)
    → bit ≡ bit_of l
    → links < 4
    → IsAsLogged ((k, (bit, up)) ∷ []) links (next_links links bit up)
unfolding last_value
next_links-IsAsLogged k links bit up l e small = (
  rw e (next_links-lt links l up small),
  λ m. rw e (
      next_links-is_up links l m up small
      ∙ ap (λ b. if b then up else is_up m links) (sym (same_bit l m))),
)

stays-IsAsLogged : (links : ℕ) → links < 4 → IsAsLogged [] links links
unfolding last_value
stays-IsAsLogged links small = (small, λ m. refl)

step_at_counter-IsAsLogged :
    (k bit : ℕ) (up : Bool) (c : Counter) (s : Stats) (l : Link)
    → bit ≡ bit_of l
    → s.links < 4
    → let t : Thread = record { bit = bit; up = up; counter = c } in
      IsAsLogged (logged_step k t s) s.links (step_at_counter c t s).0.links
unfolding step_at_counter notify
step_at_counter-IsAsLogged k bit up ready s l e small =
    let one = next_links-IsAsLogged k s.links bit up l e small in
    elim (Bool-cases (s.links == next_links s.links bit up)) [
      | inl same ↦
          let x : next_links s.links bit up ≡ s.links = ground arith in
          rw same (small, λ m. ap (is_up m) (sym x) ∙ one.1 m)
      | inr other ↦ rw other (stays-IsAsLogged s.links small)
    ]
step_at_counter-IsAsLogged k bit up (loaded old) s l e small = elim (Bool-cases (s.links == old)) [
  | inl same ↦
      let x : s.links ≡ old = ground arith in
      rw same (rw (sym x) (next_links-IsAsLogged k s.links bit up l e small))
  | inr other ↦ rw other (stays-IsAsLogged s.links small)
]
step_at_counter-IsAsLogged k bit up (swapped old next) s l e small = stays-IsAsLogged s.links small
step_at_counter-IsAsLogged k bit up (stored old next) s l e small =
    let same : (step_at_counter (stored old next) (record { bit = bit; up = up; counter = ready })
          s).0.links
        ≡ s.links =
      ground arith in
    rw same (stays-IsAsLogged s.links small)
step_at_counter-IsAsLogged k bit up returned s l e small = stays-IsAsLogged s.links small

step_nth-IsAsLogged :
    (k n : ℕ) (ts : List Thread) (s : Stats)
    → AllOfLinks ts
    → s.links < 4
    → AllOfLinks (step_nth n ts s).1
      × IsAsLogged (log_nth k n ts s) s.links (step_nth n ts s).0.links
unfolding step_nth log_nth
step_nth-IsAsLogged k n [] s all small = (tt, stays-IsAsLogged s.links small)
step_nth-IsAsLogged k zero (t ∷ ts) s ((l, e), all) small =
    (((l, e), all), step_at_counter-IsAsLogged k t.bit t.up t.counter s l e small)
step_nth-IsAsLogged k (suc n) (t ∷ ts) s (of_link, all) small =
    let (all', as_logged) = step_nth-IsAsLogged k n ts s all small in ((of_link, all'), as_logged)

last_value-append :
    (m : Link) (log log' : List Entry) (v : Bool)
    → last_value m (log ++ log') v ≡ last_value m log' (last_value m log v)
unfolding last_value
last_value-append m [] log' v = refl
last_value-append m ((k, (bit, up)) ∷ log) log' v =
    last_value-append m log log' (if bit == bit_of m then up else v)

made-append : (i : ℕ) (log log' : List Entry) → made i (log ++ log') ≡ made i log ++ made i log'
unfolding made
made-append i [] log' = refl
made-append i ((k, c) ∷ log) log' = ground (arith, made-append i log log')

made-other :
    (i k n : ℕ) (ts : List Thread) (s : Stats) → (i == k) ≡ false → made i (log_nth k n ts s) ≡ []
unfolding made log_nth
made-other i k n [] s ne = refl
made-other i k zero (t ∷ ts) s ne =
    elim (Bool-cases (leaves t.counter (step_at_counter t.counter t s).1)) [
      | inl e ↦ rw e (rw ne refl)
      | inr e ↦ rw e refl
    ]
made-other i k (suc n) (t ∷ ts) s ne = made-other i k n ts s ne

made_one :
    (b : Bool) (i k : ℕ) (c : Change)
    → (i == k) ≡ true
    → made i (if b then (k, c) ∷ [] else []) ≡ (if b then c ∷ [] else [])
unfolding made
made_one true i k c same = rw same refl
made_one false i k c same = refl

settles :
    (c : Counter) (bit : ℕ) (up : Bool) (s : Stats)
    → let t : Thread = record { bit = bit; up = up; counter = c } in
      settled_of t ++ (if leaves c (step_at_counter c t s).1 then change t ∷ [] else [])
      ≡ settled_of (step_thread t s).1
unfolding step_at_counter
settles ready bit up s = refl
settles (loaded old) bit up s = ground arith
settles (swapped old next) bit up s = refl
settles (stored old next) bit up s = refl
settles returned bit up s = refl

step_nth-settled :
    (i k n m : ℕ) (ts : List Thread) (s : Stats)
    → (i == k) ≡ (m == n)
    → settled m ts ++ made i (log_nth k n ts s) ≡ settled m (step_nth n ts s).1
unfolding settled step_nth log_nth
step_nth-settled i k n m [] s e = unfold made in refl
step_nth-settled i k zero zero (t ∷ ts) s e =
    ap (λ l. settled_of t ++ l)
      (made_one (leaves t.counter (step_at_counter t.counter t s).1) i k (change t) (e ∙ refl))
    ∙ settles t.counter t.bit t.up s
step_nth-settled i k zero (suc m) (t ∷ ts) s e =
    ap (λ l. settled m ts ++ l) (made-other i k zero (t ∷ ts) s (e ∙ (ground arith)))
    ∙ append-nil (settled m ts)
step_nth-settled i k (suc n) zero (t ∷ ts) s e =
    ap (λ l. settled_of t ++ l) (made-other i k n ts s (e ∙ (ground arith)))
    ∙ append-nil (settled_of t)
step_nth-settled i k (suc n) (suc m) (t ∷ ts) s e =
    step_nth-settled i k n m ts s (ground (arith, e))

run_schedule-settled :
    (ns : List ℕ) (ts : List Thread) (s : Stats) (i : ℕ)
    → settled i ts ++ made i (logged ns ts s) ≡ settled i (run_schedule ns ts s).1
unfolding run_schedule logged
run_schedule-settled [] ts s i = unfold made in append-nil (settled i ts)
run_schedule-settled (n ∷ ns) ts s i =
    let now = log_nth n n ts s in
    let rest = logged ns (step_nth n ts s).1 (step_nth n ts s).0 in
    ap (λ l. settled i ts ++ l) (made-append i now rest)
    ∙ sym (append_assoc (settled i ts) (made i now) (made i rest))
    ∙ ap (λ l. l ++ made i rest) (step_nth-settled i n n i ts s refl)
    ∙ run_schedule-settled ns (step_nth n ts s).1 (step_nth n ts s).0 i

run_schedule-IsAsLogged :
    (ns : List ℕ) (ts : List Thread) (s : Stats)
    → AllOfLinks ts
    → s.links < 4
    → IsAsLogged (logged ns ts s) s.links (run_schedule ns ts s).0.links
unfolding run_schedule logged
run_schedule-IsAsLogged [] ts s all small = stays-IsAsLogged s.links small
run_schedule-IsAsLogged (n ∷ ns) ts s all small =
    let (s', ts') = step_nth n ts s in
    let (all', (small', one)) = step_nth-IsAsLogged n n ts s all small in
    let (bound, rest) = run_schedule-IsAsLogged ns ts' s' all' small' in
    (
      bound,
      λ m.
          rest m
          ∙ ap (last_value m (logged ns ts' s')) (one m)
          ∙ sym (last_value-append m (log_nth n n ts s) (logged ns ts' s') (is_up m s.links)),
    )

-- Whatever the interleaving of calls of `setLink` that each set one of the two links, from a mask with
-- no other bits, no update is lost and none is made twice. The log of the calls that get out of their
-- loop has, for the thread at each position, its change exactly once if it got out in this run, and
-- else not at all; and each link is marked in the mask as the last entry for it in the log says, or as
-- before if there is none.
pub run_schedule-links :
    (ns : List ℕ) (ts : List Thread) (s : Stats)
    → AllOfLinks ts
    → s.links < 4
    → ((i : ℕ) → settled i ts ++ made i (logged ns ts s) ≡ settled i (run_schedule ns ts s).1)
      × ((m : Link)
          → is_up m (run_schedule ns ts s).0.links
            ≡ last_value m (logged ns ts s) (is_up m s.links))
run_schedule-links ns ts s all small =
    (run_schedule-settled ns ts s, (run_schedule-IsAsLogged ns ts s all small).1)
