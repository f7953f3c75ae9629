-- ===== src/Relay/Open.antt =====
-- Which connections `runForward` of agent/forward.go leaves open.
use flightpatch.Beast.{beast_receiver_frame}
use flightpatch.Common.{
  ℕ, ◌+◌, ◌≤◌, Bool, true, false, not, ◌||◌, List, [], ◌∷◌, ◌==◌, if◌then◌else◌, length, ◌≡◌, refl,
  arith, if_case,
}
use flightpatch.Relay.{
  Dialled, connected, cancelled, dialling, on_stats, Session, Relay, Turn, again, returned, waiting,
  pump, greet, dial_loop, dial_feed, dial_decoder, forward_once, run_forward, continue_with,
}
use flightpatch.Stats.{set_connected}
use flightpatch.Text.{Str}

-- The connections that are open behind a turn: none but, while it dials, the decoder's.
abbrev pub IsOpen : ℕ → Turn × Relay → Type 0
IsOpen n (again, r) = r.open_count ≡ n
IsOpen n (returned, r) = r.open_count ≡ n
IsOpen n (waiting, r) = (n ≤ r.open_count) × (r.open_count ≤ n + 1)

pump-IsOpen :
    (n : ℕ) (s : Session) (frame : Str) (r : Relay)
    → r.open_count ≡ n + 2
    → IsOpen n (pump s frame r)
unfolding pump
pump-IsOpen n s frame r h = ended_lem (s.ended_after || s.ended_waiting)
  where
    ended_lem : (b : Bool) → IsOpen n (if b then returned else again, (pump s frame r).1)
    ended_lem true = omega arith
    ended_lem false = omega arith

greet-IsOpen :
    (n : ℕ) (receiver_id : Str) (s : Session) (r : Relay)
    → r.open_count ≡ n + 2
    → IsOpen n (greet receiver_id s r)
unfolding greet
greet-IsOpen n receiver_id s r h =
    let r' : Relay = record r { stats = on_stats (λ st. set_connected st true) r.stats } in
    if_case (IsOpen n) (not (length receiver_id == 8)) (λ _. pump-IsOpen n s [] r' h)
      (λ _.
        if_case (IsOpen n) s.greeting.works
          (λ _. pump-IsOpen n s (beast_receiver_frame receiver_id) r' h) (λ _. omega (arith, h)))

dial_feed-IsOpen :
    (n : ℕ) (receiver_id : Str) (s : Session) (d : Dialled) (r : Relay)
    → r.open_count ≡ n + 1
    → IsOpen n (dial_feed receiver_id s d r)
unfolding dial_feed
dial_feed-IsOpen n receiver_id s connected r h =
    greet-IsOpen n receiver_id s (record r { open_count = r.open_count + 1 }) (omega (arith, h))
dial_feed-IsOpen n receiver_id s cancelled r h = omega (arith, h)
dial_feed-IsOpen n receiver_id s dialling r h = (omega (arith, h), omega (arith, h))

dial_decoder-IsOpen :
    (n : ℕ) (receiver_id : Str) (s : Session) (d : Dialled) (r : Relay)
    → r.open_count ≡ n
    → IsOpen n (dial_decoder receiver_id s d r)
unfolding dial_decoder
dial_decoder-IsOpen n receiver_id s connected r h =
    dial_feed-IsOpen n receiver_id s (dial_loop s.feed) (record r { open_count = r.open_count + 1 })
      (omega (arith, h))
dial_decoder-IsOpen n receiver_id s cancelled r h = h
dial_decoder-IsOpen n receiver_id s dialling r h = (omega (arith, h), omega (arith, h))

forward_once-IsOpen :
    (n : ℕ) (receiver_id : Str) (s : Session) (r : Relay)
    → r.open_count ≡ n
    → IsOpen n (forward_once receiver_id s r)
unfolding forward_once
forward_once-IsOpen n receiver_id s r h =
    if_case (IsOpen n) s.ended_before (λ _. h)
      (λ _. dial_decoder-IsOpen n receiver_id s (dial_loop s.decoder) r h)

continue-IsOpen :
    (n : ℕ) (t : Turn × Relay) (next : Relay → Turn × Relay)
    → IsOpen n t
    → ((r : Relay) → r.open_count ≡ n → IsOpen n (next r))
    → IsOpen n (continue_with t next)
continue-IsOpen n (again, r) next h k = k r h
continue-IsOpen n (returned, r) next h k = h
continue-IsOpen n (waiting, r) next h k = h

run_forward_lem :
    (n : ℕ) (receiver_id : Str) (sessions : List Session) (r : Relay)
    → r.open_count ≡ n
    → IsOpen n (run_forward receiver_id sessions r)
unfolding run_forward
run_forward_lem n receiver_id [] r h = h
run_forward_lem n receiver_id (s ∷ rest) r h =
    continue-IsOpen n (forward_once receiver_id s r) (run_forward receiver_id rest)
      (forward_once-IsOpen n receiver_id s r h) (λ r' k. run_forward_lem n receiver_id rest r' k)

-- Whatever the network does, a relay that has returned, or is about to dial again, has closed each
-- connection that it opened; while it dials it holds one at most.
pub run_forward-IsOpen :
    (receiver_id : Str) (sessions : List Session) (r : Relay)
    → IsOpen r.open_count (run_forward receiver_id sessions r)
run_forward-IsOpen receiver_id sessions r = run_forward_lem r.open_count receiver_id sessions r refl
