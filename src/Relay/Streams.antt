-- ===== src/Relay/Streams.antt =====
-- What `runForward` of agent/forward.go sends while its context lasts.
use flightpatch.Beast.{beast_receiver_frame}
use flightpatch.Common.{
  ℕ, zero, suc, ◌+◌, true, false, not, ◌||◌, List, [], ◌∷◌, ◌++◌, map, Option, ◌==◌, if◌then◌else◌,
  length, ◌≡◌, refl, sym, ap, ◌∙◌, arith, if_case, if_case2, drop, take-drop, take_whole,
  append_assoc, append-nil,
}
use flightpatch.Relay.Forward.{AllHold}
use flightpatch.Relay.{
  Attempt, connects, refused, Dialled, connected, cancelled, dialling, sent, on_stats, count_write,
  Chunk, is_whole, copy, Session, Stream, Relay, Turn, again, returned, waiting, pump, greet,
  dial_loop, dial_feed, dial_decoder, forward_once, run_forward, continue_with,
}
use flightpatch.Stats.{Stats, set_connected}
use flightpatch.Text.{Str}

-- What is copied, without the counters.
abbrev pub delivered : List Chunk → Str
delivered [] = []
delivered (c ∷ rest) =
    if is_whole c then sent c.write c.payload ++ delivered rest else sent c.write c.payload

abbrev pub payloads : List Chunk → Str
payloads [] = []
payloads (c ∷ rest) = c.payload ++ payloads rest

copy-delivered : (chunks : List Chunk) (o : Option Stats) → (copy chunks o).0 ≡ delivered chunks
unfolding copy
copy-delivered [] o = refl
copy-delivered (c ∷ rest) o =
    let ih = copy-delivered rest (count_write c.write c.payload o) in ground (arith, ih)

delivered-payloads :
    (chunks : List Chunk) → (rest : Str) × (payloads chunks ≡ delivered chunks ++ rest)
delivered-payloads [] = ([], refl)
delivered-payloads (c ∷ cs) =
    let (rest, e) = delivered-payloads cs in
    let sent_now = sent c.write c.payload in
    if_case (λ (d : Str). (rest : Str) × (payloads (c ∷ cs) ≡ d ++ rest)) (is_whole c)
      (λ whole.
        let n : length sent_now ≡ length c.payload = ground arith in
        (
          rest,
          ap (λ q. c.payload ++ q) e
              ∙ ap (λ q. q ++ (delivered cs ++ rest)) (sym (take_whole c.write.taken c.payload n))
              ∙ sym (append_assoc sent_now (delivered cs) rest),
        ))
      (λ _. (
        drop c.write.taken c.payload ++ payloads cs,
        ap (λ q. q ++ payloads cs) (sym (take-drop c.write.taken c.payload))
            ∙ append_assoc sent_now (drop c.write.taken c.payload) (payloads cs),
      ))

-- What is copied from a decoder is a beginning of what it sent, whatever goes wrong.
pub copy-payloads :
    (chunks : List Chunk) (o : Option Stats)
    → (rest : Str) × (payloads chunks ≡ (copy chunks o).0 ++ rest)
copy-payloads chunks o =
    let (rest, e) = delivered-payloads chunks in
    (rest, e ∙ ap (λ q. q ++ rest) (sym (copy-delivered chunks o)))

-- The turn of a relay whose context lasts and whose dials get through.
pub record IsLive (s : Session) : Type 0 where
  pub starts : s.ended_before ≡ false
  pub decoder : dial_loop s.decoder ≡ connected
  pub feed : dial_loop s.feed ≡ connected
  pub lasts : s.ended_after ≡ false
  pub waits : s.ended_waiting ≡ false

-- What the connection to the feed gets in such a turn.
abbrev pub stream_of : Str → Session → Stream
stream_of receiver_id s =
    if not (length receiver_id == 8)
    then record { greeting = []; body = delivered s.chunks }
    else if s.greeting.works
    then record { greeting = beast_receiver_frame receiver_id; body = delivered s.chunks }
    else record { greeting = sent s.greeting (beast_receiver_frame receiver_id); body = [] }

-- A dial gets through after any number of refusals.
abbrev pub refusals : ℕ → List Attempt
refusals zero = []
refusals (suc n) = refused ∷ refusals n

pub dial_loop-refusals :
    (n : ℕ) (rest : List Attempt) → dial_loop (refusals n ++ connects ∷ rest) ≡ connected
unfolding dial_loop
dial_loop-refusals zero rest = refl
dial_loop-refusals (suc n) rest = dial_loop-refusals n rest

-- The turn goes on, and has added the streams.
abbrev pub Added : List Stream → Relay → Turn × Relay → Type 0
Added ts r (again, r') = r'.streams ≡ r.streams ++ ts
Added ts r (returned, r') = ⊥
Added ts r (waiting, r') = ⊥

pump-Added :
    (s : Session) (frame : Str) (r : Relay)
    → IsLive s
    → Added ((record { greeting = frame; body = delivered s.chunks }) ∷ []) r (pump s frame r)
unfolding pump
pump-Added s frame r live =
    let lasts : (s.ended_after || s.ended_waiting) ≡ false =
      ground (arith, live.lasts, live.waits) in
    let body = (copy s.chunks r.stats).0 in
    if_case
      (λ (t : Turn).
        Added ((record { greeting = frame; body = delivered s.chunks }) ∷ []) r
          (t, (pump s frame r).1))
      (s.ended_after || s.ended_waiting) (λ stops. absurd (ground arith))
      (λ _.
        ap (λ b. r.streams ++ (record { greeting = frame; body = b }) ∷ [])
          (copy-delivered s.chunks r.stats))

greet-Added :
    (receiver_id : Str) (s : Session) (r : Relay)
    → IsLive s
    → Added (stream_of receiver_id s ∷ []) r (greet receiver_id s r)
unfolding greet
greet-Added receiver_id s r live =
    let r' : Relay = record r { stats = on_stats (λ st. set_connected st true) r.stats } in
    if_case2 (λ (x : Turn × Relay) (t : Stream). Added (t ∷ []) r x) (not (length receiver_id == 8))
      (λ _. pump-Added s [] r' live)
      (λ _.
        if_case2 (λ (x : Turn × Relay) (t : Stream). Added (t ∷ []) r x) s.greeting.works
          (λ _. pump-Added s (beast_receiver_frame receiver_id) r' live) (λ _. refl))

dial_feed-Added :
    (receiver_id : Str) (s : Session) (d : Dialled) (r : Relay)
    → IsLive s
    → d ≡ connected
    → Added (stream_of receiver_id s ∷ []) r (dial_feed receiver_id s d r)
unfolding dial_feed
dial_feed-Added receiver_id s connected r live e =
    greet-Added receiver_id s (record r { open_count = r.open_count + 1 }) live
dial_feed-Added receiver_id s cancelled r live e = cc
dial_feed-Added receiver_id s dialling r live e = cc

dial_decoder-Added :
    (receiver_id : Str) (s : Session) (d : Dialled) (r : Relay)
    → IsLive s
    → d ≡ connected
    → Added (stream_of receiver_id s ∷ []) r (dial_decoder receiver_id s d r)
unfolding dial_decoder
dial_decoder-Added receiver_id s connected r live e =
    dial_feed-Added receiver_id s (dial_loop s.feed) (record r { open_count = r.open_count + 1 })
      live live.feed
dial_decoder-Added receiver_id s cancelled r live e = cc
dial_decoder-Added receiver_id s dialling r live e = cc

forward_once-Added :
    (receiver_id : Str) (s : Session) (r : Relay)
    → IsLive s
    → Added (stream_of receiver_id s ∷ []) r (forward_once receiver_id s r)
unfolding forward_once
forward_once-Added receiver_id s r live =
    if_case (Added (stream_of receiver_id s ∷ []) r) s.ended_before
      (λ stops. absurd (ground (arith, live.starts)))
      (λ _. dial_decoder-Added receiver_id s (dial_loop s.decoder) r live live.decoder)

continue-Added :
    (t : Stream) (ts : List Stream) (r : Relay) (x : Turn × Relay) (next : Relay → Turn × Relay)
    → Added (t ∷ []) r x
    → ((r' : Relay) → Added ts r' (next r'))
    → Added (t ∷ ts) r (continue_with x next)
continue-Added t ts r (again, r') next h k = then_added (next r') (k r')
  where
    then_added : (y : Turn × Relay) → Added ts r' y → Added (t ∷ ts) r y
    then_added (again, r'') e = e ∙ ap (λ q. q ++ ts) h ∙ append_assoc r.streams (t ∷ []) ts
    then_added (returned, r'') e = e
    then_added (waiting, r'') e = e
continue-Added t ts r (returned, r') next h k = absurd h
continue-Added t ts r (waiting, r') next h k = absurd h

-- While its context lasts and its dials get through, the relay never stops: whatever connections
-- break, each turn adds the stream of its session, in order, and the next turn follows.
pub run_forward-Added :
    (receiver_id : Str) (sessions : List Session) (r : Relay)
    → AllHold IsLive sessions
    → Added (map (stream_of receiver_id) sessions) r (run_forward receiver_id sessions r)
unfolding run_forward
run_forward-Added receiver_id [] r live = sym (append-nil r.streams)
run_forward-Added receiver_id (s ∷ rest) r live =
    continue-Added (stream_of receiver_id s) (map (stream_of receiver_id) rest) r
      (forward_once receiver_id s r) (run_forward receiver_id rest)
      (forward_once-Added receiver_id s r live.0)
      (λ r'. run_forward-Added receiver_id rest r' live.1)
