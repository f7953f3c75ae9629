-- ===== src/Relay/Forward.antt =====
-- What `runForward` of agent/forward.go sends, counts, marks and closes.
use flightpatch.Beast.Escape.{read_frame}
use flightpatch.Beast.Frames.{read_frame-beast_receiver_frame}
use flightpatch.Beast.{beast_receiver_frame}
use flightpatch.Common.{
  ℕ, ◌+◌, ◌-◌, true, not, List, [], ◌∷◌, ◌++◌, some, ◌==◌, length, ◌≡◌, ◌⊎◌, inl, inr, refl, arith,
  if_case,
}
use flightpatch.Relay.{
  Dialled, connected, cancelled, dialling, sent, on_stats, copy, Session, Stream, Relay, Turn,
  again, returned, waiting, pump, greet, dial_loop, dial_feed, dial_decoder, forward_once,
  run_forward, continue_with,
}
use flightpatch.Stats.{set_connected}
use flightpatch.Text.{Str}

abbrev pub AllHold : (Session → Type 0) → List Session → Type 0
AllHold Holds [] = Unit
AllHold Holds (s ∷ rest) = Holds s × AllHold Holds rest

module _ (P : Relay → Type 0) (receiver_id : Str) (Holds : Session → Type 0)
    (moved : (n : ℕ) (r : Relay) → P r → P (record r { open_count = n }))
    (greeted : (s : Session) (r : Relay) → Holds s → P r → P (greet receiver_id s r).1) where
  dial_feed_inv :
      (s : Session) (d : Dialled) (r : Relay) → Holds s → P r → P (dial_feed receiver_id s d r).1
  unfolding dial_feed
  dial_feed_inv s connected r k h =
      greeted s (record r { open_count = r.open_count + 1 }) k (moved (r.open_count + 1) r h)
  dial_feed_inv s cancelled r k h = moved (r.open_count - 1) r h
  dial_feed_inv s dialling r k h = h

  dial_decoder_inv :
      (s : Session) (d : Dialled) (r : Relay) → Holds s → P r → P (dial_decoder receiver_id s d r).1
  unfolding dial_decoder
  dial_decoder_inv s connected r k h =
      dial_feed_inv s (dial_loop s.feed) (record r { open_count = r.open_count + 1 }) k
        (moved (r.open_count + 1) r h)
  dial_decoder_inv s cancelled r k h = h
  dial_decoder_inv s dialling r k h = h

  forward_once_inv : (s : Session) (r : Relay) → Holds s → P r → P (forward_once receiver_id s r).1
  unfolding forward_once
  forward_once_inv s r k h =
      if_case (λ (t : Turn × Relay). P t.1) s.ended_before (λ _. h)
        (λ _. dial_decoder_inv s (dial_loop s.decoder) r k h)

  continue_inv :
      (t : Turn × Relay) (next : Relay → Turn × Relay)
      → P t.1
      → ((r : Relay) → P r → P (next r).1)
      → P (continue_with t next).1
  continue_inv (again, r) next h k = k r h
  continue_inv (returned, r) next h k = h
  continue_inv (waiting, r) next h k = h

  pub run_forward_inv :
      (sessions : List Session) (r : Relay)
      → AllHold Holds sessions
      → P r
      → P (run_forward receiver_id sessions r).1
  unfolding run_forward
  run_forward_inv [] r k h = h
  run_forward_inv (s ∷ rest) r k h =
      continue_inv (forward_once receiver_id s r) (run_forward receiver_id rest)
        (forward_once_inv s r k.0 h) (λ r' h'. run_forward_inv rest r' k.1 h')

all_sessions : (sessions : List Session) → AllHold (λ s. Unit {0}) sessions
all_sessions [] = tt
all_sessions (s ∷ rest) = (tt, all_sessions rest)

-- The same where nothing is asked of the sessions.
pub run_forward_all :
    (P : Relay → Type 0) (receiver_id : Str)
    → ((n : ℕ) (r : Relay) → P r → P (record r { open_count = n }))
    → ((s : Session) (r : Relay) → P r → P (greet receiver_id s r).1)
    → (sessions : List Session) (r : Relay) → P r
    → P (run_forward receiver_id sessions r).1
run_forward_all P receiver_id moved greeted sessions r h =
    run_forward_inv P receiver_id (λ s. Unit) moved (λ s r _ k. greeted s r k) sessions r
      (all_sessions sessions) h

module _ (receiver_id : Str) where
  -- What was sent on a connection to the feed begins with the whole identity, if anything was copied.
  abbrev pub IsIdentified : Stream → Type 0
  IsIdentified t =
      (t.body ≡ [])
      ⊎ (read_frame (t.greeting ++ t.body)
          ≡ some (record { typ = 0xe3; body = receiver_id; rest = t.body }))

  abbrev pub AllIdentified : List Stream → Type 0
  AllIdentified [] = Unit
  AllIdentified (t ∷ ts) = IsIdentified t × AllIdentified ts

  AllIdentified-append :
      (ts : List Stream) (t : Stream)
      → AllIdentified ts
      → IsIdentified t
      → AllIdentified (ts ++ t ∷ [])
  AllIdentified-append [] t h k = (k, tt)
  AllIdentified-append (u ∷ ts) t h k = (h.0, AllIdentified-append ts t h.1 k)

  greet-AllIdentified :
      (eight : length receiver_id ≡ 8) (s : Session) (r : Relay)
      → AllIdentified r.streams
      → AllIdentified (greet receiver_id s r).1.streams
  unfolding greet pump
  greet-AllIdentified eight s r h =
      let frame = beast_receiver_frame receiver_id in
      if_case (λ (t : Turn × Relay). AllIdentified t.1.streams) (not (length receiver_id == 8))
        (λ no_id. absurd (ground arith))
        (λ _.
          if_case (λ (t : Turn × Relay). AllIdentified t.1.streams) s.greeting.works
            (λ _.
              let body = (copy s.chunks (on_stats (λ st. set_connected st true) r.stats)).0 in
              AllIdentified-append r.streams (record { greeting = frame; body = body }) h
                (inr (read_frame-beast_receiver_frame receiver_id body eight)))
            (λ _.
              AllIdentified-append r.streams
                (record { greeting = sent s.greeting frame; body = [] }) h (inl refl)))

  -- With an identity of eight bytes, a Beast reader of any connection to the feed on which something
  -- was copied gets the identity first and then what was copied, whatever connections break.
  pub run_forward-AllIdentified :
      (sessions : List Session) (r : Relay)
      → length receiver_id ≡ 8
      → AllIdentified r.streams
      → AllIdentified (run_forward receiver_id sessions r).1.streams
  run_forward-AllIdentified sessions r eight h =
      run_forward_all (λ r'. AllIdentified r'.streams) receiver_id (λ n r' k. k)
        (λ s r' k. greet-AllIdentified eight s r' k) sessions r h
