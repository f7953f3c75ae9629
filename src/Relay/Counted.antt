-- ===== src/Relay/Counted.antt =====
-- The bytes that `runForward` of agent/forward.go counts, and the link that it marks.
use flightpatch.Beast.{beast_receiver_frame}
use mathlib.Core.Path.{subst}
use flightpatch.Common.{
  ℕ, ◌+◌, ◌%◌, ◌^◌, Bool, true, false, not, List, [], ◌∷◌, ◌++◌, Option, none, some, ◌==◌, length,
  ◌≡◌, ◌∙◌, arith, if_case, length-append,
}
use flightpatch.Relay.Forward.{run_forward_all}
use flightpatch.Relay.{
  sent, on_stats, count_write, Chunk, is_whole, copy, Session, Stream, Relay, Turn, pump, greet,
  run_forward,
}
use flightpatch.Stats.{Stats, set_connected, set_link, add_bytes, notify}
use flightpatch.Text.{Str}

-- There is a counter, and it is `b` and `n` more, modulo 2 ^ 64.
abbrev pub Counted : ℕ → ℕ → Option Stats → Type 0
Counted b n none = ⊥
Counted b n (some st) = st.bytes_fed ≡ (b + n) % 2 ^ 64

count_write-Counted :
    (b n : ℕ) (x : Chunk) (o : Option Stats)
    → Counted b n o
    → Counted b (n + length (sent x.write x.payload)) (count_write x.write x.payload o)
unfolding count_write add_bytes notify
count_write-Counted b n x none h = h
count_write-Counted b n x (some st) h = ground (arith)

set_connected-Counted :
    (b n : ℕ) (v : Bool) (o : Option Stats)
    → Counted b n o
    → Counted b n (on_stats (λ st. set_connected st v) o)
unfolding set_connected set_link notify
set_connected-Counted b n v none h = h
set_connected-Counted b n v (some st) h = ground arith

copy-Counted :
    (b n : ℕ) (chunks : List Chunk) (o : Option Stats)
    → Counted b n o
    → Counted b (n + length (copy chunks o).0) (copy chunks o).1
unfolding copy
copy-Counted b n [] o h = subst (λ k. Counted b k o) (omega arith) h
copy-Counted b n (x ∷ rest) o h =
    let one = count_write-Counted b n x o h in
    let more = (copy rest (count_write x.write x.payload o)).0 in
    if_case (λ (t : Str × Option Stats). Counted b (n + length t.0) t.1) (is_whole x)
      (λ _.
        subst (λ k. Counted b k (copy rest (count_write x.write x.payload o)).1)
          (omega (arith, length-append (sent x.write x.payload) more))
          (copy-Counted b (n + length (sent x.write x.payload)) rest
            (count_write x.write x.payload o) one))
      (λ _. one)

-- The bytes that were copied on all connections to the feed.
abbrev pub copied : List Stream → ℕ
copied [] = 0
copied (t ∷ ts) = length t.body + copied ts

copied-append : (ts : List Stream) (t : Stream) → copied (ts ++ t ∷ []) ≡ copied ts + length t.body
copied-append [] t = omega arith
copied-append (u ∷ ts) t = omega (arith, copied-append ts t)

-- Since the counter was `b` and `t` bytes had been copied, as many were counted as were copied.
abbrev pub IsCounted : ℕ → ℕ → Relay → Type 0
IsCounted b t r = (n : ℕ) × Counted b n r.stats × (copied r.streams ≡ t + n)

pump-IsCounted :
    (b t : ℕ) (s : Session) (frame : Str) (r : Relay)
    → IsCounted b t r
    → IsCounted b t (pump s frame r).1
unfolding pump
pump-IsCounted b t s frame r (n, h, e) =
    let body = (copy s.chunks r.stats).0 in
    (
      n + length body,
      set_connected-Counted b (n + length body) false (copy s.chunks r.stats).1
          (copy-Counted b n s.chunks r.stats h),
      omega (arith, e, copied-append r.streams (record { greeting = frame; body = body })),
    )

greet-IsCounted :
    (b t : ℕ) (receiver_id : Str) (s : Session) (r : Relay)
    → IsCounted b t r
    → IsCounted b t (greet receiver_id s r).1
unfolding greet
greet-IsCounted b t receiver_id s r (n, h, e) =
    let frame = beast_receiver_frame receiver_id in
    let up = set_connected-Counted b n true r.stats h in
    let r' : Relay = record r { stats = on_stats (λ st. set_connected st true) r.stats } in
    if_case (λ (t' : Turn × Relay). IsCounted b t t'.1) (not (length receiver_id == 8))
      (λ _. pump-IsCounted b t s [] r' (n, up, e))
      (λ _.
        if_case (λ (t' : Turn × Relay). IsCounted b t t'.1) s.greeting.works
          (λ _. pump-IsCounted b t s frame r' (n, up, e))
          (λ _. (
            n,
            up,
            copied-append r.streams (record { greeting = sent s.greeting frame; body = [] })
                ∙ (omega (arith, e)),
          )))

-- A relay that counts has counted, in 64 bits, the bytes that it copied to the feed and no others:
-- not the identities, and not what a broken connection did not take.
pub run_forward-IsCounted :
    (receiver_id : Str) (sessions : List Session) (r : Relay) (b t : ℕ)
    → IsCounted b t r
    → IsCounted b t (run_forward receiver_id sessions r).1
run_forward-IsCounted receiver_id sessions r b t h =
    run_forward_all (IsCounted b t) receiver_id (λ n r' k. k)
      (λ s r' k. greet-IsCounted b t receiver_id s r' k) sessions r h
