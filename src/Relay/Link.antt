-- ===== src/Relay/Link.antt =====
-- The link that `runForward` of agent/forward.go marks.
use flightpatch.Beast.{beast_receiver_frame}
use flightpatch.Common.{
  true, false, not, List, [], ◌∷◌, Option, none, some, ◌==◌, length, ◌≡◌, arith, if_case,
}
use flightpatch.Relay.Forward.{AllHold, run_forward_inv}
use flightpatch.Relay.{
  on_stats, count_write, Chunk, is_whole, copy, Session, Relay, Turn, pump, greet, run_forward,
}
use flightpatch.Stats.Links.{IsValid, tcp, is_up, set_link-IsValid}
use flightpatch.Stats.{Stats, set_connected, add_bytes, notify}
use flightpatch.Text.{Str}

-- There is a valid counter.
abbrev pub IsMarked : Option Stats → Type 0
IsMarked none = ⊥
IsMarked (some st) = IsValid st

-- There is one, and the link of TCP is down.
abbrev pub IsDown : Option Stats → Type 0
IsDown none = ⊥
IsDown (some st) = IsValid st × (is_up tcp st.links ≡ false)

count_write-IsMarked :
    (x : Chunk) (o : Option Stats) → IsMarked o → IsMarked (count_write x.write x.payload o)
unfolding count_write add_bytes notify
count_write-IsMarked x none h = h
count_write-IsMarked x (some st) h = ground (arith, h.mask, h.reported)

copy-IsMarked : (chunks : List Chunk) (o : Option Stats) → IsMarked o → IsMarked (copy chunks o).1
unfolding copy
copy-IsMarked [] o h = h
copy-IsMarked (x ∷ rest) o h =
    let one = count_write-IsMarked x o h in
    if_case (λ (t : Str × Option Stats). IsMarked t.1) (is_whole x)
      (λ _. copy-IsMarked rest (count_write x.write x.payload o) one) (λ _. one)

up-IsMarked : (o : Option Stats) → IsMarked o → IsMarked (on_stats (λ st. set_connected st true) o)
unfolding set_connected
up-IsMarked none h = h
up-IsMarked (some st) h = (set_link-IsValid st tcp true h).0

mark_false_lem :
    (o : Option Stats) → IsMarked o → IsDown (on_stats (λ st. set_connected st false) o)
unfolding set_connected
mark_false_lem none h = h
mark_false_lem (some st) h = let (valid, ups) = set_link-IsValid st tcp false h in (valid, ups tcp)

IsDown-IsMarked : (o : Option Stats) → IsDown o → IsMarked o
IsDown-IsMarked none h = h
IsDown-IsMarked (some st) h = h.0

pump-IsDown :
    (s : Session) (frame : Str) (r : Relay) → IsMarked r.stats → IsDown (pump s frame r).1.stats
unfolding pump
pump-IsDown s frame r h =
    mark_false_lem (copy s.chunks r.stats).1 (copy-IsMarked s.chunks r.stats h)

abbrev pub Greets : Session → Type 0
Greets s = s.greeting.works ≡ true

greet-IsDown :
    (receiver_id : Str) (s : Session) (r : Relay)
    → Greets s
    → IsDown r.stats
    → IsDown (greet receiver_id s r).1.stats
unfolding greet
greet-IsDown receiver_id s r works h =
    let up = up-IsMarked r.stats (IsDown-IsMarked r.stats h) in
    let r' : Relay = record r { stats = on_stats (λ st. set_connected st true) r.stats } in
    if_case (λ (t : Turn × Relay). IsDown t.1.stats) (not (length receiver_id == 8))
      (λ _. pump-IsDown s [] r' up)
      (λ _.
        if_case (λ (t : Turn × Relay). IsDown t.1.stats) s.greeting.works
          (λ _. pump-IsDown s (beast_receiver_frame receiver_id) r' up)
          (λ fails. absurd (ground arith)))

-- Where every identity can be written, the link that was down is down whenever the relay has
-- returned, dials, or is about to dial again.
pub run_forward-IsDown :
    (receiver_id : Str) (sessions : List Session) (r : Relay)
    → AllHold Greets sessions
    → IsDown r.stats
    → IsDown (run_forward receiver_id sessions r).1.stats
run_forward-IsDown receiver_id sessions r all h =
    run_forward_inv (λ r'. IsDown r'.stats) receiver_id Greets (λ n r' k. k)
      (λ s r' works k. greet-IsDown receiver_id s r' works k) sessions r all h
