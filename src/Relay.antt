-- ===== src/Relay.antt =====
-- The relays of the agent: agent/forward.go (`dialLoop`, `countWriter`, `runForward`, `Run`). The network and the
-- context enter as the outcomes of the calls, in the order in which the code makes them.
pub mod Forward
pub mod Counted
pub mod Link
pub mod Open
pub mod Streams
pub mod Vdl2
pub mod Uat
mod Examples
use flightpatch.Beast.{beast_receiver_frame}
use flightpatch.Common.{
  ℕ, ◌+◌, ◌-◌, Bool, true, false, not, ◌&&◌, ◌||◌, List, [], ◌∷◌, ◌++◌, map, Option, none, some,
  ◌==◌, if◌then◌else◌, length, take,
}
use flightpatch.Stats.{Stats, set_connected, add_bytes}
use flightpatch.Text.{Str}

-- One turn of `dialLoop`: the context has ended, the dial succeeds, or it is refused and the delay
-- goes by, or the context ends in the delay.
pub data Attempt : Type 0 where
  ended connects refused ended_waiting : Attempt

-- A connection, `ctx.Err()`, or no end so far.
pub data Dialled : Type 0 where
  connected cancelled dialling : Dialled

unfoldable pub dial_loop : List Attempt → Dialled
dial_loop [] = dialling
dial_loop (ended ∷ rest) = cancelled
dial_loop (connects ∷ rest) = connected
dial_loop (refused ∷ rest) = dial_loop rest
dial_loop (ended_waiting ∷ rest) = cancelled

-- A write on a connection that takes so many bytes, with an error or not.
pub record Write : Type 0 where
  pub taken : ℕ
  pub works : Bool

-- What a write of `p` sends.
abbrev pub sent : Write → Str → Str
sent w p = take w.taken p

abbrev pub on_stats : (Stats → Stats) → Option Stats → Option Stats
on_stats f none = none
on_stats f (some st) = some (f st)

-- `countWriter.Write`: the bytes that were sent are counted.
unfoldable pub count_write : Write → Str → Option Stats → Option Stats
count_write w p st = on_stats (λ s. add_bytes s (length (sent w p))) st

-- What is read from the decoder, and how the write of it goes.
pub record Chunk : Type 0 where
  pub payload : Str
  pub write : Write

-- A write that takes less than it is given is an error of `io.Copy`.
abbrev pub is_whole : Chunk → Bool
is_whole c = c.write.works && length (sent c.write c.payload) == length c.payload

-- `io.Copy` until the source ends or a write goes wrong: what was sent, and the counters.
unfoldable pub copy : List Chunk → Option Stats → Str × Option Stats
copy [] st = ([], st)
copy (c ∷ rest) st =
    let st' = count_write c.write c.payload st in
    let (more, st'') = copy rest st' in
    if is_whole c then (sent c.write c.payload ++ more, st'') else (sent c.write c.payload, st')

-- One turn of the loop of `runForward`.
pub record Session : Type 0 where
  pub ended_before : Bool
  pub decoder : List Attempt
  pub feed : List Attempt
  pub greeting : Write
  pub chunks : List Chunk
  pub ended_after : Bool
  pub ended_waiting : Bool

-- What a connection to the feed was sent: the identity, and what was copied.
pub record Stream : Type 0 where
  pub greeting : Str
  pub body : Str

-- The counters, the connections that are open, and what each connection to the feed was sent.
pub record Relay : Type 0 where
  pub stats : Option Stats
  pub open_count : ℕ
  pub streams : List Stream

-- Whether the loop goes on, has returned the context's error, or is still dialling.
pub data Turn : Type 0 where
  again returned waiting : Turn

-- Both connections are closed.
abbrev pub close_both : Relay → Relay
close_both r = record r { open_count = r.open_count - 2 }

-- The copying, and what follows it.
unfoldable pub pump : Session → Str → Relay → Turn × Relay
pump s frame r =
    let (body, stats) = copy s.chunks r.stats in
    let r' : Relay = record r {
      stats = on_stats (λ st. set_connected st false) stats;
      streams = r.streams ++ (record { greeting = frame; body = body }) ∷ [];
    } in
    (if s.ended_after || s.ended_waiting then returned else again, close_both r')

-- The part with both connections.
unfoldable pub greet : Str → Session → Relay → Turn × Relay
greet receiver_id s r =
    let r' : Relay = record r { stats = on_stats (λ st. set_connected st true) r.stats } in
    let frame = beast_receiver_frame receiver_id in
    let failed : Stream = record { greeting = sent s.greeting frame; body = [] } in
    let whole = pump s frame r' in
    if not (length receiver_id == 8)
    then pump s [] r'
    else if s.greeting.works
    then whole
    else (again, close_both (record r' { streams = r'.streams ++ failed ∷ [] }))

-- The dial to the feed, with the decoder's connection open.
unfoldable pub dial_feed : Str → Session → Dialled → Relay → Turn × Relay
dial_feed receiver_id s connected r =
    greet receiver_id s (record r { open_count = r.open_count + 1 })
dial_feed receiver_id s cancelled r = (returned, record r { open_count = r.open_count - 1 })
dial_feed receiver_id s dialling r = (waiting, r)

unfoldable pub dial_decoder : Str → Session → Dialled → Relay → Turn × Relay
dial_decoder receiver_id s connected r =
    dial_feed receiver_id s (dial_loop s.feed) (record r { open_count = r.open_count + 1 })
dial_decoder receiver_id s cancelled r = (returned, r)
dial_decoder receiver_id s dialling r = (waiting, r)

unfoldable pub forward_once : Str → Session → Relay → Turn × Relay
forward_once receiver_id s r =
    let dialled = dial_decoder receiver_id s (dial_loop s.decoder) r in
    if s.ended_before then (returned, r) else dialled

abbrev continue_with : Turn × Relay → (Relay → Turn × Relay) → Turn × Relay
continue_with (again, r) next = next r
continue_with (returned, r) next = (returned, r)
continue_with (waiting, r) next = (waiting, r)

-- `runForward`: turns of the loop until it returns.
unfoldable pub run_forward : Str → List Session → Relay → Turn × Relay
run_forward receiver_id [] r = (again, r)
run_forward receiver_id (s ∷ rest) r =
    continue_with (forward_once receiver_id s r) (run_forward receiver_id rest)

-- `Run`, which counts nothing.
unfoldable pub run : Str → List Session → Turn × Relay
run receiver_id sessions =
    run_forward receiver_id sessions (record { stats = none; open_count = 0; streams = [] })
