-- ===== src/Stats.antt =====
-- The live counters of the agent: agent/stats.go, with the link bit of agent/vdl2_forward.go. A
-- method returns the changed record; what other threads may do between two atomic operations is in
-- the child module Race.
pub mod Links
pub mod Race
mod Examples
use Prim.Native.Nat.{bit_and, bit_or, bit_xor}
use flightpatch.Common.{
  ℕ, ◌+◌, ◌-◌, ◌%◌, ◌^◌, Bool, true, false, not, ◌&&◌, ◌||◌, Option, none, some, ◌==◌,
  if◌then◌else◌,
}

-- `channel` is the buffered channel `changed` of capacity one: `some true` holds a token, and
-- `none` is the nil channel of a record that no loop listens to.
pub record Stats : Type 0 where
  pub bytes_fed : ℕ  -- int64
  pub connected : ℕ  -- int32
  pub links : ℕ  -- uint32
  pub channel : Option Bool

unfoldable pub new_stats : Stats
new_stats = record { bytes_fed = 0; connected = 0; links = 0; channel = some false }

abbrev pub tcp_link_bit : ℕ
tcp_link_bit = 1

abbrev pub vdl2_link_bit : ℕ
vdl2_link_bit = 2

-- A send that does not block: a second token is dropped.
unfoldable pub notify : Stats → Stats
notify s = elim s.channel [ none ↦ s | some pending ↦ record s { channel = some true } ]

-- `old &^ bit`, and `old | bit` where the link comes up.
unfoldable pub next_links : ℕ → ℕ → Bool → ℕ
next_links old bit v = if v then bit_or old bit else bit_xor old (bit_and old bit)

abbrev pub flag : ℕ → ℕ
flag links = if links == 0 then 0 else 1

-- Whether any link is up differs.
abbrev pub is_edge : ℕ → ℕ → Bool
is_edge old next = not (flag old == flag next)

-- `setLink`, where no other thread comes between: the first comparison succeeds.
unfoldable pub set_link : Stats → ℕ → Bool → Stats
unfolding notify
set_link s bit v =
    let next = next_links s.links bit v in
    let s' : Stats = record s { links = next; connected = flag next } in
    if s.links == next then s else if is_edge s.links next then notify s' else s'

unfoldable pub set_connected : Stats → Bool → Stats
unfolding set_link
set_connected s v = set_link s tcp_link_bit v

-- `atomic.AddInt64`, on the bit pattern; the count `n` that a write returns is not negative.
unfoldable pub add_bytes : Stats → ℕ → Stats
unfolding notify
add_bytes s n =
    let total = (s.bytes_fed + n) % 2 ^ 64 in
    let before = (total + 2 ^ 64 - n % 2 ^ 64) % 2 ^ 64 in
    let s' : Stats = record s { bytes_fed = total } in
    if n == 0 then s else if before == 0 then notify s' else s'
