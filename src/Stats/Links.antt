-- ===== src/Stats/Links.antt =====
-- The mask of live links, the flag that telemetry reports, and the token that wakes it.
use flightpatch.Common.{
  ℕ, zero, suc, ◌+◌, ◌/◌, ◌%◌, ◌^◌, ◌<◌, Bool, true, false, not, ◌&&◌, ◌||◌, some, ◌==◌,
  if◌then◌else◌, ◌≡◌, arith,
}
use flightpatch.Stats.{
  Stats, new_stats, next_links, flag, notify, set_link, add_bytes, tcp_link_bit, vdl2_link_bit,
}

-- The two links of the agent.
pub data Link : Type 0 where
  tcp udp : Link

abbrev pub bit_of : Link → ℕ
bit_of tcp = tcp_link_bit
bit_of udp = vdl2_link_bit

-- Whether a link is marked in a mask of the two bits.
abbrev pub is_up : Link → ℕ → Bool
is_up l links = links / bit_of l % 2 == 1

abbrev pub same_link : Link → Link → Bool
same_link tcp tcp = true
same_link udp udp = true
same_link tcp udp = false
same_link udp tcp = false

-- The mask has no other bits, and the flag says whether any link is up.
pub record IsValid (s : Stats) : Type 0 where
  pub mask : s.links < 4
  pub reported : s.connected ≡ flag s.links

pub next_links-lt :
    (links : ℕ) (l : Link) (v : Bool) → links < 4 → next_links links (bit_of l) v < 4
unfolding next_links
next_links-lt zero l v h = ground arith
next_links-lt (suc zero) l v h = ground arith
next_links-lt (suc (suc zero)) l v h = ground arith
next_links-lt (suc (suc (suc zero))) l v h = ground arith
next_links-lt (suc (suc (suc (suc n)))) l v h = absurd (omega arith)

-- After a link was set in a mask: it is as it was set, the other as it was.
pub next_links-is_up :
    (links : ℕ) (l m : Link) (v : Bool)
    → links < 4
    → is_up m (next_links links (bit_of l) v) ≡ (if same_link l m then v else is_up m links)
unfolding next_links
next_links-is_up zero l m v h = ground arith
next_links-is_up (suc zero) l m v h = ground arith
next_links-is_up (suc (suc zero)) l m v h = ground arith
next_links-is_up (suc (suc (suc zero))) l m v h = ground arith
next_links-is_up (suc (suc (suc (suc n)))) l m v h = absurd (omega arith)

flag-is_up :
    (links : ℕ) (l other : Link)
    → same_link l other ≡ false
    → links < 4
    → (flag links == 1) ≡ (is_up l links || is_up other links)
flag-is_up zero l other ne h = ground arith
flag-is_up (suc zero) l other ne h = ground arith
flag-is_up (suc (suc zero)) l other ne h = ground arith
flag-is_up (suc (suc (suc zero))) l other ne h = ground arith
flag-is_up (suc (suc (suc (suc n)))) l other ne h = absurd (omega arith)

next_links_again :
    (links : ℕ) (l : Link) (v : Bool)
    → links < 4
    → next_links (next_links links (bit_of l) v) (bit_of l) v ≡ next_links links (bit_of l) v
unfolding next_links
next_links_again zero l v h = ground arith
next_links_again (suc zero) l v h = ground arith
next_links_again (suc (suc zero)) l v h = ground arith
next_links_again (suc (suc (suc zero))) l v h = ground arith
next_links_again (suc (suc (suc (suc n)))) l v h = absurd (omega arith)

pub new_stats-IsValid : IsValid new_stats
unfolding new_stats
new_stats-IsValid = ground arith

-- Marking a link up or down keeps the record valid and concerns that link alone: the link is then as
-- it was marked and every other as it was.
pub set_link-IsValid :
    (s : Stats) (l : Link) (v : Bool)
    → IsValid s
    → IsValid (set_link s (bit_of l) v)
      × ((m : Link)
          → is_up m (set_link s (bit_of l) v).links
            ≡ (if same_link l m then v else is_up m s.links))
unfolding set_link
set_link-IsValid s l v h =
    (ground (arith, next_links-lt s.links l v), λ m. ground (arith, next_links-is_up s.links l m v))

-- What telemetry reports: after a link was marked the agent counts as connected exactly if that link
-- is up or the other one was, so that one protocol's disconnect does not hide the other's link.
pub set_link-connected :
    (s : Stats) (l other : Link) (v : Bool)
    → IsValid s
    → same_link l other ≡ false
    → ((set_link s (bit_of l) v).connected == 1) ≡ (v || is_up other s.links)
set_link-connected s l other v h ne =
    let (valid, ups) = set_link-IsValid s l v h in
    let s' = set_link s (bit_of l) v in
    ground (arith, flag-is_up s'.links l other ne, ups l, ups other, valid.reported, valid.mask)

-- A telemetry beat is woken exactly by an edge of what it reports: where the loop listens, a token
-- is waiting afterwards if one was before, or if the flag changed.
pub set_link-channel :
    (s : Stats) (l : Link) (v pending : Bool)
    → IsValid s
    → s.channel ≡ some pending
    → (set_link s (bit_of l) v).channel
      ≡ some (pending || not ((set_link s (bit_of l) v).connected == s.connected))
unfolding set_link
set_link-channel s l v pending h e = ground arith

-- Marking a link again as it is changes nothing and wakes nothing.
pub set_link_again :
    (s : Stats) (l : Link) (v : Bool)
    → IsValid s
    → set_link (set_link s (bit_of l) v) (bit_of l) v ≡ set_link s (bit_of l) v
unfolding set_link
set_link_again s l v h = ground (arith, next_links_again s.links l v)

-- Delivered bytes add up, modulo 2 ^ 64, and the first of them wake a telemetry beat: where the loop
-- listens, a token is waiting afterwards if one was before or if the count was 0 and grew.
pub add_bytes_lem :
    (s : Stats) (n : ℕ) (pending : Bool)
    → s.bytes_fed < 2 ^ 64
    → s.channel ≡ some pending
    → ((add_bytes s n).bytes_fed ≡ (s.bytes_fed + n) % 2 ^ 64)
      × ((add_bytes s n).channel ≡ some (pending || (s.bytes_fed == 0 && not (n == 0))))
      × ((add_bytes s n).links ≡ s.links)
      × ((add_bytes s n).connected ≡ s.connected)
unfolding add_bytes
add_bytes_lem s n pending h e = ground arith

pub set_link-bytes_fed :
    (st : Stats) (bit : ℕ) (v : Bool) → (set_link st bit v).bytes_fed ≡ st.bytes_fed
unfolding set_link notify
set_link-bytes_fed st bit v = ground arith
