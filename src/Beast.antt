-- ===== src/Beast.antt =====
-- Beast framing: agent/forward.go `beastReceiverFrame` and agent/uat.go `avrToBeast`. Bytes are
-- numbers below 256; an `error` is the empty option.
pub mod Hex
pub mod Escape
pub mod Frames
pub mod RoundTrip
mod Examples
use flightpatch.Common.{
  ℕ, ◌+◌, Bool, not, ◌&&◌, ◌||◌, List, [], ◌∷◌, ◌++◌, Option, none, some, ◌==◌, if◌then◌else◌,
  length,
}
use flightpatch.Beast.Hex.{decode_string}
use flightpatch.Text.{
  Str, trim_prefix, trim_suffix, trim_left_space, trim_left_space_rev, trim_space,
}

-- 0x1a opens a frame; within one it is written twice.
abbrev pub esc : ℕ
esc = 0x1a

-- The loop that both functions append their bytes with.
unfoldable pub escape_onto : Str → Str → Str
escape_onto out [] = out
escape_onto out (b ∷ bs) =
    escape_onto (if b == esc then (out ++ b ∷ []) ++ esc ∷ [] else out ++ b ∷ []) bs

-- `nil` for an identity that has not eight bytes.
unfoldable pub beast_receiver_frame : Str → Str
unfolding escape_onto
beast_receiver_frame receiver_id =
    if not (length receiver_id == 8) then [] else escape_onto (esc ∷ 0xe3 ∷ []) receiver_id

-- The text between `*` and `;`.
unfoldable pub avr_text : Str → Str
unfolding trim_space trim_prefix trim_suffix
avr_text line = trim_suffix b';' (trim_prefix b'*' (trim_space line))

-- A decoded message behind its type, an empty timestamp and a signal level, escaped.
unfoldable pub avr_frame : Str → Str
unfolding escape_onto
avr_frame raw =
    let typ = if length raw == 14 then 0x33 else 0x32 in
    escape_onto (esc ∷ typ ∷ []) (0 ∷ 0 ∷ 0 ∷ 0 ∷ 0 ∷ 0 ∷ 0x80 ∷ raw)

unfoldable pub avr_checked : Option Str → Option Str
unfolding avr_frame
avr_checked none = none
avr_checked (some raw) =
    if not (length raw == 7) && not (length raw == 14) then none else some (avr_frame raw)

unfoldable pub avr_to_beast : Str → Option Str
unfolding avr_text avr_checked decode_string
avr_to_beast line = avr_checked (decode_string (avr_text line))
