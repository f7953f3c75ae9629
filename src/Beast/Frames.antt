-- ===== src/Beast/Frames.antt =====
-- What the agent sends is what a Beast reader gets.
use flightpatch.Common.{
  ℕ, [], ◌∷◌, ◌++◌, Option, none, some, length, ◌≡◌, ◌⊎◌, refl, sym, ap, inl, inr, arith,
}
use flightpatch.Text.{Str}
use flightpatch.Beast.{
  esc, escape_onto, beast_receiver_frame, avr_text, avr_frame, avr_checked, avr_to_beast,
}
use flightpatch.Beast.Escape.{escape_onto-eq, read_body-escaped, body_length, read_frame}
use flightpatch.Beast.Hex.{decode_string}

read_frame-escape_onto :
    (t : ℕ) (bs rest : Str)
    → body_length t ≡ some (length bs)
    → read_frame (escape_onto (esc ∷ t ∷ []) bs ++ rest)
      ≡ some (record { typ = t; body = bs; rest = rest })
unfolding read_frame
read_frame-escape_onto t bs rest h =
    rw (escape_onto-eq bs (esc ∷ t ∷ [])) (rw (h, read_frame) (rw (read_body-escaped bs rest)))

-- A receiver's eight-byte identity, sent in front of any stream, is read back whole, and nothing of
-- the stream behind it is lost, whatever the bytes of the identity are.
pub read_frame-beast_receiver_frame :
    (receiver_id rest : Str)
    → length receiver_id ≡ 8
    → read_frame (beast_receiver_frame receiver_id ++ rest)
      ≡ some (record { typ = 0xe3; body = receiver_id; rest = rest })
unfolding beast_receiver_frame
read_frame-beast_receiver_frame receiver_id rest h =
    rw h (read_frame-escape_onto 0xe3 receiver_id rest (unfold body_length in ap some (sym h)))

read_avr_frame :
    (raw rest : Str) (t : ℕ)
    → ((length raw ≡ 7) × (t ≡ 0x32)) ⊎ ((length raw ≡ 14) × (t ≡ 0x33))
    → read_frame (avr_frame raw ++ rest)
      ≡ some (record { typ = t; body = 0 ∷ 0 ∷ 0 ∷ 0 ∷ 0 ∷ 0 ∷ 0x80 ∷ raw; rest = rest })
unfolding avr_frame
read_avr_frame raw rest t (inl (h, e)) =
    rw (h, e)
      (read_frame-escape_onto 0x32 (0 ∷ 0 ∷ 0 ∷ 0 ∷ 0 ∷ 0 ∷ 0x80 ∷ raw) rest
        (unfold body_length in rw h))
read_avr_frame raw rest t (inr (h, e)) =
    rw (h, e)
      (read_frame-escape_onto 0x33 (0 ∷ 0 ∷ 0 ∷ 0 ∷ 0 ∷ 0 ∷ 0x80 ∷ raw) rest
        (unfold body_length in rw h))

avr_lengths :
    (raw : Str) {out : Str}
    → avr_checked (some raw) ≡ some out
    → ((length raw ≡ 7) × (avr_frame raw ≡ out)) ⊎ ((length raw ≡ 14) × (avr_frame raw ≡ out))
unfolding avr_checked
avr_lengths raw h = ground arith

read_checked :
    (decoded : Option Str) (rest : Str) {out : Str}
    → avr_checked decoded ≡ some out
    → (raw : Str) × (t : ℕ) × (decoded ≡ some raw)
      × (read_frame (out ++ rest)
          ≡ some (record { typ = t; body = 0 ∷ 0 ∷ 0 ∷ 0 ∷ 0 ∷ 0 ∷ 0x80 ∷ raw; rest = rest }))
      × (((length raw ≡ 7) × (t ≡ 0x32)) ⊎ ((length raw ≡ 14) × (t ≡ 0x33)))
unfolding avr_checked
read_checked none rest h = cc
read_checked (some raw) rest {out} h = elim (avr_lengths raw h) [
  | inl (seven, e) ↦ (
    raw,
    0x32,
    refl,
    rw (← e) (read_avr_frame raw rest 0x32 (inl (seven, refl))),
    inl (seven, refl),
  )
  | inr (fourteen, e) ↦ (
    raw,
    0x33,
    refl,
    rw (← e) (read_avr_frame raw rest 0x33 (inr (fourteen, refl))),
    inr (fourteen, refl),
  )
]

-- A line that converts holds a message of seven or fourteen bytes in hexadecimal, and a reader gets
-- back that message behind an empty timestamp and the signal level 0x80, in a frame of the type
-- that goes with its length, with the stream behind the frame untouched.
pub read_frame-avr_to_beast :
    (line rest : Str) {out : Str}
    → avr_to_beast line ≡ some out
    → (raw : Str) × (t : ℕ) × (decode_string (avr_text line) ≡ some raw)
      × (read_frame (out ++ rest)
          ≡ some (record { typ = t; body = 0 ∷ 0 ∷ 0 ∷ 0 ∷ 0 ∷ 0 ∷ 0x80 ∷ raw; rest = rest }))
      × (((length raw ≡ 7) × (t ≡ 0x32)) ⊎ ((length raw ≡ 14) × (t ≡ 0x33)))
unfolding avr_to_beast
read_frame-avr_to_beast line rest h = read_checked (decode_string (avr_text line)) rest h
