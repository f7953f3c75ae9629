-- ===== src/Beast/Escape.antt =====
-- The receiving side of the Beast format, written down independently of the agent: how a reader
-- splits a stream into frames.
use flightpatch.Common.{
  ℕ, zero, suc, [], ◌∷◌, ◌++◌, Option, none, some, ◌==◌, if◌then◌else◌, length, ◌≡◌, refl, sym, inl,
  inr, Bool-cases, arith, append-nil, append_assoc,
}
use flightpatch.Text.{Str}
use flightpatch.Beast.{esc, escape_onto}

-- The escaped form of a text, with no accumulator.
pub escaped : Str → Str
escaped [] = []
escaped (b ∷ bs) = if b == esc then b ∷ (esc ∷ escaped bs) else b ∷ escaped bs

pub escape_onto-eq : (bs out : Str) → escape_onto out bs ≡ out ++ escaped bs
unfolding escape_onto escaped
escape_onto-eq [] out = sym (append-nil out)
escape_onto-eq (b ∷ bs) out = elim (Bool-cases (b == esc)) [
  | inl e ↦ rw e (simp (escape_onto-eq bs, append_assoc))
  | inr e ↦ rw e (simp (escape_onto-eq bs, append_assoc))
]

abbrev behind : ℕ → Option (Str × Str) → Option (Str × Str)
behind b none = none
behind b (some (body, rest)) = some (b ∷ body, rest)

-- What follows the first 0x1a of a body: the second, and the rest by `read`.
second_esc : (Str → Option (Str × Str)) → Str → Option (Str × Str)
second_esc read [] = none
second_esc read (c ∷ s) = if c == esc then behind esc (read s) else none

-- `n` bytes of a frame's body and what follows them. A single 0x1a within a body is an error.
unfoldable pub read_body : ℕ → Str → Option (Str × Str)
unfolding second_esc
read_body zero s = some ([], s)
read_body (suc n) [] = none
read_body (suc n) (b ∷ s) =
    if b == esc then second_esc (read_body n) s else behind b (read_body n s)

-- The bytes in the body of a frame of a type: a timestamp, a signal level and a short or long
-- message, or a receiver's identity.
unfoldable pub body_length : ℕ → Option ℕ
body_length t =
    if t == 0x32 then some 14 else if t == 0x33 then some 21 else if t == 0xe3 then some 8 else none

pub record Frame : Type 0 where
  pub typ : ℕ
  pub body : Str
  pub rest : Str

abbrev framed : ℕ → Option (Str × Str) → Option Frame
framed t none = none
framed t (some (body, rest)) = some (record { typ = t; body = body; rest = rest })

abbrev read_typed : ℕ → Option ℕ → Str → Option Frame
read_typed t none s = none
read_typed t (some n) s = framed t (read_body n s)

-- The first frame of a stream, and the stream behind it.
unfoldable pub read_frame : Str → Option Frame
unfolding read_body body_length
read_frame [] = none
read_frame (a ∷ []) = none
read_frame (a ∷ (t ∷ s)) = if a == esc then read_typed t (body_length t) s else none

pub read_body-escaped :
    (bs rest : Str) → read_body (length bs) (escaped bs ++ rest) ≡ some (bs, rest)
unfolding read_body escaped
read_body-escaped [] rest = refl
read_body-escaped (b ∷ bs) rest = ground (arith, read_body-escaped bs rest)
