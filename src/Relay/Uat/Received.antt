-- ===== src/Relay/Uat/Received.antt =====
-- What a Beast reader at the feed gets from `runUAT` of agent/uat.go.
use flightpatch.Beast.Escape.{read_frame}
use flightpatch.Beast.Frames.{read_frame-beast_receiver_frame, read_frame-avr_to_beast}
use flightpatch.Beast.Hex.{decode_string}
use flightpatch.Beast.{avr_text, avr_to_beast, beast_receiver_frame}
use flightpatch.Common.{
  ℕ, zero, suc, ◌+◌, Bool, true, List, [], ◌∷◌, ◌++◌, Option, none, some, if◌then◌else◌, if_case,
  option_else, length, ◌≡◌, refl, sym, ap, ◌∙◌, arith, append_assoc, append-nil,
}
use flightpatch.Relay.Uat.{not_written, Pipeline, Outcomes, Run, relay_lines, mark_down, send_all}
use flightpatch.Relay.{Write, sent}
use flightpatch.Stats.{set_connected, add_bytes}
use flightpatch.Text.{Str}

-- The bodies of the first frames of a stream, and the stream behind them.
pub read_frames : ℕ → Str → Option (List Str × Str)
read_frames zero s = some ([], s)
read_frames (suc n) s =
    option_else (read_frame s) none
      (λ f. option_else (read_frames n f.rest) none (λ t. some (f.body ∷ t.0, t.1)))

-- The body of a converted line: an empty timestamp, the signal level and the message.
abbrev pub body_of : Str → Str
body_of line =
    option_else (decode_string (avr_text line)) [] (λ raw. 0 ∷ 0 ∷ 0 ∷ 0 ∷ 0 ∷ 0 ∷ 0x80 ∷ raw)

-- Of the lines that convert: the frames, and the bodies that are meant.
abbrev pub frames_of : List (Str × Write) → List Str
frames_of [] = []
frames_of ((line, w) ∷ rest) =
    option_else (avr_to_beast line) (frames_of rest) (λ frame. frame ∷ frames_of rest)

abbrev pub bodies_of : List (Str × Write) → List Str
bodies_of [] = []
bodies_of ((line, w) ∷ rest) =
    option_else (avr_to_beast line) (bodies_of rest) (λ _. body_of line ∷ bodies_of rest)

abbrev pub concat : List Str → Str
concat [] = []
concat (s ∷ rest) = s ++ concat rest

-- Each frame is taken whole.
abbrev pub AllTaken : List (Str × Write) → Type 0
AllTaken [] = Unit
AllTaken ((line, w) ∷ rest) =
    option_else (avr_to_beast line) (AllTaken rest)
      (λ frame. (w.works ≡ true) × (sent w frame ≡ frame) × AllTaken rest)

-- The frames and the bodies of the lines, read off a stream.
abbrev Reads : List Str → List Str → Type 0
Reads frames bodies =
    (rest : Str) → read_frames (length frames) (concat frames ++ rest) ≡ some (bodies, rest)

body_of-eq :
    (line raw : Str)
    → decode_string (avr_text line) ≡ some raw
    → body_of line ≡ 0 ∷ 0 ∷ 0 ∷ 0 ∷ 0 ∷ 0 ∷ 0x80 ∷ raw
body_of-eq line raw e = rw e refl

read_one :
    (line frame : Str) (frames bodies : List Str)
    → avr_to_beast line ≡ some frame
    → Reads frames bodies
    → Reads (frame ∷ frames) (body_of line ∷ bodies)
unfolding read_frames
read_one line frame frames bodies found h rest =
    let (raw, t, decoded, read, _) = read_frame-avr_to_beast line (concat frames ++ rest) found in
    rw (append_assoc frame (concat frames) rest) (
      rw read (rw (h rest) (ap (λ b. some (b ∷ bodies, rest)) (sym (body_of-eq line raw decoded)))))

read_case :
    (line : Str) (frames bodies : List Str) (o : Option Str)
    → avr_to_beast line ≡ o
    → Reads frames bodies
    → Reads
        (option_else o frames (λ frame. frame ∷ frames))
        (option_else o bodies (λ _. body_of line ∷ bodies))
read_case line frames bodies none e h = h
read_case line frames bodies (some frame) e h = read_one line frame frames bodies e h

all_read : (lines : List (Str × Write)) → Reads (frames_of lines) (bodies_of lines)
unfolding read_frames
all_read [] rest = refl
all_read ((line, w) ∷ lines) rest =
    read_case line (frames_of lines) (bodies_of lines) (avr_to_beast line) refl (all_read lines)
      rest

-- What the relayed lines add to what was sent.
abbrev Sends : List (Str × Write) → Type 0
Sends lines =
    (scans : Bool) (k : ℕ) (p : Pipeline)
    → (relay_lines scans lines k p).1.sent_bytes ≡ p.sent_bytes ++ concat (frames_of lines)

sent_case :
    (w : Write) (rest : List (Str × Write)) (scans : Bool) (k : ℕ) (p : Pipeline) (o : Option Str)
    → option_else o
        (AllTaken rest)
        (λ frame. (w.works ≡ true) × (sent w frame ≡ frame) × AllTaken rest)
    → (AllTaken rest → Sends rest)
    → (option_else o (relay_lines scans rest k p) (λ frame.
        let p' : Pipeline = record p {
          stats = add_bytes p.stats (length (sent w frame));
          sent_bytes = p.sent_bytes ++ sent w frame;
        } in
        if w.works then relay_lines scans rest (k + 1) p' else (some not_written, p'))).1.sent_bytes
      ≡ p.sent_bytes ++ concat (option_else o (frames_of rest) (λ frame. frame ∷ frames_of rest))
sent_case w rest scans k p none taken ih = ih taken scans k p
sent_case w rest scans k p (some frame) taken ih =
    let p' : Pipeline = record p {
      stats = add_bytes p.stats (length (sent w frame));
      sent_bytes = p.sent_bytes ++ sent w frame;
    } in
    if_case (λ (r : Run). r.1.sent_bytes ≡ p.sent_bytes ++ (frame ++ concat (frames_of rest)))
      w.works
      (λ _.
        ih taken.2 scans (k + 1) p'
        ∙ ap (λ q. (p.sent_bytes ++ q) ++ concat (frames_of rest)) taken.1
        ∙ append_assoc p.sent_bytes frame (concat (frames_of rest)))
      (λ fails. absurd (ground (arith, taken.0)))

relay_lines-sent : (lines : List (Str × Write)) → AllTaken lines → Sends lines
unfolding relay_lines
relay_lines-sent [] taken scans k p = sym (append-nil p.sent_bytes)
relay_lines-sent ((line, w) ∷ rest) taken scans k p =
    sent_case w rest scans k p (avr_to_beast line) taken (relay_lines-sent rest)

mark_down-sent : (r : Run) → (mark_down r).1.sent_bytes ≡ r.1.sent_bytes
mark_down-sent (e, p) = refl

-- A pipeline that is connected, and whose writes are taken whole, sends a stream from which a Beast
-- reader gets the identity and then the messages of just the lines that convert, in order, and
-- nothing is left over.
pub send_all-read_frames :
    (receiver_id : Str) (o : Outcomes) (p : Pipeline)
    → length receiver_id ≡ 8
    → o.greeting.works ≡ true
    → sent o.greeting (beast_receiver_frame receiver_id) ≡ beast_receiver_frame receiver_id
    → AllTaken o.lines
    → p.sent_bytes ≡ []
    → read_frames (suc (length (frames_of o.lines))) (send_all receiver_id o p).1.sent_bytes
      ≡ some (receiver_id ∷ bodies_of o.lines, [])
unfolding send_all read_frames
send_all-read_frames receiver_id o p eight works whole taken fresh =
    let frame = beast_receiver_frame receiver_id in
    let p' : Pipeline = record p {
      sent_bytes = p.sent_bytes ++ sent o.greeting frame;
      stats = set_connected p.stats true;
    } in
    let body = concat (frames_of o.lines) in
    let stream : (relay_lines o.scans o.lines 0 p').1.sent_bytes ≡ frame ++ (body ++ []) =
      relay_lines-sent o.lines taken o.scans 0 p'
      ∙ ap (λ q. (q ++ sent o.greeting frame) ++ body) fresh
      ∙ ap (λ q. q ++ body) whole
      ∙ ap (λ q. frame ++ q) (sym (append-nil body)) in
    if_case
      (λ (r : Run).
        read_frames (suc (length (frames_of o.lines))) r.1.sent_bytes
        ≡ some (receiver_id ∷ bodies_of o.lines, []))
      o.greeting.works
      (λ _. rw (mark_down-sent (relay_lines o.scans o.lines 0 p') ∙ stream) (
        rw (read_frame-beast_receiver_frame receiver_id (body ++ []) eight)
          (rw (all_read o.lines []) refl)))
      (λ fails. absurd (ground arith))
