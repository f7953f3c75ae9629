-- ===== src/Relay/Vdl2/Recorded.antt =====
-- What `runVDL2Forward` of agent/vdl2_forward.go adds to its history.
use flightpatch.Common.{
  ℕ, ◌&&◌, List, [], ◌∷◌, ◌++◌, Option, none, some, ltb, ◌==◌, Bool-cases, inl, inr, append_assoc,
  append-nil, sym, if◌then◌else◌, if_case, length, ◌≡◌, refl, ◌∙◌,
}
use flightpatch.Relay.Vdl2.{
  History, HistoryFiles, takes_all, append_entry, keep_entry, Setup, open_history,
}
use flightpatch.Relay.{Write, sent}
use flightpatch.Text.{Str}

-- A datagram that was relayed: its payload, what was sent of it, and the time and the write of its
-- entry.
pub record Sent : Type 0 where
  pub payload : Str
  pub bytes : Str
  pub at : ℕ
  pub recording : Write

-- What the datagrams that are valid add to the history: for each a line, as far as its write takes
-- it; the first write that takes less than the line, or fails, is the last one.
abbrev pub line_then : Option Str → Write → Str → Str
line_then none f rest = rest
line_then (some e) f rest =
    let line = e ++ 10 ∷ [] in
    sent f line ++ (if f.works && length (sent f line) == length line then rest else [])

abbrev pub lines_of : (ℕ → Str → Option Str) → List Sent → Str
lines_of entry [] = []
lines_of entry (x ∷ rest) = line_then (entry x.at x.payload) x.recording (lines_of entry rest)

-- The file to write to and the one put aside, once the history was opened.
abbrev pub history_begins : Setup → HistoryFiles → Option (Str × Option Str)
history_begins s h =
    if s.has_folder && s.opens
    then if ltb 16777216 (length h.content) && s.renames
      then some ([], some h.content)
      else some (h.content, h.previous)
    else none

-- The history at the end: there is none, or the text stands behind what was there.
abbrev pub Recorded : Str → Option (Str × Option Str) → Option History → Type 0
Recorded text none o = o ≡ none
Recorded text (some (c, previous)) o =
    (h : History) × ((o ≡ some h) × (h.files.content ≡ c ++ text) × (h.files.previous ≡ previous))

-- The same of a writer at any time: a broken one adds nothing.
abbrev pub Added : Str → Option History → Option History → Type 0
Added text none o = o ≡ none
Added text (some h) o =
    (h' : History) × ((o ≡ some h')
      × (h'.files.content ≡ h.files.content ++ (if h.broken then [] else text))
      × (h'.files.previous ≡ h.files.previous))

pub nothing-Added : (h : Option History) → Added [] h h
nothing-Added none = refl
nothing-Added (some h) =
    if_case
      (λ (t : Str).
        (h' : History) × ((some h ≡ some h')
          × (h'.files.content ≡ h.files.content ++ t)
          × (h'.files.previous ≡ h.files.previous)))
      h.broken (λ _. (h, (refl, sym (append-nil h.files.content), refl)))
      (λ _. (h, (refl, sym (append-nil h.files.content), refl)))

append_entry-Added :
    (e : Str) (f : Write) (h : History) (text : Str) (o : Option History)
    → Added text (some (append_entry e f h)) o
    → Added (line_then (some e) f text) (some h) o
append_entry-Added e f h text o a =
    let line = e ++ 10 ∷ [] in
    elim (Bool-cases h.broken) [
      | inl broken ↦ rw broken (rw broken at a)
      | inr works ↦ elim (Bool-cases (takes_all f line)) [
        | inl whole ↦
            let (h', (same, content, previous)) = rw (works, whole) at a in
            rw (works, whole)
              (h', (same, content ∙ append_assoc h.files.content (sent f line) text, previous))
        | inr short ↦
            let (h', (same, content, previous)) = rw (works, short) at a in
            rw (works, short)
              (h', (same, content ∙ append_assoc h.files.content (sent f line) [], previous))
      ]
    ]

pub keep_entry-Added :
    (e : Option Str) (f : Write) (h : Option History) (text : Str) (o : Option History)
    → Added text (keep_entry e f h) o
    → Added (line_then e f text) h o
keep_entry-Added none f h text o a = a
keep_entry-Added (some e) f none text o a = a
keep_entry-Added (some e) f (some h) text o a = append_entry-Added e f h text o a

pub opened_lem :
    (s : Setup) (h : HistoryFiles) (text : Str) (o : Option History)
    → Added text (if s.has_folder && s.opens then some (open_history s.renames h) else none) o
    → Recorded text (history_begins s h) o
unfolding open_history
opened_lem s h text o a = elim (Bool-cases (s.has_folder && s.opens)) [
  | inr closed ↦ rw closed (rw closed at a)
  | inl opened ↦ elim (Bool-cases (ltb 16777216 (length h.content) && s.renames)) [
    | inl large ↦ rw (opened, large) (rw (opened, large) at a)
    | inr small ↦ rw (opened, small) (rw (opened, small) at a)
  ]
]
