-- ===== src/Dongles/Cached.antt =====
-- What `enumerateDongles` of agent/dongles_windows.go lists, and what it remembers.
use flightpatch.Common.{
  ℕ, zero, suc, ◌+◌, ◌≤◌, ◌<◌, true, false, List, [], ◌∷◌, ◌++◌, Option, none, some, if_case,
  if◌then◌else◌, Bool-cases, inl, inr, ◌≡◌, refl, sym, ap, ◌∙◌, arith,
}
use flightpatch.Decoders.{Dongle}
use flightpatch.Dict.{lookup, insert, mem, lookup-insert, lookup-retain}
use flightpatch.Dongles.{
  Cache, Reading, port_at, dongle_of, recalled, list_dongle, list_dongles, is_present,
  enumerate_dongles, cstr,
}
use flightpatch.Text.Laws.{str_eq_iff}
use flightpatch.Text.{Str, str_eq, is_empty}

-- What is remembered of a port is a dongle at that port, and only ports that have a name have an entry.
abbrev pub IsCache : Cache → Type 0
IsCache cache =
    (port : Str) (d : Dongle)
    → lookup port cache ≡ some d
    → (d.port ≡ port) × (is_empty port ≡ false)

pub insert-IsCache :
    (port : Str) (new : Dongle) (cache : Cache)
    → new.port ≡ port
    → is_empty port ≡ false
    → IsCache cache
    → IsCache (insert port new cache)
insert-IsCache port new cache e named h = λ q d found.
    let here = sym (lookup-insert port q new cache) ∙ found in
    elim (Bool-cases (str_eq port q)) [
      | inl same ↦
          let p : port ≡ q = (str_eq_iff port q).0 same in
          let o : ◌≡◌ {A = Option Dongle} (some new) (some d) = rw same at here in
          let x : new ≡ d = cc in (ap (λ (y : Dongle). y.port) (sym x) ∙ e ∙ p, rw (sym p) named)
      | inr other ↦ let o : lookup q cache ≡ some d = rw other at here in h q d o
    ]

list_dongle-IsCache :
    (i : ℕ) (port : Str) (r : Reading) (cache : Cache)
    → IsCache cache
    → IsCache (list_dongle i port r cache).1
list_dongle-IsCache i port none cache h = h
list_dongle-IsCache i port (some t) cache h =
    if_case IsCache (is_empty port) (λ _. h)
      (λ named. insert-IsCache port (dongle_of i port t) cache refl named h)

list_dongles-IsCache :
    (i : ℕ) (rs : List Reading) (ports : List Str) (cache : Cache)
    → IsCache cache
    → IsCache (list_dongles i rs ports cache).1
unfolding list_dongles
list_dongles-IsCache i [] ports cache h = h
list_dongles-IsCache i (r ∷ rest) ports cache h =
    list_dongles-IsCache (i + 1) rest ports (list_dongle i (port_at ports i) r cache).1
      (list_dongle-IsCache i (port_at ports i) r cache h)

-- Each entry is of a port that is still enumerated.
abbrev pub IsPresent : List Str → Cache → Type 0
IsPresent ports cache =
    (port : Str) (d : Dongle) → lookup port cache ≡ some d → mem port ports ≡ true

-- After each enumeration the cache holds only dongles at the ports that they are remembered for, and
-- none of a port that is gone.
pub enumerate_dongles-IsPresent :
    (readings : List Reading) (ports : List Str) (cache : Cache)
    → IsCache cache
    → IsCache (enumerate_dongles true readings ports cache).1
      × IsPresent ports (enumerate_dongles true readings ports cache).1
unfolding enumerate_dongles
enumerate_dongles-IsPresent readings ports cache h =
    let cache' = (list_dongles 0 readings ports cache).1 in
    let kept = list_dongles-IsCache 0 readings ports cache h in
    (
      λ port d found. kept port d (ground (arith, lookup-retain (is_present ports) port cache')),
      λ port d found. ground (arith, lookup-retain (is_present ports) port cache'),
    )

-- The text in a string from C: what is in front of its first byte 0.
pub text_of : Str → Str
text_of [] = []
text_of (zero ∷ s) = []
text_of (suc c ∷ s) = suc c ∷ text_of s

cstr-text_of : (s : Str) → cstr s ≡ text_of s
unfolding cstr text_of
cstr-text_of [] = refl
cstr-text_of (zero ∷ s) = refl
cstr-text_of (suc c ∷ s) = ground (arith, cstr-text_of s)

-- What is to be listed of the device with an index at a port: the strings that were read, or those of
-- the dongle that was remembered.
abbrev pub shown : ℕ → Str → Reading → Option Dongle → List Dongle
shown i port (some (product, serial)) o =
    record { index = i; serial = text_of serial; product = text_of product; port = port } ∷ []
shown i port none none = []
shown i port none (some d) =
    if is_empty port
    then []
    else record { index = i; serial = d.serial; product = d.product; port = d.port } ∷ []

-- The list by the cache as it was before: each dongle by itself.
abbrev pub listed : ℕ → List Reading → List Str → Cache → List Dongle
listed i [] ports cache = []
listed i (r ∷ rest) ports cache =
    shown i (port_at ports i) r (lookup (port_at ports i) cache) ++ listed (i + 1) rest ports cache

recalled-shown : (i : ℕ) (port : Str) (o : Option Dongle) → recalled i port o ≡ shown i port none o
recalled-shown i port none = refl
recalled-shown i port (some d) = refl

list_dongle-shown :
    (i : ℕ) (port : Str) (r : Reading) (c : Cache)
    → (list_dongle i port r c).0 ≡ shown i port r (lookup port c)
list_dongle-shown i port none c = recalled-shown i port (lookup port c)
list_dongle-shown i port (some (product, serial)) c =
    rw (cstr-text_of serial, cstr-text_of product) refl

-- No two devices are at one port.
abbrev pub AreApart : List Str → Type 0
AreApart ports =
    (i j : ℕ)
    → i < j
    → is_empty (port_at ports j) ≡ false
    → str_eq (port_at ports i) (port_at ports j) ≡ false

-- Two caches agree on the ports from index `k` on.
abbrev Agree : ℕ → List Str → Cache → Cache → Type 0
Agree k ports c c' =
    (j : ℕ)
    → k ≤ j
    → is_empty (port_at ports j) ≡ false
    → lookup (port_at ports j) c ≡ lookup (port_at ports j) c'

blank_recalled :
    (i : ℕ) (port : Str) (o : Option Dongle) → is_empty port ≡ true → recalled i port o ≡ []
blank_recalled i port none e = refl
blank_recalled i port (some d) e = rw e refl

recalled-eq :
    (i : ℕ) (port : Str) (o o' : Option Dongle)
    → (is_empty port ≡ false → o ≡ o')
    → recalled i port o ≡ recalled i port o'
recalled-eq i port o o' h = elim (Bool-cases (is_empty port)) [
  | inr named ↦ ap (recalled i port) (h named)
  | inl blank ↦ blank_recalled i port o blank ∙ sym (blank_recalled i port o' blank)
]

shown-Agree :
    (i : ℕ) (ports : List Str) (r : Reading) (c c' : Cache)
    → Agree i ports c c'
    → shown i (port_at ports i) r (lookup (port_at ports i) c)
      ≡ shown i (port_at ports i) r (lookup (port_at ports i) c')
shown-Agree i ports none c c' h =
    let port = port_at ports i in
    sym (recalled-shown i port (lookup port c))
    ∙ recalled-eq i port (lookup port c) (lookup port c') (h i (omega arith))
    ∙ recalled-shown i port (lookup port c')
shown-Agree i ports (some t) c c' h = refl

listed-Agree :
    (i : ℕ) (rs : List Reading) (ports : List Str) (c c' : Cache)
    → Agree i ports c c'
    → listed i rs ports c ≡ listed i rs ports c'
listed-Agree i [] ports c c' h = refl
listed-Agree i (r ∷ rest) ports c c' h = rw (shown-Agree i ports r c c' h) (
    ap (λ l. shown i (port_at ports i) r (lookup (port_at ports i) c') ++ l)
      (listed-Agree (i + 1) rest ports c c' (λ j above named. h j (omega arith) named)))

after-Agree :
    (i : ℕ) (ports : List Str) (r : Reading) (c : Cache)
    → AreApart ports
    → Agree (i + 1) ports (list_dongle i (port_at ports i) r c).1 c
after-Agree i ports none c apart j above named = refl
after-Agree i ports (some t) c apart j above named =
    if_case (λ (x : Cache). lookup (port_at ports j) x ≡ lookup (port_at ports j) c)
      (is_empty (port_at ports i)) (λ _. refl)
      (λ _.
        lookup-insert (port_at ports i) (port_at ports j) (dongle_of i (port_at ports i) t) c
        ∙ (rw (apart i j (omega arith) named) refl))

list_dongles-listed :
    (i : ℕ) (rs : List Reading) (ports : List Str) (c : Cache)
    → AreApart ports
    → (list_dongles i rs ports c).0 ≡ listed i rs ports c
unfolding list_dongles
list_dongles-listed i [] ports c apart = refl
list_dongles-listed i (r ∷ rest) ports c apart =
    let one = list_dongle i (port_at ports i) r c in
    ap (λ l. one.0 ++ l)
      (list_dongles-listed (i + 1) rest ports one.1 apart
        ∙ listed-Agree (i + 1) rest ports one.1 c (after-Agree i ports r c apart))
    ∙ ap (λ l. l ++ listed (i + 1) rest ports c) (list_dongle-shown i (port_at ports i) r c)

-- Where no two devices are at one port, the list is that of each device by itself: one whose strings
-- can be read is listed with its serial and its product, each up to its first byte 0, at its index
-- and port; one whose strings cannot be read with the serial and the product that its port was last
-- remembered for, under its present index, or not at all.
pub enumerate_dongles-listed :
    (readings : List Reading) (ports : List Str) (cache : Cache)
    → AreApart ports
    → (enumerate_dongles true readings ports cache).0 ≡ listed 0 readings ports cache
unfolding enumerate_dongles
enumerate_dongles-listed readings ports cache apart =
    list_dongles-listed 0 readings ports cache apart
