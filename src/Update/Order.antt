-- ===== src/Update/Order.antt =====
-- The comparison of versions in agent/update.go, and the choice of an update that it decides.
use flightpatch.Common.{
  ◌<◌, List, [], ◌∷◌, ◌++◌, some, true, false, ltb, Bool-cases, inl, inr, ◌≡◌, ◌⊎◌, refl, sym, ap,
  arith,
}
use flightpatch.Text.Laws.{str_eq_iff, str_eq_refl}
use flightpatch.Text.{Str, str_eq, is_empty}
use flightpatch.Update.{
  Version, parse_ver, is_newer, semver_newer, released, check_update, find_asset, GhRelease, Asset,
  has_suffix,
}

is_newer_trans : (a b c : Version) → is_newer a b ≡ true → is_newer b c ≡ true → is_newer a c ≡ true
unfolding is_newer
is_newer_trans (a0, a1, a2) (b0, b1, b2) (c0, c1, c2) h k = ground arith

is_newer_irrefl : (a : Version) → is_newer a a ≡ false
unfolding is_newer
is_newer_irrefl (a0, a1, a2) = ground arith

is_newer_asym : (a b : Version) → is_newer a b ≡ true → is_newer b a ≡ false
unfolding is_newer
is_newer_asym (a0, a1, a2) (b0, b1, b2) h = ground arith

is_newer_connected : (a b : Version) → is_newer a b ≡ false → is_newer b a ≡ false → a ≡ b
unfolding is_newer
is_newer_connected (a0, a1, a2) (b0, b1, b2) h k =
    let e0 : a0 ≡ b0 = ground arith in
    let e1 : a1 ≡ b1 = ground arith in let e2 : a2 ≡ b2 = ground arith in cc

-- A tag that is newer than a newer tag is newer.
pub semver_newer_trans :
    (a b c : Str) → semver_newer a b ≡ true → semver_newer b c ≡ true → semver_newer a c ≡ true
unfolding semver_newer
semver_newer_trans a b c h k = is_newer_trans (parse_ver a) (parse_ver b) (parse_ver c) h k

newer_or_not :
    (a b : Version)
    → ((is_newer a b ≡ true) × (is_newer b a ≡ false))
      ⊎ (((is_newer a b ≡ false) × (is_newer b a ≡ true))
          ⊎ ((a ≡ b) × ((is_newer a b ≡ false) × (is_newer b a ≡ false))))
newer_or_not a b = elim (Bool-cases (is_newer a b)) [
  | inl h ↦ inl (h, is_newer_asym a b h)
  | inr h ↦ elim (Bool-cases (is_newer b a)) [
    | inl k ↦ inr (inl (h, k))
    | inr k ↦ inr (inr (is_newer_connected a b h k, (h, k)))
  ]
]

-- Of two tags one is newer and the other is not, or neither is and they parse to the same version.
pub semver_newer_trichotomy :
    (a b : Str)
    → ((semver_newer a b ≡ true) × (semver_newer b a ≡ false))
      ⊎ (((semver_newer a b ≡ false) × (semver_newer b a ≡ true))
          ⊎ ((parse_ver a ≡ parse_ver b)
              × ((semver_newer a b ≡ false) × (semver_newer b a ≡ false))))
unfolding semver_newer
semver_newer_trichotomy a b = newer_or_not (parse_ver a) (parse_ver b)

offer_newer :
    (suf current tag url : Str) (rel : GhRelease)
    → check_update suf current (released rel) ≡ some (tag, url)
    → is_empty tag ≡ false
    → (tag ≡ rel.tag_name)
      × ((semver_newer current tag ≡ true) × (find_asset suf rel.assets ≡ some url))
unfolding check_update
offer_newer suf current tag url rel h k = ground arith

not_offered_again :
    (suf tag : Str) (rel : GhRelease)
    → tag ≡ rel.tag_name
    → check_update suf tag (released rel) ≡ some ([], [])
unfolding check_update semver_newer
not_offered_again suf tag rel e = rw (sym e) (rw (is_newer_irrefl (parse_ver tag)) refl)

-- One version comes before another: by the major number, then by the minor one, then by the patch
-- level.
abbrev pub Precedes : Version → Version → Type 0
Precedes (a0, a1, a2) (b0, b1, b2) = (a0 < b0) ⊎ ((a0 ≡ b0) × ((a1 < b1) ⊎ ((a1 ≡ b1) × (a2 < b2))))

is_newer-Precedes : (a b : Version) → is_newer a b ≡ true → Precedes a b
unfolding is_newer
is_newer-Precedes (a0, a1, a2) (b0, b1, b2) h = elim (Bool-cases (ltb a0 b0)) [
  | inl l ↦ inl (ground arith)
  | inr m ↦ inr (
    ground arith,
    elim (Bool-cases (ltb a1 b1)) [
      | inl l ↦ inl (ground arith)
      | inr n ↦ inr (ground arith, ground arith)
    ],
  )
]

abbrev pub EndsIn : Str → Str → Type 0
EndsIn suf name = (front : Str) × (name ≡ front ++ suf)

has_suffix-EndsIn : (name suf : Str) → has_suffix name suf ≡ true → EndsIn suf name
unfolding has_suffix
has_suffix-EndsIn [] [] h = ([], refl)
has_suffix-EndsIn [] (c ∷ suf) h = absurd cc
has_suffix-EndsIn (x ∷ xs) suf h = elim (Bool-cases (str_eq (x ∷ xs) suf)) [
  | inl e ↦ ([], (str_eq_iff (x ∷ xs) suf).0 e)
  | inr e ↦
      let (front, same) = has_suffix-EndsIn xs suf (ground arith) in
      (x ∷ front, ap (λ l. x ∷ l) same)
]

has_suffix-append : (front suf : Str) → has_suffix (front ++ suf) suf ≡ true
unfolding has_suffix
has_suffix-append [] [] = refl
has_suffix-append [] (c ∷ suf) = rw (str_eq_refl (c ∷ suf)) refl
has_suffix-append (x ∷ front) suf = ground (arith, has_suffix-append front suf)

not_EndsIn : (name suf : Str) → has_suffix name suf ≡ false → ¬ EndsIn suf name
not_EndsIn name suf h = λ ends.
    let (front, same) = ends in
    let found : has_suffix name suf ≡ true = rw same (has_suffix-append front suf) in cc

abbrev pub NoneEndsIn : Str → List Asset → Type 0
NoneEndsIn suf [] = Unit
NoneEndsIn suf (a ∷ assets) = (¬ EndsIn suf a.name) × NoneEndsIn suf assets

-- The address of the first asset whose name ends in `suf`.
abbrev pub FirstAsset : Str → Str → List Asset → Type 0
FirstAsset suf url assets =
    (front back : List Asset) × ((a : Asset) × ((assets ≡ front ++ a ∷ back)
        × (a.url ≡ url)
        × EndsIn suf a.name
        × NoneEndsIn suf front))

find_asset-FirstAsset :
    (suf url : Str) (assets : List Asset)
    → find_asset suf assets ≡ some url
    → FirstAsset suf url assets
unfolding find_asset
find_asset-FirstAsset suf url [] h = absurd cc
find_asset-FirstAsset suf url (a ∷ rest) h = elim (Bool-cases (has_suffix a.name suf)) [
  | inl e ↦ ([], rest, (a, (refl, ground arith, has_suffix-EndsIn a.name suf e, tt)))
  | inr e ↦
      let (front, back, (b, (same, at, ends, before))) =
        find_asset-FirstAsset suf url rest (ground arith) in
      (a ∷ front, back, (b, (ap (λ l. a ∷ l) same, at, ends, (not_EndsIn a.name suf e, before))))
]

-- A release that is offered has the tag that is given, and its version comes behind that of the
-- running program, by the major number, then the minor one, then the patch level; the address is
-- that of the first of its assets whose name ends in the suffix of the platform; and a program that
-- runs under this tag is not offered the release again.
pub check_update-settles :
    (suf current tag url : Str) (rel : GhRelease)
    → check_update suf current (released rel) ≡ some (tag, url)
    → is_empty tag ≡ false
    → (tag ≡ rel.tag_name)
      × (Precedes (parse_ver current) (parse_ver tag)
          × (FirstAsset suf url rel.assets × (check_update suf tag (released rel) ≡ some ([], []))))
unfolding semver_newer
check_update-settles suf current tag url rel h k =
    let (e, (newer, found)) = offer_newer suf current tag url rel h k in
    (
      e,
      (
        is_newer-Precedes (parse_ver current) (parse_ver tag) newer,
        (find_asset-FirstAsset suf url rel.assets found, not_offered_again suf tag rel e),
      ),
    )
