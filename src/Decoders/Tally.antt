-- ===== src/Decoders/Tally.antt =====
-- How often a name is in a list, a key in a map, and a start or a stop in the events of `run` of
-- agent/decoders.go.
use flightpatch.Common.{
  ℕ, ◌+◌, ◌≤◌, Bool, List, [], ◌∷◌, ◌++◌, map, none, some, if◌then◌else◌, Bool-cases, inl, inr, ◌≡◌,
  refl, sym, arith,
}
use flightpatch.Decoders.{
  Event, decoder_started, decoder_stopped, forwarder_started, forwarder_stopped,
}
use flightpatch.Dict.{lookup, insert, erase, retain, dropped}
use flightpatch.Text.Laws.{str_eq_iff}
use flightpatch.Text.{Str, str_eq}

abbrev pub one_if : Bool → ℕ
one_if b = if b then 1 else 0

-- How often a name is in a list, and a key in a map.
pub count_name : Str → List Str → ℕ
count_name k [] = 0
count_name k (j ∷ js) = one_if (str_eq j k) + count_name k js

module _ {ℓ} {V : Type ℓ} where
  unfoldable pub count_key : Str → List (Str × V) → ℕ
  count_key k [] = 0
  count_key k ((j, v) ∷ m) = one_if (str_eq j k) + count_key k m

  pub count_key-insert :
      (k j : Str) (v : V) (m : List (Str × V))
      → lookup k m ≡ none
      → count_key j (insert k v m) ≡ one_if (str_eq k j) + count_key j m
  unfolding count_key lookup insert
  count_key-insert k j v [] h = refl
  count_key-insert k j v ((i, w) ∷ m) h = elim (Bool-cases (str_eq i k)) [
    | inl same ↦ absurd (ground (arith, same, h))
    | inr other ↦
        let e : lookup k m ≡ none = rw other at h in
        rw other (rw (count_key-insert k j v m e) (omega arith))
  ]

  pub count_key-erase :
      (k j : Str) (m : List (Str × V))
      → count_key j (erase k m) ≡ (if str_eq k j then 0 else count_key j m)
  unfolding count_key erase
  count_key-erase k j [] = ground arith
  count_key-erase k j ((i, w) ∷ m) =
      ground (arith, str_eq_iff k j, str_eq_iff i k, str_eq_iff i j, count_key-erase k j m)

  pub count_key-lookup :
      (k : Str) (v : V) (m : List (Str × V)) → lookup k m ≡ some v → 1 ≤ count_key k m
  unfolding count_key lookup
  count_key-lookup k v [] h = absurd cc
  count_key-lookup k v ((i, w) ∷ m) h = elim (Bool-cases (str_eq i k)) [
    | inl same ↦ rw same (omega arith)
    | inr other ↦
        let e : lookup k m ≡ some v = rw other at h in
        rw other (omega (arith, count_key-lookup k v m e))
  ]

  pub count_key-absent : (k : Str) (m : List (Str × V)) → lookup k m ≡ none → count_key k m ≡ 0
  unfolding count_key lookup
  count_key-absent k [] h = refl
  count_key-absent k ((i, w) ∷ m) h = elim (Bool-cases (str_eq i k)) [
    | inl same ↦ absurd (ground (arith, same, h))
    | inr other ↦
        let e : lookup k m ≡ none = rw other at h in
        rw other (omega (arith, count_key-absent k m e))
  ]

  pub count_key-retain :
      (keep : Str → Bool) (k : Str) (m : List (Str × V))
      → count_name k (dropped keep m) + count_key k (retain keep m) ≡ count_key k m
  unfolding count_key count_name retain dropped
  count_key-retain keep k [] = refl
  count_key-retain keep k ((i, w) ∷ m) = ground (arith, count_key-retain keep k m)

-- How often decoders and relays are started and stopped under a key.
abbrev pub starts : Str → Event → ℕ
starts k (decoder_started j) = one_if (str_eq j k)
starts k (decoder_stopped j) = 0
starts k (forwarder_started j) = 0
starts k (forwarder_stopped j) = 0

abbrev pub stops : Str → Event → ℕ
stops k (decoder_started j) = 0
stops k (decoder_stopped j) = one_if (str_eq j k)
stops k (forwarder_started j) = 0
stops k (forwarder_stopped j) = 0

abbrev pub relay_starts : Str → Event → ℕ
relay_starts k (decoder_started j) = 0
relay_starts k (decoder_stopped j) = 0
relay_starts k (forwarder_started j) = one_if (str_eq j k)
relay_starts k (forwarder_stopped j) = 0

abbrev pub relay_stops : Str → Event → ℕ
relay_stops k (decoder_started j) = 0
relay_stops k (decoder_stopped j) = 0
relay_stops k (forwarder_started j) = 0
relay_stops k (forwarder_stopped j) = one_if (str_eq j k)

unfoldable pub tally : (Event → ℕ) → List Event → ℕ
tally f [] = 0
tally f (e ∷ es) = f e + tally f es

pub tally-append :
    (f : Event → ℕ) (xs ys : List Event) → tally f (xs ++ ys) ≡ tally f xs + tally f ys
unfolding tally
tally-append f [] ys = omega arith
tally-append f (e ∷ es) ys = omega (arith, tally-append f es ys)

pub tally-map {ℓ} :
    {A : Type ℓ} (f : Event → ℕ) (g : A → Event) (h : A → ℕ) (total : List A → ℕ) (xs : List A)
    → total [] ≡ 0
    → ((x : A) (ys : List A) → total (x ∷ ys) ≡ h x + total ys)
    → ((x : A) → f (g x) ≡ h x)
    → tally f (map g xs) ≡ total xs
unfolding tally
tally-map f g h total [] empty step e = sym empty
tally-map f g h total (x ∷ xs) empty step e =
    omega (arith, e x, step x xs, tally-map f g h total xs empty step e)

pub tally-map-names :
    (f : Event → ℕ) (g : Str → Event) (k : Str) (js : List Str)
    → ((j : Str) → f (g j) ≡ one_if (str_eq j k))
    → tally f (map g js) ≡ count_name k js
unfolding count_name
tally-map-names f g k js e =
    tally-map f g (λ j. one_if (str_eq j k)) (count_name k) js refl (λ j ys. refl) e

pub tally-map-keys :
    {V : Type 0} (f : Event → ℕ) (g : Str → Event) (k : Str) (m : List (Str × V))
    → ((j : Str) → f (g j) ≡ one_if (str_eq j k))
    → tally f (map (λ t. g t.0) m) ≡ count_key k m
unfolding count_key
tally-map-keys f g k m e =
    tally-map f (λ t. g t.0) (λ t. one_if (str_eq t.0 k)) (count_key k) m refl (λ t ys. refl)
      (λ t. e t.0)

pub tally-map-zero {ℓ} :
    {A : Type ℓ} (f : Event → ℕ) (g : A → Event) (xs : List A)
    → ((x : A) → f (g x) ≡ 0)
    → tally f (map g xs) ≡ 0
tally-map-zero f g xs e = tally-map f g (λ _. 0) (λ _. 0) xs refl (λ x ys. refl) e
