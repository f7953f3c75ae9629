-- ===== src/Dict.antt =====
-- Go maps with string keys, as association lists. A loop over a map visits the keys in the order of
-- the list; the source leaves that order open, and no theorem depends on it.
use flightpatch.Common.{
  Bool, false, ◌||◌, List, [], ◌∷◌, Option, none, some, if◌then◌else◌, ◌≡◌, refl, arith,
}
use flightpatch.Text.Laws.{str_eq_iff}
use flightpatch.Text.{Str, str_eq}

module _ {ℓ} {V : Type ℓ} where
  unfoldable pub lookup : Str → List (Str × V) → Option V
  lookup k [] = none
  lookup k ((j, v) ∷ m) = if str_eq j k then some v else lookup k m

  -- `m[k] = v`
  unfoldable pub insert : Str → V → List (Str × V) → List (Str × V)
  insert k v [] = (k, v) ∷ []
  insert k v ((j, w) ∷ m) = if str_eq j k then (k, v) ∷ m else (j, w) ∷ insert k v m

  -- `delete(m, k)`
  unfoldable pub erase : Str → List (Str × V) → List (Str × V)
  erase k [] = []
  erase k ((j, v) ∷ m) = let rest = erase k m in if str_eq j k then rest else (j, v) ∷ rest

  -- The loop that deletes each key which does not pass the test.
  unfoldable pub retain : (Str → Bool) → List (Str × V) → List (Str × V)
  retain keep [] = []
  retain keep ((j, v) ∷ m) = let rest = retain keep m in if keep j then (j, v) ∷ rest else rest

  -- The keys that do not pass.
  unfoldable pub dropped : (Str → Bool) → List (Str × V) → List Str
  dropped keep [] = []
  dropped keep ((j, v) ∷ m) = let rest = dropped keep m in if keep j then rest else j ∷ rest

  pub lookup-insert :
      (k j : Str) (v : V) (m : List (Str × V))
      → lookup j (insert k v m) ≡ (if str_eq k j then some v else lookup j m)
  unfolding lookup insert
  lookup-insert k j v [] = refl
  lookup-insert k j v ((i, w) ∷ m) =
      ground (arith, str_eq_iff k j, str_eq_iff i k, str_eq_iff i j, lookup-insert k j v m)

  pub lookup-erase :
      (k j : Str) (m : List (Str × V))
      → lookup j (erase k m) ≡ (if str_eq k j then none else lookup j m)
  unfolding lookup erase
  lookup-erase k j [] = ground arith
  lookup-erase k j ((i, w) ∷ m) =
      ground (arith, str_eq_iff k j, str_eq_iff i k, str_eq_iff i j, lookup-erase k j m)

  pub lookup-retain :
      (keep : Str → Bool) (j : Str) (m : List (Str × V))
      → lookup j (retain keep m) ≡ (if keep j then lookup j m else none)
  unfolding lookup retain
  lookup-retain keep j [] = ground arith
  lookup-retain keep j ((i, w) ∷ m) = ground (arith, str_eq_iff i j, lookup-retain keep j m)

-- `seen[k]` for a map into Booleans.
unfoldable pub mem : Str → List Str → Bool
mem k [] = false
mem k (j ∷ js) = str_eq j k || mem k js
