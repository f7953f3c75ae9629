-- ===== src/Files/Paths.antt =====
-- Paths that differ by a suffix, and what a rename does to the files.
use flightpatch.Common.{
  ℕ, suc, Bool, true, false, [], ◌∷◌, ◌++◌, some, ◌≡◌, ◌⊎◌, inl, inr, ap, refl, ◌∙◌, arith, length,
  length-append, Option-cases,
}
use flightpatch.Dict.{lookup, insert, erase, lookup-insert, lookup-erase}
use flightpatch.Files.{Disk, Files, rename, become}
use flightpatch.Text.Laws.{str_eq_refl, str_eq-false}
use flightpatch.Text.{Str, str_eq}

pub append_ne : (s t : Str) (n : ℕ) → length t ≡ suc n → str_eq (s ++ t) s ≡ false
append_ne s t n h = str_eq-false (s ++ t) s (λ e. omega (arith, h, length-append s t, ap length e))

pub str_eq-append : (s t u : Str) → str_eq (s ++ t) (s ++ u) ≡ str_eq t u
unfolding str_eq
str_eq-append [] t u = refl
str_eq-append (x ∷ s) t u = ground (arith, str_eq-append s t u)

pub exe_ne : (exe t : Str) (n : ℕ) → length t ≡ suc n → str_eq exe (exe ++ t) ≡ false
exe_ne exe t n h =
    str_eq-false exe (exe ++ t) (λ e. omega (arith, h, length-append exe t, ap length e))

-- A rename that does nothing, or one that moves a file.
pub rename-cases :
    (works : Bool) (from to : Str) (fs : Files)
    → (rename works from to fs ≡ (false, fs))
      ⊎ ((s : Str) × ((lookup from fs.disk ≡ some s)
            × (rename works from to fs ≡ (true, become (insert to s (erase from fs.disk)) fs))))
unfolding rename
rename-cases false from to fs = inl refl
rename-cases true from to fs = elim (Option-cases (lookup from fs.disk)) [
  | inl e ↦ inl (rw e refl)
  | inr (s, e) ↦ inr (s, (e, rw e refl))
]

-- Where the source exists, the rename fails only if the system refuses it.
pub rename-some :
    (from to s : Str) (fs : Files)
    → lookup from fs.disk ≡ some s
    → rename true from to fs ≡ (true, become (insert to s (erase from fs.disk)) fs)
unfolding rename
rename-some from to s fs e = rw e refl

pub lookup-move :
    (from to j s : Str) (d : Disk)
    → str_eq to j ≡ false
    → str_eq from j ≡ false
    → lookup j (insert to s (erase from d)) ≡ lookup j d
lookup-move from to j s d h k =
    lookup-insert to j s (erase from d) ∙ (rw h (lookup-erase from j d ∙ (rw k refl)))

pub lookup-moved : (from to s : Str) (d : Disk) → lookup to (insert to s (erase from d)) ≡ some s
lookup-moved from to s d = lookup-insert to to s (erase from d) ∙ (rw (str_eq_refl to) refl)

-- The outcome and the disk, without the disks before it.
abbrev pub Alike : Bool × Files → Bool × Files → Type 0
Alike (b, fs) (b', fs') = (b ≡ b') × (fs.disk ≡ fs'.disk)

pub rename-Alike :
    (works : Bool) (from to : Str) (fs fs' : Files)
    → fs.disk ≡ fs'.disk
    → Alike (rename works from to fs) (rename works from to fs')
unfolding rename
rename-Alike false from to fs fs' e = (refl, e)
rename-Alike true from to fs fs' e = elim (Option-cases (lookup from fs'.disk)) [
  | inl none_there ↦ rw e (rw none_there (refl, refl))
  | inr (s, there) ↦ rw e (rw there (refl, refl))
]
