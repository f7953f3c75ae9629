-- ===== src/Update/Installed.antt =====
-- `selfUpdate` of agent/update.go: the bytes that it installs.
use flightpatch.Common.{Bool, true, false, some, ◌≡◌, inl, inr, refl, sym, ◌∙◌, arith, Bool-cases}
use flightpatch.Dict.{lookup, insert, erase, lookup-insert, lookup-erase}
use flightpatch.Files.{Files, write, remove, become}
use flightpatch.Text.Laws.{str_eq_refl}
use flightpatch.Text.{Str, codes}
use flightpatch.Files.Paths.{exe_ne, rename-cases, lookup-move, lookup-moved}
use flightpatch.Update.Swap.{old_ne_new}
use flightpatch.Update.{
  Download, not_fetched, broken_off, fetched, download, Faults, install, swap, new_path, old_path,
  self_update,
}

module _ (exe body : Str) where
  -- If it succeeds, the executable holds the new program.
  abbrev Holds : Bool × Files → Type 0
  Holds (ok, fs) = ok ≡ true → lookup exe fs.disk ≡ some body

  abbrev Waits : Files → Type 0
  Waits fs = lookup (new_path exe) fs.disk ≡ some body

  install-Holds : (w : Faults) (fs : Files) → Waits fs → Holds (install w exe fs)
  unfolding install
  install-Holds w fs h = elim (rename-cases w.installs (new_path exe) exe fs) [
    | inl e ↦ rw e (λ ok. absurd (ground arith))
    | inr (s, (found, e)) ↦ rw e (λ ok. lookup-moved (new_path exe) exe s fs.disk ∙ sym found ∙ h)
  ]

  remove-Waits : (works : Bool) (fs : Files) → Waits fs → Waits (remove works (old_path exe) fs).1
  unfolding remove
  remove-Waits false fs h = h
  remove-Waits true fs h =
      lookup-erase (old_path exe) (new_path exe) fs.disk ∙ (rw (old_ne_new exe) h)

  swap-Holds : (w : Faults) (fs : Files) → Waits fs → Holds (swap w exe fs)
  unfolding swap
  swap-Holds w fs h =
      let fs2 = (remove w.removes_old (old_path exe) fs).1 in
      let h2 : Waits fs2 = remove-Waits w.removes_old fs h in
      elim (rename-cases w.moves_aside exe (old_path exe) fs2) [
        | inl e ↦ rw e (λ ok. absurd (ground arith))
        | inr (s, (found, e)) ↦ rw e (
            install-Holds w (become (insert (old_path exe) s (erase exe fs2.disk)) fs2) (
              lookup-move exe (old_path exe) (new_path exe) s fs2.disk (old_ne_new exe)
                (exe_ne exe (codes ".new") 3 refl)
              ∙ h2))
      ]

  write-Waits :
      (works : Bool) (fs : Files)
      → (write works (new_path exe) body fs).0 ≡ true
      → Waits (write works (new_path exe) body fs).1
  unfolding write
  write-Waits false fs h = absurd (ground arith)
  write-Waits true fs h =
      lookup-insert (new_path exe) (new_path exe) body fs.disk
      ∙ (rw (str_eq_refl (new_path exe)) refl)

  fetched-Holds : (w : Faults) (fs : Files) → Holds (self_update (some exe) (fetched body) w fs)
  unfolding self_update download
  fetched-Holds w fs = elim (Bool-cases (write w.creates (new_path exe) body fs).0) [
    | inl e ↦
        rw e (swap-Holds w (write w.creates (new_path exe) body fs).1 (write-Waits w.creates fs e))
    | inr e ↦ rw e (λ ok. absurd (ground arith))
  ]

-- An update that succeeds was downloaded to its end, and its bytes are in the place of the program.
pub self_update-fetched :
    (exe : Str) (d : Download) (w : Faults) (fs : Files)
    → (self_update (some exe) d w fs).0 ≡ true
    → (body : Str) × ((d ≡ fetched body)
        × (lookup exe (self_update (some exe) d w fs).1.disk ≡ some body))
unfolding self_update download
self_update-fetched exe not_fetched w fs h = absurd (ground arith)
self_update-fetched exe (broken_off part) w fs h = absurd (ground arith)
self_update-fetched exe (fetched body) w fs h = (body, (refl, fetched-Holds exe body w fs h))
