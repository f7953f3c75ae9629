-- ===== src/Update/Swap.antt =====
-- `selfUpdate` of agent/update.go.
use flightpatch.Common.{
  Bool, true, false, List, [], ◌∷◌, some, ◌≡◌, ◌⊎◌, inl, inr, refl, sym, ◌∙◌, Bool-cases,
}
use flightpatch.Dict.{lookup, insert, erase, lookup-insert, lookup-erase}
use flightpatch.Files.Paths.{
  append_ne, str_eq-append, exe_ne, rename-cases, rename-some, lookup-move, lookup-moved,
}
use flightpatch.Files.{Disk, Files, become, write, remove, rename}
use flightpatch.Text.Laws.{str_eq_refl}
use flightpatch.Text.{Str, codes, str_eq}
use flightpatch.Update.{
  Download, not_fetched, broken_off, fetched, download, Faults, swap, new_path, old_path,
  self_update, install,
}

pub new_ne_old : (exe : Str) → str_eq (new_path exe) (old_path exe) ≡ false
unfolding str_eq
new_ne_old exe = str_eq-append exe (codes ".new") (codes ".old")

pub old_ne_new : (exe : Str) → str_eq (old_path exe) (new_path exe) ≡ false
unfolding str_eq
old_ne_new exe = str_eq-append exe (codes ".old") (codes ".new")

module _ (exe program : Str) where
  -- The program that ran before the update is there, as the executable or beside it.
  abbrev pub IsRecoverable : Disk → Type 0
  IsRecoverable d = (lookup exe d ≡ some program) ⊎ (lookup (old_path exe) d ≡ some program)

  abbrev pub AllRecoverable : List Disk → Type 0
  AllRecoverable [] = Unit
  AllRecoverable (d ∷ ds) = IsRecoverable d × AllRecoverable ds

  -- The program stands at the path, and was never lost.
  pub record Stands (at : Str) (fs : Files) : Type 0 where
    pub here : lookup at fs.disk ≡ some program
    pub before : AllRecoverable fs.past

  write-Stands :
      (works : Bool) (p s : Str) (fs : Files)
      → str_eq p exe ≡ false
      → Stands exe fs
      → Stands exe (write works p s fs).1
  unfolding write
  write-Stands false p s fs ne h = h
  write-Stands true p s fs ne h =
      let opened : lookup exe (insert p [] fs.disk) ≡ some program =
        lookup-insert p exe [] fs.disk ∙ (rw ne h.here) in
      record {
        here = lookup-insert p exe s fs.disk ∙ (rw ne h.here);
        before = (inl opened, (inl h.here, h.before));
      }

  remove-Stands :
      (works : Bool) (p : Str) (fs : Files)
      → str_eq p exe ≡ false
      → Stands exe fs
      → Stands exe (remove works p fs).1
  unfolding remove
  remove-Stands false p fs ne h = h
  remove-Stands true p fs ne h = record {
    here = lookup-erase p exe fs.disk ∙ (rw ne h.here);
    before = (inl h.here, h.before);
  }

  moved_aside :
      (fs : Files)
      → Stands exe fs
      → Stands (old_path exe) (become (insert (old_path exe) program (erase exe fs.disk)) fs)
  moved_aside fs h = record {
    here = lookup-moved exe (old_path exe) program fs.disk;
    before = (inl h.here, h.before);
  }

  moved_back :
      (fs : Files)
      → Stands (old_path exe) fs
      → Stands exe (become (insert exe program (erase (old_path exe) fs.disk)) fs)
  moved_back fs h = record {
    here = lookup-moved (old_path exe) exe program fs.disk;
    before = (inr h.here, h.before);
  }

  installed :
      (s : Str) (fs : Files)
      → Stands (old_path exe) fs
      → Stands (old_path exe) (become (insert exe s (erase (new_path exe) fs.disk)) fs)
  installed s fs h = record {
    here =
        lookup-move (new_path exe) exe (old_path exe) s fs.disk (exe_ne exe (codes ".old") 3 refl)
          (new_ne_old exe)
        ∙ h.here;
    before = (inr h.here, h.before);
  }

  -- What an update may leave: what was downloaded as the executable, and the old program beside it;
  -- or, where it fails, the old program in its place, or beside it if moving it back was refused.
  abbrev pub Outcome : Download → Bool → Bool × Files → Type 0
  Outcome d rolls_back (ok, fs) =
      ((ok ≡ true)
        × ((s : Str) × ((d ≡ fetched s)
              × ((lookup exe fs.disk ≡ some s) × Stands (old_path exe) fs))))
      ⊎ ((ok ≡ false) × (Stands exe fs ⊎ ((rolls_back ≡ false) × Stands (old_path exe) fs)))

  roll_back_lem :
      (d : Download) (rolls_back : Bool) (fs : Files)
      → Stands (old_path exe) fs
      → Outcome d rolls_back (false, (rename rolls_back (old_path exe) exe fs).1)
  roll_back_lem d true fs h =
      inr (refl, inl (rw (rename-some (old_path exe) exe program fs h.here) (moved_back fs h)))
  roll_back_lem d false fs h = inr (refl, inr (refl, (unfold rename in h)))

  -- The new program stays where it was downloaded to while the old one is moved aside.
  aside-cases :
      (works : Bool) (fs : Files)
      → Stands exe fs
      → (rename works exe (old_path exe) fs ≡ (false, fs))
        ⊎ ((fs' : Files) × ((rename works exe (old_path exe) fs ≡ (true, fs'))
              × (Stands (old_path exe) fs'
                  × (lookup (new_path exe) fs'.disk ≡ lookup (new_path exe) fs.disk))))
  aside-cases false fs h = inl (unfold rename in refl)
  aside-cases true fs h = inr (
    become (insert (old_path exe) program (erase exe fs.disk)) fs,
    (
      rename-some exe (old_path exe) program fs h.here,
      (
        moved_aside fs h,
        lookup-move exe (old_path exe) (new_path exe) program fs.disk (old_ne_new exe)
            (exe_ne exe (codes ".new") 3 refl),
      ),
    ),
  )

  install_lem :
      (s : Str) (w : Faults) (fs : Files)
      → Stands (old_path exe) fs
      → lookup (new_path exe) fs.disk ≡ some s
      → Outcome (fetched s) w.rolls_back (install w exe fs)
  unfolding install
  install_lem s w fs h fresh = elim (rename-cases w.installs (new_path exe) exe fs) [
    | inl e ↦ rw e (roll_back_lem (fetched s) w.rolls_back fs h)
    | inr (x, (found, e)) ↦ rw e (
        inl (
          refl,
          (
            s,
            (
              refl,
              (lookup-moved (new_path exe) exe x fs.disk ∙ (sym found ∙ fresh), installed x fs h),
            ),
          ),
        ))
  ]

  remove-fresh :
      (works : Bool) (fs : Files)
      → lookup (new_path exe) (remove works (old_path exe) fs).1.disk
        ≡ lookup (new_path exe) fs.disk
  unfolding remove
  remove-fresh false fs = refl
  remove-fresh true fs =
      lookup-erase (old_path exe) (new_path exe) fs.disk ∙ rw (old_ne_new exe) refl

  swap_lem :
      (s : Str) (w : Faults) (fs : Files)
      → Stands exe fs
      → lookup (new_path exe) fs.disk ≡ some s
      → Outcome (fetched s) w.rolls_back (swap w exe fs)
  unfolding swap
  swap_lem s w fs h fresh =
      let fs2 = (remove w.removes_old (old_path exe) fs).1 in
      let h2 : Stands exe fs2 =
        remove-Stands w.removes_old (old_path exe) fs (append_ne exe (codes ".old") 3 refl) h in
      elim (aside-cases w.moves_aside fs2 h2) [
        | inl e ↦ rw e (
            inr (
              refl,
              inl (
                  remove-Stands w.removes_new (new_path exe) fs2
                    (append_ne exe (codes ".new") 3 refl) h2),
            ))
        | inr (fs', (e, (h', kept))) ↦
            rw e (install_lem s w fs' h' (kept ∙ (remove-fresh w.removes_old fs ∙ fresh)))
      ]

  write-fresh :
      (works : Bool) (s : Str) (fs : Files)
      → (write works (new_path exe) s fs).0 ≡ true
      → lookup (new_path exe) (write works (new_path exe) s fs).1.disk ≡ some s
  unfolding write
  write-fresh false s fs h = absurd cc
  write-fresh true s fs h =
      lookup-insert (new_path exe) (new_path exe) s fs.disk ∙ rw (str_eq_refl (new_path exe)) refl

  -- An update of a program that stands in its place, with every earlier disk recoverable, leaves a
  -- history in which the program was never lost. If the update succeeds, what was downloaded is the
  -- executable and the old program stands beside it; if it fails, the old program stands in its
  -- place, or beside it where moving it back was refused.
  pub self_update-Outcome :
      (d : Download) (w : Faults) (fs : Files)
      → Stands exe fs
      → Outcome d w.rolls_back (self_update (some exe) d w fs)
  unfolding self_update download
  self_update-Outcome not_fetched w fs h = inr (refl, inl h)
  self_update-Outcome (broken_off part) w fs h = inr (
    refl,
    inl (write-Stands w.creates (new_path exe) part fs (append_ne exe (codes ".new") 3 refl) h),
  )
  self_update-Outcome (fetched body) w fs h =
      let kept =
        write-Stands w.creates (new_path exe) body fs (append_ne exe (codes ".new") 3 refl) h in
      elim (Bool-cases (write w.creates (new_path exe) body fs).0) [
        | inl e ↦ rw e (
            swap_lem body w (write w.creates (new_path exe) body fs).1 kept
              (write-fresh w.creates body fs e))
        | inr e ↦ rw e (inr (refl, inl kept))
      ]
