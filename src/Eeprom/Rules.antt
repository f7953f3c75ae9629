-- ===== src/Eeprom/Rules.antt =====
-- Rules for the actions on a dongle's EEPROM, on hardware that does what its driver says.
use flightpatch.Common.{
  Bool, true, false, ◌++◌, Option, none, some, drop, length, ◌≡◌, refl, sym, ap, ◌∙◌, arith,
}
use mathlib.Core.Path.{subst}
use flightpatch.Eeprom.Device.{
  Driver, Machine, Failure, Result, ok, err, M, bind, or_fail, check, read_chip, write_chip,
  read_eeprom, write_eeprom,
}
use flightpatch.Files.{Files}
use flightpatch.Text.{Str}

-- What holds of each outcome of an action.
abbrev pub Post :
    {S A : Type 0}
    → (A → Machine S → Type 0)
    → (Failure → Machine S → Type 0)
    → Result A × Machine S
    → Type 0
Post Q E (ok a, m) = Q a m
Post Q E (err e, m) = E e m

-- The rules for a step and what follows it: `k` is taken on from where the step succeeds.
module _ {S A B : Type 0} (Q : B → Machine S → Type 0) (E : Failure → Machine S → Type 0)
    (k : A → M S B) (e : Failure) (m : Machine S) where
  pub or_fail_then :
      (o : Option A)
      → ((a : A) → o ≡ some a → Post Q E (k a m))
      → (o ≡ none → E e m)
      → Post Q E (bind (or_fail o e m).0 k (or_fail o e m).1)
  or_fail_then none q h = h refl
  or_fail_then (some a) q h = q a refl

module _ {S B : Type 0} (Q : B → Machine S → Type 0) (E : Failure → Machine S → Type 0)
    (k : Unit {0} → M S B) (e : Failure) (m : Machine S) where
  pub check_then :
      (b : Bool)
      → (b ≡ true → Post Q E (k tt m))
      → (b ≡ false → E e m)
      → Post Q E (bind (check b e m).0 k (check b e m).1)
  check_then true q h = q refl
  check_then false q h = h refl

pub check-Post :
    {S : Type 0} (Q : Unit {0} → Machine S → Type 0) (E : Failure → Machine S → Type 0) (b : Bool)
    (e : Failure) (m : Machine S)
    → (b ≡ true → Q tt m)
    → (b ≡ false → E e m)
    → Post Q E (check b e m)
check-Post Q E true e m q h = q refl
check-Post Q E false e m q h = h refl

-- `rtlsdr_read_eeprom` gives what is stored, and `rtlsdr_write_eeprom` stores what it is given; only a
-- write that fails may leave anything.
pub record IsFaithful {S : Type 0} (d : Driver S) (content : S → Str) : Type 0 where
  pub opens : (s : S) → content (d.open_device s).1 ≡ content s
  pub closes : (s : S) → content (d.close_device s) ≡ content s
  pub reads : (s : S) → content (d.read_bytes s).1 ≡ content s
  pub gives : (s : S) (bytes : Str) → (d.read_bytes s).0 ≡ some bytes → bytes ≡ content s
  pub stores :
      (s : S) (bytes : Str)
      → (d.write_bytes bytes s).0 ≡ true
      → content (d.write_bytes bytes s).1 ≡ bytes ++ drop (length bytes) (content s)

module _ {S : Type 0} (d : Driver S) (loaded : Bool) (content : S → Str)
    (f : IsFaithful d content) where
  read_chip-content : (s : S) → content (read_chip d loaded s).1 ≡ content s
  unfolding read_chip
  read_chip-content s =
      ground (
        arith,
        f.opens s,
        f.reads (d.open_device s).1,
        f.closes (d.read_bytes (d.open_device s).1).1,
      )

  read_chip_gives :
      (s : S) (bytes : Str) → (read_chip d loaded s).0 ≡ some bytes → bytes ≡ content s
  unfolding read_chip
  read_chip_gives s bytes h = ground (arith, f.opens s, f.gives (d.open_device s).1 bytes)

  write_chip_stores :
      (s : S) (bytes : Str)
      → (write_chip d loaded bytes s).0 ≡ true
      → content (write_chip d loaded bytes s).1 ≡ bytes ++ drop (length bytes) (content s)
  unfolding write_chip
  write_chip_stores s bytes h =
      let s1 = (d.open_device s).1 in
      ground (
        arith,
        f.stores s1 bytes,
        f.closes (d.write_bytes bytes s1).1,
        ap (λ c. bytes ++ drop (length bytes) c) (f.opens s),
      )

  -- What is stored, and the files.
  abbrev pub At : Str → Files → Machine S → Type 0
  At c fs m = (content m.chip ≡ c) × (m.files ≡ fs)

  module _ {B : Type 0} (Q : B → Machine S → Type 0) (E : Failure → Machine S → Type 0)
      (e : Failure) (m : Machine S) (c : Str) (fs : Files) (h : At c fs m) where
    pub read_then :
        (k : Str → M S B)
        → ((m' : Machine S) → At c fs m' → Post Q E (k c m'))
        → ((m' : Machine S) → At c fs m' → E e m')
        → Post Q E (bind (read_eeprom d loaded e m).0 k (read_eeprom d loaded e m).1)
    unfolding read_eeprom
    read_then k q bad =
        let r = read_chip d loaded m.chip in
        let m' : Machine S = record m { chip = r.1 } in
        let kept : At c fs m' = (read_chip-content m.chip ∙ h.0, h.1) in
        or_fail_then Q E k e m' r.0
          (λ a given.
            subst (λ x. Post Q E (k x m')) (sym (read_chip_gives m.chip a given ∙ h.0)) (q m' kept))
          (λ _. bad m' kept)

    pub write_then :
        (k : Unit {0} → M S B) (bytes : Str)
        → ((m' : Machine S) → At (bytes ++ drop (length bytes) c) fs m' → Post Q E (k tt m'))
        → ((m' : Machine S) → m'.files ≡ fs → E e m')
        → Post Q E (bind (write_eeprom d loaded bytes e m).0 k (write_eeprom d loaded bytes e m).1)
    unfolding write_eeprom
    write_then k bytes q bad =
        let r = write_chip d loaded bytes m.chip in
        let m' : Machine S = record m { chip = r.1 } in
        check_then Q E k e m' r.0
          (λ written. q m' (
            write_chip_stores m.chip bytes written ∙ ap (λ x. bytes ++ drop (length bytes) x) h.0,
            h.1,
          ))
          (λ _. bad m' h.1)
