-- ===== src/Dongles/Examples.antt =====
-- Two dongles at their ports, one of which cannot be read, and serials that collide.
use flightpatch.Common.{zero, suc, true, List, [], ◌∷◌, none, some, ◌≡◌, refl, arith}
use flightpatch.Decoders.{Dongle}
use flightpatch.Dict.{lookup, insert}
use flightpatch.Dongles.Cached.{IsCache, AreApart, listed, insert-IsCache, enumerate_dongles-listed}
use flightpatch.Dongles.Distinct.{AllFresh, program_serial, serials_of, dedupe_serials-AllFresh}
use flightpatch.Dongles.Dedupe.{dedupe_serials}
use flightpatch.Dongles.{Cache, Reading, dongle_of, list_dongles, enumerate_dongles}
use flightpatch.Text.{Str, codes, str_eq}

abbrev ports : List Str
ports = codes "1-2" ∷ codes "1-3" ∷ []

abbrev text : Str × Str
text = (codes "RTL2838", codes "ADSBIQ001")

abbrev busy : Dongle
busy = dongle_of 0 (codes "1-3") text

abbrev readings : List Reading
readings = some text ∷ none ∷ []

abbrev before : Cache
before = insert (codes "1-3") busy (insert (codes "9-9") (dongle_of 4 (codes "9-9") text) [])

empty-IsCache : IsCache []
unfolding lookup
empty-IsCache port d found = absurd cc

before-IsCache : IsCache before
before-IsCache =
    insert-IsCache (codes "1-3") busy (insert (codes "9-9") (dongle_of 4 (codes "9-9") text) [])
      refl refl
      (insert-IsCache (codes "9-9") (dongle_of 4 (codes "9-9") text) [] refl refl empty-IsCache)

ports-AreApart : AreApart ports
unfolding str_eq
ports-AreApart zero zero h named = absurd (omega (arith, h))
ports-AreApart zero (suc zero) h named = refl
ports-AreApart zero (suc (suc j)) h named = absurd cc
ports-AreApart (suc zero) zero h named = absurd (omega (arith, h))
ports-AreApart (suc zero) (suc zero) h named = absurd (omega (arith, h))
ports-AreApart (suc zero) (suc (suc j)) h named = absurd cc
ports-AreApart (suc (suc i)) zero h named = absurd (omega (arith, h))
ports-AreApart (suc (suc i)) (suc zero) h named = absurd (omega (arith, h))
ports-AreApart (suc (suc i)) (suc (suc j)) h named = absurd cc

enumerate_dongles-listed_example :
    (enumerate_dongles true readings ports before).0 ≡ listed 0 readings ports before
enumerate_dongles-listed_example = enumerate_dongles-listed readings ports before ports-AreApart

-- The dongle that cannot be read is listed as it was, under its present index; the port that is gone
-- is forgotten.
busy_is_listed :
    (enumerate_dongles true readings ports before).0
    ≡ dongle_of 0 (codes "1-2") text ∷ ((record busy { index = 1 }) ∷ [])
unfolding enumerate_dongles list_dongles lookup insert str_eq
busy_is_listed = refl

-- Three dongles, of which two have a serial that an earlier one has.
abbrev alike : List Dongle
alike =
    record { index = 0; serial = codes "00000001"; product = []; port = [] }
    ∷ (record { index = 1; serial = codes "00000001"; product = []; port = [] }
        ∷ (record { index = 2; serial = codes "00000001"; product = []; port = [] } ∷ []))

dedupe_serials-AllFresh_example :
    AllFresh [] (dedupe_serials program_serial (λ hw. hw) (λ hw. []) alike (serials_of alike)).1
dedupe_serials-AllFresh_example =
    dedupe_serials-AllFresh (λ hw. []) alike (refl, (refl, (refl, tt))) (omega arith)

-- The third dongle has the serial that the second is given.
abbrev chained : List Dongle
chained =
    record { index = 0; serial = codes "A"; product = []; port = [] }
    ∷ (record { index = 1; serial = codes "A"; product = []; port = [] }
        ∷ (record { index = 2; serial = codes "ADSBIQ001"; product = []; port = [] } ∷ []))

-- It is written too, though no other dongle had its serial.
rewrites_third :
    (dedupe_serials program_serial (λ hw. hw) (λ hw. []) chained (serials_of chained)).1
    ≡ codes "A" ∷ (codes "ADSBIQ001" ∷ (codes "ADSBIQ002" ∷ []))
unfolding dedupe_serials flightpatch.Dongles.Dedupe.dedupe_loop flightpatch.Dict.mem str_eq
    flightpatch.Dongles.Dedupe.unique_serial flightpatch.Dongles.Dedupe.unique_from
    flightpatch.Text.Decimal.decimal3
rewrites_third = refl
