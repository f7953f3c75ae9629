-- ===== src/Dongles/Loading.antt =====
-- Loading librtlsdr: `initRtlsdr` and `loadRtlsdr` of agent/dongles_windows.go. Which library loads and
-- which procedures it has is an argument.
use flightpatch.Common.{
  Bool, true, List, [], ◌∷◌, ◌++◌, map, Option, none, some, if◌then◌else◌, option_else,
}
use flightpatch.Text.{Str, codes, is_empty}

abbrev pub library_names : List Str
library_names = codes "librtlsdr.dll" ∷ (codes "rtlsdr.dll" ∷ [])

abbrev pub candidates : (Str → Str → Str) → Str → List Str
candidates join dir = (if is_empty dir then [] else map (join dir) library_names) ++ library_names

-- The loop over the candidates.
unfoldable pub first_loaded : (Str → Bool) → List Str → Option Str
first_loaded loads [] = none
first_loaded loads (c ∷ rest) =
    let later = first_loaded loads rest in if loads c then some c else later

-- `loadRtlsdr`
abbrev pub load_rtlsdr : (Str → Bool) → (Str → Str → Str) → Str → Option Str
load_rtlsdr loads join dir = first_loaded loads (candidates join dir)

-- `rtlOnce`, the library that is kept, and the directory that the loader was pointed at.
pub record Library : Type 0 where
  pub tried : Bool
  pub kept : Option Str
  pub directory : Option Str

-- `initRtlsdr`; `has_procs` says that a library has the two procedures.
unfoldable pub init_rtlsdr :
    (Str → Bool) → (Str → Bool) → (Str → Str → Str) → Str → Library → Library
init_rtlsdr loads has_procs join dir l =
    let found = load_rtlsdr loads join dir in
    let kept = option_else found none (λ dll. if has_procs dll then some dll else none) in
    let fresh : Library = record {
      tried = true;
      kept = kept;
      directory = if is_empty dir then l.directory else some dir;
    } in
    if l.tried then l else fresh
