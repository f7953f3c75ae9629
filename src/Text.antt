-- ===== src/Text.antt =====
-- Go strings and byte slices (`string`, `[]byte`): sequences of bytes. Their comparison, the parts
-- of package strings and strconv that the agent uses, and literals.
pub mod Laws
pub mod Trim
pub mod Decimal
pub mod Digits
use Prim.Native.Char.{code}
use Prim.Native.String.{String}
use flightpatch.Common.{
  ℕ, zero, suc, ◌+◌, ◌*◌, ◌-◌, ◌/◌, ◌%◌, Bool, true, false, not, ◌&&◌, ◌||◌, List, [], ◌∷◌, ◌++◌,
  Option, none, some, ltb, leb, ◌==◌, if◌then◌else◌, ◌≡◌, ◌<◌,
}

abbrev pub Str : Type 0
Str = List ℕ

-- The bytes of an ASCII literal.
abbrev pub codes : String → Str
codes String.[] = []
codes (String.◌∷◌ c s) = code c ∷ codes s

unfoldable pub str_eq : Str → Str → Bool
str_eq [] [] = true
str_eq (x ∷ xs) (y ∷ ys) = x == y && str_eq xs ys
str_eq _ _ = false

-- Go's `<` on strings: byte by byte, a proper prefix first.
unfoldable pub str_lt : Str → Str → Bool
str_lt [] [] = false
str_lt [] (y ∷ ys) = true
str_lt (x ∷ xs) [] = false
str_lt (x ∷ xs) (y ∷ ys) = ltb x y || (x == y && str_lt xs ys)

abbrev pub is_empty : Str → Bool
is_empty [] = true
is_empty (x ∷ xs) = false

-- `strings.TrimPrefix(s, p)` for a prefix of one byte.
unfoldable pub trim_prefix : ℕ → Str → Str
trim_prefix p [] = []
trim_prefix p (x ∷ xs) = if x == p then xs else x ∷ xs

-- `strings.TrimSuffix(s, p)` for a suffix of one byte.
unfoldable pub trim_suffix : ℕ → Str → Str
trim_suffix p [] = []
trim_suffix p (x ∷ []) = if x == p then [] else x ∷ []
trim_suffix p (x ∷ (y ∷ ys)) = x ∷ trim_suffix p (y ∷ ys)

-- The white space of one byte: `\t \n \v \f \r` and the space.
abbrev pub is_space : ℕ → Bool
is_space c = c == 32 || (leb 9 c && leb c 13)

-- The third byte of a space between U+2000 and U+202F, whose encoding begins E2 80.
abbrev is_space_e280 : ℕ → Bool
is_space_e280 c = (leb 0x80 c && leb c 0x8a) || (c == 0xa8 || (c == 0xa9 || c == 0xaf))

abbrev is_space2 : ℕ → ℕ → Bool
is_space2 a b = a == 0xc2 && (b == 0x85 || b == 0xa0)

abbrev is_space3 : ℕ → ℕ → ℕ → Bool
is_space3 a b c =
    (a == 0xe1 && (b == 0x9a && c == 0x80))
    || ((a == 0xe2 && ((b == 0x80 && is_space_e280 c) || (b == 0x81 && c == 0x9f)))
        || (a == 0xe3 && (b == 0x80 && c == 0x80)))

-- The left half of `strings.TrimSpace`: runes of white space in UTF-8, of one to three bytes.
unfoldable pub trim_left_space : Str → Str
trim_left_space [] = []
trim_left_space (a ∷ []) = if is_space a then [] else a ∷ []
trim_left_space (a ∷ (b ∷ [])) =
    let shorter = trim_left_space (b ∷ []) in
    if is_space a then shorter else if is_space2 a b then [] else a ∷ (b ∷ [])
trim_left_space (a ∷ (b ∷ (c ∷ s))) =
    let after1 = trim_left_space (b ∷ (c ∷ s)) in
    let after2 = trim_left_space (c ∷ s) in
    let after3 = trim_left_space s in
    if is_space a
    then after1
    else if is_space2 a b
    then after2
    else if is_space3 a b c
    then after3
    else a ∷ (b ∷ (c ∷ s))

-- The right half works on the reversed bytes: the last rune is white space exactly if the text
-- ends in the encoding of one, since the bytes behind a lead byte are no lead bytes.
unfoldable pub trim_left_space_rev : Str → Str
trim_left_space_rev [] = []
trim_left_space_rev (a ∷ []) = if is_space a then [] else a ∷ []
trim_left_space_rev (b ∷ (a ∷ [])) =
    let shorter = trim_left_space_rev (a ∷ []) in
    if is_space b then shorter else if is_space2 a b then [] else b ∷ (a ∷ [])
trim_left_space_rev (c ∷ (b ∷ (a ∷ s))) =
    let after1 = trim_left_space_rev (b ∷ (a ∷ s)) in
    let after2 = trim_left_space_rev (a ∷ s) in
    let after3 = trim_left_space_rev s in
    if is_space c
    then after1
    else if is_space2 b c
    then after2
    else if is_space3 a b c
    then after3
    else c ∷ (b ∷ (a ∷ s))

reverse_onto : Str → Str → Str
reverse_onto out [] = out
reverse_onto out (x ∷ xs) = reverse_onto (x ∷ out) xs

-- `strings.TrimSpace`
unfoldable pub trim_space : Str → Str
unfolding reverse_onto trim_left_space trim_left_space_rev
trim_space s = reverse_onto [] (trim_left_space_rev (reverse_onto [] (trim_left_space s)))

-- Every element is a byte.
abbrev pub IsBytes : Str → Type 0
IsBytes [] = Unit
IsBytes (x ∷ xs) = (x < 256) × IsBytes xs

-- Every element is white space of one byte.
abbrev pub IsBlank : Str → Type 0
IsBlank [] = Unit
IsBlank (x ∷ xs) = (is_space x ≡ true) × IsBlank xs
