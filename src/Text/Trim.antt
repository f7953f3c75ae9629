-- ===== src/Text/Trim.antt =====
-- `strings.TrimSpace` on a text between two bytes that no white space begins or ends with.
use flightpatch.Common.{
  ℕ, true, false, ◌<◌, [], ◌∷◌, ◌++◌, ◌≡◌, refl, sym, ap, ◌∙◌, arith, append_assoc, append-nil,
}
use flightpatch.Text.{
  Str, is_space, IsBlank, reverse_onto, trim_left_space, trim_left_space_rev, trim_space,
}

reverse_onto-append :
    (xs ys out : Str) → reverse_onto out (xs ++ ys) ≡ reverse_onto (reverse_onto out xs) ys
unfolding reverse_onto
reverse_onto-append [] ys out = refl
reverse_onto-append (x ∷ xs) ys out = reverse_onto-append xs ys (x ∷ out)

reverse_onto-reverse_onto :
    (xs ys out : Str) → reverse_onto out (reverse_onto ys xs) ≡ reverse_onto (xs ++ out) ys
unfolding reverse_onto
reverse_onto-reverse_onto [] ys out = refl
reverse_onto-reverse_onto (x ∷ xs) ys out = reverse_onto-reverse_onto xs (x ∷ ys) out

reverse_onto-eq : (xs out : Str) → reverse_onto out xs ≡ reverse_onto [] xs ++ out
unfolding reverse_onto
reverse_onto-eq [] out = refl
reverse_onto-eq (x ∷ xs) out =
    reverse_onto-eq xs (x ∷ out)
    ∙ sym (append_assoc (reverse_onto [] xs) (x ∷ []) out)
    ∙ ap (λ r. r ++ out) (sym (reverse_onto-eq xs (x ∷ [])))

trim_left_space_rev-cons :
    (x : ℕ) (s : Str) → is_space x ≡ true → trim_left_space_rev (x ∷ s) ≡ trim_left_space_rev s
unfolding trim_left_space_rev
trim_left_space_rev-cons x [] h = rw h
trim_left_space_rev-cons x (a ∷ []) h = rw h
trim_left_space_rev-cons x (a ∷ (b ∷ s)) h = rw h

trim_left_space_rev-IsBlank :
    (pad s : Str) → IsBlank pad → trim_left_space_rev (reverse_onto s pad) ≡ trim_left_space_rev s
unfolding reverse_onto
trim_left_space_rev-IsBlank [] s h = refl
trim_left_space_rev-IsBlank (x ∷ pad) s h =
    trim_left_space_rev-IsBlank pad (x ∷ s) h.1 ∙ trim_left_space_rev-cons x s h.0

-- The form of an AVR line: `*`, some text, `;`, and white space behind it.
trim_left_space_star : (s : Str) → trim_left_space (b'*' ∷ s) ≡ b'*' ∷ s
unfolding trim_left_space
trim_left_space_star [] = refl
trim_left_space_star (a ∷ []) = refl
trim_left_space_star (a ∷ (b ∷ s)) = refl

trim_left_space_rev_semicolon : (s : Str) → trim_left_space_rev (b';' ∷ s) ≡ b';' ∷ s
unfolding trim_left_space_rev
trim_left_space_rev_semicolon [] = refl
trim_left_space_rev_semicolon (a ∷ []) = ground arith
trim_left_space_rev_semicolon (a ∷ (b ∷ s)) = ground arith

trim_avr_end :
    (text : Str)
    → let w : Str = b'*' ∷ (text ++ (b';' ∷ [])) in
      trim_left_space_rev (reverse_onto [] w) ≡ reverse_onto [] w
unfolding reverse_onto
trim_avr_end text =
    rw (reverse_onto-append text (b';' ∷ []) (b'*' ∷ []))
      (trim_left_space_rev_semicolon (reverse_onto (b'*' ∷ []) text))

pub trim_space_avr :
    (text pad : Str)
    → IsBlank pad
    → trim_space ((b'*' ∷ (text ++ (b';' ∷ []))) ++ pad) ≡ b'*' ∷ (text ++ (b';' ∷ []))
unfolding trim_space
trim_space_avr text pad h =
    let w : Str = b'*' ∷ (text ++ (b';' ∷ [])) in
    ap (λ s. reverse_onto [] (trim_left_space_rev (reverse_onto [] s)))
      (trim_left_space_star ((text ++ (b';' ∷ [])) ++ pad))
    ∙ ap (λ s. reverse_onto [] (trim_left_space_rev s)) (reverse_onto-append w pad [])
    ∙ ap (reverse_onto []) (trim_left_space_rev-IsBlank pad (reverse_onto [] w) h)
    ∙ ap (reverse_onto []) (trim_avr_end text)
    ∙ reverse_onto-reverse_onto w [] []
    ∙ append-nil w

trim_left_space_ascii :
    (c : ℕ) (s : Str) → is_space c ≡ false → c < 128 → trim_left_space (c ∷ s) ≡ c ∷ s
unfolding trim_left_space
trim_left_space_ascii c [] h k = ground arith
trim_left_space_ascii c (a ∷ []) h k = ground arith
trim_left_space_ascii c (a ∷ (b ∷ s)) h k = ground arith

trim_left_space_rev_ascii :
    (c : ℕ) (s : Str) → is_space c ≡ false → c < 128 → trim_left_space_rev (c ∷ s) ≡ c ∷ s
unfolding trim_left_space_rev
trim_left_space_rev_ascii c [] h k = ground arith
trim_left_space_rev_ascii c (a ∷ []) h k = ground arith
trim_left_space_rev_ascii c (a ∷ (b ∷ s)) h k = ground arith

pub trim_space_one : (c : ℕ) → is_space c ≡ false → trim_space (c ∷ []) ≡ c ∷ []
unfolding trim_space reverse_onto trim_left_space trim_left_space_rev
trim_space_one c h = rw h (rw h refl)

-- A text between two ASCII characters that are no space.
pub trim_space_ends :
    (x : ℕ) (s : Str) (c : ℕ)
    → is_space x ≡ false
    → x < 128
    → is_space c ≡ false
    → c < 128
    → trim_space (x ∷ (s ++ (c ∷ []))) ≡ x ∷ (s ++ (c ∷ []))
unfolding trim_space reverse_onto
trim_space_ends x s c g l h k =
    let w : Str = x ∷ (s ++ (c ∷ [])) in
    ap (λ t. reverse_onto [] (trim_left_space_rev (reverse_onto [] t)))
      (trim_left_space_ascii x (s ++ (c ∷ [])) g l)
    ∙ ap (λ t. reverse_onto [] (trim_left_space_rev t)) (reverse_onto-append s (c ∷ []) (x ∷ []))
    ∙ ap (reverse_onto []) (trim_left_space_rev_ascii c (reverse_onto (x ∷ []) s) h k)
    ∙ ap (reverse_onto []) (sym (reverse_onto-append s (c ∷ []) (x ∷ [])))
    ∙ reverse_onto-reverse_onto w [] []
    ∙ append-nil w

-- The form of a tag: `v`, and an ASCII character at the end that is no space.
pub trim_space_tag :
    (s : Str) (c : ℕ)
    → is_space c ≡ false
    → c < 128
    → trim_space (b'v' ∷ (s ++ (c ∷ []))) ≡ b'v' ∷ (s ++ (c ∷ []))
trim_space_tag s c h k = trim_space_ends b'v' s c refl (omega arith) h k
