-- ===== src/Money/Agreement.antt =====
-- The two readers of amounts side by side, and the text that is cut to the precision:
-- `stakeFromXlmInput` of apps/frontend/src/utils/payout.ts with `validateAndConvertXlmToStroops` and
-- `roundXlmToPrecision` of apps/frontend/src/utils/xlm-precision.ts.
use native.Mathlib.Nat.{pow-succ', mul_assoc, add-mul, mul-le-mul_right}
use smile4money.Common.{
  ℕ, suc, ◌+◌, ◌-◌, ◌*◌, ◌^◌, ◌≡◌, ◌≤◌, ◌<◌, refl, sym, ap, subst, ◌∙◌, true, false, not, Option,
  none, some, [], ◌∷◌, ◌++◌, ◌==◌, length, replicate, arith, Bool-cases, Option-cases, inl, inr,
  length-append, or_else, ge→ltb,
}
use smile4money.Common.Text.{Text, trim, is_space, is_empty, is_digit, all_chars}
use smile4money.Common.Digits.{value, value-append}
use smile4money.Money.{
  stroops_per_xlm, before_dot, after_dot, pad_end, is_xlm_input, stake_from_xlm_input,
}
use smile4money.Money.Precision.{
  valid, is_number, decimals_of, count_decimal_places, max_decimal_places,
  validate_and_convert_xlm_to_stroops,
}
use smile4money.Money.Padding.{trim-same, digit_is_no_space, length-replicate}

spread : (n d x v : ℕ) → (n * 10 + d) * x + v ≡ n * (10 * x) + ((0 * 10 + d) * x + v)
spread n d x v =
    let same : 0 * 10 + d ≡ d = omega arith in
    omega (arith, add-mul (n * 10) d x, mul_assoc n 10 x, ap (λ k. k * x) same)

-- Digits that are read after a number move it to the left.
pub value-shift : (n : ℕ) (s : Text) → value n s ≡ n * 10 ^ length s + value 0 s
unfolding value
value-shift n [] = omega arith
value-shift n (c ∷ s) =
    let d = c - b'0' in
    value-shift (n * 10 + d) s
    ∙ spread n d (10 ^ length s) (value 0 s)
    ∙ ap (λ k. n * k + ((0 * 10 + d) * 10 ^ length s + value 0 s)) (sym (pow-succ' 10 (length s)))
    ∙ ap (λ k. n * 10 ^ suc (length s) + k) (sym (value-shift (0 * 10 + d) s))

pub value-join : (s t : Text) → value 0 (s ++ t) ≡ value 0 s * 10 ^ length t + value 0 t
value-join s t = value-append 0 s t ∙ value-shift (value 0 s) t

pub value-lt : (s : Text) → all_chars is_digit s ≡ true → value 0 s < 10 ^ length s
unfolding value
value-lt [] h = omega arith
value-lt (c ∷ s) h =
    let d = c - b'0' in
    let x = 10 ^ length s in
    let small : d < 10 = ground arith in
    let at_most : d ≤ 9 = ground arith in
    let bound : d * x ≤ 9 * x = mul-le-mul_right x at_most in
    let same : 0 * 10 + d ≡ d = omega arith in
    rw (same, value-shift d s, pow-succ' 10 (length s))
      (omega (arith, value-lt s (ground arith), bound))

-- A text is what stands before the first dot, the dot and what follows it.
whole_and_fraction :
    (s : Text)
    → s ≡ elim (after_dot s) [ none ↦ before_dot s | some f ↦ before_dot s ++ (b'.' ∷ f) ]
unfolding before_dot after_dot
whole_and_fraction [] = refl
whole_and_fraction (c ∷ s) = ground (arith, whole_and_fraction s)

-- Digits around at most one dot.
abbrev pub IsDotted : Text → Type 0
IsDotted s =
    (all_chars is_digit (before_dot s) ≡ true)
    × (all_chars is_digit (or_else (after_dot s) []) ≡ true)

pub dotted_no_space :
    (s : Text)
    → all_chars is_digit (before_dot s) ≡ true
    → all_chars is_digit (or_else (after_dot s) []) ≡ true
    → all_chars (λ c. not (is_space c)) s ≡ true
unfolding before_dot after_dot is_space
dotted_no_space [] h k = refl
dotted_no_space (c ∷ s) h k = elim (Bool-cases (c == b'.')) [
  | inl e ↦ ground (arith, digit_is_no_space s)
  | inr e ↦ ground (arith, dotted_no_space s)
]

pub length-pad_end : (f : Text) → length f ≤ 7 → length (pad_end 7 f) ≡ 7
unfolding pad_end
length-pad_end f h =
    omega
      (arith, length-append f (replicate (7 - length f) b'0'), length-replicate (7 - length f) b'0')

-- The amount that a number with at most seven decimals spells.
unfoldable pub spelled : Text → ℕ
spelled s =
    value 0 (before_dot s) * stroops_per_xlm + value 0 (pad_end 7 (or_else (after_dot s) []))

spelled_whole :
    (s : Text)
    → after_dot s ≡ none
    → value 0 (s ++ replicate max_decimal_places b'0')
      ≡ value 0 (before_dot s) * stroops_per_xlm + value 0 (pad_end 7 [])
unfolding pad_end
spelled_whole s e =
    let whole : s ≡ before_dot s =
      whole_and_fraction s
      ∙ ap (λ o. elim o [ none ↦ before_dot s | some f ↦ before_dot s ++ (b'.' ∷ f) ]) e in
    omega (arith, value-join s (replicate max_decimal_places b'0'), ap (value 0) whole)

spelled_fraction :
    (s f : Text)
    → length f ≤ 7
    → value 0 (s ++ pad_end 7 f) ≡ value 0 s * stroops_per_xlm + value 0 (pad_end 7 f)
spelled_fraction s f le =
    value-join s (pad_end 7 f)
    ∙ ap (λ k. value 0 s * 10 ^ k + value 0 (pad_end 7 f)) (length-pad_end f le)

pub validated :
    (x : Text)
    → let s = trim x in
      is_empty s ≡ false
      → is_number s ≡ true
      → trim s ≡ s
      → decimals_of s ≤ 7
      → validate_and_convert_xlm_to_stroops x ≡ valid (spelled s) (decimals_of s)
unfolding validate_and_convert_xlm_to_stroops spelled decimals_of
validated x ne num same le =
    let s = trim x in
    let places : count_decimal_places s ≡ decimals_of s =
      unfold count_decimal_places in ap decimals_of same in
    let count : (o : Option Text)
        → after_dot s ≡ o
        → count_decimal_places s ≡ length (or_else o []) =
      λ o e. places ∙ ap (λ o. length (or_else o [])) e in
    elim (Option-cases (after_dot s)) [
      | inl e ↦
          rw (ne, num, places, ge→ltb 7 (decimals_of s) le, e)
            (ap (λ v. valid v (count_decimal_places s)) (spelled_whole s e)
              ∙ ap
                  (λ d. valid (value 0 (before_dot s) * stroops_per_xlm + value 0 (pad_end 7 [])) d)
                  (count none e))
      | inr (f, e) ↦
          rw (ne, num, places, ge→ltb 7 (decimals_of s) le, e)
            (ap (λ v. valid v (count_decimal_places s))
                (spelled_fraction (before_dot s) f (subst (λ o. length (or_else o []) ≤ 7) e le))
              ∙ ap (λ d. valid (value 0 (before_dot s) * stroops_per_xlm + value 0 (pad_end 7 f)) d)
                  (count (some f) e))
    ]

pub not_empty : (s : Text) → is_empty (before_dot s) ≡ false → is_empty s ≡ false
unfolding before_dot
not_empty [] h = h
not_empty (c ∷ s) h = refl

accepted_fits :
    (s : Text)
    → is_xlm_input s ≡ true
    → (is_empty s ≡ false) × (is_number s ≡ true) × IsDotted s × (decimals_of s ≤ 7)
unfolding is_xlm_input is_number decimals_of
accepted_fits s h = elim (Option-cases (after_dot s)) [
  | inl e ↦ ground (arith, not_empty s)
  | inr (f, e) ↦ ground (arith, not_empty s)
]

-- An amount that the reader of stakes accepts is valid for the reader of amounts, which finds the
-- same number of stroops.
pub readers_agree :
    (x : Text) (n : ℕ)
    → stake_from_xlm_input x ≡ some n
    → validate_and_convert_xlm_to_stroops x ≡ valid n (decimals_of (trim x))
unfolding stake_from_xlm_input
readers_agree x n h =
    let s = trim x in
    let accepted : is_xlm_input s ≡ true = ground arith in
    let amount : spelled s ≡ n = unfold spelled in ground arith in
    let (ne, num, dotted, le) = accepted_fits s accepted in
    validated x ne num (trim-same s (dotted_no_space s dotted.0 dotted.1)) le
    ∙ ap (λ v. valid v (decimals_of s)) amount
