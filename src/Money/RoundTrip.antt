-- ===== src/Money/RoundTrip.antt =====
-- An amount that is shown and typed again (`formatStroops` and `stakeFromXlmInput` of
-- apps/frontend/src/utils/payout.ts).
use mathlib.Core.List.{append-nil}
use smile4money.Common.{
  ℕ, zero, suc, ◌+◌, ◌-◌, ◌*◌, ◌/◌, ◌%◌, ◌≡◌, ◌≤◌, ◌<◌, refl, sym, ap, ◌∙◌, true, false, not, some,
  [], ◌∷◌, ◌++◌, if◌then◌else◌, length, replicate, arith, length-append, le→leb,
}
use smile4money.Common.Text.{Text, is_space, is_empty, is_digit, all_chars}
use smile4money.Common.Digits.{
  digits, digits_from, value, value-digits, digits_are_digits, digits_not_empty, all_chars-append,
}
use smile4money.Money.{
  pos, stroops_per_xlm, without_trailing_zeros, pad_start, pad_end, is_xlm_input, format_stroops,
  format_abs, stake_from_xlm_input, positive,
}
use smile4money.Money.Padding.{
  without_trailing_zeros-length-le, value-zeros, zeros_back, length-digits_from-le,
  length-replicate, trim-same, digit_is_no_space, before_dot-append, after_dot-append,
  before_dot-digits, after_dot-digits,
}

-- The seven digits of a fraction.
abbrev places : ℕ → Text
unfolding pad_start digits
places m = pad_start 7 (digits m)

replicate_zeros-digits : (k : ℕ) → all_chars is_digit (replicate k b'0') ≡ true
replicate_zeros-digits zero = refl
replicate_zeros-digits (suc k) = replicate_zeros-digits k

length-places : (m : ℕ) → m < stroops_per_xlm → length (places m) ≡ 7
unfolding places pad_start digits
length-places m h = omega (
  arith,
  length-append (replicate (7 - length (digits_from (suc m) m)) b'0') (digits_from (suc m) m),
  length-replicate (7 - length (digits_from (suc m) m)) b'0',
  length-digits_from-le 6 (suc m) m h,
)

value-places : (m : ℕ) → value 0 (places m) ≡ m
unfolding places pad_start
value-places m = value-zeros (7 - length (digits m)) (digits m) ∙ value-digits m

places-digits : (m : ℕ) → all_chars is_digit (places m) ≡ true
unfolding places pad_start
places-digits m =
    all_chars-append is_digit (replicate (7 - length (digits m)) b'0') (digits m)
      (replicate_zeros-digits (7 - length (digits m))) (digits_are_digits m)

without_trailing_zeros-digits :
    (s : Text) → all_chars is_digit s ≡ true → all_chars is_digit (without_trailing_zeros s) ≡ true
unfolding without_trailing_zeros
without_trailing_zeros-digits [] h = refl
without_trailing_zeros-digits (c ∷ s) h = ground (arith, without_trailing_zeros-digits s)

-- What is read of the fraction that is shown.
fraction_back :
    (m : ℕ) → m < stroops_per_xlm → value 0 (pad_end 7 (without_trailing_zeros (places m))) ≡ m
unfolding pad_end
fraction_back m h =
    ap
      (λ k. value 0 (
        without_trailing_zeros (places m)
        ++ replicate (k - length (without_trailing_zeros (places m))) b'0'))
      (sym (length-places m h))
    ∙ ap (value 0) (zeros_back (places m))
    ∙ value-places m

spaceless-append :
    (s f : Text)
    → all_chars is_digit s ≡ true
    → all_chars is_digit f ≡ true
    → all_chars (λ c. not (is_space c)) (s ++ (b'.' ∷ f)) ≡ true
spaceless-append s f hs hf =
    all_chars-append (λ c. not (is_space c)) s (b'.' ∷ f) (digit_is_no_space s hs)
      (unfold is_space in digit_is_no_space f hf)

read_whole :
    (s : Text)
    → is_empty s ≡ false
    → all_chars is_digit s ≡ true
    → stake_from_xlm_input s ≡ positive (value 0 s * stroops_per_xlm + value 0 (pad_end 7 []))
unfolding stake_from_xlm_input is_xlm_input
read_whole s ne h =
    rw (trim-same s (digit_is_no_space s h), before_dot-digits s h, after_dot-digits s h, ne, h)
      refl

read_parts :
    (s f : Text)
    → is_empty s ≡ false
    → is_empty f ≡ false
    → all_chars is_digit s ≡ true
    → all_chars is_digit f ≡ true
    → length f ≤ 7
    → stake_from_xlm_input (s ++ (b'.' ∷ f))
      ≡ positive (value 0 s * stroops_per_xlm + value 0 (pad_end 7 f))
unfolding stake_from_xlm_input is_xlm_input
read_parts s f ns nf hs hf le =
    rw
      (
        trim-same (s ++ (b'.' ∷ f)) (spaceless-append s f hs hf),
        before_dot-append s f hs,
        after_dot-append s f hs,
        ns,
        nf,
        hs,
        hf,
        le→leb (length f) 7 le,
      )
      refl

read_shown :
    (s f : Text)
    → is_empty s ≡ false
    → all_chars is_digit s ≡ true
    → all_chars is_digit f ≡ true
    → length f ≤ 7
    → stake_from_xlm_input (s ++ (if is_empty f then [] else b'.' ∷ f))
      ≡ positive (value 0 s * stroops_per_xlm + value 0 (pad_end 7 f))
read_shown s [] ns hs hf le = rw (append-nil s) (read_whole s ns hs)
read_shown s (c ∷ f) ns hs hf le = read_parts s (c ∷ f) ns refl hs hf le

-- An amount of stroops that is not zero is read back as it was when the text that shows it is typed.
pub stake_from_xlm_input-format_stroops :
    (n : ℕ) → 0 < n → stake_from_xlm_input (format_stroops (pos n)) ≡ some n
unfolding format_stroops format_abs
stake_from_xlm_input-format_stroops n h =
    let m = n % stroops_per_xlm in
    let fraction = without_trailing_zeros (places m) in
    let small : m < stroops_per_xlm = omega arith in
    let short : length fraction ≤ 7 =
      omega (arith, without_trailing_zeros-length-le (places m), length-places m small) in
    let amount : n / stroops_per_xlm * stroops_per_xlm + m ≡ n = omega arith in
    unfold places in
    (read_shown (digits (n / stroops_per_xlm)) fraction (digits_not_empty (n / stroops_per_xlm))
        (digits_are_digits (n / stroops_per_xlm))
        (without_trailing_zeros-digits (places m) (places-digits m)) short
      ∙ ap positive (
          ap (λ v. v * stroops_per_xlm + value 0 (pad_end 7 fraction))
            (value-digits (n / stroops_per_xlm))
          ∙ ap (λ v. n / stroops_per_xlm * stroops_per_xlm + v) (fraction_back m small)
          ∙ amount)
      ∙ ground arith)
