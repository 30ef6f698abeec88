-- ===== src/Money/Padding.antt =====
-- Lemmas on padded digits, trimmed texts and the parts around a dot.
use mathlib.Core.List.{reverse, reverse-cons, reverse-reverse}
use native.Mathlib.Nat.{pow-succ'}
use smile4money.Common.{
  ℕ, zero, suc, ◌+◌, ◌-◌, ◌/◌, ◌%◌, ◌^◌, ◌≡◌, ◌≤◌, ◌<◌, refl, ap, Bool, true, ◌&&◌, not, none, some,
  [], ◌∷◌, ◌++◌, ltb, ◌==◌, length, replicate, arith, Bool-cases, inl, inr, length-append,
}
use smile4money.Common.Text.{Text, trim, trim_start, is_space, is_empty, is_digit, all_chars}
use smile4money.Common.Digits.{digits_from, value, all_chars-append}
use smile4money.Money.{before_dot, after_dot, without_trailing_zeros}

pub value-zeros : (k : ℕ) (s : Text) → value 0 (replicate k b'0' ++ s) ≡ value 0 s
unfolding value
value-zeros zero s = refl
value-zeros (suc k) s = value-zeros k s

pub without_trailing_zeros-length-le : (s : Text) → length (without_trailing_zeros s) ≤ length s
unfolding without_trailing_zeros
without_trailing_zeros-length-le [] = omega arith
without_trailing_zeros-length-le (c ∷ s) = ground (arith, without_trailing_zeros-length-le s)

zeros_only : (s : Text) → is_empty (without_trailing_zeros s) ≡ true → replicate (length s) b'0' ≡ s
unfolding without_trailing_zeros
zeros_only [] h = refl
zeros_only (c ∷ s) h = elim (Bool-cases (is_empty (without_trailing_zeros s) && (c == b'0'))) [
  | inl e ↦ ground (arith, zeros_only s)
  | inr e ↦ ground arith
]

-- The zeros that were dropped can be put back.
pub zeros_back :
    (s : Text)
    → without_trailing_zeros s ++ replicate (length s - length (without_trailing_zeros s)) b'0' ≡ s
unfolding without_trailing_zeros
zeros_back [] = refl
zeros_back (c ∷ s) =
    let rest = without_trailing_zeros s in
    let all : suc (length s) - 0 ≡ suc (length s) = omega arith in
    let fewer : suc (length s) - suc (length rest) ≡ length s - length rest = omega arith in
    elim (Bool-cases (is_empty rest && (c == b'0'))) [
      | inl e ↦ rw (e, all) (ground (arith, zeros_only s))
      | inr e ↦ rw (e, fewer) (ap (λ t. c ∷ t) (zeros_back s))
    ]

pub length-replicate : (k c : ℕ) → length (replicate k c) ≡ k
length-replicate zero c = refl
length-replicate (suc k) c = ap suc (length-replicate k c)

-- A number below a power of ten has no more digits than that.
pub length-digits_from-le : (k fuel n : ℕ) → n < 10 ^ suc k → length (digits_from fuel n) ≤ suc k
unfolding digits_from
length-digits_from-le k zero n h = omega arith
length-digits_from-le zero (suc fuel) n h = elim (Bool-cases (ltb n 10)) [
  | inl e ↦ rw e (omega arith)
  | inr e ↦ absurd (ground (arith, pow-succ' 10 0))
]
length-digits_from-le (suc k) (suc fuel) n h = elim (Bool-cases (ltb n 10)) [
  | inl e ↦ rw e (omega arith)
  | inr e ↦
      rw (e, length-append (digits_from fuel (n / 10)) ((b'0' + n % 10) ∷ []))
        (omega
          (arith, length-digits_from-le k fuel (n / 10) (omega (arith, h, pow-succ' 10 (suc k)))))
]

pub trim_start-same : (s : Text) → all_chars (λ c. not (is_space c)) s ≡ true → trim_start s ≡ s
unfolding trim_start
trim_start-same [] h = refl
trim_start-same (c ∷ s) h = ground arith

all_chars-reverse :
    (p : ℕ → Bool) (s : Text) → all_chars p s ≡ true → all_chars p (reverse s) ≡ true
all_chars-reverse p [] h = refl
all_chars-reverse p (c ∷ s) h =
    rw (reverse-cons c s) (
      all_chars-append p (reverse s) (c ∷ []) (all_chars-reverse p s (ground arith)) (ground arith))

-- A text without spaces is not trimmed.
pub trim-same : (s : Text) → all_chars (λ c. not (is_space c)) s ≡ true → trim s ≡ s
unfolding trim
trim-same s h =
    rw
      (
        trim_start-same s h,
        trim_start-same (reverse s) (all_chars-reverse (λ c. not (is_space c)) s h),
      )
      (reverse-reverse s)

pub digit_is_no_space :
    (s : Text) → all_chars is_digit s ≡ true → all_chars (λ c. not (is_space c)) s ≡ true
unfolding is_space
digit_is_no_space [] h = refl
digit_is_no_space (c ∷ s) h = ground (arith, digit_is_no_space s)

pub before_dot-append :
    (s f : Text) → all_chars is_digit s ≡ true → before_dot (s ++ (b'.' ∷ f)) ≡ s
unfolding before_dot
before_dot-append [] f h = refl
before_dot-append (c ∷ s) f h = ground (arith, before_dot-append s f)

pub after_dot-append :
    (s f : Text) → all_chars is_digit s ≡ true → after_dot (s ++ (b'.' ∷ f)) ≡ some f
unfolding after_dot
after_dot-append [] f h = refl
after_dot-append (c ∷ s) f h = ground (arith, after_dot-append s f)

pub before_dot-digits : (s : Text) → all_chars is_digit s ≡ true → before_dot s ≡ s
unfolding before_dot
before_dot-digits [] h = refl
before_dot-digits (c ∷ s) h = ground (arith, before_dot-digits s)

pub after_dot-digits : (s : Text) → all_chars is_digit s ≡ true → after_dot s ≡ none
unfolding after_dot
after_dot-digits [] h = refl
after_dot-digits (c ∷ s) h = ground (arith, after_dot-digits s)
