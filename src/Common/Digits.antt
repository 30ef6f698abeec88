-- ===== src/Common/Digits.antt =====
-- The decimal digits of a number, as JavaScript writes it, and the number that digits stand for.
use Prim.Native.Nat.{ℕ, zero, suc, ◌+◌, ◌-◌, ◌*◌, ◌/◌, ◌%◌, ◌≤◌}
use mathlib.Core.Path.{◌≡◌, refl}
use mathlib.Core.Logic.{inl, inr}
use mathlib.Core.Bool.{Bool, true, false}
use mathlib.Core.List.{[], ◌∷◌, ◌++◌}
use native.Mathlib.Omega.{arith}
use smile4money.Common.Tests.{ltb, if◌then◌else◌, Bool-cases}
use smile4money.Common.Text.{Text, IsFree, text, is_digit, is_empty, all_chars}

-- On fuel; `suc n` is enough for `n`, which loses a digit with each step.
unfoldable pub digits_from : ℕ → ℕ → Text
digits_from zero n = []
digits_from (suc fuel) n =
    let front = digits_from fuel (n / 10) in
    if ltb n 10 then (b'0' + n) ∷ [] else front ++ ((b'0' + n % 10) ∷ [])

unfoldable pub digits : ℕ → Text
unfolding digits_from
digits n = digits_from (suc n) n

unfoldable pub value : ℕ → Text → ℕ
value n [] = n
value n (c ∷ s) = value (n * 10 + (c - b'0')) s

pub value-append : (n : ℕ) (s t : Text) → value n (s ++ t) ≡ value (value n s) t
unfolding value
value-append n [] t = refl
value-append n (c ∷ s) t = value-append (n * 10 + (c - b'0')) s t

value-digits_from : (fuel n : ℕ) → n ≤ fuel → value 0 (digits_from (suc fuel) n) ≡ n
unfolding digits_from value
value-digits_from zero n h = ground arith
value-digits_from (suc fuel) n h = elim (Bool-cases (ltb n 10)) [
  | inl e ↦ ground arith
  | inr e ↦ ground (
    arith,
    value-append 0 (digits_from (suc fuel) (n / 10)) ((b'0' + n % 10) ∷ []),
    value-digits_from fuel (n / 10) (ground arith),
  )
]

pub value-digits : (n : ℕ) → value 0 (digits n) ≡ n
unfolding digits
value-digits n = value-digits_from n n (omega arith)

IsFree-append : (sep : ℕ) (s t : Text) → IsFree sep s → IsFree sep t → IsFree sep (s ++ t)
IsFree-append sep [] t h k = k
IsFree-append sep (c ∷ s) t h k = (h.0, IsFree-append sep s t h.1 k)

digits_from-IsFree : (fuel n : ℕ) → IsFree b':' (digits_from fuel n)
unfolding digits_from
digits_from-IsFree zero n = tt
digits_from-IsFree (suc fuel) n = elim (Bool-cases (ltb n 10)) [
  | inl e ↦ rw (e, digits_from) ((λ same. ground arith), tt)
  | inr e ↦
      rw (e, digits_from)
        (IsFree-append b':' (digits_from fuel (n / 10)) ((b'0' + n % 10) ∷ [])
          (digits_from-IsFree fuel (n / 10)) ((λ same. omega (arith, same)), tt))
]

pub digits-IsFree : (n : ℕ) → IsFree b':' (digits n)
unfolding digits
digits-IsFree n = digits_from-IsFree (suc n) n

pub all_chars-append :
    (p : ℕ → Bool) (s t : Text)
    → all_chars p s ≡ true
    → all_chars p t ≡ true
    → all_chars p (s ++ t) ≡ true
all_chars-append p [] t h k = k
all_chars-append p (c ∷ s) t h k = ground (arith, all_chars-append p s t)

digits_from-digits : (fuel n : ℕ) → all_chars is_digit (digits_from fuel n) ≡ true
unfolding digits_from
digits_from-digits zero n = refl
digits_from-digits (suc fuel) n = elim (Bool-cases (ltb n 10)) [
  | inl e ↦ rw (e, digits_from) (ground arith)
  | inr e ↦
      rw (e, digits_from)
        (all_chars-append is_digit (digits_from fuel (n / 10)) ((b'0' + n % 10) ∷ [])
          (digits_from-digits fuel (n / 10)) (ground arith))
]

-- What is written is digits only, at least one.
pub digits_are_digits : (n : ℕ) → all_chars is_digit (digits n) ≡ true
unfolding digits
digits_are_digits n = digits_from-digits (suc n) n

pub digits_not_empty : (n : ℕ) → is_empty (digits n) ≡ false
unfolding digits digits_from
digits_not_empty n = elim (Bool-cases (ltb n 10)) [
  | inl e ↦ rw e refl
  | inr e ↦ rw e (not_empty (digits_from n (n / 10)) (b'0' + n % 10))
]
  where
    not_empty : (s : Text) (c : ℕ) → is_empty (s ++ (c ∷ [])) ≡ false
    not_empty [] c = refl
    not_empty (d ∷ s) c = refl

written : digits 1070 ≡ text "1070"
unfolding digits
written = refl
