-- ===== src/Money/Precision.antt =====
-- The precision of an amount that was typed: apps/frontend/src/utils/xlm-precision.ts. The texts of
-- the messages stand for the reasons of a refusal.
use smile4money.Common.{
  ℕ, Bool, ◌&&◌, not, none, some, [], ◌∷◌, ◌++◌, ltb, leb, if◌then◌else◌, length, take, replicate,
  or_else,
}
use smile4money.Common.Text.{Text, trim, is_empty, is_digit, all_chars}
use smile4money.Common.Digits.{value}
use smile4money.Money.{is_whole_number, before_dot, after_dot, pad_end}

abbrev pub max_decimal_places : ℕ
max_decimal_places = 7

pub data PrecisionValidationResult : Type 0 where
  valid : ℕ → ℕ → PrecisionValidationResult
  required not_a_number : PrecisionValidationResult
  exceeds : ℕ → PrecisionValidationResult

-- The length less the place of the first dot less one, and 0 without a dot.
unfoldable pub decimals_of : Text → ℕ
unfolding after_dot
decimals_of s = length (or_else (after_dot s) [])

unfoldable pub count_decimal_places : Text → ℕ
unfolding trim decimals_of
count_decimal_places s = decimals_of (trim s)

-- /^(\d+\.?\d*|\.\d+)$/
unfoldable pub is_number : Text → Bool
unfolding before_dot after_dot
is_number s = elim (after_dot s) [
  | none ↦ is_whole_number (before_dot s)
  | some f ↦
      all_chars is_digit (before_dot s)
      && (all_chars is_digit f && not (is_empty (before_dot s) && is_empty f))
]

unfoldable pub validate_and_convert_xlm_to_stroops : Text → PrecisionValidationResult
unfolding trim is_number count_decimal_places before_dot after_dot pad_end value
validate_and_convert_xlm_to_stroops xlm =
    let s = trim xlm in
    let decimals = count_decimal_places s in
    if is_empty s
    then required
    else if not (is_number s)
    then not_a_number
    else if ltb max_decimal_places decimals
    then exceeds decimals
    else elim (after_dot s) [
      | some frac ↦ valid (value 0 (before_dot s ++ pad_end max_decimal_places frac)) decimals
      | none ↦ valid (value 0 (s ++ replicate max_decimal_places b'0')) decimals
    ]

-- The part between the first dot and the second is all that follows the first in a number.
unfoldable pub round_xlm_to_precision : Text → Text
unfolding trim count_decimal_places before_dot after_dot
round_xlm_to_precision xlm =
    let s = trim xlm in
    if leb (count_decimal_places s) max_decimal_places then s else elim (after_dot s) [
      | none ↦ s
      | some rest ↦ before_dot s ++ (b'.' ∷ take max_decimal_places (before_dot rest))
    ]
