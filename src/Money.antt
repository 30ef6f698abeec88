-- ===== src/Money.antt =====
-- Amounts of a wager in stroops, shown and read: apps/frontend/src/utils/payout.ts. Numbers that a
-- string spells are those of its decimal digits.
pub mod Precision
pub mod Padding
pub mod RoundTrip
pub mod Agreement
pub mod Rounding
mod Examples
use smile4money.Common.{
  ℕ, zero, suc, ◌+◌, ◌-◌, ◌*◌, ◌/◌, ◌%◌, Bool, true, false, ◌&&◌, ◌||◌, not, Option, none, some,
  List, [], ◌∷◌, ◌++◌, ltb, leb, ◌==◌, if◌then◌else◌, length, replicate, or_else,
}
use smile4money.Common.Text.{Text, text, trim, is_empty, is_digit, is_truthy, all_chars}
use smile4money.Common.Digits.{digits, value}

abbrev pub stroops_per_xlm : ℕ
stroops_per_xlm = 10000000

abbrev pub platform_fee_bps : ℕ
platform_fee_bps = 0

abbrev pub base_fee_stroops : ℕ
base_fee_stroops = 100

abbrev pub default_resource_fee_stroops : ℕ
default_resource_fee_stroops = 500000

pub data WagerAction : Type 0 where
  create deposit approve : WagerAction

abbrev pub transactions_per_action : WagerAction → ℕ
transactions_per_action create = 1
transactions_per_action deposit = 1
transactions_per_action approve = 1

-- A whole number: `negsuc n` is -(n + 1).
pub data ℤ : Type 0 where
  pos negsuc : ℕ → ℤ

-- `a - b`.
abbrev pub difference : ℕ → ℕ → ℤ
difference a b = if leb b a then pos (a - b) else negsuc (b - a - 1)

pub record FeeConfig : Type 0 where
  pub resource_fee_stroops : ℕ

-- A text of digits only, at least one: /^\d+$/.
abbrev pub is_whole_number : Text → Bool
is_whole_number s = not (is_empty s) && all_chars is_digit s

abbrev pub positive : ℕ → Option ℕ
positive n = if ltb 0 n then some n else none

unfoldable pub fee_config_from_env : Option Text → FeeConfig
unfolding trim value
fee_config_from_env raw =
    let s = trim (or_else raw []) in
    record {
      resource_fee_stroops =
          if is_whole_number s && ltb 0 (value 0 s)
          then value 0 s
          else default_resource_fee_stroops;
    }

pub record OutcomeAmounts : Type 0 where
  pub gross : ℕ
  pub net : ℤ

pub record PayoutBreakdown : Type 0 where
  pub stake : ℕ
  pub platform_fee : ℕ
  pub win : OutcomeAmounts
  pub draw : OutcomeAmounts
  pub loss : OutcomeAmounts
  pub estimated_network_fee : ℕ

-- `none`: a stake that is not positive throws.
unfoldable pub compute_payout_breakdown : ℕ → WagerAction → FeeConfig → Option PayoutBreakdown
compute_payout_breakdown stake action config =
    let pot = stake * 2 in
    let platform_fee = (pot * platform_fee_bps) / 10000 in
    let win_gross = pot - platform_fee in
    let per_transaction = base_fee_stroops + config.resource_fee_stroops in
    if ltb 0 stake
    then some (record {
      stake = stake;
      platform_fee = platform_fee;
      win = record { gross = win_gross; net = difference win_gross stake };
      draw = record { gross = stake; net = pos 0 };
      loss = record { gross = 0; net = difference 0 stake };
      estimated_network_fee = per_transaction * transactions_per_action action;
    })
    else none

unfoldable pub pad_start : ℕ → Text → Text
pad_start n s = replicate (n - length s) b'0' ++ s

unfoldable pub pad_end : ℕ → Text → Text
pad_end n s = s ++ replicate (n - length s) b'0'

-- `replace(/0+$/, '')`.
unfoldable pub without_trailing_zeros : Text → Text
without_trailing_zeros [] = []
without_trailing_zeros (c ∷ s) =
    let rest = without_trailing_zeros s in if is_empty rest && (c == b'0') then [] else c ∷ rest

unfoldable pub format_abs : ℕ → Text
unfolding digits pad_start without_trailing_zeros
format_abs n =
    let fraction = without_trailing_zeros (pad_start 7 (digits (n % stroops_per_xlm))) in
    digits (n / stroops_per_xlm) ++ (if is_empty fraction then [] else b'.' ∷ fraction)

unfoldable pub format_stroops : ℤ → Text
unfolding format_abs
format_stroops (pos n) = format_abs n
format_stroops (negsuc n) = b'-' ∷ format_abs (n + 1)

unfoldable pub format_signed : ℤ → Text
unfolding format_stroops
format_signed (pos zero) = format_stroops (pos 0)
format_signed (pos (suc n)) = b'+' ∷ format_stroops (pos (suc n))
format_signed (negsuc n) = format_stroops (negsuc n)

-- What stands before the first dot, and what after it, if there is one.
unfoldable pub before_dot : Text → Text
before_dot [] = []
before_dot (c ∷ s) = if c == b'.' then [] else c ∷ before_dot s

unfoldable pub after_dot : Text → Option Text
after_dot [] = none
after_dot (c ∷ s) = if c == b'.' then some s else after_dot s

abbrev pub is_fraction : Option Text → Bool
is_fraction none = true
is_fraction (some f) = is_whole_number f && leb (length f) 7

-- /^\d+(\.\d{1,7})?$/
unfoldable pub is_xlm_input : Text → Bool
unfolding before_dot after_dot
is_xlm_input s = is_whole_number (before_dot s) && is_fraction (after_dot s)

unfoldable pub stake_from_xlm_input : Text → Option ℕ
unfolding trim is_xlm_input before_dot after_dot value pad_end
stake_from_xlm_input input =
    let s = trim input in
    if is_xlm_input s
    then positive
        (value 0 (before_dot s) * stroops_per_xlm + value 0 (pad_end 7 (or_else (after_dot s) [])))
    else none

unfoldable pub stake_from_stroops : Option Text → Option ℕ
unfolding trim value
stake_from_stroops none = none
stake_from_stroops (some input) =
    let s = trim input in if is_whole_number s then positive (value 0 s) else none
