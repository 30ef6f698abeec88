-- ===== src/Money/Rounding.antt =====
-- An amount with too many decimals, cut to those that stroops have (`roundXlmToPrecision` of
-- apps/frontend/src/utils/xlm-precision.ts).
use smile4money.Common.{ℕ, [], ◌++◌, or_else}
use smile4money.Common.Text.{Text}
use smile4money.Common.Digits.{value}
use smile4money.Money.{before_dot, after_dot}

unfoldable pub all_digits : Text → ℕ
all_digits s = value 0 (before_dot s ++ or_else (after_dot s) [])
