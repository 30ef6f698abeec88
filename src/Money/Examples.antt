-- ===== src/Money/Examples.antt =====
-- Amounts that players type.
use smile4money.Common.{◌≡◌, refl, some, arith}
use smile4money.Common.Text.{text, trim}
use smile4money.Money.{pos, negsuc, format_stroops, format_signed, stake_from_xlm_input}
use smile4money.Money.Precision.{valid, decimals_of, validate_and_convert_xlm_to_stroops}
use smile4money.Money.RoundTrip.{stake_from_xlm_input-format_stroops}
use smile4money.Money.Agreement.{readers_agree}

shown : format_stroops (pos 25000000) ≡ text "2.5"
unfolding format_stroops
shown = refl

shown_signed : format_signed (negsuc 24999999) ≡ text "-2.5"
unfolding format_signed
shown_signed = refl

stake_from_xlm_input-format_stroops_example :
    stake_from_xlm_input (format_stroops (pos 25000000)) ≡ some 25000000
stake_from_xlm_input-format_stroops_example =
    stake_from_xlm_input-format_stroops 25000000 (omega arith)

readers_agree_example :
    validate_and_convert_xlm_to_stroops (text " 1.1234567 ")
    ≡ valid 11234567 (decimals_of (trim (text " 1.1234567 ")))
readers_agree_example =
    readers_agree (text " 1.1234567 ") 11234567 (unfold stake_from_xlm_input in refl)
