-- ===== src/Wallet/Texts/Tests.antt =====
-- Runs of the texts.
use cardano_infrastructure.Base.{◌≡◌, refl, none, some, ascii}
use cardano_infrastructure.Wallet.Texts.{
  digits, format_uint, parse_digits, parse_uint, with_digit, digit_value, to_lower_byte, base_of,
  checked_underscores, underscores_loop, parse_uint_any,
}

printed : format_uint 1905 ≡ ascii "1905"
unfolding format_uint digits
printed = refl

parsed : parse_uint (ascii "1905") ≡ some 1905
unfolding parse_uint parse_digits with_digit digit_value to_lower_byte
parsed = refl

too_big : parse_uint (ascii "18446744073709551616") ≡ none
unfolding parse_uint parse_digits with_digit digit_value to_lower_byte
too_big = refl

parsed_hex : parse_uint_any (ascii "0x1_f") ≡ some 31
unfolding parse_uint_any parse_digits with_digit digit_value to_lower_byte base_of
    checked_underscores underscores_loop
parsed_hex = refl

misplaced : parse_uint_any (ascii "1__9") ≡ none
unfolding parse_uint_any parse_digits with_digit digit_value to_lower_byte base_of
    checked_underscores underscores_loop
misplaced = refl
