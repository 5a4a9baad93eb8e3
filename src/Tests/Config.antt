-- ===== src/Tests/Config.antt =====
-- src/gateway_config.c at concrete arguments.
use nanokvm_rdp.Prelude.{ℕ, ◌≡◌, refl, true, List, [], ◌∷◌, none, arith}
use nanokvm_rdp.Config.{
  read_digits, parse_decimal, in_range, config_defaults, config_parse, set_value,
  parse_option_number, is_value_option, same_text, width_option, direct_gfx_option,
}
use nanokvm_rdp.Config.Decimal.{reference, parse_decimal-number_of}
use nanokvm_rdp.Config.Valid.{IsValid, config_parse-IsValid}

-- 2 ^ 64 + 1, of which a wrapping sum would leave 1.
abbrev long_number : List ℕ
long_number =
    b'1' ∷ b'8' ∷ b'4' ∷ b'4' ∷ b'6' ∷ b'7' ∷ b'4' ∷ b'4' ∷ b'0' ∷ b'7' ∷ b'3' ∷ b'7' ∷ b'0' ∷ b'9'
    ∷ b'5' ∷ b'5' ∷ b'1' ∷ b'6' ∷ b'1' ∷ b'7' ∷ []

parse_decimal-number_of_example : parse_decimal long_number 1 65535 ≡ reference long_number 1 65535
parse_decimal-number_of_example =
    parse_decimal-number_of long_number 1 65535 (omega arith) (omega arith)

parse_decimal-long : parse_decimal long_number 1 65535 ≡ none
unfolding parse_decimal read_digits in_range
parse_decimal-long = refl

abbrev arguments : List (List ℕ)
arguments = direct_gfx_option ∷ width_option ∷ (b'8' ∷ b'0' ∷ b'0' ∷ []) ∷ []

config_parse-IsValid_example : IsValid (config_parse config_defaults arguments).0
config_parse-IsValid_example =
    config_parse-IsValid arguments config_defaults (record { ranges = ground arith })

config_parse-width :
    config_parse config_defaults arguments
    ≡ (record config_defaults { direct_gfx = true; width = 800 }, none)
unfolding config_parse set_value parse_option_number parse_decimal read_digits in_range
    is_value_option same_text
config_parse-width = refl

-- "::1" and "03389"
