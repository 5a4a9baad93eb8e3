-- ===== src/Config.antt =====
-- The options of the gateway, src/gateway_config.c. A C string is the list of its bytes, without the
-- NUL at its end; the arguments are those behind the program's name. `gateway_config_parse` returns
-- the configuration as far as it has changed it, and the error.
pub mod Decimal
pub mod Valid
pub mod Listen
use nanokvm_rdp.Prelude.{
  ℕ, ◌+◌, ◌-◌, ◌*◌, ◌/◌, ◌%◌, ◌^◌, Bool, true, false, ◌&&◌, ◌||◌, List, [], ◌∷◌, Option, none, some,
  length, ltb, leb, ◌==◌, if◌then◌else◌, u16, add_u64, sub_u64, mul_u64,
}

pub record GatewayConfig : Type 0 where
  pub bind_address : List ℕ
  pub port : ℕ
  pub certificate : List ℕ
  pub private_key : List ℕ
  pub width : ℕ
  pub height : ℕ
  pub bitrate : ℕ
  pub control_port : ℕ
  pub video_port : ℕ
  pub http_port : ℕ
  pub jpeg_quality : ℕ
  pub direct_gfx : Bool
  pub swap_alt_command : Bool

-- The size of the array `bind_address`.
abbrev pub bind_address_size : ℕ
bind_address_size = 64

-- What the error's text says.
pub data ConfigError : Type 0 where
  unknown_option missing_value : List ℕ → ConfigError
  invalid_value : List ℕ → List ℕ → ConfigError

-- strcmp(a, b) == 0
unfoldable pub same_text : List ℕ → List ℕ → Bool
same_text [] [] = true
same_text [] (y ∷ ys) = false
same_text (x ∷ xs) [] = false
same_text (x ∷ xs) (y ∷ ys) = x == y && same_text xs ys

-- The loop of `parse_decimal`, with the number that was read so far.
unfoldable pub read_digits : ℕ → ℕ → List ℕ → Option ℕ
read_digits maximum result [] = some result
read_digits maximum result (character ∷ text) =
    let digit = character - b'0' in
    let rest = read_digits maximum (add_u64 (mul_u64 result 10) digit) text in
    if ltb character b'0' || ltb b'9' character
    then none
    else if ltb (sub_u64 maximum digit / 10) result
    then none
    else rest

-- The test behind the loop.
unfoldable pub in_range : ℕ → ℕ → Option ℕ → Option ℕ
in_range minimum maximum none = none
in_range minimum maximum (some result) =
    if ltb result minimum || ltb maximum result then none else some result

unfoldable pub parse_decimal : List ℕ → ℕ → ℕ → Option ℕ
parse_decimal [] minimum maximum = none
parse_decimal (character ∷ text) minimum maximum =
    in_range minimum maximum (read_digits maximum 0 (character ∷ text))

-- strrchr: what is before the last `separator`, and what is behind it.
unfoldable pub split_last : ℕ → List ℕ → Option (List ℕ × List ℕ)
split_last separator [] = none
split_last separator (character ∷ text) = elim (split_last separator text) [
  | some (before, behind) ↦ some (character ∷ before, behind)
  | none ↦ if character == separator then some ([], text) else none
]

-- The part behind the search for the separator.
unfoldable pub listen_at : GatewayConfig → List ℕ → List ℕ → Option GatewayConfig
listen_at config host number =
    let parsed : Option GatewayConfig = elim (parse_decimal number 1 65535) [
      | none ↦ none
      | some port ↦ some (record config { bind_address = host; port = u16 port })
    ] in
    if length host == 0 || length number == 0
    then none
    else if leb bind_address_size (length host)
    then none
    else parsed

unfoldable pub parse_listen : GatewayConfig → List ℕ → Option GatewayConfig
parse_listen config value = elim (split_last b':' value) [
  | none ↦ none
  | some (host, number) ↦ listen_at config host number
]

abbrev pub listen_option : List ℕ
listen_option = b'-' ∷ b'l' ∷ b'i' ∷ b's' ∷ b't' ∷ b'e' ∷ b'n' ∷ []

abbrev pub cert_option : List ℕ
cert_option = b'-' ∷ b'c' ∷ b'e' ∷ b'r' ∷ b't' ∷ []

abbrev pub key_option : List ℕ
key_option = b'-' ∷ b'k' ∷ b'e' ∷ b'y' ∷ []

abbrev pub width_option : List ℕ
width_option = b'-' ∷ b'w' ∷ b'i' ∷ b'd' ∷ b't' ∷ b'h' ∷ []

abbrev pub height_option : List ℕ
height_option = b'-' ∷ b'h' ∷ b'e' ∷ b'i' ∷ b'g' ∷ b'h' ∷ b't' ∷ []

abbrev pub bitrate_option : List ℕ
bitrate_option = b'-' ∷ b'b' ∷ b'i' ∷ b't' ∷ b'r' ∷ b'a' ∷ b't' ∷ b'e' ∷ []

abbrev pub control_port_option : List ℕ
control_port_option =
    b'-' ∷ b'c' ∷ b'o' ∷ b'n' ∷ b't' ∷ b'r' ∷ b'o' ∷ b'l' ∷ b'-' ∷ b'p' ∷ b'o' ∷ b'r' ∷ b't' ∷ []

abbrev pub video_port_option : List ℕ
video_port_option = b'-' ∷ b'v' ∷ b'i' ∷ b'd' ∷ b'e' ∷ b'o' ∷ b'-' ∷ b'p' ∷ b'o' ∷ b'r' ∷ b't' ∷ []

abbrev pub http_port_option : List ℕ
http_port_option = b'-' ∷ b'h' ∷ b't' ∷ b't' ∷ b'p' ∷ b'-' ∷ b'p' ∷ b'o' ∷ b'r' ∷ b't' ∷ []

abbrev pub jpeg_quality_option : List ℕ
jpeg_quality_option =
    b'-' ∷ b'j' ∷ b'p' ∷ b'e' ∷ b'g' ∷ b'-' ∷ b'q' ∷ b'u' ∷ b'a' ∷ b'l' ∷ b'i' ∷ b't' ∷ b'y' ∷ []

abbrev pub direct_gfx_option : List ℕ
direct_gfx_option = b'-' ∷ b'd' ∷ b'i' ∷ b'r' ∷ b'e' ∷ b'c' ∷ b't' ∷ b'-' ∷ b'g' ∷ b'f' ∷ b'x' ∷ []

abbrev pub swap_alt_command_option : List ℕ
swap_alt_command_option =
    b'-' ∷ b's' ∷ b'w' ∷ b'a' ∷ b'p' ∷ b'-' ∷ b'a' ∷ b'l' ∷ b't' ∷ b'-' ∷ b'c' ∷ b'o' ∷ b'm' ∷ b'm'
    ∷ b'a' ∷ b'n' ∷ b'd' ∷ []

abbrev pub Parsed : Type 0
Parsed = GatewayConfig × Option ConfigError

-- An option that is a number between `minimum` and `maximum`, which `put` puts in its place.
unfoldable pub parse_option_number :
    GatewayConfig → List ℕ → List ℕ → ℕ → ℕ → (ℕ → GatewayConfig) → Parsed
parse_option_number config option value minimum maximum put =
    elim (parse_decimal value minimum maximum) [
      | none ↦ (config, some (invalid_value option value))
      | some parsed ↦ (put parsed, none)
    ]

unfoldable pub is_value_option : List ℕ → Bool
is_value_option option =
    same_text option listen_option
    || (same_text option cert_option
        || (same_text option key_option
            || (same_text option width_option
                || (same_text option height_option
                    || (same_text option bitrate_option
                        || (same_text option control_port_option
                            || (same_text option video_port_option
                                || (same_text option http_port_option
                                    || same_text option jpeg_quality_option))))))))

abbrev pub config_defaults : GatewayConfig
config_defaults = record {
  bind_address = b'0' ∷ b'.' ∷ b'0' ∷ b'.' ∷ b'0' ∷ b'.' ∷ b'0' ∷ [];
  port = 3389;
  certificate =
      b'/' ∷ b'r' ∷ b'o' ∷ b'o' ∷ b't' ∷ b'/' ∷ b'n' ∷ b'a' ∷ b'n' ∷ b'o' ∷ b'k' ∷ b'v' ∷ b'm'
      ∷ b'-' ∷ b'r' ∷ b'd' ∷ b'p' ∷ b'/' ∷ b'c' ∷ b'e' ∷ b'r' ∷ b't' ∷ b'.' ∷ b'p' ∷ b'e' ∷ b'm'
      ∷ [];
  private_key =
      b'/' ∷ b'r' ∷ b'o' ∷ b'o' ∷ b't' ∷ b'/' ∷ b'n' ∷ b'a' ∷ b'n' ∷ b'o' ∷ b'k' ∷ b'v' ∷ b'm'
      ∷ b'-' ∷ b'r' ∷ b'd' ∷ b'p' ∷ b'/' ∷ b'k' ∷ b'e' ∷ b'y' ∷ b'.' ∷ b'p' ∷ b'e' ∷ b'm' ∷ [];
  width = 1920;
  height = 1080;
  bitrate = 8000;
  control_port = 3390;
  video_port = 5004;
  http_port = 8080;
  jpeg_quality = 8;
  direct_gfx = false;
  swap_alt_command = false;
}

unfoldable pub set_listen : GatewayConfig → List ℕ → Parsed
set_listen config value = elim (parse_listen config value) [
  | none ↦ (config, some (invalid_value listen_option value))
  | some next ↦ (next, none)
]

-- The chain of comparisons for an option with a value.
unfoldable pub set_value : GatewayConfig → List ℕ → List ℕ → Parsed
set_value config option value =
    let number = parse_option_number config option value in
    if same_text option listen_option
    then set_listen config value
    else if same_text option cert_option
    then (record config { certificate = value }, none)
    else if same_text option key_option
    then (record config { private_key = value }, none)
    else if same_text option width_option
    then number 1 8192 (λ n. record config { width = u16 n })
    else if same_text option height_option
    then number 1 8192 (λ n. record config { height = u16 n })
    else if same_text option bitrate_option
    then number 1 65535 (λ n. record config { bitrate = u16 n })
    else if same_text option control_port_option
    then number 1 65535 (λ n. record config { control_port = u16 n })
    else if same_text option video_port_option
    then number 1 65535 (λ n. record config { video_port = u16 n })
    else if same_text option http_port_option
    then number 1 65535 (λ n. record config { http_port = u16 n })
    else if same_text option jpeg_quality_option
    then number 2 31 (λ n. record config { jpeg_quality = n })
    else (config, some (unknown_option option))

-- An error ends the loop.
abbrev pub unless_failed : Option ConfigError → GatewayConfig → Parsed → Parsed
unless_failed none next rest = rest
unless_failed (some e) next rest = (next, some e)

-- The loop over the arguments; an option with a value takes two.
unfoldable pub config_parse : GatewayConfig → List (List ℕ) → Parsed
config_parse config [] = (config, none)
config_parse config (option ∷ []) =
    if same_text option direct_gfx_option
    then (record config { direct_gfx = true }, none)
    else if same_text option swap_alt_command_option
    then (record config { swap_alt_command = true }, none)
    else if is_value_option option
    then (config, some (missing_value option))
    else (config, some (unknown_option option))
config_parse config (option ∷ value ∷ arguments) =
    let gfx = config_parse (record config { direct_gfx = true }) (value ∷ arguments) in
    let swap = config_parse (record config { swap_alt_command = true }) (value ∷ arguments) in
    let (next, error) = set_value config option value in
    let rest = config_parse next arguments in
    if same_text option direct_gfx_option
    then gfx
    else if same_text option swap_alt_command_option
    then swap
    else if is_value_option option
    then unless_failed error next rest
    else (config, some (unknown_option option))
