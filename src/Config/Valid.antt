-- ===== src/Config/Valid.antt =====
-- The configurations that `gateway_config_parse` of src/gateway_config.c can leave.
use nanokvm_rdp.Prelude.{
  ℕ, ◌-◌, ◌≤◌, ◌≡◌, refl, Bool, true, false, ◌||◌, List, [], ◌∷◌, Option, none, some, length, ltb,
  leb, ◌==◌, if◌then◌else◌, arith, Bool-cases, Option-cases, inl, inr,
}
use nanokvm_rdp.Config.{
  GatewayConfig, ConfigError, bind_address_size, read_digits, in_range, parse_decimal, split_last,
  listen_at, parse_listen, Parsed, parse_option_number, is_value_option, set_listen, set_value,
  unless_failed, config_parse, same_text, listen_option, cert_option, key_option, width_option,
  height_option, bitrate_option, control_port_option, video_port_option, http_port_option,
  jpeg_quality_option, direct_gfx_option, swap_alt_command_option,
}

abbrev pub InRange : ℕ → ℕ → ℕ → Type 0
InRange minimum maximum n = (minimum ≤ n) × (n ≤ maximum)

-- The host fits its array with the NUL, and every number is in its range.
abbrev pub Ranges : GatewayConfig → Type 0
Ranges config =
    InRange 1 (bind_address_size - 1) (length config.bind_address)
    × InRange 1 65535 config.port
    × InRange 1 8192 config.width
    × InRange 1 8192 config.height
    × InRange 1 65535 config.bitrate
    × InRange 1 65535 config.control_port
    × InRange 1 65535 config.video_port
    × InRange 1 65535 config.http_port
    × InRange 2 31 config.jpeg_quality

pub record IsValid (config : GatewayConfig) : Type 0 where
  pub ranges : Ranges config

in_range-InRange :
    (minimum maximum n : ℕ) (o : Option ℕ)
    → in_range minimum maximum o ≡ some n
    → InRange minimum maximum n
unfolding in_range
in_range-InRange minimum maximum n none h = absurd cc
in_range-InRange minimum maximum n (some r) h = elim (Bool-cases (ltb r minimum || ltb maximum r)) [
  | inl e ↦ absurd (let k : none ≡ some n = rw e at h in cc)
  | inr e ↦ let k : some r ≡ some n = rw e at h in let same : r ≡ n = cc in ground (arith, e, same)
]

parse_decimal-InRange :
    (text : List ℕ) (minimum maximum n : ℕ)
    → parse_decimal text minimum maximum ≡ some n
    → InRange minimum maximum n
unfolding parse_decimal
parse_decimal-InRange [] minimum maximum n h = absurd cc
parse_decimal-InRange (c ∷ text) minimum maximum n h =
    in_range-InRange minimum maximum n (read_digits maximum 0 (c ∷ text)) h

parse_option_number-IsValid :
    (config : GatewayConfig) (option value : List ℕ) (minimum maximum : ℕ) (put : ℕ → GatewayConfig)
    → IsValid config
    → ((n : ℕ) → InRange minimum maximum n → IsValid (put n))
    → IsValid (parse_option_number config option value minimum maximum put).0
unfolding parse_option_number
parse_option_number-IsValid config option value minimum maximum put v p =
    elim (Option-cases (parse_decimal value minimum maximum)) [
      | inl e ↦ rw (e, parse_option_number) v
      | inr (n, e) ↦
          rw (e, parse_option_number) (p n (parse_decimal-InRange value minimum maximum n e))
    ]

if-IsValid :
    (test : Bool) (r r' : Parsed) → IsValid r.0 → IsValid r'.0 → IsValid (if test then r else r').0
if-IsValid true r r' p p' = p
if-IsValid false r r' p p' = p'

abbrev Holds : Option GatewayConfig → Type 0
Holds none = Unit
Holds (some config) = IsValid config

if-Holds :
    (test : Bool) (o : Option GatewayConfig)
    → (test ≡ false → Holds o)
    → Holds (if test then none else o)
if-Holds true o p = tt
if-Holds false o p = p refl

listen_at-Holds :
    (config : GatewayConfig) (host number : List ℕ)
    → IsValid config
    → Holds (listen_at config host number)
unfolding listen_at
listen_at-Holds config host number v = if-Holds (length host == 0 || length number == 0) _ (λ a.
    if-Holds (leb bind_address_size (length host)) _ (λ b.
      elim (Option-cases (parse_decimal number 1 65535)) [
        | inl e ↦ rw e tt
        | inr (n, e) ↦
            let r = parse_decimal-InRange number 1 65535 n e in
            rw e (record { ranges = ground (arith, r, v.ranges, a, b) })
      ]))

parse_listen-Holds :
    (config : GatewayConfig) (value : List ℕ) → IsValid config → Holds (parse_listen config value)
unfolding parse_listen
parse_listen-Holds config value v = elim (Option-cases (split_last b':' value)) [
  | inl e ↦ rw (e, parse_listen) tt
  | inr ((host, number), e) ↦ rw (e, parse_listen) (listen_at-Holds config host number v)
]

set_listen-IsValid :
    (config : GatewayConfig) (value : List ℕ) → IsValid config → IsValid (set_listen config value).0
unfolding set_listen
set_listen-IsValid config value v = elim (Option-cases (parse_listen config value)) [
  | inl e ↦ rw (e, set_listen) v
  | inr (next, e) ↦
      let holds : Holds (some next) = rw e at (parse_listen-Holds config value v) in
      rw (e, set_listen) holds
]

set_value-IsValid :
    (config : GatewayConfig) (option value : List ℕ)
    → IsValid config
    → IsValid (set_value config option value).0
unfolding set_value
set_value-IsValid config option value v =
    let number : (minimum maximum : ℕ) (put : ℕ → GatewayConfig)
        → ((n : ℕ) → InRange minimum maximum n → IsValid (put n))
        → IsValid (parse_option_number config option value minimum maximum put).0 =
      λ minimum maximum put p.
        parse_option_number-IsValid config option value minimum maximum put v p in
    if-IsValid (same_text option listen_option) _ _ (set_listen-IsValid config value v) (
      if-IsValid (same_text option cert_option) _ _ (record { ranges = v.ranges })
        (if-IsValid (same_text option key_option) _ _ (record { ranges = v.ranges })
          (if-IsValid (same_text option width_option) _ _
            (number 1 8192 _ (λ n r. record { ranges = ground (arith, r, v.ranges) }))
            (if-IsValid (same_text option height_option) _ _
              (number 1 8192 _ (λ n r. record { ranges = ground (arith, r, v.ranges) }))
              (if-IsValid (same_text option bitrate_option) _ _
                (number 1 65535 _ (λ n r. record { ranges = ground (arith, r, v.ranges) }))
                (if-IsValid (same_text option control_port_option) _ _
                  (number 1 65535 _ (λ n r. record { ranges = ground (arith, r, v.ranges) }))
                  (if-IsValid (same_text option video_port_option) _ _
                    (number 1 65535 _ (λ n r. record { ranges = ground (arith, r, v.ranges) }))
                    (if-IsValid (same_text option http_port_option) _ _
                      (number 1 65535 _ (λ n r. record { ranges = ground (arith, r, v.ranges) }))
                      (if-IsValid (same_text option jpeg_quality_option) _ _
                        (number 2 31 _ (λ n r. record { ranges = ground (arith, r, v.ranges) }))
                        v)))))))))

follow-IsValid :
    (next : GatewayConfig) (error : Option ConfigError) (rest : Parsed)
    → IsValid next
    → IsValid rest.0
    → IsValid (unless_failed error next rest).0
follow-IsValid next none rest p q = q
follow-IsValid next (some e) rest p q = p

-- Whatever the arguments are, and whether they are accepted or refused, a valid configuration is
-- left valid: the host is not empty and fits its array with the NUL, and every port, size and rate
-- is in the range of its option.
pub config_parse-IsValid :
    (arguments : List (List ℕ)) (config : GatewayConfig)
    → IsValid config
    → IsValid (config_parse config arguments).0
unfolding config_parse
config_parse-IsValid [] config v = v
config_parse-IsValid (option ∷ []) config v =
    if-IsValid (same_text option direct_gfx_option) _ _ (record { ranges = v.ranges })
      (if-IsValid (same_text option swap_alt_command_option) _ _ (record { ranges = v.ranges })
        (if-IsValid (is_value_option option) _ _ v v))
config_parse-IsValid (option ∷ value ∷ arguments) config v =
    if-IsValid (same_text option direct_gfx_option) _ _
      (config_parse-IsValid (value ∷ arguments) (record config { direct_gfx = true })
        (record { ranges = v.ranges }))
      (if-IsValid (same_text option swap_alt_command_option) _ _
        (config_parse-IsValid (value ∷ arguments) (record config { swap_alt_command = true })
          (record { ranges = v.ranges }))
        (if-IsValid (is_value_option option) _ _
          (let p = set_value-IsValid config option value v in
            follow-IsValid _ (set_value config option value).1 _ p
              (config_parse-IsValid arguments (set_value config option value).0 p))
          v))
