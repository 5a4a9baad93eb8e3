-- ===== src/Tests/Http.antt =====
-- src/http_api.c at concrete requests.
use nanokvm_rdp.Prelude.{ℕ, ◌≡◌, refl, true, List, [], ◌∷◌, ◌++◌, some, arith}
use nanokvm_rdp.Http.{
  json_field, decode_json_string, decode_from, find_text, find_byte, skip_blanks, starts_with,
  value_behind, double_quote, single_quote,
}
use nanokvm_rdp.Http.Strings.{written, decode_from-written}
use nanokvm_rdp.Http.Input.{wheel_flags, wheel_steps}
use nanokvm_rdp.Prelude.Int.{pos, negsuc}
use nanokvm_rdp.Hid.Device.Pointing.{wheel_detents}

abbrev text_key : List ℕ
text_key = b't' ∷ b'e' ∷ b'x' ∷ b't' ∷ []

-- {"text":"a\"b"}
abbrev body : List ℕ
body =
    b'{' ∷ double_quote ∷ b't' ∷ b'e' ∷ b'x' ∷ b't' ∷ double_quote ∷ b':' ∷ double_quote ∷ b'a' ∷ 92
    ∷ double_quote ∷ b'b' ∷ double_quote ∷ b'}' ∷ []

decoded : decode_json_string body text_key 1024 ≡ some (b'a' ∷ double_quote ∷ b'b' ∷ [])
unfolding decode_json_string json_field decode_from find_text find_byte skip_blanks starts_with
    value_behind
decoded = refl

-- {"text":"'text':'b'"} is taken for the text b, as the key between single quotes is looked for first,
-- and also inside of strings.
abbrev quoting : List ℕ
quoting =
    b'{' ∷ double_quote ∷ b't' ∷ b'e' ∷ b'x' ∷ b't' ∷ double_quote ∷ b':' ∷ double_quote
    ∷ single_quote ∷ b't' ∷ b'e' ∷ b'x' ∷ b't' ∷ single_quote ∷ b':' ∷ single_quote ∷ b'b'
    ∷ single_quote ∷ double_quote ∷ b'}' ∷ []

misread : decode_json_string quoting text_key 1024 ≡ some (b'b' ∷ [])
unfolding decode_json_string json_field decode_from find_text find_byte skip_blanks starts_with
    value_behind
misread = refl

decode_from-written_example :
    decode_from 4 double_quote 0
      (written (b'a' ∷ double_quote ∷ 10 ∷ []) ++ double_quote ∷ b'}' ∷ [])
    ≡ some (b'a' ∷ double_quote ∷ 10 ∷ [])
decode_from-written_example =
    decode_from-written 4 0 (b'a' ∷ double_quote ∷ 10 ∷ []) (b'}' ∷ []) (omega arith)

-- One step up is one detent, and one step down is two, for the agent reads the nine bits as a two's
-- complement.
wheel_up : wheel_detents (wheel_flags true (pos 1)) ≡ pos 1
unfolding wheel_detents wheel_flags wheel_steps
wheel_up = refl

wheel_down : wheel_detents (wheel_flags true (negsuc 0)) ≡ negsuc 1
unfolding wheel_detents wheel_flags wheel_steps
wheel_down = refl
