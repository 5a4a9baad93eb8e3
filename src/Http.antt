-- ===== src/Http.antt =====
-- The input requests of src/http_api.c: the fields of their JSON bodies, and what they send by way of the
-- router. A C string is the list of its bytes before the NUL. `strtol` is the argument `to_long`: the
-- number and whether it read one. A handler returns the status of its answer with the messages that it
-- sends; `sends` says whether the control channel takes one.
pub mod Strings
pub mod Input
use nanokvm_rdp.Prelude.{
  ℕ, zero, suc, ◌+◌, ◌-◌, ◌*◌, ◌/◌, ◌^◌, Bool, true, false, ◌&&◌, ◌||◌, not, List, [], ◌∷◌, ◌++◌,
  Option, none, some, length, take, drop, ltb, leb, ◌==◌, if◌then◌else◌,
}

-- `strncmp(text, prefix, strlen(prefix)) == 0`.
unfoldable pub starts_with : List ℕ → List ℕ → Bool
starts_with [] text = true
starts_with (p ∷ prefix) [] = false
starts_with (p ∷ prefix) (c ∷ text) = p == c && starts_with prefix text

-- `strstr`, as the text from the place found on.
unfoldable pub find_text : List ℕ → List ℕ → Option (List ℕ)
find_text pattern [] = if starts_with pattern [] then some [] else none
find_text pattern (c ∷ text) =
    if starts_with pattern (c ∷ text) then some (c ∷ text) else find_text pattern text

-- `strchr` for a byte that is not NUL.
unfoldable pub find_byte : ℕ → List ℕ → Option (List ℕ)
find_byte byte [] = none
find_byte byte (c ∷ text) = if c == byte then some (c ∷ text) else find_byte byte text

unfoldable pub skip_blanks : List ℕ → List ℕ
skip_blanks [] = []
skip_blanks (c ∷ text) = if c == b' ' || c == 9 then skip_blanks text else c ∷ text

abbrev pub quoted : ℕ → List ℕ → List ℕ
quoted quote key = quote ∷ key ++ quote ∷ []

abbrev pub single_quote : ℕ
single_quote = 39

abbrev pub double_quote : ℕ
double_quote = 34

abbrev pub backslash : ℕ
backslash = 92

unfoldable pub value_behind : List ℕ → Option (List ℕ)
value_behind text = elim (find_byte b':' text) [
  | none ↦ none
  | some found ↦ some (skip_blanks (drop 1 found))
]

unfoldable pub json_field : List ℕ → List ℕ → Option (List ℕ)
json_field json key =
    let size = length key + 2 in
    if leb 64 size then none else elim (find_text (quoted single_quote key) json) [
      | some found ↦ value_behind (drop size found)
      | none ↦ if ltb size 3 then none else elim (find_text (quoted double_quote key) json) [
        | none ↦ none
        | some found ↦ value_behind (drop size found)
      ]
    ]

unfoldable pub json_bool : List ℕ → List ℕ → Bool → Bool
json_bool json key fallback = elim (json_field json key) [
  | none ↦ fallback
  | some found ↦
      if starts_with (b't' ∷ b'r' ∷ b'u' ∷ b'e' ∷ []) found
      then true
      else if starts_with (b'f' ∷ b'a' ∷ b'l' ∷ b's' ∷ b'e' ∷ []) found
      then false
      else fallback
]

-- The loop of `decode_json_string`, with the bytes that were used of `out`.
unfoldable pub decode_from : ℕ → ℕ → ℕ → List ℕ → Option (List ℕ)
decode_from out_size quote used [] = none
decode_from out_size quote used (c ∷ []) = if c == quote then some [] else none
decode_from out_size quote used (c ∷ d ∷ text) =
    let plain = decode_from out_size quote (used + 1) (d ∷ text) in
    let escaped = decode_from out_size quote (used + 1) text in
    let value = if d == b'n' then 10 else if d == b't' then 9 else d in
    if c == quote
    then some []
    else if c == backslash
    then if d == b'u' || leb out_size (used + 1)
      then none
      else elim escaped [ none ↦ none | some rest ↦ some (value ∷ rest) ]
    else if leb out_size (used + 1)
    then none
    else elim plain [ none ↦ none | some rest ↦ some (c ∷ rest) ]

unfoldable pub decode_json_string : List ℕ → List ℕ → ℕ → Option (List ℕ)
decode_json_string json key out_size = elim (json_field json key) [
  | none ↦ none
  | some [] ↦ none
  | some (quote ∷ text) ↦
      if quote == double_quote || quote == single_quote
      then decode_from out_size quote 0 text
      else none
]
