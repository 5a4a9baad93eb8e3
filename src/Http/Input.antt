-- ===== src/Http/Input.antt =====
-- The handlers of the input requests of src/http_api.c, over the router.
use nanokvm_rdp.Prelude.{
  ℕ, ◌+◌, ◌-◌, ◌*◌, ◌/◌, Bool, true, false, ◌&&◌, ◌||◌, not, List, [], ◌∷◌, Option, none, some, ltb,
  leb, ◌==◌, if◌then◌else◌, u16, bit_and, bit_or,
}
use nanokvm_rdp.Prelude.Int.{ℤ, pos, negsuc}
use nanokvm_rdp.Protocol.{Message}
use nanokvm_rdp.Router.{Router, keyboard, absolute_pointer, release_all}
use nanokvm_rdp.Http.{json_field, json_bool}

-- The fields of HttpApi that the requests change.
pub record HttpApi : Type 0 where
  pub router : Router
  pub input_busy : Bool

-- The status of the answer, the state, and the message that was made; the status is 503 if the control
-- channel does not take it.
pub record Handled : Type 0 where
  pub status : ℕ
  pub api : HttpApi
  pub message : Option Message

abbrev pub key_code : List ℕ
key_code = b'c' ∷ b'o' ∷ b'd' ∷ b'e' ∷ []

abbrev pub key_extended : List ℕ
key_extended = b'e' ∷ b'x' ∷ b't' ∷ b'e' ∷ b'n' ∷ b'd' ∷ b'e' ∷ b'd' ∷ []

abbrev pub key_release : List ℕ
key_release = b'r' ∷ b'e' ∷ b'l' ∷ b'e' ∷ b'a' ∷ b's' ∷ b'e' ∷ []

abbrev pub key_up : List ℕ
key_up = b'u' ∷ b'p' ∷ []

abbrev pub key_dx : List ℕ
key_dx = b'd' ∷ b'x' ∷ []

abbrev pub key_dy : List ℕ
key_dy = b'd' ∷ b'y' ∷ []

-- One coordinate of `map_pointer`, where a `long` is not negative.
unfoldable pub map_coordinate : ℕ → ℕ → ℕ → ℕ
map_coordinate frame desktop x =
    let source = if frame == 0 then desktop else frame in
    let inside = if ltb 1 source && leb source x then source - 1 else x in
    if leb source 1 || leb desktop 1 then 0 else u16 (inside * (desktop - 1) / (source - 1))

-- `magnitude` in `handle_wheel`, and whether `steps` is negative.
unfoldable pub wheel_steps : ℤ → ℕ × Bool
wheel_steps (pos n) = (if ltb 120 n then 120 else n, false)
wheel_steps (negsuc n) = (if ltb 120 (n + 1) then 120 else n + 1, true)

unfoldable pub wheel_flags : Bool → ℤ → ℕ
wheel_flags vertical raw =
    let (magnitude, negative) = wheel_steps raw in
    let flags = bit_or (if vertical then 0x0200 else 0x0400) (bit_and magnitude 0x01ff) in
    if negative then bit_or flags 0x0100 else flags

abbrev pub is_zero : ℤ → Bool
is_zero (pos n) = n == 0
is_zero (negsuc n) = false

-- A `long` that is a byte.
abbrev pub byte_value : ℤ → Option ℕ
byte_value (pos n) = if leb n 255 then some n else none
byte_value (negsuc n) = none

unfoldable pub note_input_busy : HttpApi → HttpApi
note_input_busy api = record api {
  input_busy =
      not (api.router.pointer_buttons_held == 0)
      || (not (api.router.keyboard_modifiers == 0) || api.router.control_space_down);
}

-- `send_router_message` and the status of `send_ok`; a message of type 0 is not sent.
unfoldable pub answered : (Message → Bool) → HttpApi → Message → Handled
answered sends api message = record {
  status = if message.type == 0 || sends message then 200 else 503;
  api = api;
  message = if message.type == 0 then none else some message;
}

abbrev pub bad_request : HttpApi → Handled
bad_request api = record { status = 400; api = api; message = none }

module _ (to_long : List ℕ → Option ℤ) (sends : Message → Bool) where
  unfoldable pub json_long : List ℕ → List ℕ → Option ℤ
  json_long json key = elim (json_field json key) [ none ↦ none | some found ↦ to_long found ]

  unfoldable pub handle_key : HttpApi → List ℕ → Handled
  handle_key api body =
      let extended = json_bool body key_extended false in
      let release = json_bool body key_release false || json_bool body key_up false in
      elim (json_long body key_code) [
        | none ↦ bad_request api
        | some value ↦ elim (byte_value value) [
          | none ↦ bad_request api
          | some code ↦
              let (router, message) = keyboard api.router code extended release in
              answered sends (note_input_busy (record api { router = router })) message
        ]
      ]

  unfoldable pub handle_wheel : HttpApi → List ℕ → Handled
  handle_wheel api body =
      let dy : ℤ = elim (json_long body key_dy) [ none ↦ pos 0 | some n ↦ n ] in
      let dx : ℤ = elim (json_long body key_dx) [ none ↦ pos 0 | some n ↦ n ] in
      let flags = if is_zero dy then wheel_flags false dx else wheel_flags true dy in
      let (router, message) = absolute_pointer api.router 0 0 flags true in
      if is_zero dy && is_zero dx
      then bad_request api
      else answered sends (record api { router = router }) message

  unfoldable pub handle_release : HttpApi → Handled
  handle_release api =
      let (router, message) = release_all api.router in
      answered sends (note_input_busy (record api { router = router })) message
