-- ===== src/Router.antt =====
-- The gateway's input router: src/input_router.c and src/input_router.h.
-- A message is a control message whose payload has the `length` bytes that are sent; a 16-bit delta
-- is the word that stands for it. Each function returns the router and the message.
pub mod Delivery
pub mod Text
use nanokvm_rdp.Prelude.{
  ℕ, zero, suc, ◌+◌, ◌-◌, ◌/◌, ◌^◌, Bool, true, false, ◌&&◌, ◌||◌, not, List, [], ◌∷◌, ◌++◌, Option,
  none, some, leb, ◌==◌, if◌then◌else◌, u8, bit_and, bit_or,
}
use nanokvm_rdp.Bytes.{write_u16}
use nanokvm_rdp.Protocol.{
  Message, control_key, control_pointer_abs, control_pointer_rel, control_wheel,
  control_release_all, control_text_utf8, control_synchronize,
}
use nanokvm_rdp.Hid.Keymap.{map_scancode, translate_scancode}
use nanokvm_rdp.Hid.Pointer.{clamp_absolute, pointer_buttons}

pub record Router : Type 0 where
  pub width : ℕ
  pub height : ℕ
  pub swap_alt_command : Bool
  pub pointer_buttons_held : ℕ
  pub keyboard_modifiers : ℕ
  pub control_space_down : Bool

abbrev pub router_init : ℕ → ℕ → Bool → Router
router_init width height swap_alt_command = record {
  width = width;
  height = height;
  swap_alt_command = swap_alt_command;
  pointer_buttons_held = 0;
  keyboard_modifiers = 0;
  control_space_down = false;
}

-- A cleared message.
abbrev pub empty : Message
empty = record { type = 0; payload = [] }

abbrev pub flag : Bool → ℕ
flag b = if b then 1 else 0

-- The modifier of a key, 0 for a key that is none.
abbrev pub modifier_of : ℕ × Bool → ℕ
modifier_of (code, extended) = elim (translate_scancode code extended) [
  | none ↦ 0
  | some (usage, modifier) ↦ modifier
]

unfoldable pub keyboard : Router → ℕ → Bool → Bool → Router × Message
keyboard router code extended release =
    let mapped = map_scancode code extended router.swap_alt_command in
    let modifier = modifier_of mapped in
    let modifiers =
      if release
      then bit_and router.keyboard_modifiers (255 - modifier)
      else u8 (bit_or router.keyboard_modifiers modifier) in
    let space =
      (code == 0x39 && not extended)
      && (not (bit_and modifiers 0x11 == 0) || router.control_space_down) in
    (
      record router {
        keyboard_modifiers = modifiers;
        control_space_down = if space then not release else router.control_space_down;
      },
      record { type = control_key; payload = mapped.0 ∷ flag mapped.1 ∷ flag release ∷ [] },
    )

abbrev pub texted : List ℕ → Bool × Message
texted payload = (true, record { type = control_text_utf8; payload = payload })

-- The result and the message; the router stays as it is.
unfoldable pub unicode : Router → ℕ → Bool → Bool × Message
unicode router code release =
    let tail = λ (shift : ℕ). u8 (bit_or 0x80 (bit_and (code / 2 ^ shift) 0x3f)) in
    if release
    then (true, empty)
    else if code == 0 || (leb 0xd800 code && leb code 0xdfff)
    then (false, empty)
    else if leb code 0x7f
    then texted (u8 code ∷ [])
    else if leb code 0x7ff
    then texted (u8 (bit_or 0xc0 (code / 2 ^ 6)) ∷ tail 0 ∷ [])
    else texted (u8 (bit_or 0xe0 (code / 2 ^ 12)) ∷ tail 6 ∷ tail 0 ∷ [])

abbrev pub let_go : Router → Router
let_go router = record router {
  pointer_buttons_held = 0;
  keyboard_modifiers = 0;
  control_space_down = false;
}

abbrev pub synchronize : Router → Router × Message
synchronize router = (let_go router, record { type = control_synchronize; payload = [] })

abbrev pub release_all : Router → Router × Message
release_all router = (let_go router, record { type = control_release_all; payload = [] })

abbrev pub track_buttons : Router → ℕ → Router
track_buttons router flags = record router {
  pointer_buttons_held = pointer_buttons router.pointer_buttons_held flags;
}

-- `message->length` counts two bytes behind the flags, which the cleared message leaves 0.
unfoldable pub absolute_pointer : Router → ℕ → ℕ → ℕ → Bool → Router × Message
absolute_pointer router x y flags true =
    (router, record { type = control_wheel; payload = write_u16 flags })
absolute_pointer router x y flags false = (
  track_buttons router flags,
  record {
    type = control_pointer_abs;
    payload =
        write_u16 (clamp_absolute x router.width)
        ++ (write_u16 (clamp_absolute y router.height)
            ++ (write_u16 router.width
                ++ (write_u16 router.height ++ (write_u16 flags ++ 0 ∷ 0 ∷ []))));
  },
)

unfoldable pub relative_pointer : Router → ℕ → ℕ → ℕ → Bool → Router × Message
relative_pointer router x_delta y_delta flags true =
    (router, record { type = control_wheel; payload = write_u16 flags })
relative_pointer router x_delta y_delta flags false = (
  track_buttons router flags,
  record {
    type = control_pointer_rel;
    payload =
        write_u16 x_delta
        ++ (write_u16 y_delta ++ pointer_buttons router.pointer_buttons_held flags ∷ []);
  },
)
