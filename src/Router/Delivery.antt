-- ===== src/Router/Delivery.antt =====
-- What the agent does on the router's messages (src/input_router.c and src/agent.c).
use nanokvm_rdp.Prelude.{
  ℕ, ◌+◌, ◌/◌, ◌^◌, ◌<◌, ◌≡◌, refl, Bool, true, false, not, List, none, get_or, ◌==◌, u8, arith,
}
use nanokvm_rdp.Bytes.{write_u16, read_u16, bit_or-u16}
use nanokvm_rdp.Protocol.{control_wheel}
use nanokvm_rdp.Hid.Keymap.{map_scancode}
use nanokvm_rdp.Hid.Pointer.{clamp_absolute}
use nanokvm_rdp.Router.{
  Router, keyboard, synchronize, release_all, absolute_pointer, relative_pointer, flag,
}
use nanokvm_rdp.Agent.{
  dispatch, scancode, absolute, relative, wheel, release_every, synchronize_hid,
}

word_at :
    (bytes : List ℕ) (at v : ℕ)
    → get_or bytes at 0 ≡ u8 (v / 2 ^ 8)
    → get_or bytes (at + 1) 0 ≡ u8 v
    → v < 2 ^ 16
    → read_u16 bytes at ≡ v
unfolding read_u16
word_at bytes at v high low h =
    rw (high, low) (omega (arith, bit_or-u16 (u8 (v / 2 ^ 8)) (u8 v) (omega arith)))

flag-not : (b : Bool) → not (flag b == 0) ≡ b
flag-not true = refl
flag-not false = refl

clamp_absolute-le : (v d : ℕ) → d < 2 ^ 16 → clamp_absolute v d < 2 ^ 16
unfolding clamp_absolute
clamp_absolute-le v d h = ground (arith, h)

keyboard-handled :
    (router : Router) (code : ℕ) (extended release : Bool)
    → dispatch (keyboard router code extended release).1
      ≡ scancode
          (map_scancode code extended router.swap_alt_command).0
          (map_scancode code extended router.swap_alt_command).1
          release
          none
unfolding dispatch keyboard
keyboard-handled router code extended release =
    rw (flag-not (map_scancode code extended router.swap_alt_command).1, flag-not release)

absolute-handled :
    (router : Router) (x y flags : ℕ)
    → router.width < 2 ^ 16
    → router.height < 2 ^ 16
    → flags < 2 ^ 16
    → dispatch (absolute_pointer router x y flags false).1
      ≡ absolute
          (clamp_absolute x router.width)
          (clamp_absolute y router.height)
          router.width
          router.height
          flags
unfolding dispatch absolute_pointer write_u16
absolute-handled router x y flags hw hh hf =
    let bytes = (absolute_pointer router x y flags false).1.payload in
    rw (
      word_at bytes 0 (clamp_absolute x router.width) refl refl (clamp_absolute-le x _ hw),
      word_at bytes 2 (clamp_absolute y router.height) refl refl (clamp_absolute-le y _ hh),
      word_at bytes 4 router.width refl refl hw,
      word_at bytes 6 router.height refl refl hh,
      word_at bytes 8 flags refl refl hf,
    )

relative-handled :
    (router : Router) (x y flags : ℕ)
    → x < 2 ^ 16
    → y < 2 ^ 16
    → dispatch (relative_pointer router x y flags false).1
      ≡ relative x y (relative_pointer router x y flags false).0.pointer_buttons_held
unfolding dispatch relative_pointer write_u16
relative-handled router x y flags hx hy =
    let bytes = (relative_pointer router x y flags false).1.payload in
    rw (word_at bytes 0 x refl refl hx, word_at bytes 2 y refl refl hy)

wheel-handled :
    (flags : ℕ)
    → flags < 2 ^ 16
    → dispatch (record { type = control_wheel; payload = write_u16 flags }) ≡ wheel flags
unfolding dispatch write_u16
wheel-handled flags h = rw (word_at (write_u16 flags) 0 flags refl refl h)

-- For a screen whose size is two words, the agent does what the router was told, with every value
-- as the gateway had it: the key with the swap applied, the position clamped to the screen with the
-- size and the flags, the two delta words with the buttons the router then holds, the wheel's flags,
-- a release of everything and a synchronization.
pub router-handled :
    (router : Router) (code x y flags : ℕ) (extended release : Bool)
    → router.width < 2 ^ 16
    → router.height < 2 ^ 16
    → x < 2 ^ 16
    → y < 2 ^ 16
    → flags < 2 ^ 16
    → (dispatch (keyboard router code extended release).1
        ≡ scancode
            (map_scancode code extended router.swap_alt_command).0
            (map_scancode code extended router.swap_alt_command).1
            release
            none)
      × (dispatch (absolute_pointer router x y flags false).1
          ≡ absolute
              (clamp_absolute x router.width)
              (clamp_absolute y router.height)
              router.width
              router.height
              flags)
      × (dispatch (relative_pointer router x y flags false).1
          ≡ relative x y (relative_pointer router x y flags false).0.pointer_buttons_held)
      × (dispatch (absolute_pointer router x y flags true).1 ≡ wheel flags)
      × (dispatch (relative_pointer router x y flags true).1 ≡ wheel flags)
      × (dispatch (release_all router).1 ≡ release_every)
      × (dispatch (synchronize router).1 ≡ synchronize_hid)
unfolding absolute_pointer relative_pointer
router-handled router code x y flags extended release hw hh hx hy hf = (
  keyboard-handled router code extended release,
  absolute-handled router x y flags hw hh hf,
  relative-handled router x y flags hx hy,
  wheel-handled flags hf,
  wheel-handled flags hf,
  (unfold dispatch in refl),
  (unfold dispatch in refl),
)
