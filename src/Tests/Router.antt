-- ===== src/Tests/Router.antt =====
-- src/input_router.c at concrete input.
use nanokvm_rdp.Prelude.{ℕ, ◌≡◌, ◌<◌, ◌≤◌, ◌⊎◌, true, false, List, arith, none, some, length}
use nanokvm_rdp.Hid.Keymap.{map_scancode}
use nanokvm_rdp.Hid.Pointer.{clamp_absolute}
use nanokvm_rdp.Hid.Utf8.{utf8_decode}
use nanokvm_rdp.Router.{
  Router, router_init, keyboard, absolute_pointer, relative_pointer, release_all, synchronize,
  unicode, texted, empty,
}
use nanokvm_rdp.Router.Delivery.{router-handled}
use nanokvm_rdp.Router.Text.{unicode-handled}
use nanokvm_rdp.Agent.{
  dispatch, scancode, absolute, relative, wheel, release_every, synchronize_hid, type_utf8,
}

abbrev router : Router
router = router_init 1920 1080 true

router-handled_example :
    (dispatch (keyboard router 0x38 false true).1
      ≡ scancode (map_scancode 0x38 false true).0 (map_scancode 0x38 false true).1 true none)
    × (dispatch (absolute_pointer router 2000 7 0x9000 false).1
        ≡ absolute (clamp_absolute 2000 1920) (clamp_absolute 7 1080) 1920 1080 0x9000)
    × (dispatch (relative_pointer router 2000 7 0x9000 false).1
        ≡ relative 2000 7 (relative_pointer router 2000 7 0x9000 false).0.pointer_buttons_held)
    × (dispatch (absolute_pointer router 2000 7 0x9000 true).1 ≡ wheel 0x9000)
    × (dispatch (relative_pointer router 2000 7 0x9000 true).1 ≡ wheel 0x9000)
    × (dispatch (release_all router).1 ≡ release_every)
    × (dispatch (synchronize router).1 ≡ synchronize_hid)
router-handled_example =
    router-handled router 0x38 2000 7 0x9000 false true (omega arith) (omega arith) (omega arith)
      (omega arith) (omega arith)

unicode-handled_example :
    (((0xac00 < 0xd800) ⊎ (0xdfff < 0xac00))
      × (bytes : List ℕ) × (unicode router 0xac00 false ≡ texted bytes)
      × (dispatch (texted bytes).1 ≡ type_utf8 bytes)
      × (utf8_decode bytes 0 ≡ (some 0xac00, length bytes)))
    ⊎ ((0xd800 ≤ 0xac00) × (0xac00 ≤ 0xdfff) × (unicode router 0xac00 false ≡ (false, empty)))
unicode-handled_example = unicode-handled router 0xac00 (omega arith) (omega arith)
