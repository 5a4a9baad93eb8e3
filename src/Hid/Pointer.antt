-- ===== src/Hid/Pointer.antt =====
-- The pointer's arithmetic in src/hid.c: `hid_clamp_absolute`, `hid_scale_absolute` and
-- `hid_pointer_buttons`.
pub mod Buttons
pub mod Scale
use nanokvm_rdp.Prelude.{
  ℕ, ◌+◌, ◌-◌, ◌*◌, ◌/◌, ◌%◌, ◌^◌, ◌<◌, ◌≤◌, ◌≡◌, Bool, true, false, if◌then◌else◌, ltb, leb, ◌==◌,
  u8, bit_and, bit_or, arith,
}

unfoldable pub clamp_absolute : ℕ → ℕ → ℕ
clamp_absolute value dimension =
    if dimension == 0 then 0 else if ltb value dimension then value else dimension - 1

unfoldable pub scale_absolute : ℕ → ℕ → ℕ
scale_absolute value dimension =
    let scaled = (value * 0x7fff) % 2 ^ 32 / (dimension - 1) in
    let low = if ltb scaled 1 then 1 else scaled in
    if leb dimension 1 then 0x3fff else if ltb 0x7fff low then 0x7fff else low

abbrev pub down : ℕ
down = 0x8000

-- One round of the loop: the button of bit `button` is pressed or released if `flag` is set.
unfoldable pub set_button : ℕ → ℕ → ℕ → ℕ → ℕ
set_button flags flag button buttons =
    if bit_and flags flag == 0
    then buttons
    else if bit_and flags down == 0
    then bit_and buttons (255 - 2 ^ button)
    else u8 (bit_or buttons (2 ^ button))

unfoldable pub pointer_buttons : ℕ → ℕ → ℕ
pointer_buttons buttons flags =
    let one = set_button flags 0x1000 0 buttons in
    let two = set_button flags 0x2000 1 one in
    let three = set_button flags 0x4000 2 two in
    let four = set_button flags 0x0001 3 three in set_button flags 0x0002 4 four
