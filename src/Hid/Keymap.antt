-- ===== src/Hid/Keymap.antt =====
-- `hid_map_scancode` and `hid_translate_scancode` of src/hid.c: set-1 scan codes to HID usages and
-- modifier bits.
pub mod Swap
use nanokvm_rdp.Prelude.{
  ℕ, ◌+◌, ◌<◌, ◌≡◌, refl, ap, ap₂, Bool, true, false, ◌&&◌, ◌||◌, not, List, [], ◌∷◌, Option, none,
  some, get_or, leb, ◌==◌, if◌then◌else◌, byte_table, all_below, Bool-cases, inl, inr, arith, ◌∙◌,
}

-- The code and the `extended` flag that are sent on, with Alt and Command swapped on request.
unfoldable pub map_scancode : ℕ → Bool → Bool → ℕ × Bool
map_scancode code extended swap_alt_command =
    if not swap_alt_command
    then (code, extended)
    else if code == 0x38
    then (if extended then 0x5c else 0x5b, true)
    else if extended && code == 0x5b
    then (0x38, false)
    else if extended && code == 0x5c
    then (0x38, true)
    else (code, extended)

-- The `normal` array, its gaps filled in.
unfoldable pub normal_usages : List ℕ
normal_usages =
    0 ∷ 0x29 ∷ 0x1e ∷ 0x1f ∷ 0x20 ∷ 0x21 ∷ 0x22 ∷ 0x23 ∷ 0x24 ∷ 0x25 ∷ 0x26 ∷ 0x27 ∷ 0x2d ∷ 0x2e
    ∷ 0x2a ∷ 0x2b ∷ 0x14 ∷ 0x1a ∷ 0x08 ∷ 0x15 ∷ 0x17 ∷ 0x1c ∷ 0x18 ∷ 0x0c ∷ 0x12 ∷ 0x13 ∷ 0x2f
    ∷ 0x30 ∷ 0x28 ∷ 0 ∷ 0x04 ∷ 0x16 ∷ 0x07 ∷ 0x09 ∷ 0x0a ∷ 0x0b ∷ 0x0d ∷ 0x0e ∷ 0x0f ∷ 0x33 ∷ 0x34
    ∷ 0x35 ∷ 0 ∷ 0x31 ∷ 0x1d ∷ 0x1b ∷ 0x06 ∷ 0x19 ∷ 0x05 ∷ 0x11 ∷ 0x10 ∷ 0x36 ∷ 0x37 ∷ 0x38 ∷ 0
    ∷ 0x55 ∷ 0 ∷ 0x2c ∷ 0x39 ∷ 0x3a ∷ 0x3b ∷ 0x3c ∷ 0x3d ∷ 0x3e ∷ 0x3f ∷ 0x40 ∷ 0x41 ∷ 0x42 ∷ 0x43
    ∷ 0x53 ∷ 0x47 ∷ 0x5f ∷ 0x60 ∷ 0x61 ∷ 0x56 ∷ 0x5c ∷ 0x5d ∷ 0x5e ∷ 0x57 ∷ 0x59 ∷ 0x5a ∷ 0x5b
    ∷ 0x62 ∷ 0x63 ∷ 0x67 ∷ 0 ∷ 0x64 ∷ 0x44 ∷ 0x45 ∷ 0x4c ∷ 0 ∷ 0 ∷ 0x49 ∷ 0x4d ∷ 0x4b ∷ 0x4e ∷ 0x4a
    ∷ 0x4f ∷ 0x50 ∷ 0x51 ∷ 0x52 ∷ 0x4c ∷ 0x65 ∷ 0 ∷ 0 ∷ 0 ∷ 0 ∷ 0 ∷ 0 ∷ 0 ∷ 0 ∷ 0 ∷ 0 ∷ 0 ∷ 0 ∷ 0
    ∷ 0 ∷ 0 ∷ 0 ∷ 0 ∷ 0 ∷ 0 ∷ 0 ∷ 0 ∷ 0 ∷ 0 ∷ 0 ∷ 0 ∷ []

-- The two switches: a code with its usage and its modifier.
unfoldable pub extended_keys : List (ℕ × ℕ × ℕ)
extended_keys =
    (0x1c, 0x58, 0)
    ∷ (0x1d, 0, 0x10)
    ∷ (0x35, 0x54, 0)
    ∷ (0x37, 0x46, 0)
    ∷ (0x38, 0, 0x40)
    ∷ (0x47, 0x4a, 0)
    ∷ (0x48, 0x52, 0)
    ∷ (0x49, 0x4b, 0)
    ∷ (0x4b, 0x50, 0)
    ∷ (0x4d, 0x4f, 0)
    ∷ (0x4f, 0x4d, 0)
    ∷ (0x50, 0x51, 0)
    ∷ (0x51, 0x4e, 0)
    ∷ (0x52, 0x49, 0)
    ∷ (0x53, 0x4c, 0)
    ∷ (0x5b, 0, 0x08)
    ∷ (0x5c, 0, 0x80)
    ∷ (0x5d, 0x65, 0)
    ∷ (0x5e, 0x66, 0)
    ∷ (0x5f, 0x82, 0)
    ∷ (0x63, 0x81, 0)
    ∷ []

unfoldable pub modifier_keys : List (ℕ × ℕ × ℕ)
modifier_keys = (0x1d, 0, 0x01) ∷ (0x2a, 0, 0x02) ∷ (0x36, 0, 0x20) ∷ (0x38, 0, 0x04) ∷ []

unfoldable pub find_key : ℕ → List (ℕ × ℕ × ℕ) → Option (ℕ × ℕ)
find_key code [] = none
find_key code ((key, usage, modifier) ∷ keys) =
    let later = find_key code keys in if code == key then some (usage, modifier) else later

-- `none` is the result false, with both outputs 0.
unfoldable pub translate_scancode : ℕ → Bool → Option (ℕ × ℕ)
translate_scancode code true = find_key code extended_keys
translate_scancode code false = elim (find_key code modifier_keys) [
  | some key ↦ some key
  | none ↦
      let usage = get_or normal_usages code 0 in
      if leb 128 code || usage == 0 then none else some (usage, 0)
]
