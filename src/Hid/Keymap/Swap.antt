-- ===== src/Hid/Keymap/Swap.antt =====
-- What the Alt/Command swap of src/hid.c does to the keys that reach the host.
use nanokvm_rdp.Prelude.{
  ℕ, ◌<◌, ◌≡◌, refl, ap, ap₂, Bool, true, false, ◌&&◌, Option, none, some, ◌==◌, if◌then◌else◌,
  all_below, all_below-lt, arith,
}
use nanokvm_rdp.Hid.Keymap.{
  map_scancode, translate_scancode, find_key, normal_usages, extended_keys, modifier_keys,
}

-- The modifier bits of Alt and GUI change places, left with left and right with right.
unfoldable pub swap_modifier : ℕ → ℕ
swap_modifier modifier =
    if modifier == 0x04
    then 0x08
    else if modifier == 0x08
    then 0x04
    else if modifier == 0x40
    then 0x80
    else if modifier == 0x80
    then 0x40
    else modifier

unfoldable pub swapped : Option (ℕ × ℕ) → Option (ℕ × ℕ)
swapped none = none
swapped (some (usage, modifier)) = some (usage, swap_modifier modifier)

same_key : Option (ℕ × ℕ) → Option (ℕ × ℕ) → Bool
same_key none none = true
same_key none (some b) = false
same_key (some a) none = false
same_key (some (u, m)) (some (v, n)) = u == v && m == n

same_key-≡ : (a b : Option (ℕ × ℕ)) → same_key a b ≡ true → a ≡ b
unfolding same_key
same_key-≡ none none e = refl
same_key-≡ none (some b) e = ground (arith, e)
same_key-≡ (some a) none e = ground (arith, e)
same_key-≡ (some (u, m)) (some (v, n)) e =
    ap some (ap₂ (λ x y. (x, y)) (ground (arith, e)) (ground (arith, e)))

sends : ℕ × Bool → Option (ℕ × ℕ)
sends (code, extended) = translate_scancode code extended

agrees : Bool → ℕ → Bool
agrees extended code =
    same_key (sends (map_scancode code extended true)) (swapped (translate_scancode code extended))

agrees-all : (extended : Bool) → all_below 256 (agrees extended) ≡ true
unfolding all_below agrees same_key sends map_scancode swapped swap_modifier translate_scancode
    find_key normal_usages extended_keys modifier_keys
agrees-all true = refl
agrees-all false = refl

-- With the swap on, a key sends what it sends without it, except that the bits of Alt and GUI have
-- changed places, left with left and right with right; a code that names no key names none after it.
pub translate_scancode-swapped :
    (code : ℕ) (extended : Bool)
    → code < 256
    → translate_scancode (map_scancode code extended true).0 (map_scancode code extended true).1
      ≡ swapped (translate_scancode code extended)
unfolding agrees sends
translate_scancode-swapped code extended h =
    same_key-≡ (sends (map_scancode code extended true))
      (swapped (translate_scancode code extended))
      (all_below-lt (agrees extended) code 256 h (agrees-all extended))

-- Swapping a code twice, or with the swap off, leaves the code and its flag as they were.
pub map_scancode-map_scancode :
    (code : ℕ) (extended swap : Bool)
    → map_scancode (map_scancode code extended swap).0 (map_scancode code extended swap).1 swap
      ≡ (code, extended)
unfolding map_scancode
map_scancode-map_scancode code extended swap = ground arith
