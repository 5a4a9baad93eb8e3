-- ===== src/Hid/Device.antt =====
-- The HID state of src/hid.c and its keyboard half: what is held, and the reports that say so.
-- A device works on an outlet, which stands for its two report queues and the USB endpoints: an
-- operation takes the device and the outlet's state, and returns its result, the device and the
-- outlet's state. `usages` is a function on the usage numbers, and `int8_t` fields are byte words.
pub mod Layout
pub mod Typing
pub mod Pointing
pub mod Input
pub mod Release
pub mod Preserves
pub mod Settled
pub mod Motion
use nanokvm_rdp.Prelude.{
  ℕ, zero, suc, ◌+◌, ◌-◌, Bool, true, false, not, List, [], ◌∷◌, ◌++◌, Option, none, some, length,
  replicate, ◌==◌, if◌then◌else◌, bool_eq, u8, bit_and, bit_or,
}
use nanokvm_rdp.Hid.Keymap.{translate_scancode}

-- HidState, without the queues, the counters and the descriptors, except for whether `paste_fd` is
-- open.
pub record Device : Type 0 where
  pub modifiers : ℕ
  pub usages : ℕ → Bool
  pub keyboard_delay_ms : ℕ
  pub keyboard_paste_codepoint : ℕ
  pub keyboard_desynced : Bool
  pub last_x : ℕ
  pub last_y : ℕ
  pub keepalive_at : ℕ
  pub keepalive_dx : ℕ
  pub buttons : ℕ
  pub mouse_buttons : ℕ
  pub wheel : ℕ
  pub pan : ℕ
  pub absolute_report_length : ℕ
  pub paste_open : Bool

-- The arguments of `queue_report`, with the endpoint of the path and what it reads of the state.
pub record Submission : Type 0 where
  pub endpoint : ℕ
  pub bytes : List ℕ
  pub motion : Bool
  pub delay_ms : ℕ
  pub paste_codepoint : ℕ

-- What the operations use of the queues: `queue_report`, whether a queue holds a report, the direct
-- write of a position (`write_absolute_now`), and the reset of both queues.
pub record Outlet (S : Type 0) : Type 0 where
  pub queue_report : S → Submission → Bool × S
  pub keyboard_pending : S → Bool
  pub pointer_pending : S → Bool
  pub write_absolute_now : S → List ℕ → Bool × S
  pub clear : S → S

abbrev pub none_held : ℕ → Bool
none_held usage = false

abbrev pub hold : (ℕ → Bool) → ℕ → Bool → ℕ → Bool
hold usages usage value u = if u == usage then value else usages u

-- The first usages that are held, from `usage` on, while the report has room for them.
unfoldable pub collect : ℕ → ℕ → ℕ → (ℕ → Bool) → List ℕ
collect rounds usage zero usages = []
collect zero usage (suc room) usages = []
collect (suc rounds) usage (suc room) usages =
    let rest = collect rounds (usage + 1) (if usages usage then room else suc room) usages in
    if usages usage then usage ∷ rest else rest

unfoldable pub keyboard_report : Device → List ℕ
keyboard_report d =
    let keys = collect 256 0 6 d.usages in d.modifiers ∷ 0 ∷ (keys ++ replicate (6 - length keys) 0)

abbrev pub reset_keyboard_state : Device → Bool → Device
reset_keyboard_state d desynced = record d {
  usages = none_held;
  modifiers = 0;
  keyboard_desynced = desynced;
}

-- The key of a scan code is a modifier bit or a usage.
unfoldable pub key_held : Device → ℕ → ℕ → Bool
key_held d usage modifier =
    if modifier == 0 then d.usages usage else not (bit_and d.modifiers modifier == 0)

unfoldable pub set_key : Device → ℕ → ℕ → Bool → Device
set_key d usage modifier release =
    if modifier == 0 then record d { usages = hold d.usages usage (not release) } else record d {
      modifiers =
          if release then bit_and d.modifiers (255 - modifier) else bit_or d.modifiers modifier;
    }

module _ {S : Type 0} (out : Outlet S) where
  unfoldable pub send_keyboard : Device → S → Bool × Device × S
  send_keyboard d s =
      let (ok, s') = out.queue_report s (record {
        endpoint = 1;
        bytes = keyboard_report d;
        motion = false;
        delay_ms = d.keyboard_delay_ms;
        paste_codepoint = d.keyboard_paste_codepoint;
      }) in
      (ok, record d { keyboard_desynced = out.keyboard_pending s' }, s')

  -- A key that is held already, or let go already, sends nothing.
  unfoldable pub scancode : Device → ℕ → Bool → Bool → S → Bool × Device × S
  scancode d code extended release s = elim (translate_scancode code extended) [
    | none ↦ (true, d, s)
    | some (usage, modifier) ↦
        if bool_eq (key_held d usage modifier) (not release)
        then (true, d, s)
        else send_keyboard (set_key d usage modifier release) s
  ]
