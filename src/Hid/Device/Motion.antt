-- ===== src/Hid/Device/Motion.antt =====
-- How far the reports of a relative motion move the pointer (`hid_relative` of src/hid.c).
use nanokvm_rdp.Prelude.{
  ℕ, zero, suc, ◌+◌, ◌-◌, ◌*◌, ◌^◌, ◌<◌, ◌≤◌, ◌≡◌, refl, sym, ap, ◌∙◌, Bool, true, false, ◌&&◌, not,
  List, [], ◌∷◌, ◌++◌, get_or, ◌==◌, if◌then◌else◌, arith, Bool-cases, inl, inr, bit_and, bit_xor,
}
use nanokvm_rdp.Prelude.Int.{
  ℤ, pos, pos_part, neg_part, ◌+ℤ◌, ◌-ℤ◌, int_laws, signed_8, signed_16, byte_of,
}
use nanokvm_rdp.Hid.Device.{Device, Outlet, Submission}
use nanokvm_rdp.Hid.Device.Pointing.{
  absolute_report, send_absolute, send_relative, move, relative, step_of, is_zero,
  touch_buttons_mask, mouse_buttons_mask,
}

-- An outlet that takes every report and remembers it.
abbrev pub recorder : Outlet (List Submission)
recorder = record {
  queue_report = λ s submission. (true, s ++ submission ∷ []);
  keyboard_pending = λ s. false;
  pointer_pending = λ s. false;
  write_absolute_now = λ s bytes. (false, s);
  clear = λ s. [];
}

+ℤ_assoc : (a b c : ℤ) → a +ℤ (b +ℤ c) ≡ a +ℤ b +ℤ c
+ℤ_assoc a b c = omega int_laws

-- What byte `k` of the mouse reports adds up to, as signed bytes.
abbrev part_of : ℕ → Submission → ℤ
part_of k submission =
    if submission.endpoint == 2 then signed_8 (get_or submission.bytes k 0) else pos 0

unfoldable pub travel : ℕ → List Submission → ℤ
travel k [] = pos 0
travel k (submission ∷ s) = part_of k submission +ℤ travel k s

travel-end :
    (k : ℕ) (s : List Submission) (submission : Submission)
    → travel k (s ++ submission ∷ []) ≡ travel k s +ℤ part_of k submission
unfolding travel
travel-end k [] submission = omega int_laws
travel-end k (x ∷ s) submission =
    ap (part_of k x +ℤ◌) (travel-end k s submission)
    ∙ +ℤ_assoc (part_of k x) (travel k s) (part_of k submission)

magnitude : ℤ → ℕ
magnitude x = pos_part x + neg_part x

step_of-byte : (x : ℤ) → signed_8 (byte_of (step_of x)) ≡ step_of x
unfolding step_of
step_of-byte x = ground arith

step_of-nearer : (x : ℤ) → magnitude (x -ℤ step_of x) ≤ magnitude x - 127
unfolding magnitude step_of ◌-ℤ◌
step_of-nearer x = ground arith

is_zero-eq : (x : ℤ) → is_zero x ≡ true → x ≡ pos 0
is_zero-eq x h = ground (arith, h)

-- A step, and then what is left of a number.
step-rest : (a x s : ℤ) → a +ℤ s +ℤ (x -ℤ s) ≡ a +ℤ x
step-rest a x s = omega int_laws

+ℤ_zero : (a : ℤ) → a +ℤ pos 0 ≡ a
+ℤ_zero a = omega int_laws

pub record Moves (before after : List Submission) (x y : ℤ) : Type 0 where
  pub across : travel 1 after ≡ travel 1 before +ℤ x
  pub down : travel 2 after ≡ travel 2 before +ℤ y

-- One report of a motion.
send_relative-Moves :
    (d : Device) (x y : ℤ) (s : List Submission)
    → Moves s
        (send_relative recorder d (byte_of (step_of x)) (byte_of (step_of y)) 0 s).1
        (step_of x)
        (step_of y)
unfolding send_relative
send_relative-Moves d x y s =
    let submission : Submission = record {
      endpoint = 2;
      bytes =
          bit_and d.buttons mouse_buttons_mask ∷ byte_of (step_of x) ∷ byte_of (step_of y) ∷ 0 ∷ [];
      motion = false;
      delay_ms = 0;
      paste_codepoint = 0;
    } in
    record {
      across = rw (step_of-byte x) at (travel-end 1 s submission);
      down = rw (step_of-byte y) at (travel-end 2 s submission);
    }

still-Moves : (s : List Submission) (x y : ℤ) → x ≡ pos 0 → y ≡ pos 0 → Moves s s x y
still-Moves s x y ex ey = record {
  across = sym (ap (travel 1 s +ℤ◌) ex ∙ +ℤ_zero (travel 1 s));
  down = sym (ap (travel 2 s +ℤ◌) ey ∙ +ℤ_zero (travel 2 s));
}

Moves-step :
    (s t u : List Submission) (x y dx dy : ℤ)
    → Moves s t dx dy
    → Moves t u (x -ℤ dx) (y -ℤ dy)
    → Moves s u x y
Moves-step s t u x y dx dy m n = record {
  across = n.across ∙ ap (λ a. a +ℤ (x -ℤ dx)) m.across ∙ step-rest (travel 1 s) x dx;
  down = n.down ∙ ap (λ a. a +ℤ (y -ℤ dy)) m.down ∙ step-rest (travel 2 s) y dy;
}

magnitude-zero : (x : ℤ) → magnitude x ≤ 0 → x ≡ pos 0
unfolding magnitude
magnitude-zero x h = ground (arith, h)

move-Moves :
    (rounds : ℕ) (d : Device) (x y : ℤ) (s : List Submission)
    → magnitude x ≤ rounds * 127
    → magnitude y ≤ rounds * 127
    → ((move recorder rounds d x y s).0 ≡ true) × Moves s (move recorder rounds d x y s).1 x y
unfolding move send_relative
move-Moves zero d x y s hx hy =
    (refl, still-Moves s x y (magnitude-zero x (omega arith)) (magnitude-zero y (omega arith)))
move-Moves (suc rounds) d x y s hx hy = elim (Bool-cases (is_zero x && is_zero y)) [
  | inl z ↦ rw z (
    refl,
    still-Moves s x y (is_zero-eq x (ground (arith, z))) (is_zero-eq y (ground (arith, z))),
  )
  | inr z ↦
      let dx = step_of x in
      let dy = step_of y in
      let t = (send_relative recorder d (byte_of dx) (byte_of dy) 0 s).1 in
      let rest =
        move-Moves rounds d (x -ℤ dx) (y -ℤ dy) t (omega (arith, step_of-nearer x))
          (omega (arith, step_of-nearer y)) in
      rw z (rest.0, Moves-step s t _ x y dx dy (send_relative-Moves d x y s) rest.1)
]

Moves-trans :
    (s t u : List Submission) (x y : ℤ) → Moves s t (pos 0) (pos 0) → Moves t u x y → Moves s u x y
Moves-trans s t u x y m n = record {
  across = n.across ∙ ap (λ a. a +ℤ x) (m.across ∙ +ℤ_zero (travel 1 s));
  down = n.down ∙ ap (λ a. a +ℤ y) (m.down ∙ +ℤ_zero (travel 2 s));
}

magnitude-signed_16 : (x : ℕ) → x < 2 ^ 16 → magnitude (signed_16 x) ≤ 259 * 127
unfolding magnitude
magnitude-signed_16 x h = ground (arith, h)

-- The report for the touch screen, when a side button changes, does not move the mouse.
send_absolute-Moves :
    (d : Device) (s : List Submission)
    → Moves s (send_absolute recorder d false s).2 (pos 0) (pos 0)
unfolding send_absolute
send_absolute-Moves d s =
    let submission : Submission = record {
      endpoint = 3;
      bytes = absolute_report d;
      motion = false;
      delay_ms = 0;
      paste_codepoint = 0;
    } in
    record { across = travel-end 1 s submission; down = travel-end 2 s submission }

send_relative-still :
    (d : Device) (s : List Submission)
    → Moves s (send_relative recorder d 0 0 0 s).1 (pos 0) (pos 0)
unfolding step_of
send_relative-still d s = send_relative-Moves d (pos 0) (pos 0) s

-- A call that succeeds and moves the pointer by (x, y).
pub record Travels (s : List Submission) (x y : ℤ) (r : Bool × Device × List Submission)
    : Type 0 where
  pub done : r.0 ≡ true
  pub moves : Moves s r.2 x y

if-Travels :
    (s : List Submission) (x y : ℤ) (test : Bool) (r r' : Bool × Device × List Submission)
    → (test ≡ true → Travels s x y r)
    → (test ≡ false → Travels s x y r')
    → Travels s x y (if test then r else r')
if-Travels s x y true r r' p p' = p refl
if-Travels s x y false r r' p p' = p' refl

-- A side button or none: what is sent for it succeeds and does not move the pointer.
side-Moves :
    (side : Bool) (d : Device) (s : List Submission)
    → Moves s (if side then (send_absolute recorder d false s).2 else s) (pos 0) (pos 0)
side-Moves true d s = send_absolute-Moves d s
side-Moves false d s = still-Moves s (pos 0) (pos 0) refl refl

signed_16-zero : (x : ℕ) → x == 0 ≡ true → signed_16 x ≡ pos 0
signed_16-zero x h = ground (arith, h)

-- A relative motion succeeds when its reports are taken, and the reports together move the pointer
-- by the 16-bit two's complement numbers of the message, whatever the buttons do.
pub relative-Travels :
    (d : Device) (x y buttons : ℕ) (s : List Submission)
    → x < 2 ^ 16
    → y < 2 ^ 16
    → Travels s (signed_16 x) (signed_16 y) (relative recorder d x y buttons s)
unfolding relative send_absolute send_relative
relative-Travels d x y buttons s hx hy =
    let next = bit_and buttons touch_buttons_mask in
    let changed = bit_xor d.buttons next in
    let held = record d { buttons = next; mouse_buttons = next } in
    let side = not (bit_and changed 0x18 == 0) in
    let r = send_absolute recorder held false s in
    let d' = if side then r.1 else held in
    let t = if side then r.2 else s in
    let m : Moves s t (pos 0) (pos 0) = side-Moves side held s in
    let far =
      move-Moves 259 d' (signed_16 x) (signed_16 y) t (magnitude-signed_16 x hx)
        (magnitude-signed_16 y hy) in
    if-Travels s (signed_16 x) (signed_16 y) (side && not true) _ _
      (λ e. absurd (ground (arith, e)))
      (λ e.
        if-Travels s (signed_16 x) (signed_16 y) (x == 0 && y == 0) _ _
          (λ z.
            let zx = signed_16-zero x (ground (arith, z)) in
            let zy = signed_16-zero y (ground (arith, z)) in
            let clicked = Moves-trans s t _ (signed_16 x) (signed_16 y) m (
              Moves-trans t _ _ (signed_16 x) (signed_16 y) (send_relative-still d' t) (
                still-Moves (send_relative recorder d' 0 0 0 t).1 (signed_16 x) (signed_16 y) zx
                  zy)) in
            if-Travels s (signed_16 x) (signed_16 y) (bit_and changed mouse_buttons_mask == 0) _ _
              (λ b. record {
                done = refl;
                moves =
                    Moves-trans s t t (signed_16 x) (signed_16 y) m
                      (still-Moves t (signed_16 x) (signed_16 y) zx zy);
              })
              (λ b. record { done = refl; moves = clicked }))
          (λ z. record {
            done = far.0;
            moves = Moves-trans s t _ (signed_16 x) (signed_16 y) m far.1;
          }))
