-- ===== src/Hid/Device/Release.antt =====
-- No key stays down after a text: what src/hid.c leaves held after `hid_type_utf8`, whatever the
-- outlet answers.
use nanokvm_rdp.Prelude.{
  ℕ, zero, suc, ◌<◌, ◌≡◌, ◌≢◌, ◌⊎◌, inl, inr, refl, sym, ap, ◌∙◌, Bool, true, false, ◌&&◌, not,
  List, [], ◌∷◌, get_or, length, leb, ◌==◌, if◌then◌else◌, arith, Bool-cases, Option-cases, ne→==,
  ==_iff, bit_or,
}
use nanokvm_rdp.Hid.Utf8.{utf8_decode}
use nanokvm_rdp.Hid.Device.{Device, Outlet, none_held, hold, send_keyboard, reset_keyboard_state}
use nanokvm_rdp.Hid.Device.Layout.{
  TextKey, ascii_to_hid, hangul_jamo_sequence, codepoint_to_hangul_sequences,
}
use nanokvm_rdp.Hid.Device.Typing.{
  tap_text_key, type_ascii_sequence, type_syllable, type_hangul, type_codepoint, paste_codepoint,
  type_or_paste, type_text,
}
use nanokvm_rdp.Hid.Device.Pointing.{absolute_report, send_absolute, synchronize, release_all}
use nanokvm_rdp.Hid.Device.Input.{finish_typing, type_afresh, type_utf8}

-- The keys that `d` holds are those that `e` holds, and both paste the same.
pub record SameKeys (d e : Device) : Type 0 where
  pub modifiers : d.modifiers ≡ e.modifiers
  pub usages : (u : ℕ) → d.usages u ≡ e.usages u
  pub paste : d.keyboard_paste_codepoint ≡ e.keyboard_paste_codepoint

-- No key is down and nothing is to be pasted.
pub record HoldsNothing (d : Device) : Type 0 where
  pub modifiers : d.modifiers ≡ 0
  pub usages : (u : ℕ) → d.usages u ≡ false
  pub paste : d.keyboard_paste_codepoint ≡ 0

-- If the call succeeds, nothing is held after it.
abbrev Clears : {S : Type 0} → Bool × Device × S → Type 0
Clears r = r.0 ≡ true → HoldsNothing r.1

hold-back :
    (usages : ℕ → Bool) (usage u : ℕ)
    → hold (hold usages usage true) usage (usages usage) u ≡ usages u
hold-back usages usage u = elim (Bool-cases (u == usage)) [
  | inl e ↦ rw e (ap usages (sym ((==_iff u usage).0 e)))
  | inr e ↦ rw e
]

module _ {S : Type 0} where
  false-Clears : (d : Device) (s : S) → Clears {S = S} (false, d, s)
  false-Clears d s ok = absurd (ground (arith, ok))

  if-Clears :
      (test : Bool) (r r' : Bool × Device × S)
      → Clears r
      → Clears r'
      → Clears (if test then r else r')
  if-Clears true r r' p p' = p
  if-Clears false r r' p p' = p'

  then-Clears :
      (r next : Bool × Device × S) (stop : Device) (s : S)
      → Clears r
      → (HoldsNothing r.1 → Clears next)
      → Clears (if r.0 then next else (false, stop, s))
  then-Clears r next stop s p q = elim (Bool-cases r.0) [
    | inl e ↦ rw e (q (p e))
    | inr e ↦ rw e (λ ok. absurd (ground (arith, ok)))
  ]

module _ {S : Type 0} (out : Outlet S) where
  tap_text_key-SameKeys :
      (d : Device) (key : TextKey) (s : S)
      → (tap_text_key out d key s).0 ≡ true
      → SameKeys (tap_text_key out d key s).1 d
  unfolding tap_text_key send_keyboard
  tap_text_key-SameKeys d key s =
      let down = record d {
        modifiers = bit_or d.modifiers key.modifier;
        usages = hold d.usages key.usage true;
      } in
      elim (Bool-cases (send_keyboard out down s).0) [
        | inl e ↦
            rw e (λ ok. record {
              modifiers = refl;
              usages = hold-back d.usages key.usage;
              paste = refl;
            })
        | inr e ↦ rw e (λ ok. absurd (ground (arith, ok)))
      ]

  tap_text_key-HoldsNothing :
      (d : Device) (key : TextKey) (s : S) → HoldsNothing d → Clears (tap_text_key out d key s)
  tap_text_key-HoldsNothing d key s h ok =
      let same = tap_text_key-SameKeys d key s ok in
      record {
        modifiers = same.modifiers ∙ h.modifiers;
        usages = λ u. same.usages u ∙ h.usages u;
        paste = same.paste ∙ h.paste;
      }

  type_ascii_sequence-HoldsNothing :
      (sequence : List ℕ) (d : Device) (s : S)
      → HoldsNothing d
      → Clears (type_ascii_sequence out d sequence s)
  unfolding type_ascii_sequence
  type_ascii_sequence-HoldsNothing [] d s h = λ ok. h
  type_ascii_sequence-HoldsNothing (c ∷ sequence) d s h = elim (Option-cases (ascii_to_hid c)) [
    | inl n ↦ rw (n, type_ascii_sequence) (false-Clears d s)
    | inr (key, n) ↦
        let r = tap_text_key out d key s in
        rw (n, type_ascii_sequence)
          (then-Clears r (type_ascii_sequence out r.1 sequence r.2) r.1 r.2
            (tap_text_key-HoldsNothing d key s h)
            (λ h'. type_ascii_sequence-HoldsNothing sequence r.1 r.2 h'))
  ]

  type_syllable-HoldsNothing :
      (d : Device) (lead vowel trail : List ℕ) (s : S)
      → HoldsNothing d
      → Clears (type_syllable out d lead vowel trail s)
  unfolding type_syllable
  type_syllable-HoldsNothing d lead vowel trail s h =
      let first = type_ascii_sequence out d lead s in
      let second = type_ascii_sequence out first.1 vowel first.2 in
      then-Clears first _ first.1 first.2 (type_ascii_sequence-HoldsNothing lead d s h) (λ h₁.
        then-Clears second (type_ascii_sequence out second.1 trail second.2) second.1 second.2
          (type_ascii_sequence-HoldsNothing vowel first.1 first.2 h₁)
          (type_ascii_sequence-HoldsNothing trail second.1 second.2))

  type_hangul-HoldsNothing :
      (d : Device) (codepoint : ℕ) (s : S) → HoldsNothing d → Clears (type_hangul out d codepoint s)
  unfolding type_hangul
  type_hangul-HoldsNothing d codepoint s h =
      elim (Option-cases (codepoint_to_hangul_sequences codepoint)) [
        | inr ((lead, vowel, trail), e) ↦
            rw (e, type_hangul) (type_syllable-HoldsNothing d lead vowel trail s h)
        | inl e ↦ elim (Option-cases (hangul_jamo_sequence codepoint)) [
          | inl f ↦ rw (e, f, type_hangul) (false-Clears d s)
          | inr (sequence, f) ↦
              rw (e, f, type_hangul) (type_ascii_sequence-HoldsNothing sequence d s h)
        ]
      ]

  type_codepoint-HoldsNothing :
      (d : Device) (codepoint : ℕ) (s : S)
      → HoldsNothing d
      → Clears (type_codepoint out d codepoint s)
  unfolding type_codepoint
  type_codepoint-HoldsNothing d codepoint s h =
      let others = type_hangul-HoldsNothing d codepoint s h in
      elim (Bool-cases (leb codepoint 0x7f)) [
        | inr l ↦ rw l others
        | inl l ↦ elim (Option-cases (ascii_to_hid codepoint)) [
          | inl n ↦ rw (l, n, type_codepoint) others
          | inr (key, n) ↦ rw (l, n, type_codepoint) (tap_text_key-HoldsNothing d key s h)
        ]
      ]

  paste_codepoint-HoldsNothing :
      (d : Device) (codepoint : ℕ) (s : S)
      → HoldsNothing d
      → Clears (paste_codepoint out d codepoint s)
  unfolding paste_codepoint send_keyboard
  paste_codepoint-HoldsNothing d codepoint s h =
      let ready = record d {
        usages = hold none_held 0x19 true;
        modifiers = 0x08;
        keyboard_paste_codepoint = codepoint;
      } in
      let first = send_keyboard out ready s in
      let pasted = record first.1 { keyboard_paste_codepoint = 0 } in
      let released = record pasted {
        usages = hold first.1.usages 0x19 false;
        modifiers = d.modifiers;
      } in
      if-Clears d.paste_open _ (false, d, s)
        (if-Clears first.0 (send_keyboard out released first.2) (false, pasted, first.2)
          (λ ok. record {
            modifiers = h.modifiers;
            usages = hold-back none_held 0x19;
            paste = refl;
          })
          (false-Clears pasted first.2))
        (false-Clears d s)

  type_or_paste-HoldsNothing :
      (d : Device) (codepoint : ℕ) (s : S)
      → HoldsNothing d
      → Clears (type_or_paste out d codepoint s)
  unfolding type_or_paste
  type_or_paste-HoldsNothing d codepoint s h =
      if-Clears _ (type_codepoint out d codepoint s) (paste_codepoint out d codepoint s)
        (type_codepoint-HoldsNothing d codepoint s h) (paste_codepoint-HoldsNothing d codepoint s h)

  type_text-HoldsNothing :
      (rounds : ℕ) (d : Device) (text : List ℕ) (offset : ℕ) (s : S)
      → HoldsNothing d
      → Clears (type_text out rounds d text offset s)
  unfolding type_text
  type_text-HoldsNothing zero d text offset s h = λ ok. h
  type_text-HoldsNothing (suc rounds) d text offset s h =
      elim (Bool-cases (leb (length text) offset)) [
        | inl l ↦ rw l (λ ok. h)
        | inr l ↦ elim (Option-cases (utf8_decode text offset).0) [
          | inl n ↦ rw (l, n, type_text) (false-Clears d s)
          | inr (codepoint, n) ↦
              let r = type_or_paste out d codepoint s in
              let after = (utf8_decode text offset).1 in
              rw (l, n, type_text)
                (then-Clears r (type_text out rounds r.1 text after r.2) r.1 r.2
                  (type_or_paste-HoldsNothing d codepoint s h)
                  (λ h'. type_text-HoldsNothing rounds r.1 text after r.2 h'))
        ]
      ]

  send_absolute-SameKeys :
      (d : Device) (motion : Bool) (s : S) → SameKeys (send_absolute out d motion s).1 d
  unfolding send_absolute
  send_absolute-SameKeys d motion s =
      elim (Bool-cases (
        (motion && (d.wheel == 0 && d.pan == 0))
        && (out.write_absolute_now s (absolute_report d)).0)) [
          | inl e ↦ rw e (record { modifiers = refl; usages = λ u. refl; paste = refl })
          | inr e ↦ rw e (record { modifiers = refl; usages = λ u. refl; paste = refl })
        ]

  synchronize-HoldsNothing : (d : Device) (s : S) → HoldsNothing (synchronize out d s).1
  unfolding synchronize send_keyboard
  synchronize-HoldsNothing d s =
      let same = send_absolute-SameKeys _ false _ in
      record { modifiers = same.modifiers; usages = same.usages; paste = same.paste }

  pub release_all-HoldsNothing : (d : Device) (s : S) → HoldsNothing (release_all out d s).0
  unfolding release_all
  release_all-HoldsNothing d s = synchronize-HoldsNothing d (out.clear s)

  finish_typing-HoldsNothing :
      (r : Bool × Device × S) → Clears r → HoldsNothing (finish_typing out r).1
  unfolding finish_typing
  finish_typing-HoldsNothing (true, d, s) h =
      let k = h refl in record { modifiers = k.modifiers; usages = k.usages; paste = k.paste }
  finish_typing-HoldsNothing (false, d, s) h = release_all-HoldsNothing _ s

  finish_typing-SameKeys :
      (d : Device) (r : Bool × Device × S)
      → (r.0 ≡ true → SameKeys r.1 d)
      → (((finish_typing out r).0 ≡ true) × SameKeys (finish_typing out r).1 d)
        ⊎ HoldsNothing (finish_typing out r).1
  unfolding finish_typing
  finish_typing-SameKeys d (true, e, s) h =
      let k = h refl in
      inl (refl, record { modifiers = k.modifiers; usages = k.usages; paste = k.paste })
  finish_typing-SameKeys d (false, e, s) h = inr (release_all-HoldsNothing _ s)

  type_afresh-HoldsNothing :
      (d : Device) (text : List ℕ) (s : S)
      → d.keyboard_paste_codepoint ≡ 0
      → Clears (type_afresh out d text s)
  unfolding type_afresh send_keyboard
  type_afresh-HoldsNothing d text s paste =
      let r = send_keyboard out (reset_keyboard_state d false) s in
      then-Clears r (type_text out (length text) r.1 text 0 r.2) r.1 r.2
        (λ ok. record { modifiers = refl; usages = λ u. refl; paste = paste })
        (type_text-HoldsNothing (length text) r.1 text 0 r.2)

  -- Whatever the outlet answers, a text leaves no key down: no modifier and no usage is held after
  -- the call and nothing is left to paste, whether it succeeded or failed; or the text is a single
  -- byte, modifiers were held, the call succeeded, and the keys that were held are held again.
  pub type_utf8-HoldsNothing :
      (d : Device) (text : List ℕ) (s : S)
      → 0 < length text
      → d.keyboard_paste_codepoint ≡ 0
      → ((length text ≡ 1)
          × (d.modifiers ≢ 0)
          × ((type_utf8 out d text s).0 ≡ true)
          × SameKeys (type_utf8 out d text s).1 d)
        ⊎ HoldsNothing (type_utf8 out d text s).1
  unfolding type_utf8
  type_utf8-HoldsNothing d text s some_text paste =
      let paced = record d { keyboard_delay_ms = 20 } in
      let more : length text == 0 ≡ false = ne→== (length text) 0 (λ e. omega arith) in
      let afresh =
        finish_typing-HoldsNothing (type_afresh out paced text s)
          (type_afresh-HoldsNothing paced text s paste) in
      elim (Bool-cases (length text == 1 && not (d.modifiers == 0))) [
        | inr e ↦ rw (more, e) (inr afresh)
        | inl e ↦
            let one_char : length text ≡ 1 = ground (arith, e) in
            let some_modifier : d.modifiers ≢ 0 = λ z. ground (arith, e, z) in
            elim (Option-cases (ascii_to_hid (get_or text 0 0))) [
              | inl n ↦ rw (more, e, n, type_utf8) (inr afresh)
              | inr (key, n) ↦
                  elim (finish_typing-SameKeys d (tap_text_key out paced key s) (λ ok.
                    let k = tap_text_key-SameKeys paced key s ok in
                    record { modifiers = k.modifiers; usages = k.usages; paste = k.paste })) [
                      | inr free ↦ rw (more, e, n, type_utf8) (inr free)
                      | inl (ok, same) ↦
                          rw (more, e, n, type_utf8) (inl (one_char, some_modifier, ok, same))
                    ]
            ]
      ]
