-- ===== src/Config/Listen.antt =====
-- The `-listen` option of src/gateway_config.c.
use nanokvm_rdp.Prelude.{
  ℕ, ◌+◌, ◌-◌, ◌*◌, ◌<◌, ◌≤◌, ◌≡◌, refl, ◌∙◌, true, false, ◌&&◌, ◌||◌, List, [], ◌∷◌, ◌++◌, none,
  some, length, leb, ◌==◌, u16, arith, Bool-cases, inl, inr,
}
use nanokvm_rdp.Config.{
  GatewayConfig, bind_address_size, parse_decimal, split_last, listen_at, parse_listen,
}
use nanokvm_rdp.Config.Decimal.{number_of, reference, parse_decimal-number_of}

-- A number has no separator in it.
split_last-digits :
    (result n : ℕ) (text : List ℕ) → number_of result text ≡ some n → split_last b':' text ≡ none
unfolding number_of split_last
split_last-digits result n [] h = refl
split_last-digits result n (c ∷ text) h = elim (Bool-cases (leb b'0' c && leb c b'9')) [
  | inl e ↦
      let later : number_of (result * 10 + (c - b'0')) text ≡ some n = rw e at h in
      let other : c == b':' ≡ false = ground (arith, e) in
      rw (split_last-digits (result * 10 + (c - b'0')) n text later, other) refl
  | inr e ↦ absurd (let k : none ≡ some n = rw e at h in cc)
]

split_last-append :
    (separator : ℕ) (before behind : List ℕ)
    → split_last separator behind ≡ none
    → split_last separator (before ++ separator ∷ behind) ≡ some (before, behind)
unfolding split_last
split_last-append separator [] behind h =
    let same : separator == separator ≡ true = ground arith in rw (h, same) refl
split_last-append separator (c ∷ before) behind h =
    rw (split_last-append separator before behind h) refl

number-some :
    (text : List ℕ) (n minimum maximum : ℕ)
    → 0 < length text
    → number_of 0 text ≡ some n
    → minimum ≤ n
    → n ≤ maximum
    → reference text minimum maximum ≡ some n
number-some [] n minimum maximum pos h low high = absurd (omega arith)
number-some (c ∷ text) n minimum maximum pos h low high = rw h (ground (arith, low, high))

-- A host that is not empty and fits its array, a colon and a port number from 1 to 65535, with any
-- number of zeros before it, are taken apart into this host and this port, also where the host has
-- colons itself.
pub parse_listen-number :
    (config : GatewayConfig) (host text : List ℕ) (port : ℕ)
    → 0 < length host
    → length host < bind_address_size
    → 0 < length text
    → number_of 0 text ≡ some port
    → 1 ≤ port
    → port ≤ 65535
    → parse_listen config (host ++ b':' ∷ text)
      ≡ some (record config { bind_address = host; port = port })
unfolding parse_listen listen_at
parse_listen-number config host text port hl hh tl h low high =
    let parsed : parse_decimal text 1 65535 ≡ some port =
      parse_decimal-number_of text 1 65535 (omega arith) (omega arith)
      ∙ number-some text port 1 65535 tl h low high in
    let filled : length host == 0 || length text == 0 ≡ false = ground (arith, hl, tl) in
    let fits : leb bind_address_size (length host) ≡ false = ground (arith, hh) in
    let word : u16 port ≡ port = omega (arith, high) in
    rw
      (
        split_last-append b':' host text (split_last-digits 0 port text h),
        parse_listen,
        filled,
        fits,
        parsed,
        word,
      )
      refl
