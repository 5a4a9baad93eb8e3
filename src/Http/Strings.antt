-- ===== src/Http/Strings.antt =====
-- `decode_json_string` (src/http_api.c) against the writing of a string.
use nanokvm_rdp.Prelude.{
  ℕ, ◌+◌, ◌<◌, ◌≡◌, refl, false, ◌||◌, List, [], ◌∷◌, ◌++◌, some, length, ◌==◌, if◌then◌else◌,
  arith, Bool-cases, inl, inr, lt→leb, length-append,
}
use nanokvm_rdp.Http.{double_quote, backslash, decode_from}

-- A string between double quotes: a quote, a backslash, a newline and a tab are escaped, and all other
-- bytes stand as they are. The decoder takes other control bytes so too, which JSON does not allow.
pub written : List ℕ → List ℕ
written [] = []
written (c ∷ text) =
    if c == double_quote || c == backslash
    then backslash ∷ c ∷ written text
    else if c == 10
    then backslash ∷ b'n' ∷ written text
    else if c == 9
    then backslash ∷ b't' ∷ written text
    else c ∷ written text

-- A byte that is neither the quote nor a backslash stands for itself.
plain_step :
    (size used c : ℕ) (rest text : List ℕ)
    → (c == double_quote) ≡ false
    → (c == backslash) ≡ false
    → used + 1 < size
    → 0 < length rest
    → decode_from size double_quote (used + 1) rest ≡ some text
    → decode_from size double_quote used (c ∷ rest) ≡ some (c ∷ text)
unfolding decode_from
plain_step size used c [] text q b room pos e = absurd (omega arith)
plain_step size used c (d ∷ rest) text q b room pos e =
    rw (q, b, lt→leb size (used + 1) (omega arith), e) refl

-- A backslash and a byte other than `u` stand for one byte.
escape_step :
    (size used d value : ℕ) (rest text : List ℕ)
    → (d == b'u') ≡ false
    → (if d == b'n' then 10 else if d == b't' then 9 else d) ≡ value
    → used + 1 < size
    → decode_from size double_quote (used + 1) rest ≡ some text
    → decode_from size double_quote used (backslash ∷ d ∷ rest) ≡ some (value ∷ text)
unfolding decode_from
escape_step size used d value rest text u v room e =
    rw (u, lt→leb size (used + 1) (omega arith), e, v) refl

-- What is written between double quotes for a string is read back, whatever follows the closing
-- quote, as long as the string fits the buffer with its NUL.
pub decode_from-written :
    (size used : ℕ) (text tail : List ℕ)
    → used + length text < size
    → decode_from size double_quote used (written text ++ double_quote ∷ tail) ≡ some text
unfolding decode_from written
decode_from-written size used [] [] room = refl
decode_from-written size used [] (t ∷ tail) room = refl
decode_from-written size used (c ∷ text) tail room =
    let rest : List ℕ = written text ++ double_quote ∷ tail in
    let again = decode_from-written size (used + 1) text tail (omega arith) in
    elim (Bool-cases (c == double_quote || c == backslash)) [
      | inl special ↦ rw special (
          escape_step size used c c rest text (ground (arith, special)) (ground (arith, special))
            (omega arith) again)
      | inr plain ↦ elim (Bool-cases (c == 10)) [
        | inl newline ↦
            rw (plain, newline)
              (escape_step size used b'n' c rest text refl (ground (arith, newline)) (omega arith)
                again)
        | inr other ↦ elim (Bool-cases (c == 9)) [
          | inl tab ↦
              rw (plain, other, tab)
                (escape_step size used b't' c rest text refl (ground (arith, tab)) (omega arith)
                  again)
          | inr itself ↦
              rw (plain, other, itself)
                (plain_step size used c rest text (ground (arith, plain)) (ground (arith, plain))
                  (omega arith) (omega (arith, length-append (written text) (double_quote ∷ tail)))
                  again)
        ]
      ]
    ]
