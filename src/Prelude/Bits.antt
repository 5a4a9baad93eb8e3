-- ===== src/Prelude/Bits.antt =====
-- Laws of the native bit operations at variables, from the digit recursion that they stand for,
-- and checks of all values of a byte.
use Prim.Native.Nat.{
  ℕ, zero, suc, ◌+◌, ◌-◌, ◌*◌, ◌/◌, ◌%◌, ◌^◌, ◌≤◌, ◌<◌, min, max, bit_and, bit_or, digits,
  bit_and-bitwise, bit_or-bitwise,
}
use mathlib.Core.Path.{◌≡◌, refl, ap, sym, ◌∙◌}
use mathlib.Core.Bool.{Bool, true, ◌&&◌}
use native.Mathlib.Omega.{arith}
use native.Mathlib.Nat.{pow-suc, one-le-pow}
use nanokvm_rdp.Prelude.Tests.{◌==◌, ==_iff}

-- The test holds at each number below `bound`.
unfoldable pub all_below : (bound : ℕ) → (ℕ → Bool) → Bool
all_below zero test = true
all_below (suc last) test = all_below last test && test last

pub all_below-lt :
    (test : ℕ → Bool) (k bound : ℕ) → k < bound → all_below bound test ≡ true → test k ≡ true
unfolding all_below
all_below-lt test k zero inside checked = elim inside [ ]
all_below-lt test k (suc last) inside checked = ground (arith, all_below-lt test k last)

-- An equation that a table checks holds at every byte.
pub byte_table :
    (f g : ℕ → ℕ) (x : ℕ) → all_below 256 (λ n. f n == g n) ≡ true → x < 256 → f x ≡ g x
byte_table f g x table h = (==_iff (f x) (g x)).0 (all_below-lt (λ n. f n == g n) x 256 h table)

module _ (z : ℕ → ℕ) (f : ℕ → ℕ → ℕ) where
  digits-zero : (fuel b : ℕ) → digits z f fuel 0 b ≡ z b
  digits-zero zero b = refl
  digits-zero (suc fuel) b = refl

  -- Once the fuel reaches the number the digits do not depend on it.
  digits-fuel :
      (a b fuel other : ℕ) → a ≤ other → a ≤ fuel → digits z f fuel a b ≡ digits z f other a b
  digits-fuel zero b fuel other high low = digits-zero fuel b ∙ sym (digits-zero other b)
  digits-fuel (suc a) b zero other high low = elim low [ ]
  digits-fuel (suc a) b (suc fuel) zero high low = elim high [ ]
  digits-fuel (suc a) b (suc fuel) (suc other) high low =
      let half = digits-fuel (suc a / 2) (b / 2) fuel other (omega arith) (omega arith) in
      ap (λ d. d * 2 + f (suc a % 2) (b % 2)) half

  abbrev by_digits : ℕ → ℕ → ℕ
  by_digits a b = digits z f a a b

  -- The last digit apart, the number is halved.
  by_digits-suc :
      (a b : ℕ) → by_digits (suc a) b ≡ by_digits (suc a / 2) (b / 2) * 2 + f (suc a % 2) (b % 2)
  by_digits-suc a b =
      ap (λ d. d * 2 + f (suc a % 2) (b % 2))
        (digits-fuel (suc a / 2) (b / 2) a (suc a / 2) (omega arith) (omega arith))

-- One binary digit of `|` and of `&`.
bit_or-digit : (a b : ℕ) → bit_or a b ≡ bit_or (a / 2) (b / 2) * 2 + max (a % 2) (b % 2)
bit_or-digit zero b = rw (bit_or-bitwise 0 b, bit_or-bitwise 0 (b / 2)) (omega arith)
bit_or-digit (suc a) b =
    rw (bit_or-bitwise (suc a) b, bit_or-bitwise (suc a / 2) (b / 2))
      (by_digits-suc (λ rest. rest) max a b)

bit_and-digit : (a b : ℕ) → bit_and a b ≡ bit_and (a / 2) (b / 2) * 2 + min (a % 2) (b % 2)
bit_and-digit zero b = rw (bit_and-bitwise 0 b, bit_and-bitwise 0 (b / 2)) (omega arith)
bit_and-digit (suc a) b =
    rw (bit_and-bitwise (suc a) b, bit_and-bitwise (suc a / 2) (b / 2))
      (by_digits-suc (λ rest. 0) min a b)

bit_or-zero_below : (n a : ℕ) → a ≤ n → bit_or a 0 ≡ a
bit_or-zero_below n zero h = refl
bit_or-zero_below zero (suc a) h = absurd (omega arith)
bit_or-zero_below (suc n) (suc a) h =
    omega (arith, bit_or-digit (suc a) 0, bit_or-zero_below n (suc a / 2) (omega arith))

bit_and-zero_below : (n a : ℕ) → a ≤ n → bit_and a 0 ≡ 0
bit_and-zero_below n zero h = refl
bit_and-zero_below zero (suc a) h = absurd (omega arith)
bit_and-zero_below (suc n) (suc a) h =
    omega (arith, bit_and-digit (suc a) 0, bit_and-zero_below n (suc a / 2) (omega arith))

-- `(a << k) | b` is a sum where `b` fits in `k` bits.
pub bit_or-shifted : (k a b : ℕ) → b < 2 ^ k → bit_or (a * 2 ^ k) b ≡ a * 2 ^ k + b
bit_or-shifted zero a b h = ground (arith, bit_or-zero_below a a (omega arith))
bit_or-shifted (suc k) a b h = ground (
  arith,
  pow-suc 2 k,
  ap (λ (t : ℕ). a * t) (pow-suc 2 k),
  bit_or-digit (a * 2 ^ suc k) b,
  bit_or-shifted k a (b / 2) (omega (arith, pow-suc 2 k)),
)

bit_and-shifted : (k q r : ℕ) → r < 2 ^ k → bit_and (q * 2 ^ k + r) (2 ^ k - 1) ≡ r
bit_and-shifted zero q r h =
    ground (arith, bit_and-zero_below (q * 1 + r) (q * 1 + r) (omega arith))
bit_and-shifted (suc k) q r h = ground (
  arith,
  pow-suc 2 k,
  one-le-pow k 2,
  ap (λ (t : ℕ). q * t) (pow-suc 2 k),
  bit_and-digit (q * 2 ^ suc k + r) (2 ^ suc k - 1),
  bit_and-shifted k q (r / 2) (omega (arith, pow-suc 2 k)),
)

-- The mask of the `k` low bits is the remainder by `2 ^ k`.
pub bit_and-low : (k a : ℕ) → bit_and a (2 ^ k - 1) ≡ a % 2 ^ k
bit_and-low k a = ground (arith, one-le-pow k 2, bit_and-shifted k (a / 2 ^ k) (a % 2 ^ k))
