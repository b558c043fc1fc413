-- ===== src/Prelude/Bits.antt =====
-- Laws of `|` at variables: joining a shifted number with one that lies below the shift is a sum.
use Prim.Native.Nat.{
  ℕ, zero, suc, ◌+◌, ◌*◌, ◌/◌, ◌%◌, ◌^◌, ◌≤◌, ◌<◌, max, bit_or, digits, bit_or-bitwise, ◌-◌, min,
  bit_and, bit_and-bitwise,
}
use mathlib.Core.Path.{◌≡◌, refl, sym, ◌∙◌, ap}
use native.Mathlib.Omega.{arith}
use native.Mathlib.Nat.{pow-suc, div-div-eq-div-mul, mul_comm}

-- A digit-wise operation is a recursion with fuel on the left number's digits; what fuel is left over
-- does not matter, so the lowest digit can be taken off.
module _ (last : ℕ → ℕ) (join : ℕ → ℕ → ℕ) where
  no_digits : (m b : ℕ) → digits last join m 0 b ≡ last b
  no_digits zero b = refl
  no_digits (suc m) b = refl

  spare : (n k a b : ℕ) → a ≤ n → digits last join (n + k) a b ≡ digits last join n a b
  spare n k zero b h = no_digits (n + k) b ∙ sym (no_digits n b)
  spare zero k (suc a) b h = absurd (omega arith)
  spare (suc n) k (suc a) b h =
      let more : suc n + k ≡ suc (n + k) = omega arith in
      rw more (
        ap (λ high. high * 2 + join (suc a % 2) (b % 2))
          (spare n k (suc a / 2) (b / 2) (omega arith)))

  lowest :
      (a b : ℕ)
      → digits last join (suc a) (suc a) b
        ≡ digits last join (suc a / 2) (suc a / 2) (b / 2) * 2 + join (suc a % 2) (b % 2)
  lowest a b =
      let half = suc a / 2 in
      let all : a ≡ half + (a - half) = omega arith in
      ap (λ high. high * 2 + join (suc a % 2) (b % 2))
        (ap (λ n. digits last join n half (b / 2)) all
          ∙ spare half (a - half) half (b / 2) (omega arith))

pub zero-bit_or : (b : ℕ) → bit_or 0 b ≡ b
zero-bit_or b = bit_or-bitwise 0 b

pub bit_or_step : (a b : ℕ) → bit_or a b ≡ bit_or (a / 2) (b / 2) * 2 + max (a % 2) (b % 2)
bit_or_step zero b = omega (arith, zero-bit_or b, zero-bit_or (b / 2))
bit_or_step (suc a) b =
    rw (bit_or-bitwise (suc a) b, bit_or-bitwise (suc a / 2) (b / 2)) (lowest (λ b. b) max a b)

alone : (bound a : ℕ) → a < bound → bit_or a 0 ≡ a
alone bound zero below = bit_or-bitwise 0 0
alone zero (suc a) below = absurd (omega arith)
alone (suc bound) (suc a) below =
    let rest : bit_or (suc a / 2) 0 ≡ suc a / 2 = alone bound (suc a / 2) (omega arith) in
    omega (arith, rest, bit_or_step (suc a) 0)

pub bit_or-zero : (a : ℕ) → bit_or a 0 ≡ a
bit_or-zero a = alone (suc a) a (omega arith)

bit_or_double : (x b : ℕ) → bit_or x (b / 2) ≡ x + b / 2 → bit_or (x * 2) b ≡ x * 2 + b
bit_or_double x b h =
    let half : x * 2 / 2 ≡ x = omega arith in
    let high : bit_or (x * 2 / 2) (b / 2) ≡ x + b / 2 = rw half h in
    omega (arith, bit_or_step (x * 2) b, high)

-- `(a << k) | b`
pub bit_or-shift : (k a b : ℕ) → b < 2 ^ k → bit_or (a * 2 ^ k) b ≡ a * 2 ^ k + b
bit_or-shift zero a b h =
    let e : b ≡ 0 = omega arith in
    let one : a * 2 ^ 0 ≡ a = omega arith in rw (e, one) (bit_or-zero a ∙ omega arith)
bit_or-shift (suc k) a b h =
    let e : 2 ^ suc k ≡ 2 ^ k * 2 = pow-suc 2 k in
    let e' : a * 2 ^ suc k ≡ a * 2 ^ k * 2 = rw e (omega arith) in
    let below : b / 2 < 2 ^ k = omega arith in
    rw e' (bit_or_double (a * 2 ^ k) b (bit_or-shift k a (b / 2) below))

bit_or_halves : (x y c : ℕ) → c < 2 → bit_or (x * 2) (y * 2 + c) ≡ bit_or x y * 2 + c
bit_or_halves x y c h =
    let one : x * 2 / 2 ≡ x = omega arith in
    let two : (y * 2 + c) / 2 ≡ y = omega arith in
    let high : bit_or (x * 2 / 2) ((y * 2 + c) / 2) ≡ bit_or x y = rw (one, two) in
    omega (arith, bit_or_step (x * 2) (y * 2 + c), high)

-- Below a shift that both sides share, the bits of the one that has any stay.
pub bit_or-shift_both :
    (k a b c : ℕ) → c < 2 ^ k → bit_or (a * 2 ^ k) (b * 2 ^ k + c) ≡ bit_or a b * 2 ^ k + c
bit_or-shift_both zero a b c h =
    let e : c ≡ 0 = omega arith in
    let l : a * 2 ^ 0 ≡ a = omega arith in
    let r : b * 2 ^ 0 + c ≡ b = omega arith in rw (l, r) (omega arith)
bit_or-shift_both (suc k) a b c h =
    let p : 2 ^ suc k ≡ 2 ^ k * 2 = pow-suc 2 k in
    let l : a * 2 ^ suc k ≡ a * 2 ^ k * 2 = rw p (omega arith) in
    let r : b * 2 ^ suc k + c ≡ (b * 2 ^ k + c / 2) * 2 + c % 2 = rw p (omega arith) in
    let below : c / 2 < 2 ^ k = omega (arith, p) in
    let high : bit_or (a * 2 ^ k) (b * 2 ^ k + c / 2) ≡ bit_or a b * 2 ^ k + c / 2 =
      bit_or-shift_both k a b (c / 2) below in
    let goal : bit_or a b * 2 ^ suc k + c ≡ (bit_or a b * 2 ^ k + c / 2) * 2 + c % 2 =
      rw p (omega arith) in
    rw (l, r, goal)
      (bit_or_halves (a * 2 ^ k) (b * 2 ^ k + c / 2) (c % 2) (omega arith)
        ∙ ap (λ n. n * 2 + c % 2) high)

-- All the bits below a power of two absorb what lies there.
pub bit_or-ones : (k a : ℕ) → a < 2 ^ k → bit_or a (2 ^ k - 1) ≡ 2 ^ k - 1
bit_or-ones zero a h = let e : a ≡ 0 = omega arith in rw e
bit_or-ones (suc k) a h =
    let p : 2 ^ suc k ≡ 2 ^ k * 2 = pow-suc 2 k in
    let below : a / 2 < 2 ^ k = omega (arith, p) in
    let half : (2 ^ suc k - 1) / 2 ≡ 2 ^ k - 1 = rw p (omega arith) in
    let high : bit_or (a / 2) ((2 ^ suc k - 1) / 2) ≡ 2 ^ k - 1 =
      rw half (bit_or-ones k (a / 2) below) in
    omega (arith, p, bit_or_step a (2 ^ suc k - 1), high)

pub bit_and_step : (a b : ℕ) → min (a % 2) (b % 2) + 2 * bit_and (a / 2) (b / 2) ≡ bit_and a b
bit_and_step zero b = rw (bit_and-bitwise 0 b, bit_and-bitwise 0 (b / 2)) (omega arith)
bit_and_step (suc a) b =
    rw (bit_and-bitwise (suc a) b, bit_and-bitwise (suc a / 2) (b / 2))
      (omega (arith, lowest (λ _. 0) min a b))

none_common : (bound a : ℕ) → a < bound → bit_and a 0 ≡ 0
none_common bound zero below = bit_and-bitwise 0 0
none_common zero (suc a) below = absurd (omega arith)
none_common (suc bound) (suc a) below =
    let rest : bit_and (suc a / 2) 0 ≡ 0 = none_common bound (suc a / 2) (omega arith) in
    omega (arith, rest, bit_and_step (suc a) 0)

-- `a & (b << k)`
pub bit_and-shift : (k a b : ℕ) → bit_and a (b * 2 ^ k) ≡ bit_and (a / 2 ^ k) b * 2 ^ k
bit_and-shift zero a b =
    let one : a / 2 ^ 0 ≡ a = omega arith in
    let one' : b * 2 ^ 0 ≡ b = omega arith in rw (one, one') (omega arith)
bit_and-shift (suc k) a b =
    let p : 2 ^ suc k ≡ 2 ^ k * 2 = pow-suc 2 k in
    let half : b * 2 ^ suc k / 2 ≡ b * 2 ^ k = rw p (omega arith) in
    let even : b * 2 ^ suc k % 2 ≡ 0 = rw p (omega arith) in
    let high : bit_and (a / 2) (b * 2 ^ suc k / 2) ≡ bit_and (a / 2 / 2 ^ k) b * 2 ^ k =
      rw half (bit_and-shift k (a / 2) b) in
    let low : min (a % 2) (b * 2 ^ suc k % 2) ≡ 0 = rw even (omega arith) in
    let twice : a / 2 ^ suc k ≡ a / 2 / 2 ^ k =
      rw (p, mul_comm (2 ^ k) 2) (sym (div-div-eq-div-mul a 2 (2 ^ k))) in
    let whole : bit_and a (b * 2 ^ suc k) ≡ bit_and (a / 2 / 2 ^ k) b * 2 ^ k * 2 =
      omega (arith, bit_and_step a (b * 2 ^ suc k), high, low) in
    whole ∙ rw (twice, p) (omega arith)

-- `a & 1`
bit_and-one : (a : ℕ) → bit_and a 1 ≡ a % 2
bit_and-one a = omega (arith, bit_and_step a 1, none_common (suc a) (a / 2) (omega arith))

-- `a & (1 << k)`
pub bit_and_power : (k a : ℕ) → bit_and a (2 ^ k) ≡ a / 2 ^ k % 2 * 2 ^ k
bit_and_power k a =
    let one : 2 ^ k ≡ 1 * 2 ^ k = omega arith in
    ap (bit_and a) one ∙ bit_and-shift k a 1 ∙ ap (λ n. n * 2 ^ k) (bit_and-one (a / 2 ^ k))

pub two_pow : (k : ℕ) → 0 < 2 ^ k
two_pow zero = omega arith
two_pow (suc k) = omega (arith, pow-suc 2 k, two_pow k)
