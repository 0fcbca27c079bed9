-- ===== src/Base/Bits.antt =====
-- The native operations on binary digits, at variables.
use Prim.Native.Nat.{
  ℕ, zero, suc, ◌+◌, ◌*◌, ◌/◌, ◌%◌, ◌^◌, ◌≤◌, ◌<◌, min, max, bit_and, bit_or, digits,
  bit_and-bitwise, bit_or-bitwise,
}
use mathlib.Core.Path.{◌≡◌, refl, ◌∙◌, ap, sym}
use native.Mathlib.Omega.{arith}
use native.Mathlib.Nat.{div-div-eq-div-mul, mul_assoc}

-- more digits to go than the first number has change nothing
module _ (rest : ℕ → ℕ) (combine : ℕ → ℕ → ℕ) where
  enough_digits :
      (n m a b : ℕ) → a ≤ n → a ≤ m → digits rest combine n a b ≡ digits rest combine m a b
  enough_digits zero zero zero b h k = refl
  enough_digits zero (suc m) zero b h k = refl
  enough_digits (suc n) zero zero b h k = refl
  enough_digits (suc n) (suc m) zero b h k = refl
  enough_digits zero m (suc a) b h k = absurd (omega (arith, h))
  enough_digits (suc n) zero (suc a) b h k = absurd (omega (arith, k))
  enough_digits (suc n) (suc m) (suc a) b h k =
      ap (λ q. q * 2 + combine (suc a % 2) (b % 2))
        (enough_digits n m (suc a / 2) (b / 2) (omega (arith, h)) (omega (arith, k)))

bit_and-zero_left : (b : ℕ) → bit_and 0 b ≡ 0
bit_and-zero_left b = bit_and-bitwise 0 b

bit_or-zero_left : (b : ℕ) → bit_or 0 b ≡ b
bit_or-zero_left b = bit_or-bitwise 0 b

-- the lowest digit, and the others
pub bit_and-digit : (a b : ℕ) → bit_and a b ≡ bit_and (a / 2) (b / 2) * 2 + min (a % 2) (b % 2)
bit_and-digit zero b = omega (arith, bit_and-zero_left b, bit_and-zero_left (b / 2))
bit_and-digit (suc a) b =
    let whole = bit_and-bitwise (suc a) b in
    let half = bit_and-bitwise (suc a / 2) (b / 2) in
    let same =
      enough_digits (λ b. zero) min a (suc a / 2) (suc a / 2) (b / 2) (omega arith) (omega arith) in
    omega (arith, whole, half, same)

pub bit_or-digit : (a b : ℕ) → bit_or a b ≡ bit_or (a / 2) (b / 2) * 2 + max (a % 2) (b % 2)
bit_or-digit zero b =
    let whole = bit_or-zero_left b in
    let half = bit_or-zero_left (b / 2) in omega (arith, whole, half)
bit_or-digit (suc a) b =
    let whole = bit_or-bitwise (suc a) b in
    let half = bit_or-bitwise (suc a / 2) (b / 2) in
    let same =
      enough_digits (λ b. b) max a (suc a / 2) (suc a / 2) (b / 2) (omega arith) (omega arith) in
    omega (arith, whole, half, same)

bit_and-none : (n a : ℕ) → a ≤ n → bit_and a 0 ≡ 0
bit_and-none n zero h = bit_and-zero_left 0
bit_and-none zero (suc a) h = absurd (omega (arith, h))
bit_and-none (suc n) (suc a) h =
    let d = bit_and-digit (suc a) 0 in
    let half = bit_and-none n (suc a / 2) (omega (arith, h)) in omega (arith, d, half)

bit_or-none : (n a : ℕ) → a ≤ n → bit_or a 0 ≡ a
bit_or-none n zero h = bit_or-zero_left 0
bit_or-none zero (suc a) h = absurd (omega (arith, h))
bit_or-none (suc n) (suc a) h =
    let d = bit_or-digit (suc a) 0 in
    let half = bit_or-none n (suc a / 2) (omega (arith, h)) in omega (arith, d, half)

-- the six lowest digits
pub bit_and-63 : (a : ℕ) → bit_and a 63 ≡ a % 64
bit_and-63 a =
    let a1 = a / 2 in
    let a2 = a1 / 2 in
    let a3 = a2 / 2 in
    let a4 = a3 / 2 in
    let a5 = a4 / 2 in
    let d0 = bit_and-digit a 63 in
    let d1 = bit_and-digit a1 31 in
    let d2 = bit_and-digit a2 15 in
    let d3 = bit_and-digit a3 7 in
    let d4 = bit_and-digit a4 3 in
    let d5 = bit_and-digit a5 1 in
    let d6 = bit_and-none (a5 / 2) (a5 / 2) (omega arith) in
    omega (arith, d0, d1, d2, d3, d4, d5, d6)

-- the five lowest digits
pub bit_and-31 : (a : ℕ) → bit_and a 31 ≡ a % 32
bit_and-31 a =
    let a1 = a / 2 in
    let a2 = a1 / 2 in
    let a3 = a2 / 2 in
    let a4 = a3 / 2 in
    let d1 = bit_and-digit a 31 in
    let d2 = bit_and-digit a1 15 in
    let d3 = bit_and-digit a2 7 in
    let d4 = bit_and-digit a3 3 in
    let d5 = bit_and-digit a4 1 in
    let d6 = bit_and-none (a4 / 2) (a4 / 2) (omega arith) in omega (arith, d1, d2, d3, d4, d5, d6)

twice_power : (a k : ℕ) → a * 2 ^ suc k ≡ a * 2 ^ k * 2
twice_power a k =
    let twice : 2 ^ suc k ≡ 2 ^ k * 2 = omega arith in
    (λ i. a * twice i) ∙ sym (mul_assoc a (2 ^ k) 2)

pub power_sum : (x y : ℕ) → 2 ^ (x + y) ≡ 2 ^ x * 2 ^ y
power_sum x zero = (λ i. 2 ^ same i) ∙ omega arith
  where
    same : x + 0 ≡ x
    same = omega arith
power_sum x (suc y) =
    let next : x + suc y ≡ suc (x + y) = omega arith in
    let before = power_sum x y in
    let twice = twice_power (2 ^ x) y in
    let double : 2 ^ suc (x + y) ≡ 2 ^ (x + y) * 2 = omega arith in
    (λ i. 2 ^ next i) ∙ double ∙ (λ i. before i * 2) ∙ sym twice

-- one digit
pub bit_and-power : (k a : ℕ) → bit_and a (2 ^ k) ≡ a / 2 ^ k % 2 * 2 ^ k
bit_and-power zero a =
    let d = bit_and-digit a 1 in
    let none = bit_and-none (a / 2) (a / 2) (omega arith) in omega (arith, d, none)
bit_and-power (suc k) a =
    let d = bit_and-digit a (2 ^ suc k) in
    let half : 2 ^ suc k / 2 ≡ 2 ^ k = omega arith in
    let even : 2 ^ suc k % 2 ≡ 0 = omega arith in
    let below = bit_and-power k (a / 2) in
    let whole : a / 2 / 2 ^ k ≡ a / 2 ^ suc k =
      div-div-eq-div-mul a 2 (2 ^ k) ∙ ap (λ d. a / d) (omega arith) in
    d
    ∙ (λ i. bit_and (a / 2) (half i) * 2 + min (a % 2) (even i))
    ∙ (λ i. below i * 2 + min (a % 2) 0)
    ∙ (λ i. whole i % 2 * 2 ^ k * 2 + min (a % 2) 0)
    ∙ (let e = twice_power (a / 2 ^ suc k % 2) k in omega (arith, e))

-- digits that do not overlap
pub bit_or-shifted : (k a b : ℕ) → b < 2 ^ k → bit_or (a * 2 ^ k) b ≡ a * 2 ^ k + b
bit_or-shifted zero a zero h = bit_or-none (a * 2 ^ 0) (a * 2 ^ 0) (omega arith) ∙ omega arith
bit_or-shifted zero a (suc b) h = absurd (omega (arith, h))
bit_or-shifted (suc k) a b h =
    let twice = twice_power a k in
    let d = bit_or-digit (a * 2 ^ suc k) b in
    let half : a * 2 ^ suc k / 2 ≡ a * 2 ^ k = omega (arith, twice) in
    let even : a * 2 ^ suc k % 2 ≡ 0 = omega (arith, twice) in
    let below = bit_or-shifted k a (b / 2) (omega (arith, h)) in
    d
    ∙ (λ i. bit_or (half i) (b / 2) * 2 + max (even i) (b % 2))
    ∙ (λ i. below i * 2 + max 0 (b % 2))
    ∙ omega (arith, twice)
