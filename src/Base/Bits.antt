-- ===== src/Base/Bits.antt =====
-- `&` with a low mask as a remainder, and a check of every value of a byte.
use Prim.Native.Nat.{bit_and, digits, bit_and-bitwise}
use native.Mathlib.Nat.{pow-suc, one-le-pow}
use selium.Base.{
  ℕ, zero, suc, ◌+◌, ◌-◌, ◌*◌, ◌/◌, ◌%◌, ◌^◌, ◌≤◌, ◌<◌, min, ◌≡◌, refl, Bool, true, ◌&&◌, arith,
}

-- A test that holds of every number below a bound.
abbrev pub all_below : ℕ → (ℕ → Bool) → Bool
all_below zero p = true
all_below (suc n) p = p n && all_below n p

pub all_below_sound : (n : ℕ) (p : ℕ → Bool) (x : ℕ) → all_below n p ≡ true → x < n → p x ≡ true
all_below_sound zero p x h lt = absurd (omega arith)
all_below_sound (suc n) p x h lt = ground (arith, all_below_sound n p x)

-- The native `&` stands for a recursion on digits with fuel; more fuel changes nothing.
abbrev conj : ℕ → ℕ → ℕ → ℕ
conj n a b = digits (λ b. zero) min n a b

conj_fuel : (n m a b : ℕ) → a ≤ n → a ≤ m → conj n a b ≡ conj m a b
conj_fuel zero zero a b p q = refl
conj_fuel zero (suc m) zero b p q = refl
conj_fuel zero (suc m) (suc a) b p q = absurd (omega arith)
conj_fuel (suc n) zero zero b p q = refl
conj_fuel (suc n) zero (suc a) b p q = absurd (omega arith)
conj_fuel (suc n) (suc m) zero b p q = refl
conj_fuel (suc n) (suc m) (suc a) b p q =
    omega (arith, conj_fuel n m (suc a / 2) (b / 2) (omega arith) (omega arith))

zero-bit_and : (b : ℕ) → bit_and 0 b ≡ 0
zero-bit_and b = bit_and-bitwise 0 b

-- One binary digit at a time.
and_digit : (a b : ℕ) → bit_and a b ≡ bit_and (a / 2) (b / 2) * 2 + min (a % 2) (b % 2)
and_digit zero b = omega (arith, zero-bit_and b, zero-bit_and (b / 2))
and_digit (suc a) b = omega (
  arith,
  bit_and-bitwise (suc a) b,
  bit_and-bitwise (suc a / 2) (b / 2),
  conj_fuel a (suc a / 2) (suc a / 2) (b / 2) (omega arith) (omega arith),
)

and_zero_upto : (n a : ℕ) → a ≤ n → bit_and a 0 ≡ 0
and_zero_upto n zero h = refl
and_zero_upto zero (suc a) h = absurd (omega arith)
and_zero_upto (suc n) (suc a) h =
    omega (arith, and_digit (suc a) 0, and_zero_upto n (suc a / 2) (omega arith))

mod_double : (a m : ℕ) → 0 < m → a % (2 * m) ≡ a / 2 % m * 2 + a % 2
mod_double a m h = grind arith

mask_step :
    (a m : ℕ) → 1 ≤ m → bit_and (a / 2) (m - 1) ≡ a / 2 % m → bit_and a (2 * m - 1) ≡ a % (2 * m)
mask_step a m p h =
    let half : (2 * m - 1) / 2 ≡ m - 1 = omega arith in
    let odd : (2 * m - 1) % 2 ≡ 1 = omega arith in
    let low : min (a % 2) ((2 * m - 1) % 2) ≡ a % 2 = omega arith in
    rw (and_digit a (2 * m - 1), low, half, h, mod_double a m p) refl

-- The mask of a power of two keeps the remainder.
pub bit_and_mask : (k a : ℕ) → bit_and a (2 ^ k - 1) ≡ a % 2 ^ k
bit_and_mask zero a = omega (arith, and_zero_upto a a (omega arith))
bit_and_mask (suc k) a =
    let e : 2 ^ suc k ≡ 2 * 2 ^ k = omega (arith, pow-suc 2 k) in
    let m : 1 ≤ 2 ^ k = one-le-pow k 2 (omega arith) in
    rw e (mask_step a (2 ^ k) m (bit_and_mask k (a / 2)))
