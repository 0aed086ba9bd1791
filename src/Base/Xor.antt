-- ===== src/Base/Xor.antt =====
-- `^` on the native numbers: one digit at a time, block by block, and what can be cancelled.
use Prim.Native.Nat.{bit_xor, digits, bit_xor-bitwise, differ}
use native.Mathlib.Nat.{pow-suc, one-le-pow}
use selium.Base.{ℕ, zero, suc, ◌+◌, ◌*◌, ◌/◌, ◌%◌, ◌^◌, ◌≤◌, ◌<◌, ◌≡◌, refl, sym, ap, ◌∙◌, arith}

abbrev odd_one : ℕ → ℕ → ℕ → ℕ
odd_one n a b = digits (λ b. b) differ n a b

odd_one_fuel : (n m a b : ℕ) → a ≤ n → a ≤ m → odd_one n a b ≡ odd_one m a b
odd_one_fuel zero zero a b p q = refl
odd_one_fuel zero (suc m) zero b p q = refl
odd_one_fuel zero (suc m) (suc a) b p q = absurd (omega arith)
odd_one_fuel (suc n) zero zero b p q = refl
odd_one_fuel (suc n) zero (suc a) b p q = absurd (omega arith)
odd_one_fuel (suc n) (suc m) zero b p q = refl
odd_one_fuel (suc n) (suc m) (suc a) b p q =
    omega (arith, odd_one_fuel n m (suc a / 2) (b / 2) (omega arith) (omega arith))

pub zero-bit_xor : (b : ℕ) → bit_xor 0 b ≡ b
zero-bit_xor b = bit_xor-bitwise 0 b

-- The lowest digit of the result: 1 where the lowest digits differ.
abbrev low : ℕ → ℕ → ℕ
low x y = (x + y) % 2

differ_digits : (r s : ℕ) → r < 2 → s < 2 → differ r s ≡ (r + s) % 2
differ_digits zero zero p q = refl
differ_digits zero (suc zero) p q = refl
differ_digits (suc zero) zero p q = refl
differ_digits (suc zero) (suc zero) p q = refl
differ_digits r (suc (suc s)) p q = absurd (omega arith)
differ_digits (suc (suc r)) s p q = absurd (omega arith)

differ-low : (x y : ℕ) → differ (x % 2) (y % 2) ≡ low x y
differ-low x y = omega (arith, differ_digits (x % 2) (y % 2) (omega arith) (omega arith))

xor_digit : (a b : ℕ) → bit_xor a b ≡ bit_xor (a / 2) (b / 2) * 2 + low a b
xor_digit zero b = omega (arith, zero-bit_xor b, zero-bit_xor (b / 2))
xor_digit (suc a) b = omega (
  arith,
  bit_xor-bitwise (suc a) b,
  bit_xor-bitwise (suc a / 2) (b / 2),
  odd_one_fuel a (suc a / 2) (suc a / 2) (b / 2) (omega arith) (omega arith),
  differ-low (suc a) b,
)

-- A common right operand cancels.
cancel_upto : (n a b c : ℕ) → a ≤ n → b ≤ n → bit_xor a c ≡ bit_xor b c → a ≡ b
cancel_upto zero a b c p q h = omega arith
cancel_upto (suc n) a b c p q h = omega (
  arith,
  xor_digit a c,
  xor_digit b c,
  cancel_upto n (a / 2) (b / 2) (c / 2) (omega arith) (omega arith)
      (omega (arith, xor_digit a c, xor_digit b c)),
)

pub xor_cancel_right : (a b c : ℕ) → bit_xor a c ≡ bit_xor b c → a ≡ b
xor_cancel_right a b c h = cancel_upto (a + b) a b c (omega arith) (omega arith) h

cancel_left_upto : (n a b c : ℕ) → c ≤ n → bit_xor c a ≡ bit_xor c b → a ≡ b
cancel_left_upto n a b zero p h = sym (zero-bit_xor a) ∙ h ∙ zero-bit_xor b
cancel_left_upto zero a b (suc c) p h = absurd (omega arith)
cancel_left_upto (suc n) a b (suc c) p h = omega (
  arith,
  xor_digit (suc c) a,
  xor_digit (suc c) b,
  cancel_left_upto n (a / 2) (b / 2) (suc c / 2) (omega arith)
      (omega (arith, xor_digit (suc c) a, xor_digit (suc c) b)),
)

pub xor_cancel_left : (a b c : ℕ) → bit_xor c a ≡ bit_xor c b → a ≡ b
xor_cancel_left a b c h = cancel_left_upto c a b c (omega arith) h

-- Operands of `k` digits give a result of `k` digits.
pub bit_xor-lt : (k a b : ℕ) → a < 2 ^ k → b < 2 ^ k → bit_xor a b < 2 ^ k
bit_xor-lt zero a b p q =
    let z : a ≡ 0 = omega arith in let f : bit_xor a b ≡ b = rw z (zero-bit_xor b) in omega arith
bit_xor-lt (suc k) a b p q = omega (
  arith,
  pow-suc 2 k,
  xor_digit a b,
  bit_xor-lt k (a / 2) (b / 2) (omega (arith, pow-suc 2 k)) (omega (arith, pow-suc 2 k)),
)

-- Shifting the operands right shifts the result right.
half_block : (a m : ℕ) → 0 < m → a / (2 * m) ≡ a / 2 / m
half_block a m h = grind arith

pub bit_xor-shift : (k a b : ℕ) → bit_xor a b / 2 ^ k ≡ bit_xor (a / 2 ^ k) (b / 2 ^ k)
bit_xor-shift zero a b =
    let e : a / 2 ^ 0 ≡ a = omega arith in
    let f : b / 2 ^ 0 ≡ b = omega arith in rw (e, f) (omega arith)
bit_xor-shift (suc k) a b =
    let e : 2 ^ suc k ≡ 2 * 2 ^ k = omega (arith, pow-suc 2 k) in
    let m : 1 ≤ 2 ^ k = one-le-pow k 2 (omega arith) in
    let d : bit_xor a b / 2 ≡ bit_xor (a / 2) (b / 2) = omega (arith, xor_digit a b) in
    rw (e, half_block (bit_xor a b) (2 ^ k) m, half_block a (2 ^ k) m, half_block b (2 ^ k) m, d)
      (bit_xor-shift k (a / 2) (b / 2))

-- `z ^ (z >> k)` loses nothing.
unfoldable pub xor_shift : ℕ → ℕ → ℕ
xor_shift k z = bit_xor z (z / 2 ^ k)

shift_upto : (n k a b : ℕ) → a ≤ n → b ≤ n → xor_shift (suc k) a ≡ xor_shift (suc k) b → a ≡ b
unfolding xor_shift
shift_upto zero k a b p q h = omega arith
shift_upto (suc n) k a b p q h =
    let m : ℕ = 2 ^ suc k in
    let two : 2 ≤ m = omega (arith, pow-suc 2 k, one-le-pow k 2 (omega arith)) in
    let same : a / m ≡ b / m =
      shift_upto n k (a / m) (b / m) (halves n a m p two) (halves n b m q two) (
        sym (bit_xor-shift (suc k) a (a / m))
        ∙ ap (λ t. t / m) h
        ∙ bit_xor-shift (suc k) b (b / m)) in
    xor_cancel_right a b (a / m) (h ∙ ap (λ t. bit_xor b t) (sym same))
  where
    halves : (n a m : ℕ) → a ≤ suc n → 2 ≤ m → a / m ≤ n
    halves n a m p two = grind arith

pub xor_shift-injective : (k a b : ℕ) → xor_shift (suc k) a ≡ xor_shift (suc k) b → a ≡ b
xor_shift-injective k a b h = shift_upto (a + b) k a b (omega arith) (omega arith) h
