-- ===== src/Prelude/Bits.antt =====
-- Laws of `bit_xor` and `bit_and` at variables.
use Prim.Native.Nat.{
  ℕ, zero, suc, ◌+◌, ◌*◌, ◌/◌, ◌%◌, ◌^◌, ◌≤◌, ◌<◌, min, bit_and, bit_xor, digits, differ,
  bit_xor-bitwise, bit_and-bitwise,
}
use mathlib.Core.Path.{◌≡◌, refl, sym, ap, ◌∙◌}
use native.Mathlib.Omega.{arith}
use native.Mathlib.Nat.{pow-suc, div-div-eq-div-mul}

-- A digit recursion gives the same result on any fuel that covers the first number, so an operation
-- that it defines takes one digit at a time.
module _ (z : ℕ → ℕ) (f : ℕ → ℕ → ℕ) where
  digits_stable : (n m a b : ℕ) → a ≤ n → a ≤ m → digits z f n a b ≡ digits z f m a b
  digits_stable zero zero a b p q = refl
  digits_stable zero (suc m) zero b p q = refl
  digits_stable (suc n) zero zero b p q = refl
  digits_stable (suc n) (suc m) zero b p q = refl
  digits_stable (suc n) (suc m) (suc a) b p q =
      ap (λ (t : ℕ). t * 2 + f (suc a % 2) (b % 2))
        (digits_stable n m (suc a / 2) (b / 2) (omega arith) (omega arith))
  digits_stable _ _ (suc a) b p q = absurd (omega arith)

  digits_step :
      (op : ℕ → ℕ → ℕ)
      → ((a b : ℕ) → op a b ≡ digits z f a a b)
      → (a b : ℕ) → op (suc a) b ≡ op (suc a / 2) (b / 2) * 2 + f (suc a % 2) (b % 2)
  digits_step op bitwise a b =
      bitwise (suc a) b
      ∙ ap (λ (t : ℕ). t * 2 + f (suc a % 2) (b % 2))
          (digits_stable a (suc a / 2) (suc a / 2) (b / 2) (omega arith) (omega arith)
            ∙ sym (bitwise (suc a / 2) (b / 2)))

pub zero-bit_xor : (b : ℕ) → bit_xor 0 b ≡ b
zero-bit_xor b = bit_xor-bitwise 0 b

-- Two digits differ or not.
digit_cases : (x y : ℕ) → x < 2 → y < 2 → differ x y ≡ (x + y) % 2
digit_cases zero zero p q = refl
digit_cases zero (suc zero) p q = refl
digit_cases zero (suc (suc y)) p q = absurd (omega arith)
digit_cases (suc zero) zero p q = refl
digit_cases (suc zero) (suc zero) p q = refl
digit_cases (suc zero) (suc (suc y)) p q = absurd (omega arith)
digit_cases (suc (suc x)) y p q = absurd (omega arith)

pub bit_xor_step : (a b : ℕ) → bit_xor a b ≡ bit_xor (a / 2) (b / 2) * 2 + (a % 2 + b % 2) % 2
bit_xor_step zero b = omega (arith, zero-bit_xor b, zero-bit_xor (b / 2))
bit_xor_step (suc a) b =
    digits_step (λ d. d) differ bit_xor bit_xor-bitwise a b
    ∙ ap (λ (t : ℕ). bit_xor (suc a / 2) (b / 2) * 2 + t)
        (digit_cases (suc a % 2) (b % 2) (omega arith) (omega arith))

-- The numbers shrink together, so their sum is fuel enough.
bit_xor_cancel_fuel : (n a b c : ℕ) → a + b + c ≤ n → bit_xor a c ≡ bit_xor b c → a ≡ b
bit_xor_cancel_fuel zero a b c h e = omega arith
bit_xor_cancel_fuel (suc n) a b c h e =
    let halves : bit_xor (a / 2) (c / 2) ≡ bit_xor (b / 2) (c / 2) =
      omega (arith, bit_xor_step a c, bit_xor_step b c) in
    omega (
      arith,
      bit_xor_step a c,
      bit_xor_step b c,
      bit_xor_cancel_fuel n (a / 2) (b / 2) (c / 2) (omega arith) halves,
    )

-- Exclusive or with a fixed number is injective.
pub bit_xor_cancel : (a b c : ℕ) → bit_xor a c ≡ bit_xor b c → a ≡ b
bit_xor_cancel a b c = bit_xor_cancel_fuel (a + b + c) a b c (omega arith)

bit_xor_comm_fuel : (n a b : ℕ) → a + b ≤ n → bit_xor a b ≡ bit_xor b a
bit_xor_comm_fuel zero a b h =
    let az : a ≡ 0 = omega arith in let bz : b ≡ 0 = omega arith in rw (az, bz)
bit_xor_comm_fuel (suc n) a b h =
    omega
      (arith, bit_xor_step a b, bit_xor_step b a, bit_xor_comm_fuel n (a / 2) (b / 2) (omega arith))

pub bit_xor_comm : (a b : ℕ) → bit_xor a b ≡ bit_xor b a
bit_xor_comm a b = bit_xor_comm_fuel (a + b) a b (omega arith)

-- The lowest digit of an exclusive or.
pub bit_xor_low : (a b : ℕ) → bit_xor a b % 2 ≡ (a % 2 + b % 2) % 2
bit_xor_low a b = omega (arith, bit_xor_step a b)

-- The result has no more digits than its arguments.
pub bit_xor_lt : (k a b : ℕ) → a < 2 ^ k → b < 2 ^ k → bit_xor a b < 2 ^ k
bit_xor_lt zero a b p q =
    let az : a ≡ 0 = omega arith in let bz : b ≡ 0 = omega arith in rw (az, bz) (omega arith)
bit_xor_lt (suc k) a b p q = omega (
  arith,
  pow-suc 2 k,
  bit_xor_step a b,
  bit_xor_lt k (a / 2) (b / 2) (omega (arith, pow-suc 2 k)) (omega (arith, pow-suc 2 k)),
)

bit_and_zero_left : (b : ℕ) → bit_and 0 b ≡ 0
bit_and_zero_left = bit_and-bitwise 0

pub bit_and_halves : (a b : ℕ) → bit_and a b ≡ min (a % 2) (b % 2) + 2 * bit_and (a / 2) (b / 2)
bit_and_halves zero b = rw (bit_and_zero_left b, bit_and_zero_left (b / 2)) (omega arith)
bit_and_halves (suc a) b =
    let step = digits_step (λ d. 0) min bit_and bit_and-bitwise a b in omega arith

-- The numbers shrink, so the first one is fuel enough.
bit_and_zero_right : (n a : ℕ) → a ≤ n → bit_and a 0 ≡ 0
bit_and_zero_right n zero h = refl
bit_and_zero_right (suc n) (suc a) h =
    let half = bit_and_zero_right n (suc a / 2) (omega arith) in
    let step = bit_and_halves (suc a) 0 in omega arith
bit_and_zero_right zero (suc a) h = absurd (omega arith)

-- A test of one digit.
pub bit_and-two_pow : (k a : ℕ) → bit_and a (2 ^ k) ≡ a / 2 ^ k % 2 * 2 ^ k
bit_and-two_pow zero a =
    omega (arith, bit_and_halves a 1, bit_and_zero_right (a / 2) (a / 2) (omega arith))
bit_and-two_pow (suc k) a =
    let double : 2 ^ suc k ≡ 2 ^ k * 2 = omega (arith, pow-suc 2 k) in
    let half : 2 ^ suc k / 2 ≡ 2 ^ k = omega arith in
    let quot : a / 2 / 2 ^ k ≡ a / 2 ^ suc k =
      div-div-eq-div-mul a 2 (2 ^ k) ∙ ap (λ (t : ℕ). a / t) (omega arith) in
    let rest : bit_and (a / 2) (2 ^ suc k / 2) ≡ a / 2 ^ suc k % 2 * 2 ^ k =
      rw (half, bit_and-two_pow k (a / 2), quot) in
    omega (arith, bit_and_halves a (2 ^ suc k), rest, ap (λ (t : ℕ). a / 2 ^ suc k % 2 * t) double)
