-- ===== src/Base/Bits.antt =====
-- Bits of a byte as arithmetic: a law about all bytes is a table of 256 entries, checked by
-- evaluation.
use Prim.Native.Nat.{ℕ, zero, suc, ◌+◌, ◌*◌, ◌/◌, ◌%◌, ◌^◌, ◌≤◌, ◌<◌, bit_and, bit_or, bit_xor}
use Prim.Native.Nat.{digits, differ, bit_xor-bitwise, bit_and-bitwise, bit_or-bitwise, min, max}
use mathlib.Core.Path.{◌≡◌, refl, ap}
use mathlib.Core.Bool.{Bool, true, ◌&&◌}
use native.Mathlib.Omega.{arith}
use libspectrum.Base.Tests.{◌==◌, ==→eq}

abbrev pub IsByte : ℕ → Type 0
IsByte b = b < 256

-- A test that holds at every number below `n`.
unfoldable pub every_below : ℕ → (ℕ → Bool) → Bool
every_below zero p = true
every_below (suc n) p = p n && every_below n p

pub every_below_sound : (n : ℕ) (p : ℕ → Bool) (x : ℕ) → every_below n p ≡ true → x < n → p x ≡ true
unfolding every_below
every_below_sound zero p x h lt = absurd (omega arith)
every_below_sound (suc n) p x h lt = ground (arith, every_below_sound n p x)

-- Two functions that agree at every number below `n`.
pub eq_below :
    (n : ℕ) (f g : ℕ → ℕ) → every_below n (λ x. f x == g x) ≡ true → (x : ℕ) → x < n → f x ≡ g x
eq_below n f g h x lt = ==→eq (f x) (g x) (every_below_sound n (λ x. f x == g x) x h lt)

-- The top bit of a byte.
pub top_bit : (b : ℕ) → b < 256 → bit_and b 0x80 ≡ b / 128 * 128
unfolding every_below
top_bit = eq_below 256 (λ b. bit_and b 0x80) (λ b. b / 128 * 128) refl

-- `bit_xor` by its lowest digit, from the definition that the native operation stands for.
abbrev xor_digits : ℕ → ℕ → ℕ → ℕ
xor_digits n a b = digits (λ b. b) differ n a b

xor_digits_fuel : (n m a b : ℕ) → a ≤ n → a ≤ m → xor_digits n a b ≡ xor_digits m a b
xor_digits_fuel zero zero a b p q = refl
xor_digits_fuel zero (suc m) zero b p q = refl
xor_digits_fuel zero (suc m) (suc a) b p q = absurd (omega arith)
xor_digits_fuel (suc n) zero zero b p q = refl
xor_digits_fuel (suc n) zero (suc a) b p q = absurd (omega arith)
xor_digits_fuel (suc n) (suc m) zero b p q = refl
xor_digits_fuel (suc n) (suc m) (suc a) b p q =
    omega (arith, xor_digits_fuel n m (suc a / 2) (b / 2) (omega arith) (omega arith))

differ-digits : (x y : ℕ) → x < 2 → y < 2 → differ x y ≡ (x + y) % 2
differ-digits zero y h k = omega arith
differ-digits (suc x) zero h k = omega arith
differ-digits (suc zero) (suc zero) h k = refl
differ-digits (suc zero) (suc (suc y)) h k = absurd (omega arith)
differ-digits (suc (suc x)) (suc y) h k = absurd (omega arith)

zero-bit_xor : (b : ℕ) → bit_xor 0 b ≡ b
zero-bit_xor b = bit_xor-bitwise 0 b

pub bit_xor_step : (a b : ℕ) → bit_xor a b ≡ bit_xor (a / 2) (b / 2) * 2 + (a + b) % 2
bit_xor_step zero b = omega (arith, zero-bit_xor b, zero-bit_xor (b / 2))
bit_xor_step (suc a) b = omega (
  arith,
  bit_xor-bitwise (suc a) b,
  bit_xor-bitwise (suc a / 2) (b / 2),
  xor_digits_fuel a (suc a / 2) (suc a / 2) (b / 2) (omega arith) (omega arith),
  differ-digits (suc a % 2) (b % 2) (omega arith) (omega arith),
)

-- The digits of a sum mod 2 do not come out of the range that the two numbers share.
bit_xor-lt-pow : (k a b : ℕ) → a < 2 ^ k → b < 2 ^ k → bit_xor a b < 2 ^ k
bit_xor-lt-pow zero a b h l =
    let e : a ≡ 0 = omega arith in let f : b ≡ 0 = omega arith in rw (e, f) (omega arith)
bit_xor-lt-pow (suc k) a b h l =
    omega (arith, bit_xor_step a b, bit_xor-lt-pow k (a / 2) (b / 2) (omega arith) (omega arith))

pub bit_xor-lt : (a b : ℕ) → a < 256 → b < 256 → bit_xor a b < 256
bit_xor-lt a b h l = bit_xor-lt-pow 8 a b h l

-- Combining twice with the same number gives the other number back.
bit_xor_cancel_below : (k a b : ℕ) → a < 2 ^ k → b < 2 ^ k → bit_xor (bit_xor a b) b ≡ a
bit_xor_cancel_below zero a b h l =
    let e : a ≡ 0 = omega arith in let f : b ≡ 0 = omega arith in rw (e, f)
bit_xor_cancel_below (suc k) a b h l =
    let half : bit_xor a b / 2 ≡ bit_xor (a / 2) (b / 2) = omega (arith, bit_xor_step a b) in
    omega (
      arith,
      bit_xor_step (bit_xor a b) b,
      bit_xor_step a b,
      ap (λ t. bit_xor t (b / 2)) half,
      bit_xor_cancel_below k (a / 2) (b / 2) (omega arith) (omega arith),
    )

pub bit_xor_cancel : (a b : ℕ) → a < 256 → b < 256 → bit_xor (bit_xor a b) b ≡ a
bit_xor_cancel a b h l = bit_xor_cancel_below 8 a b h l

-- The lowest bit.
and_digits_zero : (n a : ℕ) → digits (λ b. 0) min n a 0 ≡ 0
and_digits_zero zero a = refl
and_digits_zero (suc n) zero = refl
and_digits_zero (suc n) (suc a) = omega (arith, and_digits_zero n (suc a / 2))

pub bit_and-one : (a : ℕ) → bit_and a 1 ≡ a % 2
bit_and-one zero = refl
bit_and-one (suc a) = omega (arith, bit_and-bitwise (suc a) 1, and_digits_zero a (suc a / 2))

pub bit_or_low : (a b : ℕ) → bit_or a b % 2 ≡ max (a % 2) (b % 2)
bit_or_low zero b = omega (arith, bit_or-bitwise 0 b)
bit_or_low (suc a) b = omega (arith, bit_or-bitwise (suc a) b)

pub bit_and_low : (a b : ℕ) → bit_and a b % 2 ≡ min (a % 2) (b % 2)
bit_and_low zero b = omega (arith, bit_and-bitwise 0 b)
bit_and_low (suc a) b = omega (arith, bit_and-bitwise (suc a) b)
