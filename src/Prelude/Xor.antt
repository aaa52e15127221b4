-- ===== src/Prelude/Xor.antt =====
-- Exclusive or can be undone, on either side.
use Prim.Native.Nat.{
  ℕ, zero, suc, ◌+◌, ◌*◌, ◌/◌, ◌%◌, ◌^◌, ◌≤◌, ◌<◌, bit_xor, digits, differ, bit_xor-bitwise,
}
use mathlib.Core.Path.{◌≡◌, refl, ap₂, ◌∙◌}
use native.Mathlib.Nat.{pow-suc}
use native.Mathlib.Omega.{arith}

abbrev xor_digits : ℕ → ℕ → ℕ → ℕ
xor_digits n a b = digits (λ b. b) differ n a b

differ-parity : (x y : ℕ) → x < 2 → y < 2 → differ x y ≡ (x + y) % 2
differ-parity zero y h k = omega arith
differ-parity (suc zero) zero h k = refl
differ-parity (suc zero) (suc zero) h k = refl
differ-parity (suc zero) (suc (suc y)) h k = absurd (omega arith)
differ-parity (suc (suc x)) y h k = absurd (omega arith)

xor_digits_fuel : (n m a b : ℕ) → a ≤ n → a ≤ m → xor_digits n a b ≡ xor_digits m a b
xor_digits_fuel zero zero a b p q = refl
xor_digits_fuel zero (suc m) zero b p q = refl
xor_digits_fuel zero (suc m) (suc a) b p q = absurd (omega arith)
xor_digits_fuel (suc n) zero zero b p q = refl
xor_digits_fuel (suc n) zero (suc a) b p q = absurd (omega arith)
xor_digits_fuel (suc n) (suc m) zero b p q = refl
xor_digits_fuel (suc n) (suc m) (suc a) b p q =
    omega (arith, xor_digits_fuel n m (suc a / 2) (b / 2) (omega arith) (omega arith))

pub zero-xor : (b : ℕ) → bit_xor 0 b ≡ b
zero-xor b = bit_xor-bitwise 0 b

xor_step : (a b : ℕ) → bit_xor a b ≡ bit_xor (a / 2) (b / 2) * 2 + (a + b) % 2
xor_step zero b = omega (arith, zero-xor b, zero-xor (b / 2))
xor_step (suc a) b = omega (
  arith,
  bit_xor-bitwise (suc a) b,
  bit_xor-bitwise (suc a / 2) (b / 2),
  xor_digits_fuel a (suc a / 2) (suc a / 2) (b / 2) (omega arith) (omega arith),
  differ-parity (suc a % 2) (b % 2) (omega arith) (omega arith),
)

xor_comm_fuel : (n a b : ℕ) → a + b ≤ n → bit_xor a b ≡ bit_xor b a
xor_comm_fuel zero zero zero h = refl
xor_comm_fuel zero zero (suc b) h = absurd (omega arith)
xor_comm_fuel zero (suc a) b h = absurd (omega arith)
xor_comm_fuel (suc n) zero zero h = refl
xor_comm_fuel (suc n) zero (suc b) h = omega (
  arith,
  xor_step 0 (suc b),
  xor_step (suc b) 0,
  xor_comm_fuel n (0 / 2) (suc b / 2) (omega arith),
)
xor_comm_fuel (suc n) (suc a) b h = omega (
  arith,
  xor_step (suc a) b,
  xor_step b (suc a),
  xor_comm_fuel n (suc a / 2) (b / 2) (omega arith),
)

pub xor_comm : (a b : ℕ) → bit_xor a b ≡ bit_xor b a
xor_comm a b = xor_comm_fuel (a + b) a b (omega arith)

xor_cancel_fuel : (n h c d : ℕ) → c + d ≤ n → bit_xor h c ≡ bit_xor h d → c ≡ d
xor_cancel_fuel zero h c d le e = omega arith
xor_cancel_fuel (suc n) h zero zero le e = refl
xor_cancel_fuel (suc n) h zero (suc d) le e =
    let a = xor_step h 0 in
    let b = xor_step h (suc d) in
    let rest = xor_cancel_fuel n (h / 2) (0 / 2) (suc d / 2) (omega arith) (omega arith) in
    omega arith
xor_cancel_fuel (suc n) h (suc c) d le e =
    let a = xor_step h (suc c) in
    let b = xor_step h d in
    let rest = xor_cancel_fuel n (h / 2) (suc c / 2) (d / 2) (omega arith) (omega arith) in
    omega arith

pub xor_cancel_left : (h c d : ℕ) → bit_xor h c ≡ bit_xor h d → c ≡ d
xor_cancel_left h c d e = xor_cancel_fuel (c + d) h c d (omega arith) e

pub xor_cancel_right : (h k c : ℕ) → bit_xor h c ≡ bit_xor k c → h ≡ k
xor_cancel_right h k c e = xor_cancel_left c h k (xor_comm c h ∙ e ∙ xor_comm k c)

pub xor_lt : (k a b : ℕ) → a < 2 ^ k → b < 2 ^ k → bit_xor a b < 2 ^ k
xor_lt zero a b h l =
    let s = xor_step a b in
    let z : a ≡ 0 = omega arith in
    let y : b ≡ 0 = omega arith in
    let e : bit_xor a b ≡ 0 = ap₂ bit_xor z y ∙ zero-xor 0 in omega arith
xor_lt (suc k) a b h l =
    let s = xor_step a b in
    let p = pow-suc 2 k in
    let rest = xor_lt k (a / 2) (b / 2) (omega arith) (omega arith) in omega arith

-- Multiplication by the prime of FNV can be undone modulo 2 ^ 64.
pub fnv_cancel :
    (x y : ℕ)
    → x < 2 ^ 64
    → y < 2 ^ 64
    → x * 1099511628211 % 2 ^ 64 ≡ y * 1099511628211 % 2 ^ 64
    → x ≡ y
fnv_cancel x y h k e = omega arith
