-- ===== src/Prelude/Mask.antt =====
-- `x & (2 ^ k - 1)` is the remainder by `2 ^ k`.
use Prim.Native.Nat.{
  ℕ, zero, suc, ◌+◌, ◌-◌, ◌*◌, ◌/◌, ◌%◌, ◌^◌, ◌≤◌, ◌<◌, min, bit_and, digits, bit_and-bitwise,
}
use mathlib.Core.Path.{◌≡◌, sym, ap, ap₂, ◌∙◌}
use native.Mathlib.Nat.{
  pow-suc, one-le-pow, mul-add-mod_self_left, mod-eq_of_lt, div-add-mod, zero-mod,
}
use native.Mathlib.Omega.{arith}

-- The recursion that `bit_and` stands for, with the rounds that are left.
abbrev and_rounds : ℕ → ℕ → ℕ → ℕ
and_rounds n a b = digits (λ b. zero) min n a b

split_mod : (p a : ℕ) → 0 < p → a % (p * 2) ≡ a / 2 % p * 2 + a % 2
split_mod p a h =
    ap (λ x. x % (p * 2)) whole
    ∙ mul-add-mod_self_left (p * 2) (a / 2 / p) (a / 2 % p * 2 + a % 2)
    ∙ mod-eq_of_lt small
  where
    whole : a ≡ p * 2 * (a / 2 / p) + (a / 2 % p * 2 + a % 2)
    whole = omega (arith, div-add-mod (a / 2) p)

    below : a / 2 % p < p
    below = omega arith

    small : a / 2 % p * 2 + a % 2 < p * 2
    small = omega (arith, below)

and_rounds-mask : (n k a : ℕ) → a ≤ n → and_rounds n a (2 ^ k - 1) ≡ a % 2 ^ k
and_rounds-mask zero k zero h = sym (zero-mod (2 ^ k))
and_rounds-mask zero k (suc a) h = elim h [ ]
and_rounds-mask (suc n) k zero h = sym (zero-mod (2 ^ k))
and_rounds-mask (suc n) zero (suc a) h =
    omega (arith, and_rounds-mask n zero (suc a / 2) (omega arith))
and_rounds-mask (suc n) (suc k) (suc a) h =
    let p = one-le-pow k 2 in
    let q = pow-suc 2 k in
    let half : (2 ^ suc k - 1) / 2 ≡ 2 ^ k - 1 = omega arith in
    let odd : (2 ^ suc k - 1) % 2 ≡ 1 = omega arith in
    let rest = and_rounds-mask n k (suc a / 2) (omega arith) in
    ap₂ (λ b c. and_rounds n (suc a / 2) b * 2 + min (suc a % 2) c) half odd
    ∙ ap (λ m. m * 2 + min (suc a % 2) 1) rest
    ∙ ap (λ m. suc a / 2 % 2 ^ k * 2 + m) (omega arith)
    ∙ sym (split_mod (2 ^ k) (suc a) (omega arith))
    ∙ ap (λ m. suc a % m) (sym q)

-- The low `k` bits of a number are its remainder by `2 ^ k`.
pub bit_and_mask : (k a : ℕ) → bit_and a (2 ^ k - 1) ≡ a % 2 ^ k
bit_and_mask k a = bit_and-bitwise a (2 ^ k - 1) ∙ and_rounds-mask a k a (omega arith)
