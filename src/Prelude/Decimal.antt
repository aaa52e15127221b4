-- ===== src/Prelude/Decimal.antt =====
-- Decimal digits, and how many there are.
use Prim.Native.Nat.{ℕ, zero, suc, ◌+◌, ◌/◌, ◌%◌, ◌^◌, ◌≤◌, ◌<◌}
use mathlib.Core.Logic.{inl, inr}
use mathlib.Core.List.{◌∷◌}
use native.Mathlib.Nat.{pow-suc}
use native.Mathlib.Omega.{arith}
use plant_lang.Prelude.Tests.{ltb, if◌then◌else◌, Bool-cases, ltb→le}
use plant_lang.Prelude.Lists.{length}
use plant_lang.Prelude.Bytes.{Text}

-- what `%ld` prints of a number that is not negative, in front of `rest`; `n + 1` rounds are enough
unfoldable pub decimal_from : ℕ → ℕ → Text → Text
decimal_from zero n rest = rest
decimal_from (suc fuel) n rest =
    let digit = 48 + n % 10 in
    let more = decimal_from fuel (n / 10) (digit ∷ rest) in if ltb n 10 then digit ∷ rest else more

pub length-decimal_from :
    (k fuel n : ℕ) (rest : Text)
    → n < 10 ^ suc k
    → length (decimal_from fuel n rest) ≤ suc k + length rest
unfolding decimal_from
length-decimal_from k zero n rest h = omega arith
length-decimal_from k (suc fuel) n rest h = elim (Bool-cases (ltb n 10)) [
  | inl y ↦ rw (decimal_from, y) (omega arith)
  | inr m ↦
      rw (decimal_from, m)
        (more k h (ltb→le n 10 m)
          (λ k h. length-decimal_from k fuel (n / 10) ((48 + n % 10) ∷ rest) h))
]
  where
    more :
        (k : ℕ)
        → n < 10 ^ suc k
        → 10 ≤ n
        → ((k : ℕ)
            → n / 10 < 10 ^ suc k
            → length (decimal_from fuel (n / 10) ((48 + n % 10) ∷ rest))
              ≤ suc k + length ((48 + n % 10) ∷ rest))
        → length (decimal_from fuel (n / 10) ((48 + n % 10) ∷ rest)) ≤ suc k + length rest
    more zero h l rec = absurd (let p = pow-suc 10 0 in omega arith)
    more (suc k) h l rec = let p = pow-suc 10 (suc k) in let r = rec k (omega arith) in omega arith
