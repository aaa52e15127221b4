-- ===== src/Prelude/Shift.antt =====
-- Closing the gap at one slot of an array: the loop `for (k = j; k + 1 < n; k++) a[k] = a[k + 1];`,
-- which is also what `memmove` by one slot does.
use Prim.Native.Nat.{ℕ, zero, suc, ◌+◌, ◌≤◌}
use mathlib.Core.Path.{◌≡◌, refl, ap, ◌∙◌}
use mathlib.Core.List.{List, [], ◌∷◌}
use native.Mathlib.Omega.{arith}
use plant_lang.Prelude.Lists.{length, get_or, set, take, length-set}

module _ {ℓ} {A : Type ℓ} where
  -- `n` rounds from slot `j` on; `d` is read past the end only.
  unfoldable pub move_down : A → ℕ → ℕ → List A → List A
  move_down d zero j xs = xs
  move_down d (suc n) j xs = move_down d n (suc j) (set xs j (get_or xs (suc j) d))

  -- The list without its element at `j`.
  unfoldable pub erase_idx : ℕ → List A → List A
  erase_idx j [] = []
  erase_idx zero (x ∷ xs) = xs
  erase_idx (suc j) (x ∷ xs) = x ∷ erase_idx j xs

module _ {ℓ} {A : Type ℓ} where
  move_down-suc :
      (d : A) (n j : ℕ) (x : A) (xs : List A)
      → move_down d n (suc j) (x ∷ xs) ≡ x ∷ move_down d n j xs
  unfolding move_down
  move_down-suc d zero j x xs = refl
  move_down-suc d (suc n) j x xs = move_down-suc d n (suc j) x (set xs j (get_or xs (suc j) d))

  move_down_zero :
      (d : A) (n : ℕ) (x : A) (xs : List A)
      → n ≤ length xs
      → take n (move_down d n 0 (x ∷ xs)) ≡ take n xs
  unfolding move_down
  move_down_zero d zero x xs h = refl
  move_down_zero d (suc n) x [] h = elim h [ ]
  move_down_zero d (suc n) x (y ∷ ys) h =
      ap (take (suc n)) (move_down-suc d n 0 y (y ∷ ys))
      ∙ ap (λ t. y ∷ t) (move_down_zero d n y ys (omega arith))

  -- The gap at `j` closes, and the rest keeps its order.
  pub take-move_down :
      (d : A) (n j : ℕ) (xs : List A)
      → suc (j + n) ≤ length xs
      → take (j + n) (move_down d n j xs) ≡ erase_idx j (take (suc (j + n)) xs)
  unfolding erase_idx
  take-move_down d n zero [] h = elim h [ ]
  take-move_down d n zero (x ∷ xs) h =
      let e : 0 + n ≡ n = omega arith in rw e (move_down_zero d n x xs (omega arith))
  take-move_down d n (suc j) [] h = elim h [ ]
  take-move_down d n (suc j) (x ∷ xs) h =
      let e : suc j + n ≡ suc (j + n) = omega arith in
      rw e (
        ap (take (suc (j + n))) (move_down-suc d n j x xs)
        ∙ ap (λ t. x ∷ t) (take-move_down d n j xs (omega arith)))

  pub length-move_down : (d : A) (n j : ℕ) (xs : List A) → length (move_down d n j xs) ≡ length xs
  unfolding move_down
  length-move_down d zero j xs = refl
  length-move_down d (suc n) j xs =
      length-move_down d n (suc j) (set xs j (get_or xs (suc j) d))
      ∙ length-set xs j (get_or xs (suc j) d)
