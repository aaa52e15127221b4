-- ===== src/Prelude/Search.antt =====
-- Linear search, counting by a test, and how a removal changes the counts.
use Prim.Native.Nat.{ℕ, zero, suc, ◌+◌, ◌≤◌, ◌<◌}
use mathlib.Core.Path.{◌≡◌, refl}
use mathlib.Core.Bool.{Bool, true, false}
use mathlib.Core.List.{List, [], ◌∷◌, ◌++◌}
use mathlib.Core.Option.{Option, none, some}
use native.Mathlib.Omega.{arith}
use plant_lang.Prelude.Tests.{if◌then◌else◌}
use plant_lang.Prelude.Lists.{length, get_or, set, take}
use plant_lang.Prelude.Shift.{erase_idx}

abbrev pub to_nat : Bool → ℕ
to_nat true = 1
to_nat false = 0

module _ {ℓ} {A : Type ℓ} where
  -- `for (i = 0; i < n; i++) if (p(a[i])) return i;`
  unfoldable pub find_index : (A → Bool) → List A → Option ℕ
  find_index p [] = none
  find_index p (x ∷ xs) =
      if p x then some 0 else elim (find_index p xs) [ none ↦ none | some i ↦ some (suc i) ]

  -- How many elements pass the test.
  unfoldable pub times : (A → Bool) → List A → ℕ
  times p [] = 0
  times p (x ∷ xs) = to_nat (p x) + times p xs

  -- Where a search ends.
  pub record Found (p : A → Bool) (d : A) (i : ℕ) (l : List A) : Type 0 where
    pub below : i < length l
    pub hit : p (get_or l i d) ≡ true

module _ {ℓ} {A : Type ℓ} where
  pub find_index-times : (p : A → Bool) (l : List A) → find_index p l ≡ none → times p l ≡ 0
  unfolding find_index times
  find_index-times p [] h = refl
  find_index-times p (x ∷ xs) h = ground (arith, find_index-times p xs)

  pub find_index-Found :
      (p : A → Bool) (d : A) (l : List A) (i : ℕ) → find_index p l ≡ some i → Found p d i l
  unfolding find_index
  find_index-Found p d [] i h = cc
  find_index-Found p d (x ∷ xs) zero h = ground (arith, find_index-Found p d xs 0)
  find_index-Found p d (x ∷ xs) (suc i) h = ground (arith, find_index-Found p d xs i)

  pub times-get_or :
      (p : A → Bool) (d : A) (l : List A) (i : ℕ)
      → i < length l
      → p (get_or l i d) ≡ true
      → 0 < times p l
  unfolding times
  times-get_or p d [] i h e = elim h [ ]
  times-get_or p d (x ∷ xs) zero h e = ground arith
  times-get_or p d (x ∷ xs) (suc i) h e =
      let r = times-get_or p d xs i (omega arith) e in omega arith

  pub times-erase_idx :
      (p : A → Bool) (d : A) (l : List A) (i : ℕ)
      → i < length l
      → times p (erase_idx i l) + to_nat (p (get_or l i d)) ≡ times p l
  unfolding times erase_idx
  times-erase_idx p d [] i h = elim h [ ]
  times-erase_idx p d (x ∷ xs) zero h = omega arith
  times-erase_idx p d (x ∷ xs) (suc i) h =
      let r = times-erase_idx p d xs i (omega arith) in omega arith

  pub times-set :
      (p : A → Bool) (v d : A) (l : List A) (i : ℕ)
      → i < length l
      → times p (set l i v) + to_nat (p (get_or l i d)) ≡ times p l + to_nat (p v)
  unfolding times
  times-set p v d [] i h = elim h [ ]
  times-set p v d (x ∷ xs) zero h = omega arith
  times-set p v d (x ∷ xs) (suc i) h = let r = times-set p v d xs i (omega arith) in omega arith

  pub times-append : (p : A → Bool) (xs ys : List A) → times p (xs ++ ys) ≡ times p xs + times p ys
  unfolding times
  times-append p [] ys = omega arith
  times-append p (x ∷ xs) ys = omega (arith, times-append p xs ys)

  pub times-take_last :
      (p : A → Bool) (d : A) (l : List A) (n : ℕ)
      → n < length l
      → times p (take (suc n) l) ≡ times p (take n l) + to_nat (p (get_or l n d))
  unfolding times
  times-take_last p d [] n h = elim h [ ]
  times-take_last p d (x ∷ xs) zero h = omega arith
  times-take_last p d (x ∷ xs) (suc n) h =
      let r = times-take_last p d xs n (omega arith) in omega arith

  -- `a[i] = a[n]; n--;` takes out the element at `i` and no other.
  pub times_swap_out :
      (p : A → Bool) (d : A) (l : List A) (i n : ℕ)
      → n < length l
      → i ≤ n
      → times p (take n (set l i (get_or l n d))) + to_nat (p (get_or l i d))
        ≡ times p (take (suc n) l)
  unfolding times
  times_swap_out p d [] i n h le = elim h [ ]
  times_swap_out p d (x ∷ xs) zero zero h le = omega arith
  times_swap_out p d (x ∷ xs) zero (suc n) h le =
      let r = times-take_last p d xs n (omega arith) in omega arith
  times_swap_out p d (x ∷ xs) (suc i) zero h le = elim le [ ]
  times_swap_out p d (x ∷ xs) (suc i) (suc n) h le =
      let r = times_swap_out p d xs i n (omega arith) (omega arith) in omega arith

  pub find_index_here :
      (p : A → Bool) (x : A) (l : List A) → find_index p (x ∷ l) ≡ some 0 → p x ≡ true
  unfolding find_index
  find_index_here p x l h = ground arith

  pub find_index_later :
      (p : A → Bool) (x : A) (l : List A) (i : ℕ)
      → find_index p (x ∷ l) ≡ some (suc i)
      → (p x ≡ false) × (find_index p l ≡ some i)
  unfolding find_index
  find_index_later p x l i h = ground arith
