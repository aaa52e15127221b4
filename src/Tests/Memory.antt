-- ===== src/Tests/Memory.antt =====
-- The string slab at concrete inputs.
use plant_lang.Prelude.{
  ◌+◌, ◌≤◌, ◌≡◌, refl, Bool, true, false, [], ◌∷◌, none, some, arith, ◌==◌, Bool-cases, inl, inr,
  times, to_nat,
}
use plant_lang.Memory.Slab.{in_slab, Slab, slab_alloc}
use plant_lang.Memory.Slab.Ownership.{Owned, Allocates, slab_alloc-Allocates}

abbrev two_blocks : Slab
two_blocks = record { region = some 4096; free = 4160 ∷ []; live = 1; blocks = 2 }

two_blocks-Owned : Owned two_blocks (4096 ∷ [])
unfolding times in_slab
two_blocks-Owned = record {
  once = λ x. apart (x == 4160) (x == 4096) (λ a b. ground arith);
  inside = λ x h. elim (Bool-cases (x == 4160)) [
    | inl here ↦ ground arith
    | inr other ↦ elim (Bool-cases (x == 4096)) [
      | inl there ↦ ground arith
      | inr neither ↦ ground arith
    ]
  ];
  counted = refl;
  total = refl;
}
  where
    apart : (a b : Bool) → (a ≡ true → b ≡ true → ⊥) → to_nat a + 0 + (to_nat b + 0) ≤ 1
    apart true true h = absurd (h refl refl)
    apart true false h = omega arith
    apart false true h = omega arith
    apart false false h = omega arith

slab_alloc-Allocates_example : Allocates two_blocks (4096 ∷ []) (slab_alloc none 20 two_blocks)
slab_alloc-Allocates_example =
    slab_alloc-Allocates none 20 4096 two_blocks (4096 ∷ []) (omega arith) (omega arith) refl
      two_blocks-Owned
