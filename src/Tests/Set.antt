-- ===== src/Tests/Set.antt =====
-- A set that grows, forgets values and lists what is left.
use plant_lang.Prelude.{
  ℕ, ◌≡◌, ◌<◌, ◌≢◌, ◌↔◌, refl, true, false, List, [], ◌∷◌, some, length, arith,
}
use plant_lang.Hashing.Set.{add_new, is_dead, set_create, set_to_list, tomb, set_alloc}
use plant_lang.Hashing.Set.Writing.{In}
use plant_lang.Hashing.Set.Changes.{Added, add_new-Added}
use plant_lang.Hashing.Set.Membership.{
  add-Models, with_value, SetCall, answer, amount, add, has, remove, size, set_run, plain_run,
  Avoids, set_run-plain, set_create-Models,
}
use plant_lang.Hashing.Set.Listing.{set_to_list-values}

abbrev set_calls : List SetCall
set_calls =
    add 11
    ∷ add 22
    ∷ add 11
    ∷ add 33
    ∷ add 44
    ∷ remove 22
    ∷ add 55
    ∷ add 0
    ∷ add 66
    ∷ has 22
    ∷ has 66
    ∷ remove 77
    ∷ size
    ∷ []

set_calls_run :
    set_run set_calls set_create
    ≡ some (
        answer true
        ∷ answer true
        ∷ answer false
        ∷ answer true
        ∷ answer true
        ∷ answer true
        ∷ answer true
        ∷ answer false
        ∷ answer true
        ∷ answer false
        ∷ answer true
        ∷ answer false
        ∷ amount 5
        ∷ [])
unfolding set_run set_create set_alloc
set_calls_run = refl

set_calls-Avoids : Avoids set_calls
unfolding Avoids
set_calls-Avoids = (
  apart 11 (omega arith),
  (
    apart 22 (omega arith),
    (
      apart 11 (omega arith),
      (
        apart 33 (omega arith),
        (
          apart 44 (omega arith),
          (
            apart 22 (omega arith),
            (
              apart 55 (omega arith),
              (
                apart 0 (omega arith),
                (
                  apart 66 (omega arith),
                  (apart 22 (omega arith), (apart 66 (omega arith), (apart 77 (omega arith), tt))),
                ),
              ),
            ),
          ),
        ),
      ),
    ),
  ),
)
  where
    apart : (v : ℕ) → v < 100 → v ≢ tomb
    apart v h e = absurd (omega arith)

set_run-plain_example : set_run set_calls set_create ≡ some (plain_run set_calls (λ v. false) 0)
set_run-plain_example =
    set_run-plain set_calls set_create (λ v. false) 0 set_calls-Avoids set_create-Models

not_yet : In 11 set_create.slots → ⊥
not_yet i = differ ((set_create-Models.holds 11 refl).0 i)
  where
    differ : false ≡ true → ⊥
    differ e = cc

with_eleven : Added 11 set_create (add_new 11 set_create)
with_eleven = add_new-Added 11 set_create set_create-Models.sound refl not_yet

set_to_list-values_example :
    (length (set_to_list with_eleven.result) ≡ 1)
    × ((w : ℕ)
        → is_dead w ≡ false
        → In w (set_to_list with_eleven.result) ↔ (with_value 11 true (λ v. false) w ≡ true))
set_to_list-values_example =
    set_to_list-values with_eleven.result (with_value 11 true (λ v. false)) 1
      (add-Models 11 set_create (λ v. false) 0 set_create-Models with_eleven)
