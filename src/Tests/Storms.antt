-- ===== src/Tests/Storms.antt =====
-- The WEATHER frames at concrete inputs.
use plant_lang.Prelude.{
  ℕ, ◌+◌, ◌≤◌, ◌≡◌, refl, Bool, true, false, List, [], ◌∷◌, ◌++◌, none, some, arith, ◌==◌, Text,
  codes, times, to_nat,
}
use plant_lang.Storms.Frames.{
  Exit, Weather, no_weather, Reclaimer, Storms, shelter_enter, shelter_leave, free_all,
}
use plant_lang.Storms.Exits.{IsExits}
use plant_lang.Storms.Shelter.{register_all, shelter_scope}
use plant_lang.Storms.Unwinding.{PassesOn, calm-PassesOn}

-- a memory that records what is freed
abbrev tracer : Reclaimer (List ℕ)
tracer = record { free_handle = λ x h. x ∷ h; drain = λ h. h }

abbrev with_exits : Weather
with_exits = record no_weather {
  exits = record { handle = 7; deferred = false } ∷ record { handle = 8; deferred = true } ∷ [];
}

with_exits-IsExits : IsExits with_exits
unfolding times
with_exits-IsExits = record {
  fits = omega arith;
  once = λ h. two (7 == h) (8 == h) (λ a b. ground arith);
  real = refl;
}
  where
    two : (a b : Bool) → (a ≡ true → b ≡ true → ⊥) → to_nat a + (to_nat b + 0) ≤ 1
    two true true h = absurd (h refl refl)
    two true false h = omega arith
    two false true h = omega arith
    two false false h = omega arith

shelter_scope_example :
    let inside = register_all (8 ∷ 9 ∷ []) (shelter_enter with_exits) in
    (news : List Exit) × (inside.exits ≡ with_exits.exits ++ news)
    × ((shelter_leave tracer inside []).0.exits ≡ with_exits.exits)
    × ((shelter_leave tracer inside []).1 ≡ free_all tracer news [])
shelter_scope_example = shelter_scope tracer (8 ∷ 9 ∷ []) with_exits []

-- an inner frame with a storm that no shelter took, inside another frame
abbrev nested : Storms (List ℕ)
nested = record {
  frames =
      no_weather
      ∷ record with_exits { next = some 0; raised = true; exc_type = some (codes "TYPE_STORM") }
      ∷ [];
  head = some 1;
  handling = none;
  heap = [];
}

abbrev no_field : ℕ → Text → Text
no_field o key = []

calm-PassesOn_example : PassesOn tracer no_field 1 nested (some 0)
calm-PassesOn_example =
    calm-PassesOn tracer no_field 1 nested refl (omega arith)
      (λ j e. let q : 0 ≡ j = cc in (λ w. omega arith, omega arith))
