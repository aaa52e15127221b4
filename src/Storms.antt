-- ===== src/Storms.antt =====
-- The storm registry and the exception frames of runtime/c/plant_runtime.c: the names and messages
-- (`plant_storm_match` .. `plant_storm_default_message`), and in the children the WEATHER frames.
pub mod Frames
pub mod Exits
pub mod Reclaiming
pub mod Shelter
pub mod Unwinding
use plant_lang.Prelude.{
  ℕ, zero, suc, ◌+◌, ◌-◌, ◌*◌, ◌/◌, ◌%◌, ◌^◌, ◌≤◌, ◌<◌, ◌≡◌, ◌≢◌, ◌↔◌, refl, sym, ap, ap₂, ◌∙◌,
  subst, Bool, true, false, not, ◌||◌, ◌&&◌, List, [], ◌∷◌, ◌++◌, map, append-nil, append_assoc,
  Option, none, some, arith, ltb, leb, ◌==◌, ==_iff, if◌then◌else◌, length, get_or, set, take,
  replicate, length-append, length-set, length-replicate, get_or-set_self, get_or-set_ne,
  get_or-append_left, get_or-append_right, get_or-replicate, take-append, bit_and, Text, codes,
  str_eq, str_eq_iff, str_eq_refl, Bool-cases, ◌⊎◌, inl, inr, times, to_nat, times-set,
  times-append, find_index, Option-cases, ℤ, pos, negsuc, min, max, add-one,
}

pub record StormInfo : Type 0 where
  pub name : Text
  pub message : Text

abbrev info : Text → Text → StormInfo
info n m = record { name = n; message = m }

-- `_plant_storm_registry`
abbrev pub storm_registry : List StormInfo
storm_registry =
    info (codes "ZERO_STORM") (codes "division by zero")
    ∷ info (codes "LOCK_STORM") (codes "operation locked or forbidden")
    ∷ info (codes "MISSING_STORM") (codes "missing symbol, file, or value")
    ∷ info (codes "NETWORK_STORM") (codes "network or I/O failure")
    ∷ info (codes "LOST_STORM") (codes "data lost or unavailable")
    ∷ info (codes "RANGE_STORM") (codes "index or range out of bounds")
    ∷ info (codes "TYPE_STORM") (codes "type or conversion mismatch")
    ∷ info (codes "PARSE_STORM") (codes "malformed input or syntax error")
    ∷ info (codes "HANDLE_STORM") (codes "invalid or closed resource handle")
    ∷ info (codes "HARVEST_STORM") (codes "HTTP harvest failed")
    ∷ info (codes "FALL_STORM") (codes "requested abort or termination")
    ∷ info (codes "STOP_STORM") (codes "conditional stop requested")
    ∷ info (codes "ANY_STORM") (codes "unclassified storm")
    ∷ []

unfoldable pub storm_match : Option Text → Option Text → Bool
storm_match thrown none = false
storm_match none (some shelter) = str_eq shelter (codes "ANY_STORM")
storm_match (some thrown) (some shelter) =
    str_eq shelter (codes "ANY_STORM") || str_eq thrown shelter

unfoldable pub known_in : Text → List StormInfo → Bool
known_in type [] = false
known_in type (x ∷ xs) = str_eq x.name type || known_in type xs

unfoldable pub storm_is_known : Option Text → Bool
unfolding known_in
storm_is_known none = false
storm_is_known (some type) = known_in type storm_registry

unfoldable pub message_in : Text → List StormInfo → Option Text
message_in type [] = none
message_in type (x ∷ xs) = if str_eq x.name type then some x.message else message_in type xs

unfoldable pub storm_default_message : Option Text → Text
unfolding message_in
storm_default_message none = codes "(unclassified storm)"
storm_default_message (some type) = elim (message_in type storm_registry) [
  | none ↦ codes "(unclassified storm)"
  | some m ↦ m
]
