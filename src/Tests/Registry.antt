-- ===== src/Tests/Registry.antt =====
-- The registries at concrete inputs.
use plant_lang.Prelude.{
  ℕ, zero, suc, ◌+◌, ◌≤◌, ◌≡◌, refl, ap, Bool, true, false, List, [], ◌∷◌, none, some, arith, ltb,
  if◌then◌else◌, length, take, Text, codes, str_eq, pos, times, to_nat,
}
use plant_lang.Registry.Locks.{lock_init}
use plant_lang.Registry.Locks.Exclusion.{
  LockOp, acquire, release, probe, status, run, nothing_held, run_set, lock_table_refines_set,
}
use plant_lang.Registry.Fds.{ClosedFds, fds_init, close_raw}
use plant_lang.Registry.Fds.Counts.{IsRegistry, is, fds_init-IsRegistry}
use plant_lang.Registry.Fds.Closing.{Closes, close_raw_once}
use plant_lang.Registry.Callbacks.{CbTable, CbEntry, Callback, cb_unregister, cb_get, ffi_ok}
use plant_lang.Registry.Callbacks.Bindings.{IsTable}
use plant_lang.Registry.Callbacks.Laws.{cb_unregister_lem}

abbrev lock_calls : List LockOp
lock_calls =
    acquire (some (codes "a"))
    ∷ acquire (some (codes "a"))
    ∷ release (some (codes "a"))
    ∷ acquire none
    ∷ probe (some (codes "a"))
    ∷ status
    ∷ []

lock_table_refines_set_example : run lock_init lock_calls ≡ run_set nothing_held lock_calls
lock_table_refines_set_example = lock_table_refines_set lock_calls

abbrev fine : ℕ → Bool
fine fd = true

close_raw_once_example : Closes fine 5 fds_init (close_raw fine (pos 5) fds_init)
close_raw_once_example = close_raw_once fine 5 fds_init fds_init-IsRegistry (omega arith)

-- the descriptors `k` .. `k + n - 1`
abbrev numbers : ℕ → ℕ → List ℕ
numbers k zero = []
numbers k (suc n) = k ∷ numbers (k + 1) n

length-numbers : (k n : ℕ) → length (numbers k n) ≡ n
length-numbers k zero = refl
length-numbers k (suc n) = ap suc (length-numbers (k + 1) n)

take-numbers : (k n : ℕ) → take n (numbers k n) ≡ numbers k n
take-numbers k zero = refl
take-numbers k (suc n) = ap (λ l. k ∷ l) (take-numbers (k + 1) n)

times-numbers : (fd k n : ℕ) → times (is fd) (numbers k n) + to_nat (ltb fd k) ≤ 1
unfolding times
times-numbers fd k zero = ground arith
times-numbers fd k (suc n) = let r = times-numbers fd (k + 1) n in ground arith

abbrev full_fds : ClosedFds
full_fds = record { fds = numbers 0 128; n = 128 }

full_fds-IsRegistry : IsRegistry full_fds
full_fds-IsRegistry = record {
  sized = length-numbers 0 128;
  fits = omega arith;
  once = λ fd. let r = times-numbers fd 0 128 in rw (take-numbers 0 128) (omega arith);
}

abbrev junk : CbEntry
junk = record { tag = []; fn = λ ctx val. 0 }

abbrev sum : Callback
sum ctx val = ctx + val

-- one tag bound
abbrev one_tag : CbTable
one_tag = record {
  table = record { tag = codes "f"; fn = sum } ∷ [];
  cap = 1;
  count = 1;
  ffi_errno = ffi_ok;
}

one_tag-IsTable : IsTable one_tag
unfolding times
one_tag-IsTable = record {
  sized = refl;
  fits = omega arith;
  once = λ t. at_most (str_eq (codes "f") t);
}
  where
    at_most : (b : Bool) → to_nat b + 0 ≤ 1
    at_most true = omega arith
    at_most false = omega arith

cb_unregister_lem_example :
    IsTable (cb_unregister junk (codes "f") one_tag)
    × ((j : Text)
        → cb_get junk j (cb_unregister junk (codes "f") one_tag)
          ≡ (if str_eq (codes "f") j then none else cb_get junk j one_tag))
cb_unregister_lem_example = cb_unregister_lem junk (codes "f") one_tag one_tag-IsTable
