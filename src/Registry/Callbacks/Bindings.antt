-- ===== src/Registry/Callbacks/Bindings.antt =====
-- The callback registry as a finite map from tags to functions.
use plant_lang.Prelude.{
  ℕ, zero, suc, ◌+◌, ◌≤◌, ◌≡◌, refl, ap, true, false, List, [], ◌∷◌, ◌++◌, Option, none, some,
  arith, if◌then◌else◌, length, get_or, set, take, Text, str_eq, str_eq_iff, find_index, times,
  to_nat, find_index_here, find_index_later, erase_idx, Bool-cases, inl, inr,
}
use plant_lang.Registry.Callbacks.{Callback, CbEntry, CbTable, cb_init, is_tag}

abbrev pub live : CbTable → List CbEntry
live s = take s.count s.table

-- The table has its capacity, and no tag is registered twice.
pub record IsTable (s : CbTable) : Type 0 where
  pub sized : length s.table ≡ s.cap
  pub fits : s.count ≤ s.cap
  pub once : (t : Text) → times (is_tag t) (live s) ≤ 1

pub cb_init-IsTable : IsTable cb_init
unfolding times
cb_init-IsTable = record { sized = refl; fits = omega arith; once = λ t. omega arith }

-- The function of the first entry with the tag.
pub fn_of : Text → List CbEntry → Option Callback
fn_of t [] = none
fn_of t (e ∷ l) = if is_tag t e then some e.fn else fn_of t l

pub fn_of-none : (t : Text) (l : List CbEntry) → times (is_tag t) l ≡ 0 → fn_of t l ≡ none
unfolding fn_of times
fn_of-none t [] h = refl
fn_of-none t (e ∷ l) h = ground (arith, fn_of-none t l)

pub fn_of-find_index :
    (t : Text) (junk : CbEntry) (l : List CbEntry)
    → fn_of t l
      ≡ elim (find_index (is_tag t) l) [ none ↦ none | some i ↦ some (get_or l i junk).fn ]
unfolding fn_of find_index
fn_of-find_index t junk [] = refl
fn_of-find_index t junk (e ∷ l) =
    let rest = fn_of-find_index t junk l in
    elim (Bool-cases (is_tag t e)) [ inl hit ↦ rw hit | inr other ↦ rw other (ground arith) ]

pub fn_of-append :
    (tag t : Text) (fn : Callback) (l : List CbEntry)
    → times (is_tag tag) l ≡ 0
    → fn_of t (l ++ record { tag = tag; fn = fn } ∷ [])
      ≡ (if str_eq tag t then some fn else fn_of t l)
unfolding fn_of times
fn_of-append tag t fn [] h = refl
fn_of-append tag t fn (x ∷ l) h =
    let other : is_tag tag x ≡ false = ground arith in
    let rest = fn_of-append tag t fn l (omega arith) in
    ground (arith, rest, str_eq_iff x.tag tag, str_eq_iff x.tag t, str_eq_iff tag t)

module _ (tag : Text) (junk : CbEntry) where
  is_both : (t : Text) (e : CbEntry) → is_tag tag e ≡ true → is_tag t e ≡ str_eq tag t
  is_both t e h = rw ((str_eq_iff e.tag tag).0 h)

  pub fn_of-set :
      (t : Text) (fn : Callback) (l : List CbEntry) (i : ℕ)
      → find_index (is_tag tag) l ≡ some i
      → fn_of t (set l i (record (get_or l i junk) { fn = fn }))
        ≡ (if str_eq tag t then some fn else fn_of t l)
  unfolding fn_of
  fn_of-set t fn [] i h = unfold find_index in cc
  fn_of-set t fn (e ∷ l) zero h =
      let hit = find_index_here (is_tag tag) e l h in rw (is_both t e hit) (ground arith)
  fn_of-set t fn (e ∷ l) (suc i) h =
      let (other, later) = find_index_later (is_tag tag) e l i h in
      let rest = fn_of-set t fn l i later in apart t e fn _ _ other rest
    where
      apart :
          (t : Text) (e : CbEntry) (fn : Callback) (x y : Option Callback)
          → is_tag tag e ≡ false
          → x ≡ (if str_eq tag t then some fn else y)
          → (if is_tag t e then some e.fn else x)
            ≡ (if str_eq tag t then some fn else (if is_tag t e then some e.fn else y))
      apart t e fn x y other h =
          ground (arith, str_eq_iff e.tag tag, str_eq_iff e.tag t, str_eq_iff tag t)

  pub fn_of-erase_idx :
      (t : Text) (l : List CbEntry) (i : ℕ)
      → find_index (is_tag tag) l ≡ some i
      → times (is_tag tag) l ≤ 1
      → fn_of t (erase_idx i l) ≡ (if str_eq tag t then none else fn_of t l)
  unfolding fn_of erase_idx times
  fn_of-erase_idx t [] i h o = unfold find_index in cc
  fn_of-erase_idx t (e ∷ l) zero h o =
      let hit = find_index_here (is_tag tag) e l h in
      let gone : times (is_tag tag) l ≡ 0 = let o' = rw hit at o in omega arith in
      let clear = fn_of-none tag l gone in
      rw (is_both t e hit) (elim (Bool-cases (str_eq tag t)) [
        | inl same ↦ let q = (str_eq_iff tag t).0 same in rw same (rw (← q) clear)
        | inr other ↦ rw other
      ])
  fn_of-erase_idx t (e ∷ l) (suc i) h o =
      let (other, later) = find_index_later (is_tag tag) e l i h in
      let rest = fn_of-erase_idx t l i later (let o' = rw other at o in omega arith) in
      apart t e _ _ other rest
    where
      apart :
          (t : Text) (e : CbEntry) (x y : Option Callback)
          → is_tag tag e ≡ false
          → x ≡ (if str_eq tag t then none else y)
          → (if is_tag t e then some e.fn else x)
            ≡ (if str_eq tag t then none else (if is_tag t e then some e.fn else y))
      apart t e x y other h =
          ground (arith, str_eq_iff e.tag tag, str_eq_iff e.tag t, str_eq_iff tag t)

  pub times-set_same :
      (t : Text) (fn : Callback) (l : List CbEntry) (i : ℕ)
      → times (is_tag t) (set l i (record (get_or l i junk) { fn = fn })) ≡ times (is_tag t) l
  unfolding times
  times-set_same t fn [] i = refl
  times-set_same t fn (e ∷ l) zero = refl
  times-set_same t fn (e ∷ l) (suc i) = ap (λ n. to_nat (is_tag t e) + n) (times-set_same t fn l i)
