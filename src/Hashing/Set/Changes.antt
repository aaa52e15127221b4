-- ===== src/Hashing/Set/Changes.antt =====
-- What the operations of the set do to its values.
use plant_lang.Prelude.{
  ==_false, ℕ, suc, ◌+◌, ◌-◌, ◌*◌, ◌<◌, ◌≡◌, ◌≢◌, ◌⊎◌, ◌↔◌, inl, inr, refl, sym, ap, ◌∙◌, Bool,
  true, false, not, Option, none, some, ◌==◌, ==_iff, if◌then◌else◌, set, arith, Bool-cases, times,
  times-set, to_nat,
}
use plant_lang.Hashing.Set.{
  tomb, PlantSet, seek, home, is_free_or, is_dead, set_contains, filled, store, add_new, emptied,
  set_remove,
}
use plant_lang.Hashing.Set.Writing.{slot, In, live-ne, put-IsTable, put-In, mark-IsTable, mark-In}
use plant_lang.Hashing.Set.Lookup.{is_live, is_mark, table-Vacancy, table-Lookup}
use plant_lang.Hashing.Set.Growing.{IsHashSet, hash_set-HasFree, room-Roomy}

pub contains_lem :
    (v : ℕ) (s : PlantSet)
    → IsHashSet s
    → is_dead v ≡ false
    → ((set_contains v s ≡ some true) × In v s.slots)
      ⊎ ((set_contains v s ≡ some false) × (In v s.slots → ⊥))
unfolding set_contains
contains_lem v s f live =
    let l = table-Lookup v s.slots s.cap f.table live (hash_set-HasFree s f) in
    let size = f.table.size in
    let inside = l.inside in
    elim l.tells [
      | inl same ↦ inl (
        contains_at l.at l.found ∙ ap some ((==_iff (slot s.slots l.at) v).1 same),
        (l.at, omega arith, same),
      )
      | inr (free, absent) ↦ inr (
        contains_at l.at l.found
            ∙ ap some (==_false (slot s.slots l.at) v (λ e. (live-ne v live).0 (sym e ∙ free))),
        absent,
      )
    ]
  where
    contains_at :
        (i : ℕ)
        → seek (is_free_or v) s.cap (home v s.cap) s.cap s.slots ≡ some i
        → set_contains v s ≡ some (slot s.slots i == v)
    contains_at i e = rw (set_contains, e) refl

-- What adding the value `v` gives.
pub record Added (v : ℕ) (s : PlantSet) (r : Option (Bool × PlantSet)) : Type 0 where
  pub result : PlantSet
  pub ends : r ≡ some (true, result)
  pub sound : IsHashSet result
  pub count : result.count ≡ suc s.count
  pub holds : (w : ℕ) → is_dead w ≡ false → In w result.slots ↔ ((w ≡ v) ⊎ In w s.slots)

mark_count :
    (x tombs n : ℕ) → tombs ≡ n + to_nat (is_mark x) → (if is_mark x then tombs - 1 else tombs) ≡ n
mark_count x tombs n e = elim (Bool-cases (is_mark x)) [
  | inl y ↦ let one : to_nat (is_mark x) ≡ 1 = ap to_nat y in rw y (omega arith)
  | inr m ↦ let no_one : to_nat (is_mark x) ≡ 0 = ap to_nat m in rw m (omega arith)
]

live_count : (x : ℕ) → is_dead x ≡ true → to_nat (is_live x) ≡ 0
live_count x h = ap (λ b. to_nat (not b)) h

live_one : (x : ℕ) → is_dead x ≡ false → to_nat (is_live x) ≡ 1
live_one x h = ap (λ b. to_nat (not b)) h

no_mark : (v : ℕ) → is_dead v ≡ false → to_nat (is_mark v) ≡ 0
no_mark v h = elim (Bool-cases (v == tomb)) [
  | inl y ↦ absurd ((live-ne v h).1 ((==_iff v tomb).0 y))
  | inr n ↦ ap to_nat n
]

store-Added :
    (v : ℕ) (s : PlantSet)
    → IsHashSet s
    → is_dead v ≡ false
    → (In v s.slots → ⊥)
    → (s.count + s.tombs + 1) * 10 < s.cap * 7
    → Added v s (store v s)
unfolding store
store-Added v s f live absent room =
    let c = table-Vacancy is_dead v s.slots s.cap f.table refl (hash_set-HasFree s f) in
    let size = f.table.size in
    let inside = c.inside in
    let a = f.counted in
    let b = f.marked in
    let lives = times-set is_live v 0 s.slots c.at (omega arith) in
    let marks = times-set is_mark v 0 s.slots c.at (omega arith) in
    let z = live_count (slot s.slots c.at) c.stops in
    let o = live_one v live in
    let n = no_mark v live in
    let left =
      mark_count (slot s.slots c.at) s.tombs (times is_mark (set s.slots c.at v)) (omega arith) in
    record {
      result = filled v c.at s;
      ends = rw (store, c.found) refl;
      sound = record {
        table = put-IsTable s.slots s.cap c.at v f.table live absent c.inside c.way;
        counted = omega arith;
        marked = left;
        loose = omega arith;
        wide = f.wide;
      };
      count = refl;
      holds = λ w h. put-In s.slots c.at v w (omega arith) c.stops h;
    }

pub add_new-Added :
    (v : ℕ) (s : PlantSet)
    → IsHashSet s
    → is_dead v ≡ false
    → (In v s.slots → ⊥)
    → Added v s (add_new v s)
unfolding add_new
add_new-Added v s f live absent =
    let r = room-Roomy s f in
    let a = store-Added v r.result r.sound live (λ i. absent ((r.same.holds v live).0 i)) r.room in
    record {
      result = a.result;
      ends = ap (λ o. elim o [ none ↦ none | some s' ↦ store v s' ]) r.ends ∙ a.ends;
      sound = a.sound;
      count = a.count ∙ ap suc r.same.count;
      holds = λ w h. (
        λ i. elim ((a.holds w h).0 i) [ inl e ↦ inl e | inr b ↦ inr ((r.same.holds w h).0 b) ],
        λ i. (a.holds w h).1 (elim i [ inl e ↦ inl e | inr b ↦ inr ((r.same.holds w h).1 b) ]),
      );
    }

-- What removing the value `v`, which is there, gives.
pub record Removed (v : ℕ) (s : PlantSet) (r : Option (Bool × PlantSet)) : Type 0 where
  pub result : PlantSet
  pub ends : r ≡ some (true, result)
  pub sound : IsHashSet result
  pub count : suc result.count ≡ s.count
  pub holds : (w : ℕ) → is_dead w ≡ false → In w result.slots ↔ ((w ≢ v) × In w s.slots)

pub remove_lem :
    (v : ℕ) (s : PlantSet)
    → IsHashSet s
    → is_dead v ≡ false
    → (In v s.slots × Removed v s (set_remove v s))
      ⊎ ((set_remove v s ≡ some (false, s)) × (In v s.slots → ⊥))
unfolding set_remove
remove_lem v s f live =
    let l = table-Lookup v s.slots s.cap f.table live (hash_set-HasFree s f) in
    let size = f.table.size in
    let inside = l.inside in
    elim l.tells [
      | inl same ↦ inl ((l.at, omega arith, same), taken l.at inside l.found same)
      | inr (free, absent) ↦ inr (
        remove_at l.at l.found
            ∙ ap (λ b. some (if b then (true, emptied l.at s) else (false, s)))
                (==_false (slot s.slots l.at) v (λ e. (live-ne v live).0 (sym e ∙ free))),
        absent,
      )
    ]
  where
    nonzero : (v == 0) ≡ false
    nonzero = ==_false v 0 (live-ne v live).0

    remove_at :
        (i : ℕ)
        → seek (is_free_or v) s.cap (home v s.cap) s.cap s.slots ≡ some i
        → set_remove v s ≡ some (if slot s.slots i == v then (true, emptied i s) else (false, s))
    remove_at i e = rw (set_remove, nonzero, e) refl

    taken :
        (i : ℕ)
        → i < s.cap
        → seek (is_free_or v) s.cap (home v s.cap) s.cap s.slots ≡ some i
        → slot s.slots i ≡ v
        → Removed v s (set_remove v s)
    taken i inside found same =
        let size = f.table.size in
        let a = f.counted in
        let b = f.marked in
        let l = f.loose in
        let here = ap is_dead same ∙ live in
        let lives = times-set is_live tomb 0 s.slots i (omega arith) in
        let marks = times-set is_mark tomb 0 s.slots i (omega arith) in
        let one = live_one (slot s.slots i) here in
        let unmarked = no_mark (slot s.slots i) here in
        let z : to_nat (is_live tomb) ≡ 0 = refl in
        let o : to_nat (is_mark tomb) ≡ 1 = refl in
        record {
          result = emptied i s;
          ends =
              remove_at i found
              ∙ ap (λ b. some (if b then (true, emptied i s) else (false, s)))
                  ((==_iff (slot s.slots i) v).1 same);
          sound = record {
            table = mark-IsTable s.slots s.cap i f.table inside;
            counted = omega arith;
            marked = omega arith;
            loose = omega arith;
            wide = f.wide;
          };
          count = omega arith;
          holds = λ w h.
              let m = mark-In s.slots s.cap i w f.table inside here h in
              (
                λ k. let (ne, r) = m.0 k in (λ e. ne (e ∙ sym same), r),
                λ (ne, r). m.1 (λ e. ne (e ∙ same), r),
              );
        }
