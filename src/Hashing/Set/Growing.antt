-- ===== src/Hashing/Set/Growing.antt =====
-- The set as a whole, and how it makes room.
use native.Mathlib.Nat.{pow-suc}
use plant_lang.Prelude.{
  ℕ, zero, suc, ◌+◌, ◌*◌, ◌≤◌, ◌<◌, ◌≡◌, ◌↔◌, inl, inr, refl, sym, ap, ◌∙◌, Bool, true, false, some,
  leb, replicate, arith, Bool-cases, length-replicate, get_or-replicate, times, to_nat, leb→lt,
}
use plant_lang.Hashing.Set.{PlantSet, set_alloc, set_create, is_dead, set_rehash, make_room}
use plant_lang.Hashing.Set.Probing.{IsPower}
use plant_lang.Hashing.Set.Writing.{slot, In, IsTable, dead_or_live}
use plant_lang.Hashing.Set.Lookup.{is_live, is_mark, HasFree, counts-HasFree}
use plant_lang.Hashing.Set.Refilling.{Refilled, refill-Refilled}

pub record IsHashSet (s : PlantSet) : Type 0 where
  pub table : IsTable s.slots s.cap
  pub counted : s.count ≡ times is_live s.slots
  pub marked : s.tombs ≡ times is_mark s.slots
  pub loose : (s.count + s.tombs) * 10 < s.cap * 7
  pub wide : 8 ≤ s.cap

pub hash_set-HasFree : (s : PlantSet) → IsHashSet s → HasFree s.slots
hash_set-HasFree s f =
    let size = f.table.size in
    let a = f.counted in let b = f.marked in let l = f.loose in counts-HasFree s.slots (omega arith)

times-replicate : (p : ℕ → Bool) (n : ℕ) → p 0 ≡ false → times p (replicate n 0) ≡ 0
unfolding times
times-replicate p zero h = refl
times-replicate p (suc n) h =
    let z : to_nat (p 0) ≡ 0 = ap to_nat h in let r = times-replicate p n h in omega arith

pub free-IsTable : (cap : ℕ) → IsPower cap → IsTable (replicate cap 0) cap
free-IsTable cap p = record {
  power = p;
  size = length-replicate cap 0;
  reach = λ j l h.
      absurd (dead_or_live 0 (slot (replicate cap 0) j) refl h (sym (get_or-replicate cap j 0)));
  once = λ i j k l h e.
      absurd (dead_or_live 0 (slot (replicate cap 0) i) refl h (sym (get_or-replicate cap i 0)));
}

create-IsHashSet : IsHashSet (set_alloc 8)
unfolding set_alloc
create-IsHashSet = record {
  table = free-IsTable 8 (3, refl);
  counted = sym (times-replicate is_live 8 refl);
  marked = sym (times-replicate is_mark 8 refl);
  loose = omega arith;
  wide = omega arith;
}

pub set_create-IsHashSet : IsHashSet set_create
unfolding set_create
set_create-IsHashSet = create-IsHashSet

-- A set with the same values.
pub record SameValues (s s' : PlantSet) : Type 0 where
  pub count : s'.count ≡ s.count
  pub holds : (w : ℕ) → is_dead w ≡ false → In w s'.slots ↔ In w s.slots

pub record Roomy (s : PlantSet) : Type 0 where
  pub result : PlantSet
  pub ends : make_room s ≡ some result
  pub sound : IsHashSet result
  pub room : (result.count + result.tombs + 1) * 10 < result.cap * 7
  pub same : SameValues s result

rehashed : (s : PlantSet) → IsHashSet s → Refilled s.slots (replicate (s.cap * 2) 0) (s.cap * 2)
rehashed s f =
    let none_live = times-replicate is_live (s.cap * 2) refl in
    let size = f.table.size in
    let a = f.counted in
    let l = f.loose in
    let w = f.wide in
    let (k, e) = f.table.power in
    refill-Refilled s.slots (replicate (s.cap * 2) 0) (s.cap * 2)
      (free-IsTable (s.cap * 2) (suc k, let p = pow-suc 2 k in omega arith))
      (times-replicate is_mark (s.cap * 2) refl) (omega arith)
      (λ i j m n h x. f.table.once i j (omega arith) (omega arith) h x)
      (λ v h i (j, m, x). dead_or_live 0 v refl h (sym (get_or-replicate (s.cap * 2) j 0) ∙ x))

pub room-Roomy : (s : PlantSet) → IsHashSet s → Roomy s
unfolding make_room set_rehash
room-Roomy s f = elim (Bool-cases (leb (s.cap * 7) ((s.count + s.tombs + 1) * 10))) [
  | inr enough ↦ record {
    result = s;
    ends = rw (make_room, enough) refl;
    sound = f;
    room = leb→lt (s.cap * 7) ((s.count + s.tombs + 1) * 10) enough;
    same = record { count = refl; holds = λ w h. (λ i. i, λ i. i) };
  }
  | inl short ↦ grown short (rehashed s f)
]
  where
    grown :
        leb (s.cap * 7) ((s.count + s.tombs + 1) * 10) ≡ true
        → Refilled s.slots (replicate (s.cap * 2) 0) (s.cap * 2)
        → Roomy s
    grown short r =
        let none_live = times-replicate is_live (s.cap * 2) refl in
        let a = f.counted in
        let l = f.loose in
        let w = f.wide in
        let live = r.live in
        record {
          result = record s { slots = r.new; cap = s.cap * 2; tombs = 0 };
          ends = rw (make_room, short, set_rehash, r.ends) refl;
          sound = record {
            table = r.table;
            counted = omega arith;
            marked = sym r.marks;
            loose = omega arith;
            wide = omega arith;
          };
          room = omega arith;
          same = record {
            count = refl;
            holds = λ v h. (
              λ i. elim ((r.holds v h).0 i) [
                | inl (j, m, x) ↦
                    absurd (dead_or_live 0 v refl h (sym (get_or-replicate (s.cap * 2) j 0) ∙ x))
                | inr b ↦ b
              ],
              λ i. (r.holds v h).1 (inr i),
            );
          };
        }
