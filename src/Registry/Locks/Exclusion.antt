-- ===== src/Registry/Locks/Exclusion.antt =====
-- The lock table against its abstract view: the set of the keys that are held.
use plant_lang.Prelude.{
  ℕ, suc, ◌+◌, ◌-◌, ◌≤◌, ◌<◌, ◌≡◌, refl, sym, ap, ap₂, ◌∙◌, Bool, true, false, not, ◌&&◌, ◌||◌,
  List, [], ◌∷◌, Option, none, some, arith, add-one, leb, if◌then◌else◌, length, get_or, take,
  length-set, get_or-take, take-set, length-take, Text, str_eq, str_eq_iff, times, to_nat, Found,
  find_index-times, find_index-Found, times-get_or, times-append, times_swap_out, Option-cases, inl,
  inr, Bool-cases,
}
use plant_lang.Registry.Locks.{
  LockEntry, LockTable, lock_max, no_lock, lock_init, LockReply, acquired, refused, undefined, full,
  holds, search_key, lock, lock_release, lock_held, lock_status,
}

-- The calls that tasks make, in the order in which they reach the table.
pub data LockOp : Type 0 where
  acquire release probe : Option Text → LockOp
  status : LockOp

pub data Answer : Type 0 where
  reply : LockReply → Answer
  flag : Bool → Answer
  number : ℕ → Answer

step : LockTable → LockOp → Answer × LockTable
step t (acquire key) = (reply (lock key t).0, (lock key t).1)
step t (release key) = (flag (lock_release key t).0, (lock_release key t).1)
step t (probe key) = (flag (lock_held key t), t)
step t status = (number (lock_status t), t)

pub run : LockTable → List LockOp → List Answer
run t [] = []
run t (op ∷ ops) = (step t op).0 ∷ run (step t op).1 ops

-- Which keys are held, and how many.
pub record LockSet : Type 0 where
  pub held : Text → Bool
  pub size : ℕ

pub step_set : LockSet → LockOp → Answer × LockSet
step_set s (acquire none) = (reply undefined, s)
step_set s (acquire (some [])) = (reply undefined, s)
step_set s (acquire (some (c ∷ cs))) =
    if s.held (c ∷ cs)
    then (reply refused, s)
    else if leb lock_max s.size
    then (reply full, s)
    else (reply acquired, record { held = λ j. str_eq (c ∷ cs) j || s.held j; size = s.size + 1 })
step_set s (release none) = (flag false, s)
step_set s (release (some [])) = (flag false, s)
step_set s (release (some (c ∷ cs))) =
    if s.held (c ∷ cs)
    then (flag true, record { held = λ j. not (str_eq (c ∷ cs) j) && s.held j; size = s.size - 1 })
    else (flag false, s)
step_set s (probe none) = (flag false, s)
step_set s (probe (some [])) = (flag false, s)
step_set s (probe (some (c ∷ cs))) = (flag (s.held (c ∷ cs)), s)
step_set s status = (number s.size, s)

pub run_set : LockSet → List LockOp → List Answer
run_set s [] = []
run_set s (op ∷ ops) = (step_set s op).0 ∷ run_set (step_set s op).1 ops

abbrev live : LockTable → List LockEntry
live t = take t.count t.table

-- Each held key has one entry, and no other key has any.
record Shows (t : LockTable) (s : LockSet) : Type 0 where
  sized : length t.table ≡ lock_max
  fits : t.count ≤ lock_max
  once : (j : Text) → times (holds j) (live t) ≡ to_nat (s.held j)
  counted : t.count ≡ s.size

record Agrees (r : Answer × LockTable) (f : Answer × LockSet) : Type 0 where
  same : r.0 ≡ f.0
  shows : Shows r.1 f.1

not_found :
    (k : Text) (t : LockTable) (s : LockSet) → Shows t s → search_key k t ≡ none → s.held k ≡ false
not_found k t s v e =
    let z = find_index-times (holds k) (live t) e in let o = v.once k in ground arith

found :
    (k : Text) (t : LockTable) (s : LockSet) (i : ℕ)
    → Shows t s
    → search_key k t ≡ some i
    → (s.held k ≡ true) × Found (holds k) no_lock i (live t)
found k t s i v e =
    let f = find_index-Found (holds k) no_lock (live t) i e in
    let p = times-get_or (holds k) no_lock (live t) i f.below f.hit in
    let o = v.once k in (ground arith, f)

holds_key : (k j : Text) (e : LockEntry) → holds k e ≡ true → holds j e ≡ str_eq k j
holds_key k j e h =
    let l : e.locked ≡ true = ground arith in
    let s : str_eq e.key k ≡ true = ground arith in rw (l, (str_eq_iff e.key k).0 s)

added :
    (k j : Text) (s : LockSet) (m : ℕ)
    → m ≡ to_nat (s.held j)
    → s.held k ≡ false
    → m + times (holds j) (record { key = k; locked = true } ∷ []) ≡ to_nat (str_eq k j || s.held j)
unfolding times
added k j s m o f = elim (Bool-cases (str_eq k j)) [
  | inl same ↦ let e : s.held j ≡ false = rw (← (str_eq_iff k j).0 same) f in rw (same, o, e)
  | inr other ↦ rw (other, o) (omega arith)
]

lock-Agrees :
    (key : Option Text) (t : LockTable) (s : LockSet)
    → Shows t s
    → Agrees (step t (acquire key)) (step_set s (acquire key))
unfolding step step_set lock
lock-Agrees none t s v = record { same = refl; shows = v }
lock-Agrees (some []) t s v = record { same = refl; shows = v }
lock-Agrees (some (c ∷ cs)) t s v =
    let k = c ∷ cs in
    elim (Option-cases (search_key k t)) [
      | inr (i, e) ↦ rw (e, lock, (found k t s i v e).0) (record { same = refl; shows = v })
      | inl e ↦
          let free = not_found k t s v e in
          let n = v.counted in
          elim (Bool-cases (leb lock_max t.count)) [
            | inl top ↦
                let top' : leb lock_max s.size ≡ true = rw (← n) top in
                rw (e, lock, free, top, top') (record { same = refl; shows = v })
            | inr room ↦
                let room' : leb lock_max s.size ≡ false = rw (← n) room in
                let entry : LockEntry = record { key = k; locked = true } in
                let sz = v.sized in
                rw (e, lock, free, room, room')
                  (record {
                    same = refl;
                    shows = record {
                      sized = length-set t.table t.count entry ∙ v.sized;
                      fits = ground arith;
                      once = λ j.
                          rw (add-one, take-set t.count t.table entry (ground arith))
                            (times-append (holds j) (live t) (entry ∷ [])
                              ∙ added k j s _ (v.once j) free);
                      counted = ap (λ m. m + 1) v.counted;
                    };
                  })
          ]
    ]

removed :
    (k j : Text) (s : LockSet) (e : LockEntry) (m n : ℕ)
    → m + to_nat (holds j e) ≡ n
    → n ≡ to_nat (s.held j)
    → holds k e ≡ true
    → m ≡ to_nat (not (str_eq k j) && s.held j)
removed k j s e m n h o g =
    let w = holds_key k j e g in
    let h' : m + to_nat (str_eq k j) ≡ to_nat (s.held j) = rw (← w) (h ∙ o) in
    elim (Bool-cases (str_eq k j)) [
      | inl same ↦ rw same (let q = rw same at h' in ground arith)
      | inr other ↦ rw other (let q = rw other at h' in ground arith)
    ]

release-Agrees :
    (key : Option Text) (t : LockTable) (s : LockSet)
    → Shows t s
    → Agrees (step t (release key)) (step_set s (release key))
unfolding step step_set lock_release
release-Agrees none t s v = record { same = refl; shows = v }
release-Agrees (some []) t s v = record { same = refl; shows = v }
release-Agrees (some (c ∷ cs)) t s v =
    let k = c ∷ cs in
    elim (Option-cases (search_key k t)) [
      | inl e ↦ rw (e, lock_release, not_found k t s v e) (record { same = refl; shows = v })
      | inr (i, e) ↦
          let (taken, f) = found k t s i v e in
          let sz = v.sized in
          let fit = v.fits in
          let live_size = length-take t.count t.table (omega arith) in
          let b : i < t.count = let fb = f.below in omega arith in
          let up : suc (t.count - 1) ≡ t.count = omega arith in
          let here = get_or-take t.count t.table i no_lock b in
          rw (e, lock_release, taken)
            (record {
              same = refl;
              shows = record {
                sized = length-set t.table i _ ∙ v.sized;
                fits = omega arith;
                once = λ j.
                    removed k j s (get_or t.table i no_lock) _ _
                      (times_swap_out (holds j) no_lock t.table i (t.count - 1) (omega arith)
                        (omega arith))
                      (ap (λ m. times (holds j) (take m t.table)) up ∙ v.once j)
                      (ap (holds k) (sym here) ∙ f.hit);
                counted = ap (λ m. m - 1) v.counted;
              };
            })
    ]

step-Agrees :
    (op : LockOp) (t : LockTable) (s : LockSet) → Shows t s → Agrees (step t op) (step_set s op)
unfolding step step_set lock_held lock_status
step-Agrees (acquire key) t s v = lock-Agrees key t s v
step-Agrees (release key) t s v = release-Agrees key t s v
step-Agrees (probe none) t s v = record { same = refl; shows = v }
step-Agrees (probe (some [])) t s v = record { same = refl; shows = v }
step-Agrees (probe (some (c ∷ cs))) t s v = elim (Option-cases (search_key (c ∷ cs) t)) [
  | inl e ↦ rw (e, lock_held, not_found (c ∷ cs) t s v e) (record { same = refl; shows = v })
  | inr (i, e) ↦ rw (e, lock_held, (found (c ∷ cs) t s i v e).0) (record { same = refl; shows = v })
]
step-Agrees status t s v = record { same = ap number v.counted; shows = v }

run-eq-run_set :
    (ops : List LockOp) (t : LockTable) (s : LockSet) → Shows t s → run t ops ≡ run_set s ops
unfolding run run_set
run-eq-run_set [] t s v = refl
run-eq-run_set (op ∷ ops) t s v =
    let a = step-Agrees op t s v in
    ap₂ (λ (r : Answer) (rs : List Answer). r ∷ rs) a.same
      (run-eq-run_set ops (step t op).1 (step_set s op).1 a.shows)

-- no key is held
abbrev pub nothing_held : LockSet
nothing_held = record { held = λ j. false; size = 0 }

-- Whatever lock, release, probe and status calls reach the table, and in whatever order, each is
-- answered as by a set of held keys: a lock succeeds exactly if its key is not in the set and the
-- set has fewer than 64 members, so a key is never handed out twice without a release between; a
-- release succeeds exactly if its key is in the set, and frees that key and no other; a `NULL` or
-- empty key is refused by all; and the reported count is the size of the set.
pub lock_table_refines_set : (ops : List LockOp) → run lock_init ops ≡ run_set nothing_held ops
lock_table_refines_set ops =
    run-eq-run_set ops lock_init nothing_held (record {
      sized = refl;
      fits = omega arith;
      once = λ j. unfold times in refl;
      counted = refl;
    })
