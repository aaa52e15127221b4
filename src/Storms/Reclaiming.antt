-- ===== src/Storms/Reclaiming.antt =====
-- What a teardown does to the ARC heap: `plant_weather_free_handle` and the loop of
-- `plant_weather_teardown` that empties the deferred queue, on the heap of Memory/Arc.
use mathlib.Core.Option.{none-ne-some}
use plant_lang.Prelude.{
  ℕ, zero, suc, ◌+◌, ◌≤◌, ◌<◌, ◌≡◌, ◌≢◌, refl, sym, ap, ap₂, ◌∙◌, subst, Bool, true, false, List,
  [], ◌∷◌, Option, none, some, arith, ltb, ◌==◌, ==_iff, if◌then◌else◌, length, get_or, take,
  length-take, Bool-cases, inl, inr, times, to_nat, times-take_last, Option-cases,
}
use plant_lang.Memory.Arc.{ArcObj, ArcHeap, object, remove, destroy}
use plant_lang.Memory.Arc.Collect.{drain_all}
use plant_lang.Memory.Arc.Marking.{Present}
use plant_lang.Memory.Arc.Objects.{
  Distinct, object_seq, object-remove_self, object-remove_ne, Distinct-remove, eq-cases,
}
use plant_lang.Memory.Arc.Draining.{take_all}
use plant_lang.Memory.Arc.Soundness.{often, IsSound}
use plant_lang.Storms.Frames.{Weather, Reclaimer, is_handle, teardown}
use plant_lang.Storms.Exits.{IsExits, is_number, free_order, frees, teardown_once}

-- The ARC heap, and the handles that `plant_mem_free` got, the last one first.
pub record ArcMemory : Type 0 where
  pub heap : ArcHeap
  pub returned : List ℕ

-- A handle is the name of an ARC object where one is linked; `NULL` is 0.
unfoldable pub arc_free_handle : ℕ → ArcMemory → ArcMemory
arc_free_handle zero m = m
arc_free_handle (suc x) m = elim (object (suc x) m.heap.objs) [
  | none ↦ record m { returned = suc x ∷ m.returned }
  | some o ↦ record m { heap = destroy o false m.heap }
]

abbrev pub with_heap : ArcMemory → Option (ℕ × ArcHeap) → Option ArcMemory
with_heap m none = none
with_heap m (some (n, h)) = some (record m { heap = h })

-- the loop that empties the queue; to read a freed object is a fault
unfoldable pub arc_drain : ArcMemory → Option ArcMemory
arc_drain m = with_heap m (drain_all (length m.heap.queue) (0, m.heap))

unfoldable pub arc_reclaimer : Reclaimer (Option ArcMemory)
unfolding arc_free_handle arc_drain
arc_reclaimer = record {
  free_handle = λ x r. elim r as (λ t. Option ArcMemory) [
    | none ↦ none
    | some m ↦ some (arc_free_handle x m)
  ];
  drain = λ r. elim r as (λ t. Option ArcMemory) [ none ↦ none | some m ↦ arc_drain m ];
}

-- an object, unless its name is among `n`
abbrev pub unless : ℕ → Option ArcObj → Option ArcObj
unless n o = if ltb 0 n then none else o

-- how often a handle goes back to `plant_mem_free`, where it is freed `n` times
abbrev pub plain : ℕ → Option ArcObj → ℕ
plain n none = n
plain n (some o) = 0

-- One handle.
record FreesOne (x : ℕ) (m m' : ArcMemory) : Type 0 where
  distinct : Distinct m'.heap.objs
  queue : m'.heap.queue ≡ m.heap.queue
  same : object x m'.heap.objs ≡ none
  others : (s : ℕ) → s ≢ x → object s m'.heap.objs ≡ object s m.heap.objs
  back :
      (s : ℕ)
      → times (is_number s) m'.returned
        ≡ times (is_number s) m.returned + plain (to_nat (x == s)) (object x m.heap.objs)

free_handle_lem :
    (x : ℕ) (m : ArcMemory) → Distinct m.heap.objs → FreesOne (suc x) m (arc_free_handle (suc x) m)
unfolding arc_free_handle destroy times
free_handle_lem x m d = elim (Option-cases (object (suc x) m.heap.objs)) [
  | inl absent ↦
      rw (arc_free_handle, absent)
        (record {
          distinct = d;
          queue = refl;
          same = absent;
          others = λ s n. refl;
          back = λ s. let p = ap (plain (to_nat (suc x == s))) absent in omega arith;
        })
  | inr (o, e) ↦
      let z = object_seq (suc x) m.heap.objs o e in
      rw (arc_free_handle, e, z)
        (record {
          distinct = Distinct-remove (suc x) m.heap.objs d;
          queue = refl;
          same = object-remove_self (suc x) m.heap.objs d;
          others = λ s n. object-remove_ne s (suc x) m.heap.objs n;
          back = λ s. let p = ap (plain (to_nat (suc x == s))) e in omega arith;
        })
]

-- Handles that are freed one after the other, none of them twice.
record FreesAll (xs : List ℕ) (m : ArcMemory) (r : Option ArcMemory) : Type 0 where
  m' : ArcMemory
  done : r ≡ some m'
  distinct : Distinct m'.heap.objs
  queue : m'.heap.queue ≡ m.heap.queue
  objs : (s : ℕ) → object s m'.heap.objs ≡ unless (times (is_number s) xs) (object s m.heap.objs)
  back :
      (s : ℕ)
      → times (is_number s) m'.returned
        ≡ times (is_number s) m.returned + plain (times (is_number s) xs) (object s m.heap.objs)

unless-unless :
    (x s n : ℕ) (a b c : Option ArcObj)
    → (s ≡ x → b ≡ none)
    → (s ≢ x → b ≡ c)
    → a ≡ unless n b
    → a ≡ unless (to_nat (x == s) + n) c
unless-unless x s n a b c same other e = elim (Bool-cases (x == s)) [
  | inl y ↦
      let none_there = same (sym ((==_iff x s).0 y)) in
      let one = ap to_nat y in
      e
      ∙ ap (unless n) none_there
      ∙ same_branches (ltb 0 n)
      ∙ sym (cut (to_nat (x == s) + n) (omega arith))
  | inr k ↦
      let zero_more = ap to_nat k in
      e
      ∙ ap (unless n) (other (λ w. absurd (differ (sym w) k)))
      ∙ ap (λ t. unless t c) (let z : n ≡ to_nat (x == s) + n = omega arith in z)
]
  where
    same_branches : (b : Bool) → if◌then◌else◌ {A = Option ArcObj} b none none ≡ none
    same_branches true = refl
    same_branches false = refl

    cut : (k : ℕ) → 0 < k → unless k c ≡ none
    cut k h = ground arith

    differ : x ≡ s → (x == s) ≡ false → ⊥
    differ w k = ground arith

plain-plain :
    (x s n : ℕ) (a b c : Option ArcObj)
    → (s ≡ x → c ≡ a)
    → (s ≢ x → b ≡ a)
    → to_nat (x == s) + n ≤ 1
    → plain (to_nat (x == s)) c + plain n b ≡ plain (to_nat (x == s) + n) a
plain-plain x s n a b c same other l = elim (eq-cases s x) [
  | inl e ↦
      let y : (x == s) ≡ true = ground arith in
      let z : n ≡ 0 = rest y in
      let one = ap to_nat y in
      let left = ap₂ plain one (same e) in
      let right = ap (λ t. plain t b) z ∙ nothing b in
      let whole : plain (to_nat (x == s) + n) a ≡ plain 1 a =
        ap (λ t. plain t a) (let w : to_nat (x == s) + n ≡ 1 = omega arith in w) in
      omega arith
  | inr k ↦
      let y : (x == s) ≡ false = ground arith in
      let fewer = ap to_nat y in
      let left = ap (λ t. plain t c) fewer ∙ nothing c in
      let right = ap (plain n) (other k) in
      let whole : plain (to_nat (x == s) + n) a ≡ plain n a =
        ap (λ t. plain t a) (let z : to_nat (x == s) + n ≡ n = omega arith in z) in
      omega arith
]
  where
    nothing : (o : Option ArcObj) → plain 0 o ≡ 0
    nothing none = refl
    nothing (some o) = refl

    rest : (x == s) ≡ true → n ≡ 0
    rest y = let w = ap to_nat y in omega arith

frees-FreesAll :
    (xs : List ℕ) (m : ArcMemory)
    → Distinct m.heap.objs
    → ((s : ℕ) → times (is_number s) xs ≤ 1)
    → times (is_number 0) xs ≡ 0
    → FreesAll xs m (frees arc_reclaimer xs (some m))
unfolding frees arc_reclaimer times
frees-FreesAll [] m d once real = record {
  m' = m;
  done = refl;
  distinct = d;
  queue = refl;
  objs = λ s. refl;
  back = λ s. let z = nothing (object s m.heap.objs) in omega arith;
}
  where
    nothing : (o : Option ArcObj) → plain 0 o ≡ 0
    nothing none = refl
    nothing (some o) = refl
frees-FreesAll (zero ∷ xs) m d once real = absurd (omega arith)
frees-FreesAll (suc x ∷ xs) m d once real =
    let m1 = arc_free_handle (suc x) m in
    let f = free_handle_lem x m d in
    let r = frees-FreesAll xs m1 f.distinct (λ s. let o = once s in omega arith) (omega arith) in
    record {
      m' = r.m';
      done = r.done;
      distinct = r.distinct;
      queue = r.queue ∙ f.queue;
      objs = λ s.
          unless-unless (suc x) s (times (is_number s) xs) (object s r.m'.heap.objs)
            (object s m1.heap.objs) (object s m.heap.objs)
            (λ e. ap (λ k. object k m1.heap.objs) e ∙ f.same) (f.others s) (r.objs s);
      back = λ s.
          let a = r.back s in
          let b = f.back s in
          let c =
            plain-plain (suc x) s (times (is_number s) xs) (object s m.heap.objs)
              (object s m1.heap.objs) (object (suc x) m.heap.objs)
              (λ e. ap (λ k. object k m.heap.objs) (sym e)) (f.others s) (once s) in
          omega arith;
    }

-- The queue is emptied.
record Empties (m : ArcMemory) (r : Option ArcMemory) : Type 0 where
  m' : ArcMemory
  done : r ≡ some m'
  queue : m'.heap.queue ≡ []
  returned : m'.returned ≡ m.returned
  objs : (s : ℕ) → object s m'.heap.objs ≡ unless (often s m.heap.queue) (object s m.heap.objs)

pop_lem :
    (q : List ℕ) (rounds s : ℕ)
    → length q ≡ suc rounds
    → often s q ≡ often s (take rounds q) + to_nat (get_or q rounds 0 == s)
pop_lem q rounds s len =
    let a = times-take_last (λ e. e == s) 0 q rounds (omega arith) in
    let b = ap (often s) (take_all (suc rounds) q (omega arith)) in omega arith

length-zero : (q : List ℕ) → length q ≡ 0 → q ≡ []
length-zero [] e = refl
length-zero (x ∷ q) e = absurd (omega arith)

drain_all-Empties :
    (rounds n : ℕ) (m : ArcMemory)
    → length m.heap.queue ≡ rounds
    → Distinct m.heap.objs
    → ((s : ℕ) → often s m.heap.queue ≤ 1)
    → ((s : ℕ) → 0 < often s m.heap.queue → Present s m.heap.objs)
    → Empties m (with_heap m (drain_all rounds (n, m.heap)))
unfolding drain_all destroy
drain_all-Empties zero n m len d once there =
    let z = length-zero m.heap.queue len in
    record {
      m' = m;
      done = refl;
      queue = z;
      returned = refl;
      objs =
          λ s. sym (ap (λ q. unless (often s q) (object s m.heap.objs)) z ∙ unfold times in refl);
    }
drain_all-Empties (suc rounds) n m len d once there =
    let x = get_or m.heap.queue rounds 0 in
    let here = pop_lem m.heap.queue rounds x len in
    let self : to_nat (x == x) ≡ 1 = ground arith in
    let (o, e) = there x (omega arith) in
    let seq = object_seq x m.heap.objs o e in
    let h1 = record (destroy o true m.heap) { queue = take rounds m.heap.queue } in
    let m1 = record m { heap = h1 } in
    let gone : h1.objs ≡ remove x m.heap.objs = ap (λ k. remove k m.heap.objs) seq in
    let others = λ (s : ℕ) (k : s ≢ x). ap (object s) gone ∙ object-remove_ne s x m.heap.objs k in
    let pops = λ (s : ℕ). pop_lem m.heap.queue rounds s len in
    let r =
      drain_all-Empties rounds (suc n) m1 (length-take rounds m.heap.queue (omega arith))
        (subst Distinct (sym gone) (Distinct-remove x m.heap.objs d))
        (λ s. let a = pops s in let b = once s in omega arith)
        (λ s p.
          let a = pops s in
          let (o', e') = there s (omega arith) in
          let other : s ≢ x = λ w. not_left x s (once s) a p w in (o', others s other ∙ e')) in
    record {
      m' = r.m';
      done = ap (with_heap m) (rw (drain_all, e) refl) ∙ r.done;
      queue = r.queue;
      returned = r.returned;
      objs = λ s.
          unless-unless x s (often s (take rounds m.heap.queue)) (object s r.m'.heap.objs)
            (object s h1.objs) (object s m.heap.objs)
            (λ w.
              ap (λ k. object k h1.objs) w
              ∙ ap (object x) gone
              ∙ object-remove_self x m.heap.objs d)
            (others s) (r.objs s)
          ∙ ap (λ k. unless k (object s m.heap.objs)) (let a = pops s in omega arith);
    }
  where
    not_left :
        (x s : ℕ)
        → often s m.heap.queue ≤ 1
        → often s m.heap.queue ≡ often s (take rounds m.heap.queue) + to_nat (x == s)
        → 0 < often s (take rounds m.heap.queue)
        → s ≡ x
        → ⊥
    not_left x s l e p w = let y : to_nat (x == s) ≡ 1 = ground arith in omega arith

-- where a teardown ends, with the objects and the handles that it leaves
abbrev pub torn : Weather → Weather
torn w = record w { exits = []; shelter_mark = none }

-- On a sound ARC heap, where no registered handle waits in the deferred queue, leaving a frame reads no
-- freed object and comes to an end: the registered objects and those of the queue are gone, every other
-- one stays as it is, each registered handle that is no object goes to `plant_mem_free` exactly once
-- and no other handle does, and the queue is empty. A second teardown of the frame changes nothing.
pub teardown-reclaims :
    (w : Weather) (m : ArcMemory)
    → IsExits w
    → IsSound m.heap
    → ((s : ℕ) → 0 < times (is_handle s) w.exits → often s m.heap.queue ≡ 0)
    → (m' : ArcMemory) × (teardown arc_reclaimer w (some m) ≡ (torn w, some m'))
      × ((s : ℕ)
          → object s m'.heap.objs
            ≡ unless (times (is_handle s) w.exits + often s m.heap.queue) (object s m.heap.objs))
      × ((s : ℕ)
          → times (is_number s) m'.returned
            ≡ times (is_number s) m.returned
              + plain (times (is_handle s) w.exits) (object s m.heap.objs))
      × (m'.heap.queue ≡ [])
      × (teardown arc_reclaimer (torn w) (some m') ≡ (torn w, some m'))
unfolding teardown
teardown-reclaims w m v sound apart =
    let order = free_order w.exits in
    let (ends, counts, _) = teardown_once arc_reclaimer w (some m) v in
    let all =
      frees-FreesAll order m sound.base.distinct (λ s. (counts s).1) ((counts 0).0 ∙ v.real) in
    let queued = λ (s : ℕ). ap (often s) all.queue in
    let kept : (s : ℕ) → 0 < often s m.heap.queue → times (is_number s) order ≡ 0 = λ s p.
      (counts s).0 ∙ not_both (times (is_handle s) w.exits) (often s m.heap.queue) p (apart s) in
    let last =
      drain_all-Empties (length all.m'.heap.queue) 0 all.m' refl all.distinct
        (λ s. let a = queued s in let b = queue_once m sound s in omega arith)
        (λ s p.
          let a = queued s in
          let (o, e) = sound.base.there s (omega arith) in
          (o, all.objs s ∙ ap (λ n. unless n (object s m.heap.objs)) (kept s (omega arith)) ∙ e)) in
    let drained = drain_on all.m' ∙ last.done in
    (
      last.m',
      ap (λ r. (torn w, r)) (ends ∙ ap arc_reclaimer.drain all.done ∙ drained),
      (λ s.
          last.objs s
          ∙ ap₂ unless (queued s) (all.objs s)
          ∙ twice (often s m.heap.queue) (times (is_number s) order) (object s m.heap.objs)
          ∙ ap (λ n. unless (n + often s m.heap.queue) (object s m.heap.objs)) (counts s).0),
      (λ s.
          ap (times (is_number s)) last.returned
          ∙ all.back s
          ∙ ap (λ n. times (is_number s) m.returned + plain n (object s m.heap.objs)) (counts s).0),
      last.queue,
      ap (λ r. (torn w, r)) (again last.m' last.queue),
    )
  where
    not_both : (a b : ℕ) → 0 < b → (0 < a → b ≡ 0) → a ≡ 0
    not_both zero b p f = refl
    not_both (suc a) b p f = let z = f (omega arith) in absurd (omega arith)

    drain_on :
        (m : ArcMemory)
        → arc_reclaimer.drain (some m) ≡ with_heap m (drain_all (length m.heap.queue) (0, m.heap))
    drain_on m = unfold arc_reclaimer arc_drain in refl

    again : (m : ArcMemory) → m.heap.queue ≡ [] → arc_reclaimer.drain (some m) ≡ some m
    again m e =
        drain_on m
        ∙ ap (λ n. with_heap m (drain_all n (0, m.heap))) (ap length e)
        ∙ unfold drain_all in refl

    queue_once : (m : ArcMemory) → IsSound m.heap → (s : ℕ) → often s m.heap.queue ≤ 1
    queue_once m sound s = elim (Option-cases (object s m.heap.objs)) [
      | inl absent ↦ none_queued (often s m.heap.queue) absent (λ p. sound.base.there s p)
      | inr (o, e) ↦
          let f = sound.base.flagged s o e in
          elim (Bool-cases o.deferred) [
            | inl d ↦ let z = ap to_nat d in omega arith
            | inr d ↦ let z = ap to_nat d in omega arith
          ]
    ]
      where
        none_queued :
            (n : ℕ) → object s m.heap.objs ≡ none → (0 < n → Present s m.heap.objs) → n ≤ 1
        none_queued zero absent f = omega arith
        none_queued (suc n) absent f =
            let (o, e) = f (omega arith) in absurd (none-ne-some o (sym absent ∙ e))

    twice : (a b : ℕ) (o : Option ArcObj) → unless a (unless b o) ≡ unless (b + a) o
    twice a b o = ground arith
