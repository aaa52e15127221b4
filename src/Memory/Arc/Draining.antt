-- ===== src/Memory/Arc/Draining.antt =====
-- The queue of deferred evictions, drained by a collection or under critical pressure.
use plant_lang.Prelude.{
  ℕ, zero, suc, ◌+◌, ◌-◌, ◌≤◌, ◌<◌, ◌≡◌, refl, sym, ap, ◌∙◌, subst, Bool, true, false, ◌&&◌, List,
  [], ◌∷◌, ◌++◌, Option, some, arith, ltb, ◌==◌, ==_iff, Bool-cases, inl, inr, length, to_nat,
  get_or, set, take, length-set, length-take, times_swap_out, times-get_or,
}
use mathlib.Core.List.{Memᴰ}
use mathlib.Core.List.Memᴰ
use plant_lang.Memory.Arc.{ArcObj, ArcHeap, object, destroy}
use plant_lang.Memory.Arc.Collect.{expired, drain, swap_out}
use plant_lang.Memory.Arc.Marking.{Present}
use plant_lang.Memory.Arc.Soundness.{
  often, IsConsistent, freed, freed-IsConsistent, Mem-often, object-of_remove,
}
use plant_lang.Memory.Arc.Sweeping.{Removes, Removes-remove}

pub take_all : (i : ℕ) (q : List ℕ) → length q ≤ i → take i q ≡ q
take_all zero [] h = refl
take_all (suc i) [] h = refl
take_all zero (x ∷ q) h = absurd (omega arith)
take_all (suc i) (x ∷ q) h = ap (λ t. x ∷ t) (take_all i q (omega arith))

take-suc : (i : ℕ) (q : List ℕ) → i < length q → take (suc i) q ≡ take i q ++ get_or q i 0 ∷ []
take-suc i [] h = absurd (omega arith)
take-suc zero (x ∷ q) h = refl
take-suc (suc i) (x ∷ q) h = ap (λ t. x ∷ t) (take-suc i q (omega arith))

take_before_set : (i m : ℕ) (q : List ℕ) (v : ℕ) → i ≤ m → take i (take m (set q i v)) ≡ take i q
take_before_set i zero [] v h = ap (λ t. take t []) (omega arith)
take_before_set zero zero (x ∷ q) v h = refl
take_before_set (suc i) zero (x ∷ q) v h = absurd (omega arith)
take_before_set zero (suc m) q v h = refl
take_before_set (suc i) (suc m) [] v h = refl
take_before_set (suc i) (suc m) (x ∷ q) v h =
    ap (λ t. x ∷ t) (take_before_set i m q v (omega arith))

often-swap_out :
    (q : List ℕ) (i t : ℕ)
    → i < length q
    → often t (swap_out i q) + to_nat (get_or q i 0 == t) ≡ often t q
often-swap_out q i t h =
    let a = times_swap_out (λ e. e == t) 0 q i (length q - 1) (omega arith) (omega arith) in
    let n : suc (length q - 1) ≡ length q = omega arith in
    let b = ap (often t) (ap (λ k. take k q) n ∙ take_all (length q) q (omega arith)) in omega arith

length-swap_out : (q : List ℕ) (i : ℕ) → i < length q → suc (length (swap_out i q)) ≡ length q
length-swap_out q i h =
    let a = length-set q i (get_or q (length q - 1) 0) in
    let b = length-take (length q - 1) (set q i (get_or q (length q - 1) 0)) (omega arith) in
    omega arith

-- A queued object that the drain frees.
abbrev pub due : ℕ → ArcObj → Bool
due now o = o.deferred && expired now o

-- No name in front of place `i` of the queue is due.
abbrev pub Passed : ℕ → ℕ → ArcHeap → Type 0
Passed now i h =
    (s : ℕ) (o : ArcObj)
    → Memᴰ s (take i h.queue)
    → object s h.objs ≡ some o
    → expired now o ≡ false

pub record Drains (now : ℕ) (r : Option (ℕ × ArcHeap)) (h : ArcHeap) : Type 0 where
  pub count : ℕ
  pub after : ArcHeap
  pub result : r ≡ some (count, after)
  pub base : IsConsistent after
  pub removes : Removes (due now) h.objs after.objs

drained :
    (now i n : ℕ) (h : ArcHeap)
    → IsConsistent h
    → Passed now i h
    → length h.queue ≤ i
    → Drains now (some (n, h)) h
drained now i n h c passed long = record {
  count = n;
  after = h;
  result = refl;
  base = c;
  removes = record {
    keeps = λ s o e k. e;
    drops = λ s o e k.
        let f = c.flagged s o e in
        let m = Mem-often s h.queue (ground arith) in
        let x = passed s o (subst (Memᴰ s) (sym (take_all i h.queue long)) m) e in
        absurd (ground arith);
    nones = λ s e. e;
  };
}

-- One entry that is due leaves the queue and the heap.
module _ (now i : ℕ) (h : ArcHeap) (c : IsConsistent h) (below : i < length h.queue) where
  abbrev entry : ℕ
  entry = get_or h.queue i 0

  abbrev without : ArcObj → ArcHeap
  without d = record (destroy d true h) { queue = swap_out i h.queue }

  entry_there : Present entry h.objs
  entry_there =
      c.there entry (times-get_or (λ e. e == entry) 0 h.queue i below ((==_iff entry entry).1 refl))

  entry-deferred : (d : ArcObj) → object entry h.objs ≡ some d → d.deferred ≡ true
  entry-deferred d e =
      let f = c.flagged entry d e in
      let p = times-get_or (λ x. x == entry) 0 h.queue i below ((==_iff entry entry).1 refl) in
      ground arith

  without-IsConsistent : (d : ArcObj) → object entry h.objs ≡ some d → IsConsistent (without d)
  unfolding freed
  without-IsConsistent d e =
      let f = entry-deferred d e in
      let len = length-swap_out h.queue i below in
      let room = c.room in
      freed-IsConsistent h d (swap_out i h.queue) entry true c e
        (λ t. let a = often-swap_out h.queue i t below in ground arith) (omega arith)

  without-Passed :
      (d : ArcObj) → object entry h.objs ≡ some d → Passed now i h → Passed now i (without d)
  unfolding destroy
  without-Passed d e passed s o m f =
      let m' =
        subst (Memᴰ s)
          (take_before_set i (length h.queue - 1) h.queue (get_or h.queue (length h.queue - 1) 0)
            (omega arith))
          m in
      passed s o m' (object-of_remove s d.alloc_seq h.objs o c.distinct f).1

  without-Removes :
      (d : ArcObj) (l : List ArcObj)
      → object entry h.objs ≡ some d
      → expired now d ≡ true
      → Removes (due now) (without d).objs l
      → Removes (due now) h.objs l
  unfolding destroy
  without-Removes d l e x r =
      Removes-remove (due now) h.objs l entry d c.distinct e
        (let f = entry-deferred d e in ground arith) r

  next-Passed :
      (d : ArcObj)
      → object entry h.objs ≡ some d
      → expired now d ≡ false
      → Passed now i h
      → Passed now (suc i) h
  next-Passed d e x passed s o m f =
      elim (Memᴰ.append_cases (take i h.queue) (subst (Memᴰ s) (take-suc i h.queue below) m)) [
        | inl early ↦ passed s o early f
        | inr last ↦
            let f' = subst (λ t. object t h.objs ≡ some o) (Memᴰ.eq_of_singleton last) f in
            ground arith
      ]

pub drain_lem :
    (rounds now i n : ℕ) (h : ArcHeap)
    → IsConsistent h
    → length h.queue ≤ i + rounds
    → Passed now i h
    → Drains now (drain rounds now i (n, h)) h
unfolding drain
drain_lem zero now i n h c long passed = drained now i n h c passed (omega arith)
drain_lem (suc rounds) now i n h c long passed = elim (Bool-cases (ltb i (length h.queue))) [
  | inr over ↦ rw (drain, over) (drained now i n h c passed (ground arith))
  | inl below ↦
      let lt : i < length h.queue = ground arith in
      let (d, e) = entry_there now i h c lt in
      elim (Bool-cases (expired now d)) [
        | inl x ↦
            let h1 = record (destroy d true h) { queue = swap_out i h.queue } in
            let len = length-swap_out h.queue i lt in
            let r =
              drain_lem rounds now i (suc n) h1 (without-IsConsistent now i h c lt d e)
                (omega arith) (without-Passed now i h c lt d e passed) in
            rw (drain, below, e, x)
              (record {
                count = r.count;
                after = r.after;
                result = r.result;
                base = r.base;
                removes = without-Removes now i h c lt d r.after.objs e x r.removes;
              })
        | inr x ↦
            rw (drain, below, e, x)
              (drain_lem rounds now (suc i) n h c (omega arith)
                (next-Passed now i h c lt d e x passed))
      ]
]
