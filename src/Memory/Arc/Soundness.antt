-- ===== src/Memory/Arc/Soundness.antt =====
-- The well-formed heaps: the counters tell what the heap list holds, an object is counted at least as
-- often as edges lead to it, and the queue holds the objects that carry its flag.
use plant_lang.Prelude.{
  ℕ, suc, ◌+◌, ◌≤◌, ◌<◌, ◌≡◌, ◌≢◌, sym, ◌∙◌, subst, Bool, true, false, List, [], ◌∷◌, none, some,
  arith, ◌==◌, ==_iff, Bool-cases, inl, inr, if◌then◌else◌, length, pos, times, to_nat,
}
use mathlib.Core.List.{Memᴰ}
use mathlib.Core.List.Memᴰ
use plant_lang.Memory.Arc.{ArcObj, ArcHeap, object, remove, destroy}
use plant_lang.Memory.Arc.Objects.{
  Distinct, total, object_seq, object-remove_self, object-remove_ne, object-remove-none,
  Distinct-remove, total-remove, le-total, eq-cases,
}
use plant_lang.Memory.Arc.Marking.{Present}

-- how often a name stands in a list
abbrev pub often : ℕ → List ℕ → ℕ
often s q = times (λ e. e == s) q

-- the edges of the heap that lead to a name
abbrev pub edges_in : ℕ → List ArcObj → ℕ
edges_in s l = total (λ o. often s o.edges) l

abbrev pub Counted : ArcObj → Type 0
Counted o = (r : ℕ) × (o.refs ≡ pos r) × (o.in_edges ≤ r)

pub record IsConsistent (h : ArcHeap) : Type 0 where
  pub distinct : Distinct h.objs
  pub counts : (s : ℕ) (o : ArcObj) → object s h.objs ≡ some o → Counted o
  pub inner : (s : ℕ) (o : ArcObj) → object s h.objs ≡ some o → edges_in s h.objs ≤ o.in_edges
  pub waiting : (s : ℕ) (o : ArcObj) → object s h.objs ≡ some o → o.deferred ≡ true → o.refs ≡ pos 0
  pub flagged :
      (s : ℕ) (o : ArcObj) → object s h.objs ≡ some o → often s h.queue ≡ to_nat o.deferred
  pub there : (s : ℕ) → 0 < often s h.queue → Present s h.objs
  pub fresh : (s : ℕ) → h.next_seq ≤ s → object s h.objs ≡ none
  pub unknown : (s : ℕ) → h.next_seq ≤ s → edges_in s h.objs ≡ 0
  pub room : length h.queue ≤ 512
  pub lives : h.live ≡ length h.objs
  pub bytes : h.live_bytes ≡ total (λ o. o.size) h.objs
  pub balance : h.allocs ≡ h.live + h.frees

-- Edges lead to objects of the heap, but for those of an object that waits in the queue.
pub record IsSound (h : ArcHeap) : Type 0 where
  pub base : IsConsistent h
  pub closed :
      (s : ℕ) (o : ArcObj)
      → object s h.objs ≡ some o
      → o.deferred ≡ false
      → (c : ℕ) → Memᴰ c o.edges
      → Present c h.objs

pub often-Mem : (s : ℕ) (q : List ℕ) → Memᴰ s q → 0 < often s q
unfolding times
often-Mem s [] m = absurd (Memᴰ.not-nil m)
often-Mem s (x ∷ q) m = elim (Memᴰ.cases_cons m) [
  | inl e ↦ let z = (==_iff x s).1 (sym e) in ground arith
  | inr t ↦ let z = often-Mem s q t in omega arith
]

pub Mem-often : (s : ℕ) (q : List ℕ) → 0 < often s q → Memᴰ s q
unfolding times
Mem-often s [] h = absurd (omega arith)
Mem-often s (x ∷ q) h = elim (Bool-cases (x == s)) [
  | inl e ↦ Memᴰ.head (sym ((==_iff x s).0 e))
  | inr n ↦ Memᴰ.tail (Mem-often s q (ground arith))
]

-- An edge of an object of the heap is counted.
pub edges_in-pos :
    (l : List ArcObj) (s c : ℕ) (o : ArcObj)
    → object s l ≡ some o
    → Memᴰ c o.edges
    → 0 < edges_in c l
edges_in-pos l s c o h m =
    let a = often-Mem c o.edges m in let b = le-total (λ x. often c x.edges) s l o h in omega arith

length-remove :
    (s : ℕ) (l : List ArcObj) (o : ArcObj)
    → object s l ≡ some o
    → suc (length (remove s l)) ≡ length l
unfolding object remove
length-remove s [] o h = cc
length-remove s (x ∷ l) o h = ground (arith, length-remove s l o)

-- An object behind an unlinking was there before.
pub object-of_remove :
    (s t : ℕ) (l : List ArcObj) (o : ArcObj)
    → Distinct l
    → object s (remove t l) ≡ some o
    → (s ≢ t) × (object s l ≡ some o)
object-of_remove s t l o d h = elim (eq-cases s t) [
  | inl e ↦ absurd (
      let z = object-remove_self t l d in
      let y = subst (λ u. object u (remove t l) ≡ some o) e h in cc)
  | inr n ↦ (n, sym (object-remove_ne s t l n) ∙ h)
]

-- Freeing an object, with the queue made to forget it, leaves the rest consistent.
module _ (h : ArcHeap) (o : ArcObj) (q : List ℕ) where
  unfoldable pub freed : Bool → ArcHeap
  freed r = record (destroy o r h) { queue = q }

  pub freed-IsConsistent :
      (s : ℕ) (r : Bool)
      → IsConsistent h
      → object s h.objs ≡ some o
      → ((t : ℕ) → often t q + (if s == t then to_nat o.deferred else 0) ≡ often t h.queue)
      → length q ≤ 512
      → IsConsistent (freed r)
  unfolding destroy freed
  freed-IsConsistent s r c here less small = rw name (record {
    distinct = Distinct-remove s h.objs c.distinct;
    counts = λ t x e. c.counts t x (object-of_remove t s h.objs x c.distinct e).1;
    inner = λ t x e.
        let a = c.inner t x (object-of_remove t s h.objs x c.distinct e).1 in
        let b = total-remove (λ y. often t y.edges) s h.objs o here in omega arith;
    waiting = λ t x e. c.waiting t x (object-of_remove t s h.objs x c.distinct e).1;
    flagged = λ t x e.
        let (n, before) = object-of_remove t s h.objs x c.distinct e in
        let a = c.flagged t x before in let b = less t in ground (arith, ==_iff s t, n);
    there = λ t p.
        let b = less t in
        let a = c.flagged s o here in
        elim (eq-cases t s) [
          | inl e ↦ absurd (ground (arith, ==_iff s t))
          | inr n ↦ let (x, e) = c.there t (omega arith) in (x, object-remove_ne t s h.objs n ∙ e)
        ];
    fresh = λ t p. object-remove-none t s h.objs (c.fresh t p);
    unknown = λ t p.
        let a = c.unknown t p in
        let b = total-remove (λ y. often t y.edges) s h.objs o here in omega arith;
    room = small;
    lives = let a = c.lives in let b = length-remove s h.objs o here in omega arith;
    bytes = let a = c.bytes in let b = total-remove (λ y. y.size) s h.objs o here in omega arith;
    balance =
        let a = c.lives in
        let b = length-remove s h.objs o here in let d = c.balance in omega arith;
  })
    where
      name : o.alloc_seq ≡ s
      name = object_seq s h.objs o here

  pub freed-IsSound :
      (s : ℕ) (r : Bool)
      → IsSound h
      → object s h.objs ≡ some o
      → o.refs ≡ pos 0
      → ((t : ℕ) → often t q + (if s == t then to_nat o.deferred else 0) ≡ often t h.queue)
      → length q ≤ 512
      → IsSound (freed r)
  unfolding destroy freed
  freed-IsSound s r sound here none_left less small = record {
    base = freed-IsConsistent s r sound.base here less small;
    closed = λ t x e nd c m.
        let e' = subst (λ u. object t (remove u h.objs) ≡ some x) (object_seq s h.objs o here) e in
        let before = (object-of_remove t s h.objs x sound.base.distinct e').1 in
        let (y, p) = sound.closed t x before nd c m in
        (
          y,
          subst (λ u. object c (remove u h.objs) ≡ some y) (sym (object_seq s h.objs o here))
              (object-remove_ne c s h.objs (other t x before c m) ∙ p),
        );
  }
    where
      other : (t : ℕ) (x : ArcObj) → object t h.objs ≡ some x → (c : ℕ) → Memᴰ c x.edges → c ≢ s
      other t x before c m e =
          let a = edges_in-pos h.objs t c x before m in
          let b = sound.base.inner s o here in
          let (k, rk, ik) = sound.base.counts s o here in ground arith
