-- ===== src/Memory/Arc/Sweeping.antt =====
-- The sweep of `plant_arc_gc`, and the queue that it drains.
use plant_lang.Prelude.{
  ap, ℕ, suc, ◌≡◌, ◌≢◌, refl, sym, ◌∙◌, subst, Bool, true, false, List, [], ◌∷◌, none, some, arith,
  ==_iff, Bool-cases, inl, inr,
}
use plant_lang.Memory.Arc.{remove, ArcObj, ArcHeap, object, destroy}
use plant_lang.Memory.Arc.Collect.{is_garbage, sweep}
use plant_lang.Memory.Arc.Objects.{
  object-remove-none, object_seq, Distinct, object-remove_self, object-remove_ne, eq-cases,
}
use plant_lang.Memory.Arc.Soundness.{IsConsistent, freed, freed-IsConsistent}

-- From the list `l`, `l'` lacks the objects that pass the test `K`, and no other.
pub record Removes (K : ArcObj → Bool) (l l' : List ArcObj) : Type 0 where
  pub keeps : (s : ℕ) (o : ArcObj) → object s l ≡ some o → K o ≡ false → object s l' ≡ some o
  pub drops : (s : ℕ) (o : ArcObj) → object s l ≡ some o → K o ≡ true → object s l' ≡ none
  pub nones : (s : ℕ) → object s l ≡ none → object s l' ≡ none

-- One object that passes the test goes, and then the others.
pub Removes-remove :
    (K : ArcObj → Bool) (l l' : List ArcObj) (s : ℕ) (d : ArcObj)
    → Distinct l
    → object s l ≡ some d
    → K d ≡ true
    → Removes K (remove d.alloc_seq l) l'
    → Removes K l l'
Removes-remove K l l' s d distinct e hit r = record {
  keeps = λ t o f k. elim (eq-cases t s) [
    | inl same ↦
        let f' = subst (λ u. object u l ≡ some o) same f in
        let od : o ≡ d = cc in absurd (let z = ap K od in ground arith)
    | inr n ↦ r.keeps t o (left t n ∙ f) k
  ];
  drops = λ t o f k. elim (eq-cases t s) [
    | inl same ↦ r.nones t (
        subst (λ u. object u (remove d.alloc_seq l) ≡ none) (name ∙ sym same)
          (object-remove_self d.alloc_seq l distinct))
    | inr n ↦ r.drops t o (left t n ∙ f) k
  ];
  nones = λ t f. r.nones t (object-remove-none t d.alloc_seq l f);
}
  where
    name : d.alloc_seq ≡ s
    name = object_seq s l d e

    left : (t : ℕ) → t ≢ s → object t (remove d.alloc_seq l) ≡ object t l
    left t n = object-remove_ne t d.alloc_seq l (λ p. n (p ∙ name))

-- What the sweep over the part `os` of the list does.
pub record Sweeps (now : ℕ) (os : List ArcObj) (h h' : ArcHeap) : Type 0 where
  pub base : IsConsistent h'
  pub keeps :
      (s : ℕ) (o : ArcObj)
      → object s os ≡ some o
      → is_garbage now o ≡ false
      → object s h'.objs ≡ some o
  pub drops :
      (s : ℕ) (o : ArcObj)
      → object s os ≡ some o
      → is_garbage now o ≡ true
      → object s h'.objs ≡ none
  pub rest : (s : ℕ) → object s os ≡ none → object s h'.objs ≡ object s h.objs
  pub queue : h'.queue ≡ h.queue

garbage_not_deferred : (now : ℕ) (o : ArcObj) → is_garbage now o ≡ true → o.deferred ≡ false
garbage_not_deferred now o g = ground arith

destroy-IsConsistent :
    (h : ArcHeap) (o : ArcObj)
    → IsConsistent h
    → object o.alloc_seq h.objs ≡ some o
    → o.deferred ≡ false
    → IsConsistent (destroy o true h)
unfolding destroy freed
destroy-IsConsistent h o c e nd =
    freed-IsConsistent h o h.queue o.alloc_seq true c e (λ t. ground arith) c.room

pub sweep_lem :
    (now : ℕ) (os : List ArcObj) (n : ℕ) (h : ArcHeap)
    → Distinct os
    → IsConsistent h
    → ((s : ℕ) (o : ArcObj) → object s os ≡ some o → object s h.objs ≡ some o)
    → Sweeps now os h (sweep now os (n, h)).1
unfolding sweep object Distinct
sweep_lem now [] n h d c sub = record {
  base = c;
  keeps = λ s o e g. cc;
  drops = λ s o e g. cc;
  rest = λ s e. refl;
  queue = refl;
}
sweep_lem now (x ∷ os) n h d c sub = elim (Bool-cases (is_garbage now x)) [
  | inl g ↦
      let h1 = destroy x true h in
      let nd = garbage_not_deferred now x g in
      let r =
        sweep_lem now os (suc n) h1 d.1 (destroy-IsConsistent h x c here nd)
          (λ s o e. object_after s (ne s o e) ∙ sub s o (behind s o e)) in
      rw (sweep, g)
        (record {
          base = r.base;
          keeps = λ s o e k. elim (eq-cases x.alloc_seq s) [
            | inl same ↦ absurd (let z = first s o same e in ground arith)
            | inr m ↦ r.keeps s o (later s o m e) k
          ];
          drops = λ s o e k. elim (eq-cases x.alloc_seq s) [
            | inl same ↦
                r.rest s (subst (λ t. object t os ≡ none) same d.0)
                ∙ subst (λ t. object t h1.objs ≡ none) same (gone)
            | inr m ↦ r.drops s o (later s o m e) k
          ];
          rest = λ s e. let (m, e') = neither s e in r.rest s e' ∙ object_after s (λ p. m (sym p));
          queue = r.queue ∙ same_queue;
        })
  | inr g ↦
      let r = sweep_lem now os n h d.1 c (λ s o e. sub s o (behind s o e)) in
      rw (sweep, g)
        (record {
          base = r.base;
          keeps = λ s o e k. elim (eq-cases x.alloc_seq s) [
            | inl same ↦ r.rest s (subst (λ t. object t os ≡ none) same d.0) ∙ sub s o e
            | inr m ↦ r.keeps s o (later s o m e) k
          ];
          drops = λ s o e k. elim (eq-cases x.alloc_seq s) [
            | inl same ↦ absurd (let z = first s o same e in ground arith)
            | inr m ↦ r.drops s o (later s o m e) k
          ];
          rest = λ s e. let (m, e') = neither s e in r.rest s e';
          queue = r.queue;
        })
]
  where
    here : object x.alloc_seq h.objs ≡ some x
    here = sub x.alloc_seq x (ground arith)

    first : (s : ℕ) (o : ArcObj) → x.alloc_seq ≡ s → object s (x ∷ os) ≡ some o → x ≡ o
    first s o same e = ground arith

    later :
        (s : ℕ) (o : ArcObj) → x.alloc_seq ≢ s → object s (x ∷ os) ≡ some o → object s os ≡ some o
    later s o m e = ground (arith, ==_iff x.alloc_seq s)

    neither : (s : ℕ) → object s (x ∷ os) ≡ none → (x.alloc_seq ≢ s) × (object s os ≡ none)
    neither s e = ground (arith, ==_iff x.alloc_seq s)

    ne : (s : ℕ) (o : ArcObj) → object s os ≡ some o → s ≢ x.alloc_seq
    ne s o e p = let z = subst (λ t. object t os ≡ some o) p e in let y = d.0 in cc

    behind : (s : ℕ) (o : ArcObj) → object s os ≡ some o → object s (x ∷ os) ≡ some o
    behind s o e = let z = ne s o e in ground (arith, ==_iff x.alloc_seq s)

    object_after : (s : ℕ) → s ≢ x.alloc_seq → object s (destroy x true h).objs ≡ object s h.objs
    object_after s m = unfold destroy in object-remove_ne s x.alloc_seq h.objs m

    gone : object x.alloc_seq (destroy x true h).objs ≡ none
    gone = unfold destroy in object-remove_self x.alloc_seq h.objs c.distinct

    same_queue : (destroy x true h).queue ≡ h.queue
    same_queue = unfold destroy in refl
