-- ===== src/Memory/Arc/Tracing.antt =====
-- The mark phase of `plant_arc_gc`: the recursion of `plant_arc_mark`, from the roots.
use mathlib.Core.List.{Memᴰ}
use plant_lang.Prelude.{
  length-map, ==_iff, ◌↔◌, ℕ, zero, suc, ◌<◌, ◌≡◌, refl, sym, ap, ◌∙◌, subst, true, false, List, [],
  ◌∷◌, Option, none, some, arith, ◌==◌, Bool-cases, Option-cases, inl, inr, length,
}
use mathlib.Core.List.Memᴰ
use plant_lang.Memory.Arc.{ArcObj, object, update}
use plant_lang.Memory.Arc.Collect.{
  roots, unmarked, marked, clear_marks, is_root, mark_all, mark_obj,
}
use plant_lang.Memory.Arc.Objects.{Distinct, eq-cases}
use plant_lang.Memory.Arc.Marking.{
  edges_of, is_marked, Present, Reachable, object-clear, clear-mark, clear-clear, plain, plain-le,
  plain-mark, object-same, edges-same, is_marked-mark_self, is_marked-mark_ne, Marks, Closed,
}

module _ (P : ℕ → Type 0) where
  Closed-same : (l k : List ArcObj) → clear_marks l ≡ clear_marks k → Closed P l → Closed P k
  Closed-same l k e c = record {
    there = λ s p. let (o, h) = c.there s p in let (q, r, _) = object-same s l k o e h in (q, r);
    along = λ s d p m. c.along s d p (subst (Memᴰ d) (sym (edges-same s l k e)) m);
  }

  Marks-none : (l : List ArcObj) → Marks P [] l l
  Marks-none l = record {
    shape = refl;
    keeps = λ s h. h;
    got = λ c m. absurd (Memᴰ.not-nil m);
    new = λ s h. inl h;
    fewer = omega arith;
  }

  -- A marking of one name and then of others.
  Marks-cons :
      (c : ℕ) (cs : List ℕ) (l k l' : List ArcObj)
      → Marks P (c ∷ []) l k
      → Marks P cs k l'
      → Marks P (c ∷ cs) l l'
  Marks-cons c cs l k l' a b = record {
    shape = b.shape ∙ a.shape;
    keeps = λ s h. b.keeps s (a.keeps s h);
    got = λ d m. elim (Memᴰ.cases_cons m) [
      | inl e ↦ b.keeps d (a.got d (Memᴰ.head e))
      | inr t ↦ b.got d t
    ];
    new = λ s h. elim (b.new s h) [
      | inl old ↦ elim (a.new s old) [
        | inl older ↦ inl older
        | inr (p, all) ↦ inr (p, λ d m. b.keeps d (all d m))
      ]
      | inr (p, all) ↦ inr (p, λ d m. all d (subst (Memᴰ d) (sym (edges-same s k l a.shape)) m))
    ];
    fewer = let x = a.fewer in let y = b.fewer in omega arith;
  }

  abbrev Markers : ℕ → (ℕ → List ArcObj → Option (List ArcObj)) → Type 0
  Markers room f =
      (s : ℕ) (l : List ArcObj)
      → Closed P l
      → plain l < room
      → P s
      → (l' : List ArcObj) × (f s l ≡ some l') × Marks P (s ∷ []) l l'

  mark_all_lem :
      (room : ℕ) (f : ℕ → List ArcObj → Option (List ArcObj))
      → Markers room f
      → (cs : List ℕ) (l : List ArcObj) → Closed P l
      → plain l < room
      → ((c : ℕ) → Memᴰ c cs → P c)
      → (l' : List ArcObj) × (mark_all f cs l ≡ some l') × Marks P cs l l'
  unfolding mark_all
  mark_all_lem room f ok [] l closed small all = (l, refl, Marks-none l)
  mark_all_lem room f ok (c ∷ cs) l closed small all =
      let (k, e, a) = ok c l closed small (all c (Memᴰ.head refl)) in
      let (l', e', b) =
        mark_all_lem room f ok cs k (Closed-same l k (sym a.shape) closed)
          (let x = a.fewer in omega arith) (λ d m. all d (Memᴰ.tail m)) in
      (l', rw (mark_all, e) e', Marks-cons c cs l k l' a b)

  -- the object itself, and then what its edges lead to
  Marks-one :
      (s : ℕ) (l l' : List ArcObj) (o : ArcObj)
      → object s l ≡ some o
      → o.mark ≡ false
      → P s
      → Marks P o.edges (update s marked l) l'
      → Marks P (s ∷ []) l l'
  Marks-one s l l' o h m p b = record {
    shape = b.shape ∙ clear-mark s l;
    keeps = λ t q. elim (eq-cases t s) [
      | inl e ↦ subst (λ u. is_marked u l' ≡ true) (sym e) self
      | inr n ↦ b.keeps t (is_marked-mark_ne t s l n ∙ q)
    ];
    got = λ t q. subst (λ u. is_marked u l' ≡ true) (sym (Memᴰ.eq_of_singleton q)) self;
    new = λ t q. elim (eq-cases t s) [
      | inl e ↦
          inr (
            subst P (sym e) p,
            λ c w. b.got c (subst (Memᴰ c) (ap (λ u. edges_of u l) e ∙ edges) w),
          )
      | inr n ↦ elim (b.new t q) [
        | inl old ↦ inl (sym (is_marked-mark_ne t s l n) ∙ old)
        | inr (pt, all) ↦ inr (
          pt,
          λ c w.
              all c (subst (Memᴰ c) (sym (edges-same t (update s marked l) l (clear-mark s l))) w),
        )
      ]
    ];
    fewer = let x = b.fewer in let y = plain-mark s l o h m in omega arith;
  }
    where
      self : is_marked s l' ≡ true
      self = b.keeps s (is_marked-mark_self s l o h)

      edges : edges_of s l ≡ o.edges
      edges = ap (λ r. elim r [ none ↦ [] | some x ↦ x.edges ]) h

  mark_obj_lem : (fuel : ℕ) → Markers fuel (mark_obj fuel)
  unfolding mark_obj
  mark_obj_lem zero s l closed small p = absurd (omega arith)
  mark_obj_lem (suc fuel) s l closed small p =
      let (o, h) = closed.there s p in
      elim (Bool-cases o.mark) [
        | inl m ↦ (l, rw (mark_obj, h, m) refl, again o h m)
        | inr m ↦
            let less = plain-mark s l o h m in
            let l1 = update s marked l in
            let (l', e, b) =
              mark_all_lem fuel (mark_obj fuel) (mark_obj_lem fuel) o.edges l1
                (Closed-same l l1 (sym (clear-mark s l)) closed) (omega arith)
                (λ c w.
                  closed.along s c p (
                    subst (Memᴰ c) (sym (ap (λ r. elim r [ none ↦ [] | some x ↦ x.edges ]) h))
                      w)) in
            (l', rw (mark_obj, h, m) e, Marks-one s l l' o h m p b)
      ]
    where
      again : (o : ArcObj) → object s l ≡ some o → o.mark ≡ true → Marks P (s ∷ []) l l
      again o h m = record {
        shape = refl;
        keeps = λ t q. q;
        got = λ t q.
            ap (λ u. is_marked u l) (Memᴰ.eq_of_singleton q)
            ∙ (ap (λ r. elim r [ none ↦ false | some x ↦ x.mark ]) h ∙ m);
        new = λ t q. inl q;
        fewer = omega arith;
      }

roots-Mem :
    (l : List ArcObj) (s : ℕ) (o : ArcObj)
    → object s l ≡ some o
    → is_root o ≡ true
    → Memᴰ s (roots l)
unfolding roots object
roots-Mem [] s o h r = cc
roots-Mem (x ∷ l) s o h r = elim (Bool-cases (x.alloc_seq == s)) [
  | inl e ↦
      let same : x ≡ o = ground arith in
      let rx : is_root x ≡ true = ap is_root same ∙ r in
      rw (roots, rx) (Memᴰ.head (sym ((==_iff _ _).0 e)))
  | inr e ↦
      let later : object s l ≡ some o = ground arith in
      let m = roots-Mem l s o later r in
      elim (Bool-cases (is_root x)) [
        | inl rx ↦ rw (roots, rx) (Memᴰ.tail m)
        | inr rx ↦ rw (roots, rx) m
      ]
]

roots-root :
    (l : List ArcObj) (s : ℕ)
    → Distinct l
    → Memᴰ s (roots l)
    → (o : ArcObj) × (object s l ≡ some o) × (is_root o ≡ true)
unfolding roots object Distinct
roots-root [] s d m = absurd (Memᴰ.not-nil m)
roots-root (x ∷ l) s d m = elim (Bool-cases (is_root x)) [
  | inl r ↦ elim (Memᴰ.cases_cons (subst (Memᴰ s) (rw (roots, r) refl) m)) [
    | inl e ↦ (x, here e, r)
    | inr t ↦ further (roots-root l s d.1 t)
  ]
  | inr r ↦ further (roots-root l s d.1 (subst (Memᴰ s) (rw (roots, r) refl) m))
]
  where
    here : s ≡ x.alloc_seq → object s (x ∷ l) ≡ some x
    here e = ground arith

    further :
        ((o : ArcObj) × (object s l ≡ some o) × (is_root o ≡ true))
        → (o : ArcObj) × (object s (x ∷ l) ≡ some o) × (is_root o ≡ true)
    further (o, h, r) = (o, other o h, r)
      where
        other : (o : ArcObj) → object s l ≡ some o → object s (x ∷ l) ≡ some o
        other o h = elim (eq-cases x.alloc_seq s) [
          | inl e ↦ absurd (let z = subst (λ t. object t l ≡ none) e d.0 in cc)
          | inr n ↦ ground arith
        ]

-- The marked names are the reachable ones, and but for the marks the list is what it was.
pub mark_phase :
    (l : List ArcObj)
    → Distinct l
    → ((s : ℕ) → Reachable l s → Present s l)
    → (l' : List ArcObj) × (mark_all (mark_obj (suc (length l))) (roots l) (clear_marks l)
        ≡ some l')
      × (clear_marks l' ≡ clear_marks l)
      × ((s : ℕ) → (is_marked s l' ≡ true) ↔ Reachable l s)
mark_phase l d there =
    let base = clear_marks l in
    let closed =
      Closed-same (Reachable l) l base (sym (clear-clear l))
        (record { there = there; along = λ s c r m. Reachable.edge r m }) in
    let small = plain-le base in
    let same = length-map unmarked l in
    let (l', e, m) =
      mark_all_lem (Reachable l) (suc (length l)) (mark_obj (suc (length l)))
        (mark_obj_lem (Reachable l) (suc (length l))) (roots l) base closed (omega arith)
        (λ c w. let (o, h, r) = roots-root l c d w in Reachable.root o h r) in
    (l', e, m.shape ∙ clear-clear l, λ s. (sound m, full m))
  where
    plain_start : (s : ℕ) → is_marked s (clear_marks l) ≡ false
    plain_start s = elim (Option-cases (object s l)) [
      | inl n ↦ ground (arith, object-clear s l)
      | inr (o, h) ↦ ground (arith, object-clear s l)
    ]

    sound :
        {s : ℕ} {l' : List ArcObj}
        → Marks (Reachable l) (roots l) (clear_marks l) l'
        → is_marked s l' ≡ true
        → Reachable l s
    sound {s} m h = elim (m.new s h) [
      | inl old ↦ absurd (let z = plain_start s in cc)
      | inr (r, all) ↦ r
    ]

    full :
        {s : ℕ} {l' : List ArcObj}
        → Marks (Reachable l) (roots l) (clear_marks l) l'
        → Reachable l s
        → is_marked s l' ≡ true
    full m (Reachable.root o h r) = m.got _ (roots-Mem l _ o h r)
    full m (Reachable.edge {s} {c} q w) = elim (m.new s (full m q)) [
      | inl old ↦ absurd (let z = plain_start s in cc)
      | inr (r, all) ↦
          all c (subst (Memᴰ c) (edges-same s l (clear_marks l) (sym (clear-clear l))) w)
    ]
