-- ===== src/Hashing/Set/Refilling.antt =====
-- The table that a rehash builds.
use plant_lang.Prelude.{
  ℕ, zero, suc, ◌+◌, ◌<◌, ◌≡◌, ◌⊎◌, ◌↔◌, inl, inr, refl, sym, ap, ◌∙◌, true, false, not, List, [],
  ◌∷◌, some, ◌==◌, ==_iff, set, length, arith, Bool-cases, times, times-set, to_nat,
}
use plant_lang.Hashing.Set.{tomb, seek, home, is_free, is_dead, refill}
use plant_lang.Hashing.Set.Writing.{slot, In, IsTable, live-ne, dead_or_live, put-IsTable, put-In}
use plant_lang.Hashing.Set.Lookup.{is_live, is_mark, counts-HasFree, table-Vacancy}

-- What goes on from the values `vs` and the table `slots`.
pub record Refilled (vs slots : List ℕ) (cap : ℕ) : Type 0 where
  pub new : List ℕ
  pub ends : refill vs cap slots ≡ some new
  pub table : IsTable new cap
  pub live : times is_live new ≡ times is_live slots + times is_live vs
  pub marks : times is_mark new ≡ 0
  pub holds : (w : ℕ) → is_dead w ≡ false → In w new ↔ (In w slots ⊎ In w vs)

abbrev pub Once : List ℕ → Type 0
Once vs =
    (i j : ℕ)
    → i < length vs
    → j < length vs
    → is_dead (slot vs i) ≡ false
    → slot vs i ≡ slot vs j
    → i ≡ j

Once-tail : (v : ℕ) (vs : List ℕ) → Once (v ∷ vs) → Once vs
Once-tail v vs o i j k l h e =
    let s = o (suc i) (suc j) (omega arith) (omega arith) h e in omega arith

In-tail : (v w : ℕ) (vs : List ℕ) → In w vs → In w (v ∷ vs)
In-tail v w vs (j, l, e) = (suc j, omega arith, e)

In-cases : (v w : ℕ) (vs : List ℕ) → In w (v ∷ vs) → (w ≡ v) ⊎ In w vs
In-cases v w vs (zero, l, e) = inl (sym e)
In-cases v w vs (suc j, l, e) = inr (j, omega arith, e)

refill_dead :
    (v : ℕ) (vs slots : List ℕ) (cap : ℕ)
    → is_dead v ≡ true
    → refill (v ∷ vs) cap slots ≡ refill vs cap slots
unfolding refill
refill_dead v vs slots cap dead = rw (refill, dead) refl

refill_live :
    (v : ℕ) (vs slots : List ℕ) (cap i : ℕ)
    → is_dead v ≡ false
    → seek is_free cap (home v cap) cap slots ≡ some i
    → refill (v ∷ vs) cap slots ≡ refill vs cap (set slots i v)
unfolding refill
refill_live v vs slots cap i alive found = rw (refill, alive, found) refl

pub refill-Refilled :
    (vs slots : List ℕ) (cap : ℕ)
    → IsTable slots cap
    → times is_mark slots ≡ 0
    → times is_live slots + times is_live vs < cap
    → Once vs
    → ((w : ℕ) → is_dead w ≡ false → In w vs → In w slots → ⊥)
    → Refilled vs slots cap
unfolding refill times
refill-Refilled [] slots cap t marks room once fresh = record {
  new = slots;
  ends = refl;
  table = t;
  live = omega arith;
  marks = marks;
  holds = λ w h. (λ i. inl i, λ s. elim s [ inl i ↦ i | inr (j, l, e) ↦ elim l [ ] ]);
}
refill-Refilled (v ∷ vs) slots cap t marks room once fresh = elim (Bool-cases (is_dead v)) [
  | inl dead ↦
      let none_here : to_nat (is_live v) ≡ 0 = ap (λ b. to_nat (not b)) dead in
      let r =
        refill-Refilled vs slots cap t marks (omega arith) (Once-tail v vs once)
          (λ w h i. fresh w h (In-tail v w vs i)) in
      record {
        new = r.new;
        ends = refill_dead v vs slots cap dead ∙ r.ends;
        table = r.table;
        live = let a = r.live in omega arith;
        marks = r.marks;
        holds = λ w h. (
          λ i. elim ((r.holds w h).0 i) [ inl a ↦ inl a | inr a ↦ inr (In-tail v w vs a) ],
          λ s. (r.holds w h).1 (elim s [
            | inl a ↦ inl a
            | inr a ↦ elim (In-cases v w vs a) [
              | inl e ↦ absurd (dead_or_live v w dead h (sym e))
              | inr b ↦ inr b
            ]
          ]),
        );
      }
  | inr alive ↦
      let size = t.size in
      let one_here : to_nat (is_live v) ≡ 1 = ap (λ b. to_nat (not b)) alive in
      let free = counts-HasFree slots (omega arith) in
      let c = table-Vacancy is_free v slots cap t refl free in
      let at_free = (==_iff (slot slots c.at) 0).0 c.stops in
      let new_here : In v (v ∷ vs) = (0, omega arith, refl) in
      let t' = put-IsTable slots cap c.at v t alive (fresh v alive new_here) c.inside c.way in
      let inside = c.inside in
      let live' = times-set is_live v 0 slots c.at (omega arith) in
      let marks' = times-set is_mark v 0 slots c.at (omega arith) in
      let was : to_nat (is_live (slot slots c.at)) ≡ 0 = ap (λ x. to_nat (is_live x)) at_free in
      let no_mark : to_nat (is_mark v) ≡ 0 = unmarked v alive in
      let puts = λ (w : ℕ) (h : is_dead w ≡ false).
        put-In slots c.at v w (omega arith) (ap is_dead at_free) h in
      let r =
        refill-Refilled vs (set slots c.at v) cap t' (omega arith) (omega arith)
          (Once-tail v vs once)
          (λ w h i s. elim ((puts w h).0 s) [
            | inl e ↦ twice once (let (j, l, x) = i in (j, l, x ∙ e)) alive
            | inr a ↦ fresh w h (In-tail v w vs i) a
          ]) in
      record {
        new = r.new;
        ends = refill_live v vs slots cap c.at alive c.found ∙ r.ends;
        table = r.table;
        live = let a = r.live in omega arith;
        marks = r.marks;
        holds = λ w h. (
          λ i. elim ((r.holds w h).0 i) [
            | inl a ↦ elim ((puts w h).0 a) [ inl e ↦ inr (0, omega arith, sym e) | inr b ↦ inl b ]
            | inr a ↦ inr (In-tail v w vs a)
          ],
          λ s. (r.holds w h).1 (elim s [
            | inl a ↦ inl ((puts w h).1 (inr a))
            | inr a ↦ elim (In-cases v w vs a) [
              | inl e ↦ inl ((puts w h).1 (inl e))
              | inr b ↦ inr b
            ]
          ]),
        );
      }
]
  where
    unmarked : (v : ℕ) → is_dead v ≡ false → to_nat (is_mark v) ≡ 0
    unmarked v h = elim (Bool-cases (v == tomb)) [
      | inl y ↦ absurd ((live-ne v h).1 ((==_iff v tomb).0 y))
      | inr n ↦ ap to_nat n
    ]

    twice : Once (v ∷ vs) → In v vs → is_dead v ≡ false → ⊥
    twice o (j, l, e) alive =
        let s = o 0 (suc j) (omega arith) (omega arith) alive (sym e) in absurd (omega arith)
