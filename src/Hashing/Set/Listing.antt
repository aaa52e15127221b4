-- ===== src/Hashing/Set/Listing.antt =====
-- The list of a set's values.
use plant_lang.Prelude.{
  subst, ℕ, zero, suc, ◌≡◌, ◌↔◌, refl, sym, ap, ◌∙◌, Bool, true, false, not, List, [], ◌∷◌, length,
  arith, Bool-cases, inl, inr, times, to_nat,
}
use plant_lang.Hashing.Set.{PlantSet, is_dead, live_values, set_to_list}
use plant_lang.Hashing.Set.Writing.{In, dead_or_live}
use plant_lang.Hashing.Set.Lookup.{is_live}
use plant_lang.Hashing.Set.Membership.{Models}

length-live_values : (vs : List ℕ) → length (live_values vs) ≡ times is_live vs
unfolding live_values times
length-live_values [] = refl
length-live_values (v ∷ vs) =
    let r = length-live_values vs in
    elim (Bool-cases (is_dead v)) [
      | inl d ↦
          let z : to_nat (is_live v) ≡ 0 = ap (λ b. to_nat (not b)) d in
          rw (live_values, d) (omega arith)
      | inr a ↦
          let o : to_nat (is_live v) ≡ 1 = ap (λ b. to_nat (not b)) a in
          rw (live_values, a) (omega arith)
    ]

live_values-dead : (v : ℕ) (vs : List ℕ) → is_dead v ≡ true → live_values (v ∷ vs) ≡ live_values vs
unfolding live_values
live_values-dead v vs d = rw (live_values, d) refl

live_values-live :
    (v : ℕ) (vs : List ℕ) → is_dead v ≡ false → live_values (v ∷ vs) ≡ v ∷ live_values vs
unfolding live_values
live_values-live v vs a = rw (live_values, a) refl

In-congr : {w : ℕ} {xs ys : List ℕ} → xs ≡ ys → In w xs → In w ys
In-congr {w} e i = subst (λ l. In w l) e i

In-later : (v w : ℕ) (vs : List ℕ) → In w vs → In w (v ∷ vs)
In-later v w vs (j, l, e) = (suc j, omega arith, e)

In-live_values : (w : ℕ) (vs : List ℕ) → is_dead w ≡ false → In w (live_values vs) ↔ In w vs
unfolding live_values
In-live_values w [] h = (λ i. i, λ i. i)
In-live_values w (v ∷ vs) h =
    let r = In-live_values w vs h in
    elim (Bool-cases (is_dead v)) [
      | inl d ↦ (
        λ i. In-later v w vs (r.0 (In-congr (live_values-dead v vs d) i)),
        λ i. In-congr (sym (live_values-dead v vs d)) (skip v vs d r.1 i),
      )
      | inr a ↦ (
        λ i. here v vs r.0 (In-congr (live_values-live v vs a) i),
        λ i. In-congr (sym (live_values-live v vs a)) (back v vs r.1 i),
      )
    ]
  where
    skip :
        (v : ℕ) (vs : List ℕ)
        → is_dead v ≡ true
        → (In w vs → In w (live_values vs))
        → In w (v ∷ vs)
        → In w (live_values vs)
    skip v vs d f (zero, l, e) = absurd (dead_or_live v w d h e)
    skip v vs d f (suc j, l, e) = f (j, omega arith, e)

    here :
        (v : ℕ) (vs : List ℕ)
        → (In w (live_values vs) → In w vs)
        → In w (v ∷ live_values vs)
        → In w (v ∷ vs)
    here v vs f (zero, l, e) = (0, omega arith, e)
    here v vs f (suc j, l, e) = In-later v w vs (f (j, omega arith, e))

    back :
        (v : ℕ) (vs : List ℕ)
        → (In w vs → In w (live_values vs))
        → In w (v ∷ vs)
        → In w (v ∷ live_values vs)
    back v vs f (zero, l, e) = (0, omega arith, e)
    back v vs f (suc j, l, e) = In-later v w (live_values vs) (f (j, omega arith, e))

-- `set_to_list` gives as many values as the set has, and among those that are not 0 or (uintptr_t)-1
-- exactly the ones that are in.
pub set_to_list-values :
    (s : PlantSet) (f : ℕ → Bool) (n : ℕ)
    → Models s f n
    → (length (set_to_list s) ≡ n)
      × ((w : ℕ) → is_dead w ≡ false → In w (set_to_list s) ↔ (f w ≡ true))
unfolding set_to_list
set_to_list-values s f n m = (
  length-live_values s.slots ∙ sym m.sound.counted ∙ m.count,
  λ w h.
      let l = In-live_values w s.slots h in
      let k = m.holds w h in (λ i. k.0 (l.0 i), λ i. l.1 (k.1 i)),
)
