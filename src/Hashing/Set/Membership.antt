-- ===== src/Hashing/Set/Membership.antt =====
-- The set against the plain idea of one: which values are in, and how many.
use plant_lang.Prelude.{
  ==_false, true_ne_false, ℕ, suc, ◌-◌, ◌≡◌, ◌≢◌, ◌⊎◌, ◌↔◌, inl, inr, refl, sym, ap, ◌∙◌, Bool,
  true, false, not, ◌||◌, ◌&&◌, List, [], ◌∷◌, Option, none, some, ◌==◌, ==_iff, if◌then◌else◌,
  arith, Bool-cases, get_or-replicate,
}
use plant_lang.Hashing.Set.{
  tomb, PlantSet, set_alloc, set_create, is_dead, set_add, set_has, set_remove, set_size,
}
use plant_lang.Hashing.Set.Writing.{In, dead_or_live}
use plant_lang.Hashing.Set.Growing.{IsHashSet, set_create-IsHashSet}
use plant_lang.Hashing.Set.Changes.{contains_lem, Added, add_new-Added, Removed, remove_lem}

pub data SetCall : Type 0 where
  add has remove : ℕ → SetCall
  size : SetCall

pub data Reply : Type 0 where
  answer : Bool → Reply
  amount : ℕ → Reply

abbrev prepend : Reply → Option (List Reply) → Option (List Reply)
prepend r none = none
prepend r (some rs) = some (r ∷ rs)

-- the replies of a run, or `none` where a loop does not end
unfoldable pub set_run : List SetCall → PlantSet → Option (List Reply)
unfolding set_add set_has set_remove
set_run [] s = some []
set_run (add v ∷ cs) s = elim (set_add v s) [
  | none ↦ none
  | some r ↦ prepend (answer r.0) (set_run cs r.1)
]
set_run (has v ∷ cs) s = elim (set_has v s) [
  | none ↦ none
  | some b ↦ prepend (answer b) (set_run cs s)
]
set_run (remove v ∷ cs) s = elim (set_remove v s) [
  | none ↦ none
  | some r ↦ prepend (answer r.0) (set_run cs r.1)
]
set_run (size ∷ cs) s = prepend (amount (set_size s)) (set_run cs s)

-- The plain set: the test `f` of what is in, and the number `n` of values. 0 is never in.
abbrev pub with_value : ℕ → Bool → (ℕ → Bool) → ℕ → Bool
with_value v b f w = if w == v then b else f w

abbrev in_set : ℕ → (ℕ → Bool) → Bool
in_set v f = not (v == 0) && f v

abbrev is_new : ℕ → (ℕ → Bool) → Bool
is_new v f = not (v == 0) && not (f v)

unfoldable pub plain_run : List SetCall → (ℕ → Bool) → ℕ → List Reply
plain_run [] f n = []
plain_run (add v ∷ cs) f n =
    answer (is_new v f)
    ∷ plain_run cs (if is_new v f then with_value v true f else f) (if is_new v f then suc n else n)
plain_run (has v ∷ cs) f n = answer (in_set v f) ∷ plain_run cs f n
plain_run (remove v ∷ cs) f n =
    answer (in_set v f)
    ∷ plain_run cs (if in_set v f then with_value v false f else f)
        (if in_set v f then n - 1 else n)
plain_run (size ∷ cs) f n = amount n ∷ plain_run cs f n

-- No call is about the value that marks a removed one.
unfoldable pub Avoids : List SetCall → Type 0
Avoids [] = Unit
Avoids (add v ∷ cs) = (v ≢ tomb) × Avoids cs
Avoids (has v ∷ cs) = (v ≢ tomb) × Avoids cs
Avoids (remove v ∷ cs) = (v ≢ tomb) × Avoids cs
Avoids (size ∷ cs) = Avoids cs

pub record Models (s : PlantSet) (f : ℕ → Bool) (n : ℕ) : Type 0 where
  pub sound : IsHashSet s
  pub count : s.count ≡ n
  pub holds : (w : ℕ) → is_dead w ≡ false → In w s.slots ↔ (f w ≡ true)

-- One operation, with what the plain set answers and becomes.
record Step (r : Option (Bool × PlantSet)) (b : Bool) (f : ℕ → Bool) (n : ℕ) : Type 0 where
  result : PlantSet
  ends : r ≡ some (b, result)
  models : Models result f n

lives : (v : ℕ) → (v == 0) ≡ false → v ≢ tomb → is_dead v ≡ false
lives v z n = ap (λ b. b || (v == tomb)) z ∙ ==_false v tomb n

outside : (f : Bool) → (P : Type 0) → P ↔ (f ≡ true) → (P → ⊥) → f ≡ false
outside true P e n = absurd (n (e.1 refl))
outside false P e n = refl

with_value-cases :
    (v w : ℕ) (b : Bool) (f : ℕ → Bool)
    → ((w ≡ v) × (with_value v b f w ≡ b)) ⊎ ((w ≢ v) × (with_value v b f w ≡ f w))
with_value-cases v w b f = elim (Bool-cases (w == v)) [
  | inl y ↦ inl ((==_iff w v).0 y, ap (λ t. if t then b else f w) y)
  | inr m ↦ inr (λ e. true_ne_false (sym ((==_iff w v).1 e) ∙ m), ap (λ t. if t then b else f w) m)
]

pub add-Models :
    (v : ℕ) (s : PlantSet) (f : ℕ → Bool) (n : ℕ) {r : Option (Bool × PlantSet)}
    → Models s f n
    → (a : Added v s r) → Models a.result (with_value v true f) (suc n)
add-Models v s f n m a = record {
  sound = a.sound;
  count = a.count ∙ ap suc m.count;
  holds = λ w h. elim (with_value-cases v w true f) [
    | inl (e, x) ↦ (λ i. x, λ i. (a.holds w h).1 (inl e))
    | inr (ne, x) ↦ (
      λ i. elim ((a.holds w h).0 i) [ inl e ↦ absurd (ne e) | inr b ↦ x ∙ (m.holds w h).0 b ],
      λ i. (a.holds w h).1 (inr ((m.holds w h).1 (sym x ∙ i))),
    )
  ];
}

remove-Models :
    (v : ℕ) (s : PlantSet) (f : ℕ → Bool) (n : ℕ) {r : Option (Bool × PlantSet)}
    → Models s f n
    → (a : Removed v s r) → Models a.result (with_value v false f) (n - 1)
remove-Models v s f n m a = record {
  sound = a.sound;
  count = let c = a.count in let k = m.count in omega arith;
  holds = λ w h. elim (with_value-cases v w false f) [
    | inl (e, x) ↦ (λ i. absurd (((a.holds w h).0 i).0 e), λ i. absurd (true_ne_false (sym i ∙ x)))
    | inr (ne, x) ↦ (
      λ i. x ∙ (m.holds w h).0 ((a.holds w h).0 i).1,
      λ i. (a.holds w h).1 (ne, (m.holds w h).1 (sym x ∙ i)),
    )
  ];
}

set_add-Step :
    (v : ℕ) (s : PlantSet) (f : ℕ → Bool) (n : ℕ)
    → v ≢ tomb
    → Models s f n
    → Step
        (set_add v s)
        (is_new v f)
        (if is_new v f then with_value v true f else f)
        (if is_new v f then suc n else n)
unfolding set_add
set_add-Step v s f n ne m = elim (Bool-cases (v == 0)) [
  | inl z ↦ rw (set_add, z) (record { result = s; ends = refl; models = m })
  | inr z ↦
      let live = lives v z ne in
      elim (contains_lem v s m.sound live) [
        | inl (c, i) ↦
            let t = (m.holds v live).0 i in
            rw (set_add, z, c, t) (record { result = s; ends = refl; models = m })
        | inr (c, i) ↦
            let t = outside (f v) (In v s.slots) (m.holds v live) i in
            let a = add_new-Added v s m.sound live i in
            rw (set_add, z, c, t)
              (record { result = a.result; ends = a.ends; models = add-Models v s f n m a })
      ]
]

set_remove-Step :
    (v : ℕ) (s : PlantSet) (f : ℕ → Bool) (n : ℕ)
    → v ≢ tomb
    → Models s f n
    → Step
        (set_remove v s)
        (in_set v f)
        (if in_set v f then with_value v false f else f)
        (if in_set v f then n - 1 else n)
set_remove-Step v s f n ne m = elim (Bool-cases (v == 0)) [
  | inl z ↦ unfold set_remove in rw (set_remove, z) (record { result = s; ends = refl; models = m })
  | inr z ↦
      let live = lives v z ne in
      elim (remove_lem v s m.sound live) [
        | inl (i, a) ↦
            let t = (m.holds v live).0 i in
            rw (z, t)
              (record { result = a.result; ends = a.ends; models = remove-Models v s f n m a })
        | inr (e, i) ↦
            let t = outside (f v) (In v s.slots) (m.holds v live) i in
            rw (z, t) (record { result = s; ends = e; models = m })
      ]
]

set_has_lem :
    (v : ℕ) (s : PlantSet) (f : ℕ → Bool) (n : ℕ)
    → v ≢ tomb
    → Models s f n
    → set_has v s ≡ some (in_set v f)
unfolding set_has
set_has_lem v s f n ne m = elim (Bool-cases (v == 0)) [
  | inl z ↦ rw (set_has, z) refl
  | inr z ↦
      let live = lives v z ne in
      elim (contains_lem v s m.sound live) [
        | inl (c, i) ↦ let t = (m.holds v live).0 i in rw (set_has, z, c, t) refl
        | inr (c, i) ↦
            let t = outside (f v) (In v s.slots) (m.holds v live) i in rw (set_has, z, c, t) refl
      ]
]

-- Every run of calls on a well-formed set ends, and gives the replies of the plain set that it stands
-- for, as long as no call is about
-- the value (uintptr_t)-1, the mark of a removed value.
pub set_run-plain :
    (calls : List SetCall) (s : PlantSet) (f : ℕ → Bool) (n : ℕ)
    → Avoids calls
    → Models s f n
    → set_run calls s ≡ some (plain_run calls f n)
unfolding set_run plain_run Avoids
set_run-plain [] s f n av m = refl
set_run-plain (add v ∷ cs) s f n (ne, av) m =
    let t = set_add-Step v s f n ne m in
    ap (λ r. elim r [ none ↦ none | some r ↦ prepend (answer r.0) (set_run cs r.1) ]) t.ends
    ∙ ap (prepend (answer (is_new v f))) (
        set_run-plain cs t.result (if is_new v f then with_value v true f else f)
          (if is_new v f then suc n else n) av t.models)
set_run-plain (has v ∷ cs) s f n (ne, av) m =
    ap (λ r. elim r [ none ↦ none | some b ↦ prepend (answer b) (set_run cs s) ])
      (set_has_lem v s f n ne m)
    ∙ ap (prepend (answer (in_set v f))) (set_run-plain cs s f n av m)
set_run-plain (remove v ∷ cs) s f n (ne, av) m =
    let t = set_remove-Step v s f n ne m in
    ap (λ r. elim r [ none ↦ none | some r ↦ prepend (answer r.0) (set_run cs r.1) ]) t.ends
    ∙ ap (prepend (answer (in_set v f))) (
        set_run-plain cs t.result (if in_set v f then with_value v false f else f)
          (if in_set v f then n - 1 else n) av t.models)
set_run-plain (size ∷ cs) s f n av m =
    ap (λ k. prepend (amount k) (set_run cs s)) m.count
    ∙ ap (prepend (amount n)) (set_run-plain cs s f n av m)

pub set_create-Models : Models set_create (λ v. false) 0
unfolding set_create set_alloc
set_create-Models = record {
  sound = set_create-IsHashSet;
  count = refl;
  holds = λ w h. (
    λ (j, l, e). absurd (dead_or_live 0 w refl h (sym (get_or-replicate 8 j 0) ∙ e)),
    λ e. absurd (true_ne_false (sym e)),
  );
}
