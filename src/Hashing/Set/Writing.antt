-- ===== src/Hashing/Set/Writing.antt =====
-- What writing a value or a mark to a slot does to the table of a set.

use plant_lang.Prelude.{
  true_ne_false, ℕ, ◌<◌, ◌≡◌, ◌≢◌, ◌⊎◌, ◌↔◌, inl, inr, refl, sym, ap, ◌∙◌, subst, true, false, List,
  ◌==◌, ==_iff, get_or, set, length, arith, Bool-cases, length-set, get_or-set_self, get_or-set_ne,
}
use plant_lang.Hashing.Set.{tomb, home, is_dead}
use plant_lang.Hashing.Set.Probing.{IsPower, pos}

abbrev pub slot : List ℕ → ℕ → ℕ
slot slots i = get_or slots i 0

abbrev pub In : ℕ → List ℕ → Type 0
In v slots = (j : ℕ) × (j < length slots) × (slot slots j ≡ v)

-- The probe for the value `v` reaches the slot `j` without meeting a free one.
abbrev pub Reach : List ℕ → ℕ → ℕ → ℕ → Type 0
Reach slots cap j v =
    (d : ℕ) × (d < cap)
    × (pos (home v cap) d cap ≡ j)
    × ((e : ℕ) → e < d → slot slots (pos (home v cap) e cap) ≢ 0)

-- Every value can be reached, and stands in one slot only.
pub record IsTable (slots : List ℕ) (cap : ℕ) : Type 0 where
  pub power : IsPower cap
  pub size : length slots ≡ cap
  pub reach : (j : ℕ) → j < cap → is_dead (slot slots j) ≡ false → Reach slots cap j (slot slots j)
  pub once :
      (i j : ℕ)
      → i < cap
      → j < cap
      → is_dead (slot slots i) ≡ false
      → slot slots i ≡ slot slots j
      → i ≡ j

pub live-ne : (v : ℕ) → is_dead v ≡ false → (v ≢ 0) × (v ≢ tomb)
live-ne v h = (λ e. ground arith, λ e. ground arith)

pub dead_or_live : (v w : ℕ) → is_dead v ≡ true → is_dead w ≡ false → v ≢ w
dead_or_live v w h l e = true_ne_false (sym h ∙ ap is_dead e ∙ l)

-- the value of a slot behind a write
set-cases :
    (slots : List ℕ) (i v j : ℕ)
    → i < length slots
    → ((i ≡ j) × (slot (set slots i v) j ≡ v)) ⊎ ((i ≢ j) × (slot (set slots i v) j ≡ slot slots j))
set-cases slots i v j h = elim (Bool-cases (i == j)) [
  | inl y ↦
      let e = (==_iff i j).0 y in
      inl (e, ap (λ k. slot (set slots i v) k) (sym e) ∙ get_or-set_self slots i v 0 h)
  | inr n ↦
      let ne : i ≢ j = λ e. absurd (true_ne_false (sym ((==_iff i j).1 e) ∙ n)) in
      inr (ne, get_or-set_ne slots i j v 0 ne)
]

-- a write that frees no slot leaves every other value reachable
Reach-set :
    (slots : List ℕ) (cap i v j u : ℕ)
    → i < length slots
    → v ≢ 0
    → Reach slots cap j u
    → Reach (set slots i v) cap j u
Reach-set slots cap i v j u h n (d, lt, at, passed) = (
  d,
  lt,
  at,
  λ e l z. elim (set-cases slots i v (pos (home u cap) e cap) h) [
    | inl (same, w) ↦ n (sym w ∙ z)
    | inr (ne, w) ↦ passed e l (sym w ∙ z)
  ],
)

-- a new value in a slot that holds none, at the end of its way
pub put-IsTable :
    (slots : List ℕ) (cap i v : ℕ)
    → IsTable slots cap
    → is_dead v ≡ false
    → (In v slots → ⊥)
    → i < cap
    → Reach slots cap i v
    → IsTable (set slots i v) cap
put-IsTable slots cap i v t live absent lt way =
    let size = t.size in
    let ne = (live-ne v live).0 in
    record {
      power = t.power;
      size = length-set slots i v ∙ size;
      reach = λ j l h. elim (set-cases slots i v j (omega arith)) [
        | inl (e, w) ↦
            subst (λ u. Reach (set slots i v) cap j u) (sym w)
              (subst (λ k. Reach (set slots i v) cap k v) e
                (Reach-set slots cap i v i v (omega arith) ne way))
        | inr (n, w) ↦
            subst (λ u. Reach (set slots i v) cap j u) (sym w)
              (Reach-set slots cap i v j (slot slots j) (omega arith) ne
                (t.reach j l (ap is_dead (sym w) ∙ h)))
      ];
      once = λ a b k l h e. elim (set-cases slots i v a (omega arith)) [
        | inl (p, w) ↦ elim (set-cases slots i v b (omega arith)) [
          | inl (q, x) ↦ sym p ∙ q
          | inr (q, x) ↦ absurd (absent (b, omega arith, sym x ∙ sym e ∙ w))
        ]
        | inr (p, w) ↦ elim (set-cases slots i v b (omega arith)) [
          | inl (q, x) ↦ absurd (absent (a, omega arith, sym w ∙ e ∙ x))
          | inr (q, x) ↦ t.once a b k l (ap is_dead (sym w) ∙ h) (sym w ∙ e ∙ x)
        ]
      ];
    }

pub put-In :
    (slots : List ℕ) (i v w : ℕ)
    → i < length slots
    → is_dead (slot slots i) ≡ true
    → is_dead w ≡ false
    → In w (set slots i v) ↔ ((w ≡ v) ⊎ In w slots)
put-In slots i v w lt dead live = (there, back)
  where
    there : In w (set slots i v) → (w ≡ v) ⊎ In w slots
    there (j, l, e) = elim (set-cases slots i v j lt) [
      | inl (p, x) ↦ inl (sym e ∙ x)
      | inr (p, x) ↦ inr (j, let s = length-set slots i v in omega arith, sym x ∙ e)
    ]

    back : (w ≡ v) ⊎ In w slots → In w (set slots i v)
    back (inl e) =
        (i, let s = length-set slots i v in omega arith, get_or-set_self slots i v 0 lt ∙ sym e)
    back (inr (j, l, e)) = elim (set-cases slots i v j lt) [
      | inl (p, x) ↦ absurd (dead_or_live (slot slots i) w dead live (ap (slot slots) p ∙ e))
      | inr (p, x) ↦ (j, let s = length-set slots i v in omega arith, x ∙ e)
    ]

-- the mark in the place of a value
pub mark-IsTable :
    (slots : List ℕ) (cap i : ℕ) → IsTable slots cap → i < cap → IsTable (set slots i tomb) cap
mark-IsTable slots cap i t lt =
    let size = t.size in
    record {
      power = t.power;
      size = length-set slots i tomb ∙ size;
      reach = λ j l h. elim (set-cases slots i tomb j (omega arith)) [
        | inl (e, w) ↦ absurd (dead_or_live tomb (slot (set slots i tomb) j) refl h (sym w))
        | inr (n, w) ↦
            subst (λ u. Reach (set slots i tomb) cap j u) (sym w)
              (Reach-set slots cap i tomb j (slot slots j) (omega arith) (λ z. absurd (omega arith))
                (t.reach j l (ap is_dead (sym w) ∙ h)))
      ];
      once = λ a b k l h e. elim (set-cases slots i tomb a (omega arith)) [
        | inl (p, w) ↦ elim (set-cases slots i tomb b (omega arith)) [
          | inl (q, x) ↦ sym p ∙ q
          | inr (q, x) ↦ absurd (dead_or_live tomb (slot (set slots i tomb) a) refl h (sym w))
        ]
        | inr (p, w) ↦ elim (set-cases slots i tomb b (omega arith)) [
          | inl (q, x) ↦
              absurd (dead_or_live tomb (slot (set slots i tomb) a) refl h (sym x ∙ sym e))
          | inr (q, x) ↦ t.once a b k l (ap is_dead (sym w) ∙ h) (sym w ∙ e ∙ x)
        ]
      ];
    }

pub mark-In :
    (slots : List ℕ) (cap i w : ℕ)
    → IsTable slots cap
    → i < cap
    → is_dead (slot slots i) ≡ false
    → is_dead w ≡ false
    → In w (set slots i tomb) ↔ ((w ≢ slot slots i) × In w slots)
mark-In slots cap i w t lt here live = (there, back)
  where
    there : In w (set slots i tomb) → (w ≢ slot slots i) × In w slots
    there (j, l, e) = elim (set-cases slots i tomb j (let s = t.size in omega arith)) [
      | inl (p, x) ↦ absurd (dead_or_live tomb w refl live (sym x ∙ e))
      | inr (p, x) ↦
          let s = length-set slots i tomb in
          let z = t.size in
          (
            λ same. p (t.once i j lt (omega arith) here (sym same ∙ sym e ∙ x)),
            (j, omega arith, sym x ∙ e),
          )
    ]

    back : (w ≢ slot slots i) × In w slots → In w (set slots i tomb)
    back (ne, (j, l, e)) = elim (set-cases slots i tomb j (let s = t.size in omega arith)) [
      | inl (p, x) ↦ absurd (ne (sym e ∙ ap (slot slots) (sym p)))
      | inr (p, x) ↦ (j, let s = length-set slots i tomb in omega arith, x ∙ e)
    ]
