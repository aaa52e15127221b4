-- ===== src/Memory/Arena/Fitting.antt =====
-- The searches through the segments of an arena and through the cache.
use plant_lang.Prelude.{
  true_ne_false, ℕ, ◌+◌, ◌≤◌, ◌≡◌, ◌≢◌, refl, sym, ap, ◌∙◌, Bool, List, [], ◌∷◌, Option, none, some,
  leb, ◌==◌, ==_iff, if◌then◌else◌, arith, Bool-cases, inl, inr, times, to_nat, leb→le,
}
use plant_lang.Memory.Arena.{Seg, Block, fit, keep_seg, take_cached, keep_cached}

abbrev is_id : ℕ → Seg → Bool
is_id id s = s.id == id

-- how many segments have the name `id`, and what they hold and can hold
abbrev pub named : ℕ → List Seg → ℕ
named id ss = times (is_id id) ss

abbrev pub pick : ℕ → Seg → ℕ → ℕ
pick id s x = if is_id id s then x else 0

unfoldable pub used_of : ℕ → List Seg → ℕ
used_of id [] = 0
used_of id (s ∷ ss) = pick id s s.used + used_of id ss

unfoldable pub cap_of : ℕ → List Seg → ℕ
cap_of id [] = 0
cap_of id (s ∷ ss) = pick id s s.cap + cap_of id ss

pub pick_same :
    (id : ℕ) (s : Seg) (x : ℕ) → s.id ≡ id → (pick id s x ≡ x) × (to_nat (is_id id s) ≡ 1)
pick_same id s x e = let t = (==_iff s.id id).1 e in (ap (λ b. if b then x else 0) t, ap to_nat t)

pub pick_other :
    (id : ℕ) (s : Seg) (x : ℕ) → s.id ≢ id → (pick id s x ≡ 0) × (to_nat (is_id id s) ≡ 0)
pick_other id s x n = elim (Bool-cases (is_id id s)) [
  | inl y ↦ absurd (n ((==_iff s.id id).0 y))
  | inr m ↦ (ap (λ b. if b then x else 0) m, ap to_nat m)
]

pub used_of-none : (id : ℕ) (ss : List Seg) → named id ss ≡ 0 → used_of id ss ≡ 0
unfolding used_of times
used_of-none id [] h = refl
used_of-none id (s ∷ ss) h = elim (Bool-cases (is_id id s)) [
  | inl y ↦ let one : to_nat (is_id id s) ≡ 1 = ap to_nat y in absurd (omega arith)
  | inr m ↦
      let (p, q) = pick_other id s s.used (λ e. true_ne_false (sym ((==_iff s.id id).1 e) ∙ m)) in
      let r = used_of-none id ss (omega arith) in omega arith
]

-- Where `n` bytes fit.
pub record Fits (n : ℕ) (ss : List Seg) (b : Block) (new : List Seg) : Type 0 where
  pub size : b.len ≡ n
  pub there : 1 ≤ named b.seg ss
  pub names : (id : ℕ) → named id new ≡ named id ss
  pub grows : used_of b.seg new ≡ used_of b.seg ss + n
  pub others : (id : ℕ) → id ≢ b.seg → used_of id new ≡ used_of id ss
  pub caps : (id : ℕ) → cap_of id new ≡ cap_of id ss
  pub starts : named b.seg ss ≤ 1 → b.off ≡ used_of b.seg ss
  pub ends : named b.seg ss ≤ 1 → b.off + n ≤ cap_of b.seg ss

unfoldable pub FitResult : ℕ → List Seg → Option (Block × List Seg) → Type 0
FitResult n ss none = Unit
FitResult n ss (some (b, new)) = Fits n ss b new

here-Fits :
    (n : ℕ) (s : Seg) (ss : List Seg)
    → s.used + n ≤ s.cap
    → Fits n
        (s ∷ ss)
        (record { seg = s.id; off = s.used; len = n })
        (record s { used = s.used + n } ∷ ss)
unfolding used_of cap_of times
here-Fits n s ss h =
    let (p, q) = pick_same s.id s s.used refl in
    let (p2, q2) = pick_same s.id (record s { used = s.used + n }) (s.used + n) refl in
    let (p3, q3) = pick_same s.id s s.cap refl in
    record {
      size = refl;
      there = omega arith;
      names = λ id. refl;
      grows = omega arith;
      others = λ id ne.
          let (a, b) = pick_other id s s.used (λ e. ne (sym e)) in
          let (c, d) =
            pick_other id (record s { used = s.used + n }) (s.used + n) (λ e. ne (sym e)) in
          omega arith;
      caps = λ id. refl;
      starts = λ le. let z = used_of-none s.id ss (omega arith) in omega arith;
      ends = λ le. omega arith;
    }

later-FitResult :
    (n : ℕ) (s : Seg) (ss : List Seg) (r : Option (Block × List Seg))
    → FitResult n ss r
    → FitResult n (s ∷ ss) (keep_seg s r)
unfolding FitResult used_of cap_of times
later-FitResult n s ss none f = tt
later-FitResult n s ss (some (b, new)) f = record {
  size = f.size;
  there = let t = f.there in omega arith;
  names = λ id. let t = f.names id in omega arith;
  grows = let t = f.grows in omega arith;
  others = λ id ne. let t = f.others id ne in omega arith;
  caps = λ id. let t = f.caps id in omega arith;
  starts = λ le.
      let t = f.there in
      let (p, q) = pick_other b.seg s s.used (λ e. twice e le t) in
      let u = f.starts (omega arith) in omega arith;
  ends = λ le. let t = f.there in let u = f.ends (omega arith) in omega arith;
}
  where
    twice : s.id ≡ b.seg → to_nat (is_id b.seg s) + named b.seg ss ≤ 1 → 1 ≤ named b.seg ss → ⊥
    twice e le t = let (p, q) = pick_same b.seg s s.used e in absurd (omega arith)

pub fit_lem : (n : ℕ) (ss : List Seg) → FitResult n ss (fit n ss)
unfolding fit FitResult
fit_lem n [] = tt
fit_lem n (s ∷ ss) =
    let later = later-FitResult n s ss (fit n ss) (fit_lem n ss) in
    elim (Bool-cases (leb (s.used + n) s.cap)) [
      | inl y ↦ rw (fit, y) (here-Fits n s ss (leb→le (s.used + n) s.cap y))
      | inr m ↦ rw (fit, m) later
    ]

pub record Takes (cap : ℕ) (cs : List Seg) (c : Seg) (rest : List Seg) : Type 0 where
  pub large : cap ≤ c.cap
  pub names : (id : ℕ) → named id cs ≡ to_nat (is_id id c) + named id rest

unfoldable pub TakeResult : ℕ → List Seg → Option (Seg × List Seg) → Type 0
TakeResult cap cs none = Unit
TakeResult cap cs (some (c, rest)) = Takes cap cs c rest

later-TakeResult :
    (cap : ℕ) (s : Seg) (cs : List Seg) (r : Option (Seg × List Seg))
    → TakeResult cap cs r
    → TakeResult cap (s ∷ cs) (keep_cached s r)
unfolding TakeResult times
later-TakeResult cap s cs none t = tt
later-TakeResult cap s cs (some (c, rest)) t = record {
  large = t.large;
  names = λ id. let n = t.names id in omega arith;
}

pub take_cached_lem : (cap : ℕ) (cs : List Seg) → TakeResult cap cs (take_cached cap cs)
unfolding take_cached TakeResult times
take_cached_lem cap [] = tt
take_cached_lem cap (c ∷ cs) =
    let later = later-TakeResult cap c cs (take_cached cap cs) (take_cached_lem cap cs) in
    elim (Bool-cases (leb cap c.cap)) [
      | inl y ↦ rw (take_cached, y) (record { large = leb→le cap c.cap y; names = λ id. refl })
      | inr m ↦ rw (take_cached, m) later
    ]
