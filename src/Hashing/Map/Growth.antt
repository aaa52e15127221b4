-- ===== src/Hashing/Map/Growth.antt =====
-- `plant_map_hash_set` with its growth: it always finishes, keeps the invariant, and a later lookup
-- sees the new value.
use plant_lang.Prelude.{
  refl, length-replicate, ◌+◌, ◌^◌, ◌*◌, ◌/◌, false, true, get_or-replicate, arith, ◌<◌, times, ℕ,
  zero, suc, ◌*◌, ◌/◌, ◌≤◌, ◌≡◌, ◌≢◌, sym, ap, ◌∙◌, List, [], ◌∷◌, Option, none, some,
  if◌then◌else◌, get_or, Text, str_eq, str_eq_iff, Bool-cases, inl, inr, Option-cases,
}
use plant_lang.Hashing.Map.{
  Bool, replicate, leb, insert, reinsert, set_at, Slot, vacant, used, PlantMap, hash_get,
}
use plant_lang.Hashing.Map.Core.{in_use, IsCore, hash_get-slot, slot-hash_get}
use plant_lang.Hashing.Map.Insertion.{insert-sizes, insert-IsCore, hash_get-insert}

module _ {ℓ} {V : Type ℓ} where
  -- The core invariant, and the load stays within three quarters.
  pub record IsMap (m : PlantMap V) : Type ℓ where
    pub core : IsCore m
    pub limit : m.threshold ≡ m.capacity * 3 / 4
    pub load : m.count ≤ m.threshold

  abbrev pub get : PlantMap V → Text → Option V
  get m j = hash_get (some m) (some j)

  -- The value that the last entry with a key has.
  abbrev pub last_of : Text → List (Slot V) → Option V
  last_of j [] = none
  last_of j (vacant ∷ r) = last_of j r
  last_of j (used k v ∷ r) = elim (last_of j r) [
    | some w ↦ some w
    | none ↦ if str_eq k j then some v else none
  ]

  abbrev pub or_else : Option V → Option V → Option V
  or_else none d = d
  or_else (some w) d = some w

  last_of-slot :
      (j : Text) (l : List (Slot V)) (w : V)
      → last_of j l ≡ some w
      → (p : ℕ) × (get_or l p vacant ≡ used j w)
  last_of-slot j [] w h = cc
  last_of-slot j (vacant ∷ r) w h = let (p, e) = last_of-slot j r w h in (suc p, e)
  last_of-slot j (used k v ∷ r) w h =
      let rest = last_of-slot j r in
      elim (Option-cases (last_of j r)) [
        | inr (u, e) ↦
            let (p, f) = rest u e in
            let g : last_of j (used k v ∷ r) ≡ some u = rw (e) in
            let uw : u ≡ w = cc in (suc p, f ∙ ap (used j) uw)
        | inl e ↦ elim (Bool-cases (str_eq k j)) [
          | inl same ↦
              let g : last_of j (used k v ∷ r) ≡ some v = rw (e, same) in
              let vw : v ≡ w = cc in
              let kj = (str_eq_iff k j).0 same in (0, ap (λ t. used t v) kj ∙ ap (used j) vw)
          | inr other ↦ let g : last_of j (used k v ∷ r) ≡ none = rw (e, other) in cc
        ]
      ]

  last_of-missing :
      (j : Text) (l : List (Slot V)) (p : ℕ) (w : V)
      → last_of j l ≡ none
      → get_or l p vacant ≢ used j w
  last_of-missing j [] p w h e = cc
  last_of-missing j (vacant ∷ r) zero w h e = cc
  last_of-missing j (vacant ∷ r) (suc p) w h e = last_of-missing j r p w h e
  last_of-missing j (used k v ∷ r) p w h e =
      let rest = last_of-missing j r in
      elim (Option-cases (last_of j r)) [
        | inr (u, f) ↦ let g : last_of j (used k v ∷ r) ≡ some u = rw (f) in cc
        | inl f ↦ at p e f rest
      ]
    where
      at :
          (p : ℕ)
          → get_or (used k v ∷ r) p vacant ≡ used j w
          → last_of j r ≡ none
          → ((p : ℕ) (w : V) → last_of j r ≡ none → get_or r p vacant ≢ used j w)
          → ⊥
      at (suc p) e f rest = rest p w f e
      at zero e f rest =
          let kj : k ≡ j = cc in
          let same = (str_eq_iff k j).1 kj in
          let g : last_of j (used k v ∷ r) ≡ some v = rw (f, same) in cc

  -- The old slot array holds the lookups of its map.
  pub last_of-get : (m : PlantMap V) → IsCore m → (j : Text) → last_of j m.entries ≡ get m j
  last_of-get m c j = elim (Option-cases (last_of j m.entries)) [
    | inr (w, e) ↦ let (p, f) = last_of-slot j m.entries w e in e ∙ sym (hash_get-slot m c p j w f)
    | inl e ↦ elim (Option-cases (get m j)) [
      | inl f ↦ e ∙ sym f
      | inr (w, f) ↦
          let (p, g) = slot-hash_get m c j w f in absurd (last_of-missing j m.entries p w e g)
    ]
  ]

  -- The empty table is well formed.
  pub empty-IsCore :
      (n e : ℕ)
      → n ≡ 2 ^ e
      → 8 ≤ n
      → (t : ℕ)
      → IsCore {V = V}
          (record { entries = replicate n vacant; capacity = n; count = 0; threshold = t })
  unfolding times
  empty-IsCore n e w b t = record {
    exponent = e;
    wide = w;
    big = b;
    sized = length-replicate n vacant;
    counted = none_used n;
    homes = λ p key v g.
        let f : get_or (replicate {A = Slot V} n vacant) p vacant ≡ vacant =
          get_or-replicate n p vacant in
        let d = sym f ∙ g in cc;
  }
    where
      none_used : (n : ℕ) → times (in_use {V = V}) (replicate n vacant) ≡ 0
      none_used zero = refl
      none_used (suc n) = omega (arith, none_used n)

  pub empty-get :
      (m : PlantMap V) → IsCore m → times in_use m.entries ≡ 0 → (j : Text) → get m j ≡ none
  unfolding times
  empty-get m c z j = elim (Option-cases (get m j)) [
    | inl e ↦ e
    | inr (w, e) ↦ let (p, f) = slot-hash_get m c j w e in absurd (holds m.entries p z f)
  ]
    where
      holds :
          (l : List (Slot V)) (p : ℕ) {w : V} → times in_use l ≡ 0 → get_or l p vacant ≢ used j w
      holds [] p z e = cc
      holds (vacant ∷ r) zero z e = cc
      holds (vacant ∷ r) (suc p) z e = holds r p (omega arith) e
      holds (used k v ∷ r) p z e = absurd (omega arith)

  -- With room below the threshold one level is enough, and it is an insertion.
  pub set_at-room :
      (d : ℕ) (key : Text) (v : V) (m : PlantMap V)
      → m.count < m.threshold
      → set_at (suc d) key v m ≡ some (insert key v m)
  unfolding set_at
  set_at-room d key v m h = let t : leb m.threshold m.count ≡ false = ground arith in rw (t)

  -- What `reinsert` leaves behind.
  pub record Carried (l : List (Slot V)) (g g' : PlantMap V) : Type ℓ where
    pub core : IsCore g'
    pub same_capacity : g'.capacity ≡ g.capacity
    pub same_threshold : g'.threshold ≡ g.threshold
    pub few : g'.count ≤ g.count + times in_use l
    pub gets : (j : Text) → get g' j ≡ or_else (last_of j l) (get g j)

  pub reinsert-Carried :
      (d : ℕ) (l : List (Slot V)) (g : PlantMap V)
      → IsCore g
      → g.threshold ≤ g.capacity
      → g.count + times in_use l ≤ g.threshold
      → (g' : PlantMap V) × (reinsert (set_at (suc d)) l g ≡ some g') × Carried l g g'
  unfolding reinsert times
  reinsert-Carried d [] g c t h = (
    g,
    refl,
    record {
      core = c;
      same_capacity = refl;
      same_threshold = refl;
      few = omega arith;
      gets = λ j. refl;
    },
  )
  reinsert-Carried d (vacant ∷ r) g c t h =
      let (g', e, k) = reinsert-Carried d r g c t (omega arith) in
      let kf = k.few in
      (
        g',
        e,
        record {
          core = k.core;
          same_capacity = k.same_capacity;
          same_threshold = k.same_threshold;
          few = omega arith;
          gets = k.gets;
        },
      )
  reinsert-Carried d (used key v ∷ r) g c t h =
      let few : g.count < g.capacity = omega arith in
      let (sc, st, su) = insert-sizes g c key v few in
      let c' = insert-IsCore g c key v few in
      let rest = reinsert-Carried d r (insert key v g) c' (omega arith) (omega arith) in
      let (g', e, k) = rest in
      let kf = k.few in
      (
        g',
        rw (set_at-room d key v g (omega arith), reinsert) e,
        record {
          core = k.core;
          same_capacity = k.same_capacity ∙ sc;
          same_threshold = k.same_threshold ∙ st;
          few = omega arith;
          gets = λ j.
              k.gets j
              ∙ ap (or_else (last_of j r)) (hash_get-insert g c key v few j)
              ∙ combine (last_of j r) (str_eq key j) (get g j);
        },
      )
    where
      combine :
          (a : Option V) (b : Bool) (c : Option V)
          → or_else a (if b then some v else c)
            ≡ or_else (elim a [ some w ↦ some w | none ↦ if b then some v else none ]) c
      combine none true c = refl
      combine none false c = refl
      combine (some w) b c = refl
