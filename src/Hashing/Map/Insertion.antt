-- ===== src/Hashing/Map/Insertion.antt =====
-- What an insertion does to the invariant and to every lookup.
use plant_lang.Prelude.{
  ℕ, ◌+◌, ◌≤◌, ◌<◌, ◌≡◌, ◌≢◌, refl, sym, ap, ◌∙◌, List, some, arith, ◌==◌, ==_iff, if◌then◌else◌,
  length, get_or, set, length-set, get_or-set_self, get_or-set_ne, Text, str_eq, str_eq_iff,
  Bool-cases, inl, inr, to_nat, times-set, Option-cases,
}
use plant_lang.Hashing.Map.{
  Slot, vacant, used, PlantMap, Probe, at_vacant, at_key, exhausted, key_at, probe_from, probe,
  hash_str, hash_get, insert,
}
use plant_lang.Hashing.Map.Probing.{
  with_entries, slot, place, Stops, probe-fill_key, probe-fill_vacant, probe-congr,
}
use plant_lang.Hashing.Map.Core.{
  IsCore, in_use, place-lt, probe-Stops, room, hash_get-slot, slot-hash_get,
}

module _ {ℓ} {V : Type ℓ} where
  used_injective : {k k' : Text} {v v' : V} → used k v ≡ used k' v' → (k ≡ k') × (v ≡ v')
  used_injective e = (cc, cc)

  -- Two maps whose slots in use hold the same under a key give the same for it.
  agree :
      (m m' : PlantMap V)
      → IsCore m
      → IsCore m'
      → (j : Text) → ((q : ℕ) (w : V) → slot m q ≡ used j w → slot m' q ≡ used j w)
      → ((q : ℕ) (w : V) → slot m' q ≡ used j w → slot m q ≡ used j w)
      → hash_get (some m') (some j) ≡ hash_get (some m) (some j)
  agree m m' c c' j to from = elim (Option-cases (hash_get (some m) (some j))) [
    | inr (w, e) ↦
        let (q, f) = slot-hash_get m c j w e in hash_get-slot m' c' q j w (to q w f) ∙ sym e
    | inl e ↦ elim (Option-cases (hash_get (some m') (some j))) [
      | inl e' ↦ e' ∙ sym e
      | inr (w, e') ↦
          let (q, f) = slot-hash_get m' c' j w e' in
          let g = hash_get-slot m c q j w (from q w f) in cc
    ]
  ]

  -- The two writes of an insertion.
  abbrev pub filled : PlantMap V → ℕ → Text → V → PlantMap V
  filled m p key v = record m { entries = set m.entries p (used key v); count = m.count + 1 }

  abbrev pub rewritten : PlantMap V → ℕ → Text → V → PlantMap V
  rewritten m p key v = record m { entries = set m.entries p (used key v) }

  module _ (m : PlantMap V) (c : IsCore m) (key : Text) (v : V) where
    insert-cases {ℓ'} :
        (P : PlantMap V → Type ℓ')
        → ((p : ℕ)
            → p < length m.entries
            → slot m p ≡ vacant
            → probe key m ≡ at_vacant p
            → P (filled m p key v))
        → ((p : ℕ) (w : V) → p < length m.entries → slot m p ≡ used key w → P (rewritten m p key v))
        → m.count < m.capacity
        → P (insert key v m)
    unfolding insert
    insert-cases P fill write few = by_probe (probe key m) refl (probe-Stops m c key)
      where
        by_probe : (r : Probe) → probe key m ≡ r → Stops m key r → P (insert key v m)
        by_probe (at_vacant p) e (f, (x, at)) =
            let fit : p < length m.entries = rw (at) (place-lt m c x) in
            rw (e, insert) (fill p fit f e)
        by_probe (at_key p) e (w, f, (x, at)) =
            let fit : p < length m.entries = rw (at) (place-lt m c x) in
            rw (e, f, insert) (write p w fit f)
        by_probe exhausted e w = absurd (room m c few key e)

    module _ (p : ℕ) (fit : p < length m.entries) where
      filled-IsCore :
          slot m p ≡ vacant
          → probe key m ≡ at_vacant p
          → m.count < m.capacity
          → IsCore (filled m p key v)
      unfolding probe
      filled-IsCore f e few =
          let counts = times-set in_use (used key v) vacant m.entries p fit in
          let t = c.counted in
          let zero_here : to_nat (in_use (slot m p)) ≡ 0 = rw (f) in
          record {
            exponent = c.exponent;
            wide = c.wide;
            big = c.big;
            sized = length-set m.entries p (used key v) ∙ c.sized;
            counted = omega arith;
            homes = λ q k w g. home q k w g;
          }
        where
          m' : PlantMap V
          m' = with_entries m (set m.entries p (used key v))

          start : Text → ℕ
          start k = place m (hash_str k)

          home :
              (q : ℕ) (k : Text) (w : V)
              → get_or (set m.entries p (used key v)) q vacant ≡ used k w
              → probe k (filled m p key v) ≡ at_key q
          home q k w g =
              probe-congr m.capacity 0 (start k) k m' (set m.entries p (used key v)) (m.count + 1)
                (λ x. refl)
              ∙ elim (Bool-cases (p == q)) [
                | inl here ↦
                    let pq = (==_iff p q).0 here in
                    let same : used key v ≡ used k w =
                      sym (get_or-set_self m.entries p (used key v) vacant fit)
                      ∙ ap (λ t. get_or (set m.entries p (used key v)) t vacant) pq
                      ∙ g in
                    let (kk, ww) = used_injective same in
                    ap (λ t. probe_from m.capacity 0 (start t) t m') (sym kk)
                    ∙ probe-fill_vacant m.capacity 0 (start key) key m p v f fit e
                    ∙ ap at_key pq
                | inr there ↦
                    let pq : p ≢ q = ground arith in
                    let old : slot m q ≡ used k w =
                      sym (get_or-set_ne m.entries p q (used key v) vacant pq) ∙ g in
                    probe-fill_key m.capacity 0 (start k) k m p q (used key v) f (c.homes q k w old)
              ]

      rewritten-IsCore : (old : V) → slot m p ≡ used key old → IsCore (rewritten m p key v)
      unfolding probe
      rewritten-IsCore old f =
          let counts = times-set in_use (used key v) vacant m.entries p fit in
          let t = c.counted in
          let one_here : to_nat (in_use (slot m p)) ≡ 1 = rw (f) in
          record {
            exponent = c.exponent;
            wide = c.wide;
            big = c.big;
            sized = length-set m.entries p (used key v) ∙ c.sized;
            counted = omega arith;
            homes = λ q k w g. home q k w g;
          }
        where
          after : List (Slot V)
          after = set m.entries p (used key v)

          same_keys : (k : Text) (x : ℕ) → key_at k (get_or after x vacant) ≡ key_at k (slot m x)
          same_keys k x = elim (Bool-cases (p == x)) [
            | inl here ↦
                let px = (==_iff p x).0 here in
                ap (λ t. key_at k (get_or after t vacant)) (sym px)
                ∙ ap (key_at k) (get_or-set_self m.entries p (used key v) vacant fit)
                ∙ ap (key_at k) (sym f)
                ∙ ap (λ t. key_at k (slot m t)) px
            | inr there ↦
                let px : p ≢ x = ground arith in
                ap (key_at k) (get_or-set_ne m.entries p x (used key v) vacant px)
          ]

          home :
              (q : ℕ) (k : Text) (w : V)
              → get_or after q vacant ≡ used k w
              → probe k (rewritten m p key v) ≡ at_key q
          home q k w g =
              probe-congr m.capacity 0 (place m (hash_str k)) k m after m.count (same_keys k)
              ∙ elim (Bool-cases (p == q)) [
                | inl here ↦
                    let pq = (==_iff p q).0 here in
                    let same : used key v ≡ used k w =
                      sym (get_or-set_self m.entries p (used key v) vacant fit)
                      ∙ ap (λ t. get_or after t vacant) pq
                      ∙ g in
                    let (kk, ww) = used_injective same in
                    c.homes q k old (ap (slot m) (sym pq) ∙ f ∙ ap (λ t. used t old) kk)
                | inr there ↦
                    let pq : p ≢ q = ground arith in
                    c.homes q k w (sym (get_or-set_ne m.entries p q (used key v) vacant pq) ∙ g)
              ]

    pub insert-sizes :
        m.count < m.capacity
        → ((insert key v m).capacity ≡ m.capacity)
          × ((insert key v m).threshold ≡ m.threshold)
          × ((insert key v m).count ≤ m.count + 1)
    insert-sizes few =
        insert-cases
          (λ m'.
            (m'.capacity ≡ m.capacity) × (m'.threshold ≡ m.threshold) × (m'.count ≤ m.count + 1))
          (λ p fit f e. (refl, refl, omega arith)) (λ p w fit f. (refl, refl, omega arith)) few

    pub insert-IsCore : m.count < m.capacity → IsCore (insert key v m)
    insert-IsCore few =
        insert-cases IsCore (λ p fit f e. filled-IsCore p fit f e few)
          (λ p w fit f. rewritten-IsCore p fit w f) few

    -- A write of the key's slot decides what a lookup gives.
    written :
        (n : ℕ) (p : ℕ)
        → p < length m.entries
        → ((j : Text) (w : V) → slot m p ≡ used j w → key ≡ j)
        → IsCore (record m { entries = set m.entries p (used key v); count = n })
        → (j : Text)
        → hash_get (some (record m { entries = set m.entries p (used key v); count = n })) (some j)
          ≡ (if str_eq key j then some v else hash_get (some m) (some j))
    written n p fit own c' j =
        let after = set m.entries p (used key v) in
        let m' : PlantMap V = record m { entries = after; count = n } in
        let here : get_or after p vacant ≡ used key v =
          get_or-set_self m.entries p (used key v) vacant fit in
        elim (Bool-cases (str_eq key j)) [
          | inl same ↦
              let kj = (str_eq_iff key j).0 same in
              rw (same) (hash_get-slot m' c' p j v (here ∙ ap (λ t. used t v) kj))
          | inr other ↦
              let apart : key ≢ j = λ e. let y = (str_eq_iff key j).1 e in cc in
              rw (other) (
                agree m m' c c' j
                  (λ q w g.
                    get_or-set_ne m.entries p q (used key v) vacant
                      (λ pq. apart (own j w (ap (slot m) pq ∙ g)))
                    ∙ g)
                  (λ q w g.
                    let pq : p ≢ q = λ pq.
                      apart
                        (used_injective (sym here ∙ ap (λ t. get_or after t vacant) pq ∙ g)).0 in
                    sym (get_or-set_ne m.entries p q (used key v) vacant pq) ∙ g))
        ]

    pub hash_get-insert :
        m.count < m.capacity
        → (j : Text)
        → hash_get (some (insert key v m)) (some j)
          ≡ (if str_eq key j then some v else hash_get (some m) (some j))
    hash_get-insert few j =
        insert-cases
          (λ m'.
            hash_get (some m') (some j)
            ≡ (if str_eq key j then some v else hash_get (some m) (some j)))
          (λ p fit f e.
            written (m.count + 1) p fit (λ j w g. let d = sym f ∙ g in cc)
              (filled-IsCore p fit f e few) j)
          (λ p w fit f.
            written m.count p fit (λ j u g. (used_injective (sym f ∙ g)).0)
              (rewritten-IsCore p fit w f) j)
          few
