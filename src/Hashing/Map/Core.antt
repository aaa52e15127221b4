-- ===== src/Hashing/Map/Core.antt =====
-- The invariant of the hash map, and what an insertion does to it and to every lookup.
use plant_lang.Prelude.{
  ℕ, suc, ◌+◌, ◌-◌, ◌%◌, ◌^◌, ◌≤◌, ◌<◌, ◌≡◌, ◌≢◌, refl, sym, ap, ◌∙◌, Bool, true, false, List, [],
  ◌∷◌, none, some, arith, length, get_or, bit_and, bit_and_mask, Text, times,
}
use plant_lang.Hashing.Map.{
  Slot, vacant, used, PlantMap, Probe, at_vacant, at_key, exhausted, probe, hash_str, hash_get,
}
use plant_lang.Hashing.Map.Probing.{slot, place, Stops, probe_from-Stops, probe-exhausted}
use native.Mathlib.Nat.{mod-add-mod, add-mod-mod, add-mod_right, mod-eq_of_lt}

wraps : (idx p size : ℕ) → 8 ≤ size → p < size → (idx + (p + size - idx % size) % size) % size ≡ p
wraps idx p size big h =
    let r = idx % size in
    let low : r < size = omega arith in
    let back : r + (p + size - r) ≡ p + size = omega arith in
    add-mod-mod idx (p + size - r) size
    ∙ sym (mod-add-mod idx size (p + size - r))
    ∙ ap (λ t. t % size) back
    ∙ add-mod_right p size
    ∙ mod-eq_of_lt h

module _ {ℓ} {V : Type ℓ} where
  abbrev pub in_use : Slot V → Bool
  in_use vacant = false
  in_use (used k v) = true

  -- The capacity is a power of two, the count is that of the slots in use, and every key is found
  -- by a probe where it stands.
  pub record IsCore (m : PlantMap V) : Type ℓ where
    pub exponent : ℕ
    pub wide : m.capacity ≡ 2 ^ exponent
    pub big : 8 ≤ m.capacity
    pub sized : length m.entries ≡ m.capacity
    pub counted : times in_use m.entries ≡ m.count
    pub homes : (p : ℕ) (key : Text) (v : V) → slot m p ≡ used key v → probe key m ≡ at_key p

  -- A slot array that is not full has an empty slot.
  pub spare :
      (s : List (Slot V))
      → times in_use s < length s
      → (p : ℕ) × (p < length s) × (get_or s p vacant ≡ vacant)
  unfolding times
  spare [] h = elim h [ ]
  spare (vacant ∷ r) h = (0, omega arith, refl)
  spare (used k v ∷ r) h = let (p, fit, e) = spare r (omega arith) in (suc p, omega arith, e)

  module _ (m : PlantMap V) (c : IsCore m) where
    place_mod : (x : ℕ) → place m x ≡ x % m.capacity
    place_mod x =
        ap (λ n. bit_and x (n - 1)) c.wide
        ∙ bit_and_mask c.exponent x
        ∙ ap (λ n. x % n) (sym c.wide)

    pub place-lt : (x : ℕ) → place m x < length m.entries
    place-lt x = let b = c.big in let s = c.sized in let e = place_mod x in omega arith

    pub probe-Stops : (key : Text) → Stops m key (probe key m)
    unfolding probe
    probe-Stops key = probe_from-Stops m.capacity 0 (place m (hash_str key)) key m

    -- Every slot lies on the probe sequence of every key.
    on_path : (idx p : ℕ) → p < m.capacity → (j : ℕ) × (j < m.capacity) × (place m (idx + j) ≡ p)
    on_path idx p h =
        let cap = m.capacity in
        let r = idx % cap in
        let b = c.big in
        let low : r < cap = omega arith in
        (
          (p + cap - r) % cap,
          omega arith,
          place_mod (idx + (p + cap - r) % cap) ∙ wraps idx p cap (omega arith) h,
        )

    -- With a slot to spare no probe runs out.
    pub room : m.count < m.capacity → (key : Text) → probe key m ≢ exhausted
    unfolding probe
    room few key out =
        let s = c.sized in
        let n = c.counted in
        let (p, fit, e) = spare m.entries (omega arith) in
        let (j, hj, at) = on_path (place m (hash_str key)) p (omega arith) in
        probe-exhausted m.capacity 0 (place m (hash_str key)) key m out j (omega arith)
          (omega arith) (ap (slot m) at ∙ e)

    -- What a slot in use holds is what a lookup gives.
    pub hash_get-slot :
        (p : ℕ) (key : Text) (v : V) → slot m p ≡ used key v → hash_get (some m) (some key) ≡ some v
    unfolding hash_get
    hash_get-slot p key v e = rw (c.homes p key v e, e, hash_get)

    -- What a lookup gives stands in a slot.
    pub slot-hash_get :
        (key : Text) (v : V)
        → hash_get (some m) (some key) ≡ some v
        → (p : ℕ) × (slot m p ≡ used key v)
    unfolding hash_get
    slot-hash_get key v h = by_probe (probe key m) refl (probe-Stops key)
      where
        by_probe : (r : Probe) → probe key m ≡ r → Stops m key r → (p : ℕ) × (slot m p ≡ used key v)
        by_probe (at_vacant p) e w =
            absurd (let g : hash_get (some m) (some key) ≡ none = rw (e, hash_get) in cc)
        by_probe exhausted e w =
            absurd (let g : hash_get (some m) (some key) ≡ none = rw (e, hash_get) in cc)
        by_probe (at_key p) e (u, f, x) =
            let g : hash_get (some m) (some key) ≡ some u = rw (e, f, hash_get) in
            let same : u ≡ v = cc in (p, f ∙ ap (used key) same)
