-- ===== src/Hashing/Map/Probing.antt =====
-- The probe sequence: where a probe stops, and what a write does to the probes of other keys.
use plant_lang.Prelude.{
  if◌then◌else◌, none, ◌==◌, ==_iff, str_eq_refl, get_or-set_self, arith, ◌<◌, ◌≤◌, get_or-set_ne,
  ◌≢◌, sym, ℕ, zero, suc, ◌+◌, ◌-◌, ◌≡◌, refl, ap, ◌∙◌, List, get_or, bit_and, Text, str_eq,
  str_eq_iff, Bool-cases, ◌⊎◌, inl, inr,
}
use plant_lang.Hashing.Map.{
  some, Bool, Option, length, false, key_at, true, set, Slot, vacant, used, PlantMap, Probe,
  at_vacant, at_key, exhausted, probe_from,
}

-- The map with another slot array.
abbrev pub with_entries {ℓ} : {V : Type ℓ} → PlantMap V → List (Slot V) → PlantMap V
with_entries m e = record m { entries = e }

module _ {ℓ} {V : Type ℓ} where
  abbrev pub slot : PlantMap V → ℕ → Slot V
  slot m p = get_or m.entries p vacant

  abbrev pub place : PlantMap V → ℕ → ℕ
  place m x = bit_and x (m.capacity - 1)

  -- What the end of a probe says of the slot that it stops at.
  abbrev pub Stops : PlantMap V → Text → Probe → Type ℓ
  Stops m key (at_vacant p) = (slot m p ≡ vacant) × ((x : ℕ) × (p ≡ place m x))
  Stops m key (at_key p) = (v : V) × (slot m p ≡ used key v) × ((x : ℕ) × (p ≡ place m x))
  Stops m key exhausted = Unit

  Slot-cases : (s : Slot V) → (s ≡ vacant) ⊎ ((k : Text) × (v : V) × (s ≡ used k v))
  Slot-cases vacant = inl refl
  Slot-cases (used k v) = inr (k, v, refl)

  pub probe_from-Stops :
      (n i idx : ℕ) (key : Text) (m : PlantMap V) → Stops m key (probe_from n i idx key m)
  unfolding probe_from
  probe_from-Stops zero i idx key m = tt
  probe_from-Stops (suc n) i idx key m =
      let rest = probe_from-Stops n (i + 1) idx key m in
      elim (Slot-cases (slot m (place m (idx + i)))) [
        | inl e ↦ rw (e, probe_from) (e, (idx + i, refl))
        | inr (k, v, e) ↦ elim (Bool-cases (str_eq k key)) [
          | inl same ↦
              let q = (str_eq_iff k key).0 same in
              rw (e, same, probe_from) (v, e ∙ ap (λ t. used t v) q, (idx + i, refl))
          | inr other ↦ rw (e, other, probe_from) rest
        ]
      ]

  -- One round of a probe, by what it sees.
  module _ (n i idx : ℕ) (key : Text) (m : PlantMap V) where
    abbrev here : ℕ
    here = place m (idx + i)

    round_vacant : slot m here ≡ vacant → probe_from (suc n) i idx key m ≡ at_vacant here
    unfolding probe_from
    round_vacant e = rw (e, probe_from)

    round_same :
        (k : Text) (v : V)
        → slot m here ≡ used k v
        → str_eq k key ≡ true
        → probe_from (suc n) i idx key m ≡ at_key here
    unfolding probe_from
    round_same k v e same = rw (e, same, probe_from)

    round_other :
        (k : Text) (v : V)
        → slot m here ≡ used k v
        → str_eq k key ≡ false
        → probe_from (suc n) i idx key m ≡ probe_from n (i + 1) idx key m
    unfolding probe_from
    round_other k v e other = rw (e, other, probe_from)

  -- Writing to an empty slot leaves a probe that found its key alone.
  pub probe-fill_key :
      (n i idx : ℕ) (key : Text) (m : PlantMap V) (p q : ℕ) (s : Slot V)
      → slot m p ≡ vacant
      → probe_from n i idx key m ≡ at_key q
      → probe_from n i idx key (with_entries m (set m.entries p s)) ≡ at_key q
  probe-fill_key zero i idx key m p q s empty h = unfold probe_from in h
  probe-fill_key (suc n) i idx key m p q s empty h =
      let x = place m (idx + i) in
      let m' = with_entries m (set m.entries p s) in
      let rest = probe-fill_key n (i + 1) idx key m p q s empty in
      elim (Slot-cases (slot m x)) [
        | inl e ↦ let w = round_vacant n i idx key m e in cc
        | inr (k, v, e) ↦
            let apart : p ≢ x = λ pe. cc (empty, e, ap (slot m) pe) in
            let e' : slot m' x ≡ used k v = get_or-set_ne m.entries p x s vacant apart ∙ e in
            elim (Bool-cases (str_eq k key)) [
              | inl same ↦
                  round_same n i idx key m' k v e' same
                  ∙ sym (round_same n i idx key m k v e same)
                  ∙ h
              | inr other ↦
                  round_other n i idx key m' k v e' other
                  ∙ rest (sym (round_other n i idx key m k v e other) ∙ h)
            ]
      ]

  -- A key written to the empty slot where its probe stopped is found there.
  pub probe-fill_vacant :
      (n i idx : ℕ) (key : Text) (m : PlantMap V) (p : ℕ) (v : V)
      → slot m p ≡ vacant
      → p < length m.entries
      → probe_from n i idx key m ≡ at_vacant p
      → probe_from n i idx key (with_entries m (set m.entries p (used key v))) ≡ at_key p
  probe-fill_vacant zero i idx key m p v empty fit h = unfold probe_from in cc
  probe-fill_vacant (suc n) i idx key m p v empty fit h =
      let x = place m (idx + i) in
      let m' = with_entries m (set m.entries p (used key v)) in
      let rest = probe-fill_vacant n (i + 1) idx key m p v empty fit in
      elim (Slot-cases (slot m x)) [
        | inl e ↦
            let at : x ≡ p = vacant_injective (sym (round_vacant n i idx key m e) ∙ h) in
            let e' : slot m' x ≡ used key v =
              ap (slot m') at ∙ get_or-set_self m.entries p (used key v) vacant fit in
            round_same n i idx key m' key v e' (str_eq_refl key) ∙ ap at_key at
        | inr (k, w, e) ↦
            let apart : p ≢ x = λ pe. cc (empty, e, ap (slot m) pe) in
            let e' : slot m' x ≡ used k w =
              get_or-set_ne m.entries p x (used key v) vacant apart ∙ e in
            elim (Bool-cases (str_eq k key)) [
              | inl same ↦ let w' = round_same n i idx key m k w e same in cc
              | inr other ↦
                  round_other n i idx key m' k w e' other
                  ∙ rest (sym (round_other n i idx key m k w e other) ∙ h)
            ]
      ]
    where
      vacant_injective : {a b : ℕ} → at_vacant a ≡ at_vacant b → a ≡ b
      vacant_injective e = cc

  -- A probe reads only which keys stand where.
  pub probe-congr :
      (n i idx : ℕ) (key : Text) (m : PlantMap V) (e : List (Slot V)) (c : ℕ)
      → ((x : ℕ) → key_at key (get_or e x vacant) ≡ key_at key (slot m x))
      → probe_from n i idx key (record m { entries = e; count = c }) ≡ probe_from n i idx key m
  unfolding probe_from
  probe-congr zero i idx key m e c h = refl
  probe-congr (suc n) i idx key m e c h =
      let rest = probe-congr n (i + 1) idx key m e c h in
      round _ (key_at key (get_or e (place m (idx + i)) vacant)) _ _ (h (place m (idx + i))) rest
    where
      round :
          (b : Option Bool) (a : Option Bool) (r r' : Probe)
          → a ≡ b
          → r ≡ r'
          → elim a [
            | none ↦ at_vacant (place m (idx + i))
            | some same ↦ if same then at_key (place m (idx + i)) else r
          ]
            ≡ elim b [
              | none ↦ at_vacant (place m (idx + i))
              | some same ↦ if same then at_key (place m (idx + i)) else r'
            ]
      round none a r r' p q = rw (p)
      round (some true) a r r' p q = rw (p)
      round (some false) a r r' p q = rw (p) q

  -- A probe that runs through all its rounds has seen only slots in use.
  pub probe-exhausted :
      (n i idx : ℕ) (key : Text) (m : PlantMap V)
      → probe_from n i idx key m ≡ exhausted
      → (j : ℕ) → i ≤ j
      → j < i + n
      → slot m (place m (idx + j)) ≢ vacant
  probe-exhausted zero i idx key m h j lo hi e = absurd (omega arith)
  probe-exhausted (suc n) i idx key m h j lo hi e =
      let rest = probe-exhausted n (i + 1) idx key m in
      elim (Slot-cases (slot m (place m (idx + i)))) [
        | inl e' ↦ let w = round_vacant n i idx key m e' in cc
        | inr (k, v, e') ↦ elim (Bool-cases (str_eq k key)) [
          | inl same ↦ let w = round_same n i idx key m k v e' same in cc
          | inr other ↦ elim (Bool-cases (i == j)) [
            | inl at ↦
                let q = (==_iff i j).0 at in cc (e, e', ap (λ t. slot m (place m (idx + t))) q)
            | inr past ↦
                rest (sym (round_other n i idx key m k v e' other) ∙ h) j (ground arith)
                  (omega arith) e
          ]
        ]
      ]
