-- ===== src/Hashing/Set/Probing.antt =====
-- Where a probe loop of the set stops.
use native.Mathlib.Nat.{mod-lt, mod-eq_of_lt, mod-add-mod, add-mod_right, one-le-pow}
use plant_lang.Prelude.{
  true_ne_false, ℕ, zero, suc, ◌+◌, ◌-◌, ◌%◌, ◌^◌, ◌≤◌, ◌<◌, ◌≡◌, inl, inr, sym, ap, ◌∙◌, subst,
  Bool, true, false, List, some, ltb, if◌then◌else◌, get_or, bit_and, bit_and_mask, arith,
  Bool-cases, ltb→lt, ltb→le,
}
use plant_lang.Hashing.Set.{set_hash, seek, home}

-- The capacity is a power of two.
abbrev pub IsPower : ℕ → Type 0
IsPower cap = (k : ℕ) × (cap ≡ 2 ^ k)

pub power-pos : (cap : ℕ) → IsPower cap → 0 < cap
power-pos cap (k, e) = let p = one-le-pow k 2 in omega arith

pub bit_and-power : (cap x : ℕ) → IsPower cap → bit_and x (cap - 1) ≡ x % cap
bit_and-power cap x (k, e) =
    ap (λ c. bit_and x (c - 1)) e ∙ bit_and_mask k x ∙ ap (λ c. x % c) (sym e)

pub home-lt : (v cap : ℕ) → IsPower cap → home v cap < cap
home-lt v cap p =
    subst (λ x. x < cap) (sym (bit_and-power cap (set_hash v) p))
      (mod-lt (set_hash v) (power-pos cap p))

-- the slot that a probe reads after `d` rounds
abbrev pub pos : ℕ → ℕ → ℕ → ℕ
pos idx d cap = (idx + d) % cap

pub pos-start : (idx cap : ℕ) → idx < cap → pos idx 0 cap ≡ idx
pos-start idx cap h = ap (λ n. n % cap) (let e : idx + 0 ≡ idx = omega arith in e) ∙ mod-eq_of_lt h

pub pos-later : (idx d cap : ℕ) → pos ((idx + 1) % cap) d cap ≡ pos idx (suc d) cap
pos-later idx d cap =
    mod-add-mod (idx + 1) cap d
    ∙ ap (λ n. n % cap) (let e : idx + 1 + d ≡ idx + suc d = omega arith in e)

-- every slot is on the way
pub pos-reaches : (idx j cap : ℕ) → idx < cap → j < cap → (d : ℕ) × (d < cap) × (pos idx d cap ≡ j)
pos-reaches idx j cap h l = elim (Bool-cases (ltb j idx)) [
  | inr ahead ↦
      let a = ltb→le j idx ahead in
      (
        j - idx,
        omega arith,
        ap (λ n. n % cap) (let e : idx + (j - idx) ≡ j = omega arith in e) ∙ mod-eq_of_lt l,
      )
  | inl behind ↦
      let b = ltb→lt j idx behind in
      (
        j + cap - idx,
        omega arith,
        ap (λ n. n % cap) (let e : idx + (j + cap - idx) ≡ j + cap = omega arith in e)
            ∙ add-mod_right j cap
            ∙ mod-eq_of_lt l,
      )
]

-- A loop that meets a value which stops it after `d` rounds stops there or before.
pub record Sought (stop : ℕ → Bool) (rounds idx cap : ℕ) (slots : List ℕ) (d : ℕ) : Type 0 where
  pub after : ℕ
  pub by : after ≤ d
  pub found : seek stop rounds idx cap slots ≡ some (pos idx after cap)
  pub stops : stop (get_or slots (pos idx after cap) 0) ≡ true
  pub passed : (e : ℕ) → e < after → stop (get_or slots (pos idx e cap) 0) ≡ false

pub seek-Sought :
    (stop : ℕ → Bool) (rounds idx cap : ℕ) (slots : List ℕ) (d : ℕ)
    → IsPower cap
    → idx < cap
    → d < rounds
    → stop (get_or slots (pos idx d cap) 0) ≡ true
    → Sought stop rounds idx cap slots d
unfolding seek
seek-Sought stop zero idx cap slots d p h l s = absurd (omega arith)
seek-Sought stop (suc rounds) idx cap slots d p h l s =
    elim (Bool-cases (stop (get_or slots idx 0))) [
      | inl now ↦ record {
        after = 0;
        by = omega arith;
        found =
            ap
              (λ b.
                if b then some idx else seek stop rounds (bit_and (idx + 1) (cap - 1)) cap slots)
              now
            ∙ ap some (sym (pos-start idx cap h));
        stops = ap (λ i. stop (get_or slots i 0)) (pos-start idx cap h) ∙ now;
        passed = λ e k. absurd (omega arith);
      }
      | inr later ↦
          go
            (λ d k t.
              seek-Sought stop rounds ((idx + 1) % cap) cap slots d p
                (mod-lt (idx + 1) (power-pos cap p)) k t)
            d l s later
    ]
  where
    next : bit_and (idx + 1) (cap - 1) ≡ (idx + 1) % cap
    next = bit_and-power cap (idx + 1) p

    go :
        ((d : ℕ)
          → d < rounds
          → stop (get_or slots (pos ((idx + 1) % cap) d cap) 0) ≡ true
          → Sought stop rounds ((idx + 1) % cap) cap slots d)
        → (d : ℕ) → d < suc rounds
        → stop (get_or slots (pos idx d cap) 0) ≡ true
        → stop (get_or slots idx 0) ≡ false
        → Sought stop (suc rounds) idx cap slots d
    go rec zero l s later =
        absurd
          (true_ne_false (sym s ∙ ap (λ i. stop (get_or slots i 0)) (pos-start idx cap h) ∙ later))
    go rec (suc d) l s later =
        let r = rec d (omega arith) (ap (λ i. stop (get_or slots i 0)) (pos-later idx d cap) ∙ s) in
        record {
          after = suc r.after;
          by = let b = r.by in omega arith;
          found =
              ap
                (λ b.
                  if b then some idx else seek stop rounds (bit_and (idx + 1) (cap - 1)) cap slots)
                later
              ∙ ap (λ i. seek stop rounds i cap slots) next
              ∙ r.found
              ∙ ap some (pos-later idx r.after cap);
          stops = ap (λ i. stop (get_or slots i 0)) (sym (pos-later idx r.after cap)) ∙ r.stops;
          passed = passes r.after r.passed later;
        }
      where
        passes :
            (n : ℕ)
            → ((e : ℕ) → e < n → stop (get_or slots (pos ((idx + 1) % cap) e cap) 0) ≡ false)
            → stop (get_or slots idx 0) ≡ false
            → (e : ℕ) → e < suc n
            → stop (get_or slots (pos idx e cap) 0) ≡ false
        passes n f first zero k = ap (λ i. stop (get_or slots i 0)) (pos-start idx cap h) ∙ first
        passes n f first (suc e) k =
            ap (λ i. stop (get_or slots i 0)) (sym (pos-later idx e cap)) ∙ f e (omega arith)
