-- ===== src/Hashing/Set/Lookup.antt =====
-- The probes for a value, in a table with a free slot.
use native.Mathlib.Nat.{mod-lt}
use plant_lang.Prelude.{
  true_ne_false, ℕ, suc, ◌+◌, ◌≤◌, ◌<◌, ◌≡◌, ◌⊎◌, inl, inr, refl, sym, ap, ◌∙◌, subst, Bool, true,
  false, not, ◌||◌, List, [], ◌∷◌, some, ltb, ◌==◌, ==_iff, length, arith, Bool-cases, times,
  to_nat, ltb→lt, ltb→le,
}
use plant_lang.Hashing.Set.{tomb, seek, home, is_free_or, is_dead}
use plant_lang.Hashing.Set.Probing.{power-pos, home-lt, pos, pos-reaches, seek-Sought}
use plant_lang.Hashing.Set.Writing.{slot, In, Reach, IsTable, live-ne}

abbrev pub is_live : ℕ → Bool
is_live v = not (is_dead v)

abbrev pub is_mark : ℕ → Bool
is_mark v = v == tomb

pub HasFree : List ℕ → Type 0
HasFree slots = (j : ℕ) × (j < length slots) × (slot slots j ≡ 0)

pub counts-HasFree :
    (slots : List ℕ) → times is_live slots + times is_mark slots < length slots → HasFree slots
unfolding HasFree times
counts-HasFree [] h = absurd (omega arith)
counts-HasFree (v ∷ vs) h = elim (Bool-cases (v == 0)) [
  | inl y ↦ (0, omega arith, (==_iff v 0).0 y)
  | inr n ↦
      let used : 1 ≤ to_nat (is_live v) + to_nat (is_mark v) = one_of v n in
      let (j, l, e) = counts-HasFree vs (omega arith) in (suc j, omega arith, e)
]
  where
    one_of : (v : ℕ) → (v == 0) ≡ false → 1 ≤ to_nat (is_live v) + to_nat (is_mark v)
    one_of v n = elim (Bool-cases (v == tomb)) [
      | inl y ↦ rw (n, y) (omega arith)
      | inr m ↦ rw (n, m) (omega arith)
    ]

-- The end of the probe that looks for `v`.
pub record Lookup (v : ℕ) (slots : List ℕ) (cap : ℕ) : Type 0 where
  pub at : ℕ
  pub inside : at < cap
  pub found : seek (is_free_or v) cap (home v cap) cap slots ≡ some at
  pub tells : (slot slots at ≡ v) ⊎ ((slot slots at ≡ 0) × (In v slots → ⊥))

free_or-cases : (v x : ℕ) → is_free_or v x ≡ true → (x ≡ 0) ⊎ (x ≡ v)
free_or-cases v x h = elim (Bool-cases (x == 0)) [
  | inl y ↦ inl ((==_iff x 0).0 y)
  | inr n ↦ inr ((==_iff x v).0 (sym (ap (λ b. b || (x == v)) n) ∙ h))
]

some_injective : {a b : ℕ} → some a ≡ some b → a ≡ b
some_injective e = cc

is_free_or_self : (v : ℕ) → is_free_or v v ≡ true
is_free_or_self v = ground arith

pub table-Lookup :
    (v : ℕ) (slots : List ℕ) (cap : ℕ)
    → IsTable slots cap
    → is_dead v ≡ false
    → HasFree slots
    → Lookup v slots cap
unfolding HasFree
table-Lookup v slots cap t live (j, l, e) =
    let size = t.size in
    let start = home-lt v cap t.power in
    let (d, lt, at) = pos-reaches (home v cap) j cap start (omega arith) in
    let r =
      seek-Sought (is_free_or v) cap (home v cap) cap slots d t.power start lt
        (ap (is_free_or v) (ap (slot slots) at ∙ e)) in
    let i = pos (home v cap) r.after cap in
    record {
      at = i;
      inside = mod-lt (home v cap + r.after) (power-pos cap t.power);
      found = r.found;
      tells = elim (free_or-cases v (slot slots i) r.stops) [
        | inr same ↦ inl same
        | inl free ↦ inr (free, λ (k, m, w). missed i r.found free k (omega arith) w)
      ];
    }
  where
    missed :
        (i : ℕ)
        → seek (is_free_or v) cap (home v cap) cap slots ≡ some i
        → slot slots i ≡ 0
        → (k : ℕ) → k < cap
        → slot slots k ≡ v
        → ⊥
    missed i f free k m w =
        let (d, lt, at, passed) =
          subst (λ u. Reach slots cap k u) w (t.reach k m (ap is_dead w ∙ live)) in
        let r =
          seek-Sought (is_free_or v) cap (home v cap) cap slots d t.power (home-lt v cap t.power) lt
            (ap (is_free_or v) (ap (slot slots) at ∙ w) ∙ is_free_or_self v) in
        let same = some_injective (sym r.found ∙ f) in
        elim (Bool-cases (ltb r.after d)) [
          | inl early ↦ passed r.after (ltb→lt r.after d early) (ap (slot slots) same ∙ free)
          | inr late ↦
              let b = r.by in
              let n = ltb→le r.after d late in
              let last : d ≡ r.after = omega arith in
              (live-ne v live).0 (
                sym w
                ∙ ap (slot slots) (sym at ∙ ap (λ e. pos (home v cap) e cap) last ∙ same)
                ∙ free)
        ]

-- The end of a probe that looks for a slot to write `v` to.
pub record Vacancy (stop : ℕ → Bool) (v : ℕ) (slots : List ℕ) (cap : ℕ) : Type 0 where
  pub at : ℕ
  pub inside : at < cap
  pub found : seek stop cap (home v cap) cap slots ≡ some at
  pub stops : stop (slot slots at) ≡ true
  pub way : Reach slots cap at v

pub table-Vacancy :
    (stop : ℕ → Bool) (v : ℕ) (slots : List ℕ) (cap : ℕ)
    → IsTable slots cap
    → stop 0 ≡ true
    → HasFree slots
    → Vacancy stop v slots cap
unfolding HasFree
table-Vacancy stop v slots cap t zero_stops (j, l, e) =
    let size = t.size in
    let start = home-lt v cap t.power in
    let (d, lt, at) = pos-reaches (home v cap) j cap start (omega arith) in
    let r =
      seek-Sought stop cap (home v cap) cap slots d t.power start lt
        (ap stop (ap (slot slots) at ∙ e) ∙ zero_stops) in
    record {
      at = pos (home v cap) r.after cap;
      inside = mod-lt (home v cap + r.after) (power-pos cap t.power);
      found = r.found;
      stops = r.stops;
      way = (
        r.after,
        let b = r.by in omega arith,
        refl,
        λ e l z. true_ne_false (sym zero_stops ∙ ap stop (sym z) ∙ r.passed e l),
      );
    }
