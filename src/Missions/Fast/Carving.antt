-- ===== src/Missions/Fast/Carving.antt =====
-- The blocks that the bump heap hands out.
use plant_lang.Prelude.{
  map, ◌⊎◌, Option, none, some, zero, suc, take, append-nil, length-map, take_append_left, ltb→lt,
  ltb→le, leb→lt, ℕ, ◌+◌, ◌-◌, ◌*◌, ◌/◌, ◌≤◌, ◌<◌, ◌≡◌, refl, sym, ap, ◌∙◌, subst, true, ◌&&◌, List,
  [], ◌∷◌, ◌++◌, ltb, leb, if◌then◌else◌, length, arith, Bool-cases, inl, inr, length-append,
}
use native.Mathlib.Nat.{div-add-mod', mod-lt}
use mathlib.Core.List.{map-append}
use plant_lang.Missions.Fast.{
  Escape, free_escaped, FastHeap, FastConfig, base_cap, or_else, fast_init, smaller, fast_grow,
  Block, bump, escape, no_block, round_up, fast_escape, fast_carve, grow_if_short, fast_alloc_raw,
}

n-le-round_up : (n a : ℕ) → 0 < a → n ≤ round_up n a
n-le-round_up n a h =
    let d = div-add-mod' (n + a - 1) a in let m = mod-lt (n + a - 1) h in omega arith

-- the addresses and the bytes of escaped blocks
abbrev pub addresses : List Escape → List ℕ
addresses = map (λ e. e.0)

unfoldable pub sum : List Escape → ℕ
sum [] = 0
sum ((p, s) ∷ es) = s + sum es

sum-append : (xs ys : List Escape) → sum (xs ++ ys) ≡ sum xs + sum ys
unfolding sum
sum-append [] ys = omega arith
sum-append ((p, s) ∷ xs) ys = omega (arith, sum-append xs ys)

pub free_escaped-sum : (b : ℕ) (es : List Escape) → free_escaped (b + sum es) es ≡ (addresses es, b)
unfolding free_escaped sum
free_escaped-sum b [] = ap (λ t. ([], t)) (omega arith)
free_escaped-sum b ((p, s) ∷ es) =
    ap (λ r. (p ∷ r.0, r.1)) (ap (λ t. free_escaped t es) (omega arith) ∙ free_escaped-sum b es)

-- The bump pointer stands at a multiple of the alignment, inside the heap, and the escaped blocks are
-- accounted for.
pub record IsFit (h : FastHeap) : Type 0 where
  pub aligned : (k : ℕ) × (h.used ≡ k * h.alignment)
  pub strict : 0 < h.alignment
  pub inside : h.used ≤ h.size
  pub below_peak : h.used ≤ h.peak
  pub bytes : h.escaped_bytes ≡ sum h.escaped
  pub few : length h.escaped ≤ 256

-- What a call leaves as it is, for a heap that is set up. The heap moves to where `realloc` put it.
abbrev pub Kept : Option ℕ → FastHeap → FastHeap → Type 0
Kept grown h h' =
    (h'.used ≡ h.used)
    × (h'.alignment ≡ h.alignment)
    × (h'.inited ≡ h.inited)
    × ((h'.base ≡ h.base) ⊎ (grown ≡ some h'.base))
    × (h'.escaped ≡ h.escaped)

fast_grow-Kept :
    (grown : Option ℕ) (h : FastHeap)
    → IsFit h
    → IsFit (fast_grow grown h) × Kept grown h (fast_grow grown h)
unfolding fast_grow
fast_grow-Kept none h f = elim (Bool-cases (leb (smaller (h.size * 2) h.limit) h.size)) [
  | inl stay ↦ rw (fast_grow, stay) (f, (refl, refl, refl, inl refl, refl))
  | inr go ↦ rw (fast_grow, go) (f, (refl, refl, refl, inl refl, refl))
]
fast_grow-Kept (some nb) h f = elim (Bool-cases (leb (smaller (h.size * 2) h.limit) h.size)) [
  | inl stay ↦ rw (fast_grow, stay) (f, (refl, refl, refl, inl refl, refl))
  | inr go ↦
      let more = leb→lt (smaller (h.size * 2) h.limit) h.size go in
      rw (fast_grow, go)
        (
          record {
            aligned = f.aligned;
            strict = f.strict;
            inside = let i = f.inside in omega arith;
            below_peak = f.below_peak;
            bytes = f.bytes;
            few = f.few;
          },
          (refl, refl, refl, inr refl, refl),
        )
]

grow-IsFit :
    (grown : Option ℕ) (need : ℕ) (h : FastHeap)
    → IsFit h
    → IsFit (grow_if_short grown need h) × Kept grown h (grow_if_short grown need h)
unfolding grow_if_short
grow-IsFit grown need h f = elim (Bool-cases (ltb h.size (h.used + need) && ltb h.size h.limit)) [
  | inr enough ↦ rw (grow_if_short, enough) (f, (refl, refl, refl, inl refl, refl))
  | inl short ↦ rw (grow_if_short, short) (fast_grow-Kept grown h f)
]

-- How a block of `n` bytes relates to the heap before and behind its allocation.
abbrev pub Fits : ℕ → Block → FastHeap → FastHeap → Type 0
Fits n (bump b o) h h' =
    (b ≡ h'.base) × (o ≡ h.used) × ((k : ℕ) × (o ≡ k * h.alignment)) × (o + n ≤ h'.used)
Fits n (escape p) h h' = h'.used ≡ h.used
Fits n no_block h h' = h'.used ≡ h.used

-- the address of a block from `malloc`
abbrev pub escape_of : Block → List ℕ
escape_of (bump b o) = []
escape_of (escape p) = p ∷ []
escape_of no_block = []

pub record Carves (n : ℕ) (h : FastHeap) (r : Block × FastHeap) : Type 0 where
  pub fit : IsFit r.1
  pub fits : Fits n r.0 h r.1
  pub grows : h.used ≤ r.1.used
  pub same : (r.1.alignment ≡ h.alignment) × (r.1.inited ≡ h.inited)
  pub stays : r.1.base ≡ h.base
  pub recorded : addresses r.1.escaped ≡ take 256 (addresses h.escaped ++ escape_of r.0)

take-few : (n : ℕ) (xs : List ℕ) → length xs ≤ n → take n xs ≡ xs
take-few zero [] h = refl
take-few zero (x ∷ xs) h = absurd (omega arith)
take-few (suc n) [] h = refl
take-few (suc n) (x ∷ xs) h = ap (λ r. x ∷ r) (take-few n xs (omega arith))

pub recorded_none :
    (h : FastHeap)
    → length h.escaped ≤ 256
    → addresses h.escaped ≡ take 256 (addresses h.escaped ++ [])
recorded_none h few =
    let len = length-map (λ (e : Escape). e.0) h.escaped in
    sym (
      ap (take 256) (append-nil (addresses h.escaped))
      ∙ take-few 256 (addresses h.escaped) (omega arith))

escape-Carves :
    (memory : Option ℕ) (n need : ℕ) (h : FastHeap)
    → IsFit h
    → Carves n h (fast_escape memory need h)
unfolding fast_escape
escape-Carves none n need h f = record {
  fit = record {
    aligned = f.aligned;
    strict = f.strict;
    inside = f.inside;
    below_peak = f.below_peak;
    bytes = f.bytes;
    few = f.few;
  };
  fits = refl;
  grows = omega arith;
  same = (refl, refl);
  stays = refl;
  recorded = recorded_none h f.few;
}
escape-Carves (some p) n need h f = elim (Bool-cases (ltb (length h.escaped) 256)) [
  | inl room ↦
      let few_before = ltb→lt (length h.escaped) 256 room in
      let longer = length-append h.escaped ((p, need) ∷ []) in
      let len = length-map (λ (e : Escape). e.0) h.escaped in
      let len' = length-append (addresses h.escaped) (p ∷ []) in
      rw (fast_escape, room)
        (record {
          fit = record {
            aligned = f.aligned;
            strict = f.strict;
            inside = f.inside;
            below_peak = f.below_peak;
            bytes =
                let a = sum-append h.escaped ((p, need) ∷ []) in
                let b = f.bytes in let c = one in omega arith;
            few = omega arith;
          };
          fits = refl;
          grows = omega arith;
          same = (refl, refl);
          stays = refl;
          recorded =
              map-append (λ (e : Escape). e.0) h.escaped ((p, need) ∷ [])
              ∙ sym (take-few 256 (addresses h.escaped ++ p ∷ []) (omega arith));
        })
  | inr full ↦
      let at_bound = ltb→le (length h.escaped) 256 full in
      let few_before = f.few in
      let len = length-map (λ (e : Escape). e.0) h.escaped in
      rw (fast_escape, full)
        (record {
          fit = record {
            aligned = f.aligned;
            strict = f.strict;
            inside = f.inside;
            below_peak = f.below_peak;
            bytes = f.bytes;
            few = f.few;
          };
          fits = refl;
          grows = omega arith;
          same = (refl, refl);
          stays = refl;
          recorded = sym (
              take_append_left 256 (addresses h.escaped) (p ∷ []) (omega arith)
              ∙ take-few 256 (addresses h.escaped) (omega arith));
        })
]
  where
    one : sum ((p, need) ∷ []) ≡ need
    one = unfold sum in omega arith

carve-Carves :
    (memory : Option ℕ) (n : ℕ) (h : FastHeap)
    → IsFit h
    → Carves n h (fast_carve memory (round_up n h.alignment) h)
unfolding fast_carve
carve-Carves memory n h f = elim (Bool-cases (leb (h.used + round_up n h.alignment) h.size)) [
  | inr full ↦ rw (fast_carve, full) (escape-Carves memory n (round_up n h.alignment) h f)
  | inl room ↦
      let le = n-le-round_up n h.alignment f.strict in
      let (k, e) = f.aligned in
      rw (fast_carve, room)
        (record {
          fit = record {
            aligned = ((n + h.alignment - 1) / h.alignment + k, grind arith);
            strict = f.strict;
            inside = ground arith;
            below_peak = ground arith;
            bytes = f.bytes;
            few = f.few;
          };
          fits = (refl, refl, (k, e), omega arith);
          grows = omega arith;
          same = (refl, refl);
          stays = refl;
          recorded = recorded_none h f.few;
        })
]

pub init_on : (cfg : FastConfig) (h : FastHeap) → h.inited ≡ true → fast_init cfg h ≡ h
unfolding fast_init
init_on cfg h on =
    ap
      (λ b. if b then h else record h {
        base = cfg.first;
        size = base_cap cfg;
        limit = or_else cfg.limit (64 * 1024 * 1024);
        alignment = or_else cfg.align 8;
        inited = true;
      })
      on

-- A request, which may move the heap.
pub record Serves (grown : Option ℕ) (n : ℕ) (h : FastHeap) (r : Block × FastHeap) : Type 0 where
  pub fit : IsFit r.1
  pub fits : Fits n r.0 h r.1
  pub grows : h.used ≤ r.1.used
  pub same : (r.1.alignment ≡ h.alignment) × (r.1.inited ≡ h.inited)
  pub based : (r.1.base ≡ h.base) ⊎ (grown ≡ some r.1.base)
  pub recorded : addresses r.1.escaped ≡ take 256 (addresses h.escaped ++ escape_of r.0)

pub alloc-Serves :
    (cfg : FastConfig) (grown memory : Option ℕ) (n : ℕ) (h : FastHeap)
    → h.inited ≡ true
    → IsFit h
    → Serves grown n h (fast_alloc_raw cfg grown memory n h)
unfolding fast_alloc_raw
alloc-Serves cfg grown memory n h on f =
    let (g, kept) = grow-IsFit grown (round_up n h.alignment) h f in
    let h1 = grow_if_short grown (round_up n h.alignment) h in
    let c = carve-Carves memory n h1 g in
    let c' : Carves n h1 (fast_carve memory (round_up n h.alignment) h1) =
      subst (λ a. Carves n h1 (fast_carve memory (round_up n a) h1)) kept.1 c in
    subst
      (λ t. Serves grown n h (
        fast_carve memory (round_up n t.alignment)
          (grow_if_short grown (round_up n t.alignment) t)))
      (sym (init_on cfg h on)) (moved h1 (fast_carve memory (round_up n h.alignment) h1) kept c')
  where
    same_fit :
        (h1 : FastHeap) (b : Block) (h2 : FastHeap)
        → h1.used ≡ h.used
        → h1.alignment ≡ h.alignment
        → Fits n b h1 h2
        → Fits n b h h2
    same_fit h1 (bump b o) h2 u a (at, e, (k, ek), le) =
        (at, e ∙ u, (k, ek ∙ ap (λ t. k * t) a), le)
    same_fit h1 (escape p) h2 u a e = e ∙ u
    same_fit h1 no_block h2 u a e = e ∙ u

    moved :
        (h1 : FastHeap) (r : Block × FastHeap)
        → Kept grown h h1
        → Carves n h1 r
        → Serves grown n h r
    moved h1 (b, h2) (u, a, i, p, e) c = record {
      fit = c.fit;
      fits = same_fit h1 b h2 u a c.fits;
      grows = let g = c.grows in omega arith;
      same = (c.same.0 ∙ a, c.same.1 ∙ i);
      based = elim p [ inl s ↦ inl (c.stays ∙ s) | inr s ↦ inr (s ∙ ap some (sym c.stays)) ];
      recorded = c.recorded ∙ ap (λ l. take 256 (addresses l ++ escape_of b)) e;
    }
