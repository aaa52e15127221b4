-- ===== src/Missions/Fast/Runs.antt =====
-- Runs of requests to the bump heap, and what a reset gives back.
use plant_lang.Prelude.{
  Option, none, some, ◌⊎◌, ◌≢◌, ◌++◌, take, append_assoc, ◌==◌, ==_iff, zero, ℕ, suc, ◌+◌, ◌*◌, ◌/◌,
  ◌≤◌, ◌<◌, ◌≡◌, refl, sym, ap, ◌∙◌, subst, true, false, ◌&&◌, List, [], ◌∷◌, ltb, leb, length,
  arith, Bool-cases, inl, inr,
}
use plant_lang.Missions.Fast.{
  free_escaped, fast_halve, FastHeap, FastConfig, base_cap, fast_init, Block, bump, escape,
  no_block, raise_peak, fast_alloc_raw, fast_shrink, fast_reset,
}
use plant_lang.Missions.Fast.Carving.{
  recorded_none, sum, addresses, free_escaped-sum, escape_of, IsFit, Fits, init_on, Serves,
  alloc-Serves,
}

-- A request of `n` bytes, with what `realloc` and `malloc` give.
pub record Request : Type 0 where
  pub bytes : ℕ
  pub grown : Option ℕ
  pub memory : Option ℕ

-- the blocks of a run of requests, with their lengths
unfoldable pub fast_run : FastConfig → List Request → FastHeap → List (Block × ℕ) × FastHeap
unfolding fast_alloc_raw
fast_run cfg [] h = ([], h)
fast_run cfg (r ∷ rs) h =
    let (b, h1) = fast_alloc_raw cfg r.grown r.memory r.bytes h in
    let (bs, h2) = fast_run cfg rs h1 in ((b, r.bytes) ∷ bs, h2)

-- The bump blocks lie one behind the other, at offsets between `lo` and `hi`, and start at multiples
-- of `a`.
unfoldable pub Carved : ℕ → ℕ → List (Block × ℕ) → ℕ → Type 0
Carved a lo [] hi = lo ≤ hi
Carved a lo ((bump b o, n) ∷ bs) hi = (lo ≤ o) × ((k : ℕ) × (o ≡ k * a)) × Carved a (o + n) bs hi
Carved a lo ((escape p, n) ∷ bs) hi = Carved a lo bs hi
Carved a lo ((no_block, n) ∷ bs) hi = Carved a lo bs hi

-- All the bump blocks are in the heap with this base.
unfoldable pub AllAt : ℕ → List (Block × ℕ) → Type 0
AllAt base [] = Unit
AllAt base ((bump b o, n) ∷ bs) = (b ≡ base) × AllAt base bs
AllAt base ((escape p, n) ∷ bs) = AllAt base bs
AllAt base ((no_block, n) ∷ bs) = AllAt base bs

-- One of the requests moves the heap from this base.
unfoldable pub Moves : ℕ → List Request → Type 0
Moves base [] = ⊥
Moves base (r ∷ rs) = ((b : ℕ) × (r.grown ≡ some b) × (b ≢ base)) ⊎ Moves base rs

-- the addresses that the run got from `malloc`
unfoldable pub escapes : List (Block × ℕ) → List ℕ
escapes [] = []
escapes ((b, n) ∷ bs) = escape_of b ++ escapes bs

Carved-mono :
    (a lo lo' hi : ℕ) (bs : List (Block × ℕ)) → lo ≤ lo' → Carved a lo' bs hi → Carved a lo bs hi
unfolding Carved
Carved-mono a lo lo' hi [] le c = omega arith
Carved-mono a lo lo' hi ((bump b o, n) ∷ bs) le (d, m, c) = (omega arith, m, c)
Carved-mono a lo lo' hi ((escape p, n) ∷ bs) le c = Carved-mono a lo lo' hi bs le c
Carved-mono a lo lo' hi ((no_block, n) ∷ bs) le c = Carved-mono a lo lo' hi bs le c

take-take_append : (n : ℕ) (xs ys : List ℕ) → take n (take n xs ++ ys) ≡ take n (xs ++ ys)
take-take_append zero xs ys = refl
take-take_append (suc n) [] ys = refl
take-take_append (suc n) (x ∷ xs) ys = ap (λ r. x ∷ r) (take-take_append n xs ys)

-- A run of requests.
pub record Runs (rs : List Request) (h : FastHeap) (r : List (Block × ℕ) × FastHeap) : Type 0 where
  pub carved : Carved h.alignment h.used r.0 r.1.used
  pub fit : IsFit r.1
  pub on : r.1.inited ≡ true
  pub placed : ((r.1.base ≡ h.base) × AllAt h.base r.0) ⊎ Moves h.base rs
  pub recorded : addresses r.1.escaped ≡ take 256 (addresses h.escaped ++ escapes r.0)

link-Carved :
    (n : ℕ) (h : FastHeap) (b : Block) (h1 : FastHeap) (bs : List (Block × ℕ)) (hi : ℕ)
    → Fits n b h h1
    → h.used ≤ h1.used
    → Carved h.alignment h1.used bs hi
    → Carved h.alignment h.used ((b, n) ∷ bs) hi
unfolding Carved
link-Carved n h (bump b o) h1 bs hi (p, e, m, le) g c =
    (omega arith, m, Carved-mono h.alignment (o + n) h1.used hi bs le c)
link-Carved n h (escape p) h1 bs hi e g c = Carved-mono h.alignment h.used h1.used hi bs g c
link-Carved n h no_block h1 bs hi e g c = Carved-mono h.alignment h.used h1.used hi bs g c

link-AllAt :
    (n base : ℕ) (h : FastHeap) (b : Block) (h1 : FastHeap) (bs : List (Block × ℕ))
    → Fits n b h h1
    → h1.base ≡ base
    → AllAt base bs
    → AllAt base ((b, n) ∷ bs)
unfolding AllAt
link-AllAt n base h (bump b o) h1 bs (p, e, m, l) s all = (p ∙ s, all)
link-AllAt n base h (escape p) h1 bs e s all = all
link-AllAt n base h no_block h1 bs e s all = all

-- what a request and the ones behind it tell of the base
link_placed :
    (r : Request) (rs : List Request) (h : FastHeap) (b : Block) (h1 : FastHeap)
    (rest : List (Block × ℕ) × FastHeap)
    → Serves r.grown r.bytes h (b, h1)
    → ((rest.1.base ≡ h1.base) × AllAt h1.base rest.0) ⊎ Moves h1.base rs
    → ((rest.1.base ≡ h.base) × AllAt h.base ((b, r.bytes) ∷ rest.0)) ⊎ Moves h.base (r ∷ rs)
unfolding Moves
link_placed r rs h b h1 rest c p = elim c.based [
  | inl same ↦ stays same
  | inr there ↦ elim (Bool-cases (h1.base == h.base)) [
    | inl y ↦ stays ((==_iff h1.base h.base).0 y)
    | inr other ↦ inr (inl (h1.base, there, λ e. not_both other e))
  ]
]
  where
    not_both : (h1.base == h.base) ≡ false → h1.base ≡ h.base → ⊥
    not_both other e = ground arith

    stays :
        h1.base ≡ h.base
        → ((rest.1.base ≡ h.base) × AllAt h.base ((b, r.bytes) ∷ rest.0)) ⊎ Moves h.base (r ∷ rs)
    stays same = elim p [
      | inl (end, all) ↦ inl (
        end ∙ same,
        link-AllAt r.bytes h.base h b h1 rest.0 c.fits same (subst (λ t. AllAt t rest.0) same all),
      )
      | inr later ↦ inr (inr (subst (λ t. Moves t rs) same later))
    ]

run-Runs :
    (cfg : FastConfig) (rs : List Request) (h : FastHeap)
    → h.inited ≡ true
    → IsFit h
    → Runs rs h (fast_run cfg rs h)
unfolding fast_run escapes
run-Runs cfg [] h on f = record {
  carved = unfold Carved in omega arith;
  fit = f;
  on = on;
  placed = inl (refl, unfold AllAt in tt);
  recorded = recorded_none h f.few;
}
run-Runs cfg (r ∷ rs) h on f =
    let c = alloc-Serves cfg r.grown r.memory r.bytes h on f in
    let (b, h1) = fast_alloc_raw cfg r.grown r.memory r.bytes h in
    let rest = run-Runs cfg rs h1 (c.same.1 ∙ on) c.fit in
    let (bs, h2) = fast_run cfg rs h1 in
    record {
      carved =
          link-Carved r.bytes h b h1 (fast_run cfg rs h1).0 (fast_run cfg rs h1).1.used c.fits
            c.grows
            (subst (λ a. Carved a h1.used (fast_run cfg rs h1).0 (fast_run cfg rs h1).1.used)
              c.same.0 rest.carved);
      fit = rest.fit;
      on = rest.on;
      placed = link_placed r rs h b h1 (fast_run cfg rs h1) c rest.placed;
      recorded =
          rest.recorded
          ∙ ap (λ t. take 256 (t ++ escapes (fast_run cfg rs h1).0)) c.recorded
          ∙ take-take_append 256 (addresses h.escaped ++ escape_of b)
              (escapes (fast_run cfg rs h1).0)
          ∙ ap (take 256)
              (append_assoc (addresses h.escaped) (escape_of b) (escapes (fast_run cfg rs h1).0));
    }

-- A heap that nobody has used is fit once it is set up.
pub init-IsFit :
    (cfg : FastConfig) (h : FastHeap)
    → h.inited ≡ false
    → h.used ≡ 0
    → h.escaped ≡ []
    → h.escaped_bytes ≡ 0
    → IsFit (fast_init cfg h) × ((fast_init cfg h).inited ≡ true)
unfolding fast_init sum
init-IsFit cfg h off used none_out no_bytes =
    rw (fast_init, off)
      (
        record {
          aligned = (0, omega arith);
          strict = ground arith;
          inside = omega arith;
          below_peak = omega arith;
          bytes = no_bytes ∙ sym (ap sum none_out);
          few = let l = ap length none_out in omega arith;
        },
        refl,
      )

-- A reset frees the recorded blocks.
record Resets (h : FastHeap) (r : List ℕ × FastHeap) : Type 0 where
  freed : r.0 ≡ addresses h.escaped
  empty : r.1.used ≡ 0
  forgotten : r.1.escaped ≡ []
  returned : r.1.escaped_bytes ≡ 0
  fit : IsFit r.1

-- the end of a reset
abbrev clear : FastHeap → List ℕ × FastHeap
clear t =
    let (freed, bytes) = free_escaped t.escaped_bytes t.escaped in
    (freed, record t { used = 0; escaped = []; escaped_bytes = bytes })

clear-Resets :
    (h t : FastHeap)
    → t.escaped ≡ h.escaped
    → t.escaped_bytes ≡ sum t.escaped
    → 0 < t.alignment
    → Resets h (clear t)
unfolding sum
clear-Resets h t same b s =
    let z : free_escaped t.escaped_bytes t.escaped ≡ (addresses t.escaped, 0) =
      ap (λ x. free_escaped x t.escaped)
        (let w : t.escaped_bytes ≡ 0 + sum t.escaped = omega arith in w)
      ∙ free_escaped-sum 0 t.escaped in
    record {
      freed = ap (λ r. r.0) z ∙ ap addresses same;
      empty = refl;
      forgotten = refl;
      returned = ap (λ r. r.1) z;
      fit = record {
        aligned = (0, omega arith);
        strict = s;
        inside = omega arith;
        below_peak = omega arith;
        bytes = ap (λ r. r.1) z;
        few = omega arith;
      };
    }

shrink-Resets :
    (cfg : FastConfig) (memory : Option ℕ) (h t : FastHeap)
    → t.escaped ≡ h.escaped
    → t.escaped_bytes ≡ sum t.escaped
    → 0 < t.alignment
    → Resets h (clear (fast_shrink cfg memory t))
unfolding fast_shrink fast_halve
shrink-Resets cfg memory h t e b s =
    elim (Bool-cases (ltb (t.used * 4) t.size && ltb (base_cap cfg) t.size)) [
      | inr busy ↦ rw (fast_shrink, busy) (clear-Resets h (record t { shrink_cycles = 0 }) e b s)
      | inl low ↦ rw (fast_shrink, low) (halve memory)
    ]
  where
    halve :
        (memory : Option ℕ)
        → Resets h (clear (fast_halve memory (record t { shrink_cycles = suc t.shrink_cycles })))
    halve none = clear-Resets h (record t { shrink_cycles = suc t.shrink_cycles }) e b s
    halve (some nb) = elim (Bool-cases (leb 4 (suc t.shrink_cycles))) [
      | inl fourth ↦
          rw (fast_halve, fourth)
            (clear-Resets h
              (record t {
                base = nb;
                size = t.size / 2;
                shrink_cycles = 0;
                shrinks = suc t.shrinks;
              })
              e b s)
      | inr early ↦
          rw (fast_halve, early)
            (clear-Resets h (record t { shrink_cycles = suc t.shrink_cycles }) e b s)
    ]

reset-Resets :
    (cfg : FastConfig) (memory : Option ℕ) (h : FastHeap)
    → h.inited ≡ true
    → IsFit h
    → Resets h (fast_reset cfg memory h)
unfolding fast_reset
reset-Resets cfg memory h on f =
    subst (λ t. Resets h (clear (fast_shrink cfg memory (raise_peak t)))) (sym (init_on cfg h on))
      (shrink-Resets cfg memory h (raise_peak h) refl f.bytes f.strict)

-- From a FAST heap that is set up and fit (its pointer aligned and inside it, its escaped blocks
-- accounted for) the bump blocks never overlap until the next reset, whatever sizes are asked for: the
-- offset of each lies behind the block before it, inside the heap, and is a multiple of the alignment.
-- All of them stay in the heap, unless a `realloc` moves it. A reset then takes the whole heap back and
-- frees exactly the first 256 blocks that escaped to `malloc`, those from before the run included; no
-- later one is freed.
pub fast_run-Carved :
    (cfg : FastConfig) (rs : List Request) (h : FastHeap) (memory : Option ℕ)
    → h.inited ≡ true
    → IsFit h
    → let (blocks, h1) = fast_run cfg rs h in
      let (freed, h2) = fast_reset cfg memory h1 in
      Carved h.alignment h.used blocks h1.used
      × (h1.used ≤ h1.size)
      × (((h1.base ≡ h.base) × AllAt h.base blocks) ⊎ Moves h.base rs)
      × (freed ≡ take 256 (addresses h.escaped ++ escapes blocks))
      × (h2.used ≡ 0)
      × (h2.escaped ≡ [])
      × (h2.escaped_bytes ≡ 0)
      × IsFit h2
fast_run-Carved cfg rs h memory on f =
    let r = run-Runs cfg rs h on f in
    let s = reset-Resets cfg memory (fast_run cfg rs h).1 r.on r.fit in
    (
      r.carved,
      r.fit.inside,
      r.placed,
      s.freed ∙ r.recorded,
      s.empty,
      s.forgotten,
      s.returned,
      s.fit,
    )
