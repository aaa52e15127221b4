-- ===== src/Memory/Arena/Blocks.antt =====
-- The blocks that an arena has handed out since it was last freed.
use plant_lang.Prelude.{
  ℕ, suc, ◌+◌, ◌≤◌, ◌≡◌, ◌⊎◌, inl, inr, refl, sym, ap, subst, false, List, [], ◌∷◌, Option, none,
  some, ◌==◌, ==_iff, if◌then◌else◌, arith, Bool-cases, times, to_nat,
}
use plant_lang.Memory.Arena.{Seg, Arena, Segments, Block, first_block}
use plant_lang.Memory.Arena.Fitting.{named, pick, used_of, cap_of, pick_same, used_of-none, Fits}

-- Two blocks share no byte.
abbrev pub Clear : Block → Block → Type 0
Clear b c = b.seg ≡ c.seg → (c.off + c.len ≤ b.off) ⊎ (b.off + b.len ≤ c.off)

unfoldable pub ClearOf : Block → List Block → Type 0
ClearOf b [] = Unit
ClearOf b (c ∷ cs) = Clear b c × ClearOf b cs

unfoldable pub Apart : List Block → Type 0
Apart [] = Unit
Apart (b ∷ bs) = ClearOf b bs × Apart bs

unfoldable pub Inside : List Seg → List Block → Type 0
Inside ss [] = Unit
Inside ss (b ∷ bs) = (b.off + b.len ≤ used_of b.seg ss) × Inside ss bs

-- Each segment has one owner, an arena or the cache; the blocks lie in the used part of their segments,
-- which is no more than there is, and share no byte.
pub record IsArena (bs : List Block) (a : Arena) (g : Segments) : Type 0 where
  pub once : (id : ℕ) → named id a.segs + named id g.cache ≤ 1
  pub fresh : (id : ℕ) → g.next ≤ id → named id a.segs + named id g.cache ≡ 0
  pub within : (id : ℕ) → used_of id a.segs ≤ cap_of id a.segs
  pub inside : Inside a.segs bs
  pub apart : Apart bs

Inside-mono :
    (ss ss' : List Seg) (bs : List Block)
    → ((id : ℕ) → used_of id ss ≤ used_of id ss')
    → Inside ss bs
    → Inside ss' bs
unfolding Inside
Inside-mono ss ss' [] m i = tt
Inside-mono ss ss' (b ∷ bs) m (h, i) = (let k = m b.seg in omega arith, Inside-mono ss ss' bs m i)

-- a block that starts where the used part of its segment ended
ClearOf-used :
    (ss : List Seg) (b : Block) (bs : List Block)
    → used_of b.seg ss ≤ b.off
    → Inside ss bs
    → ClearOf b bs
unfolding Inside ClearOf
ClearOf-used ss b [] h i = tt
ClearOf-used ss b (c ∷ cs) h (k, i) =
    (λ e. inl (let same = ap (λ n. used_of n ss) e in omega arith), ClearOf-used ss b cs h i)

-- what an allocation leaves, for the block or the failure that it reports
unfoldable pub Leaves : List Block → Option Block × Arena × Segments → Type 0
Leaves bs (none, a, g) = IsArena bs a g
Leaves bs (some b, a, g) = IsArena (b ∷ bs) a g

pub hit-Leaves :
    (n : ℕ) (bs : List Block) (a : Arena) (g : Segments) (b : Block) (new : List Seg)
    → IsArena bs a g
    → Fits n a.segs b new
    → IsArena (b ∷ bs) (record a { segs = new; hits = suc a.hits }) g
unfolding Inside Apart
hit-Leaves n bs a g b new f t =
    let one : named b.seg a.segs ≤ 1 = let o = f.once b.seg in omega arith in
    let start = t.starts one in
    let size = t.size in
    let more : (id : ℕ) → used_of id a.segs ≤ used_of id new = λ id. monotone id in
    record {
      once = λ id. let e = t.names id in let o = f.once id in omega arith;
      fresh = λ id h. let e = t.names id in let o = f.fresh id h in omega arith;
      within = λ id. filled id start (t.ends one);
      inside = (let w = t.grows in omega arith, Inside-mono a.segs new bs more f.inside);
      apart = (ClearOf-used a.segs b bs (omega arith) f.inside, f.apart);
    }
  where
    monotone : (id : ℕ) → used_of id a.segs ≤ used_of id new
    monotone id = elim (Bool-cases (id == b.seg)) [
      | inl y ↦
          let e = (==_iff id b.seg).0 y in
          let w = t.grows in subst (λ k. used_of k a.segs ≤ used_of k new) (sym e) (omega arith)
      | inr m ↦ let w = t.others id (λ e. clash id m e) in omega arith
    ]
      where
        clash : (id : ℕ) → (id == b.seg) ≡ false → id ≡ b.seg → ⊥
        clash id m e = let y = (==_iff id b.seg).1 e in cc

    filled :
        (id : ℕ)
        → b.off ≡ used_of b.seg a.segs
        → b.off + n ≤ cap_of b.seg a.segs
        → used_of id new ≤ cap_of id new
    filled id start end = elim (Bool-cases (id == b.seg)) [
      | inl y ↦
          let e = (==_iff id b.seg).0 y in
          let w = t.grows in
          let c = t.caps b.seg in subst (λ k. used_of k new ≤ cap_of k new) (sym e) (omega arith)
      | inr m ↦
          let w = t.others id (λ e. clash id m e) in
          let c = t.caps id in let i = f.within id in omega arith
    ]
      where
        clash : (id : ℕ) → (id == b.seg) ≡ false → id ≡ b.seg → ⊥
        clash id m e = let y = (==_iff id b.seg).1 e in cc

-- a segment that was nobody's before, with its first block
pub new_seg-IsArena :
    (n : ℕ) (bs : List Block) (a : Arena) (g g' : Segments) (s : Seg)
    → IsArena bs a g
    → s.used ≡ n
    → n ≤ s.cap
    → named s.id a.segs ≡ 0
    → ((id : ℕ) → to_nat (s.id == id) + (named id a.segs + named id g'.cache) ≤ 1)
    → ((id : ℕ) → g'.next ≤ id → to_nat (s.id == id) + (named id a.segs + named id g'.cache) ≡ 0)
    → IsArena (first_block s.id n ∷ bs) (record a { segs = s ∷ a.segs }) g'
unfolding Inside Apart used_of cap_of times
new_seg-IsArena n bs a g g' s f used room unnamed once fresh =
    let none_used = used_of-none s.id a.segs unnamed in
    let (p, q) = pick_same s.id s s.used refl in
    record {
      once = λ id. let o = once id in omega arith;
      fresh = λ id h. let o = fresh id h in omega arith;
      within = λ id.
          let w = f.within id in
          elim (Bool-cases (s.id == id)) [
            | inl y ↦
                let (c, d) = pick_same id s s.used ((==_iff s.id id).0 y) in
                let (c2, d2) = pick_same id s s.cap ((==_iff s.id id).0 y) in omega arith
            | inr m ↦
                let c : pick id s s.used ≡ 0 = ap (λ b. if b then s.used else 0) m in
                let c2 : pick id s s.cap ≡ 0 = ap (λ b. if b then s.cap else 0) m in omega arith
          ];
      inside = (omega arith, Inside-mono a.segs (s ∷ a.segs) bs (λ id. omega arith) f.inside);
      apart = (ClearOf-used a.segs (first_block s.id n) bs (omega arith) f.inside, f.apart);
    }
