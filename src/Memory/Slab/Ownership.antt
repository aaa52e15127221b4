-- ===== src/Memory/Slab/Ownership.antt =====
-- Who owns the blocks of the slab: each is on the free list or handed out, never both or twice.
use plant_lang.Prelude.{
  ℕ, zero, suc, ◌+◌, ◌*◌, ◌≤◌, ◌<◌, ◌≡◌, refl, ap, ◌∙◌, Bool, true, false, ◌||◌, List, [], ◌∷◌,
  Option, none, some, arith, ltb, ◌==◌, ==_iff, length, Bool-cases, inl, inr, times, to_nat,
}
use plant_lang.Memory.Slab.{
  Slab, block_size, slab_start, link_blocks, slab_init, init_at, take_block, slab_alloc, in_slab,
  slab_free,
}

abbrev pub is_block : ℕ → ℕ → Bool
is_block x y = x == y

-- `out` are the blocks that are handed out.
pub record Owned (s : Slab) (out : List ℕ) : Type 0 where
  pub once : (x : ℕ) → times (is_block x) s.free + times (is_block x) out ≤ 1
  pub inside : (x : ℕ) → 0 < times (is_block x) s.free + times (is_block x) out → in_slab x s ≡ true
  pub counted : s.live ≡ length out
  pub total : length s.free + length out ≡ s.blocks

record Linked (base bound n : ℕ) (l : List ℕ) : Type 0 where
  once : (x : ℕ) → times (is_block x) l ≤ 1
  within : (x : ℕ) → 0 < times (is_block x) l → (base ≤ x) × (x < bound)
  size : length l ≡ n

link_blocks-Linked :
    (n i base : ℕ) (l : List ℕ)
    → Linked base (base + i * block_size) i l
    → Linked base (base + (i + n) * block_size) (i + n) (link_blocks n i base l)
unfolding link_blocks times
link_blocks-Linked zero i base l k =
    let z = k.size in
    record {
      once = k.once;
      within = λ x h. let (a, b) = k.within x h in (a, omega arith);
      size = omega arith;
    }
link_blocks-Linked (suc n) i base l k =
    let z = k.size in
    let r = link_blocks-Linked n (i + 1) base ((base + i * block_size) ∷ l) (record {
      once = λ x. elim (Bool-cases (x == base + i * block_size)) [
        | inr other ↦ let o = k.once x in rw (other) (omega arith)
        | inl same ↦
            let q = (==_iff x (base + i * block_size)).0 same in
            let o = k.once x in
            elim (Bool-cases (ltb 0 (times (is_block x) l))) [
              | inl there ↦ let (a, b) = k.within x (ground arith) in absurd (omega arith)
              | inr absent ↦
                  let z0 : times (is_block x) l ≡ 0 = ground arith in rw (same, z0) (omega arith)
            ]
      ];
      within = λ x h. elim (Bool-cases (x == base + i * block_size)) [
        | inl same ↦ let q = (==_iff x (base + i * block_size)).0 same in (omega arith, omega arith)
        | inr other ↦
            let h' : 0 < times (is_block x) l = ground arith in
            let (a, b) = k.within x h' in (a, omega arith)
      ];
      size = omega arith;
    }) in
    let rs = r.size in
    let e : i + 1 + n ≡ i + suc n = omega arith in
    record {
      once = r.once;
      within = λ x h. let (a, b) = r.within x h in (a, omega arith);
      size = rs ∙ e;
    }

-- The first use of the slab makes every block free.
pub slab_init-Owned : (base n : ℕ) → Owned (slab_init (some base) (slab_start n)) []
unfolding slab_init init_at in_slab times
slab_init-Owned base n =
    let k =
      link_blocks-Linked n 0 base []
        (record { once = λ x. omega arith; within = λ x h. absurd (omega arith); size = refl }) in
    let z = k.size in
    record {
      once = λ x. let o = k.once x in omega arith;
      inside = λ x h. let (a, b) = k.within x (omega arith) in ground arith;
      counted = refl;
      total = omega arith;
    }

init_again :
    (memory : Option ℕ) (base : ℕ) (s : Slab) → s.region ≡ some base → slab_init memory s ≡ s
unfolding slab_init init_at
init_again memory base s e = ap (λ r. init_at r memory s) e

-- What an allocation may do with a slab: hand out a block of the region that nobody has, or find
-- every block handed out.
abbrev pub Allocates : Slab → List ℕ → Option ℕ × Slab → Type 0
Allocates s out (none, s') = (s' ≡ s) × (length out ≡ s.blocks)
Allocates s out (some p, s') =
    Owned s' (p ∷ out) × (in_slab p s ≡ true) × (times (is_block p) out ≡ 0)

-- An allocation of 1 to 64 bytes from a slab in use hands out a block of its region that is not
-- handed out already, and fails only if every block is.
pub slab_alloc-Allocates :
    (memory : Option ℕ) (n base : ℕ) (s : Slab) (out : List ℕ)
    → 1 ≤ n
    → n ≤ 64
    → s.region ≡ some base
    → Owned s out
    → Allocates s out (slab_alloc memory n s)
unfolding slab_alloc in_slab times
slab_alloc-Allocates memory n base s out lo hi e o =
    let fits : n == 0 || ltb block_size n ≡ false = ground arith in
    rw (fits, init_again memory base s e) (by_list s.free refl)
  where
    by_list : (l : List ℕ) → s.free ≡ l → Allocates s out (take_block l s)
    by_list [] q = (refl, let t = o.total in let z = ap length q in omega arith)
    by_list (p ∷ r) q =
        let self : times (is_block p) s.free ≡ 1 + times (is_block p) r =
          ap (times (is_block p)) q
          ∙ ap (λ b. to_nat b + times (is_block p) r) ((==_iff p p).1 refl) in
        let op = o.once p in
        let split : (x : ℕ)
            → times (is_block x) s.free ≡ to_nat (is_block x p) + times (is_block x) r =
          λ x. ap (times (is_block x)) q in
        let t = o.total in
        let z = ap length q in
        let c = o.counted in
        (
          record {
            once = λ x. let a = split x in let b = o.once x in omega arith;
            inside = λ x h. o.inside x (let a = split x in omega arith);
            counted = omega arith;
            total = omega arith;
          },
          o.inside p (omega arith),
          omega arith,
        )

-- Giving back a block that is handed out makes it free and leaves every other block as it was.
pub slab_free-Owned :
    (p : ℕ) (s : Slab) (out rest : List ℕ)
    → Owned s out
    → ((x : ℕ) → times (is_block x) out ≡ times (is_block x) (p ∷ rest))
    → length out ≡ length (p ∷ rest)
    → Owned (slab_free p s) rest
unfolding slab_free in_slab times
slab_free-Owned p s out rest o same len =
    let t = o.total in
    let c = o.counted in
    record {
      once = λ x. let a = same x in let b = o.once x in omega arith;
      inside = λ x h. o.inside x (let a = same x in omega arith);
      counted = omega arith;
      total = omega arith;
    }
