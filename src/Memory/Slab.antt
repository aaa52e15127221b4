-- ===== src/Memory/Slab.antt =====
-- The string slab of runtime/c/plant_runtime.c (`plant_slab_init` .. `plant_slab_free`): blocks of 64
-- bytes in one region, linked through their first words when free. Addresses are numbers; the free
-- list is the list of the addresses on it. What `malloc` gives for the region is an argument.
pub mod Ownership
use plant_lang.Prelude.{
  ℕ, zero, suc, ◌+◌, ◌-◌, ◌*◌, ◌/◌, ◌%◌, ◌^◌, ◌≤◌, ◌<◌, ◌≡◌, ◌≢◌, ◌↔◌, refl, sym, ap, ap₂, ◌∙◌,
  subst, Bool, true, false, not, ◌||◌, ◌&&◌, List, [], ◌∷◌, ◌++◌, map, append-nil, append_assoc,
  Option, none, some, arith, ltb, leb, ◌==◌, ==_iff, if◌then◌else◌, length, get_or, set, take, drop,
  replicate, length-append, length-set, length-replicate, get_or-set_self, get_or-set_ne,
  get_or-append_left, get_or-append_right, get_or-replicate, take-append, bit_and, Text, codes,
  str_eq, str_eq_iff, str_eq_refl, Bool-cases, ◌⊎◌, inl, inr, times, to_nat, times-set,
  times-append, find_index, Option-cases, min, max, add-one,
}

pub record Slab : Type 0 where
  pub region : Option ℕ
  pub free : List ℕ
  pub live : ℕ
  pub blocks : ℕ

-- `PLANT_SLAB_BLOCK`
abbrev pub block_size : ℕ
block_size = 64

-- before the first use, with `n` blocks; the program has 1024
abbrev pub slab_start : ℕ → Slab
slab_start n = record { region = none; free = []; live = 0; blocks = n }

-- the loop of `plant_slab_init`, `n` rounds left
unfoldable pub link_blocks : ℕ → ℕ → ℕ → List ℕ → List ℕ
link_blocks zero i base head = head
link_blocks (suc n) i base head = link_blocks n (i + 1) base ((base + i * block_size) ∷ head)

-- by the region that is there, and what `malloc` gives
unfoldable pub init_at : Option ℕ → Option ℕ → Slab → Slab
unfolding link_blocks
init_at (some base) memory s = s
init_at none none s = record s { blocks = 0 }
init_at none (some base) s = record s { region = some base; free = link_blocks s.blocks 0 base [] }

unfoldable pub slab_init : Option ℕ → Slab → Slab
unfolding init_at
slab_init memory s = init_at s.region memory s

-- the pop of the free list
abbrev pub take_block : List ℕ → Slab → Option ℕ × Slab
take_block [] s = (none, s)
take_block (p ∷ r) s = (some p, record s { free = r; live = s.live + 1 })

unfoldable pub slab_alloc : Option ℕ → ℕ → Slab → Option ℕ × Slab
unfolding slab_init
slab_alloc memory n s =
    let t = slab_init memory s in
    if n == 0 || ltb block_size n then (none, s) else take_block t.free t

unfoldable pub in_slab : ℕ → Slab → Bool
in_slab p s = elim s.region [
  | none ↦ false
  | some base ↦ leb base p && ltb p (base + block_size * s.blocks)
]

unfoldable pub slab_free : ℕ → Slab → Slab
slab_free p s = record s { free = p ∷ s.free; live = s.live - 1 }
