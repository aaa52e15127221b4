-- ===== src/Missions/Fast.antt =====
-- The bump heap of FAST in runtime/c/plant_runtime.c (`plant_fast_init` .. `plant_fast_reset`). What
-- `malloc` and `realloc` give is an argument, an address or `none`; only the first block of the heap is
-- taken to be there. A block of the heap is its base, as it was then, and its offset: where `realloc`
-- moves the heap, the earlier blocks keep the old base. The audit log is left out.
pub mod Carving
pub mod Runs
use plant_lang.Prelude.{
  ℕ, zero, suc, ◌+◌, ◌-◌, ◌*◌, ◌/◌, ◌≡◌, Bool, true, false, not, ◌||◌, ◌&&◌, List, [], ◌∷◌, ◌++◌,
  Option, none, some, ltb, leb, ◌==◌, if◌then◌else◌, length,
}

-- a block from `malloc`: its address and its size
abbrev pub Escape : Type 0
Escape = ℕ × ℕ

-- `escaped` is g_fast_esc[0 .. g_fast_esc_n) with the sizes in g_fast_esc_sz
pub record FastHeap : Type 0 where
  pub base : ℕ
  pub size : ℕ
  pub used : ℕ
  pub peak : ℕ
  pub limit : ℕ
  pub alignment : ℕ
  pub inited : Bool
  pub escalated : Bool
  pub escaped : List Escape
  pub escaped_bytes : ℕ
  pub shrinks : ℕ
  pub shrink_cycles : ℕ

-- the settings, 0 where the default holds, and the address that `malloc` gives the heap
pub record FastConfig : Type 0 where
  pub first : ℕ
  pub cap : ℕ
  pub limit : ℕ
  pub align : ℕ

abbrev pub or_else : ℕ → ℕ → ℕ
or_else v d = if v == 0 then d else v

abbrev pub base_cap : FastConfig → ℕ
base_cap cfg = or_else cfg.cap (8 * 1024 * 1024)

unfoldable pub fast_init : FastConfig → FastHeap → FastHeap
fast_init cfg h = if h.inited then h else record h {
  base = cfg.first;
  size = base_cap cfg;
  limit = or_else cfg.limit (64 * 1024 * 1024);
  alignment = or_else cfg.align 8;
  inited = true;
}

abbrev pub smaller : ℕ → ℕ → ℕ
smaller a b = if ltb b a then b else a

unfoldable pub fast_grow : Option ℕ → FastHeap → FastHeap
fast_grow memory h = if leb (smaller (h.size * 2) h.limit) h.size then h else elim memory [
  | none ↦ h
  | some nb ↦ record h { base = nb; size = smaller (h.size * 2) h.limit }
]

-- the pointer that a request gives: `base + offset`, one from `malloc`, or `NULL`
pub data Block : Type 0 where
  bump : ℕ → ℕ → Block
  escape : ℕ → Block
  no_block : Block

abbrev pub round_up : ℕ → ℕ → ℕ
round_up n a = (n + a - 1) / a * a

abbrev pub raise_peak : FastHeap → FastHeap
raise_peak h = record h { peak = if ltb h.peak h.used then h.used else h.peak }

abbrev pub take_up : ℕ → FastHeap → FastHeap
take_up need h = raise_peak (record h { used = h.used + need })

-- the fallback to `malloc`
unfoldable pub fast_escape : Option ℕ → ℕ → FastHeap → Block × FastHeap
fast_escape none need h = (no_block, record h { escalated = true })
fast_escape (some p) need h =
    if ltb (length h.escaped) 256
    then (
      escape p,
      record h {
        escalated = true;
        escaped = h.escaped ++ (p, need) ∷ [];
        escaped_bytes = h.escaped_bytes + need;
      },
    )
    else (escape p, record h { escalated = true })

unfoldable pub fast_carve : Option ℕ → ℕ → FastHeap → Block × FastHeap
unfolding fast_escape
fast_carve memory need h =
    if leb (h.used + need) h.size
    then (bump h.base h.used, take_up need h)
    else fast_escape memory need h

unfoldable pub grow_if_short : Option ℕ → ℕ → FastHeap → FastHeap
unfolding fast_grow
grow_if_short memory need h =
    if ltb h.size (h.used + need) && ltb h.size h.limit then fast_grow memory h else h

-- `grown` and `memory` are what `realloc` and `malloc` give, should they be called
unfoldable pub fast_alloc_raw : FastConfig → Option ℕ → Option ℕ → ℕ → FastHeap → Block × FastHeap
unfolding fast_init grow_if_short fast_carve
fast_alloc_raw cfg grown memory n h =
    let h1 = fast_init cfg h in
    let need = round_up n h1.alignment in fast_carve memory need (grow_if_short grown need h1)

-- what `plant_fast_enter` does to the heap
unfoldable pub fast_bind : FastHeap → FastHeap
fast_bind h = if h.inited then record (raise_peak h) { used = 0 } else h

-- one more scope in a row that used little: the fourth halves the heap
unfoldable pub fast_halve : Option ℕ → FastHeap → FastHeap
fast_halve none h = h
fast_halve (some nb) h =
    if leb 4 h.shrink_cycles
    then record h { base = nb; size = h.size / 2; shrink_cycles = 0; shrinks = suc h.shrinks }
    else h

unfoldable pub fast_shrink : FastConfig → Option ℕ → FastHeap → FastHeap
unfolding fast_halve
fast_shrink cfg memory h =
    if ltb (h.used * 4) h.size && ltb (base_cap cfg) h.size
    then fast_halve memory (record h { shrink_cycles = suc h.shrink_cycles })
    else record h { shrink_cycles = 0 }

-- the loop that frees the escaped blocks: what it frees, and the bytes that stay counted
unfoldable pub free_escaped : ℕ → List Escape → List ℕ × ℕ
free_escaped bytes [] = ([], bytes)
free_escaped bytes ((p, s) ∷ es) = let (ps, left) = free_escaped (bytes - s) es in (p ∷ ps, left)

-- the addresses that are freed, and the heap
unfoldable pub fast_reset : FastConfig → Option ℕ → FastHeap → List ℕ × FastHeap
unfolding fast_init fast_shrink free_escaped
fast_reset cfg memory h =
    let h1 = fast_shrink cfg memory (raise_peak (fast_init cfg h)) in
    let (freed, bytes) = free_escaped h1.escaped_bytes h1.escaped in
    (freed, record h1 { used = 0; escaped = []; escaped_bytes = bytes })
