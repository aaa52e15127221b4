-- ===== src/Memory/Arena/Runs.antt =====
-- Runs of allocations and releases of an arena.
use plant_lang.Prelude.{
  ℕ, suc, ◌+◌, ◌≤◌, ◌≡◌, inl, inr, refl, ap, ◌∙◌, subst, Bool, true, false, List, [], ◌∷◌, Option,
  none, some, ltb, leb, ◌==◌, ==_iff, if◌then◌else◌, ◌&&◌, ◌^◌, arith, Bool-cases, Option-cases,
  times, to_nat, ltb→le,
}
use plant_lang.Memory.Arena.{
  Seg, Arena, Segments, Block, fit, take_cached, wanted, first_block, arena_miss, arena_alloc,
  resized, raised, let_go, let_go_all, arena_free,
}
use plant_lang.Memory.Arena.Fitting.{
  named, used_of, cap_of, pick_same, FitResult, fit_lem, Takes, TakeResult, take_cached_lem,
}
use plant_lang.Memory.Arena.Blocks.{IsArena, Leaves, hit-Leaves, new_seg-IsArena, Inside, Apart}

n-le-wanted : (n : ℕ) (a : Arena) → n ≤ wanted n a
n-le-wanted n a = elim (Bool-cases (ltb a.seg_size n)) [
  | inl y ↦ rw y (omega arith)
  | inr m ↦ let l = ltb→le a.seg_size n m in rw m l
]

cached-Leaves :
    (n : ℕ) (bs : List Block) (a : Arena) (g : Segments) (c : Seg) (rest : List Seg)
    → IsArena bs a g
    → Takes (wanted n a) g.cache c rest
    → IsArena
        (first_block c.id n ∷ bs)
        (record a { segs = record c { used = n; refs = 1 } ∷ a.segs })
        (record g { cache = rest })
cached-Leaves n bs a g c rest f t =
    let enough = n-le-wanted n a in
    let large = t.large in
    let (p, q) = pick_same c.id c 0 refl in
    let here = t.names c.id in
    let o = f.once c.id in
    new_seg-IsArena n bs a g (record g { cache = rest }) (record c { used = n; refs = 1 }) f refl
      (omega arith) (omega arith) (λ id. let e = t.names id in let w = f.once id in omega arith)
      (λ id h. let e = t.names id in let w = f.fresh id h in omega arith)

fresh-Leaves :
    (n : ℕ) (bs : List Block) (a : Arena) (g : Segments)
    → IsArena bs a g
    → IsArena
        (first_block g.next n ∷ bs)
        (record a { segs = record { id = g.next; cap = wanted n a; used = n; refs = 1 } ∷ a.segs })
        (record g { next = suc g.next })
fresh-Leaves n bs a g f =
    let s : Seg = record { id = g.next; cap = wanted n a; used = n; refs = 1 } in
    let none_yet = f.fresh g.next (omega arith) in
    new_seg-IsArena n bs a g (record g { next = suc g.next }) s f refl (n-le-wanted n a)
      (omega arith)
      (λ id. elim (Bool-cases (g.next == id)) [
        | inl y ↦
            let one : to_nat (g.next == id) ≡ 1 = ap to_nat y in
            let e = (==_iff g.next id).0 y in let z = f.fresh id (omega arith) in omega arith
        | inr m ↦
            let no_one : to_nat (g.next == id) ≡ 0 = ap to_nat m in let w = f.once id in omega arith
      ])
      (λ id h. elim (Bool-cases (g.next == id)) [
        | inl y ↦ let e = (==_iff g.next id).0 y in absurd (omega arith)
        | inr m ↦
            let no_one : to_nat (g.next == id) ≡ 0 = ap to_nat m in
            let w = f.fresh id (omega arith) in omega arith
      ])

miss-Leaves :
    (memory : Bool) (n : ℕ) (bs : List Block) (a : Arena) (g : Segments)
    → IsArena bs a g
    → Leaves bs (arena_miss memory n a g)
unfolding arena_miss Leaves TakeResult
miss-Leaves memory n bs a g f = elim (Option-cases (take_cached (wanted n a) g.cache)) [
  | inr ((c, rest), e) ↦
      let t =
        subst (λ r. TakeResult (wanted n a) g.cache r) e (take_cached_lem (wanted n a) g.cache) in
      rw (arena_miss, e) (cached-Leaves n bs a g c rest f t)
  | inl e ↦ rw (arena_miss, e) (by_memory memory)
]
  where
    by_memory :
        (memory : Bool)
        → Leaves bs (
            if memory
            then (
              some (first_block g.next n),
              record a {
                segs = record { id = g.next; cap = wanted n a; used = n; refs = 1 } ∷ a.segs;
              },
              record g { next = suc g.next },
            )
            else (none, a, g))
    by_memory true = fresh-Leaves n bs a g f
    by_memory false = f

pub alloc-Leaves :
    (memory : Bool) (n : ℕ) (bs : List Block) (a : Arena) (g : Segments)
    → IsArena bs a g
    → Leaves bs (arena_alloc memory n a g)
unfolding arena_alloc Leaves FitResult
alloc-Leaves memory n bs a g f = elim (Option-cases (fit n a.segs)) [
  | inr ((b, new), e) ↦
      let t = subst (λ r. FitResult n a.segs r) e (fit_lem n a.segs) in
      rw (arena_alloc, e) (hit-Leaves n bs a g b new f t)
  | inl e ↦
      rw (arena_alloc, e)
        (miss-Leaves memory n bs (record a { misses = suc a.misses }) g
          (record {
            once = f.once;
            fresh = f.fresh;
            within = f.within;
            inside = f.inside;
            apart = f.apart;
          }))
]

-- What the release of segments leaves in the cache.
record LetGo (ss : List Seg) (g g' : Segments) : Type 0 where
  next : g'.next ≡ g.next
  names : (id : ℕ) → named id g'.cache ≤ named id ss + named id g.cache

let_go-LetGo : (s : Seg) (g : Segments) → LetGo (s ∷ []) g (let_go s g)
unfolding times
let_go-LetGo s g = elim (Bool-cases (leb s.refs 1)) [
  | inr m ↦ rw m (record { next = refl; names = λ id. omega arith })
  | inl y ↦ elim (Bool-cases (ltb 0 g.cache_max)) [
    | inr k ↦ rw (y, k) (record { next = refl; names = λ id. omega arith })
    | inl k ↦ rw (y, k) (record { next = refl; names = λ id. omega arith })
  ]
]

let_go_all-LetGo : (ss : List Seg) (g : Segments) → LetGo ss g (let_go_all ss g)
unfolding let_go_all times
let_go_all-LetGo [] g = record { next = refl; names = λ id. omega arith }
let_go_all-LetGo (s ∷ ss) g =
    let a = let_go-LetGo s g in
    let b = let_go_all-LetGo ss (let_go s g) in
    record {
      next = b.next ∙ a.next;
      names = λ id. let x = a.names id in let y = b.names id in omega arith;
    }

raised-LetGo : (size : ℕ) (g : Segments) → LetGo [] g (raised size g)
unfolding times
raised-LetGo size g = elim (Bool-cases (ltb g.seg_size size && ltb g.seg_size (2 ^ 20))) [
  | inl y ↦ rw y (record { next = refl; names = λ id. omega arith })
  | inr m ↦ rw m (record { next = refl; names = λ id. omega arith })
]

pub free-IsArena :
    (bs : List Block) (a : Arena) (g : Segments)
    → IsArena bs a g
    → IsArena [] (arena_free a g).0 (arena_free a g).1
unfolding arena_free Inside Apart times used_of cap_of
free-IsArena bs a g f =
    let r = raised-LetGo (resized a) g in
    let l = let_go_all-LetGo a.segs (raised (resized a) g) in
    let same = l.next ∙ r.next in
    record {
      once = λ id. let x = r.names id in let y = l.names id in let o = f.once id in omega arith;
      fresh = λ id h.
          let x = r.names id in
          let y = l.names id in let o = f.fresh id (omega arith) in omega arith;
      within = λ id. omega arith;
      inside = tt;
      apart = tt;
    }

-- The calls on an arena; an allocation says whether `malloc` succeeds.
pub data ArenaCall : Type 0 where
  alloc : Bool → ℕ → ArenaCall
  free : ArenaCall

abbrev handed_out : List Block → Option Block → List Block
handed_out bs none = bs
handed_out bs (some b) = b ∷ bs

-- with the blocks that are out
unfoldable pub arena_run :
    List ArenaCall → List Block → Arena → Segments → List Block × Arena × Segments
unfolding arena_alloc arena_free
arena_run [] bs a g = (bs, a, g)
arena_run (alloc memory n ∷ cs) bs a g =
    let (b, a', g') = arena_alloc memory n a g in arena_run cs (handed_out bs b) a' g'
arena_run (free ∷ cs) bs a g = let (a', g') = arena_free a g in arena_run cs [] a' g'

-- From a state in which this holds: the blocks that an arena has handed out since it was last freed
-- share no byte and lie within their segments, whatever is asked for, whether or not `malloc`
-- succeeds, and however the arena is freed and filled again from the cache; no segment is ever in
-- an arena and in the cache at once.
pub arena_run-IsArena :
    (calls : List ArenaCall) (bs : List Block) (a : Arena) (g : Segments)
    → IsArena bs a g
    → IsArena (arena_run calls bs a g).0 (arena_run calls bs a g).1 (arena_run calls bs a g).2
unfolding arena_run Leaves
arena_run-IsArena [] bs a g f = f
arena_run-IsArena (alloc memory n ∷ cs) bs a g f =
    go (arena_alloc memory n a g) (alloc-Leaves memory n bs a g f)
      (λ bs a g f. arena_run-IsArena cs bs a g f)
  where
    go :
        (r : Option Block × Arena × Segments)
        → Leaves bs r
        → ((bs : List Block) (a : Arena) (g : Segments)
            → IsArena bs a g
            → IsArena (arena_run cs bs a g).0 (arena_run cs bs a g).1 (arena_run cs bs a g).2)
        → IsArena
            (arena_run cs (handed_out bs r.0) r.1 r.2).0
            (arena_run cs (handed_out bs r.0) r.1 r.2).1
            (arena_run cs (handed_out bs r.0) r.1 r.2).2
    go (none, a, g) f rec = rec bs a g f
    go (some b, a, g) f rec = rec (b ∷ bs) a g f
arena_run-IsArena (free ∷ cs) bs a g f =
    arena_run-IsArena cs [] (arena_free a g).0 (arena_free a g).1 (free-IsArena bs a g f)
