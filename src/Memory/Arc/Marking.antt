-- ===== src/Memory/Arc/Marking.antt =====
-- The heap as a graph, and what a marking of some objects does to the heap list.
use mathlib.Core.List.{Memᴰ}
use plant_lang.Prelude.{
  ℕ, suc, ◌+◌, ◌≤◌, ◌≡◌, ◌≢◌, refl, ap, Bool, true, false, List, [], ◌∷◌, none, some, arith, ◌==◌,
  Bool-cases, Option-cases, inl, inr, ◌⊎◌, if◌then◌else◌, length,
}
use plant_lang.Memory.Arc.{ArcObj, object, update}
use plant_lang.Memory.Arc.Collect.{unmarked, marked, clear_marks, is_root}
use plant_lang.Memory.Arc.Objects.{KeepsSeq, opt_map, object-update_self, object-update_ne}

abbrev pub edges_of : ℕ → List ArcObj → List ℕ
edges_of s l = elim (object s l) [ none ↦ [] | some o ↦ o.edges ]

abbrev pub is_marked : ℕ → List ArcObj → Bool
is_marked s l = elim (object s l) [ none ↦ false | some o ↦ o.mark ]

abbrev pub Present : ℕ → List ArcObj → Type 0
Present s l = (o : ArcObj) × (object s l ≡ some o)

-- An object that a chain of edges joins to a root.
pub data Reachable (l : List ArcObj) : ℕ → Type 0 where
  root : {s : ℕ} → (o : ArcObj) → object s l ≡ some o → is_root o ≡ true → Reachable l s
  edge : {s c : ℕ} → Reachable l s → Memᴰ c (edges_of s l) → Reachable l c

pub object-clear :
    (s : ℕ) (l : List ArcObj) → object s (clear_marks l) ≡ opt_map unmarked (object s l)
unfolding object
object-clear s [] = refl
object-clear s (x ∷ l) = elim (Bool-cases (x.alloc_seq == s)) [
  | inl e ↦ rw (object, e) refl
  | inr e ↦ rw (object, e) (object-clear s l)
]

pub clear-mark : (s : ℕ) (l : List ArcObj) → clear_marks (update s marked l) ≡ clear_marks l
unfolding update
clear-mark s [] = refl
clear-mark s (x ∷ l) = elim (Bool-cases (x.alloc_seq == s)) [
  | inl e ↦ rw (update, e) refl
  | inr e ↦ rw (update, e) (ap (λ t. unmarked x ∷ t) (clear-mark s l))
]

pub clear-clear : (l : List ArcObj) → clear_marks (clear_marks l) ≡ clear_marks l
clear-clear [] = refl
clear-clear (x ∷ l) = ap (λ t. unmarked x ∷ t) (clear-clear l)

-- how many objects have no mark
unfoldable pub plain : List ArcObj → ℕ
plain [] = 0
plain (o ∷ os) = (if o.mark then 0 else 1) + plain os

pub plain-le : (l : List ArcObj) → plain l ≤ length l
unfolding plain
plain-le [] = omega arith
plain-le (x ∷ l) = ground (arith, plain-le l)

pub plain-mark :
    (s : ℕ) (l : List ArcObj) (o : ArcObj)
    → object s l ≡ some o
    → o.mark ≡ false
    → suc (plain (update s marked l)) ≡ plain l
unfolding plain update object
plain-mark s [] o h m = cc
plain-mark s (x ∷ l) o h m = ground (arith, plain-mark s l o)

-- What lists with the same objects but for the marks share.
pub object-same :
    (s : ℕ) (l k : List ArcObj) (o : ArcObj)
    → clear_marks l ≡ clear_marks k
    → object s l ≡ some o
    → (p : ArcObj) × (object s k ≡ some p) × (unmarked p ≡ unmarked o)
object-same s l k o e h = elim (Option-cases (object s k)) [
  | inl n ↦ absurd (ground (arith, object-clear s l, object-clear s k, ap (object s) e))
  | inr (p, q) ↦ (p, q, ground (arith, object-clear s l, object-clear s k, ap (object s) e))
]

pub edges-same :
    (s : ℕ) (l k : List ArcObj) → clear_marks l ≡ clear_marks k → edges_of s l ≡ edges_of s k
edges-same s l k e = ground (arith, object-clear s l, object-clear s k, ap (object s) e)

marked_keeps : KeepsSeq marked
marked_keeps o = refl

pub is_marked-mark_self :
    (s : ℕ) (l : List ArcObj) (o : ArcObj)
    → object s l ≡ some o
    → is_marked s (update s marked l) ≡ true
is_marked-mark_self s l o h = ground (arith, object-update_self s marked l marked_keeps)

pub is_marked-mark_ne :
    (s t : ℕ) (l : List ArcObj) → s ≢ t → is_marked s (update t marked l) ≡ is_marked s l
is_marked-mark_ne s t l n =
    ap (λ r. elim r [ none ↦ false | some o ↦ o.mark ])
      (object-update_ne s t marked l marked_keeps n)

-- What a marking of the names `cs` does to the list, where all that it meets satisfies `P`.
pub record Marks (P : ℕ → Type 0) (cs : List ℕ) (l l' : List ArcObj) : Type 0 where
  pub shape : clear_marks l' ≡ clear_marks l
  pub keeps : (s : ℕ) → is_marked s l ≡ true → is_marked s l' ≡ true
  pub got : (c : ℕ) → Memᴰ c cs → is_marked c l' ≡ true
  pub new :
      (s : ℕ)
      → is_marked s l' ≡ true
      → (is_marked s l ≡ true) ⊎ (P s × ((c : ℕ) → Memᴰ c (edges_of s l) → is_marked c l' ≡ true))
  pub fewer : plain l' ≤ plain l

-- `P` holds of names of the list only, and is closed under its edges.
pub record Closed (P : ℕ → Type 0) (l : List ArcObj) : Type 0 where
  pub there : (s : ℕ) → P s → Present s l
  pub along : (s c : ℕ) → P s → Memᴰ c (edges_of s l) → P c
