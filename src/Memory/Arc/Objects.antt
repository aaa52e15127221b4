-- ===== src/Memory/Arc/Objects.antt =====
-- The heap list as a store: what a write and an unlinking do to the object behind each pointer, and
-- to a sum over the objects.
use plant_lang.Prelude.{
  length, ℕ, ◌+◌, ◌≤◌, ◌≡◌, ◌≢◌, refl, sym, subst, List, [], ◌∷◌, Option, none, some, arith, ◌==◌,
  ==_iff, Bool-cases, inl, inr, ◌⊎◌,
}
use plant_lang.Memory.Arc.{ArcObj, object, update, remove}

abbrev pub opt_map : (ArcObj → ArcObj) → Option ArcObj → Option ArcObj
opt_map f none = none
opt_map f (some o) = some (f o)

abbrev pub KeepsSeq : (ArcObj → ArcObj) → Type 0
KeepsSeq f = (o : ArcObj) → (f o).alloc_seq ≡ o.alloc_seq

-- No two objects of the list have one name.
unfoldable pub Distinct : List ArcObj → Type 0
unfolding object
Distinct [] = Unit
Distinct (o ∷ os) = (object o.alloc_seq os ≡ none) × Distinct os

unfoldable pub total : (ArcObj → ℕ) → List ArcObj → ℕ
total m [] = 0
total m (o ∷ os) = m o + total m os

pub object_seq : (s : ℕ) (l : List ArcObj) (o : ArcObj) → object s l ≡ some o → o.alloc_seq ≡ s
unfolding object
object_seq s [] o h = cc
object_seq s (x ∷ l) o h = ground (arith, object_seq s l o)

pub object-update_self :
    (s : ℕ) (f : ArcObj → ArcObj) (l : List ArcObj)
    → KeepsSeq f
    → object s (update s f l) ≡ opt_map f (object s l)
unfolding object update
object-update_self s f [] k = refl
object-update_self s f (x ∷ l) k = ground (arith, k x, object-update_self s f l k)

pub object-update_ne :
    (s t : ℕ) (f : ArcObj → ArcObj) (l : List ArcObj)
    → KeepsSeq f
    → s ≢ t
    → object s (update t f l) ≡ object s l
unfolding object update
object-update_ne s t f [] k n = refl
object-update_ne s t f (x ∷ l) k n = ground (arith, k x, object-update_ne s t f l k n)

pub object-remove_ne : (s t : ℕ) (l : List ArcObj) → s ≢ t → object s (remove t l) ≡ object s l
unfolding object remove
object-remove_ne s t [] n = refl
object-remove_ne s t (x ∷ l) n = ground (arith, object-remove_ne s t l n)

pub object-remove_self : (s : ℕ) (l : List ArcObj) → Distinct l → object s (remove s l) ≡ none
unfolding object remove Distinct
object-remove_self s [] d = refl
object-remove_self s (x ∷ l) d = elim (Bool-cases (x.alloc_seq == s)) [
  | inl e ↦ rw (remove, e) (subst (λ t. object t l ≡ none) ((==_iff _ _).0 e) d.0)
  | inr e ↦ rw (remove, e, object, e) (object-remove_self s l d.1)
]

-- An unlinked object was there before.
pub object-remove-none :
    (s t : ℕ) (l : List ArcObj) → object s l ≡ none → object s (remove t l) ≡ none
unfolding object remove
object-remove-none s t [] h = refl
object-remove-none s t (x ∷ l) h = ground (arith, object-remove-none s t l)

pub object-update-none :
    (s t : ℕ) (f : ArcObj → ArcObj) (l : List ArcObj)
    → KeepsSeq f
    → object s l ≡ none
    → object s (update t f l) ≡ none
unfolding object update
object-update-none s t f [] k h = refl
object-update-none s t f (x ∷ l) k h = ground (arith, k x, object-update-none s t f l k)

pub Distinct-remove : (s : ℕ) (l : List ArcObj) → Distinct l → Distinct (remove s l)
unfolding remove Distinct
Distinct-remove s [] d = d
Distinct-remove s (x ∷ l) d = elim (Bool-cases (x.alloc_seq == s)) [
  | inl e ↦ rw (remove, e) d.1
  | inr e ↦ rw (remove, e) (object-remove-none x.alloc_seq s l d.0, Distinct-remove s l d.1)
]

pub Distinct-update :
    (s : ℕ) (f : ArcObj → ArcObj) (l : List ArcObj)
    → KeepsSeq f
    → Distinct l
    → Distinct (update s f l)
unfolding update Distinct
Distinct-update s f [] k d = d
Distinct-update s f (x ∷ l) k d = elim (Bool-cases (x.alloc_seq == s)) [
  | inl e ↦ rw (update, e) (subst (λ t. object t l ≡ none) (sym (k x)) d.0, d.1)
  | inr e ↦ rw (update, e) (object-update-none x.alloc_seq s f l k d.0, Distinct-update s f l k d.1)
]

pub total-update :
    (m : ArcObj → ℕ) (s : ℕ) (f : ArcObj → ArcObj) (l : List ArcObj) (o : ArcObj)
    → object s l ≡ some o
    → total m (update s f l) + m o ≡ total m l + m (f o)
unfolding object update total
total-update m s f [] o h = cc
total-update m s f (x ∷ l) o h = elim (Bool-cases (x.alloc_seq == s)) [
  | inl e ↦ ground arith
  | inr e ↦ ground (arith, total-update m s f l o)
]

pub total-remove :
    (m : ArcObj → ℕ) (s : ℕ) (l : List ArcObj) (o : ArcObj)
    → object s l ≡ some o
    → total m (remove s l) + m o ≡ total m l
unfolding object remove total
total-remove m s [] o h = cc
total-remove m s (x ∷ l) o h = elim (Bool-cases (x.alloc_seq == s)) [
  | inl e ↦ ground arith
  | inr e ↦ ground (arith, total-remove m s l o)
]

pub le-total :
    (m : ArcObj → ℕ) (s : ℕ) (l : List ArcObj) (o : ArcObj) → object s l ≡ some o → m o ≤ total m l
le-total m s l o h = omega (arith, total-remove m s l o h)

-- To split on whether two names are one.
pub eq-cases : (a b : ℕ) → (a ≡ b) ⊎ (a ≢ b)
eq-cases a b = elim (Bool-cases (a == b)) [
  | inl e ↦ inl ((==_iff a b).0 e)
  | inr e ↦ inr (λ p. ground (arith, p))
]

-- Writes to two objects can be made in either order.
pub update_comm :
    (s t : ℕ) (f g : ArcObj → ArcObj) (l : List ArcObj)
    → KeepsSeq f
    → KeepsSeq g
    → s ≢ t
    → update s f (update t g l) ≡ update t g (update s f l)
unfolding update
update_comm s t f g [] kf kg n = refl
update_comm s t f g (x ∷ l) kf kg n = ground (arith, kf x, kg x, update_comm s t f g l kf kg n)

pub length-update :
    (s : ℕ) (f : ArcObj → ArcObj) (l : List ArcObj) → length (update s f l) ≡ length l
unfolding update
length-update s f [] = refl
length-update s f (x ∷ l) = ground (arith, length-update s f l)
