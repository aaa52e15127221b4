-- ===== src/Containers/Array/Remove.antt =====
-- What `plant_list_remove`, `plant_list_make` and `plant_list_set` do to the elements.
use plant_lang.Prelude.{
  ℕ, zero, suc, ◌+◌, ◌-◌, ◌<◌, ◌≡◌, refl, sym, ap, ◌∙◌, subst, Bool, true, false, List, [], ◌∷◌,
  ◌++◌, append-nil, append_assoc, some, arith, add-one, ◌==◌, leb, if◌then◌else◌, length, get_or,
  set, take, replicate, length-set, get_or-set_ne, get_or-append_right, take-set, get_or-take,
  length-move_down, take-move_down, erase_idx, pos, Bool-cases, inl, inr, Text,
}
use plant_lang.Containers.Array.{
  Value, null, PlantArray, next_capacity, list_create, or_empty, list_get, list_set, make_from,
  list_make, list_grow, store_last, push, matches, remove_from, list_remove,
}
use plant_lang.Containers.Array.Contents.{IsArray, contents, length-contents, Holds, create-Holds}

-- The list without its first element that `p` accepts.
unfoldable pub remove_first : (Value → Bool) → List Value → List Value
remove_first p [] = []
remove_first p (x ∷ xs) = if p x then xs else x ∷ remove_first p xs

module _ (raw : ℕ → Text) (value : Value) where
  -- The elements from `i` on, the first match removed.
  remove_at : (p : Value → Bool) (n i : ℕ) (l : List Value) → List Value
  remove_at p zero i l = l
  remove_at p (suc n) i l =
      let rest = remove_at p n (i + 1) l in if p (get_or l i null) then erase_idx i l else rest

  remove_at-suc :
      (p : Value → Bool) (n i : ℕ) (x : Value) (l : List Value)
      → remove_at p n (suc i) (x ∷ l) ≡ x ∷ remove_at p n i l
  unfolding remove_at erase_idx
  remove_at-suc p zero i x l = refl
  remove_at-suc p (suc n) i x l =
      let e : suc i + 1 ≡ suc (i + 1) = omega arith in
      rw (e, remove_at-suc p n (i + 1) x l) (ground arith)

  remove_at_first :
      (p : Value → Bool) (l : List Value) → remove_at p (length l) 0 l ≡ remove_first p l
  unfolding remove_at remove_first erase_idx
  remove_at_first p [] = refl
  remove_at_first p (x ∷ xs) =
      let e : 0 + 1 ≡ 1 = omega arith in
      rw (e, remove_at-suc p (length xs) 0 x xs, remove_at_first p xs) refl

  remove_from-contents :
      (n i : ℕ) (a : PlantArray)
      → IsArray a
      → i + n ≡ a.count
      → Holds (remove_from raw n i value a) (remove_at (λ x. matches raw x value) n i (contents a))
  unfolding remove_from remove_at
  remove_from-contents zero i a v e = record { good = v; reads = refl }
  remove_from-contents (suc n) i a v e =
      let here : get_or (contents a) i null ≡ get_or a.items i null =
        unfold contents in get_or-take a.count a.items i null (omega arith) in
      rw here (elim (Bool-cases (matches raw (get_or a.items i null) value)) [
        | inr other ↦ rw other (remove_from-contents n (i + 1) a v (omega arith))
        | inl hit ↦
            let rounds : a.count - i - 1 ≡ n = omega arith in
            let left : a.count - 1 ≡ i + n = omega arith in
            let all : a.count ≡ suc (i + n) = omega arith in
            rw (hit, rounds, left)
              (record {
                good = record {
                  sized = length-move_down null n i a.items ∙ v.sized;
                  fits = let f = v.fits in omega arith;
                };
                reads =
                    unfold contents in
                    take-move_down null n i a.items
                      (let s = v.sized in let f = v.fits in omega arith)
                    ∙ ap (λ c. erase_idx i (take c a.items)) (sym all);
              })
      ])

  -- Removal takes out the first element that matches the value and no other, and the elements
  -- behind it move up in order; where none matches the list is unchanged.
  pub list_remove-remove_first :
      (a : PlantArray)
      → IsArray a
      → (r : PlantArray) × (list_remove raw (some a) value ≡ some r)
        × Holds r (remove_first (λ x. matches raw x value) (contents a))
  unfolding list_remove
  list_remove-remove_first a v = elim (Bool-cases (a.count == 0)) [
    | inl empty ↦ (
      a,
      rw empty,
      record {
        good = v;
        reads = unfold contents remove_first in let e : a.count ≡ 0 = ground arith in rw e;
      },
    )
    | inr full ↦ (
      remove_from raw a.count 0 value a,
      rw full,
      subst (λ t. Holds (remove_from raw a.count 0 value a) t)
          (ap (λ c. remove_at (λ x. matches raw x value) c 0 (contents a))
              (sym (length-contents a v))
            ∙ remove_at_first (λ x. matches raw x value) (contents a))
          (remove_from-contents a.count 0 a v (omega arith)),
    )
  ]

-- The state of `plant_list_make` before its round `i`.
record Made (i total : ℕ) (l : List Value) (a : PlantArray) : Type 0 where
  good : IsArray a
  counted : a.count ≡ i
  room : a.capacity ≡ total
  reads : contents a ≡ l

make_from-Made :
    (i total : ℕ) (vs l : List Value) (a : PlantArray)
    → i + length vs ≡ total
    → Made i total l a
    → (r : PlantArray) × (make_from i vs (some a) ≡ some r) × Made total total (l ++ vs) r
unfolding make_from list_set
make_from-Made i total [] l a e m = (
  a,
  refl,
  rw append-nil (record {
    good = m.good;
    counted = let c = m.counted in omega arith;
    room = m.room;
    reads = m.reads;
  }),
)
make_from-Made i total (v ∷ vs) l a e m =
    let next = record a { items = set a.items i v; count = i + 1 } in
    let made : Made (i + 1) total (l ++ v ∷ []) next = record {
      good = record {
        sized = length-set a.items i v ∙ m.good.sized;
        fits = let r = m.room in omega arith;
      };
      counted = refl;
      room = m.room;
      reads =
          unfold contents in
          rw add-one (
            take-set i a.items v (let s = m.good.sized in let r = m.room in omega arith)
            ∙ ap (λ t. t ++ v ∷ []) (ap (λ c. take c a.items) (sym m.counted) ∙ m.reads));
    } in
    let (r, run, last) = make_from-Made (i + 1) total vs (l ++ v ∷ []) next (omega arith) made in
    let open_cell : leb a.capacity i ≡ false = let r = m.room in ground arith in
    let grown : leb a.count i ≡ true = let c = m.counted in ground arith in
    (
      r,
      rw (open_cell, grown) run,
      subst (λ t. Made total total t r) (append_assoc l (v ∷ []) vs) last,
    )

-- An array built from a list of arguments holds exactly those arguments, in order.
pub list_make_lem : (vs : List Value) → (r : PlantArray) × (list_make vs ≡ some r) × Holds r vs
unfolding list_make
list_make_lem vs =
    let start = create-Holds (pos (length vs)) in
    let (r, run, m) =
      make_from-Made 0 (length vs) vs [] (list_create (pos (length vs))) (omega arith) (record {
        good = start.good;
        counted = unfold list_create in refl;
        room = unfold list_create in refl;
        reads = start.reads;
      }) in
    (r, run, record { good = m.good; reads = m.reads })

-- A write past the last element raises `count` over slots that nothing has written. After a
-- growth, these slots hold what `realloc` left there, and `plant_list_get` returns it as an element.
pub list_set_exposes_junk :
    (junk x v : Value) (a : PlantArray) (i j : ℕ)
    → IsArray a
    → a.capacity ≡ a.count
    → a.count < j
    → j < i
    → i < next_capacity a.capacity
    → list_get (list_set (some (push junk a x)) (pos i) v) (pos j) ≡ or_empty junk
unfolding list_get list_set push list_grow store_last
list_set_exposes_junk junk x v a i j w full lo mid hi =
    let grown : leb a.capacity a.count ≡ true = ground arith in
    let size = next_capacity a.capacity in
    let items = a.items ++ replicate (size - a.capacity) junk in
    let inside : leb size i ≡ false = ground arith in
    let past : leb (a.count + 1) i ≡ true = ground arith in
    let seen : leb (i + 1) j ≡ false = ground arith in
    let s = w.sized in
    rw (grown, inside, past, seen)
      (ap or_empty (
        get_or-set_ne (set items a.count x) i j v null (omega arith)
        ∙ get_or-set_ne items a.count j x null (omega arith)
        ∙ get_or-append_right a.items (replicate (size - a.capacity) junk) j null (omega arith)
        ∙ in_junk (size - a.capacity) (j - length a.items) (omega arith)))
  where
    in_junk : (n k : ℕ) → k < n → get_or (replicate n junk) k null ≡ junk
    in_junk zero k h = elim h [ ]
    in_junk (suc n) zero h = refl
    in_junk (suc n) (suc k) h = in_junk n k (omega arith)
