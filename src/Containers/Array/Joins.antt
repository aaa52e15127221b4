-- ===== src/Containers/Array/Joins.antt =====
-- What `plant_list_concat` and `plant_braid` build from the elements of two arrays.
use plant_lang.Prelude.{
  ◌⊎◌, subst, ℕ, zero, suc, ◌+◌, ◌≤◌, ◌≡◌, refl, sym, ap, ap₂, ◌∙◌, List, [], ◌∷◌, ◌++◌, map,
  append-nil, append_assoc, Option, none, some, arith, ltb, if◌then◌else◌, length, get_or, take,
  tabulate, get_or-take, tabulate-ext, pos,
}
use plant_lang.Containers.Array.Contents.{
  IsArray, contents, items_of, length-contents, Holds, push-Holds, create-Holds,
}
use plant_lang.Containers.Array.{
  count_of, Value, null, PlantArray, list_create, or_empty, list_get, push, copy_items, copy_all,
  list_concat, braid_items, braid,
}

abbrev pub OptionIsArray : Option PlantArray → Type 0
OptionIsArray none = Unit
OptionIsArray (some a) = IsArray a

-- Two elements of each round of `plant_braid`.
unfoldable pub interleave : List Value → List Value → List Value
interleave [] ys = []
interleave (x ∷ xs) [] = []
interleave (x ∷ xs) (y ∷ ys) = x ∷ y ∷ interleave xs ys

module _ (junk : Value) where
  copy_items-Holds :
      (n i : ℕ) (a out : PlantArray) (l : List Value)
      → Holds out l
      → Holds (copy_items junk n i a out) (l ++ tabulate n (λ j. list_get (some a) (pos (i + j))))
  unfolding copy_items
  copy_items-Holds zero i a out l h = rw append-nil h
  copy_items-Holds (suc n) i a out l h =
      let first = list_get (some a) (pos i) in
      let e : i + 0 ≡ i = omega arith in
      let step : (j : ℕ)
          → list_get (some a) (pos (i + 1 + j)) ≡ list_get (some a) (pos (i + suc j)) =
        λ j. ap (λ k. list_get (some a) (pos k)) (omega arith) in
      let rest = copy_items-Holds n (i + 1) a (push junk out first) _ (push-Holds junk first h) in
      rw e (
        subst (λ t. Holds (copy_items junk n (i + 1) a (push junk out first)) t)
          (append_assoc l (first ∷ []) _
            ∙ ap (λ t. l ++ first ∷ t) (tabulate-ext n _ _ (λ j p. step j)))
          rest)

  map_get :
      (n : ℕ) (xs : List Value)
      → n ≤ length xs
      → tabulate n (λ j. or_empty (get_or xs j null)) ≡ map or_empty (take n xs)
  map_get zero xs h = refl
  map_get (suc n) [] h = elim h [ ]
  map_get (suc n) (x ∷ xs) h = ap (λ t. or_empty x ∷ t) (map_get n xs (omega arith))

  get_all :
      (a : PlantArray)
      → IsArray a
      → tabulate a.count (λ j. list_get (some a) (pos (0 + j))) ≡ map or_empty (contents a)
  unfolding list_get contents
  get_all a v =
      tabulate-ext a.count _ (λ j. or_empty (get_or a.items j null))
        (λ j p. let e : 0 + j ≡ j = omega arith in rw e (ground arith))
      ∙ map_get a.count a.items (let s = v.sized in let f = v.fits in omega arith)

  copy_all-Holds :
      (a : Option PlantArray) (out : PlantArray) (l : List Value)
      → OptionIsArray a
      → Holds out l
      → Holds (copy_all junk a out) (l ++ map or_empty (items_of a))
  unfolding items_of
  copy_all-Holds none out l v h = rw append-nil h
  copy_all-Holds (some a) out l v h =
      subst (λ t. Holds (copy_items junk a.count 0 a out) (l ++ t)) (get_all a v)
        (copy_items-Holds a.count 0 a out l h)

  -- Concatenation holds the elements of the first list and then those of the second, each read
  -- through `plant_list_get`, which shows a `NULL` element as the empty text; a `NULL` list counts
  -- as an empty one.
  pub list_concat_lem :
      (a b : Option PlantArray)
      → OptionIsArray a
      → OptionIsArray b
      → Holds (list_concat junk a b) (map or_empty (items_of a) ++ map or_empty (items_of b))
  unfolding list_concat
  list_concat_lem a b v w =
      copy_all-Holds b _ (map or_empty (items_of a)) w
        (copy_all-Holds a _ [] v (create-Holds (pos (count_of a + count_of b))))

  braid_items-Holds :
      (n i : ℕ) (a b out : PlantArray) (l : List Value)
      → Holds out l
      → Holds (braid_items junk n i a b out) (
          l
          ++ interleave
              (tabulate n (λ j. get_or a.items (i + j) null))
              (tabulate n (λ j. get_or b.items (i + j) null)))
  unfolding braid_items interleave
  braid_items-Holds zero i a b out l h = rw append-nil h
  braid_items-Holds (suc n) i a b out l h =
      let x = get_or a.items i null in
      let y = get_or b.items i null in
      let e : i + 0 ≡ i = omega arith in
      let rest = braid_items-Holds n (i + 1) a b _ _ (push-Holds junk y (push-Holds junk x h)) in
      let next = λ (c : PlantArray).
        tabulate-ext n (λ j. get_or c.items (i + 1 + j) null) (λ j. get_or c.items (i + suc j) null)
          (λ j p. ap (λ k. get_or c.items k null) (omega arith)) in
      rw e (
        subst (λ t. Holds (braid_items junk n (i + 1) a b (push junk (push junk out x) y)) t)
          (append_assoc (l ++ x ∷ []) (y ∷ []) _
            ∙ append_assoc l (x ∷ []) _
            ∙ ap (λ t. l ++ x ∷ y ∷ t) (ap₂ interleave (next a) (next b)))
          rest)

  prefix :
      (n : ℕ) (a : PlantArray)
      → n ≤ a.count
      → tabulate n (λ j. get_or a.items (0 + j) null) ≡ tabulate n (λ j. get_or (contents a) j null)
  unfolding contents
  prefix n a h = tabulate-ext n _ _ λ j p.
      ap (λ k. get_or a.items k null) (omega arith)
      ∙ sym (get_or-take a.count a.items j null (omega arith))

  interleave_tables :
      (n : ℕ) (xs ys : List Value)
      → n ≤ length xs
      → n ≤ length ys
      → (n ≡ length xs) ⊎ (n ≡ length ys)
      → interleave (tabulate n (λ j. get_or xs j null)) (tabulate n (λ j. get_or ys j null))
        ≡ interleave xs ys
  unfolding interleave
  interleave_tables zero [] ys h k e = refl
  interleave_tables zero (x ∷ xs) [] h k e = refl
  interleave_tables zero (x ∷ xs) (y ∷ ys) h k e = absurd (omega arith)
  interleave_tables (suc n) [] ys h k e = elim h [ ]
  interleave_tables (suc n) (x ∷ xs) [] h k e = elim k [ ]
  interleave_tables (suc n) (x ∷ xs) (y ∷ ys) h k e =
      ap (λ t. x ∷ y ∷ t) (interleave_tables n xs ys (omega arith) (omega arith) (omega arith))

  -- Braiding two arrays gives the pairs of their elements at the same index, in order; the tail of
  -- the longer one is dropped.
  pub braid-interleave :
      (a b : PlantArray)
      → IsArray a
      → IsArray b
      → Holds (braid junk (some a) (some b)) (interleave (contents a) (contents b))
  unfolding braid
  braid-interleave a b v w =
      let n : ℕ = if ltb a.count b.count then a.count else b.count in
      let la = length-contents a v in
      let lb = length-contents b w in
      let na : n ≤ a.count = ground arith in
      let nb : n ≤ b.count = ground arith in
      subst (λ t. Holds (braid_items junk n 0 a b (list_create (pos 0))) t)
        (ap₂ interleave (prefix n a na) (prefix n b nb)
          ∙ interleave_tables n (contents a) (contents b) (omega arith) (omega arith)
              (ground arith))
        (braid_items-Holds n 0 a b _ [] (create-Holds (pos 0)))
