-- ===== src/Containers/PairMap/Loops.antt =====
-- The indexed loops of the pair-list map as recursion on the pairs of the array's elements.

use plant_lang.Prelude.{
  ℕ, zero, suc, ◌+◌, ◌≤◌, ◌<◌, ◌≡◌, refl, sym, ap, ap₂, ◌∙◌, subst, Bool, true, false, List, [],
  ◌∷◌, ◌++◌, append_assoc, arith, ltb, if◌then◌else◌, length, get_or, set, take, drop, length-set,
  take-set_comm, get_or-take, Text, Bool-cases, inl, inr,
}
use plant_lang.Containers.Array.{Value, null, empty_text, PlantArray}
use plant_lang.Containers.Array.Contents.{IsArray, contents, length-contents, Holds, push-Holds}
use plant_lang.Containers.PairMap.{key_is, find_key, get_from, has_from, key_text, upsert}

module _ (raw : ℕ → Text) where
  -- The value beside the first key `k`, or the empty text.
  unfoldable pub lookup : Text → List Value → Value
  lookup k [] = empty_text
  lookup k (x ∷ []) = empty_text
  lookup k (x ∷ y ∷ r) = if key_is raw x k then y else lookup k r

  unfoldable pub has_key : Text → List Value → Bool
  has_key k [] = false
  has_key k (x ∷ []) = false
  has_key k (x ∷ y ∷ r) = if key_is raw x k then true else has_key k r

  -- The value beside the first such key replaced, or a new pair at the end.
  unfoldable pub insert : Value → Value → List Value → List Value
  insert key v [] = key ∷ v ∷ []
  insert key v (x ∷ []) = x ∷ key ∷ v ∷ []
  insert key v (x ∷ y ∷ r) =
      if key_is raw x (key_text raw key) then x ∷ v ∷ r else x ∷ y ∷ insert key v r

module _ {ℓ} {A : Type ℓ} where
  drop_two :
      (i : ℕ) (l : List A) (d : A)
      → i + 1 < length l
      → drop i l ≡ get_or l i d ∷ get_or l (i + 1) d ∷ drop (i + 2) l
  drop_two i [] d h = elim h [ ]
  drop_two zero (x ∷ []) d h = absurd (omega arith)
  drop_two zero (x ∷ y ∷ r) d h = refl
  drop_two (suc i) (x ∷ l) d h =
      let e : suc i + 1 ≡ suc (i + 1) = omega arith in
      let f : suc i + 2 ≡ suc (i + 2) = omega arith in rw (e, f) (drop_two i l d (omega arith))

  take_two :
      (i : ℕ) (l : List A) (d : A)
      → i + 1 < length l
      → take (i + 2) l ≡ take i l ++ get_or l i d ∷ get_or l (i + 1) d ∷ []
  take_two i [] d h = elim h [ ]
  take_two zero (x ∷ []) d h = absurd (omega arith)
  take_two zero (x ∷ y ∷ r) d h = refl
  take_two (suc i) (x ∷ l) d h =
      let e : suc i + 1 ≡ suc (i + 1) = omega arith in
      let f : suc i + 2 ≡ suc (i + 2) = omega arith in
      rw (e, f) (ap (λ t. x ∷ t) (take_two i l d (omega arith)))

  set_two :
      (i : ℕ) (l : List A) (v d : A)
      → i + 1 < length l
      → set l (i + 1) v ≡ take i l ++ get_or l i d ∷ v ∷ drop (i + 2) l
  set_two i [] v d h = elim h [ ]
  set_two zero (x ∷ []) v d h = absurd (omega arith)
  set_two zero (x ∷ y ∷ r) v d h = refl
  set_two (suc i) (x ∷ l) v d h =
      let e : suc i + 1 ≡ suc (i + 1) = omega arith in
      let f : suc i + 2 ≡ suc (i + 2) = omega arith in
      rw (e, f) (ap (λ t. x ∷ t) (set_two i l v d (omega arith)))

  take-append-drop : (i : ℕ) (l : List A) → take i l ++ drop i l ≡ l
  take-append-drop zero l = refl
  take-append-drop (suc i) [] = refl
  take-append-drop (suc i) (x ∷ l) = ap (λ t. x ∷ t) (take-append-drop i l)

  length-drop_le : (i : ℕ) (l : List A) → length l ≤ i + length (drop i l)
  length-drop_le zero l = omega arith
  length-drop_le (suc i) [] = omega arith
  length-drop_le (suc i) (x ∷ l) = omega (arith, length-drop_le i l)

  drop_short : (i : ℕ) (l : List A) → length l ≤ i + 1 → length (drop i l) ≤ 1
  drop_short zero l h = omega arith
  drop_short (suc i) [] h = omega arith
  drop_short (suc i) (x ∷ l) h = drop_short i l (omega arith)

module _ (raw : ℕ → Text) where
  lookup_short : (k : Text) (l : List Value) → length l ≤ 1 → lookup raw k l ≡ empty_text
  unfolding lookup
  lookup_short k [] h = refl
  lookup_short k (x ∷ []) h = refl
  lookup_short k (x ∷ y ∷ r) h = absurd (omega arith)

  has_key_short : (k : Text) (l : List Value) → length l ≤ 1 → has_key raw k l ≡ false
  unfolding has_key
  has_key_short k [] h = refl
  has_key_short k (x ∷ []) h = refl
  has_key_short k (x ∷ y ∷ r) h = absurd (omega arith)

  insert_short :
      (key v : Value) (l : List Value) → length l ≤ 1 → insert raw key v l ≡ l ++ key ∷ v ∷ []
  unfolding insert
  insert_short key v [] h = refl
  insert_short key v (x ∷ []) h = refl
  insert_short key v (x ∷ y ∷ r) h = absurd (omega arith)

  module _ (m : PlantArray) (good : IsArray m) where
    cell : (i : ℕ) → i < m.count → get_or (contents m) i null ≡ get_or m.items i null
    unfolding contents
    cell i h = get_or-take m.count m.items i null h

    pair_at :
        (i : ℕ)
        → i + 1 < m.count
        → drop i (contents m)
          ≡ get_or m.items i null ∷ get_or m.items (i + 1) null ∷ drop (i + 2) (contents m)
    pair_at i h =
        drop_two i (contents m) null (omega (arith, length-contents m good))
        ∙ ap₂ (λ (x y : Value). x ∷ y ∷ drop (i + 2) (contents m)) (cell i (omega arith))
            (cell (i + 1) h)

    short_at : (i : ℕ) → m.count ≤ i + 1 → length (drop i (contents m)) ≤ 1
    short_at i h = drop_short i (contents m) (omega (arith, length-contents m good))

    -- `plant_map_get` reads the first pair with the key.
    pub get_from-lookup :
        (k : Text) (n i : ℕ)
        → m.count ≤ i + n
        → get_from raw n i k m ≡ lookup raw k (drop i (contents m))
    unfolding get_from lookup
    get_from-lookup k zero i h = sym (lookup_short k _ (short_at i (omega arith)))
    get_from-lookup k (suc n) i h = elim (Bool-cases (ltb (i + 1) m.count)) [
      | inr past ↦ rw past (sym (lookup_short k _ (short_at i (ground arith))))
      | inl inside ↦
          rw (inside, pair_at i (ground arith))
            (ap
              (λ t. if key_is raw (get_or m.items i null) k then get_or m.items (i + 1) null else t)
              (get_from-lookup k n (i + 2) (omega arith)))
    ]

    pub has_from-has_key :
        (k : Text) (n i : ℕ)
        → m.count ≤ i + n
        → has_from raw n i k m ≡ has_key raw k (drop i (contents m))
    unfolding has_from has_key
    has_from-has_key k zero i h = sym (has_key_short k _ (short_at i (omega arith)))
    has_from-has_key k (suc n) i h = elim (Bool-cases (ltb (i + 1) m.count)) [
      | inr past ↦ rw past (sym (has_key_short k _ (short_at i (ground arith))))
      | inl inside ↦
          rw (inside, pair_at i (ground arith))
            (ap (λ t. if key_is raw (get_or m.items i null) k then true else t)
              (has_from-has_key k n (i + 2) (omega arith)))
    ]

    -- What `plant_link` writes once its loop has stopped at `p`.
    written : Value → Value → ℕ → List Value
    written key v p =
        if ltb (p + 1) m.count then set (contents m) (p + 1) v else contents m ++ key ∷ v ∷ []

    find_key-insert :
        (key v : Value) (n i : ℕ)
        → m.count ≤ i + n
        → written key v (find_key raw n i (key_text raw key) m)
          ≡ take i (contents m) ++ insert raw key v (drop i (contents m))
    unfolding find_key written insert
    find_key-insert key v zero i h =
        let past : ltb (i + 1) m.count ≡ false = ground arith in
        rw (past, insert_short key v (drop i (contents m)) (short_at i (omega arith)))
          (ap (λ t. t ++ key ∷ v ∷ []) (sym (take-append-drop i (contents m)))
            ∙ append_assoc (take i (contents m)) _ _)
    find_key-insert key v (suc n) i h = elim (Bool-cases (ltb (i + 1) m.count)) [
      | inr past ↦
          rw (past, past, insert_short key v (drop i (contents m)) (short_at i (ground arith)))
            (ap (λ t. t ++ key ∷ v ∷ []) (sym (take-append-drop i (contents m)))
              ∙ append_assoc (take i (contents m)) _ _)
      | inl inside ↦
          let x = get_or m.items i null in
          let y = get_or m.items (i + 1) null in
          let r = drop (i + 2) (contents m) in
          let fit : i + 1 < length (contents m) = ground (arith, length-contents m good) in
          let same = cell i (ground arith) in
          elim (Bool-cases (key_is raw x (key_text raw key))) [
            | inl hit ↦
                rw (inside, hit, inside, pair_at i (ground arith), hit)
                  (set_two i (contents m) v null fit
                    ∙ ap (λ t. take i (contents m) ++ t ∷ v ∷ r) same)
            | inr other ↦
                rw (inside, other, pair_at i (ground arith), other)
                  (find_key-insert key v n (i + 2) (omega arith)
                    ∙ ap (λ t. t ++ insert raw key v r)
                        (take_two i (contents m) null fit
                          ∙ ap₂ (λ (a b : Value). take i (contents m) ++ a ∷ b ∷ []) same
                              (cell (i + 1) (ground arith)))
                    ∙ append_assoc (take i (contents m)) (x ∷ y ∷ []) (insert raw key v r))
          ]
    ]

    -- Replacing or appending, as the code does it, is insertion into the list of pairs.
    pub upsert-Holds :
        (junk key v : Value) → Holds (upsert raw junk key v m) (insert raw key v (contents m))
    unfolding upsert written
    upsert-Holds junk key v =
        let stop = find_key-insert key v m.count 0 (omega arith) in
        subst (λ t. Holds (upsert raw junk key v m) t) stop
          (elim (Bool-cases (ltb (find_key raw m.count 0 (key_text raw key) m + 1) m.count)) [
            | inl inside ↦ rw inside (record {
              good = record { sized = length-set m.items _ v ∙ good.sized; fits = good.fits };
              reads = unfold contents in take-set_comm m.count m.items _ v;
            })
            | inr past ↦ rw past (
                rw (← append_assoc (contents m) (key ∷ []) (v ∷ []))
                  (push-Holds junk v (push-Holds junk key (record { good = good; reads = refl }))))
          ])
