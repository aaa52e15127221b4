-- ===== src/Hashing/Iterator/Traversal.antt =====
-- A traversal of a well-formed hash map.
use plant_lang.Prelude.{
  subst, append-nil, Option, ℕ, zero, suc, ◌+◌, ◌≡◌, refl, sym, ap, ap₂, ◌∙◌, true, false, List, [],
  ◌∷◌, ◌++◌, map, append_assoc, none, some, arith, ltb, if◌then◌else◌, length, length-append, Text,
  times,
}
use plant_lang.Hashing.Map.{Slot, vacant, used, PlantMap, map_keys, keys_from}
use plant_lang.Hashing.Map.Core.{IsCore, in_use}
use plant_lang.Hashing.Iterator.{
  PlantIterator, map_at, Item, entry, values_from, some_of, iterator_init, iterator_has_next,
  cached, item_of, iterator_next,
}

module _ {ℓ} {V : Type ℓ} where
  -- The entries of the slots in use, in slot order.
  unfoldable pub entries_of : List (Slot V) → List (Text × V)
  entries_of [] = []
  entries_of (vacant ∷ r) = entries_of r
  entries_of (used k v ∷ r) = (k, v) ∷ entries_of r

  abbrev pub entry_item : Text × V → Item V
  entry_item (k, v) = entry (some k) (some v)

  -- `while (plant_iterator_has_next(it)) { ... plant_iterator_next(it) ... }`, at most `n` rounds: the
  -- items, and the iterator as it is then
  unfoldable pub items : ℕ → Option (PlantIterator V) → List (Item V) × Option (PlantIterator V)
  unfolding iterator_has_next iterator_next
  items zero it = ([], it)
  items (suc n) it =
      let (item, it1) = iterator_next it in
      let (rest, it2) = items n it1 in if iterator_has_next it then (item ∷ rest, it2) else ([], it)

  abbrev fst : Text × V → Text
  fst (k, v) = k

  abbrev snd : Text × V → V
  snd (k, v) = v

  length-entries_of : (l : List (Slot V)) → length (entries_of l) ≡ times in_use l
  unfolding entries_of times
  length-entries_of [] = refl
  length-entries_of (vacant ∷ r) = omega (arith, length-entries_of r)
  length-entries_of (used k v ∷ r) = omega (arith, length-entries_of r)

  keys-entries_of :
      (n : ℕ) (l : List (Slot V))
      → n ≡ length (entries_of l)
      → keys_from n l ≡ map fst (entries_of l)
  unfolding keys_from entries_of
  keys-entries_of zero [] e = refl
  keys-entries_of (suc n) [] e = absurd (omega arith)
  keys-entries_of zero (vacant ∷ r) e = keys-entries_of zero r e
  keys-entries_of (suc n) (vacant ∷ r) e = keys-entries_of (suc n) r e
  keys-entries_of zero (used k v ∷ r) e = absurd (omega arith)
  keys-entries_of (suc n) (used k v ∷ r) e = ap (λ l. k ∷ l) (keys-entries_of n r (omega arith))

  values-entries_of :
      (n : ℕ) (l : List (Slot V))
      → n ≡ length (entries_of l)
      → values_from n l ≡ map snd (entries_of l)
  unfolding values_from entries_of
  values-entries_of zero [] e = refl
  values-entries_of (suc n) [] e = absurd (omega arith)
  values-entries_of zero (vacant ∷ r) e = values-entries_of zero r e
  values-entries_of (suc n) (vacant ∷ r) e = values-entries_of (suc n) r e
  values-entries_of zero (used k v ∷ r) e = absurd (omega arith)
  values-entries_of (suc n) (used k v ∷ r) e = ap (λ l. v ∷ l) (values-entries_of n r (omega arith))

  -- the iterator over cached entries, at an index
  abbrev over : List (Text × V) → ℕ → PlantIterator V
  over l i = record {
    kind = 0;
    index = i;
    size = length l;
    keys = some (map fst l);
    values = some (map snd l);
    array_data = none;
  }

  cached_behind {κ} :
      (A : Type κ) (f : Text × V → A) (p q : List (Text × V)) (x : Text × V)
      → cached (some (map f (p ++ x ∷ q))) (length p) ≡ some (f x)
  cached_behind A f [] q x = refl
  cached_behind A f (y ∷ p) q x = cached_behind A f p q x

  items_step :
      (n : ℕ) (it it1 : PlantIterator V) (x : Item V)
      → iterator_has_next (some it) ≡ true
      → iterator_next (some it) ≡ (x, some it1)
      → items (suc n) (some it) ≡ (x ∷ (items n (some it1)).0, (items n (some it1)).1)
  unfolding items
  items_step n it it1 x more e =
      ap
        (λ b.
          if b
          then (
            (iterator_next (some it)).0 ∷ (items n (iterator_next (some it)).1).0,
            (items n (iterator_next (some it)).1).1,
          )
          else ([], some it))
        more
      ∙ ap (λ r. (r.0 ∷ (items n r.1).0, (items n r.1).1)) e

  items-over :
      (p q : List (Text × V))
      → items (length q) (some (over (p ++ q) (length p)))
        ≡ (map entry_item q, some (over (p ++ q) (length (p ++ q))))
  unfolding items iterator_has_next iterator_next item_of
  items-over p [] = ap (λ n. ([], some (over (p ++ []) n))) (ap length (sym (append-nil p)))
  items-over p ((k, v) ∷ q) =
      let len = length-append p ((k, v) ∷ q) in
      let more : ltb (length p) (length (p ++ (k, v) ∷ q)) ≡ true = ground arith in
      let a = cached_behind Text fst p q (k, v) in
      let b = cached_behind V snd p q (k, v) in
      let rest = items-over (p ++ (k, v) ∷ []) q in
      let here : length (p ++ (k, v) ∷ []) ≡ length p + 1 = length-append p ((k, v) ∷ []) in
      let same : (p ++ (k, v) ∷ []) ++ q ≡ p ++ (k, v) ∷ q = append_assoc p ((k, v) ∷ []) q in
      let there : items (length q) (some (over (p ++ (k, v) ∷ q) (length p + 1)))
          ≡ (map entry_item q, some (over (p ++ (k, v) ∷ q) (length (p ++ (k, v) ∷ q)))) =
        ap₂ (λ l i. items (length q) (some (over l i))) (sym same) (sym here)
        ∙ rest
        ∙ ap (λ l. (map entry_item q, some (over l (length l)))) same in
      items_step (length q) (over (p ++ (k, v) ∷ q) (length p))
        (over (p ++ (k, v) ∷ q) (length p + 1)) (entry (some k) (some v)) more
        (rw (iterator_next, more, a, b) refl)
      ∙ ap (λ r. (entry (some k) (some v) ∷ r.0, r.1)) there

  abbrev started : ℕ → List Text → List V → PlantIterator V
  started n ks vs = record {
    kind = 0;
    index = 0;
    size = n;
    keys = some_of n ks;
    values = some_of n vs;
    array_data = none;
  }

  -- What `m.count` rounds from an iterator give, and that it is at its end then.
  abbrev Traverses : PlantMap V → List Text → List V → Type ℓ
  Traverses m ks vs =
      ((items m.count (some (started m.count ks vs))).0 ≡ map entry_item (entries_of m.entries))
      × (iterator_has_next (items m.count (some (started m.count ks vs))).1 ≡ false)

  -- An iterator over a well-formed hash map gives the key and the value of every slot in use, in slot
  -- order, each once, in as many rounds as the map counts entries, and then has no next item.
  pub traversal_lem :
      (m : PlantMap V) (it : PlantIterator V)
      → IsCore m
      → ((items m.count (some (iterator_init (map_at m) it))).0
          ≡ map entry_item (entries_of m.entries))
        × (length (entries_of m.entries) ≡ m.count)
        × (iterator_has_next (items m.count (some (iterator_init (map_at m) it))).1 ≡ false)
  unfolding iterator_init map_keys
  traversal_lem m it c = let (a, b) = by_count m.count refl in (a, size, b)
    where
      size : length (entries_of m.entries) ≡ m.count
      size = length-entries_of m.entries ∙ c.counted

      by_count :
          (n : ℕ)
          → m.count ≡ n
          → Traverses m (keys_from m.count m.entries) (values_from m.count m.entries)
      by_count zero z =
          let ks = keys_from m.count m.entries in
          let vs = values_from m.count m.entries in
          unfold items iterator_has_next in
          (
            ap (λ k. (items k (some (started m.count ks vs))).0) z
                ∙ none_left (entries_of m.entries) (size ∙ z),
            ap (λ k. iterator_has_next (items k (some (started m.count ks vs))).1) z
                ∙ ap (λ k. ltb 0 k) z,
          )
        where
          none_left : (l : List (Text × V)) → length l ≡ 0 → [] ≡ map entry_item l
          none_left [] e = refl
          none_left (x ∷ l) e = absurd (omega arith)
      by_count (suc k) z =
          let l = entries_of m.entries in
          let whole : items m.count (some (started m.count (map fst l) (map snd l)))
              ≡ (map entry_item l, some (over l (length l))) =
            ap (λ n. items n (some (started n (map fst l) (map snd l)))) z
            ∙ ap
                (λ n. items n (
                  some (record {
                    kind = 0;
                    index = 0;
                    size = n;
                    keys = some (map fst l);
                    values = some (map snd l);
                    array_data = none;
                  })))
                (sym z ∙ sym size)
            ∙ items-over [] l in
          let done : ltb (length l) (length l) ≡ false = ground arith in
          subst (λ ks. Traverses m ks (values_from m.count m.entries))
            (sym (keys-entries_of m.count m.entries (sym size)))
            (subst (λ vs. Traverses m (map fst l) vs)
              (sym (values-entries_of m.count m.entries (sym size)))
              (
                ap (λ r. r.0) whole,
                unfold iterator_has_next in ap (λ r. iterator_has_next r.1) whole ∙ done,
              ))
