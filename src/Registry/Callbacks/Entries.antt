-- ===== src/Registry/Callbacks/Entries.antt =====
-- Reading, appending and growing the callback table.

use plant_lang.Prelude.{
  ℕ, ◌+◌, ◌-◌, ◌≤◌, ◌<◌, ◌≡◌, sym, ap, ◌∙◌, ◌++◌, none, some, arith, add-one, if◌then◌else◌, length,
  get_or, set, replicate, length-append, length-replicate, length-set, take-set, take_append_left,
  length-take, get_or-take, Text, str_eq, str_eq_iff, find_index, times, find_index-times,
  find_index-Found, times-append, Option-cases, Bool-cases, inl, inr,
}
use plant_lang.Registry.Callbacks.{
  Callback, CbEntry, CbTable, ffi_ok, is_tag, cb_find, next_cap, cb_get,
}
use plant_lang.Registry.Callbacks.Bindings.{
  live, IsTable, fn_of, fn_of-none, fn_of-find_index, fn_of-append,
}

module _ (junk : CbEntry) where
  module _ (s : CbTable) (v : IsTable s) where
    pub length-live : length (live s) ≡ s.count
    length-live = length-take s.count s.table (let e = v.sized in let f = v.fits in omega arith)

    pub index_below : (t : Text) (i : ℕ) → cb_find t s ≡ some i → i < s.count
    unfolding cb_find
    index_below t i e =
        let f = find_index-Found (is_tag t) junk (live s) i e in
        let b = f.below in omega (arith, length-live)

    pub entry_at :
        (t : Text) (i : ℕ) → cb_find t s ≡ some i → get_or (live s) i junk ≡ get_or s.table i junk
    entry_at t i e = get_or-take s.count s.table i junk (index_below t i e)

    pub get-fn_of : (t : Text) → cb_get junk t s ≡ fn_of t (live s)
    unfolding cb_find cb_get
    get-fn_of t = elim (Option-cases (cb_find t s)) [
      | inl e ↦
          rw (e, cb_get) (sym (fn_of-none t (live s) (find_index-times (is_tag t) (live s) e)))
      | inr (i, e) ↦
          rw (e, cb_get)
            (ap (λ (x : CbEntry). some x.fn) (sym (entry_at t i e))
              ∙ sym (fn_of-find_index t junk (live s) ∙ found t i e))
    ]
      where
        found :
            (t : Text) (i : ℕ)
            → find_index (is_tag t) (live s) ≡ some i
            → elim (find_index (is_tag t) (live s)) [
              | none ↦ none
              | some i ↦ some (get_or (live s) i junk).fn
            ]
              ≡ some (get_or (live s) i junk).fn
        found t i e = rw e

    -- The entry for an absent tag is appended.
    pub append-IsTable :
        (tag : Text) (fn : Callback)
        → s.count < s.cap
        → cb_find tag s ≡ none
        → let t : CbTable = record s {
          table = set s.table s.count (record { tag = tag; fn = fn });
          count = s.count + 1;
          ffi_errno = ffi_ok;
        } in
          IsTable t
          × ((j : Text) → fn_of j (live t) ≡ (if str_eq tag j then some fn else fn_of j (live s)))
    unfolding cb_find
    append-IsTable tag fn room absent =
        let e : CbEntry = record { tag = tag; fn = fn } in
        let end = take-set s.count s.table e (let q = v.sized in omega arith) in
        let none_yet = find_index-times (is_tag tag) (live s) absent in
        (
          record {
            sized = length-set s.table s.count e ∙ v.sized;
            fits = omega arith;
            once = λ j.
                rw (add-one, end, times-append)
                  (let o = v.once j in
                    elim (Bool-cases (str_eq tag j)) [
                      | inl same ↦
                          let q = (str_eq_iff tag j).0 same in
                          let z = rw q at none_yet in unfold times in ground arith
                      | inr other ↦ unfold times in ground arith
                    ]);
          },
          λ j. rw (add-one, end) (fn_of-append tag j fn (live s) none_yet),
        )

    unfoldable pub grown : CbTable
    grown = record s {
      table = s.table ++ replicate (next_cap s.cap - s.cap) junk;
      cap = next_cap s.cap;
    }

    -- Growing the table keeps what it holds.
    pub live-grown : live grown ≡ live s
    unfolding grown
    live-grown =
        take_append_left s.count s.table _ (let e = v.sized in let f = v.fits in omega arith)

    pub grown-IsTable : s.cap ≤ s.count → IsTable grown × (grown.count < grown.cap)
    grown-IsTable full =
        let b = v.fits in
        (
          record {
            sized =
                unfold grown in
                (length-append s.table (replicate (next_cap s.cap - s.cap) junk)
                  ∙ (let e = v.sized in
                      let n = length-replicate (next_cap s.cap - s.cap) junk in ground arith));
            fits = unfold grown in ground arith;
            once = λ t. rw live-grown (v.once t);
          },
          unfold grown in ground arith,
        )
