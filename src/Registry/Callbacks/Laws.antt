-- ===== src/Registry/Callbacks/Laws.antt =====
-- What registering, calling and unregistering a callback do, on every branch.
use mathlib.Core.Option.{none-ne-some}
use plant_lang.Prelude.{
  ℕ, suc, ◌+◌, ◌-◌, ◌≤◌, ◌<◌, ◌≡◌, refl, sym, ap, ◌∙◌, true, false, [], none, some, arith, leb,
  if◌then◌else◌, length, get_or, set, take, length-set, take-set_comm, Text, str_eq, str_eq_iff,
  find_index, times-erase_idx, length-move_down, take-move_down, move_down, erase_idx, Option-cases,
  Bool-cases, inl, inr,
}
use plant_lang.Registry.Callbacks.{
  Callback, CbEntry, CbTable, FfiError, ffi_ok, signature, memory, is_tag, cb_find, cb_ensure,
  cb_unregister, cb_get,
}
use plant_lang.Registry.Callbacks.Bindings.{
  live, IsTable, fn_of, fn_of-set, fn_of-erase_idx, times-set_same,
}
use plant_lang.Registry.Callbacks.Entries.{
  length-live, index_below, entry_at, get-fn_of, append-IsTable, grown, live-grown, grown-IsTable,
}

-- `r` reports success, and the table binds the tag to the function and is otherwise as before.
pub record Bound (junk : CbEntry) (tag : Text) (fn : Callback) (s : CbTable) (r : Text × CbTable)
    : Type 0 where
  pub reply : r.0 ≡ tag
  pub errno : r.1.ffi_errno ≡ ffi_ok
  pub kept : IsTable r.1
  pub binds : (j : Text) → cb_get junk j r.1 ≡ (if str_eq tag j then some fn else cb_get junk j s)

-- `r` is the empty text with the error `e`, and the table binds what it bound.
pub record Failed (junk : CbEntry) (e : FfiError) (s : CbTable) (r : Text × CbTable) : Type 0 where
  pub reply : r.0 ≡ []
  pub errno : r.1.ffi_errno ≡ e
  pub kept : IsTable r.1
  pub same : (j : Text) → cb_get junk j r.1 ≡ cb_get junk j s

module _ (junk : CbEntry) (tag : Text) (s : CbTable) (v : IsTable s) where
  with_errno : (e : FfiError) → Failed junk e s ([], record s { ffi_errno = e })
  unfolding cb_get cb_find
  with_errno e = record {
    reply = refl;
    errno = refl;
    kept = record { sized = v.sized; fits = v.fits; once = v.once };
    same = λ j. refl;
  }

  tag-Bound :
      (fn : Callback) (t : CbTable)
      → t.ffi_errno ≡ ffi_ok
      → IsTable t
      → ((j : Text) → fn_of j (live t) ≡ (if str_eq tag j then some fn else fn_of j (live s)))
      → Bound junk tag fn s (tag, t)
  tag-Bound fn t e w h = record {
    reply = refl;
    errno = e;
    kept = w;
    binds = λ j. rw (get-fn_of junk t w j, get-fn_of junk s v j) (h j);
  }

  replaced : (fn : Callback) (i : ℕ) → CbTable
  replaced fn i = record s {
    table = set s.table i (record (get_or s.table i junk) { fn = fn });
    ffi_errno = ffi_ok;
  }

  replaced-Bound :
      (fn : Callback) (i : ℕ) → cb_find tag s ≡ some i → Bound junk tag fn s (tag, replaced fn i)
  replaced-Bound fn i e =
      let entry : CbEntry = record (get_or s.table i junk) { fn = fn } in
      let here = entry_at junk s v tag i e in
      let same : live (replaced fn i)
          ≡ set (live s) i (record (get_or (live s) i junk) { fn = fn }) =
        unfold replaced in
        (take-set_comm s.count s.table i entry
          ∙ ap (λ (x : CbEntry). set (live s) i (record x { fn = fn })) (sym here)) in
      tag-Bound fn (replaced fn i) (unfold replaced in refl)
        (record {
          sized = unfold replaced in (length-set s.table i entry ∙ v.sized);
          fits = unfold replaced in v.fits;
          once = λ t. rw (same, times-set_same tag junk t fn (live s) i) (v.once t);
        })
        (λ j. ap (fn_of j) same ∙ fn_of-set tag junk j fn (live s) i (unfold cb_find in e))

  appended : (fn : Callback) (t : CbTable) → CbTable
  appended fn t = record t {
    table = set t.table t.count (record { tag = tag; fn = fn });
    count = t.count + 1;
    ffi_errno = ffi_ok;
  }

  appended-Bound :
      (fn : Callback) (t : CbTable)
      → IsTable t
      → t.count < t.cap
      → live t ≡ live s
      → cb_find tag s ≡ none
      → Bound junk tag fn s (tag, appended fn t)
  unfolding appended
  appended-Bound fn t w room same e =
      let absent : cb_find tag t ≡ none =
        unfold cb_find in (ap (find_index (is_tag tag)) same ∙ e) in
      let (good, reads) = append-IsTable junk t w tag fn room absent in
      tag-Bound fn (appended fn t) refl good
        (λ j. reads j ∙ ap (λ l. if str_eq tag j then some fn else fn_of j l) same)

  -- Registering a function, with memory to be had, returns the tag, clears the error and binds the
  -- tag to the function, whether the tag is new or known and whether the table must grow; every
  -- other tag keeps its function. A `NULL` function is refused with the signature error, and
  -- changes no binding.
  pub cb_ensure_lem :
      (fn : Callback)
      → Bound junk tag fn s (cb_ensure junk true tag (some fn) s)
        × Failed junk signature s (cb_ensure junk true tag none s)
  unfolding cb_ensure
  cb_ensure_lem fn = (
    elim (Option-cases (cb_find tag s)) [
      | inr (i, e) ↦ rw (e, cb_ensure) (let h = replaced-Bound fn i e in unfold replaced in h)
      | inl e ↦ elim (Bool-cases (leb s.cap s.count)) [
        | inr room ↦
            rw (e, room, cb_ensure)
              (let h = appended-Bound fn s v (ground arith) refl e in unfold appended in h)
        | inl full ↦
            let (w, room) = grown-IsTable junk s v (ground arith) in
            rw (e, full, cb_ensure)
              (let h = appended-Bound fn (grown junk s v) w room (live-grown junk s v) e in
                unfold appended grown in h)
      ]
    ],
    with_errno signature,
  )

  -- Where `realloc` fails, registering a new tag in a full table returns the empty text with the
  -- memory error and changes no binding.
  pub cb_ensure_no_memory :
      (fn : Callback)
      → cb_get junk tag s ≡ none
      → s.cap ≤ s.count
      → Failed junk memory s (cb_ensure junk false tag (some fn) s)
  unfolding cb_ensure
  cb_ensure_no_memory fn absent full = elim (Option-cases (cb_find tag s)) [
    | inr (i, e) ↦
        let bound : cb_get junk tag s ≡ some (get_or s.table i junk).fn =
          unfold cb_get in rw (e, cb_get) in
        absurd (none-ne-some _ (sym absent ∙ bound))
    | inl e ↦
        let full' : leb s.cap s.count ≡ true = ground arith in
        rw (e, full', cb_ensure) (with_errno memory)
  ]

  -- Unregistering a tag takes its function away and no other; a tag that is not bound is a no-op.
  pub cb_unregister_lem :
      IsTable (cb_unregister junk tag s)
      × ((j : Text)
          → cb_get junk j (cb_unregister junk tag s)
            ≡ (if str_eq tag j then none else cb_get junk j s))
  unfolding cb_unregister
  cb_unregister_lem = elim (Option-cases (cb_find tag s)) [
    | inl e ↦
        rw (e, cb_unregister)
          (
            v,
            λ j. elim (Bool-cases (str_eq tag j)) [
              | inr other ↦ rw other
              | inl same ↦
                  let q = (str_eq_iff tag j).0 same in
                  rw same (rw (← q) (unfold cb_get in rw (e, cb_get)))
            ],
          )
    | inr (i, e) ↦
        let b = index_below junk s v tag i e in
        let n = s.count - i - 1 in
        let t : CbTable = record s { table = move_down junk n i s.table; count = s.count - 1 } in
        let f = v.fits in
        let z = v.sized in
        let split : s.count - 1 ≡ i + n = omega arith in
        let whole : suc (i + n) ≡ s.count = omega arith in
        let moved : live t ≡ erase_idx i (live s) =
          ap (λ m. take m (move_down junk n i s.table)) split
          ∙ take-move_down junk n i s.table (omega arith)
          ∙ ap (λ m. erase_idx i (take m s.table)) whole in
        let below : i < length (live s) = omega (arith, length-live junk s v) in
        let w : IsTable t = record {
          sized = length-move_down junk n i s.table ∙ v.sized;
          fits = omega arith;
          once = λ j. rw moved (
              let o = v.once j in
              let r = times-erase_idx (is_tag j) junk (live s) i below in omega arith);
        } in
        rw (e, cb_unregister)
          (
            w,
            λ j.
                rw (get-fn_of junk t w j, get-fn_of junk s v j, moved)
                  (fn_of-erase_idx tag junk j (live s) i (unfold cb_find in e) (v.once tag)),
          )
  ]
