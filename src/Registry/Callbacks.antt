-- ===== src/Registry/Callbacks.antt =====
-- The callback registry of runtime/c/plant_runtime.c (`plant_cb_find` .. `plant_cb_get`): tags bound
-- to C functions in a growing table, of which the first `count` entries are in use.
pub mod Bindings
pub mod Entries
pub mod Laws
use plant_lang.Prelude.{
  ℕ, ◌+◌, ◌-◌, ◌*◌, Bool, true, false, List, [], ◌∷◌, ◌++◌, Option, none, some, ◌==◌, leb,
  if◌then◌else◌, get_or, set, take, replicate, Text, str_eq, find_index, move_down,
}

-- `plant_cb_t`: a context number and a word to a word
abbrev pub Callback : Type 0
Callback = ℕ → ℕ → ℕ

pub record CbEntry : Type 0 where
  pub tag : Text
  pub fn : Callback

-- `FFI_OK`, `FFI_ERR_SIGNATURE`, `FFI_ERR_MEMORY`, `FFI_ERR_CALLBACK`
pub data FfiError : Type 0 where
  ffi_ok signature memory callback : FfiError

pub record CbTable : Type 0 where
  pub table : List CbEntry
  pub cap : ℕ
  pub count : ℕ
  pub ffi_errno : FfiError

-- before the first registration: no table at all
abbrev pub cb_init : CbTable
cb_init = record { table = []; cap = 0; count = 0; ffi_errno = ffi_ok }

abbrev pub is_tag : Text → CbEntry → Bool
is_tag t e = str_eq e.tag t

unfoldable pub cb_find : Text → CbTable → Option ℕ
cb_find t s = find_index (is_tag t) (take s.count s.table)

-- `nc`
abbrev pub next_cap : ℕ → ℕ
next_cap cap = if cap == 0 then 8 else cap * 2

-- `junk` is what `realloc` leaves in a new entry; the Boolean argument says whether it succeeds
module _ (junk : CbEntry) where
  -- the growth of the table, or `none` where `realloc` returns `NULL`
  unfoldable pub cb_room : Bool → CbTable → Option CbTable
  cb_room grows s =
      if leb s.cap s.count
      then (if grows
          then some (record s {
            table = s.table ++ replicate (next_cap s.cap - s.cap) junk;
            cap = next_cap s.cap;
          })
          else none)
      else some s

  unfoldable pub cb_ensure : Bool → Text → Option Callback → CbTable → Text × CbTable
  unfolding cb_room
  cb_ensure grows tag none s = ([], record s { ffi_errno = signature })
  cb_ensure grows tag (some fn) s = elim (cb_find tag s) [
    | some i ↦ (
      tag,
      record s {
        table = set s.table i (record (get_or s.table i junk) { fn = fn });
        ffi_errno = ffi_ok;
      },
    )
    | none ↦ elim (cb_room grows s) [
      | none ↦ ([], record s { ffi_errno = memory })
      | some r ↦ (
        tag,
        record r {
          table = set r.table r.count (record { tag = tag; fn = fn });
          count = r.count + 1;
          ffi_errno = ffi_ok;
        },
      )
    ]
  ]

  -- `empty_text` is the literal `""`
  unfoldable pub cb_call : ℕ → Text → ℕ → ℕ → CbTable → ℕ × CbTable
  cb_call empty_text tag ctx val s = elim (cb_find tag s) [
    | none ↦ (empty_text, record s { ffi_errno = callback })
    | some i ↦ ((get_or s.table i junk).fn ctx val, record s { ffi_errno = ffi_ok })
  ]

  unfoldable pub cb_unregister : Text → CbTable → CbTable
  cb_unregister tag s = elim (cb_find tag s) [
    | none ↦ s
    | some i ↦ record s { table = move_down junk (s.count - i - 1) i s.table; count = s.count - 1 }
  ]

  unfoldable pub cb_get : Text → CbTable → Option Callback
  cb_get tag s = elim (cb_find tag s) [ none ↦ none | some i ↦ some (get_or s.table i junk).fn ]
