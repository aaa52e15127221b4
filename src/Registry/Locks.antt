-- ===== src/Registry/Locks.antt =====
-- The lock table of runtime/c/plant_runtime.c (`plant_lock` .. `plant_lock_status`). A key is a C
-- string or `NULL` (`none`); the table has 64 entries, of which the first `count` are in use.
pub mod Exclusion
use plant_lang.Prelude.{
  ℕ, ◌+◌, ◌-◌, Bool, true, false, ◌&&◌, List, [], ◌∷◌, Option, none, some, leb, if◌then◌else◌,
  get_or, set, take, replicate, Text, str_eq, find_index,
}

pub record LockEntry : Type 0 where
  pub key : Text
  pub locked : Bool

pub record LockTable : Type 0 where
  pub table : List LockEntry
  pub count : ℕ

-- `PLANT_LOCK_MAX`
abbrev pub lock_max : ℕ
lock_max = 64

-- an entry of the zeroed table
abbrev pub no_lock : LockEntry
no_lock = record { key = []; locked = false }

abbrev pub lock_init : LockTable
lock_init = record { table = replicate lock_max no_lock; count = 0 }

-- the texts "1", "0", "ERR:undefined" and "ERR:full" that `plant_lock` returns
pub data LockReply : Type 0 where
  acquired refused undefined full : LockReply

-- `g_lock_table[i].locked && strcmp(_S(g_lock_table[i].key), _S(key)) == 0`
abbrev pub holds : Text → LockEntry → Bool
holds key e = e.locked && str_eq e.key key

abbrev pub search_key : Text → LockTable → Option ℕ
search_key key t = find_index (holds key) (take t.count t.table)

unfoldable pub lock : Option Text → LockTable → LockReply × LockTable
lock none t = (undefined, t)
lock (some []) t = (undefined, t)
lock (some (c ∷ cs)) t = elim (search_key (c ∷ cs) t) [
  | some i ↦ (refused, t)
  | none ↦ if leb lock_max t.count then (full, t) else (
    acquired,
    record {
      table = set t.table t.count (record { key = c ∷ cs; locked = true });
      count = t.count + 1;
    },
  )
]

unfoldable pub lock_release : Option Text → LockTable → Bool × LockTable
lock_release none t = (false, t)
lock_release (some []) t = (false, t)
lock_release (some (c ∷ cs)) t = elim (search_key (c ∷ cs) t) [
  | none ↦ (false, t)
  | some i ↦ (
    true,
    record { table = set t.table i (get_or t.table (t.count - 1) no_lock); count = t.count - 1 },
  )
]

unfoldable pub lock_held : Option Text → LockTable → Bool
lock_held none t = false
lock_held (some []) t = false
lock_held (some (c ∷ cs)) t = elim (search_key (c ∷ cs) t) [ none ↦ false | some i ↦ true ]

-- the number that `plant_lock_status` reports
unfoldable pub lock_status : LockTable → ℕ
lock_status t = t.count
