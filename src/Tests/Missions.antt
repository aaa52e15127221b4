-- ===== src/Tests/Missions.antt =====
-- Small runs of the mission modes, the FAST heap, the SAFE pool and channel, and the SMART router.
use plant_lang.Prelude.{
  take, ◌⊎◌, Option, ◌++◌, tabulate, ◌-◌, ◌≡◌, ◌≤◌, ◌<◌, refl, true, false, List, [], ◌∷◌, none,
  some, codes, Text, length, arith, ◌||◌, ◌&&◌, str_eq,
}
use plant_lang.Missions.Modes.{
  Modes, no_caps, cap_check, safe_enter, safe_exit, smart_enter, listed, zt_grants, boundary_block,
  mode_push, mode_pop, mode_top,
}
use plant_lang.Missions.Modes.Guards.{
  Reached, start, enters, leaves, smart, safe, Nested, modes-Nested,
}
use plant_lang.Missions.Modes.Grants.{grant_all, cap_check-grant_all, nested_safe-escalates}
use plant_lang.Missions.Fast.{FastHeap, FastConfig, bump, escape, fast_reset}
use plant_lang.Missions.Fast.Carving.{IsFit, sum}
use plant_lang.Missions.Fast.Carving.{addresses}
use plant_lang.Missions.Fast.Runs.{
  AllAt, Moves, escapes, Request, fast_run, Carved, fast_run-Carved,
}
use plant_lang.Missions.Pool.{busy, Pool, SafeConfig, pool_init, pool_tick, pool_acquire}
use plant_lang.Missions.Pool.Acquiring.{Acquires, IsStaffed, pool_acquire-Acquires}
use plant_lang.Missions.Channel.{Store, Channel, ChannelCall, send, send_big, recv, channel_run}
use plant_lang.Missions.Channel.Delivery.{NotIn, IsProper, mailbox, channel_refines_mailbox}
use plant_lang.Missions.Audit.{
  empty_audit, audit_dump, audit_chain_verify, audit_tamper, intact, tampered, nth, audit_log,
  entry_for,
}
use plant_lang.Missions.Audit.Chain.{audit_run}
use plant_lang.Missions.Audit.Contents.{line_at, joined, dropped_text, audit_dump-audit_run}
use plant_lang.Missions.Audit.Mixing.{IsBytes}
use plant_lang.Missions.Audit.Detection.{overwrite, audit_verify-detects}
use plant_lang.Missions.Audit.Tampering.{audit_tamper-detected}
use plant_lang.Missions.Router.{VecPool, SmartConfig, smart_dispatch}
use plant_lang.Missions.Router.Partition.{IsPool, Routed, smart_dispatch-Routed}

abbrev quiet : Modes
quiet = record {
  stack = [];
  safe_active = false;
  smart_active = false;
  persist_active = false;
  in_fast = false;
  safe_caps = no_caps;
  smart_caps = no_caps;
  persist_caps = no_caps;
}

-- a SMART action that calls a SAFE one, which calls a SAFE one and returns
abbrev demo_modes : Modes
demo_modes = safe_exit (safe_enter (safe_enter (smart_enter quiet)))

demo-Reached : Reached quiet demo_modes
unfolding boundary_block smart_enter safe_enter safe_exit mode_push mode_pop mode_top str_eq
demo-Reached = leaves (enters (enters (enters start smart refl) safe refl) safe refl) safe

quiet-Nested : Nested quiet.stack
unfolding Nested
quiet-Nested = tt

modes-Nested_example : Nested demo_modes.stack × (length demo_modes.stack ≤ 64)
modes-Nested_example =
    modes-Nested {s = quiet} {t = demo_modes} quiet-Nested (omega arith) demo-Reached

cap_check-grant_all_example :
    cap_check
      (codes "FILE_READ")
      (grant_all (codes "FILE_WRITE" ∷ codes "FILE_READ" ∷ []) (safe_enter quiet))
    ≡ ((str_eq (codes "FILE_READ") (codes "FILE_READ")
          || str_eq (codes "FILE_READ") (codes "NET_CONNECT"))
        && listed (codes "FILE_READ") (codes "FILE_WRITE" ∷ codes "FILE_READ" ∷ []))
cap_check-grant_all_example =
    cap_check-grant_all quiet (codes "FILE_WRITE" ∷ codes "FILE_READ" ∷ []) (codes "FILE_READ")

nested_safe-escalates_example :
    (boundary_block (codes "SAFE") (safe_enter quiet) ≡ false)
    × (mode_top (safe_exit (safe_enter (safe_enter quiet))).stack ≡ b'S')
    × ((cap : Text)
        → cap_check cap (safe_exit (safe_enter (safe_enter quiet))) ≡ listed cap zt_grants)
nested_safe-escalates_example = nested_safe-escalates quiet refl refl (omega arith)

abbrev fast_settings : FastConfig
fast_settings = record { first = 1000; cap = 32; limit = 64; align = 8 }

abbrev small_heap : FastHeap
small_heap = record {
  base = 1000;
  size = 32;
  used = 8;
  peak = 8;
  limit = 64;
  alignment = 8;
  inited = true;
  escalated = false;
  escaped = [];
  escaped_bytes = 0;
  shrinks = 0;
  shrink_cycles = 0;
}

small_heap-IsFit : IsFit small_heap
unfolding sum
small_heap-IsFit = record {
  aligned = (1, refl);
  strict = omega arith;
  inside = omega arith;
  below_peak = omega arith;
  bytes = refl;
  few = omega arith;
}

abbrev requests : List Request
requests =
    record { bytes = 5; grown = none; memory = none }
    ∷ record { bytes = 30; grown = some 1000; memory = none }
    ∷ record { bytes = 40; grown = none; memory = some 7000 }
    ∷ []

-- the second block makes the heap grow, the third goes to `malloc`
requests_run :
    ((fast_run fast_settings requests small_heap).0
      ≡ ((bump 1000 8, 5) ∷ (bump 1000 16, 30) ∷ (escape 7000, 40) ∷ []))
    × ((fast_run fast_settings requests small_heap).1.escaped_bytes ≡ 40)
unfolding fast_run
requests_run = (refl, refl)

fast_run-Carved_example :
    let (blocks, h1) = fast_run fast_settings requests small_heap in
    let (freed, h2) = fast_reset fast_settings (some 1000) h1 in
    Carved small_heap.alignment small_heap.used blocks h1.used
    × (h1.used ≤ h1.size)
    × (((h1.base ≡ small_heap.base) × AllAt small_heap.base blocks)
        ⊎ Moves small_heap.base requests)
    × (freed ≡ take 256 (addresses small_heap.escaped ++ escapes blocks))
    × (h2.used ≡ 0)
    × (h2.escaped ≡ [])
    × (h2.escaped_bytes ≡ 0)
    × IsFit h2
fast_run-Carved_example =
    fast_run-Carved fast_settings requests small_heap (some 1000) refl small_heap-IsFit

abbrev smart_settings : SmartConfig
smart_settings = record { scalar_limit = 10; chunk_size = 4; pool_cap = 1; pool_max = 2; cores = 8 }

abbrev fresh_pool : VecPool
fresh_pool = record {
  workers = [];
  cap = 0;
  max = 16;
  queue = 0;
  spawns = 0;
  served = 0;
  expands = 0;
  fallback = 0;
}

fresh_pool-IsPool : IsPool fresh_pool
fresh_pool-IsPool = record {
  some_worker = λ h. omega arith;
  within = λ h. omega arith;
  max_small = omega arith;
}

smart_dispatch-Routed_example :
    (18 < smart_settings.scalar_limit
      → smart_dispatch smart_settings 18 fresh_pool ≡ ([], fresh_pool))
    × (smart_settings.scalar_limit ≤ 18
        → Routed smart_settings 18 fresh_pool (smart_dispatch smart_settings 18 fresh_pool))
smart_dispatch-Routed_example =
    smart_dispatch-Routed smart_settings 18 fresh_pool (omega arith) fresh_pool-IsPool

abbrev safe_settings : SafeConfig
safe_settings = record { heartbeat_ms = 5000; response_ms = 10; starvation_ms = 50 }

-- two workers, the first busy and the second without a heartbeat for too long
abbrev starving_pool : Pool
starving_pool = record {
  workers =
      record {
        state = busy;
        last_heartbeat = 9000;
        spawn_seq = 0;
        busy_since = 9000;
        served_calls = 1;
      }
      ∷ record {
        state = busy;
        last_heartbeat = 100;
        spawn_seq = 0;
        busy_since = 100;
        served_calls = 1;
      }
      ∷ [];
  cap = 2;
  max = 4;
  spawns = 2;
  restarts = 0;
  fallback = false;
  served = 2;
  current = none;
  inline_calls = 0;
  pending_wait = 60;
}

starving_pool-IsStaffed : IsStaffed starving_pool
starving_pool-IsStaffed = record { any = omega arith; within = omega arith; small = omega arith }

pool_acquire-Acquires_example :
    Acquires safe_settings
      (pool_tick safe_settings 9100 (pool_init 9100 starving_pool))
      (pool_acquire safe_settings 9100 starving_pool)
    × IsStaffed (pool_acquire safe_settings 9100 starving_pool).1
pool_acquire-Acquires_example =
    pool_acquire-Acquires safe_settings 9100 starving_pool (λ h. starving_pool-IsStaffed)

abbrev empty_channel : Channel
empty_channel = record { buf = none; size = 0; copies = 0; transfers = 0; threshold = 4 }

abbrev two_texts : Store
two_texts = some (codes "abc") ∷ some (codes "abcdef") ∷ []

-- the short text, the long one in its place, and a big one for which there is no memory; then the
-- short one again
abbrev channel_calls : List ChannelCall
channel_calls =
    send true (some 0)
    ∷ send false (some 1)
    ∷ send_big false 9
    ∷ recv
    ∷ recv
    ∷ send true (some 0)
    ∷ recv
    ∷ []

channel_calls_run :
    channel_run channel_calls empty_channel two_texts
    ≡ some (codes "abcdef" ∷ [] ∷ codes "abc" ∷ [])
unfolding channel_run
channel_calls_run = refl

-- the long text twice: it is freed while the channel holds it
sent_twice :
    channel_run (send true (some 1) ∷ send true (some 1) ∷ recv ∷ []) empty_channel two_texts ≡ none
unfolding channel_run
sent_twice = refl

channel_calls-IsProper : IsProper empty_channel.threshold two_texts [] channel_calls
unfolding IsProper
channel_calls-IsProper =
    (codes "abc", refl, tt, (codes "abcdef", refl, tt, (codes "abc", refl, not_given, tt)))
  where
    not_given : NotIn 0 (1 ∷ [])
    not_given = unfold NotIn in (λ e. absurd (omega arith), tt)

channel_refines_mailbox_example :
    channel_run channel_calls empty_channel two_texts
    ≡ some (mailbox empty_channel.threshold two_texts channel_calls none)
channel_refines_mailbox_example =
    channel_refines_mailbox channel_calls empty_channel two_texts refl channel_calls-IsProper

abbrev audit_calls : List (Text × Option Text)
audit_calls =
    (codes "MODE_ENTER", some (codes "SAFE worker"))
    ∷ (codes "CAP_CHECK", some (codes "FILE_READ deny"))
    ∷ (codes "BOUNDARY", none)
    ∷ (codes "SAFE_GRANT", some (codes "FILE"))
    ∷ []

audit_dump-audit_run_example :
    audit_dump (audit_run audit_calls empty_audit)
    ≡ some (
        joined (tabulate (length audit_calls - (length audit_calls - 256)) (line_at audit_calls))
        ++ dropped_text (length audit_calls - 256))
audit_dump-audit_run_example = audit_dump-audit_run audit_calls (omega arith)

four_entries : 4 ≡ (audit_run audit_calls empty_audit).count
unfolding audit_run audit_log
four_entries = refl

some_entries : 1 < (audit_run audit_calls empty_audit).count
some_entries = let e = four_entries in omega arith

second_msg :
    (nth (audit_run audit_calls empty_audit) 1).msg ≡ codes "FILE_READ" ++ b' ' ∷ codes "deny"
unfolding audit_run audit_log entry_for
second_msg = refl

last_msg : (nth (audit_run audit_calls empty_audit) 3).msg ≡ b'F' ∷ codes "ILE"
unfolding audit_run audit_log entry_for
last_msg = refl

deny-IsBytes : IsBytes (codes "deny")
unfolding IsBytes
deny-IsBytes = (omega arith, (omega arith, (omega arith, (omega arith, tt))))

rest-IsBytes : IsBytes (codes "ILE")
unfolding IsBytes
rest-IsBytes = (omega arith, (omega arith, (omega arith, tt)))

-- the second message made to read "FILE_READ_deny"
audit_verify-detects_example :
    (audit_chain_verify (audit_run audit_calls empty_audit) ≡ intact)
    × (audit_chain_verify (
          overwrite 1
            (codes "FILE_READ" ++ b'_' ∷ codes "deny")
            (audit_run audit_calls empty_audit))
        ≡ tampered 1)
audit_verify-detects_example =
    audit_verify-detects audit_calls 1 (codes "FILE_READ") (codes "deny") b' ' b'_' some_entries
      second_msg (omega arith) (omega arith) deny-IsBytes (λ e. absurd (omega arith))
      (λ e. absurd (omega arith))

audit_tamper-detected_example :
    audit_chain_verify (audit_tamper (audit_run audit_calls empty_audit)) ≡ tampered 3
audit_tamper-detected_example =
    audit_tamper-detected audit_calls 3 b'F' (codes "ILE") four_entries last_msg
      (λ e. absurd (omega arith)) (omega arith) rest-IsBytes
