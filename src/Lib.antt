-- ===== src/Lib.antt =====
-- The data structures and registries of the PlantLang C runtime.
--
-- The runtime under runtime/c is linked with every compiled PlantLang program: the generated code
-- keeps all its lists, maps, queues, stacks, locks and callbacks in the structures that
-- plant_runtime.c defines. A value is a pointer-sized word (`tx_t`), `NULL` stands for "nothing" and
-- the empty text for "no element".
--
-- Parts, of runtime/c/plant_runtime.c where no other file is named, with their structs in plant_runtime.h and plant_compat.h:
--   * Containers/Array: the dynamic array (`plant_list_create` .. `plant_list_remove`, `plant_braid`),
--     `PlantArray`, `list_create` .. `list_remove`, `braid`. An array is its slots, count and
--     capacity; what `realloc` leaves in new slots is the parameter `junk`.
--   * Containers/PairMap: the map as an array of key-value pairs (`plant_map_create`,
--     `plant_map_set`, the array branches of `plant_map_get` and `plant_map_has`, `plant_link`,
--     `plant_braid_map`), on top of Containers/Array. The parameter `raw` gives the text that the
--     memory of an array reads as where the code takes one for a C string.
--   * Containers/Queue and Containers/Stack: `queue_create` .. `queue_size`, a ring that doubles, and
--     `stack_create` .. `stack_size`.
--   * Hashing/Map: the hash map of the FFI (`_plant_hash_str`, `plant_map_hash_create`,
--     `plant_map_hash_set` with `_plant_map_grow`, the hash branches of `plant_map_get` and
--     `plant_map_has`, `plant_map_keys`). `hash_set` and the growth call each other, so `set_at`
--     carries the depth of the calls; two levels are enough from every well-formed map, as the
--     statement about `hash_set` says.
--   * Hashing/Ring: the consistent-hash ring (`plant_dist_hash`, `plant_dist_ring_build`,
--     `plant_dist_place`, `plant_dist_init`). The sort and the binary search are the code's loops; the
--     search has one round more than the ring has points, which is enough since each round shortens
--     the interval.
--   * Hashing/Set: the set (`_set_hash` .. `set_to_list`), a table with linear probing and marks for
--     removed values. A probe has as many rounds as the table has slots, which is enough since a set
--     always has a free slot and a probe passes every slot.
--   * Storms, with Frames, Exits, Shelter and Unwinding: the storm registry and the WEATHER frames
--     (`plant_storm_match` .. `plant_throw`, `plant_weather_teardown` .. `plant_weather_shelter_leave`,
--     `plant_throw_obj`). A `longjmp` is the outcome `jumps`, an `abort` the outcome `aborts`. The
--     memory that handles stand for is the interface `Reclaimer`; Storms/Reclaiming fills it with the
--     heap of Memory/Arc (`plant_weather_free_handle`, the drain of `plant_weather_teardown`).
--   * Scheduling/Ready and Scheduling/Timers: the ready queue of the task engine (`plant_pq_push` ..
--     `plant_pop_ready`), its timer list and the scaling of deadlines (`plant_timer_insert`,
--     `plant_timer_remove`, `plant_next_timer`, `plant_ctx_tick`); the clock is an argument. The loops
--     of the heap have as many rounds as the index, or the length, that they start from.
--   * Hashing/Iterator: the iterator (`plant_iterator_init` .. `plant_iterator_next`).
--   * Memory/Slab: the string slab (`plant_slab_init` .. `plant_slab_free`).
--   * Memory/Arena: the segmented arenas (`plant_arena_alloc`, `plant_arena_free`); whether `malloc`
--     succeeds is an argument.
--   * Memory/Arc and Memory/Arc/Collect: the reference-counted heap (`plant_arc_destroy` ..
--     `plant_lease_evict`). An object is named by its `alloc_seq`, and an operation that reads a freed
--     object is a fault, `none`; so is a marking that runs out of its fuel, the number of objects and
--     one more, and the statements on collections and runs say that neither occurs. The clock, the
--     settings and whether `calloc` succeeds are arguments.
--   * Missions/Modes: the mode stack, the boundary guard and the capabilities of the mission modes
--     (`plant_mode_push` .. `plant_cap_check`, `plant_boundary_block`, `plant_safe_grant`,
--     `plant_syscall_check`, the entries and exits of FAST, SAFE, SMART and PERSISTENT). A mask is
--     its four bits. What an entry does to memory and workers stands in the next four:
--   * Missions/Fast: the bump heap of FAST (`plant_fast_init` .. `plant_fast_reset`). A bump block is
--     the base of the heap, as it was then, and its offset; what `malloc` and `realloc` give are
--     arguments.
--   * Missions/Pool: the pool of SAFE (`plant_pool_spawn` .. `plant_safe_exit`); the clock and the
--     settings are arguments.
--   * Missions/Channel: the channel of a SAFE action (`plant_safe_channel_open` .. `plant_safe_recv`).
--     It holds the address of a text in a store; to read or free a freed text is a fault, `none`.
--   * Missions/Router: the router of SMART (`plant_vec_init` .. `plant_smart_enter`). Its loops have as
--     many rounds as a pool has places, and as the data set has elements, which is enough since each
--     round adds a worker, or hands out at least one element.
--   * Missions/Audit: the audit log (`plant_audit_hash` .. `plant_audit_dump`, `plant_audit_tamper`), a
--     ring of 256 entries with a hash chain on 64 bits, and the dump into a buffer of 32768 bytes; to
--     print beyond its end is a fault. The other parts leave their log entries out.
--   * Imports: the expansion of IMPORT lines (`_imp_list_push` .. `_imp_expand`, `plant_import_load`);
--     which text a path holds is an argument.
--   * Frontend/Lexer and Frontend/Parser: the interfaces of runtime/c/plant_lexer.c and
--     runtime/c/plant_parser.c; the generated functions behind them are the parameters `Generated`
--     and `GeneratedParser`.
--   * Registry/Locks: the lock table (`plant_lock` .. `plant_lock_status`), 64 entries.
--   * Registry/Fds: the closed descriptors (`_plant_fd_is_closed` .. `_plant_close_raw`), 128 entries;
--     whether close(2) succeeds is a parameter.
--   * Registry/Callbacks: the callback table (`plant_cb_find` .. `plant_cb_get`); whether `realloc`
--     succeeds is a parameter.
--   * Prelude: lists over the native numbers, C strings, decimal digits, searches, masks.
--   * Tests: the theorems at concrete inputs.
--
-- Mutable state is passed explicitly: an operation on a struct takes the record and gives the new
-- one, and `none` is the `NULL` handle. Loops with a counter recurse on the number of rounds left,
-- which their callers set to the loop's bound. Numbers are natural numbers; the hash keeps its
-- wrap-around at 64 bits. Sizes are taken to stay below the range of their C types, and `plant_alloc`
-- and `calloc` to succeed. Strings are the values that their pointers read as, so an edit of a
-- string in place, behind the back of a table that stores its pointer, is outside the model.
--
-- Not modelled: networking, files, processes and formatted output but for the audit dump, which only
-- call the operating system; the floating-point kernels (plant_math.c, plant_tensor.c,
-- plant_autograd.c, plant_ad2.c, plant_complex.c, plant_geo.c); the code generator's interface
-- (plant_codegen.c); the sharing of arenas and the task engine above the ready queue; the worker
-- processes of SAFE; and the freeing of memory, but for the arenas, the slab, the ARC heap, the exit
-- lists and the SAFE channel.
pub mod Prelude
pub mod Containers
pub mod Registry
pub mod Hashing
pub mod Storms
pub mod Frontend
pub mod Scheduling
pub mod Memory
pub mod Missions
pub mod Imports
pub mod Tests
