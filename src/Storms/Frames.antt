-- ===== src/Storms/Frames.antt =====
-- The WEATHER frames (`plant_weather_enter` .. `plant_throw`, `plant_weather_teardown` ..
-- `plant_weather_shelter_leave`, `plant_throw_obj`). Frames live in a store and are named by their
-- index there; `none` is `NULL`. `exit_list` and `exit_deferred` are one list of entries, as long as
-- `exit_count`; a `shelter_mark` of -1 is `none`.
use plant_lang.Prelude.{
  ℕ, Bool, true, false, not, ◌&&◌, List, [], ◌∷◌, ◌++◌, Option, none, some, leb, ◌==◌,
  if◌then◌else◌, length, get_or, set, take, drop, Text, codes, find_index, min,
}
use plant_lang.Storms.{storm_default_message}

pub record Exit : Type 0 where
  pub handle : ℕ
  pub deferred : Bool

pub record Weather : Type 0 where
  pub next : Option ℕ
  pub raised : Bool
  pub handled : Bool
  pub exc_type : Option Text
  pub exc_msg : Option Text
  pub exc_obj : Option ℕ
  pub exits : List Exit
  pub storm_handlers : ℕ
  pub shelter_mark : Option ℕ

abbrev pub no_weather : Weather
no_weather = record {
  next = none;
  raised = false;
  handled = false;
  exc_type = none;
  exc_msg = none;
  exc_obj = none;
  exits = [];
  storm_handlers = 0;
  shelter_mark = none;
}

-- What a frame needs of the memory that its handles stand for: `plant_weather_free_handle`, and the
-- loop that drains the deferred deallocations.
pub record Reclaimer {ℓ} (H : Type ℓ) : Type ℓ where
  pub free_handle : ℕ → H → H
  pub drain : H → H

pub record Storms {ℓ} (H : Type ℓ) : Type ℓ where
  pub frames : List Weather
  pub head : Option ℕ
  pub handling : Option ℕ
  pub heap : H

-- `PLANT_WEATHER_EXIT_MAX`
abbrev pub exit_max : ℕ
exit_max = 64

abbrev pub is_handle : ℕ → Exit → Bool
is_handle handle e = e.handle == handle

-- `plant_weather_register`, on the frame itself; a handle of 0 is `NULL`
unfoldable pub register : ℕ → Weather → Bool × Weather
register handle w =
    if handle == 0 then (false, w) else elim (find_index (is_handle handle) w.exits) [
      | some i ↦ (true, w)
      | none ↦ if leb exit_max (length w.exits) then (false, w) else (
        true,
        record w { exits = w.exits ++ record { handle = handle; deferred = false } ∷ [] },
      )
    ]

-- `plant_weather_defer_handle`, on the frame itself
unfoldable pub defer : ℕ → Weather → Bool × Weather
defer handle w =
    if handle == 0
    then (false, w)
    else elim (find_index (λ (e : Exit). not e.deferred && is_handle handle e) w.exits) [
      | none ↦ (false, w)
      | some i ↦
          (true, record w { exits = set w.exits i (record { handle = handle; deferred = true }) })
    ]

unfoldable pub shelter_enter : Weather → Weather
shelter_enter w = record w { shelter_mark = some (length w.exits) }

module _ {ℓ} {H : Type ℓ} (r : Reclaimer H) where
  -- `plant_weather_free_handle` on the entries whose flag is `flag`
  unfoldable pub free_where : Bool → List Exit → H → H
  free_where flag [] h = h
  free_where flag (e ∷ es) h = free_where flag es (
      if e.deferred
      then (if flag then r.free_handle e.handle h else h)
      else (if flag then h else r.free_handle e.handle h))

  unfoldable pub free_all : List Exit → H → H
  free_all [] h = h
  free_all (e ∷ es) h = free_all es (r.free_handle e.handle h)

  unfoldable pub teardown : Weather → H → Weather × H
  unfolding free_where
  teardown w h = (
    record w { exits = []; shelter_mark = none },
    r.drain (free_where false w.exits (free_where true w.exits h)),
  )

  -- the index from which `plant_weather_shelter_leave` frees
  abbrev pub mark_of : Weather → ℕ
  mark_of w = elim w.shelter_mark [ none ↦ 0 | some m ↦ min m (length w.exits) ]

  unfoldable pub shelter_leave : Weather → H → Weather × H
  unfolding free_all
  shelter_leave w h = (
    record w { exits = take (mark_of w) w.exits; shelter_mark = none },
    free_all (drop (mark_of w) w.exits) h,
  )

  abbrev pub frame : Storms H → ℕ → Weather
  frame s i = get_or s.frames i no_weather

  unfoldable pub weather_enter : Option ℕ → ℕ → Storms H → Storms H
  weather_enter none handlers s = s
  weather_enter (some i) handlers s = record s {
    frames = set s.frames i (record {
      next = s.head;
      raised = false;
      handled = false;
      exc_type = none;
      exc_msg = none;
      exc_obj = none;
      exits = [];
      storm_handlers = handlers;
      shelter_mark = none;
    });
    head = some i;
  }

  abbrev pub is_head : ℕ → Storms H → Bool
  is_head i s = elim s.head [ none ↦ false | some j ↦ i == j ]

  unfoldable pub weather_leave : Option ℕ → Storms H → Storms H
  unfolding teardown
  weather_leave none s = s
  weather_leave (some i) s =
      let t = teardown (frame s i) s.heap in
      record s {
        frames = set s.frames i t.0;
        head = if is_head i s then (frame s i).next else s.head;
        heap = t.1;
      }

  -- how a call ends: it returns, it jumps to the checkpoint of a frame, or it aborts the program
  pub data Outcome : Type ℓ where
    returns : Storms H → Outcome
    jumps : ℕ → Storms H → Outcome
    aborts : Text → Outcome

  abbrev pub or_default : Option Text → Option Text → Text
  or_default type none = storm_default_message type
  or_default type (some m) = m

  unfoldable pub throw : Option Text → Option Text → Storms H → Outcome
  throw type msg s = elim s.head [
    | none ↦ aborts (or_default type msg)
    | some i ↦ jumps i (record s {
      frames = set s.frames i (record (frame s i) {
        raised = true;
        exc_type = type;
        exc_msg = some (or_default type msg);
      });
    })
  ]

  -- `field` is what `_map_get` finds in the object under a key
  module _ (field : ℕ → Text → Text) where
    abbrev pub field_or : Option ℕ → Text → Text → Text
    field_or none key default = default
    field_or (some obj) key default = elim (field obj key) [ [] ↦ default | c ∷ cs ↦ c ∷ cs ]

    unfoldable pub throw_obj : Option ℕ → Storms H → Outcome
    throw_obj obj s =
        let msg = field_or obj (codes "message") (codes "(unclassified storm)") in
        elim s.head [
          | none ↦ aborts msg
          | some i ↦ jumps i (record s {
            frames = set s.frames i (record (frame s i) {
              raised = true;
              exc_obj = obj;
              exc_type = some (field_or obj (codes "type") (codes "ANY_STORM"));
              exc_msg = some msg;
            });
          })
        ]

    -- the two calls at the end of `plant_calm`, by what is pending
    unfoldable pub pass_on : Bool → Option ℕ → Option Text → Option Text → Storms H → Outcome
    unfolding throw throw_obj
    pass_on false obj type msg s = returns s
    pass_on true (some obj) type msg s = throw_obj (some obj) s
    pass_on true none type msg s = throw type msg s

    unfoldable pub calm : Option ℕ → Storms H → Outcome
    unfolding weather_leave pass_on
    calm none s = returns s
    calm (some i) s =
        let w = frame s i in
        pass_on (w.raised && not w.handled) w.exc_obj w.exc_type w.exc_msg
          (weather_leave (some i) s)

-- `plant_exc_type`, `plant_exc_msg`
unfoldable pub exc_type_of {ℓ} : {H : Type ℓ} → Storms H → Text
exc_type_of s = elim s.head [
  | none ↦ []
  | some i ↦ elim (get_or s.frames i no_weather).exc_type [ none ↦ [] | some t ↦ t ]
]

unfoldable pub exc_msg_of {ℓ} : {H : Type ℓ} → Storms H → Text
exc_msg_of s = elim s.head [
  | none ↦ []
  | some i ↦ elim (get_or s.frames i no_weather).exc_msg [ none ↦ [] | some t ↦ t ]
]
