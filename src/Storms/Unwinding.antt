-- ===== src/Storms/Unwinding.antt =====
-- How a storm leaves a frame: `plant_calm` passes on what the shelters did not handle.
use plant_lang.Prelude.{
  ℕ, ◌<◌, ◌≡◌, ◌≢◌, refl, sym, ap, ◌∙◌, Bool, true, false, not, ◌&&◌, List, [], Option, none, some,
  arith, ==_iff, if◌then◌else◌, length, get_or, set, length-set, get_or-set_self, get_or-set_ne,
  Text, codes, Bool-cases, inl, inr, Option-cases,
}
use plant_lang.Storms.Frames.{
  Weather, no_weather, Reclaimer, Storms, frame, teardown, weather_leave, is_head, throw, throw_obj,
  pass_on, calm, or_default, field_or, returns, jumps, aborts,
}

module _ {ℓ} {H : Type ℓ} (r : Reclaimer H) (field : ℕ → Text → Text) where
  -- The type and the message under which a storm is passed on.
  abbrev pub type_out : Option ℕ → Option Text → Option Text
  type_out none type = type
  type_out (some o) type = some (field_or r field (some o) (codes "type") (codes "ANY_STORM"))

  abbrev pub msg_out : Option ℕ → Option Text → Option Text → Text
  msg_out none type msg = or_default r type msg
  msg_out (some o) type msg =
      field_or r field (some o) (codes "message") (codes "(unclassified storm)")

  abbrev obj_out : Option ℕ → Option ℕ → Option ℕ
  obj_out none old = old
  obj_out (some o) old = some o

  -- The frame that a storm reaches.
  abbrev armed : Option ℕ → Option Text → Option Text → Weather → Weather
  armed obj type msg w = record w {
    raised = true;
    exc_obj = obj_out obj w.exc_obj;
    exc_type = type_out obj type;
    exc_msg = some (msg_out obj type msg);
  }

  abbrev arrive : ℕ → Option ℕ → Option Text → Option Text → Storms H → Storms H
  arrive j obj type msg s = record s {
    frames = set s.frames j (armed obj type msg (get_or s.frames j no_weather));
  }

  pass_on-aborts :
      (obj : Option ℕ) (type msg : Option Text) (s : Storms H)
      → s.head ≡ none
      → pass_on r field true obj type msg s ≡ aborts (msg_out obj type msg)
  unfolding pass_on throw throw_obj
  pass_on-aborts none type msg s h = rw (h)
  pass_on-aborts (some o) type msg s h = rw (h)

  pass_on-jumps :
      (obj : Option ℕ) (type msg : Option Text) (s : Storms H) (j : ℕ)
      → s.head ≡ some j
      → pass_on r field true obj type msg s ≡ jumps j (arrive j obj type msg s)
  unfolding pass_on throw throw_obj
  pass_on-jumps none type msg s j h = rw (h)
  pass_on-jumps (some o) type msg s j h = rw (h)

  -- The storm of frame `i` has moved to frame `j`.
  pub record Moved (i j : ℕ) (s s' : Storms H) : Type ℓ where
    pub head : s'.head ≡ some j
    pub raised : (frame r s' j).raised ≡ true
    pub type : (frame r s' j).exc_type ≡ type_out (frame r s i).exc_obj (frame r s i).exc_type
    pub msg :
        (frame r s' j).exc_msg
        ≡ some (msg_out (frame r s i).exc_obj (frame r s i).exc_type (frame r s i).exc_msg)
    pub handled : (frame r s' j).handled ≡ (frame r s j).handled
    pub left : (frame r s' i).exits ≡ []
    pub heap : s'.heap ≡ (teardown r (frame r s i) s.heap).1
    pub others : (k : ℕ) → k ≢ i → k ≢ j → frame r s' k ≡ frame r s k

  -- What `plant_calm` does with a pending storm of a frame.
  abbrev pub PassesOn : ℕ → Storms H → Option ℕ → Type ℓ
  PassesOn i s none =
      calm r field (some i) s
      ≡ aborts (msg_out (frame r s i).exc_obj (frame r s i).exc_type (frame r s i).exc_msg)
  PassesOn i s (some j) = (s' : Storms H) × (calm r field (some i) s ≡ jumps j s') × Moved i j s s'

  module _ (i : ℕ) (s : Storms H) (h : s.head ≡ some i) where
    abbrev gone : Storms H
    gone = weather_leave r (some i) s

    gone-head : gone.head ≡ (frame r s i).next
    unfolding weather_leave
    gone-head =
        let top : is_head r i s ≡ true = rw (h, is_head) ((==_iff i i).1 refl) in
        rw (top, weather_leave)

    gone-frames : gone.frames ≡ set s.frames i (teardown r (frame r s i) s.heap).0
    unfolding weather_leave
    gone-frames = refl

    gone-heap : gone.heap ≡ (teardown r (frame r s i) s.heap).1
    unfolding weather_leave
    gone-heap = refl

    calm-pass_on :
        (b : Bool)
        → (frame r s i).raised && not (frame r s i).handled ≡ b
        → calm r field (some i) s
          ≡ pass_on r field b
              (frame r s i).exc_obj
              (frame r s i).exc_type
              (frame r s i).exc_msg
              gone
    unfolding calm
    calm-pass_on b e =
        ap
          (λ c.
            pass_on r field c (frame r s i).exc_obj (frame r s i).exc_type (frame r s i).exc_msg
              gone)
          e

    arrive-Moved :
        (j : ℕ)
        → i < length s.frames
        → j < length s.frames
        → i ≢ j
        → (frame r s i).next ≡ some j
        → Moved i j s
            (arrive j (frame r s i).exc_obj (frame r s i).exc_type (frame r s i).exc_msg gone)
    unfolding teardown
    arrive-Moved j fi fj apart n =
        let t = (teardown r (frame r s i) s.heap).0 in
        let w = frame r s i in
        let a = armed w.exc_obj w.exc_type w.exc_msg (get_or gone.frames j no_weather) in
        let fj' : j < length gone.frames =
          let l = length-set s.frames i t in let g = ap length gone-frames in omega arith in
        let at_j : get_or (set gone.frames j a) j no_weather ≡ a =
          get_or-set_self gone.frames j a no_weather fj' in
        let old : (k : ℕ) → k ≢ i → get_or gone.frames k no_weather ≡ frame r s k = λ k ki.
          ap (λ (l : List Weather). get_or l k no_weather) gone-frames
          ∙ get_or-set_ne s.frames i k t no_weather (λ e. ki (sym e)) in
        let at_i : get_or (set gone.frames j a) i no_weather ≡ t =
          get_or-set_ne gone.frames j i a no_weather (λ e. apart (sym e))
          ∙ ap (λ (l : List Weather). get_or l i no_weather) gone-frames
          ∙ get_or-set_self s.frames i t no_weather fi in
        record {
          head = gone-head ∙ n;
          raised = ap (λ (w : Weather). w.raised) at_j;
          type = ap (λ (w : Weather). w.exc_type) at_j;
          msg = ap (λ (w : Weather). w.exc_msg) at_j;
          handled =
              ap (λ (w : Weather). w.handled) at_j
              ∙ ap (λ (w : Weather). w.handled) (old j (λ e. apart (sym e)));
          left = ap (λ (w : Weather). w.exits) at_i;
          heap = gone-heap;
          others =
              λ k ki kj. get_or-set_ne gone.frames j k a no_weather (λ e. kj (sym e)) ∙ old k ki;
        }

  -- `plant_calm` on the innermost frame: without a pending storm it returns, with the frame left; a
  -- pending storm aborts the program where there is no outer frame, and otherwise jumps to the outer
  -- frame, which is then the innermost one and raised with the storm's type and message, whether it
  -- was thrown as texts or as an object; the handles of the frame that is left are freed, and no
  -- third frame is touched.
  pub calm-PassesOn :
      (i : ℕ) (s : Storms H)
      → s.head ≡ some i
      → i < length s.frames
      → ((j : ℕ) → (frame r s i).next ≡ some j → (i ≢ j) × (j < length s.frames))
      → if (frame r s i).raised && not (frame r s i).handled
        then PassesOn i s (frame r s i).next
        else calm r field (some i) s ≡ returns (weather_leave r (some i) s)
  calm-PassesOn i s h fit outer =
      elim (Bool-cases ((frame r s i).raised && not (frame r s i).handled)) [
        | inr quiet ↦ rw (quiet) (calm-pass_on i s h false quiet ∙ quiet_returns)
        | inl up ↦ elim (Option-cases (frame r s i).next) [
          | inl alone ↦
              rw (up, alone)
                (calm-pass_on i s h true up
                  ∙ pass_on-aborts _ _ _ (weather_leave r (some i) s) (gone-head i s h ∙ alone))
          | inr (j, n) ↦
              let (apart, fj) = outer j n in
              rw (up, n)
                (
                  arrive j (frame r s i).exc_obj (frame r s i).exc_type (frame r s i).exc_msg
                      (weather_leave r (some i) s),
                  calm-pass_on i s h true up
                      ∙ pass_on-jumps _ _ _ (weather_leave r (some i) s) j (gone-head i s h ∙ n),
                  arrive-Moved i s h j fit fj apart n,
                )
        ]
      ]
    where
      quiet_returns :
          pass_on r field false
            (frame r s i).exc_obj
            (frame r s i).exc_type
            (frame r s i).exc_msg
            (weather_leave r (some i) s)
          ≡ returns (weather_leave r (some i) s)
      quiet_returns = unfold pass_on in refl
