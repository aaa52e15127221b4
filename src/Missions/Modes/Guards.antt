-- ===== src/Missions/Modes/Guards.antt =====
-- Which modes can call which: actions entered behind the boundary guard.
use plant_lang.Prelude.{
  ℕ, suc, ◌+◌, ◌≤◌, ◌≡◌, ◌≢◌, refl, ap, ◌∙◌, true, false, ◌||◌, ◌&&◌, List, [], ◌∷◌, ltb, ◌==◌,
  if◌then◌else◌, not, length, Text, codes, str_eq, arith, Bool-cases, inl, inr,
}
use plant_lang.Missions.Modes.{
  Modes, mode_push, mode_pop, mode_top, boundary_block, fast_enter, fast_exit, safe_enter,
  safe_exit, smart_enter, smart_exit, persist_enter, persist_exit, max_depth,
}

-- The modes whose actions are guarded.
pub data Mode : Type 0 where
  fast safe smart persistent : Mode

abbrev pub mode_name : Mode → Text
mode_name fast = codes "FAST"
mode_name safe = codes "SAFE"
mode_name smart = codes "SMART"
mode_name persistent = codes "PERSISTENT"

abbrev pub mode_char : Mode → ℕ
mode_char fast = b'F'
mode_char safe = b'S'
mode_char smart = b'M'
mode_char persistent = b'P'

abbrev pub enter : Mode → Modes → Modes
enter fast s = fast_enter s
enter safe s = safe_enter s
enter smart s = smart_enter s
enter persistent s = persist_enter s

abbrev pub leave : Mode → Modes → Modes
leave fast s = fast_exit s
leave safe s = safe_exit s
leave smart s = smart_exit s
leave persistent s = persist_exit s

-- Where a run of entries behind the guard and of exits can lead.
pub data Reached (s : Modes) : Modes → Type 0 where
  start : Reached s s
  enters :
      {t : Modes}
      → Reached s t
      → (m : Mode) → boundary_block (mode_name m) t ≡ false
      → Reached s (enter m t)
  leaves : {t : Modes} → Reached s t → (m : Mode) → Reached s (leave m t)

-- `inner` may run inside `outer`: nothing but SAFE and BALANCED code inside SAFE, and no SAFE inside
-- FAST or PERSISTENT.
abbrev pub MayRun : ℕ → ℕ → Type 0
MayRun inner outer =
    ((outer ≡ b'S') → inner ≡ b'S') × ((inner ≡ b'S') → (outer ≢ b'F') × (outer ≢ b'P'))

abbrev pub OnTop : ℕ → List ℕ → Type 0
OnTop inner [] = Unit
OnTop inner (outer ∷ stack) = MayRun inner outer

unfoldable pub Nested : List ℕ → Type 0
Nested [] = Unit
Nested (inner ∷ stack) = OnTop inner stack × Nested stack

names :
    (m : Mode)
    → (str_eq (mode_name m) (codes "SAFE") ≡ (mode_char m == b'S'))
      × ((str_eq (mode_name m) (codes "FAST")
            || (str_eq (mode_name m) (codes "SMART") || str_eq (mode_name m) (codes "PERSISTENT")))
          ≡ not (mode_char m == b'S'))
unfolding str_eq
names fast = (refl, refl)
names safe = (refl, refl)
names smart = (refl, refl)
names persistent = (refl, refl)

guarded-OnTop :
    (m : Mode) (s : Modes) → boundary_block (mode_name m) s ≡ false → OnTop (mode_char m) s.stack
guarded-OnTop m s g = go s.stack refl
  where
    go : (l : List ℕ) → s.stack ≡ l → OnTop (mode_char m) l
    go [] e = tt
    go (outer ∷ l) e = clear outer (unfold boundary_block in unfold mode_top in rw e at g)
      where
        clear :
            (outer : ℕ)
            → (if outer == b'F' && str_eq (mode_name m) (codes "SAFE")
                then true
                else if outer == b'S'
                    && (str_eq (mode_name m) (codes "FAST")
                        || (str_eq (mode_name m) (codes "SMART")
                            || str_eq (mode_name m) (codes "PERSISTENT")))
                then true
                else if outer == b'P' && str_eq (mode_name m) (codes "SAFE")
                then true
                else false)
              ≡ false
            → MayRun (mode_char m) outer
        clear outer g = let (a, b) = names m in ground (arith, a, b)

push-Nested : (c : ℕ) (l : List ℕ) → OnTop c l → Nested l → Nested (mode_push c l)
unfolding mode_push Nested
push-Nested c l top n = elim (Bool-cases (ltb (length l) max_depth)) [
  | inl y ↦ rw (mode_push, y) (top, n)
  | inr y ↦ rw (mode_push, y) n
]

push-le : (c : ℕ) (l : List ℕ) → length l ≤ 64 → length (mode_push c l) ≤ 64
unfolding mode_push
push-le c l h = ground arith

pop-Nested : (l : List ℕ) → Nested l → Nested (mode_pop l)
unfolding mode_pop Nested
pop-Nested [] n = tt
pop-Nested (c ∷ l) n = n.1

pop-le : (l : List ℕ) → length l ≤ 64 → length (mode_pop l) ≤ 64
unfolding mode_pop
pop-le [] h = h
pop-le (c ∷ l) h = omega arith

enter_stack : (m : Mode) (s : Modes) → (enter m s).stack ≡ mode_push (mode_char m) s.stack
unfolding fast_enter safe_enter smart_enter persist_enter
enter_stack fast s = refl
enter_stack safe s = refl
enter_stack smart s = refl
enter_stack persistent s = refl

leave_stack : (m : Mode) (s : Modes) → (leave m s).stack ≡ mode_pop s.stack
unfolding fast_exit safe_exit smart_exit persist_exit
leave_stack fast s = refl
leave_stack safe s = refl
leave_stack smart s = refl
leave_stack persistent s = refl

-- However actions are entered and left, as long as each entry stands behind `plant_boundary_block`
-- and the mode stack is in order at the start, it never shows a FAST, SMART or PERSISTENT action
-- directly inside a SAFE one, nor a SAFE action directly inside a FAST or PERSISTENT one, and it
-- never holds more than 64 modes.
pub modes-Nested :
    {s t : Modes}
    → Nested s.stack
    → length s.stack ≤ 64
    → Reached s t
    → Nested t.stack × (length t.stack ≤ 64)
modes-Nested n len start = (n, len)
modes-Nested n len (enters {t} r m g) =
    let (a, b) = modes-Nested n len r in
    rw (enter_stack m t)
      (push-Nested (mode_char m) t.stack (guarded-OnTop m t g) a, push-le (mode_char m) t.stack b)
modes-Nested n len (leaves {t} r m) =
    let (a, b) = modes-Nested n len r in
    rw (leave_stack m t) (pop-Nested t.stack a, pop-le t.stack b)

-- What an action does to the modes, with at most `n` actions inside one another: calls are entered
-- behind the guard and left at their end.
pub data Action : ℕ → Modes → Modes → Type 0 where
  idle : (n : ℕ) (s : Modes) → Action n s s
  call :
      (n : ℕ) (m : Mode) {s t u : Modes}
      → boundary_block (mode_name m) s ≡ false
      → Action n (enter m s) t
      → Action (suc n) (leave m t) u
      → Action (suc n) s u

-- An action leaves the mode stack as it found it, whatever it calls, as long as the calls do not nest
-- beyond the 64 places of the stack.
pub Action-stack :
    {n : ℕ} {s t : Modes} → Action n s t → length s.stack + n ≤ 64 → t.stack ≡ s.stack
unfolding mode_push mode_pop
Action-stack (idle n s) h = refl
Action-stack (call n m {s} {t} {u} g inside after) h =
    let room : ltb (length s.stack) max_depth ≡ true = ground arith in
    let pushed : (enter m s).stack ≡ mode_char m ∷ s.stack =
      enter_stack m s ∙ rw (mode_push, room) refl in
    let size = ap length pushed in
    let back = Action-stack inside (omega arith) in
    let popped : (leave m t).stack ≡ s.stack = leave_stack m t ∙ ap mode_pop (back ∙ pushed) in
    let size' = ap length popped in Action-stack after (omega arith) ∙ popped
