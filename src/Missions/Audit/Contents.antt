-- ===== src/Missions/Audit/Contents.antt =====
-- What `plant_audit_dump` prints after a run of log calls.
use plant_lang.Prelude.{
  length-decimal_from, append-nil, append_assoc, length-append, codes, sym, some, ltb, false,
  if◌then◌else◌, ◌*◌, ◌++◌, Bool-cases, inl, inr, ℕ, zero, suc, ◌+◌, ◌-◌, ◌≤◌, ◌<◌, ◌≡◌, refl, ap,
  ap₂, ◌∙◌, List, [], ◌∷◌, Option, none, get_or, take, length, Text, arith, tabulate,
}
use plant_lang.Missions.Audit.{
  line_text, ev_text, overflow_text, print_overflow, written, then_overflow, dump_print, dump_size,
  number, c_str, AuditEv, Audit, no_ev, empty_audit, retained, nth, dump_from, audit_dump, or_empty,
}
use plant_lang.Missions.Audit.Chain.{
  log_step, full_log, audit_run, Holds, empty-Holds, run-Holds, nth-kept,
}

abbrev pub Call : Type 0
Call = Text × Option Text

-- the entry of the call number `seq`, without its link
abbrev pub line : ℕ → Call → ℕ × Text × Text
line seq (kind, msg) = (seq, take 23 (c_str kind), take 95 (c_str (or_empty msg)))

abbrev line_of : AuditEv → ℕ × Text × Text
line_of e = (e.seq, e.kind, e.msg)

abbrev pub no_call : Call
no_call = ([], none)

plus_zero : (t : ℕ) → 0 + t ≡ t
plus_zero t = omega arith

pub length-full_log :
    (cs : List Call) (es : List AuditEv) → length (full_log cs es) ≡ length cs + length es
unfolding full_log log_step
length-full_log [] es = omega arith
length-full_log ((kind, msg) ∷ cs) es = omega (arith, length-full_log cs (log_step kind msg es))

full_log-old :
    (cs : List Call) (es : List AuditEv) (t : ℕ)
    → get_or (full_log cs es) (length cs + t) no_ev ≡ get_or es t no_ev
unfolding full_log log_step
full_log-old [] es t = ap (λ n. get_or es n no_ev) (plus_zero t)
full_log-old ((kind, msg) ∷ cs) es t =
    ap (λ n. get_or (full_log cs (log_step kind msg es)) n no_ev)
      (let e : suc (length cs) + t ≡ length cs + suc t = omega arith in e)
    ∙ full_log-old cs (log_step kind msg es) (suc t)

-- the call `k`, of which `t` later ones follow
full_log-entry :
    (cs : List Call) (es : List AuditEv) (k t : ℕ)
    → suc (k + t) ≡ length cs
    → line_of (get_or (full_log cs es) t no_ev) ≡ line (length es + k) (get_or cs k no_call)
unfolding full_log log_step
full_log-entry [] es k t e = absurd (omega arith)
full_log-entry ((kind, msg) ∷ cs) es zero t e =
    ap (λ n. line_of (get_or (full_log cs (log_step kind msg es)) n no_ev))
      (let z : t ≡ length cs + 0 = omega arith in z)
    ∙ ap line_of (full_log-old cs (log_step kind msg es) 0)
    ∙ ap (λ n. line n (kind, msg)) (let z : length es ≡ length es + 0 = omega arith in z)
full_log-entry ((kind, msg) ∷ cs) es (suc k) t e =
    full_log-entry cs (log_step kind msg es) k t (omega arith)
    ∙ ap (λ n. line n (get_or cs k no_call))
        (let z : suc (length es) + k ≡ length es + suc k = omega arith in z)

-- the text of a line, and of all of them
abbrev pub text_of : ℕ × Text × Text → Text
text_of (seq, kind, msg) = line_text seq kind msg

unfoldable pub joined : List Text → Text
joined [] = []
joined (t ∷ ts) = t ++ joined ts

-- the last line, where entries were dropped
abbrev pub dropped_text : ℕ → Text
dropped_text n = if ltb 0 n then overflow_text n else []

length-take_le : (n : ℕ) (t : Text) → length (take n t) ≤ n
length-take_le zero t = omega arith
length-take_le (suc n) [] = omega arith
length-take_le (suc n) (c ∷ cs) = let h = length-take_le n cs in omega arith

take_whole : (n : ℕ) (t : Text) → length t ≤ n → take n t ≡ t
take_whole zero [] h = refl
take_whole zero (c ∷ cs) h = absurd (omega arith)
take_whole (suc n) [] h = refl
take_whole (suc n) (c ∷ cs) h = ap (λ r. c ∷ r) (take_whole n cs (omega arith))

-- a number of at most six digits
length-number : (n : ℕ) → n < 1000000 → length (number n) ≤ 6
length-number n h = let l = length-decimal_from 5 (n + 1) n [] h in omega arith

length-text_of : (seq : ℕ) (c : Call) → seq < 1000000 → length (text_of (line seq c)) ≤ 127
length-text_of seq (kind, msg) h =
    let k = take 23 (c_str kind) in
    let m = take 95 (c_str (or_empty msg)) in
    let digits = length-number seq h in
    let short_kind = length-take_le 23 (c_str kind) in
    let short_msg = length-take_le 95 (c_str (or_empty msg)) in
    let a = length-append (number seq) (b',' ∷ (k ++ b',' ∷ (m ++ 10 ∷ []))) in
    let b = length-append k (b',' ∷ (m ++ 10 ∷ [])) in
    let c = length-append m (10 ∷ []) in omega arith

-- a text that fits is printed behind what is there
dump_print-fits :
    (t out : Text)
    → length out + length t < dump_size
    → dump_print t (out, length out) ≡ some (out ++ t, length (out ++ t))
unfolding dump_print
dump_print-fits t out h =
    let room : ltb dump_size (length out) ≡ false = ground arith in
    rw (dump_print, room)
      (ap₂ (λ x n. some (out ++ x, n)) (take_whole (dump_size - length out - 1) t (omega arith))
        (sym (length-append out t)))

dump_from-fits :
    (rounds i : ℕ) (a : Audit) (out : Text) (f : ℕ → Text)
    → ((k : ℕ) → k < rounds → (ev_text (nth a (i + k)) ≡ f k) × (length (f k) ≤ 127))
    → length out + rounds * 127 < dump_size
    → dump_from rounds i a (out, length out)
      ≡ some (out ++ joined (tabulate rounds f), length (out ++ joined (tabulate rounds f)))
unfolding dump_from joined
dump_from-fits zero i a out f g h = ap (λ t. some (t, length t)) (sym (append-nil out))
dump_from-fits (suc rounds) i a out f g h =
    let (same, short) = g 0 (omega arith) in
    let here : ev_text (nth a i) ≡ f 0 =
      ap (λ n. ev_text (nth a n)) (let z : i ≡ i + 0 = omega arith in z) ∙ same in
    let len = length-append out (f 0) in
    ap (λ r. elim r [ none ↦ none | some b ↦ dump_from rounds (suc i) a b ])
      (ap (λ t. dump_print t (out, length out)) here ∙ dump_print-fits (f 0) out (omega arith))
    ∙ dump_from-fits rounds (suc i) a (out ++ f 0) (λ k. f (suc k))
        (λ k l.
          let (same_k, short_k) = g (suc k) (omega arith) in
          (
            ap (λ n. ev_text (nth a n)) (let z : suc i + k ≡ i + suc k = omega arith in z) ∙ same_k,
            short_k,
          ))
        (omega arith)
    ∙ ap (λ t. some (t, length t))
        (append_assoc out (f 0) (joined (tabulate rounds (λ k. f (suc k)))))

length-joined :
    (n : ℕ) (f : ℕ → Text)
    → ((k : ℕ) → k < n → length (f k) ≤ 127)
    → length (joined (tabulate n f)) ≤ n * 127
unfolding joined
length-joined zero f g = omega arith
length-joined (suc n) f g =
    let short = g 0 (omega arith) in
    let a = length-append (f 0) (joined (tabulate n (λ k. f (suc k)))) in
    let r = length-joined n (λ k. f (suc k)) (λ k l. g (suc k) (omega arith)) in omega arith

print_overflow-fits :
    (n : ℕ) (out : Text)
    → n < 1000000
    → length out + 24 < dump_size
    → written (print_overflow n (out, length out)) ≡ some (out ++ dropped_text n)
unfolding print_overflow
print_overflow-fits n out l h = elim (Bool-cases (ltb 0 n)) [
  | inr none_lost ↦ rw (print_overflow, none_lost) (ap some (sym (append-nil out)))
  | inl y ↦
      let digits = length-number n l in
      let a = length-append (codes "OVERFLOW ") (number n ++ codes " dropped\n") in
      let b = length-append (number n) (codes " dropped\n") in
      rw (print_overflow, y) (ap written (dump_print-fits (overflow_text n) out (omega arith)))
]

-- the line of the entry `k` of the dump
abbrev pub line_at : List Call → ℕ → Text
line_at calls k =
    text_of (line (length calls - 256 + k) (get_or calls (length calls - 256 + k) no_call))

-- After less than a million calls of `plant_audit_log`, `plant_audit_dump` stays inside its buffer and
-- prints one line for each of the newest 256 of them, oldest first, with its number and its texts cut
-- to 23 and 95 bytes; where more went before, a last line tells how many.
pub audit_dump-audit_run :
    (calls : List Call)
    → length calls < 1000000
    → audit_dump (audit_run calls empty_audit)
      ≡ some (
          joined (tabulate (length calls - (length calls - 256)) (line_at calls))
          ++ dropped_text (length calls - 256))
unfolding audit_dump
audit_dump-audit_run calls small =
    let f = run-Holds calls [] empty_audit empty-Holds in
    let a = audit_run calls empty_audit in
    let len = length-full_log calls [] in
    let c = f.counted in
    let few = f.few in
    let over = over_lem a.count a.overflow (length calls) few (omega arith) f.full in
    let kept = retained_lem a few in
    let n : retained a ≡ length calls - (length calls - 256) = omega arith in
    let short : (k : ℕ) → k < length calls - (length calls - 256) → length (line_at calls k) ≤ 127 =
      λ k h.
        length-text_of (length calls - 256 + k) (get_or calls (length calls - 256 + k) no_call)
          (omega arith) in
    let fits = length-joined (length calls - (length calls - 256)) (line_at calls) short in
    ap₂ (λ o r. written (then_overflow o (dump_from r 0 a ([], 0)))) over n
    ∙ ap (λ b. written (then_overflow (length calls - 256) b))
        (dump_from-fits (length calls - (length calls - 256)) 0 a [] (line_at calls)
          (λ k h. (ap text_of (entry f len k h (omega arith)), short k h)) (omega arith))
    ∙ print_overflow-fits (length calls - 256)
        (joined (tabulate (length calls - (length calls - 256)) (line_at calls))) (omega arith)
        (omega arith)
  where
    over_lem :
        (count over len : ℕ)
        → count ≤ 256
        → count + over ≡ len
        → (0 < over → count ≡ 256)
        → over ≡ len - 256
    over_lem count zero len h e g = omega arith
    over_lem count (suc over) len h e g = let full = g (omega arith) in omega arith

    retained_lem : (a : Audit) → a.count ≤ 256 → retained a ≡ a.count
    retained_lem a l = ground arith

    entry :
        Holds (full_log calls []) (audit_run calls empty_audit)
        → length (full_log calls []) ≡ length calls + 0
        → (k : ℕ) → k < length calls - (length calls - 256)
        → length calls - (length calls - 256) ≡ (audit_run calls empty_audit).count
        → line_of (nth (audit_run calls empty_audit) (0 + k))
          ≡ line (length calls - 256 + k) (get_or calls (length calls - 256 + k) no_call)
    entry f len k h e =
        let a = audit_run calls empty_audit in
        let t = a.count - 1 - k in
        let (w, same) = nth-kept (full_log calls []) a k t f (omega arith) in
        ap (λ n. line_of (nth a n)) (plus_zero k)
        ∙ ap line_of same
        ∙ full_log-entry calls [] (length calls - 256 + k) t (omega arith)
        ∙ ap (λ n. line n (get_or calls (length calls - 256 + k) no_call))
            (plus_zero (length calls - 256 + k))
