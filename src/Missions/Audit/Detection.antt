-- ===== src/Missions/Audit/Detection.antt =====
-- Changes of a logged message, and what `plant_audit_chain_verify` says of them.
use plant_lang.Prelude.{
  get_or-set_ne, get_or-set_self, ℕ, zero, suc, ◌-◌, ◌+◌, ◌%◌, ◌≤◌, ◌<◌, ◌≡◌, ◌≢◌, refl, sym, ap,
  ◌∙◌, subst, List, [], ◌∷◌, ◌++◌, ◌==◌, if◌then◌else◌, get_or, set, drop, length, Text, arith,
  Bool-cases, inl, inr, ==_iff,
}
use plant_lang.Missions.Audit.{
  empty_audit, Option, audit_chain_verify, AuditEv, Audit, audit_cap, fnv_offset, no_ev, audit_hash,
  intact, tampered, retained, base, nth, verify_from,
}
use plant_lang.Missions.Audit.Mixing.{HasNoNul, IsBytes, audit_hash-differs}
use plant_lang.Missions.Audit.Chain.{
  full_log-HasNoNul, full_log, full_log-Chained, empty-Holds, run-Holds, audit_run, nth-kept, top,
  Chained, Holds, top-drop, drop-none, none_over, below_cap,
}

Chained-get :
    (es : List AuditEv) (t : ℕ)
    → t < length es
    → Chained es
    → (get_or es t no_ev).chain
      ≡ audit_hash
          (top (drop (suc t) es))
          (get_or es t no_ev).seq
          (get_or es t no_ev).kind
          (get_or es t no_ev).msg
unfolding Chained
Chained-get [] t h c = absurd (omega arith)
Chained-get (e ∷ es) zero h (c, cs) = c
Chained-get (e ∷ es) (suc t) h (c, cs) = Chained-get es t (omega arith) cs

good_step :
    (rounds i h : ℕ) (a : Audit)
    → (nth a i).chain ≡ audit_hash h (nth a i).seq (nth a i).kind (nth a i).msg
    → verify_from (suc rounds) i h a ≡ verify_from rounds (suc i) (nth a i).chain a
unfolding verify_from
good_step rounds i h a e =
    let y =
      (==_iff (audit_hash h (nth a i).seq (nth a i).kind (nth a i).msg) (nth a i).chain).1
        (sym e) in
    ap (λ b. if b then verify_from rounds (suc i) (nth a i).chain a else tampered i) y

bad_step :
    (rounds i h : ℕ) (a : Audit)
    → audit_hash h (nth a i).seq (nth a i).kind (nth a i).msg ≢ (nth a i).chain
    → verify_from (suc rounds) i h a ≡ tampered i
unfolding verify_from
bad_step rounds i h a n =
    elim (Bool-cases (audit_hash h (nth a i).seq (nth a i).kind (nth a i).msg == (nth a i).chain)) [
      | inl y ↦ absurd (
          n (
            (==_iff (audit_hash h (nth a i).seq (nth a i).kind (nth a i).msg) (nth a i).chain).0 y))
      | inr z ↦ ap (λ b. if b then verify_from rounds (suc i) (nth a i).chain a else tampered i) z
    ]

-- an entry of a chained log is passed
log_step_passes :
    (es : List AuditEv) (a : Audit) (rounds i : ℕ)
    → Chained es
    → suc rounds ≤ length es
    → nth a i ≡ get_or es rounds no_ev
    → verify_from (suc rounds) i (top (drop (suc rounds) es)) a
      ≡ verify_from rounds (suc i) (top (drop rounds es)) a
log_step_passes es a rounds i c le g =
    good_step rounds i (top (drop (suc rounds) es)) a (
      subst (λ e. e.chain ≡ audit_hash (top (drop (suc rounds) es)) e.seq e.kind e.msg) (sym g)
        (Chained-get es rounds (omega arith) c))
    ∙ ap (λ h. verify_from rounds (suc i) h a)
        (ap (λ e. e.chain) g ∙ sym (top-drop rounds es (omega arith)))

-- The entries from `i` on are those of a log.
abbrev Agrees : List AuditEv → Audit → ℕ → ℕ → Type 0
Agrees es a i n = (j t : ℕ) → i ≤ j → suc (j + t) ≡ n → nth a j ≡ get_or es t no_ev

verify_from-intact :
    (es : List AuditEv) (a : Audit) (rounds i n : ℕ)
    → Chained es
    → rounds ≤ length es
    → i + rounds ≡ n
    → Agrees es a i n
    → verify_from rounds i (top (drop rounds es)) a ≡ intact
unfolding verify_from
verify_from-intact es a zero i n c le e g = refl
verify_from-intact es a (suc rounds) i n c le e g =
    log_step_passes es a rounds i c le (g i rounds (omega arith) (omega arith))
    ∙ verify_from-intact es a rounds (suc i) n c (omega arith) (omega arith)
        (λ j t l k. g j t (omega arith) k)

-- The entry `d` places behind `i` has been changed, and `t` more follow it.
verify_from-tampered :
    (es : List AuditEv) (a : Audit) (d i t : ℕ)
    → Chained es
    → suc (d + t) ≤ length es
    → ((j u : ℕ) → j < i + d → suc (j + u) ≡ suc (i + d + t) → nth a j ≡ get_or es u no_ev)
    → audit_hash
        (top (drop (suc t) es))
        (nth a (i + d)).seq
        (nth a (i + d)).kind
        (nth a (i + d)).msg
      ≢ (nth a (i + d)).chain
    → verify_from (suc (d + t)) i (top (drop (suc (d + t)) es)) a ≡ tampered (i + d)
verify_from-tampered es a zero i t c le g bad =
    let z : 0 + t ≡ t = omega arith in
    let w : i + 0 ≡ i = omega arith in
    ap (λ n. verify_from (suc n) i (top (drop (suc n) es)) a) z
    ∙ bad_step t i (top (drop (suc t) es)) a (
        subst
          (λ n.
            audit_hash (top (drop (suc t) es)) (nth a n).seq (nth a n).kind (nth a n).msg
            ≢ (nth a n).chain)
          w bad)
    ∙ ap tampered (sym w)
verify_from-tampered es a (suc d) i t c le g bad =
    let w : i + suc d ≡ suc i + d = omega arith in
    let z : suc d + t ≡ suc (d + t) = omega arith in
    ap (λ n. verify_from (suc n) i (top (drop (suc n) es)) a) z
    ∙ log_step_passes es a (suc (d + t)) i c (omega arith)
        (g i (suc (d + t)) (omega arith) (omega arith))
    ∙ verify_from-tampered es a d (suc i) t c (omega arith)
        (λ j u l k. g j u (omega arith) (omega arith))
        (subst
          (λ n.
            audit_hash (top (drop (suc t) es)) (nth a n).seq (nth a n).kind (nth a n).msg
            ≢ (nth a n).chain)
          w bad)
    ∙ ap tampered (sym w)

retained_lem : (a : Audit) → a.count ≤ 256 → retained a ≡ a.count
retained_lem a l = ground arith

-- what the verification starts from
start_lem :
    (es : List AuditEv) (a : Audit)
    → Holds es a
    → (if retained a == audit_cap then a.evicted else fnv_offset) ≡ top (drop a.count es)
unfolding top
start_lem es a f = rw (retained_lem a f.few) (elim (Bool-cases (a.count == 256)) [
  | inl y ↦ rw y (f.gone ∙ ap (λ n. top (drop n es)) (sym ((==_iff a.count 256).0 y)))
  | inr n ↦
      let c = f.counted in
      let lost = none_over a.overflow a.count f.full (below_cap a.count f.few n) in
      rw n (sym (ap top (drop-none a.count es (omega arith))))
])

-- the entry `i`, counted from the oldest, with another message
unfoldable pub overwrite : ℕ → Text → Audit → Audit
overwrite i msg a =
    let slot = (base a + i) % audit_cap in
    record a { ring = set a.ring slot (record (get_or a.ring slot no_ev) { msg = msg }) }

length-full_log_le : (es : List AuditEv) (a : Audit) → Holds es a → a.count ≤ length es
length-full_log_le es a f = let c = f.counted in omega arith

verify-intact :
    (es : List AuditEv) (a : Audit) → Holds es a → Chained es → audit_chain_verify a ≡ intact
unfolding audit_chain_verify
verify-intact es a f c =
    ap (λ h. verify_from (retained a) 0 h a) (start_lem es a f)
    ∙ ap (λ n. verify_from n 0 (top (drop a.count es)) a) (retained_lem a f.few)
    ∙ verify_from-intact es a a.count 0 a.count c (length-full_log_le es a f) (omega arith)
        (λ j t l k. (nth-kept es a j t f k).1)

overwrite-here :
    (es : List AuditEv) (a : Audit) (i : ℕ) (msg : Text)
    → Holds es a
    → nth (overwrite i msg a) i ≡ record (nth a i) { msg = msg }
unfolding overwrite
overwrite-here es a i msg f =
    let size = f.size in
    let slot = (base a + i) % audit_cap in
    get_or-set_self a.ring slot (record (get_or a.ring slot no_ev) { msg = msg }) no_ev
      (omega arith)

-- entries of different ages stand in different slots
slots_apart :
    (head i j t u : ℕ)
    → head < 256
    → j < i
    → suc (j + u) ≡ suc (i + t)
    → suc (i + t) ≤ 256
    → (head + 255 - t) % 256 ≢ (head + 255 - u) % 256
slots_apart head i j t u h l k m w = absurd (omega arith)

overwrite-others :
    (es : List AuditEv) (a : Audit) (i t : ℕ) (msg : Text)
    → Holds es a
    → suc (i + t) ≡ a.count
    → (j u : ℕ) → j < i
    → suc (j + u) ≡ suc (i + t)
    → nth (overwrite i msg a) j ≡ get_or es u no_ev
unfolding overwrite
overwrite-others es a i t msg f e j u l k =
    let few = f.few in
    let (place, same) = nth-kept es a i t f e in
    let (place_j, same_j) = nth-kept es a j u f (omega arith) in
    let slot = (base a + i) % audit_cap in
    get_or-set_ne a.ring slot ((base a + j) % audit_cap)
      (record (get_or a.ring slot no_ev) { msg = msg }) no_ev
      (λ w. slots_apart a.head i j t u f.in_ring l k (omega arith) (sym place ∙ w ∙ place_j))
    ∙ same_j

changed-differs :
    (es : List AuditEv) (t : ℕ) (b : AuditEv) (xs ys : Text) (x y : ℕ)
    → Chained es
    → t < length es
    → b ≡ get_or es t no_ev
    → b.msg ≡ xs ++ x ∷ ys
    → x < 256
    → y < 256
    → IsBytes ys
    → HasNoNul (xs ++ x ∷ ys)
    → y ≢ 0
    → x ≢ y
    → audit_hash (top (drop (suc t) es)) b.seq b.kind (xs ++ y ∷ ys) ≢ b.chain
changed-differs es t b xs ys x y c l same e bx by bytes z ny n w =
    let linked : b.chain ≡ audit_hash (top (drop (suc t) es)) b.seq b.kind b.msg =
      subst (λ e. e.chain ≡ audit_hash (top (drop (suc t) es)) e.seq e.kind e.msg) (sym same)
        (Chained-get es t l c) in
    audit_hash-differs (top (drop (suc t) es)) b.seq b.kind xs ys x y bx by bytes z ny n
      (w ∙ linked ∙ ap (audit_hash (top (drop (suc t) es)) b.seq b.kind) e)

verify-tampered :
    (es : List AuditEv) (a : Audit) (i : ℕ) (msg : Text)
    → Holds es a
    → i < a.count
    → Chained es
    → audit_hash (top (drop (suc (a.count - 1 - i)) es)) (nth a i).seq (nth a i).kind msg
      ≢ (nth a i).chain
    → audit_chain_verify (overwrite i msg a) ≡ tampered i
unfolding audit_chain_verify overwrite
verify-tampered es a i msg f lt c bad =
    let t = a.count - 1 - i in
    let a2 = overwrite i msg a in
    let counted : a.count ≡ suc (i + t) = omega arith in
    let z : 0 + i ≡ i = omega arith in
    let long = length-full_log_le es a f in
    ap (λ h. verify_from (retained a) 0 h a2) (start_lem es a f)
    ∙ ap (λ m. verify_from m 0 (top (drop a.count es)) a2) (retained_lem a f.few)
    ∙ ap (λ m. verify_from m 0 (top (drop m es)) a2) counted
    ∙ verify_from-tampered es a2 i 0 t c (omega arith)
        (λ j u l k. overwrite-others es a i t msg f (omega arith) j u (omega arith) (omega arith))
        (subst
          (λ m.
            audit_hash (top (drop (suc t) es)) (nth a2 m).seq (nth a2 m).kind (nth a2 m).msg
            ≢ (nth a2 m).chain)
          (sym z)
          (subst (λ b. audit_hash (top (drop (suc t) es)) b.seq b.kind b.msg ≢ b.chain)
            (sym (overwrite-here es a i msg f)) bad))
    ∙ ap tampered z

-- After any calls of `plant_audit_log` the verification says `OK`. Where then one byte of the
-- message of any entry in the ring is changed to another byte that is not NUL, it says `TAMPERED`
-- with the place of that entry.
pub audit_verify-detects :
    (calls : List (Text × Option Text)) (i : ℕ) (xs ys : Text) (x y : ℕ)
    → i < (audit_run calls empty_audit).count
    → (nth (audit_run calls empty_audit) i).msg ≡ xs ++ x ∷ ys
    → x < 256
    → y < 256
    → IsBytes ys
    → y ≢ 0
    → x ≢ y
    → (audit_chain_verify (audit_run calls empty_audit) ≡ intact)
      × (audit_chain_verify (overwrite i (xs ++ y ∷ ys) (audit_run calls empty_audit)) ≡ tampered i)
unfolding Chained
audit_verify-detects calls i xs ys x y lt e bx by bytes ny n =
    let f = run-Holds calls [] empty_audit empty-Holds in
    let c = full_log-Chained calls [] tt in
    let a = audit_run calls empty_audit in
    let t = a.count - 1 - i in
    let long = length-full_log_le (full_log calls []) a f in
    let (place, same) = nth-kept (full_log calls []) a i t f (omega arith) in
    let clean = full_log-HasNoNul calls [] (λ u. nothing u) t in
    (
      verify-intact (full_log calls []) a f c,
      verify-tampered (full_log calls []) a i (xs ++ y ∷ ys) f lt c (
          changed-differs (full_log calls []) t (nth a i) xs ys x y c (omega arith) same e bx by
            bytes (subst HasNoNul (sym (ap (λ b. b.msg) same) ∙ e) clean) ny n),
    )
  where
    nothing : (u : ℕ) → HasNoNul (get_or [] u no_ev).msg
    nothing u = unfold HasNoNul in tt
