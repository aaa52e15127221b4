-- ===== src/Missions/Audit/Tampering.antt =====
-- `plant_audit_tamper`, as a change of the last message.
use plant_lang.Prelude.{
  ==_false, xor_lt, zero-xor, xor_cancel_right, xor_comm, xor_cancel_left, ℕ, suc, ◌-◌, ◌+◌, ◌%◌,
  ◌<◌, ◌≡◌, ◌≢◌, sym, ap, ◌∙◌, List, [], ◌∷◌, if◌then◌else◌, get_or, set, Text, arith,
}
use plant_lang.Missions.Audit.{
  false, leb, flipped, bit_xor, audit_tamper, empty_audit, Option, audit_chain_verify, AuditEv,
  Audit, audit_cap, no_ev, tampered, base, nth,
}
use plant_lang.Missions.Audit.Mixing.{IsBytes}
use plant_lang.Missions.Audit.Chain.{full_log, empty-Holds, run-Holds, audit_run, nth-kept, Holds}
use plant_lang.Missions.Audit.Detection.{overwrite, audit_verify-detects}

tamper-overwrite :
    (es : List AuditEv) (a : Audit) (i c : ℕ) (cs : Text)
    → Holds es a
    → suc i ≡ a.count
    → (nth a i).msg ≡ c ∷ cs
    → c ≢ 1
    → audit_tamper a ≡ overwrite i (bit_xor c 1 ∷ cs) a
unfolding audit_tamper overwrite
tamper-overwrite es a i c cs f last e n =
    let (place, same) = nth-kept es a i 0 f (omega arith) in
    let slot : (a.head + audit_cap - 1) % audit_cap ≡ (base a + i) % audit_cap = aim place in
    ap (λ b. if b then a else at_slot ((a.head + audit_cap - 1) % audit_cap)) nonempty
    ∙ ap at_slot slot
    ∙ ap
        (λ m. record a {
          ring = set a.ring ((base a + i) % audit_cap) (record (nth a i) { msg = m });
        })
        (ap flipped e ∙ ap (λ b. if b then [] else bit_xor c 1 ∷ cs) (==_false c 1 n))
  where
    at_slot : ℕ → Audit
    at_slot k = record a {
      ring =
          set a.ring k
            (record (get_or a.ring k no_ev) { msg = flipped (get_or a.ring k no_ev).msg });
    }

    aim :
        (base a + i) % 256 ≡ (a.head + 255 - 0) % 256
        → (a.head + audit_cap - 1) % audit_cap ≡ (base a + i) % audit_cap
    aim p =
        ap (λ k. k % 256) (let w : a.head + 256 - 1 ≡ a.head + 255 - 0 = omega arith in w) ∙ sym p

    nonempty : leb a.count 0 ≡ false
    nonempty = ground arith

-- After any calls of `plant_audit_log`, the last with a message that is not empty and does not start
-- with the byte 1, `plant_audit_tamper` is found out by the verification, at the last entry.
pub audit_tamper-detected :
    (calls : List (Text × Option Text)) (i c : ℕ) (cs : Text)
    → suc i ≡ (audit_run calls empty_audit).count
    → (nth (audit_run calls empty_audit) i).msg ≡ c ∷ cs
    → c ≢ 1
    → c < 256
    → IsBytes cs
    → audit_chain_verify (audit_tamper (audit_run calls empty_audit)) ≡ tampered i
audit_tamper-detected calls i c cs last e n lt b =
    let other : c ≢ bit_xor c 1 =
      λ w. let z = xor_cancel_left c 0 1 (xor_comm c 0 ∙ zero-xor c ∙ w) in absurd (omega arith) in
    let some_byte : bit_xor c 1 ≢ 0 = λ w. n (xor_cancel_right c 1 1 w) in
    ap audit_chain_verify (
      tamper-overwrite (full_log calls []) (audit_run calls empty_audit) i c cs
        (run-Holds calls [] empty_audit empty-Holds) last e n)
    ∙ (audit_verify-detects calls i [] cs c (bit_xor c 1) (omega arith) e lt
        (xor_lt 8 c 1 (omega arith) (omega arith)) b some_byte other).1
