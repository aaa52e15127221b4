-- ===== src/Missions/Audit.antt =====
-- The audit log in runtime/c/plant_runtime.c (`plant_audit_hash` .. `plant_audit_dump`,
-- `plant_audit_tamper`): a ring of 256 entries, each of which carries the hash of everything logged
-- so far. What a text holds behind its end is left out, so `plant_audit_tamper` is for an entry whose
-- message is not empty.
pub mod Chain
pub mod Contents
pub mod Mixing
pub mod Detection
pub mod Tampering
use Prim.Native.Nat.{bit_xor}
use plant_lang.Prelude.{
  decimal_from, codes, ◌++◌, length, ℕ, zero, suc, ◌+◌, ◌-◌, ◌*◌, ◌%◌, ◌^◌, Bool, true, false, List,
  [], ◌∷◌, Option, none, some, ltb, leb, ◌==◌, if◌then◌else◌, get_or, set, take, replicate, Text,
}

pub record AuditEv : Type 0 where
  pub seq : ℕ
  pub kind : Text
  pub msg : Text
  pub chain : ℕ

pub record Audit : Type 0 where
  pub ring : List AuditEv
  pub head : ℕ
  pub count : ℕ
  pub overflow : ℕ
  pub seq : ℕ
  pub chain : ℕ
  pub evicted : ℕ

abbrev pub audit_cap : ℕ
audit_cap = 256

-- where each chain starts
abbrev pub fnv_offset : ℕ
fnv_offset = 14695981039346656037

abbrev pub no_ev : AuditEv
no_ev = record { seq = 0; kind = []; msg = []; chain = 0 }

abbrev pub empty_audit : Audit
empty_audit = record {
  ring = replicate audit_cap no_ev;
  head = 0;
  count = 0;
  overflow = 0;
  seq = 0;
  chain = fnv_offset;
  evicted = fnv_offset;
}

-- one step of FNV-1a on 64 bits
unfoldable pub mix : ℕ → ℕ → ℕ
mix h c = bit_xor h c * 1099511628211 % 2 ^ 64

-- `while (*p) h = ...`, up to the end of the C string
unfoldable pub mix_all : ℕ → Text → ℕ
unfolding mix
mix_all h [] = h
mix_all h (c ∷ cs) = let rest = mix_all (mix h c) cs in if c == 0 then h else rest

unfoldable pub audit_hash : ℕ → ℕ → Text → Text → ℕ
unfolding mix mix_all
audit_hash h seq kind msg = mix_all (mix_all (mix h seq) kind) msg

abbrev pub or_empty : Option Text → Text
or_empty none = []
or_empty (some msg) = msg

-- what `%s` prints of a text: it ends at a NUL byte
unfoldable pub c_str : Text → Text
c_str [] = []
c_str (c ∷ cs) = let rest = c_str cs in if c == 0 then [] else c ∷ rest

-- the entry that is written: `snprintf` cuts the texts to the sizes of their fields
unfoldable pub entry_for : Text → Option Text → Audit → AuditEv
unfolding audit_hash c_str
entry_for kind msg a =
    let k = take 23 (c_str kind) in
    let m = take 95 (c_str (or_empty msg)) in
    record { seq = a.seq; kind = k; msg = m; chain = audit_hash a.chain a.seq k m }

unfoldable pub audit_log : Text → Option Text → Audit → Audit
unfolding entry_for
audit_log kind msg a =
    let slot = a.head in
    let e = entry_for kind msg a in
    record {
      ring = set a.ring slot e;
      head = (slot + 1) % audit_cap;
      count = if ltb a.count audit_cap then suc a.count else a.count;
      overflow = if ltb a.count audit_cap then a.overflow else suc a.overflow;
      seq = suc a.seq;
      chain = e.chain;
      evicted = if a.count == audit_cap then (get_or a.ring slot no_ev).chain else a.evicted;
    }

-- `OK`, or `TAMPERED i`
pub data Verdict : Type 0 where
  intact : Verdict
  tampered : ℕ → Verdict

abbrev pub retained : Audit → ℕ
retained a = if ltb audit_cap a.count then audit_cap else a.count

abbrev pub base : Audit → ℕ
base a = if ltb a.head (retained a) then a.head + audit_cap - retained a else a.head - retained a

abbrev pub nth : Audit → ℕ → AuditEv
nth a i = get_or a.ring ((base a + i) % audit_cap) no_ev

-- the loop, with `rounds` left, at the entry `i`
unfoldable pub verify_from : ℕ → ℕ → ℕ → Audit → Verdict
unfolding audit_hash
verify_from zero i h a = intact
verify_from (suc rounds) i h a =
    let e = nth a i in
    let rest = verify_from rounds (suc i) e.chain a in
    if audit_hash h e.seq e.kind e.msg == e.chain then rest else tampered i

unfoldable pub audit_chain_verify : Audit → Verdict
unfolding verify_from
audit_chain_verify a =
    verify_from (retained a) 0 (if retained a == audit_cap then a.evicted else fnv_offset) a

abbrev pub dump_size : ℕ
dump_size = 32768

-- the bytes of the buffer that are written, and `used`
abbrev pub DumpBuf : Type 0
DumpBuf = Text × ℕ

-- `used += snprintf(buf + used, sizeof(buf) - used, ...)`, for what the format gives: where `used` is
-- beyond the buffer the size wraps round and the call writes outside, which is `none`
unfoldable pub dump_print : Text → DumpBuf → Option DumpBuf
dump_print t (out, used) =
    if ltb dump_size used
    then none
    else some (out ++ take (dump_size - used - 1) t, used + length t)

-- what `%ld` prints of a number that is not negative
abbrev pub number : ℕ → Text
number n = decimal_from (n + 1) n []

-- `"%ld,%s,%s\n"`
abbrev pub line_text : ℕ → Text → Text → Text
line_text seq kind msg = number seq ++ b',' ∷ (kind ++ b',' ∷ (msg ++ 10 ∷ []))

abbrev pub ev_text : AuditEv → Text
ev_text e = line_text e.seq e.kind e.msg

-- the loop, with `rounds` left, at the entry `i`
unfoldable pub dump_from : ℕ → ℕ → Audit → DumpBuf → Option DumpBuf
unfolding dump_print
dump_from zero i a b = some b
dump_from (suc rounds) i a b = elim (dump_print (ev_text (nth a i)) b) [
  | none ↦ none
  | some b' ↦ dump_from rounds (suc i) a b'
]

abbrev pub overflow_text : ℕ → Text
overflow_text n = codes "OVERFLOW " ++ (number n ++ codes " dropped\n")

unfoldable pub print_overflow : ℕ → DumpBuf → Option DumpBuf
unfolding dump_print
print_overflow n b = if ltb 0 n then dump_print (overflow_text n) b else some b

abbrev pub written : Option DumpBuf → Option Text
written none = none
written (some (out, used)) = some out

abbrev pub then_overflow : ℕ → Option DumpBuf → Option DumpBuf
then_overflow n none = none
then_overflow n (some b) = print_overflow n b

unfoldable pub audit_dump : Audit → Option Text
unfolding dump_from print_overflow
audit_dump a = written (then_overflow a.overflow (dump_from (retained a) 0 a ([], 0)))

abbrev pub flipped : Text → Text
flipped [] = []
flipped (c ∷ cs) = if c == 1 then [] else bit_xor c 1 ∷ cs

unfoldable pub audit_tamper : Audit → Audit
audit_tamper a =
    if leb a.count 0
    then a
    else let slot = (a.head + audit_cap - 1) % audit_cap in
      let e = get_or a.ring slot no_ev in
      record a { ring = set a.ring slot (record e { msg = flipped e.msg }) }
