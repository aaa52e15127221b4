-- ===== src/Missions/Modes/Grants.antt =====
-- What a SAFE action may do.
use plant_lang.Prelude.{
  suc, ◌<◌, ◌≡◌, refl, sym, ap, ◌∙◌, Bool, true, false, ◌||◌, ◌&&◌, List, [], ◌∷◌, ltb,
  if◌then◌else◌, length, Text, codes, str_eq, str_eq_iff, str_eq_symm, arith, Bool-cases, inl, inr,
}
use plant_lang.Missions.Modes.{
  Modes, is_cap, listed, zt_grants, cap_check, safe_check, safe_grant, safe_enter, safe_exit,
  mode_push, mode_pop, mode_top, boundary_block, max_depth,
}

-- the calls of `plant_safe_grant` for a list of names
unfoldable pub grant_all : List Text → Modes → Modes
unfolding safe_grant
grant_all [] s = s
grant_all (g ∷ gs) s = grant_all gs (safe_grant g s).1

abbrev read_name : Text
read_name = codes "FILE_READ"

abbrev net_name : Text
net_name = codes "NET_CONNECT"

-- What one grant adds.
record Grants (g : Text) (s t : Modes) : Type 0 where
  active : t.safe_active ≡ s.safe_active
  reads : t.safe_caps.file_read ≡ (s.safe_caps.file_read || is_cap read_name g)
  connects : t.safe_caps.net_connect ≡ (s.safe_caps.net_connect || is_cap net_name g)

or_true : (b : Bool) → (b || true) ≡ true
or_true true = refl
or_true false = refl

or_false : (b : Bool) → (b || false) ≡ b
or_false true = refl
or_false false = refl

apart : (g : Text) → str_eq g read_name ≡ true → str_eq g net_name ≡ false
unfolding str_eq
apart g h = ap (λ t. str_eq t net_name) ((str_eq_iff g read_name).0 h) ∙ refl

safe_grant-Grants : (g : Text) (s : Modes) → Grants g s (safe_grant g s).1
unfolding safe_grant
safe_grant-Grants g s =
    let sr = str_eq_symm read_name g in
    let sn = str_eq_symm net_name g in
    elim (Bool-cases (str_eq g read_name)) [
      | inl r ↦
          let n = apart g r in
          rw (safe_grant, r)
            (record {
              active = refl;
              reads =
                  sym
                    (ap (λ b. s.safe_caps.file_read || b) (sr ∙ r) ∙ or_true s.safe_caps.file_read);
              connects = sym (
                  ap (λ b. s.safe_caps.net_connect || b) (sn ∙ n)
                  ∙ or_false s.safe_caps.net_connect);
            })
      | inr r ↦ elim (Bool-cases (str_eq g net_name)) [
        | inl n ↦
            rw (safe_grant, r, n)
              (record {
                active = refl;
                reads = sym (
                    ap (λ b. s.safe_caps.file_read || b) (sr ∙ r) ∙ or_false s.safe_caps.file_read);
                connects = sym (
                    ap (λ b. s.safe_caps.net_connect || b) (sn ∙ n)
                    ∙ or_true s.safe_caps.net_connect);
              })
        | inr n ↦
            rw (safe_grant, r, n)
              (record {
                active = refl;
                reads = sym (
                    ap (λ b. s.safe_caps.file_read || b) (sr ∙ r) ∙ or_false s.safe_caps.file_read);
                connects = sym (
                    ap (λ b. s.safe_caps.net_connect || b) (sn ∙ n)
                    ∙ or_false s.safe_caps.net_connect);
              })
      ]
    ]

or_if : (a b c : Bool) → ((a || b) || c) ≡ (a || (if b then true else c))
or_if true b c = refl
or_if false true c = refl
or_if false false c = refl

-- What a list of grants adds.
record GrantsAll (gs : List Text) (s t : Modes) : Type 0 where
  active : t.safe_active ≡ s.safe_active
  reads : t.safe_caps.file_read ≡ (s.safe_caps.file_read || listed read_name gs)
  connects : t.safe_caps.net_connect ≡ (s.safe_caps.net_connect || listed net_name gs)

grant_all_lem : (gs : List Text) (s : Modes) → GrantsAll gs s (grant_all gs s)
unfolding grant_all listed
grant_all_lem [] s = record {
  active = refl;
  reads = sym (or_false s.safe_caps.file_read);
  connects = sym (or_false s.safe_caps.net_connect);
}
grant_all_lem (g ∷ gs) s =
    let one = safe_grant-Grants g s in
    let rest = grant_all_lem gs (safe_grant g s).1 in
    record {
      active = rest.active ∙ one.active;
      reads =
          rest.reads
          ∙ (ap (λ b. b || listed read_name gs) one.reads
              ∙ or_if s.safe_caps.file_read (is_cap read_name g) (listed read_name gs));
      connects =
          rest.connects
          ∙ (ap (λ b. b || listed net_name gs) one.connects
              ∙ or_if s.safe_caps.net_connect (is_cap net_name g) (listed net_name gs));
    }

-- A SAFE action starts with no capability, whatever ran before it, and after any calls of
-- `plant_safe_grant` it has a capability exactly if that was granted and is FILE_READ or NET_CONNECT.
pub cap_check-grant_all :
    (s : Modes) (gs : List Text) (cap : Text)
    → cap_check cap (grant_all gs (safe_enter s))
      ≡ ((str_eq cap (codes "FILE_READ") || str_eq cap (codes "NET_CONNECT")) && listed cap gs)
unfolding cap_check safe_enter safe_check
cap_check-grant_all s gs cap =
    let all = grant_all_lem gs (safe_enter s) in
    let t = grant_all gs (safe_enter s) in
    let active : t.safe_active ≡ true = all.active in
    elim (Bool-cases (str_eq cap read_name)) [
      | inl r ↦
          rw (cap_check, active, safe_check, r)
            (all.reads ∙ ap (λ u. listed u gs) (sym ((str_eq_iff cap read_name).0 r)))
      | inr r ↦ elim (Bool-cases (str_eq cap net_name)) [
        | inl n ↦
            rw (cap_check, active, safe_check, r, n)
              (all.connects ∙ ap (λ u. listed u gs) (sym ((str_eq_iff cap net_name).0 n)))
        | inr n ↦ rw (cap_check, active, safe_check, r, n) refl
      ]
    ]

-- A SAFE action may call a SAFE action. When the inner one returns, the outer one, which the mode stack
-- still shows on top, has no longer its own grants but those that hold outside the modes, FILE_WRITE
-- among them. This is for an action that neither a SMART nor a PERSISTENT one encloses, at less than
-- 63 modes deep.
pub nested_safe-escalates :
    (s : Modes)
    → s.smart_active ≡ false
    → s.persist_active ≡ false
    → length s.stack < 63
    → (boundary_block (codes "SAFE") (safe_enter s) ≡ false)
      × (mode_top (safe_exit (safe_enter (safe_enter s))).stack ≡ b'S')
      × ((cap : Text)
          → cap_check cap (safe_exit (safe_enter (safe_enter s))) ≡ listed cap zt_grants)
unfolding boundary_block safe_enter safe_exit mode_push mode_pop mode_top cap_check str_eq
nested_safe-escalates s m p h =
    let a : ltb (length s.stack) max_depth ≡ true = ground arith in
    let b : ltb (suc (length s.stack)) max_depth ≡ true = ground arith in
    (
      rw (boundary_block, safe_enter, mode_push, a) refl,
      rw (safe_exit, safe_enter, mode_push, a, b) refl,
      λ cap. rw (m, p) refl,
    )
