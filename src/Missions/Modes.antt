-- ===== src/Missions/Modes.antt =====
-- The mode stack, the capabilities of each mode and the boundary guard in
-- runtime/c/plant_runtime.c (`plant_mode_push` .. `plant_cap_check`, `plant_boundary_block`,
-- `plant_safe_grant`, `plant_syscall_check` and the entries and exits of the modes). A mask of
-- capabilities is its four bits. What an entry does to the heap of FAST, the pool of SAFE and the
-- router of SMART stands in the modules for these; the audit log is left out.
pub mod Guards
pub mod Grants
use plant_lang.Prelude.{
  ℕ, zero, suc, ◌+◌, ◌-◌, ◌≡◌, Bool, true, false, ◌||◌, ◌&&◌, List, [], ◌∷◌, Option, none, some,
  ltb, ◌==◌, if◌then◌else◌, length, Text, codes, str_eq,
}

pub record Caps : Type 0 where
  pub file_read : Bool
  pub net_connect : Bool
  pub file_write : Bool
  pub net_listen : Bool

-- The stack has the innermost mode first.
pub record Modes : Type 0 where
  pub stack : List ℕ
  pub safe_active : Bool
  pub smart_active : Bool
  pub persist_active : Bool
  pub in_fast : Bool
  pub safe_caps : Caps
  pub smart_caps : Caps
  pub persist_caps : Caps

abbrev pub no_caps : Caps
no_caps = record { file_read = false; net_connect = false; file_write = false; net_listen = false }

abbrev pub max_depth : ℕ
max_depth = 64

unfoldable pub mode_push : ℕ → List ℕ → List ℕ
mode_push m stack = if ltb (length stack) max_depth then m ∷ stack else stack

unfoldable pub mode_pop : List ℕ → List ℕ
mode_pop [] = []
mode_pop (m ∷ stack) = stack

unfoldable pub mode_top : List ℕ → ℕ
mode_top [] = 0
mode_top (m ∷ stack) = m

abbrev pub is_cap : Text → Text → Bool
is_cap cap name = str_eq cap name

unfoldable pub safe_check : Text → Caps → Bool
safe_check cap c =
    if is_cap cap (codes "FILE_READ")
    then c.file_read
    else if is_cap cap (codes "NET_CONNECT")
    then c.net_connect
    else false

unfoldable pub smart_check : Text → Caps → Bool
smart_check cap c =
    if is_cap cap (codes "FILE_READ")
    then c.file_read
    else if is_cap cap (codes "FILE_WRITE")
    then c.file_write
    else if is_cap cap (codes "NET_CONNECT")
    then c.net_connect
    else false

unfoldable pub persist_check : Text → Caps → Bool
persist_check cap c =
    if is_cap cap (codes "FILE_READ")
    then c.file_read
    else if is_cap cap (codes "FILE_WRITE")
    then c.file_write
    else if is_cap cap (codes "NET_CONNECT")
    then c.net_connect
    else if is_cap cap (codes "NET_LISTEN")
    then c.net_listen
    else false

-- the grants that hold outside the modes
abbrev pub zt_grants : List Text
zt_grants = codes "FILE_READ" ∷ codes "FILE_WRITE" ∷ codes "NET_CONNECT" ∷ []

unfoldable pub listed : Text → List Text → Bool
listed cap [] = false
listed cap (g ∷ gs) = if is_cap cap g then true else listed cap gs

unfoldable pub cap_check : Text → Modes → Bool
unfolding safe_check smart_check persist_check listed
cap_check cap s =
    if s.safe_active
    then safe_check cap s.safe_caps
    else if s.smart_active
    then smart_check cap s.smart_caps
    else if s.persist_active
    then persist_check cap s.persist_caps
    else listed cap zt_grants

unfoldable pub safe_grant : Text → Modes → Bool × Modes
safe_grant cap s =
    if is_cap cap (codes "FILE_READ")
    then (true, record s { safe_caps = record s.safe_caps { file_read = true } })
    else if is_cap cap (codes "NET_CONNECT")
    then (true, record s { safe_caps = record s.safe_caps { net_connect = true } })
    else (false, s)

abbrev pub blocked_syscalls : List Text
blocked_syscalls = codes "execve" ∷ codes "fork" ∷ codes "ptrace" ∷ []

unfoldable pub syscall_check : Text → Bool
unfolding listed
syscall_check name = if listed name blocked_syscalls then false else true

-- `true` where the call is blocked
unfoldable pub boundary_block : Text → Modes → Bool
unfolding mode_top
boundary_block callee s =
    if mode_top s.stack == b'F' && str_eq callee (codes "SAFE")
    then true
    else if mode_top s.stack == b'S'
        && (str_eq callee (codes "FAST")
            || (str_eq callee (codes "SMART") || str_eq callee (codes "PERSISTENT")))
    then true
    else if mode_top s.stack == b'P' && str_eq callee (codes "SAFE")
    then true
    else false

unfoldable pub fast_enter : Modes → Modes
unfolding mode_push
fast_enter s = record s { in_fast = true; stack = mode_push b'F' s.stack }

unfoldable pub fast_exit : Modes → Modes
unfolding mode_pop
fast_exit s = record s { stack = mode_pop s.stack }

unfoldable pub safe_enter : Modes → Modes
unfolding mode_push
safe_enter s = record s { safe_active = true; safe_caps = no_caps; stack = mode_push b'S' s.stack }

unfoldable pub safe_exit : Modes → Modes
unfolding mode_pop
safe_exit s = record s { safe_active = false; safe_caps = no_caps; stack = mode_pop s.stack }

unfoldable pub smart_enter : Modes → Modes
unfolding mode_push
smart_enter s = record s {
  smart_active = true;
  smart_caps = record {
    file_read = true;
    net_connect = true;
    file_write = true;
    net_listen = false;
  };
  stack = mode_push b'M' s.stack;
}

unfoldable pub smart_exit : Modes → Modes
unfolding mode_pop
smart_exit s = record s { smart_active = false; smart_caps = no_caps; stack = mode_pop s.stack }

unfoldable pub persist_enter : Modes → Modes
unfolding mode_push
persist_enter s = record s {
  persist_active = true;
  persist_caps = record {
    file_read = true;
    net_connect = true;
    file_write = true;
    net_listen = true;
  };
  stack = mode_push b'P' s.stack;
}

unfoldable pub persist_exit : Modes → Modes
unfolding mode_pop
persist_exit s = record s {
  persist_active = false;
  persist_caps = no_caps;
  stack = mode_pop s.stack;
}
