-- ===== src/Registry/Fds.antt =====
-- The registry of closed descriptors of runtime/c/plant_runtime.c (`_plant_fd_is_closed` ..
-- `_plant_close_raw`): an array of 128 descriptors, of which the first `n` are in use.
pub mod Counts
pub mod Closing
pub mod Overflow
use plant_lang.Prelude.{
  ℕ, ◌+◌, ◌-◌, Bool, true, false, List, [], ◌∷◌, Option, none, some, ◌==◌, leb, if◌then◌else◌,
  get_or, set, take, replicate, find_index, move_down, ℤ, pos, negsuc,
}

pub record ClosedFds : Type 0 where
  pub fds : List ℕ
  pub n : ℕ

abbrev pub fds_max : ℕ
fds_max = 128

abbrev pub fds_init : ClosedFds
fds_init = record { fds = replicate fds_max 0; n = 0 }

abbrev pub search_fd : ℕ → ClosedFds → Option ℕ
search_fd fd s = find_index (λ x. x == fd) (take s.n s.fds)

unfoldable pub fd_is_closed : ℕ → ClosedFds → Bool
fd_is_closed fd s = elim (search_fd fd s) [ none ↦ false | some i ↦ true ]

-- where `_plant_fd_remember` stores: a full registry gives up its last entry
abbrev pub free_slot : ClosedFds → ℕ
free_slot s = if leb fds_max s.n then 127 else s.n

unfoldable pub fd_remember : ℕ → ClosedFds → ClosedFds
fd_remember fd s = elim (search_fd fd s) [
  | some i ↦ s
  | none ↦ record { fds = set s.fds (free_slot s) fd; n = free_slot s + 1 }
]

unfoldable pub fd_forget : ℕ → ClosedFds → ClosedFds
fd_forget fd s = elim (search_fd fd s) [
  | none ↦ s
  | some i ↦ record { fds = move_down 0 (s.n - i - 1) i s.fds; n = s.n - 1 }
]

-- `close(2)` is a parameter: whether it succeeds on a descriptor. The first component lists the
-- descriptors on which the call was made.
unfoldable pub close_raw : (ℕ → Bool) → ℤ → ClosedFds → List ℕ × ClosedFds
unfolding fd_is_closed fd_remember
close_raw close (negsuc k) s = ([], s)
close_raw close (pos fd) s =
    if fd_is_closed fd s then ([], s) else (fd ∷ [], if close fd then fd_remember fd s else s)
