-- ===== src/Rsysd/Fds.antt =====
-- The sets of descriptors of the server: `rsysd_add_set` and `rsysd_remove_set` of rsys/rsystemd.c.
pub mod Greatest
pub mod Tests
use win_pdip.Prelude.{ℕ, zero, suc, ◌+◌, Bool, true, false, ltb, ◌==◌, if◌then◌else◌}

-- A set, as FD_ISSET sees it, and the greatest descriptor in it.
pub record Fds : Type 0 where
  pub member : ℕ → Bool
  pub fd_max : ℕ

-- `rsysd_add_set`
unfoldable pub add_set : ℕ → Fds → Fds
add_set fd s = record {
  member = λ i. if i == fd then true else s.member i;
  fd_max = if ltb s.fd_max fd then fd else s.fd_max;
}

-- The loop from below `i` down to a member; without one, the greatest descriptor stays `old`.
unfoldable pub highest : (ℕ → Bool) → ℕ → ℕ → ℕ
highest member zero old = old
highest member (suc i) old = elim (member i) [ true ↦ i | false ↦ highest member i old ]

-- `rsysd_remove_set`
unfoldable pub remove_set : ℕ → Fds → Fds
unfolding highest
remove_set fd s =
    let member : ℕ → Bool = λ i. if i == fd then false else s.member i in
    record {
      member = member;
      fd_max = if s.fd_max == fd then highest member fd s.fd_max else s.fd_max;
    }
