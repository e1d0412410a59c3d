-- ===== src/Rsysd/Fds/Tests.antt =====
-- A set of descriptors of the server, 3 and 5.
use win_pdip.Prelude.{◌≡◌, refl, ◌==◌, ◌||◌, [], ◌∷◌, arith}
use win_pdip.Rsysd.Fds.{Fds, remove_set, highest}
use win_pdip.Rsysd.Fds.Greatest.{IsBounded, add, remove, changes, changes-IsBounded}

abbrev two_fds : Fds
two_fds = record { member = λ i. i == 3 || i == 5; fd_max = 5 }

two_fds-IsBounded : IsBounded two_fds
two_fds-IsBounded i e = ground arith

changes-IsBounded_example : IsBounded (changes (add 9 ∷ remove 5 ∷ remove 9 ∷ []) two_fds)
changes-IsBounded_example =
    changes-IsBounded (add 9 ∷ remove 5 ∷ remove 9 ∷ []) two_fds two_fds-IsBounded

lowered : (remove_set 5 two_fds).fd_max ≡ 3
unfolding remove_set highest
lowered = refl
