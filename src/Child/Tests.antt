-- ===== src/Child/Tests.antt =====
-- The theorems at process 42, which ends with status 7.
use win_pdip.Prelude.{◌≡◌, refl, inl, true, false, none, some, [], ◌∷◌, arith}
use win_pdip.Outcome.{eio, eperm}
use win_pdip.Child.{
  init, dead, interrupted, failed, running, ended, Child, done, status, terminate_child, sigterm,
  sigkill, wait_child, wait_loop,
}
use win_pdip.Child.Reports.{Gives, status_stable, status_never_started}
use win_pdip.Child.Signals.{IsAimed, terminate_child-IsAimed}
use win_pdip.Child.Ends.{live, gone, terminate_child-ended}

abbrev busy : Child
busy = live 42 0 (some 3) eio (running ∷ running ∷ ended 42 7 ∷ []) []

abbrev over : Child
over = live 42 0 (some 3) eio (interrupted ∷ ended 42 7 ∷ []) []

reported : status true over ≡ done (some 0, some 7) (gone 7 (some 3) eio [] [])
unfolding status wait_child wait_loop
reported = refl

status_stable_example :
    (dead ≡ dead)
    × (status false (gone 7 (some 3) eio [] []) ≡ done (some 0, some 7) (gone 7 (some 3) eio [] []))
status_stable_example =
    status_stable true false over (gone 7 (some 3) eio [] []) (some 0) 7 (omega arith, tt) reported

abbrev fresh : Child
fresh = record {
  state = init;
  pid = none;
  status = 0;
  pty_master = none;
  errno = eio;
  waits = failed eio ∷ [];
  kills = [];
  sent = [];
}

status_never_started_example :
    (status false fresh ≡ done (none, none) (record fresh { errno = eperm }))
    × (status true fresh
        ≡ done
            (some 0, some 0)
            (record fresh { state = dead; pid = none; errno = eio; waits = [] }))
status_never_started_example = status_never_started fresh eio [] refl refl refl

terminate_child-IsAimed_example : Gives (λ s d. IsAimed 42 d) (terminate_child busy)
terminate_child-IsAimed_example =
    terminate_child-IsAimed 42 busy (record { target = inl refl; signals = tt })

terminate_child-ended_example :
    (terminate_child (live 42 0 (some 3) eio (ended 42 7 ∷ []) [])
      ≡ done 7 (gone 7 (some 3) eio [] ((42, sigterm) ∷ [])))
    × (terminate_child (live 42 0 (some 3) eio (running ∷ ended 42 7 ∷ []) [])
        ≡ done 7 (gone 7 (some 3) eio [] ((42, sigterm) ∷ [])))
    × (terminate_child busy ≡ done 7 (gone 7 (some 3) eio [] ((42, sigkill) ∷ (42, sigterm) ∷ [])))
terminate_child-ended_example = terminate_child-ended 42 0 7 (some 3) eio [] [] (omega arith)
