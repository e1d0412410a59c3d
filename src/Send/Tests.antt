-- ===== src/Send/Tests.antt =====
-- A text that the terminal takes in two steps.
use win_pdip.Prelude.{◌≡◌, ◌≤◌, ◌<◌, true, false, some, [], ◌∷◌, List, Bytes}
use win_pdip.Outcome.{eio, ok, err, enospc}
use win_pdip.Send.{WriteReply, interrupted, wrote, returned, send}
use win_pdip.Send.Delivery.{Fitting, Enough, Delivered, send-Delivered}

abbrev hello : Bytes
hello = b'h' ∷ b'i' ∷ b'\n' ∷ []

abbrev steps : List WriteReply
steps = wrote 1 ∷ interrupted ∷ wrote 2 ∷ []

send-Delivered_example :
    (4096 ≤ 3 → send false true (some hello) eio steps ≡ returned (err enospc) [])
    × (3 < 4096 → Fitting 3 steps → Delivered hello (send false true (some hello) eio steps))
    × (3 < 4096 → Enough 3 steps → send false true (some hello) eio steps ≡ returned (ok 3) hello)
send-Delivered_example = send-Delivered hello eio steps
