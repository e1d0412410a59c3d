-- ===== src/Rsystem/Tests.antt =====
-- A command with blanks behind it whose output comes in two displays.
use win_pdip.Prelude.{◌≡◌, refl, true, none, some, List, [], ◌∷◌, ◌++◌, arith}
use win_pdip.Rsystem.{Reply, display, end_of_command, bytes, returned, aborted, receive, rsystem}
use win_pdip.Rsystem.Trimming.{fits, written, rsystem-trimmed, rsystem-Blanks}
use win_pdip.Rsystem.Displays.{
  AreDisplays, none_left, one_more, pieces, receive-AreDisplays, exit_code,
}

-- "ab", in two pieces, and "c"
abbrev two_displays : List Reply
two_displays =
    display 3 (bytes (b'a' ∷ []) ∷ bytes (b'b' ∷ 0 ∷ []) ∷ [])
    ∷ display 2 (bytes (b'c' ∷ 0 ∷ []) ∷ [])
    ∷ []

two_displays-AreDisplays : AreDisplays two_displays (b'a' ∷ b'b' ∷ b'c' ∷ [])
two_displays-AreDisplays =
    one_more {text = b'a' ∷ b'b' ∷ []} {more = b'c' ∷ []}
      (pieces ((b'a' ∷ []) ∷ (b'b' ∷ 0 ∷ []) ∷ []) (ground arith) (omega arith, (omega arith, tt))
        refl)
      (one_more {text = b'c' ∷ []}
        (pieces ((b'c' ∷ 0 ∷ []) ∷ []) (ground arith) (omega arith, tt) refl) none_left)

receive-AreDisplays_example :
    receive (two_displays ++ (end_of_command 2 ∷ [])) []
    ≡ returned 512 none ([] ++ (b'a' ∷ b'b' ∷ b'c' ∷ []))
receive-AreDisplays_example =
    receive-AreDisplays two_displays [] [] (b'a' ∷ b'b' ∷ b'c' ∷ []) 2 512 two_displays-AreDisplays
      (exit_code (omega arith))

rsystem-trimmed_example :
    rsystem true true (fits ((b'l' ∷ []) ++ (b's' ∷ b' ' ∷ 10 ∷ []))) written two_displays ≡ (
      receive two_displays [],
      some (record { msg_length = 3; command = ((b'l' ∷ []) ++ (b's' ∷ [])) ++ (0 ∷ []) }),
    )
rsystem-trimmed_example =
    rsystem-trimmed (b'l' ∷ []) (b' ' ∷ 10 ∷ []) b's' two_displays refl (refl, (refl, tt))
      (omega arith)

rsystem-Blanks_example :
    rsystem true true (fits (b' ' ∷ 10 ∷ [])) written two_displays ≡ (aborted, none)
rsystem-Blanks_example = rsystem-Blanks b' ' (10 ∷ []) two_displays (refl, (refl, tt)) (omega arith)
