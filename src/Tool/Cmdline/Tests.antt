-- ===== src/Tool/Cmdline/Tests.antt =====
-- A line with a string, and the theorems at it.
use win_pdip.Prelude.{◌≡◌, refl, inl, List, [], ◌∷◌, ◌++◌, map, Bytes}
use win_pdip.Tool.Cmdline.{Table, rc_0, done, split_cmdline}
use win_pdip.Tool.Cmdline.Words.{
  IsTable, Arg, bare, string, AreArgs, params, text, IsCommand, Filled, split_cmdline-params,
}
use win_pdip.Tool.Cmdline.Safe.{Ends, split_cmdline-Ends}

abbrev no_words : Table
no_words = record { argv = []; argv_nb = 0 }

no_words-IsTable : IsTable no_words
no_words-IsTable = record { room = inl (refl, refl) }

-- recv 10 "> "
abbrev recv_args : List Arg
recv_args = bare b'1' (b'0' ∷ []) ∷ string (b'>' ∷ b' ' ∷ []) ∷ []

abbrev ecv : Bytes
ecv = b'e' ∷ b'c' ∷ b'v' ∷ []

recv-IsCommand : IsCommand b'r' ecv
recv-IsCommand = record { first = refl; others = (refl, (refl, (refl, tt))) }

recv_args-AreArgs : AreArgs recv_args
recv_args-AreArgs = (((refl, refl, (refl, refl, tt)), refl), (tt, tt))

split_cmdline-params_example :
    (u : Table) × (split_cmdline (b'r' ∷ (ecv ++ params recv_args)) no_words ≡ done rc_0 u)
    × Filled no_words ((b'r' ∷ ecv) ∷ map text recv_args) u
split_cmdline-params_example =
    split_cmdline-params b'r' ecv recv_args no_words recv-IsCommand recv_args-AreArgs
      no_words-IsTable

split_cmdline-Ends_example : Ends no_words (split_cmdline (b'x' ∷ b' ' ∷ b'"' ∷ []) no_words)
split_cmdline-Ends_example = split_cmdline-Ends (b'x' ∷ b' ' ∷ b'"' ∷ []) no_words no_words-IsTable
