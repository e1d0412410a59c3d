-- ===== src/Rsysd/Fsm/Tests.antt =====
-- A shell that serves the command "ls", and the theorems at it.
use win_pdip.Prelude.{ℕ, ◌-◌, ◌≡◌, refl, Bool, true, false, some, List, [], ◌∷◌, ◌++◌, Bytes}
use win_pdip.Recv.{found}
use win_pdip.Recv.Machine.{c_string}
use win_pdip.Rsysd.Fsm.{
  free, allocated, wait_eoc, wait_status, evt_link, evt_cmd, evt_data, Message, display,
  end_of_command, Link, Answers, Reaction, done, ◌>>=◌, react, shell_fsm, send_cmd, unlink_client,
  finish, read_display_end, read_shell_display, read_status, data_in_wait_eoc, data_in_wait_status,
  behind_display, behind_status,
}
use win_pdip.Rsysd.Fsm.Linked.{IsLinked, Reacted}
use win_pdip.Rsysd.Fsm.Ending.{IsAnswered, react-IsAnswered}
use win_pdip.Rsysd.Fsm.Transitions.{shell_fsm-Reacted}
use win_pdip.Rsysd.Fsm.Traces.{Reached, created, reacted, Balanced, Reached-Balanced}

abbrev first_digit : Bytes → ℕ
first_digit [] = 0
first_digit (c ∷ cs) = c - b'0'

abbrev ls : Bytes
ls = b'l' ∷ b's' ∷ []

abbrev prompt : Bytes
prompt = b'R' ∷ b'S' ∷ b'Y' ∷ b'S' ∷ b'D' ∷ b'_' ∷ b'P' ∷ b'D' ∷ b'I' ∷ b'P' ∷ b'>' ∷ b' ' ∷ []

abbrev new : Link
new = record {
  state = free;
  has_client = false;
  status = 0;
  client_state = allocated;
  has_shell = false;
  cmd = some ls;
  sent = [];
  typed = [];
}

abbrev linked : Link
linked = record new { state = allocated; has_client = true; has_shell = true }

abbrev running : Link
running = record linked { state = wait_eoc; typed = (ls ++ (b'\n' ∷ [])) ∷ [] }

-- The shell shows a file "f", and later the status 2.
abbrev listing : Answers
listing = record {
  code = found;
  text = b'f' ∷ b'\n' ∷ prompt;
  typed_ok = true;
  display_ok = true;
  eoc_ok = true;
  null_text = [];
}

abbrev two : Answers
two = record {
  code = found;
  text = b'2' ∷ b'\n' ∷ prompt;
  typed_ok = true;
  display_ok = true;
  eoc_ok = true;
  null_text = [];
}

running-IsLinked : IsLinked running
running-IsLinked = record { client = refl; shell = refl; alive = λ h. refl }

shell_fsm-Reacted_example :
    (ok : Bool) × (m : Link) × (react first_digit evt_data listing running ≡ done ok m)
    × Reacted listing running wait_eoc evt_data ok m
shell_fsm-Reacted_example =
    shell_fsm-Reacted first_digit evt_data listing running running-IsLinked tt

-- The status is asked for.
abbrev asked : Link
asked = record running { state = wait_status }

asked-IsLinked : IsLinked asked
asked-IsLinked = record { client = refl; shell = refl; alive = λ h. refl }

react-IsAnswered_example :
    IsAnswered first_digit (b'2' ∷ []) two asked (react first_digit evt_data two asked)
react-IsAnswered_example =
    react-IsAnswered first_digit (b'2' ∷ []) prompt two asked refl asked-IsLinked refl refl refl

-- Linked, and running the command.
running-Reached : Reached first_digit running 1 0 0
unfolding shell_fsm send_cmd c_string
running-Reached =
    reacted linked running true 0 0 0 evt_cmd listing
      (reacted new linked true 0 0 0 evt_link listing (created 0 (some ls)) refl refl) tt refl

Reached-Balanced_example : Balanced first_digit running 1 0 0
Reached-Balanced_example = Reached-Balanced first_digit running-Reached

abbrev messages : Reaction Bool → List Message
messages (done ok l) = l.sent
messages _ = []

-- The display and the status reach the client.
served :
    messages
      (react first_digit evt_data listing running >>= λ ok m. react first_digit evt_data two m)
    ≡ end_of_command 2 ∷ display (b'f' ∷ b'\n' ∷ []) ∷ []
unfolding shell_fsm data_in_wait_eoc data_in_wait_status read_shell_display read_display_end
    read_status send_cmd behind_display behind_status finish unlink_client
served = refl
