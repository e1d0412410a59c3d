-- ===== src/Rsysd/Fsm.antt =====
-- The state machine of a shell of the rsystem server: `rsysd_shell_fsm` of rsys/rsystemd.c and the
-- calls it makes. A shell and one client are the store: the client is the one that the shell is
-- linked with, or that `RSYSD_EVT_LINK` brings.
pub mod Linked
pub mod Answering
pub mod Transitions
pub mod Traces
pub mod Deletion
pub mod Ending
pub mod Tests
use win_pdip.Prelude.{
  ℕ, zero, suc, ◌+◌, ◌-◌, ◌^◌, Bool, true, false, Option, none, some, not, List, [], ◌∷◌, ◌++◌,
  Bytes, length, get_or, take, ltb, ◌==◌, if◌then◌else◌,
}
use win_pdip.Recv.Machine.{c_string}
use win_pdip.Recv.{Code, found, timeout, received, failure}

-- RSYSD_STATE_FREE and so on; of a client, only the first two.
pub data State : Type 0 where
  free allocated wait_eoc wait_status freeing : State

-- RSYSD_EVT_LINK, RSYSD_EVT_CMD, RSYSD_EVT_DATA and RSYSD_EVT_CLIENT_DCNX
pub data Event : Type 0 where
  evt_link evt_cmd evt_data evt_client_dcnx : Event

-- What is sent to the client: RSYS_MSG_DISPLAY, and the end of command with a status; or is lost,
-- since `write` fails or does not take the whole message. A status is an `int`, as its 32 bits.
pub data Message : Type 0 where
  display : Bytes → Message
  end_of_command : ℕ → Message
  lost_display : Bytes → Message
  lost_end : ℕ → Message

abbrev pub shown : Bool → Bytes → Message
shown true bs = display bs
shown false bs = lost_display bs

abbrev pub ended : Bool → ℕ → Message
ended true status = end_of_command status
ended false status = lost_end status

-- A shell and a client, with the block of its command, which is null before the first one. The pointer `client` of the shell is null or that client, and the pointer
-- `shell` of the client is null or that shell.
pub record Link : Type 0 where
  pub state : State
  pub has_client : Bool
  pub status : ℕ
  pub client_state : State
  pub has_shell : Bool
  pub cmd : Option Bytes
  -- the messages written to the client, and what the shell has been sent, the latest in front
  pub sent : List Message
  pub typed : List Bytes

-- How the calls that a transition makes end: `pdip_recv` with its code and the display, and whether
-- `pdip_send`, `rsys_send_msg_data` and the `write` of `rsys_send_eoc` succeed; and the bytes that
-- `vsnprintf` writes where `%s` meets a null pointer, which the C standard leaves open.
pub record Answers : Type 0 where
  pub code : Code
  pub text : Bytes
  pub typed_ok : Bool
  pub display_ok : Bool
  pub eoc_ok : Bool
  pub null_text : Bytes

-- A call ends, or an assertion fails or an access lies outside its block.
pub data Reaction (A : Type 0) : Type 0 where
  done : A → Link → Reaction A
  aborted : Reaction A

infixl 5 ◌>>=◌
abbrev pub ◌>>=◌ : {A : Type 0} {B : Type 0} → Reaction A → (A → Link → Reaction B) → Reaction B
done a l >>= f = f a l
aborted >>= f = aborted

abbrev pub require : {A : Type 0} → Bool → Reaction A → Reaction A
require true k = k
require false k = aborted

abbrev pub is_allocated : State → Bool
is_allocated allocated = true
is_allocated _ = false

-- `sizeof(RSYSD_SH_PROMPT) - 1`, of "RSYSD_PDIP> "
abbrev pub prompt_len : ℕ
prompt_len = 12

-- `(int)-1`
abbrev pub dummy_status : ℕ
dummy_status = 2 ^ 32 - 1

-- `rsys_send_eoc(shell->client->sd, status)`: true is the return code 0.
abbrev pub send_eoc : Answers → ℕ → Link → Reaction Bool
send_eoc a status l =
    require l.has_client (done a.eoc_ok (record l { sent = ended a.eoc_ok status ∷ l.sent }))

-- `rsys_send_msg_data(shell->client->sd, RSYS_MSG_DISPLAY, ...)`
abbrev pub send_display : Answers → Bytes → Link → Reaction Bool
send_display a bs l =
    require l.has_client (done a.display_ok (record l { sent = shown a.display_ok bs ∷ l.sent }))

-- What `%s` makes of the block of a command.
abbrev pub text_of : Answers → Option Bytes → Bytes
text_of a none = a.null_text
text_of a (some block) = c_string block

-- `rsysd_send_cmd`, with `client` the client of the shell: true is the return code 0.
unfoldable pub send_cmd : Answers → Bytes → Link → Reaction Bool
send_cmd a cmd l =
    require l.has_client
      (require l.has_shell (done a.typed_ok (record l { typed = (cmd ++ (b'\n' ∷ [])) ∷ l.typed })))

-- `rsysd_read_shell_display` with PDIP_RECV_FOUND: the display in front of the prompt is sent.
unfoldable pub read_display_end : Answers → Link → Reaction Code
read_display_end a l =
    let p = length a.text - prompt_len in
    if ltb (length a.text) prompt_len
    then done failure l
    else if ltb 0 p
    then (if get_or a.text (p - 1) 0 == b'\n'
        then (send_display a (take p a.text) l >>= λ ok m. done (if ok then found else failure) m)
        else done failure l)
    else done found l

-- `rsysd_read_shell_display`
unfoldable pub read_shell_display : Answers → Link → Reaction Code
unfolding read_display_end
read_shell_display a l = elim a.code [
  | found ↦ read_display_end a l
  | received ↦
      if ltb 0 (length a.text)
      then (send_display a a.text l >>= λ ok m. done (if ok then received else failure) m)
      else done received l
  | _ ↦ done failure l
]

-- `rsysd_flush_shell_display`
unfoldable pub flush_shell_display : Answers → Code
flush_shell_display a = elim a.code [ found ↦ found | received ↦ received | _ ↦ failure ]

-- `rsysd_delete_client(shell->client)`, and the shell's pointer set to null behind it.
unfoldable pub delete_client : Link → Reaction Unit
delete_client l = require l.has_client (
    require (is_allocated l.client_state)
      (done tt (record l { client_state = free; has_shell = false; has_client = false })))

-- `rsysd_unlink_client`
unfoldable pub unlink_client : Link → Reaction Unit
unlink_client l =
    require l.has_client
      (require l.has_shell (done tt (record l { has_shell = false; has_client = false })))

-- The end of a command: the status for the client, which is unlinked, and the shell is free,
-- whether the status could be sent or not.
unfoldable pub finish : Answers → ℕ → Link → Reaction Bool
unfolding unlink_client
finish a status l =
    send_eoc a status l >>= λ _ m. unlink_client m >>= λ _ n. done true (record n { state = free })

abbrev pub enter : State → Link → Reaction Bool
enter s l = done true (record l { state = s })

-- A command, or the request of its status, is typed; `s` is the state that waits for the answer.
abbrev pub submit : Answers → Bytes → State → Link → Reaction Bool
submit a cmd s l = send_cmd a cmd l >>= λ ok m. if ok then enter s m else finish a dummy_status m

-- "echo $?"
abbrev pub echo_status : Bytes
echo_status = b'e' ∷ b'c' ∷ b'h' ∷ b'o' ∷ b' ' ∷ b'$' ∷ b'?' ∷ []

-- What follows, by the code returned: the prompt behind the display of a command.
unfoldable pub behind_display : Answers → Code → Link → Reaction Bool
behind_display a found l = submit a echo_status wait_status l
behind_display a received l = done true l
behind_display a _ l = finish a dummy_status l

-- The prompt behind its status.
unfoldable pub behind_status : Answers → Code → Link → Reaction Bool
behind_status a found l = finish a l.status l
behind_status a received l = done true l
behind_status a _ l = finish a dummy_status l

module _ (atoi : Bytes → ℕ) where
  -- `rsysd_read_shell_status`, by the code that `pdip_recv` returns with the display.
  unfoldable pub read_status : Bytes → Code → Link → Reaction Code
  read_status text found l =
      let p = length text - (prompt_len + 1) in
      if ltb (prompt_len + 1) (length text)
      then (if get_or text p 0 == b'\n'
          then done found (record l { status = atoi (take p text) })
          else done failure l)
      else require (length text == prompt_len) (done found l)
  read_status text received l =
      let q = length text - 1 in
      require (ltb 0 (length text)) (
        if get_or text q 0 == b'\n'
        then done received (record l { status = atoi (take q text) })
        else done failure l)
  read_status text _ l = done failure l

  abbrev pub read_shell_status : Answers → Link → Reaction Code
  unfolding read_status
  read_shell_status a l = read_status a.text a.code l

  -- RSYSD_EVT_DATA in RSYSD_STATE_WAIT_EOC
  unfoldable pub data_in_wait_eoc : Answers → Link → Reaction Bool
  unfolding behind_display
  data_in_wait_eoc a l = read_shell_display a l >>= behind_display a

  -- RSYSD_EVT_DATA in RSYSD_STATE_WAIT_STATUS
  unfoldable pub data_in_wait_status : Answers → Link → Reaction Bool
  unfolding behind_status read_status
  data_in_wait_status a l = read_shell_status a l >>= behind_status a

  -- RSYSD_EVT_DATA in RSYSD_STATE_FREEING
  unfoldable pub data_in_freeing : Code → Link → Reaction Bool
  data_in_freeing received l = done true l
  data_in_freeing _ l = enter free l

  -- RSYSD_EVT_CLIENT_DCNX where the shell has a client; `s` is the state that follows.
  abbrev pub disconnect : State → Link → Reaction Bool
  disconnect s l = delete_client l >>= λ _ m. enter s m

  -- `rsysd_shell_fsm`: false is the return code -1, true a state. RSYSD_EVT_LINK comes with the
  -- client of the store.
  unfoldable pub shell_fsm : State → Event → Answers → Link → Reaction Bool
  unfolding data_in_wait_eoc data_in_wait_status data_in_freeing flush_shell_display
  shell_fsm free evt_link a l =
      done true (record l { has_client = true; has_shell = true; state = allocated })
  shell_fsm allocated evt_cmd a l = require l.has_client (submit a (text_of a l.cmd) wait_eoc l)
  shell_fsm allocated evt_client_dcnx a l = disconnect free l
  shell_fsm wait_eoc evt_data a l = data_in_wait_eoc a l
  shell_fsm wait_eoc evt_client_dcnx a l = disconnect freeing l
  shell_fsm wait_status evt_data a l = data_in_wait_status a l
  shell_fsm wait_status evt_client_dcnx a l = disconnect freeing l
  shell_fsm freeing evt_data a l = data_in_freeing (flush_shell_display a) l
  shell_fsm freeing evt_client_dcnx a l = done true l
  shell_fsm _ _ a l = done false l

  -- The `switch` on the state of the shell.
  abbrev pub react : Event → Answers → Link → Reaction Bool
  react e a l = shell_fsm l.state e a l
