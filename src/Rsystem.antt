-- ===== src/Rsystem.antt =====
-- The client of the server: `rsystem` of rsys/rsystem.c.
pub mod Trimming
pub mod Displays
pub mod Tests
use win_pdip.Prelude.{
  ℕ, zero, suc, ◌+◌, ◌-◌, ◌*◌, ◌%◌, ◌^◌, bit_and, Bool, true, false, Option, none, some, List, [],
  ◌∷◌, ◌++◌, Bytes, length, take, get_or, leb, ltb, ◌==◌, if◌then◌else◌,
}
use win_pdip.Outcome.{Errno, eagain}
use win_pdip.Recv.Machine.{c_string}
use win_pdip.Tool.Cmdline.{isspace}

-- What a read of display data answers: an error, the end of the connection, or bytes.
pub data DataReply : Type 0 where
  failed end_of_connection : DataReply
  bytes : Bytes → DataReply

-- The messages that the server answers with, RSYS_MSG_DISPLAY with its length and the answers of the
-- reads of its data, or a header that cannot be read.
pub data Reply : Type 0 where
  display : ℕ → List DataReply → Reply
  end_of_command : ℕ → Reply
  busy out_of_memory unexpected unread : Reply

-- How the call ends: with a status, as its 32 bits, and the `errno` that it sets, on an access outside
-- of its block, or it waits for an answer that is not recorded. The first bytes are those printed.
pub data Outcome : Type 0 where
  returned : ℕ → Option Errno → Bytes → Outcome
  aborted : Outcome
  waiting : Bytes → Outcome

-- `(int)-1`
abbrev pub error_status : ℕ
error_status = 2 ^ 32 - 1

-- RSYSD_BUFFER_SIZE
abbrev pub buffer_size : ℕ
buffer_size = 4096

-- The status of a command, from that of the shell: a signal is kept, an exit code is shifted.
abbrev pub converted : ℕ → ℕ
converted s = if bit_and s 0x80 == 0 then s * 256 % 2 ^ 32 else s

-- The loop over the data of a display, `remain` bytes, and what follows. The buffer is printed as a
-- C string.
unfoldable pub show : ℕ → List DataReply → Bytes → (Bytes → Outcome) → Outcome
show remain [] out k = if remain == 0 then k out else waiting out
show remain (failed ∷ rs) out k = if remain == 0 then k out else returned error_status none out
show remain (end_of_connection ∷ rs) out k =
    if remain == 0 then k out else returned error_status none out
show remain (bytes bs ∷ rs) out k =
    let rest = show (remain - length bs) rs (out ++ c_string bs) k in
    if remain == 0 then k out else rest

-- "Wait for the response"
unfoldable pub receive : List Reply → Bytes → Outcome
unfolding show
receive [] out = waiting out
receive (display n rs ∷ more) out = show n rs out (λ o. receive more o)
receive (end_of_command s ∷ more) out = returned (converted s) none out
receive (busy ∷ more) out = returned error_status (some eagain) out
receive (out_of_memory ∷ more) out = returned error_status (some eagain) out
receive (unexpected ∷ more) out = returned error_status none out
receive (unread ∷ more) out = returned error_status none out

-- The loop that goes back over trailing blanks, from index `i`; `none` is an access in front of the
-- command, since the index wraps around. Else the length without them.
unfoldable pub trim : Bytes → ℕ → Option ℕ
trim cmd zero = if isspace (get_or cmd zero 0) then none else some 1
trim cmd (suc i) =
    let back = trim cmd i in if isspace (get_or cmd (suc i) 0) then back else some (suc i + 1)

-- The two writes, of the header and of the command with its NUL: whether each succeeds.
pub record Writes : Type 0 where
  pub header_ok : Bool
  pub command_ok : Bool

-- The length in the header, and the bytes of the command.
pub record Request : Type 0 where
  pub msg_length : ℕ
  pub command : Bytes

abbrev pub request : Bytes → ℕ → Request
request cmd n = record { msg_length = n + 1; command = take n cmd ++ (0 ∷ []) }

-- A call, with the request where both writes have succeeded.
abbrev pub submit : Writes → Bytes → Option ℕ → List Reply → Outcome × Option Request
submit w cmd none rs = (aborted, none)
submit w cmd (some n) rs =
    if w.header_ok
    then (if w.command_ok
        then (receive rs [], some (request cmd n))
        else (returned error_status none [], none))
    else (returned error_status none [], none)

-- The command line is known, and not empty or empty.
unfoldable pub run : Writes → Bytes → List Reply → Outcome × Option Request
unfolding trim receive
run w cmd rs =
    if length cmd == 0
    then (returned 0 none [], none)
    else submit w cmd (trim cmd (length cmd - 1)) rs

-- What `vsnprintf`, and `vasprintf` for a text that is longer than the buffer, answer.
pub record Texts : Type 0 where
  pub formatted : Option Bytes
  pub allocated : Option Bytes

-- `none` is an error of `vasprintf`.
abbrev pub run_allocated : Writes → Option Bytes → List Reply → Outcome × Option Request
run_allocated w none rs = (returned error_status none [], none)
run_allocated w (some cmd) rs = run w cmd rs

-- An error of `vsnprintf` is taken for a length, and the loop over the blanks starts outside of the
-- buffer.
abbrev pub run_formatted : Writes → Texts → Option Bytes → List Reply → Outcome × Option Request
run_formatted w t none rs = (aborted, none)
run_formatted w t (some cmd) rs =
    if leb (buffer_size + 1) (length cmd) then run_allocated w t.allocated rs else run w cmd rs

-- `rsystem`: whether the socket is connected, and whether a format is given.
unfoldable pub rsystem : Bool → Bool → Texts → Writes → List Reply → Outcome × Option Request
unfolding run
rsystem connected has_format t w rs =
    if connected
    then (if has_format then run_formatted w t t.formatted rs else (returned 0 none [], none))
    else (returned error_status none [], none)
