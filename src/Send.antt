-- ===== src/Send.antt =====
-- Sending data: pdip_write and pdip_send of pdip_lib.c.
pub mod Delivery
pub mod Tests
use win_pdip.Prelude.{
  ℕ, ◌+◌, ◌-◌, Bool, true, false, Option, none, some, List, [], ◌∷◌, ◌++◌, Bytes, length, take,
  drop, ltb, leb, ◌==◌, if◌then◌else◌,
}
use win_pdip.Outcome.{Errno, Result, ok, err, einval, eperm, enospc}

-- What `write` answers: EINTR, another error, with the test whether the object is still alive then,
-- or the number of bytes that it takes.
pub data WriteReply : Type 0 where
  interrupted : WriteReply
  failed : Errno → Bool → WriteReply
  wrote : ℕ → WriteReply

-- The calls return, with what they report, or fail on an assertion, or wait for an answer that is not
-- recorded. The bytes are those that the terminal has got.
pub data Sent : Type 0 where
  returned : Result ℕ → Bytes → Sent
  aborted : Bytes → Sent
  waiting : Bytes → Sent

-- The loop of `pdip_write`, behind the `l` first bytes of `buf`; recursion is on the answers.
unfoldable pub write_from : Bytes → ℕ → List WriteReply → Sent
write_from buf l [] = waiting (take l buf)
write_from buf l (interrupted ∷ rs) = write_from buf l rs
write_from buf l (failed e alive ∷ rs) =
    if alive
    then returned (err e) (take l buf)
    else returned (if l == 0 then err e else ok l) (take l buf)
write_from buf l (wrote n ∷ rs) =
    let rest = write_from buf (l + n) rs in
    if leb (l + n) (length buf)
    then (if l + n == length buf then returned (ok (length buf)) buf else rest)
    else aborted (take l buf)

-- `pdip_write`
unfoldable pub write : Bytes → List WriteReply → Sent
unfolding write_from
write buf rs = write_from buf 0 rs

-- `vsnprintf` answers with the text, or fails.
unfoldable pub send_text : Option Bytes → Errno → List WriteReply → Sent
unfolding write
send_text none e rs = returned (err e) []
send_text (some text) e rs =
    if ltb 4096 (length text + 1) then returned (err enospc) [] else write text rs

-- `pdip_send`: whether a pointer is null, whether the process is alive, the answer of `vsnprintf`
-- with the `errno` it sets, and those of `write`.
unfoldable pub send : Bool → Bool → Option Bytes → Errno → List WriteReply → Sent
unfolding send_text
send no_pointer alive formatted e rs =
    if no_pointer
    then returned (err einval) []
    else if alive
    then send_text formatted e rs
    else returned (err eperm) []
