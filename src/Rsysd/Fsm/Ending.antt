-- ===== src/Rsysd/Fsm/Ending.antt =====
-- The end of a command: the prompt behind its status, which `rsysd_read_shell_status` reads.
use win_pdip.Prelude.{
  ℕ, ◌+◌, ◌-◌, ◌≡◌, refl, ap, ap₂, ◌∙◌, sym, subst, zero, suc, ◌<◌, Bool, take-append_eq, true,
  false, [], ◌∷◌, ◌++◌, Bytes, length, get_or, ltb, arith, length-append,
}
use win_pdip.Recv.{found}
use win_pdip.Rsysd.Fsm.{
  free, wait_status, evt_data, Message, end_of_command, lost_end, Link, Answers, Reaction, done,
  aborted, prompt_len, behind_status, read_status, ended, ◌>>=◌, data_in_wait_status, unlink_client,
  finish, shell_fsm, react,
}
use win_pdip.Rsysd.Fsm.Linked.{IsLinked}

-- The shell and the client behind the end of a command, with the message written.
abbrev behind_end : ℕ → Message → Link → Link
behind_end status message l = record l {
  state = free;
  has_client = false;
  has_shell = false;
  status = status;
  sent = message ∷ l.sent;
}

-- What the line in front of the prompt leads to: its number is the status of the command, which is
-- written to the client or lost, and they are unlinked; or the assertion fails on an empty line.
pub data IsAnswered (atoi : Bytes → ℕ) (line : Bytes) (a : Answers) (l : Link)
    : Reaction Bool → Type 0 where
  written :
      0 < length line
      → a.eoc_ok ≡ true
      → IsAnswered atoi line a l (done true (behind_end (atoi line) (end_of_command (atoi line)) l))
  lost :
      0 < length line
      → a.eoc_ok ≡ false
      → IsAnswered atoi line a l (done true (behind_end (atoi line) (lost_end (atoi line)) l))
  refused : line ≡ [] → IsAnswered atoi line a l aborted

get_or-append : (xs ys : Bytes) (y n : ℕ) → n ≡ length xs → get_or (xs ++ (y ∷ ys)) n 0 ≡ y
get_or-append [] ys y n e = rw e refl
get_or-append (x ∷ xs) ys y zero e = absurd (omega (arith, e))
get_or-append (x ∷ xs) ys y (suc n) e = get_or-append xs ys y n (omega (arith, e))

-- A line, a newline and a prompt are read as the number of the line.
read_status_line :
    (atoi : Bytes → ℕ) (c : ℕ) (cs prompt : Bytes) (l : Link)
    → length prompt ≡ prompt_len
    → read_status atoi ((c ∷ cs) ++ (b'\n' ∷ prompt)) found l
      ≡ done found (record l { status = atoi (c ∷ cs) })
unfolding read_status
read_status_line atoi c cs prompt l size =
    let line : Bytes = c ∷ cs in
    let text : Bytes = line ++ (b'\n' ∷ prompt) in
    let whole = length-append line (b'\n' ∷ prompt) in
    let front : length text - (prompt_len + 1) ≡ length line = omega (arith, whole, size) in
    let more : ltb (prompt_len + 1) (length text) ≡ true = ground (arith, whole, size) in
    rw
      (
        more,
        get_or-append line prompt b'\n' (length text - (prompt_len + 1)) front,
        take-append_eq (length text - (prompt_len + 1)) line (b'\n' ∷ prompt) front,
      )
      refl

-- The newline and the prompt alone have one byte more than the prompt.
read_status_newline :
    (atoi : Bytes → ℕ) (prompt : Bytes) (l : Link)
    → length prompt ≡ prompt_len
    → read_status atoi (b'\n' ∷ prompt) found l ≡ aborted
unfolding read_status
read_status_newline atoi prompt l size = rw size refl

finish-ended :
    (status : ℕ) (a : Answers) (l : Link)
    → l.has_client ≡ true
    → l.has_shell ≡ true
    → finish a status (record l { status = status })
      ≡ done true (behind_end status (ended a.eoc_ok status) l)
unfolding finish unlink_client
finish-ended status a l c h = rw (c, h) refl

ended-IsAnswered :
    (atoi : Bytes → ℕ) (line : Bytes) (a : Answers) (l : Link) (ok : Bool)
    → 0 < length line
    → a.eoc_ok ≡ ok
    → IsAnswered atoi line a l (done true (behind_end (atoi line) (ended ok (atoi line)) l))
ended-IsAnswered atoi line a l true n e = written n e
ended-IsAnswered atoi line a l false n e = lost n e

answered :
    (atoi : Bytes → ℕ) (line prompt : Bytes) (a : Answers) (l : Link)
    → length prompt ≡ prompt_len
    → l.has_client ≡ true
    → l.has_shell ≡ true
    → IsAnswered atoi line a l
        (read_status atoi (line ++ (b'\n' ∷ prompt)) found l >>= behind_status a)
unfolding behind_status
answered atoi [] prompt a l size c h = rw (read_status_newline atoi prompt l size) (refused refl)
answered atoi (b ∷ bs) prompt a l size c h = rw (read_status_line atoi b bs prompt l size) (
    subst (IsAnswered atoi (b ∷ bs) a l) (sym (finish-ended (atoi (b ∷ bs)) a l c h))
      (ended-IsAnswered atoi (b ∷ bs) a l a.eoc_ok (omega arith) refl))

react_status :
    (atoi : Bytes → ℕ) (a : Answers) (l : Link)
    → l.state ≡ wait_status
    → react atoi evt_data a l ≡ (read_status atoi a.text a.code l >>= behind_status a)
unfolding shell_fsm data_in_wait_status
react_status atoi a l w = ap (λ s. shell_fsm atoi s evt_data a l) w

-- Data of a shell of rsystemd in RSYSD_STATE_WAIT_STATUS, whose links agree with its state, where
-- pdip_recv finds the prompt and the display is a line, a newline and the 12 bytes of the prompt:
-- where the line is not empty, its number becomes the status of the shell, the end of command with
-- it is written to the client, or lost where that write fails, and in both cases shell and client
-- are unlinked and the shell is free; where the line is empty, the assertion on the length of the
-- display fails.
pub react-IsAnswered :
    (atoi : Bytes → ℕ) (line prompt : Bytes) (a : Answers) (l : Link)
    → length prompt ≡ prompt_len
    → IsLinked l
    → l.state ≡ wait_status
    → a.code ≡ found
    → a.text ≡ line ++ (b'\n' ∷ prompt)
    → IsAnswered atoi line a l (react atoi evt_data a l)
react-IsAnswered atoi line prompt a l size v w code text =
    subst (IsAnswered atoi line a l)
      (sym (
        react_status atoi a l w
        ∙ ap₂ (λ t rc. read_status atoi t rc l >>= behind_status a) text code))
      (answered atoi line prompt a l size (rw (v.client, w) refl) (rw (v.shell, w) refl))
