-- ===== src/Rsysd/Fsm/Answering.antt =====
-- The data of a shell that serves a client.
use win_pdip.Prelude.{ℕ, ◌+◌, ◌-◌, ◌≡◌, refl, true, Bytes, length, take, arith}
use win_pdip.Recv.{Code, found, timeout, received, failure}
use win_pdip.Rsysd.Fsm.{
  wait_eoc, wait_status, Link, Answers, prompt_len, dummy_status, read_shell_display, echo_status,
  data_in_wait_eoc, data_in_wait_status, behind_display, behind_status, read_status,
}
use win_pdip.Rsysd.Fsm.Linked.{
  serves, IsLinked, Whole, Ends, Ends->>=, Busy, Left, finish-Left, submit-Left, stay-Left,
  read_shell_display-Busy,
}

pub behind_display-Left :
    {l : Link} (a : Answers) (rc : Code) (m : Link)
    → l.state ≡ wait_eoc
    → Busy l m
    → Ends (Left a l 1) (behind_display a rc m)
unfolding behind_display
behind_display-Left a found m w c = submit-Left a echo_status wait_status c refl refl
behind_display-Left a received m w c = stay-Left c (rw w refl) (rw w refl)
behind_display-Left a timeout m w c = finish-Left a dummy_status c
behind_display-Left a failure m w c = finish-Left a dummy_status c

pub behind_status-Left :
    {l : Link} (a : Answers) (rc : Code) (m : Link)
    → l.state ≡ wait_status
    → Busy l m
    → Ends (Left a l 1) (behind_status a rc m)
unfolding behind_status
behind_status-Left a found m w c = finish-Left a m.status c
behind_status-Left a received m w c = stay-Left c (rw w refl) (rw w refl)
behind_status-Left a timeout m w c = finish-Left a dummy_status c
behind_status-Left a failure m w c = finish-Left a dummy_status c

pub with_status : {l : Link} (n : ℕ) → Busy l l → Busy l (record l { status = n })
with_status n b = record {
  client = b.client;
  shell = b.shell;
  alive = b.alive;
  state = refl;
  sent = refl;
  lost = refl;
}

pub read_status-Busy :
    (atoi : Bytes → ℕ) {l : Link} (text : Bytes) (rc : Code)
    → Busy l l
    → Whole text rc
    → Ends (λ rc m. Busy l m) (read_status atoi text rc l)
unfolding read_status
read_status-Busy atoi {l} text found b h =
    let p = length text - (prompt_len + 1) in ground (arith, with_status (atoi (take p text)) b)
read_status-Busy atoi {l} text received b h =
    let q = length text - 1 in ground (arith, with_status (atoi (take q text)) b)
read_status-Busy atoi text timeout b h = b
read_status-Busy atoi text failure b h = b

pub data_in_wait_eoc-Left :
    (atoi : Bytes → ℕ) {l : Link} (a : Answers)
    → Busy l l
    → l.state ≡ wait_eoc
    → Ends (Left a l 1) (data_in_wait_eoc atoi a l)
unfolding data_in_wait_eoc
data_in_wait_eoc-Left atoi {l} a b w =
    Ends->>= (λ rc m. Busy l m) (Left a l 1) (read_shell_display a l) (behind_display a)
      (read_shell_display-Busy a b) (λ rc m c. behind_display-Left a rc m w c)

pub data_in_wait_status-Left :
    (atoi : Bytes → ℕ) {l : Link} (a : Answers)
    → Busy l l
    → l.state ≡ wait_status
    → Whole a.text a.code
    → Ends (Left a l 1) (data_in_wait_status atoi a l)
unfolding data_in_wait_status
data_in_wait_status-Left atoi {l} a b w h =
    Ends->>= (λ rc m. Busy l m) (Left a l 1) (read_status atoi a.text a.code l) (behind_status a)
      (read_status-Busy atoi a.text a.code b h) (λ rc m c. behind_status-Left a rc m w c)

pub serving-Busy : {l : Link} → IsLinked l → serves l.state ≡ true → Busy l l
serving-Busy v s = record {
  client = rw (v.client, s) refl;
  shell = rw (v.shell, s) refl;
  alive = v.alive (rw (v.shell, s) refl);
  state = refl;
  sent = refl;
  lost = refl;
}
