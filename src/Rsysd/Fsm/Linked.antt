-- ===== src/Rsysd/Fsm/Linked.antt =====
-- The links between a shell and its client, and the commands that are open.
use win_pdip.Prelude.{
  not, ◌≤◌, ℕ, ◌+◌, ◌-◌, ◌<◌, ◌≡◌, ◌⊎◌, refl, Bool, true, false, List, [], ◌∷◌, Bytes, length, take,
  if◌then◌else◌, arith,
}
use win_pdip.Recv.{Code, found, received, failure}
use win_pdip.Rsysd.Fsm.{
  State, free, allocated, wait_eoc, wait_status, freeing, Event, evt_link, evt_cmd, evt_data,
  evt_client_dcnx, Message, display, end_of_command, lost_display, lost_end, shown, ended, Link,
  Answers, Reaction, done, aborted, ◌>>=◌, is_allocated, prompt_len, dummy_status, send_display,
  send_cmd, read_display_end, read_shell_display, unlink_client, finish, enter, submit,
}

-- In these states a client waits for the end of its command.
abbrev pub waits : State → Bool
waits wait_eoc = true
waits wait_status = true
waits _ = false

-- In these states the shell has a client.
abbrev pub serves : State → Bool
serves free = false
serves freeing = false
serves _ = true

-- The two pointers agree with the state, and a client that is linked is not deleted.
pub record IsLinked (l : Link) : Type 0 where
  pub client : l.has_client ≡ serves l.state
  pub shell : l.has_shell ≡ serves l.state
  pub alive : l.has_shell ≡ true → is_allocated l.client_state ≡ true

-- The commands whose end has been sent to the client.
unfoldable pub ends : List Message → ℕ
ends [] = 0
ends (display bs ∷ ms) = ends ms
ends (end_of_command s ∷ ms) = ends ms + 1
ends (lost_display bs ∷ ms) = ends ms
ends (lost_end s ∷ ms) = ends ms

-- The commands whose end could not be written to the client.
unfoldable pub losses : List Message → ℕ
losses [] = 0
losses (display bs ∷ ms) = losses ms
losses (end_of_command s ∷ ms) = losses ms
losses (lost_display bs ∷ ms) = losses ms
losses (lost_end s ∷ ms) = losses ms + 1

-- The ends of command written, as a whole or not.
abbrev pub finished : List Message → ℕ
finished ms = ends ms + losses ms

finished-ended :
    (ok : Bool) (s : ℕ) (ms : List Message) → finished (ended ok s ∷ ms) ≡ finished ms + 1
unfolding ends losses
finished-ended true s ms = omega arith
finished-ended false s ms = omega arith

abbrev pub one_if : Bool → ℕ
one_if true = 1
one_if false = 0

losses-ended :
    (ok : Bool) (s : ℕ) (ms : List Message) → losses (ended ok s ∷ ms) ≤ losses ms + one_if (not ok)
unfolding losses
losses-ended true s ms = omega arith
losses-ended false s ms = omega arith

losses-shown : (ok : Bool) (bs : Bytes) (ms : List Message) → losses (shown ok bs ∷ ms) ≡ losses ms
unfolding losses
losses-shown true bs ms = refl
losses-shown false bs ms = refl

finished-shown :
    (ok : Bool) (bs : Bytes) (ms : List Message) → finished (shown ok bs ∷ ms) ≡ finished ms
unfolding ends losses
finished-shown true bs ms = refl
finished-shown false bs ms = refl

-- The ends sent, those lost, and the one that is owed.
abbrev pub account : Link → ℕ
account l = ends l.sent + losses l.sent + one_if (waits l.state)

-- A command that the event hands to the shell, and one that the client abandons.
abbrev pub accepted : State → Event → ℕ
accepted allocated evt_cmd = 1
accepted _ _ = 0

abbrev pub abandoned : State → Event → ℕ
abandoned s evt_client_dcnx = one_if (waits s)
abandoned s _ = 0

-- The events that a state has a transition for.
abbrev pub expected : State → Event → Bool
expected free evt_link = true
expected allocated evt_cmd = true
expected allocated evt_client_dcnx = true
expected wait_eoc evt_data = true
expected wait_eoc evt_client_dcnx = true
expected wait_status evt_data = true
expected wait_status evt_client_dcnx = true
expected freeing evt_data = true
expected freeing evt_client_dcnx = true
expected _ _ = false

-- What the code relies on behind a status: a display that ends in the prompt is the prompt alone, or
-- has two bytes or more in front of it (a newline and a prompt alone are not); received data are not
-- empty.
abbrev pub Whole : Bytes → Code → Type 0
Whole text found = (length text ≡ prompt_len) ⊎ (prompt_len + 1 < length text)
Whole text received = 0 < length text
Whole text _ = Unit

abbrev pub Answered : State → Answers → Type 0
Answered wait_status a = Whole a.text a.code
Answered _ a = Unit

-- The call ends, and what it ends in has the property.
abbrev pub Ends : {A : Type 0} → (A → Link → Type 0) → Reaction A → Type 0
Ends P (done a l) = P a l
Ends P aborted = ⊥

pub Ends->>= :
    {A B : Type 0} (P : A → Link → Type 0) (Q : B → Link → Type 0) (r : Reaction A)
    (f : A → Link → Reaction B)
    → Ends P r
    → ((a : A) (l : Link) → P a l → Ends Q (f a l))
    → Ends Q (r >>= f)
Ends->>= P Q (done a l) f h k = k a l h
Ends->>= P Q aborted f h k = h

-- What an event does: whether it was expected, the links, and the account; an end of command is lost
-- only where its write fails.
pub record Reacted (a : Answers) (l : Link) (s : State) (e : Event) (ok : Bool) (m : Link)
    : Type 0 where
  pub code : ok ≡ expected s e
  pub linked : IsLinked m
  pub owed : account m + abandoned s e ≡ account l + accepted s e
  pub lost : losses m.sent ≤ losses l.sent + one_if (not a.eoc_ok)
  pub ignored : ok ≡ false → m ≡ l

-- A shell with a client that is alive, somewhere inside a transition: as `l` but for displays sent,
-- commands typed and the status.
pub record Busy (l m : Link) : Type 0 where
  pub client : m.has_client ≡ true
  pub shell : m.has_shell ≡ true
  pub alive : is_allocated m.client_state ≡ true
  pub state : m.state ≡ l.state
  pub sent : finished m.sent ≡ finished l.sent
  pub lost : losses m.sent ≡ losses l.sent

-- Behind the last call of a transition.
pub record Left (a : Answers) (l : Link) (n : ℕ) (ok : Bool) (m : Link) : Type 0 where
  pub code : ok ≡ true
  pub linked : IsLinked m
  pub owed : account m ≡ finished l.sent + n
  pub lost : losses m.sent ≤ losses l.sent + one_if (not a.eoc_ok)

pub finish-Left :
    {l m : Link} (a : Answers) (status : ℕ) → Busy l m → Ends (Left a l 1) (finish a status m)
unfolding finish unlink_client
finish-Left {l} {m} a status b =
    rw (b.client, b.shell)
      (record {
        code = refl;
        linked = record { client = refl; shell = refl; alive = λ h. ground (arith) };
        owed = omega (arith, b.sent, finished-ended a.eoc_ok status m.sent);
        lost = omega (arith, losses-ended a.eoc_ok status m.sent, b.lost);
      })

typed-Left :
    {l m : Link} (a : Answers) (s : State) (ok : Bool)
    → Busy l m
    → waits s ≡ true
    → serves s ≡ true
    → Ends (Left a l 1) (if ok then enter s m else finish a dummy_status m)
typed-Left a s false b w v = finish-Left a dummy_status b
typed-Left {l} {m} a s true b w v = record {
  code = refl;
  linked = record {
    client = rw (b.client, v) refl;
    shell = rw (b.shell, v) refl;
    alive = λ h. b.alive;
  };
  owed = rw w (omega (arith, b.sent));
  lost = omega (arith, b.lost);
}

pub submit-Left :
    {l m : Link} (a : Answers) (cmd : Bytes) (s : State)
    → Busy l m
    → waits s ≡ true
    → serves s ≡ true
    → Ends (Left a l 1) (submit a cmd s m)
unfolding send_cmd
submit-Left {l} {m} a cmd s b w v =
    rw (b.client, b.shell)
      (typed-Left a s a.typed_ok
        (record {
          client = refl;
          shell = refl;
          alive = b.alive;
          state = b.state;
          sent = b.sent;
          lost = b.lost;
        })
        w v)

-- The shell goes on waiting.
pub stay-Left :
    {a : Answers} {l m : Link}
    → Busy l m
    → waits l.state ≡ true
    → serves l.state ≡ true
    → Left a l 1 true m
stay-Left b w v = record {
  code = refl;
  linked = record {
    client = rw (b.client, b.state, v) refl;
    shell = rw (b.shell, b.state, v) refl;
    alive = λ h. b.alive;
  };
  owed = rw (b.state, w) (omega (arith, b.sent));
  lost = omega (arith, b.lost);
}

send_display-Busy :
    {l : Link} (a : Answers) (bs : Bytes) (yes_code : Code)
    → Busy l l
    → Ends
        (λ rc m. Busy l m)
        (send_display a bs l >>= λ ok m. done (if ok then yes_code else failure) m)
send_display-Busy {l} a bs yes_code b = rw b.client (record {
  client = refl;
  shell = b.shell;
  alive = b.alive;
  state = refl;
  sent = finished-shown a.display_ok bs l.sent;
  lost = losses-shown a.display_ok bs l.sent;
})

read_display_end-Busy :
    {l : Link} (a : Answers) → Busy l l → Ends (λ rc m. Busy l m) (read_display_end a l)
unfolding read_display_end
read_display_end-Busy {l} a b =
    let p = length a.text - prompt_len in
    ground (arith, send_display-Busy a (take p a.text) found b)

pub read_shell_display-Busy :
    {l : Link} (a : Answers) → Busy l l → Ends (λ rc m. Busy l m) (read_shell_display a l)
unfolding read_shell_display
read_shell_display-Busy {l} a b =
    ground (arith, send_display-Busy a a.text received b, read_display_end-Busy a b)
