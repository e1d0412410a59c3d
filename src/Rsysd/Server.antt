-- ===== src/Rsysd/Server.antt =====
-- The shells and the clients of the server, rsys/rsystemd.c: new and freed clients, the search of a
-- free shell, the commands read, and what the select loop does for a descriptor that is ready. A
-- shell is known by its index, a client by its address; each may point to the other.
pub mod Wiring
pub mod Idle
pub mod Serving
pub mod Dispatching
pub mod Answering
pub mod Members
pub mod Loop
pub mod Clients
pub mod Shells
pub mod Rounds
pub mod Tests
use win_pdip.Prelude.{
  ℕ, zero, suc, ◌+◌, ◌-◌, Bool, true, false, ◌&&◌, ◌||◌, Option, none, some, List, [], ◌∷◌, ◌++◌,
  Bytes, length, drop, replicate, ltb, ◌==◌, if◌then◌else◌, put, put_self, put_other,
}
use win_pdip.Rsysd.Fsm.{
  State, free, allocated, Event, evt_link, evt_cmd, evt_data, evt_client_dcnx, Message, Link,
  Answers, Reaction, is_allocated, react,
}
use win_pdip.Rsysd.Fds.{Fds, add_set, remove_set}

-- `rsysd_shell_t` and `rsysd_client_t`; a pointer that is `none` is null.
pub record Shell : Type 0 where
  pub state : State
  pub client : Option ℕ
  pub status : ℕ
  pub typed : List Bytes

pub record Client : Type 0 where
  pub state : State
  pub sd : ℕ
  pub shell : Option ℕ
  pub cmd : Option Bytes
  pub cmd_sz : ℕ
  pub sent : List Message

-- RSYS_MSG_BUSY and RSYS_MSG_OOM
pub data Notice : Type 0 where
  busy oom : Notice

-- The shells and how many, the clients in the order of their list, and how many, the set of
-- descriptors, the sockets given to the thread that closes them, and the notices sent.
pub record Server : Type 0 where
  pub shells : ℕ → Shell
  pub nb_shells : ℕ
  pub clients : List ℕ
  pub client_at : ℕ → Client
  pub nb_clients : ℕ
  pub fds : Fds
  pub closing : List ℕ
  pub notices : List (ℕ × Notice)

-- A step ends, or an assertion fails.
pub data Outcome (A : Type 0) : Type 0 where
  done : A → Server → Outcome A
  aborted : Outcome A

infixl 5 ◌>>=◌
abbrev pub ◌>>=◌ : {A B : Type 0} → Outcome A → (A → Server → Outcome B) → Outcome B
done a w >>= f = f a w
aborted >>= f = aborted

abbrev pub points_to : Option ℕ → ℕ → Bool
points_to none a = false
points_to (some b) a = b == a

abbrev pub pointer : Bool → ℕ → Option ℕ
pointer false a = none
pointer true a = some a

-- `rsysd_new_client`, at the address that `malloc` gives
unfoldable pub new_client : ℕ → ℕ → Server → Server
new_client c sd w = record w {
  clients = c ∷ w.clients;
  client_at =
      put w.client_at c
        (record { state = allocated; sd = sd; shell = none; cmd = none; cmd_sz = 0; sent = [] });
  nb_clients = w.nb_clients + 1;
}

-- A connection accepted: the new client's socket is in the set, or the client gets RSYS_MSG_OOM.
unfoldable pub connect : Option ℕ → ℕ → Server → Server
unfolding new_client
connect none sd w = record w { closing = sd ∷ w.closing; notices = (sd, oom) ∷ w.notices }
connect (some c) sd w = record (new_client c sd w) { fds = add_set sd w.fds }

abbrev pub is_free : State → Bool
is_free free = true
is_free _ = false

-- `rsysd_get_shell`: the loop over `n` shells from index `i` on
unfoldable pub free_shell : (ℕ → Shell) → ℕ → ℕ → Option ℕ
free_shell shells zero i = none
free_shell shells (suc n) i =
    let later = free_shell shells n (i + 1) in if is_free (shells i).state then some i else later

abbrev pub get_shell : Server → Option ℕ
get_shell w = free_shell w.shells w.nb_shells 0

-- A shell and a client as the state machine sees them
abbrev pub link_of : ℕ → ℕ → Server → Link
link_of i c w = record {
  state = (w.shells i).state;
  has_client = points_to (w.shells i).client c;
  status = (w.shells i).status;
  client_state = (w.client_at c).state;
  has_shell = points_to (w.client_at c).shell i;
  cmd = (w.client_at c).cmd;
  sent = (w.client_at c).sent;
  typed = (w.shells i).typed;
}

abbrev pub with_link : ℕ → ℕ → Link → Server → Server
with_link i c l w = record w {
  shells = put w.shells i (record {
    state = l.state;
    client = pointer l.has_client c;
    status = l.status;
    typed = l.typed;
  });
  client_at = put w.client_at c (record (w.client_at c) {
    state = l.client_state;
    shell = pointer l.has_shell i;
    sent = l.sent;
  });
}

-- A shell with no client
abbrev pub alone : ℕ → Server → Link
alone i w = record {
  state = (w.shells i).state;
  has_client = false;
  status = (w.shells i).status;
  client_state = allocated;
  has_shell = false;
  cmd = none;
  sent = [];
  typed = (w.shells i).typed;
}

abbrev pub with_shell : ℕ → Link → Server → Server
with_shell i l w = record w {
  shells =
      put w.shells i
        (record { state = l.state; client = none; status = l.status; typed = l.typed });
}

abbrev pub after_link : ℕ → ℕ → Server → Reaction Bool → Outcome Bool
after_link i c w (Reaction.done ok l) = done ok (with_link i c l w)
after_link i c w Reaction.aborted = aborted

abbrev pub after_alone : ℕ → Server → Reaction Bool → Outcome Bool
after_alone i w (Reaction.done ok l) = done ok (with_shell i l w)
after_alone i w Reaction.aborted = aborted

-- What the read of a header answers, with its type and its length, and that of the command; no byte is
-- the end of the connection. `memory` is whether `realloc` succeeds.
pub data HeaderReply : Type 0 where
  header : ℕ → ℕ → HeaderReply
  ended failed : HeaderReply

pub data CmdReply : Type 0 where
  bytes : Bytes → CmdReply
  failed : CmdReply

pub record Input : Type 0 where
  pub head : HeaderReply
  pub memory : Bool
  pub body : CmdReply

-- RSYS_MSG_CMD, and the return codes -1, -2 and -3
pub data ReadCode : Type 0 where
  rc_cmd rc_error rc_disconnected rc_no_memory : ReadCode

abbrev pub fill_cmd : Option Bytes → Bytes → Option Bytes
fill_cmd none bs = none
fill_cmd (some block) bs = some (bs ++ drop (length bs) block)

-- "Read the data"
abbrev pub read_body : ℕ → CmdReply → Client → ReadCode × Client
read_body n failed k = (rc_error, k)
read_body n (bytes bs) k =
    let filled = record k { cmd = fill_cmd k.cmd bs } in
    if length bs == n
    then (rc_cmd, filled)
    else if length bs == 0
    then (rc_disconnected, filled)
    else (rc_error, filled)

abbrev pub enlarged : Option Bytes → ℕ → Bytes
enlarged none n = replicate n 0
enlarged (some block) n = block ++ replicate (n - length block) 0

-- "Allocate the space for the data"
abbrev pub read_cmd : ℕ → Bool → CmdReply → Client → ReadCode × Client
read_cmd n memory body k =
    if ltb k.cmd_sz n
    then (if memory
        then read_body n body (record k { cmd = some (enlarged k.cmd n); cmd_sz = n })
        else (rc_no_memory, record k { cmd = none }))
    else read_body n body k

-- `rsysd_read_client`
abbrev pub read_header : HeaderReply → Bool → CmdReply → Client → ReadCode × Client
read_header failed memory body k = (rc_error, k)
read_header ended memory body k = (rc_disconnected, k)
read_header (header type n) memory body k =
    if type == 0 then read_cmd n memory body k else (rc_error, k)

unfoldable pub read_client : Input → Client → ReadCode × Client
read_client i k = read_header i.head i.memory i.body k

-- `rsysd_delete_client` of a client with no shell
unfoldable pub delete_unlinked : ℕ → Server → Outcome Unit
delete_unlinked c w =
    if is_allocated (w.client_at c).state
    then done tt (record w {
      client_at = put w.client_at c (record (w.client_at c) { state = free; shell = none });
    })
    else aborted

abbrev pub without : ℕ → List ℕ → List ℕ
without c [] = []
without c (d ∷ ds) = if c == d then ds else d ∷ without c ds

abbrev pub is_null : {A : Type 0} → Option A → Bool
is_null none = true
is_null (some a) = false

-- `rsysd_free_client`; the block of the command is freed if there is one.
unfoldable pub free_client : ℕ → Server → Outcome Unit
free_client c w =
    let freed = record w {
      clients = without c w.clients;
      nb_clients = w.nb_clients - 1;
      fds = remove_set (w.client_at c).sd w.fds;
      closing = (w.client_at c).sd ∷ w.closing;
    } in
    if is_free (w.client_at c).state
      && is_null (w.client_at c).shell
      && (is_null (w.client_at c).cmd || ltb 0 (w.client_at c).cmd_sz)
      && ltb 0 w.nb_clients
    then done tt freed
    else aborted

-- "If the current client has been deleted"
unfoldable pub free_deleted : ℕ → Server → Outcome Unit
unfolding free_client
free_deleted c w = if is_free (w.client_at c).state then free_client c w else done tt w

module _ (atoi : Bytes → ℕ) where
  -- `rsysd_shell_fsm` of shell `i`, with the client of the event, or else with its own
  unfoldable pub call_fsm : ℕ → Event → Answers → Option ℕ → Server → Outcome Bool
  call_fsm i e a none w = after_alone i w (react atoi e a (alone i w))
  call_fsm i e a (some c) w = after_link i c w (react atoi e a (link_of i c w))

  -- "Data from shells": shell `i` is ready.
  unfoldable pub serve_shell : ℕ → Answers → Server → Outcome Bool
  unfolding call_fsm
  serve_shell i a w = call_fsm i evt_data a (w.shells i).client w

  -- "link it": a client with no shell gets the first free one.
  abbrev pub link_to : ℕ → Answers → Option ℕ → Server → Outcome Bool
  link_to c a none w = done false w
  link_to c a (some i) w = call_fsm i evt_link a (some c) w

  unfoldable pub link_client : ℕ → Answers → Server → Outcome Bool
  unfolding call_fsm free_shell
  link_client c a w =
      if is_allocated (w.client_at c).state && is_null (w.client_at c).shell
      then link_to c a (get_shell w) w
      else done false w

  -- What follows, by the shell of the client and the code of the read
  unfoldable pub dispatch : ℕ → ReadCode → Answers → Option ℕ → Server → Outcome Unit
  unfolding call_fsm delete_unlinked
  dispatch c rc_cmd a (some i) w = call_fsm i evt_cmd a (w.shells i).client w >>= λ _ v. done tt v
  dispatch c _ a (some i) w =
      call_fsm i evt_client_dcnx a (w.shells i).client w >>= λ _ v. done tt v
  dispatch c rc_cmd a none w =
      done tt (record w { notices = ((w.client_at c).sd, busy) ∷ w.notices })
  dispatch c _ a none w = delete_unlinked c w

  -- "Read the command line sent by the client"
  unfoldable pub read_and_dispatch : ℕ → Input → Answers → Server → Outcome Unit
  unfolding dispatch read_client
  read_and_dispatch c i a w =
      let (rc, k) = read_client i (w.client_at c) in
      dispatch c rc a k.shell (record w { client_at = put w.client_at c k })

  -- "Commands from clients": client `c` is ready.
  unfoldable pub serve_client : ℕ → Input → Answers → Answers → Server → Outcome Unit
  unfolding link_client read_and_dispatch free_deleted
  serve_client c i a b w =
      link_client c a w >>= λ _ v. read_and_dispatch c i b v >>= λ _ u. free_deleted c u
