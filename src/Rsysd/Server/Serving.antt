-- ===== src/Rsysd/Server/Serving.antt =====
-- A client that is ready: it is linked to a free shell, its command is read, and the state machine of
-- its shell, or else the server, answers.
use win_pdip.Prelude.{
  ℕ, zero, suc, ◌+◌, ◌≡◌, ◌≢◌, ◌⊎◌, inl, inr, refl, sym, ap, subst, ◌∙◌, Bool, true, false, not,
  ◌||◌, Option, none, some, Bytes, length, ltb, ◌==◌, Bool-cases, if◌then◌else◌, put_self,
  put_other, arith,
}
use win_pdip.Rsysd.Fsm.{
  Link, State, free, allocated, wait_eoc, wait_status, freeing, Event, evt_link, Answers, Reaction,
  is_allocated, react, shell_fsm,
}
use win_pdip.Rsysd.Fsm.Linked.{serves, IsLinked}
use win_pdip.Rsysd.Fsm.Transitions.{Allowed, shell_fsm-Reacted}
use win_pdip.Rsysd.Fsm.Deletion.{IsPlain, Yields, react-Yields}
use win_pdip.Rsysd.Server.{
  Shell, Client, Server, is_free, is_null, free_shell, link_of, with_link, after_link, call_fsm,
  HeaderReply, header, ended, CmdReply, bytes, Input, ReadCode, fill_cmd, read_body, enlarged,
  read_cmd, read_header, read_client, link_client,
}
use win_pdip.Rsysd.Server.Wiring.{Wired, Matched, Ends, link_of-IsLinked, with_link-Wired}

-- A block for the command has a size.
abbrev pub IsSized : Client → Type 0
IsSized k = (is_null k.cmd || ltb 0 k.cmd_sz) ≡ true

-- What a step keeps, besides the wiring: the list of the clients, the size of the block, and the other
-- clients; its own client is in use or deleted.
pub record Kept (c : ℕ) (w v : Server) : Type 0 where
  pub wired : Wired v
  pub clients : v.clients ≡ w.clients
  pub nb_clients : v.nb_clients ≡ w.nb_clients
  pub sized : IsSized (v.client_at c)
  pub others : (x : ℕ) → x ≢ c → v.client_at x ≡ w.client_at x
  pub plain : IsPlain (v.client_at c).state

pub allocated-IsPlain : (s : State) → is_allocated s ≡ true → IsPlain s
allocated-IsPlain free e = tt
allocated-IsPlain allocated e = tt
allocated-IsPlain wait_eoc e = cc e
allocated-IsPlain wait_status e = cc e
allocated-IsPlain freeing e = cc e

-- What the read of a client changes: its block only.
pub record InputDone (k j : Client) : Type 0 where
  pub same_state : j.state ≡ k.state
  pub same_shell : j.shell ≡ k.shell
  pub still_sized : IsSized j

fill_cmd-IsSized :
    (k : Client) (bs : Bytes) → IsSized k → IsSized (record k { cmd = fill_cmd k.cmd bs })
fill_cmd-IsSized k bs h = filled k.cmd h
  where
    filled :
        (o : Option Bytes)
        → (is_null o || ltb 0 k.cmd_sz) ≡ true
        → (is_null (fill_cmd o bs) || ltb 0 k.cmd_sz) ≡ true
    filled none h = refl
    filled (some b) h = h

if-InputDone :
    (k : Client) (t : Bool) (p q : ReadCode × Client)
    → InputDone k p.1
    → InputDone k q.1
    → InputDone k (if t then p else q).1
if-InputDone k true p q h g = h
if-InputDone k false p q h g = g

read_body-InputDone :
    (n : ℕ) (body : CmdReply) (k j : Client) → InputDone k j → InputDone k (read_body n body j).1
read_body-InputDone n CmdReply.failed k j h = h
read_body-InputDone n (bytes bs) k j h =
    if-InputDone k (length bs == n) _ _ filled (if-InputDone k (length bs == 0) _ _ filled filled)
  where
    filled : InputDone k (record j { cmd = fill_cmd j.cmd bs })
    filled = record {
      same_state = h.same_state;
      same_shell = h.same_shell;
      still_sized = fill_cmd-IsSized j bs h.still_sized;
    }

read_cmd-InputDone :
    (n : ℕ) (memory : Bool) (body : CmdReply) (k : Client)
    → IsSized k
    → InputDone k (read_cmd n memory body k).1
read_cmd-InputDone n memory body k h = elim (Bool-cases (ltb k.cmd_sz n)) [
  | inl small ↦ rw small (
      if-InputDone k memory _ _
        (read_body-InputDone n body k (record k { cmd = some (enlarged k.cmd n); cmd_sz = n })
          (record { same_state = refl; same_shell = refl; still_sized = ground arith }))
        (record { same_state = refl; same_shell = refl; still_sized = refl }))
  | inr room ↦ rw room (
      read_body-InputDone n body k k
        (record { same_state = refl; same_shell = refl; still_sized = h }))
]

pub read_client-InputDone : (i : Input) (k : Client) → IsSized k → InputDone k (read_client i k).1
unfolding read_client
read_client-InputDone i k h = by_header i.head
  where
    by_header : (r : HeaderReply) → InputDone k (read_header r i.memory i.body k).1
    by_header HeaderReply.failed = record { same_state = refl; same_shell = refl; still_sized = h }
    by_header ended = record { same_state = refl; same_shell = refl; still_sized = h }
    by_header (header type n) =
        if-InputDone k (type == 0) _ _ (read_cmd-InputDone n i.memory i.body k h)
          (record { same_state = refl; same_shell = refl; still_sized = h })

-- The search finds a free shell, or none of those searched is free.
pub free_shell-cases :
    (shells : ℕ → Shell) (n i : ℕ)
    → (free_shell shells n i ≡ none)
      ⊎ ((j : ℕ) × (free_shell shells n i ≡ some j) × (is_free (shells j).state ≡ true))
unfolding free_shell
free_shell-cases shells zero i = inl refl
free_shell-cases shells (suc n) i = elim (Bool-cases (is_free (shells i).state)) [
  | inl e ↦ inr (i, rw e refl, e)
  | inr e ↦ rw e (free_shell-cases shells n (i + 1))
]

-- The stores of a call of the state machine
with_link-Kept :
    (i c : ℕ) (m : Link) (w : Server)
    → Wired w
    → Matched i c w
    → IsLinked m
    → IsSized (w.client_at c)
    → IsPlain m.client_state
    → Kept c w (with_link i c m w)
with_link-Kept i c m w v k l h p = record {
  wired = with_link-Wired i c m w v k l;
  clients = refl;
  nb_clients = refl;
  sized = subst IsSized (sym (put_self w.client_at c _)) h;
  others = λ x o. put_other w.client_at c _ x o;
  plain = subst (λ (x : Client). IsPlain x.state) (sym (put_self w.client_at c _)) p;
}

pub call_fsm-Kept :
    (atoi : Bytes → ℕ) (i : ℕ) (e : Event) (a : Answers) (c : ℕ) (w : Server)
    → Wired w
    → Matched i c w
    → Allowed e a (link_of i c w)
    → IsSized (w.client_at c)
    → IsPlain (w.client_at c).state
    → Ends (Kept c w) (call_fsm atoi i e a (some c) w)
unfolding call_fsm
call_fsm-Kept atoi i e a c w v k h z p =
    let (ok, m, eq, r) =
      shell_fsm-Reacted atoi e a (link_of i c w) (link_of-IsLinked i c w v k) h in
    subst (λ x. Ends (Kept c w) (after_link i c w x)) (sym eq)
      (with_link-Kept i c m w v k r.linked z
        (subst (Yields IsPlain) eq (react-Yields IsPlain atoi e a (link_of i c w) p (λ _. tt))))

-- What the link of a client with a free shell is.
react_link :
    (atoi : Bytes → ℕ) (a : Answers) (l : Link)
    → l.state ≡ free
    → react atoi evt_link a l
      ≡ Reaction.done true (record l { has_client = true; has_shell = true; state = allocated })
unfolding shell_fsm
react_link atoi a l e = rw e refl

-- Behind the link, the client is not deleted.
abbrev pub Linkable : ℕ → Server → Server → Type 0
Linkable c w v = Kept c w v × (is_allocated (v.client_at c).state ≡ true)

free_state : (s : State) → is_free s ≡ true → s ≡ free
free_state free e = refl
free_state allocated e = absurd (cc e)
free_state wait_eoc e = absurd (cc e)
free_state wait_status e = absurd (cc e)
free_state freeing e = absurd (cc e)

null_pointer : {A : Type 0} (p : Option A) → is_null p ≡ true → p ≡ none
null_pointer none e = refl
null_pointer (some a) e = absurd (cc e)

negated : (b : Bool) → not b ≡ false → b ≡ true
negated true e = refl
negated false e = absurd (cc e)

link_to-Linkable :
    (atoi : Bytes → ℕ) (c i : ℕ) (a : Answers) (w : Server)
    → Wired w
    → is_allocated (w.client_at c).state ≡ true
    → IsSized (w.client_at c)
    → (w.client_at c).shell ≡ none
    → (w.shells i).state ≡ free
    → Ends (Linkable c w) (call_fsm atoi i evt_link a (some c) w)
unfolding call_fsm
link_to-Linkable atoi c i a w v live z idle is =
    subst (λ x. Ends (Linkable c w) (after_link i c w x))
      (sym (react_link atoi a (link_of i c w) is))
      (
        with_link-Kept i c
            (record (link_of i c w) { has_client = true; has_shell = true; state = allocated }) w v
            (inr (null_pointer (w.shells i).client unserved, idle))
            (record { client = refl; shell = refl; alive = λ _. live }) z
            (allocated-IsPlain (w.client_at c).state live),
        ap (λ (k : Client). is_allocated k.state) (put_self w.client_at c _) ∙ live,
      )
  where
    unserved : is_null (w.shells i).client ≡ true
    unserved = negated (is_null (w.shells i).client) (v.served i ∙ ap serves is)

pub unchanged-Kept :
    (c : ℕ) (w : Server)
    → Wired w
    → IsSized (w.client_at c)
    → IsPlain (w.client_at c).state
    → Kept c w w
unchanged-Kept c w v z p = record {
  wired = v;
  clients = refl;
  nb_clients = refl;
  sized = z;
  others = λ x o. refl;
  plain = p;
}

pub link_client-Linkable :
    (atoi : Bytes → ℕ) (c : ℕ) (a : Answers) (w : Server)
    → Wired w
    → is_allocated (w.client_at c).state ≡ true
    → IsSized (w.client_at c)
    → Ends (Linkable c w) (link_client atoi c a w)
unfolding link_client
link_client-Linkable atoi c a w v live z = elim (Bool-cases (is_null (w.client_at c).shell)) [
  | inr e ↦
      rw (live, e) (unchanged-Kept c w v z (allocated-IsPlain (w.client_at c).state live), live)
  | inl e ↦
      rw (live, e)
        (elim (free_shell-cases w.shells w.nb_shells 0) [
          | inl none_free ↦
              rw none_free
                (unchanged-Kept c w v z (allocated-IsPlain (w.client_at c).state live), live)
          | inr (i, eq, is) ↦ rw eq (
              link_to-Linkable atoi c i a w v live z (null_pointer (w.client_at c).shell e)
                (free_state (w.shells i).state is))
        ])
]
