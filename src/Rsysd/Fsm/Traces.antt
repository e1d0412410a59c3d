-- ===== src/Rsysd/Fsm/Traces.antt =====
-- A shell over any sequence of events and of clients.
use win_pdip.Prelude.{
  ℕ, ◌+◌, ◌≡◌, refl, sym, subst, ◌∙◌, Bool, false, not, ◌≤◌, [], Option, Bytes, arith,
}
use win_pdip.Rsysd.Fsm.{free, allocated, Event, Link, Answers, Reaction, done, react}
use win_pdip.Rsysd.Fsm.Linked.{
  IsLinked, ends, losses, one_if, account, accepted, abandoned, Reacted, Ends,
}
use win_pdip.Rsysd.Fsm.Transitions.{Allowed, shell_fsm-Reacted}

module _ (atoi : Bytes → ℕ) where
  -- What a shell can reach, with the commands accepted and abandoned until then, and the
  -- calls in which a write of an end of command would fail: the start, a call
  -- of the state machine, another client in the place of one that is not linked, and another
  -- command line in the client's buffer.
  pub data Reached : Link → ℕ → ℕ → ℕ → Type 0 where
    created :
        (status : ℕ) (cmd : Option Bytes)
        → Reached
            (record {
              state = free;
              has_client = false;
              status = status;
              client_state = allocated;
              has_shell = false;
              cmd = cmd;
              sent = [];
              typed = [];
            })
            0
            0
            0
    reacted :
        (l m : Link) (ok : Bool) (c d f : ℕ) (e : Event) (a : Answers)
        → Reached l c d f
        → Allowed e a l
        → react atoi e a l ≡ done ok m
        → Reached m (c + accepted l.state e) (d + abandoned l.state e) (f + one_if (not a.eoc_ok))
    changed_client :
        (l : Link) (c d f : ℕ)
        → Reached l c d f
        → l.has_shell ≡ false
        → Reached (record l { client_state = allocated }) c d f
    read_command :
        (l : Link) (c d f : ℕ) (cmd : Option Bytes)
        → Reached l c d f
        → Reached (record l { cmd = cmd }) c d f

  pub record Balanced (l : Link) (c d f : ℕ) : Type 0 where
    pub linked : IsLinked l
    pub balance : account l + d ≡ c
    pub lost : losses l.sent ≤ f

  done_same :
      {r : Reaction Bool} (P : Bool → Link → Type 0) {ok ok' : Bool} {m m' : Link}
      → r ≡ done ok m
      → r ≡ done ok' m'
      → P ok m
      → P ok' m'
  done_same P {ok} {ok'} {m} {m'} e f h = subst (Ends P) (sym e ∙ f) h

  -- In every state that a shell of rsystemd reaches by calls of rsysd_shell_fsm that return,
  -- changes of its unlinked client and new command lines, where a client that is linked is not
  -- deleted, and the data in RSYSD_STATE_WAIT_STATUS are, if they end in the prompt, the prompt
  -- alone or behind two bytes or more, and else not empty: the two pointers agree with the state,
  -- and the ends of command written, those lost since their write fails, the one owed and the
  -- commands abandoned by a client that left add up to the commands accepted, and no more ends are
  -- lost than there were calls in which the write of rsys_send_eoc would fail.
  pub Reached-Balanced : {l : Link} {c d f : ℕ} → Reached l c d f → Balanced l c d f
  unfolding ends losses
  Reached-Balanced (created status cmd) = record {
    linked = record { client = refl; shell = refl; alive = λ h. refl };
    balance = refl;
    lost = omega arith;
  }
  Reached-Balanced (reacted l m ok c d f e a r k h) =
      let ih = Reached-Balanced r in
      let (ok', m', h', x) = shell_fsm-Reacted atoi e a l ih.linked k in
      let y : Reacted a l l.state e ok m = done_same (Reacted a l l.state e) h' h x in
      record {
        linked = y.linked;
        balance = omega (arith, y.owed, ih.balance);
        lost = omega (arith, y.lost, ih.lost);
      }
  Reached-Balanced (changed_client l c d f r h) =
      let ih = Reached-Balanced r in
      record {
        linked = record { client = ih.linked.client; shell = ih.linked.shell; alive = λ k. refl };
        balance = ih.balance;
        lost = ih.lost;
      }
  Reached-Balanced (read_command l c d f cmd r) =
      let ih = Reached-Balanced r in
      record {
        linked = record {
          client = ih.linked.client;
          shell = ih.linked.shell;
          alive = ih.linked.alive;
        };
        balance = ih.balance;
        lost = ih.lost;
      }
