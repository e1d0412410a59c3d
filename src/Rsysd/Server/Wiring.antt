-- ===== src/Rsysd/Server/Wiring.antt =====
-- The pointers between the shells and the clients.
use win_pdip.Prelude.{
  ℕ, ◌≡◌, ◌≢◌, ◌⊎◌, inl, inr, refl, sym, ap, subst, ◌∙◌, Bool, true, false, not, Option, none, some,
  Bytes, ◌==◌, ==_iff, Bool-cases, put, put_self, put_other, arith,
}
use win_pdip.Rsysd.Fsm.{Link, Event, Answers, is_allocated}
use win_pdip.Rsysd.Fsm.Linked.{serves, IsLinked}
use win_pdip.Rsysd.Fsm.Transitions.{Allowed, shell_fsm-Reacted}
use win_pdip.Rsysd.Server.{
  Shell, Client, Server, Outcome, done, aborted, points_to, pointer, is_null, link_of, with_link,
  after_link, call_fsm,
}

-- A shell and a client point to each other, or to nothing; a shell has a client exactly in the states
-- in which it serves one, and then the client is not deleted.
pub record Wired (w : Server) : Type 0 where
  pub forth : (i c : ℕ) → (w.shells i).client ≡ some c → (w.client_at c).shell ≡ some i
  pub back : (i c : ℕ) → (w.client_at c).shell ≡ some i → (w.shells i).client ≡ some c
  pub served : (i : ℕ) → not (is_null (w.shells i).client) ≡ serves (w.shells i).state
  pub alive : (i c : ℕ) → (w.client_at c).shell ≡ some i → is_allocated (w.client_at c).state ≡ true

-- The shell and the client belong together, or both are on their own.
abbrev pub Matched : ℕ → ℕ → Server → Type 0
Matched i c w =
    (((w.shells i).client ≡ some c) × ((w.client_at c).shell ≡ some i))
    ⊎ (((w.shells i).client ≡ none) × ((w.client_at c).shell ≡ none))

pub points_to_self : (a : ℕ) → points_to (some a) a ≡ true
points_to_self a = ground arith

pub is_null-pointer : (b : Bool) (a : ℕ) → not (is_null (pointer b a)) ≡ b
is_null-pointer false a = refl
is_null-pointer true a = refl

pub pointer-cases : (b : Bool) (a d : ℕ) → pointer b a ≡ some d → (b ≡ true) × (a ≡ d)
pointer-cases false a d e = absurd (cc e)
pointer-cases true a d e = (refl, cc e)

pub some_inj : (a b : ℕ) → ◌≡◌ {A = Option ℕ} (some a) (some b) → a ≡ b
some_inj a b e = cc e

-- The shell and the client of the state machine are linked.
pub link_of-IsLinked : (i c : ℕ) (w : Server) → Wired w → Matched i c w → IsLinked (link_of i c w)
link_of-IsLinked i c w v (inl (there, here)) = record {
  client = ap (λ p. points_to p c) there ∙ points_to_self c ∙ serving;
  shell = ap (λ p. points_to p i) here ∙ points_to_self i ∙ serving;
  alive = λ _. v.alive i c here;
}
  where
    serving : true ≡ serves (w.shells i).state
    serving = sym (ap (λ p. not (is_null p)) there) ∙ v.served i
link_of-IsLinked i c w v (inr (there, here)) = record {
  client = ap (λ p. points_to p c) there ∙ idle;
  shell = ap (λ p. points_to p i) here ∙ idle;
  alive = λ h. absurd (cc (h, ap (λ p. points_to p i) here));
}
  where
    idle : false ≡ serves (w.shells i).state
    idle = sym (ap (λ p. not (is_null p)) there) ∙ v.served i

-- Nobody else points to them.
pub other_shell :
    (i c j d : ℕ) (w : Server)
    → Wired w
    → Matched i c w
    → j ≢ i
    → (w.shells j).client ≡ some d
    → d ≢ c
other_shell i c j d w v (inl (there, here)) h e q =
    h (some_inj j i (sym (v.forth j d e) ∙ ap (λ x. (w.client_at x).shell) q ∙ here))
other_shell i c j d w v (inr (there, here)) h e q =
    absurd (cc (v.forth j d e, ap (λ x. (w.client_at x).shell) q, here))

pub other_client :
    (i c j d : ℕ) (w : Server)
    → Wired w
    → Matched i c w
    → d ≢ c
    → (w.client_at d).shell ≡ some j
    → j ≢ i
other_client i c j d w v (inl (there, here)) h e q =
    h (some_inj d c (sym (v.back j d e) ∙ ap (λ x. (w.shells x).client) q ∙ there))
other_client i c j d w v (inr (there, here)) h e q =
    absurd (cc (v.back j d e, ap (λ x. (w.shells x).client) q, there))

pub nat-cases : (a b : ℕ) → (a ≡ b) ⊎ (a ≢ b)
nat-cases a b = elim (Bool-cases (a == b)) [
  | inl e ↦ inl ((==_iff a b).0 e)
  | inr e ↦ inr (λ q. absurd (cc (e, (==_iff a b).1 q)))
]

-- The store read at its address, and at another
pub at_self {ℓ} : {A : Type ℓ} (f : ℕ → A) (a : ℕ) (v : A) (x : ℕ) → x ≡ a → put f a v x ≡ v
at_self f a v x e = subst (λ y. put f a v y ≡ v) (sym e) (put_self f a v)

-- What the stores of a call of the state machine leave at shell `j` and client `d`.
pub record Stored (i c : ℕ) (m : Link) (w : Server) : Type 0 where
  pub shell_self : (j : ℕ) → j ≡ i → ((with_link i c m w).shells j).client ≡ pointer m.has_client c
  pub shell_other : (j : ℕ) → j ≢ i → (with_link i c m w).shells j ≡ w.shells j
  pub client_self :
      (d : ℕ) → d ≡ c → ((with_link i c m w).client_at d).shell ≡ pointer m.has_shell i
  pub client_other : (d : ℕ) → d ≢ c → (with_link i c m w).client_at d ≡ w.client_at d
  pub state_self : (j : ℕ) → j ≡ i → ((with_link i c m w).shells j).state ≡ m.state
  pub client_state_self : (d : ℕ) → d ≡ c → ((with_link i c m w).client_at d).state ≡ m.client_state

pub stored : (i c : ℕ) (m : Link) (w : Server) → Stored i c m w
stored i c m w = record {
  shell_self = λ j e. ap (λ (x : Shell). x.client) (at_self w.shells i _ j e);
  shell_other = λ j h. put_other w.shells i _ j h;
  client_self = λ d e. ap (λ (x : Client). x.shell) (at_self w.client_at c _ d e);
  client_other = λ d h. put_other w.client_at c _ d h;
  state_self = λ j e. ap (λ (x : Shell). x.state) (at_self w.shells i _ j e);
  client_state_self = λ d e. ap (λ (x : Client). x.state) (at_self w.client_at c _ d e);
}

pub with_link-Wired :
    (i c : ℕ) (m : Link) (w : Server)
    → Wired w
    → Matched i c w
    → IsLinked m
    → Wired (with_link i c m w)
with_link-Wired i c m w v k l = record {
  forth = λ j d e. elim (nat-cases j i) [
    | inl q ↦
        let (has, to) = pointer-cases m.has_client c d (sym (s.shell_self j q) ∙ e) in
        s.client_self d (sym to)
        ∙ ap (λ b. pointer b i) (l.shell ∙ sym l.client ∙ has)
        ∙ ap some (sym q)
    | inr h ↦
        let e1 : (w.shells j).client ≡ some d =
          sym (ap (λ (x : Shell). x.client) (s.shell_other j h)) ∙ e in
        ap (λ (x : Client). x.shell) (s.client_other d (other_shell i c j d w v k h e1))
        ∙ v.forth j d e1
  ];
  back = λ j d e. elim (nat-cases d c) [
    | inl q ↦
        let (has, to) = pointer-cases m.has_shell i j (sym (s.client_self d q) ∙ e) in
        s.shell_self j (sym to)
        ∙ ap (λ b. pointer b c) (l.client ∙ sym l.shell ∙ has)
        ∙ ap some (sym q)
    | inr h ↦
        let e1 : (w.client_at d).shell ≡ some j =
          sym (ap (λ (x : Client). x.shell) (s.client_other d h)) ∙ e in
        ap (λ (x : Shell). x.client) (s.shell_other j (other_client i c j d w v k h e1))
        ∙ v.back j d e1
  ];
  served = λ j. elim (nat-cases j i) [
    | inl q ↦
        ap (λ p. not (is_null p)) (s.shell_self j q)
        ∙ is_null-pointer m.has_client c
        ∙ l.client
        ∙ ap serves (sym (s.state_self j q))
    | inr h ↦
        subst (λ (x : Shell). not (is_null x.client) ≡ serves x.state) (sym (s.shell_other j h))
          (v.served j)
  ];
  alive = λ j d e. elim (nat-cases d c) [
    | inl q ↦
        ap is_allocated (s.client_state_self d q)
        ∙ l.alive (pointer-cases m.has_shell i j (sym (s.client_self d q) ∙ e)).0
    | inr h ↦
        ap (λ (x : Client). is_allocated x.state) (s.client_other d h)
        ∙ v.alive j d (sym (ap (λ (x : Client). x.shell) (s.client_other d h)) ∙ e)
  ];
}
  where
    s : Stored i c m w
    s = stored i c m w

-- A step ends, and what it ends in has the property.
abbrev pub Ends : {A : Type 0} → (Server → Type 0) → Outcome A → Type 0
Ends P (done a w) = P w
Ends P aborted = ⊥

-- A call of the state machine with a client
pub call_fsm-Wired :
    (atoi : Bytes → ℕ) (i : ℕ) (e : Event) (a : Answers) (c : ℕ) (w : Server)
    → Wired w
    → Matched i c w
    → Allowed e a (link_of i c w)
    → Ends Wired (call_fsm atoi i e a (some c) w)
unfolding call_fsm
call_fsm-Wired atoi i e a c w v k h =
    let (ok, m, eq, r) =
      shell_fsm-Reacted atoi e a (link_of i c w) (link_of-IsLinked i c w v k) h in
    subst (λ x. Ends Wired (after_link i c w x)) (sym eq) (with_link-Wired i c m w v k r.linked)
