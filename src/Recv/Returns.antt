-- ===== src/Recv/Returns.antt =====
-- What `pdip_recv` promises when it returns, and how each step leads there.
use win_pdip.Prelude.{
  ℕ, ◌<◌, ◌≡◌, sym, ap, ◌∙◌, Bool, true, Option, some, ◌++◌, Bytes, take, drop, arith, append_assoc,
  take-append-drop,
}
use win_pdip.Recv.Machine.{World}
use win_pdip.Recv.Steps.{Rc, end_of_match}
use win_pdip.Recv.Invariant.{
  text, Fits, Holds, Granted, Clean, IsIdle, pending, ahead, text-empty, Holds→Fits,
}
use win_pdip.Recv.Reading.{Filled}
use win_pdip.Recv.Matching.{Found}
use win_pdip.Recv.Lines.{Split}
use win_pdip.Recv.Flushing.{Flushed}
use win_pdip.Recv.{Code, found, timeout, received, failure, Turn, leave, again}

-- The regular expression matches the data `t` up to where they are cut.
pub record CutAtMatch (regexec : Bytes → Option ℕ) (given kept : Bytes) : Type 0 where
  pub eo : ℕ
  pub match : regexec (given ++ kept) ≡ some eo
  pub cut : given ≡ take (end_of_match (given ++ kept) eo) (given ++ kept)

-- What each return code means, with a regular expression.
abbrev pub Means : (Bytes → Option ℕ) → Bool → Code → World → Type 0
Means regexec flow found v = CutAtMatch regexec (text v.user) (text v.kept)
Means regexec flow timeout v = (v.user.len ≡ 0) × (v.left ≡ 0)
Means regexec flow received v = (0 < v.user.len) × (flow ≡ true)
Means regexec flow failure v = v.user.len ≡ 0

-- The state is well formed again, and no byte of `before` is lost, doubled or out of order: the
-- data given to the user come first, then the outstanding ones, then those of the terminal.
pub record Conserves (before : Bytes) (v : World) : Type 0 where
  pub user : Fits v.user
  pub kept : Holds v.kept
  pub clean : Clean v.reads
  pub heap : Granted v.heap
  pub conserved : before ≡ text v.user ++ (text v.kept ++ pending v.reads)

pub record Returned (regexec : Bytes → Option ℕ) (flow : Bool) (before : Bytes) (c : Code)
    (v : World) : Type 0 where
  pub conserves : Conserves before v
  pub means : Means regexec flow c v

-- A turn of a loop: it returns, or it is idle again, with the same data ahead and less to wait for.
abbrev pub Turned : (Bytes → Option ℕ) → Bool → Bytes → (World → ℕ) → ℕ → Turn → World → Type 0
Turned regexec flow before measure n (leave c) v = Returned regexec flow before c v
Turned regexec flow before measure n again v = IsIdle v × (ahead v ≡ before) × (measure v < n)

-- `t` cut in two, with what follows.
cut_again : (q : ℕ) (t rest : Bytes) → t ++ rest ≡ take q t ++ (drop q t ++ rest)
cut_again q t rest =
    ap (λ (x : Bytes). x ++ rest) (sym (take-append-drop q t))
    ∙ append_assoc (take q t) (drop q t) rest

module _ (regexec : Bytes → Option ℕ) (flow : Bool) (before : Bytes) where
  pub Found-Returned :
      {t : Bytes} {w v : World} {rc : Rc}
      → Found regexec t w rc v
      → Clean w.reads
      → before ≡ t ++ pending w.reads
      → Returned regexec flow before found v
  Found-Returned {t} {w} {v} f c e =
      let m = f.cut in
      let whole : text v.user ++ text v.kept ≡ t =
        rw (m.user_text, m.kept_text) (take-append-drop (end_of_match t f.eo) t) in
      record {
        conserves = record {
          user = Holds→Fits v.user m.user;
          kept = m.kept;
          clean = rw m.reads c;
          heap = m.heap;
          conserved =
              rw (m.user_text, m.kept_text, m.reads)
                (e ∙ cut_again (end_of_match t f.eo) t (pending w.reads));
        };
        means = record { eo = f.eo; match = rw whole f.match; cut = rw whole m.user_text };
      }

  -- Nothing is given to the user.
  pub none_given : (v : World) → IsIdle v → before ≡ ahead v → Conserves before v
  none_given v idle e = record {
    user = idle.user_fits;
    kept = idle.kept_holds;
    clean = idle.reads_clean;
    heap = idle.heap_granted;
    conserved = rw (text-empty v.user idle.user_empty) e;
  }

  pub Split-Returned :
      {w v : World} {rc : Rc}
      → Split w rc v
      → IsIdle w
      → flow ≡ true
      → before ≡ ahead w
      → Returned regexec flow before received v
  Split-Returned {w} {v} s idle on e = record {
    conserves = record {
      user = Holds→Fits v.user s.user;
      kept = s.kept;
      clean = rw s.reads idle.reads_clean;
      heap = s.heap;
      conserved =
          rw (s.user_text, s.kept_text, s.reads)
            (e ∙ cut_again s.size (text w.kept) (pending w.reads));
    };
    means = (omega (arith, s.user_len, s.some_line), on);
  }

  pub Flushed-Conserves :
      {w v : World} {rc : Rc} → Flushed w rc v → IsIdle w → before ≡ ahead w → Conserves before v
  Flushed-Conserves {w} {v} f idle e = record {
    user = f.user;
    kept = f.kept;
    clean = rw f.reads idle.reads_clean;
    heap = rw f.heap idle.heap_granted;
    conserved = rw (f.user_text, text-empty v.kept f.kept_empty, f.reads) e;
  }

  -- A read that gave nothing leaves the state idle.
  pub Filled-IsIdle :
      (w : World) {v : World} {rc : Rc}
      → Filled w.kept w.reads rc v
      → Holds w.kept
      → v.user.len ≡ 0
      → before ≡ ahead w
      → IsIdle v × (before ≡ ahead v)
  Filled-IsIdle w {v} f hk e b = (
    record {
      kept_holds = rw f.kept hk;
      user_fits = f.fits;
      user_empty = e;
      reads_clean = f.clean;
      heap_granted = f.heap;
    },
    rw f.kept (b ∙ ap (◌++◌ (text w.kept)) (sym (rw (text-empty v.user e) at f.stream))),
  )

  -- The data read stand behind the outstanding ones.
  pub Filled-ahead :
      (w : World) {v : World} {rc : Rc}
      → Filled w.kept w.reads rc v
      → before ≡ ahead w
      → before ≡ (text v.kept ++ text v.user) ++ pending v.reads
  Filled-ahead w {v} f b = rw f.kept (
      b
      ∙ ap (◌++◌ (text w.kept)) (sym f.stream)
      ∙ sym (append_assoc (text w.kept) (text v.user) (pending v.reads)))
