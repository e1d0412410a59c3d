-- ===== src/Tool/Cmdline/Safe.antt =====
-- The table over any line.
use win_pdip.Prelude.{
  ◌≤◌, ◌≡◌, sym, subst, Bool, true, false, [], ◌∷◌, ◌++◌, Bytes, length, ◌==◌, if◌then◌else◌, arith,
  length-append,
}
use win_pdip.Tool.Cmdline.{
  Table, Rc, rc_0, rc_error, Split, done, aborted, new_argv, isspace, is_letter, is_name,
  is_comment, Place, next_param, word, state_1, state_2, behind_string, scan, command,
  split_cmdline,
}
use win_pdip.Tool.Cmdline.Words.{IsTable, new_argv-Added}

-- The call ends with a table that is well formed and has at least the words of before.
abbrev pub Ends : Table → Split → Type 0
Ends t (done rc u) = IsTable u × (length t.argv ≤ length u.argv)
Ends t aborted = ⊥

Ends-trans : (t u : Table) (r : Split) → length t.argv ≤ length u.argv → Ends u r → Ends t r
Ends-trans t u (done rc v) h e = (e.0, omega arith)
Ends-trans t u aborted h e = e

new_argv-Ends :
    (w : Bytes) (t : Table) (k : Table → Split)
    → IsTable t
    → ((u : Table) → IsTable u → Ends u (k u))
    → Ends t (new_argv w t k)
new_argv-Ends w t k v f =
    let (u, e, r) = new_argv-Added w t k v in
    subst (Ends t) (sym e) (Ends-trans t u (k u) (longer u r.words) (f u r.valid))
  where
    longer : (u : Table) → u.argv ≡ t.argv ++ (w ∷ []) → length t.argv ≤ length u.argv
    longer u e = rw e (omega (arith, length-append t.argv (w ∷ [])))

Ends-if : (t : Table) (b : Bool) (r s : Split) → Ends t r → Ends t s → Ends t (if b then r else s)
Ends-if t true r s h k = h
Ends-if t false r s h k = k

same-Ends : (rc : Rc) (t : Table) → IsTable t → Ends t (done rc t)
same-Ends rc t v = (v, omega arith)

last-Ends : (rc : Rc) (w : Bytes) (t : Table) → IsTable t → Ends t (new_argv w t (λ u. done rc u))
last-Ends rc w t v = new_argv-Ends w t (λ u. done rc u) v (λ u x. same-Ends rc u x)

scan-Ends : (place : Place) (p : Bytes) (t : Table) → IsTable t → Ends t (scan place p t)
unfolding scan
scan-Ends next_param [] t v = same-Ends rc_0 t v
scan-Ends next_param (c ∷ cs) t v = Ends-if t (isspace c) _ _ (scan-Ends next_param cs t v) (
    Ends-if t (is_comment c) _ _ (same-Ends rc_0 t v) (
      Ends-if t (c == b'"') _ _ (scan-Ends (state_1 (c ∷ [])) cs t v)
        (scan-Ends (word (c ∷ [])) cs t v)))
scan-Ends (word w) [] t v = last-Ends rc_0 w t v
scan-Ends (word w) (c ∷ cs) t v =
    Ends-if t (isspace c) _ _
      (new_argv-Ends w t (λ u. scan next_param cs u) v (λ u x. scan-Ends next_param cs u x))
      (Ends-if t (is_comment c) _ _ (last-Ends rc_0 (w ++ (c ∷ cs)) t v)
        (scan-Ends (word (w ++ (c ∷ []))) cs t v))
scan-Ends (state_1 w) [] t v = last-Ends rc_error w t v
scan-Ends (state_1 w) (c ∷ cs) t v =
    Ends-if t (c == b'"') _ _ (scan-Ends (behind_string (w ++ (c ∷ []))) cs t v) (
      Ends-if t (c == b'\\') _ _ (scan-Ends (state_2 (w ++ (c ∷ []))) cs t v)
        (scan-Ends (state_1 (w ++ (c ∷ []))) cs t v))
scan-Ends (state_2 w) [] t v = last-Ends rc_error w t v
scan-Ends (state_2 w) (c ∷ cs) t v = scan-Ends (state_1 (w ++ (c ∷ []))) cs t v
scan-Ends (behind_string w) [] t v = last-Ends rc_0 w t v
scan-Ends (behind_string w) (c ∷ cs) t v =
    Ends-if t (is_comment c) _ _ (last-Ends rc_0 (w ++ (c ∷ cs)) t v) (
      Ends-if t (isspace c) _ _
        (new_argv-Ends w t (λ u. scan next_param cs u) v (λ u x. scan-Ends next_param cs u x))
        (last-Ends rc_error (w ++ (c ∷ cs)) t v))

command-Ends : (w p : Bytes) (t : Table) → IsTable t → Ends t (command w p t)
unfolding command
command-Ends w [] t v = last-Ends rc_0 w t v
command-Ends w (c ∷ cs) t v = Ends-if t (is_name c) _ _ (command-Ends (w ++ (c ∷ [])) cs t v) (
    Ends-if t (is_comment c) _ _ (last-Ends rc_0 (w ++ (c ∷ cs)) t v) (
      Ends-if t (isspace c) _ _
        (new_argv-Ends w t (λ u. scan next_param cs u) v (λ u x. scan-Ends next_param cs u x))
        (last-Ends rc_error (w ++ (c ∷ cs)) t v)))

-- pdip_split_cmdline on any line, with a well-formed table: no assertion fails, and the table
-- stays well formed and has no fewer words.
pub split_cmdline-Ends : (p : Bytes) (t : Table) → IsTable t → Ends t (split_cmdline p t)
unfolding split_cmdline
split_cmdline-Ends [] t v = same-Ends rc_0 t v
split_cmdline-Ends (c ∷ cs) t v = Ends-if t (isspace c) _ _ (split_cmdline-Ends cs t v) (
    Ends-if t (is_comment c) _ _ (same-Ends rc_0 t v)
      (Ends-if t (is_letter c) _ _ (command-Ends (c ∷ []) cs t v) (same-Ends rc_error t v)))
