-- ===== src/Update/Signalled.antt =====
-- When restartDaemon of cmd/update.go signals a process, and which.
use op_forward.Prelude.Int.{ℤ, pos, negsuc}
use op_forward.Go.Strings.{trim_space, split_n}
use op_forward.Go.Strconv.{atoi}
use op_forward.Update.{
  Updating, is_same, other_pid, first_line, pid_in, pid_of_output, find_daemon_pid, signal,
  restart_daemon,
}
use op_forward.Prelude.{
  zero, suc, ◌≡◌, refl, sym, ap, ◌∙◌, ◌≢◌, ◌↔◌, inl, inr, true, Option, none, some, List, [], ◌∷◌,
  ◌++◌, arith, ==_iff, Bool-cases, Text, codes,
}

-- The first line of what pgrep prints for "<path> serve", trimmed, is the number of a process that
-- is not this one, and it could be signalled.
abbrev pub IsSignalled : Updating → Text → Type 0
IsSignalled u path =
    (out : Text) × (line : Text) × (rest : List Text) × (pid : ℤ) × (u.pgrep
        (path ++ codes " serve")
      ≡ some out)
    × (trim_space out ≢ [])
    × (split_n (codes "\n") 2 (trim_space out) ≡ line ∷ rest)
    × (atoi (trim_space line) ≡ some pid)
    × (pid ≢ u.own_pid)
    × (pid ≢ pos 0)
    × (u.signalled pid ≡ true)

is_same_iff : (m n : ℤ) → (is_same m n ≡ true) ↔ (m ≡ n)
is_same_iff (pos m) (pos n) = ground (arith, ==_iff m n)
is_same_iff (negsuc m) (negsuc n) = ground (arith, ==_iff m n)
is_same_iff (pos m) (negsuc n) = ground arith
is_same_iff (negsuc m) (pos n) = ground arith

other_pid_inv :
    (own pid : ℤ) (read : Option ℤ)
    → other_pid own read ≡ pid
    → pid ≢ pos 0
    → (read ≡ some pid) × (pid ≢ own)
other_pid_inv own pid none e ne = absurd (ne (sym e))
other_pid_inv own pid (some n) e ne = elim (Bool-cases (is_same n own)) [
  | inl same ↦ absurd (ne (ground (arith, e, same)))
  | inr other ↦
      let at : n ≡ pid = ground (arith, e, other) in
      (ap (λ x. some x) at, λ own'. ground (arith, other, is_same_iff n own, at ∙ own'))
]

split_n_nonempty : (sep s : Text) → split_n sep 2 s ≢ []
unfolding split_n
split_n_nonempty sep s = ground arith

first_line_inv :
    (lines : List Text)
    → lines ≢ []
    → (line : Text) × (rest : List Text) × (lines ≡ line ∷ rest) × (first_line lines ≡ line)
first_line_inv [] h = absurd (h refl)
first_line_inv (line ∷ rest) h = (line, rest, refl, refl)

pid_in_inv :
    (own pid : ℤ) (s : Text)
    → pid_in own s ≡ pid
    → pid ≢ pos 0
    → (line : Text) × (rest : List Text) × (s ≢ [])
      × (split_n (codes "\n") 2 s ≡ line ∷ rest)
      × (atoi (trim_space line) ≡ some pid)
      × (pid ≢ own)
pid_in_inv own pid [] e ne = absurd (ne (sym e))
pid_in_inv own pid (c ∷ s) e ne =
    let (line, rest, lines, first) =
      first_line_inv (split_n (codes "\n") 2 (c ∷ s)) (split_n_nonempty (codes "\n") (c ∷ s)) in
    let (read, other) = other_pid_inv own pid _ e ne in
    (line, rest, (λ h. cc), lines, ap (λ t. atoi (trim_space t)) (sym first) ∙ read, other)

signal_inv :
    (u : Updating) (pid : ℤ) → signal u pid ≡ true → (pid ≢ pos 0) × (u.signalled pid ≡ true)
signal_inv u (pos zero) h = absurd (cc)
signal_inv u (pos (suc n)) h = (λ e. ground (arith, e), h)
signal_inv u (negsuc n) h = (λ e. ground (arith, e), h)

output_inv :
    (u : Updating) (path : Text) (out : Option Text) (pid : ℤ)
    → u.pgrep (path ++ codes " serve") ≡ out
    → pid_of_output u.own_pid out ≡ pid
    → pid ≢ pos 0
    → u.signalled pid ≡ true
    → IsSignalled u path
output_inv u path none pid printed e ne sent = absurd (ne (sym e))
output_inv u path (some out) pid printed e ne sent =
    let (line, rest, some_line, lines, read, other) =
      pid_in_inv u.own_pid pid (trim_space out) e ne in
    (out, line, rest, pid, printed, some_line, lines, read, other, ne, sent)

pid_in-read :
    (own pid : ℤ) (s line : Text) (rest : List Text)
    → s ≢ []
    → split_n (codes "\n") 2 s ≡ line ∷ rest
    → atoi (trim_space line) ≡ some pid
    → pid ≢ own
    → pid_in own s ≡ pid
pid_in-read own pid [] line rest h lines read other = absurd (h refl)
pid_in-read own pid (c ∷ s) line rest h lines read other =
    ap (λ t. other_pid own (atoi (trim_space (first_line t)))) lines
    ∙ ap (other_pid own) read
    ∙ ground (arith, other, is_same_iff pid own)

signal-sent : (u : Updating) (pid : ℤ) → pid ≢ pos 0 → u.signalled pid ≡ true → signal u pid ≡ true
signal-sent u (pos zero) ne sent = absurd (ne refl)
signal-sent u (pos (suc n)) ne sent = sent
signal-sent u (negsuc n) ne sent = sent

pub restart_daemon_iff :
    (u : Updating) (path : Text) → (restart_daemon u path ≡ true) ↔ IsSignalled u path
unfolding restart_daemon find_daemon_pid
restart_daemon_iff u path = (
  λ h.
      let (ne, sent) = signal_inv u (find_daemon_pid u path) h in
      output_inv u path (u.pgrep (path ++ codes " serve")) (find_daemon_pid u path) refl refl ne
        sent,
  λ (out, line, rest, pid, printed, some_line, lines, read, other, ne, sent).
      ap (λ x. signal u (pid_of_output u.own_pid x)) printed
      ∙ ap (signal u)
          (pid_in-read u.own_pid pid (trim_space out) line rest some_line lines read other)
      ∙ signal-sent u pid ne sent,
)
