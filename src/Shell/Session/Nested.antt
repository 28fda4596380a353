-- ===== src/Shell/Session/Nested.antt =====
-- What a line with an open parenthesis does to the shell of CS551P1/CS551P1/main.c: its child reads
-- the lines that follow, up to the next exit.
use cs551_assignments.Common.{
  All, List, Option, Text, [], arith, false, length, ok, refl, some, suc, true, ℕ, ◌++◌, ◌+◌, ◌∙◌,
  ◌∷◌, ◌≡◌,
}
use cs551_assignments.Shell.Session.{Host, Log, Process, change, on_action, session}
use cs551_assignments.Shell.Parens.{answer, depth, validateparenthes-answer}
use cs551_assignments.Shell.Main.{on_line, Child, cd, child, fork_child, goes_on, log_off}
use cs551_assignments.Shell.Session.Lines.{IsLine, at, length-line, sess, session-turn}

-- A line that changes the directory.
abbrev pub IsCd : Text → Type 0
IsCd l = IsLine l × ((dir : Text) × (on_line l ≡ cd dir))

module _ {ℓ} {Dir : Type ℓ} (child_of : Text → Child) (h : Host Dir) where
  open h use {can_fork}

  session-cds :
      (n : ℕ) (d : Dir) (ps : List (Process Dir)) (cds tty : List Text) (log : Log Dir)
      → All IsCd cds
      → (d' : Dir) × (session child_of h (length cds + n) (sess (at d ∷ ps) (cds ++ tty) log)
          ≡ session child_of h n (sess (at d' ∷ ps) tty log))
  unfolding on_action
  session-cds n d ps [] tty log c = let fuel : 0 + n ≡ n = omega arith in (d, rw fuel refl)
  session-cds n d ps (l ∷ cds) tty log ((i, (dir, e)), c) =
      let d' = change child_of h d (h.chdir d dir) in
      let s = sess (at d' ∷ ps) (cds ++ tty) log in
      let fuel : suc (length cds) + n ≡ suc (length cds + n) = omega arith in
      let (d'', rest) = session-cds n d' ps cds tty log c in
      (
        d'',
        rw fuel (
            session-turn child_of h (length cds + n) d ps l (cds ++ tty) log s i (rw e refl)
            ∙ rest),
      )

  -- The shell is as it was when the lines of a second shell are over.
  pub session-second_shell :
      (n : ℕ) (d : Dir) (ps : List (Process Dir)) (bad out : Text) (cds tty : List Text)
      (log : Log Dir)
      → IsLine bad
      → on_line bad ≡ fork_child bad
      → child_of bad ≡ goes_on
      → can_fork (suc (length ps)) ≡ true
      → All IsCd cds
      → IsLine out
      → on_line out ≡ log_off
      → session child_of h
          (suc (length cds + suc n))
          (sess (at d ∷ ps) (bad ∷ cds ++ out ∷ tty) log)
        ≡ session child_of h n (sess (at d ∷ ps) tty log)
  unfolding on_action
  session-second_shell n d ps bad out cds tty log b forks opens can c o off =
      let (d', moved) = session-cds (suc n) d (at d ∷ ps) cds (out ∷ tty) log c in
      session-turn child_of h (length cds + suc n) d ps bad (cds ++ out ∷ tty) log
        (sess (at d ∷ at d ∷ ps) (cds ++ out ∷ tty) log) b (rw (forks, can, opens) refl)
      ∙ moved
      ∙ session-turn child_of h n d' (at d ∷ ps) out tty log (sess (at d ∷ ps) tty log) o
          (rw off refl)

child-open :
    {k : ℕ} (getenv : Text → Option Text) {l : Text}
    → IsLine l
    → depth l 0 ≡ some (suc k)
    → child getenv l ≡ goes_on
unfolding child
child-open {k} getenv i e =
    let invalid : answer (some (suc k)) ≡ ok false = ground arith in
    rw (validateparenthes-answer _ (length-line i), e, invalid) refl

-- Where fork succeeds, let a line that is no cd and no exit line leave parentheses open, and let
-- lines that change the directory follow, and one that logs off, each one read of the terminal.
-- The shell is then as it was before these lines.
pub session-open_line {ℓ} :
    {Dir : Type ℓ} (getenv : Text → Option Text) (h : Host Dir) (n k : ℕ) (d : Dir)
    (ps : List (Process Dir)) (bad out : Text) (cds tty : List Text) (log : Log Dir)
    → IsLine bad
    → on_line bad ≡ fork_child bad
    → depth bad 0 ≡ some (suc k)
    → h.can_fork (suc (length ps)) ≡ true
    → All IsCd cds
    → IsLine out
    → on_line out ≡ log_off
    → session
        (child getenv)
        h
        (suc (length cds + suc n))
        (sess (at d ∷ ps) (bad ∷ cds ++ out ∷ tty) log)
      ≡ session (child getenv) h n (sess (at d ∷ ps) tty log)
session-open_line getenv h n k d ps bad out cds tty log b forks opens =
    session-second_shell (child getenv) h n d ps bad out cds tty log b forks
      (child-open getenv b opens)
