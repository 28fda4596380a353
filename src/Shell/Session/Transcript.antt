-- ===== src/Shell/Session/Transcript.antt =====
-- A session of one shell of CS551P1/CS551P1/main.c against what its lines ask for.
use mathlib.Core.List.{append_assoc}
use cs551_assignments.Common.{
  All, List, Text, [], append-nil, arith, length, refl, some, suc, true, ◌++◌, ◌+◌, ◌∙◌, ◌∷◌, ◌≡◌,
}
use cs551_assignments.Shell.Session.{
  Host, Log, after_child, change, getcmd, gets, goes_to, main_loop, on_action, over, session, turn,
}
use cs551_assignments.Shell.Main.{
  on_line, Action, Child, cd, ends, fork_child, goes_on, hangs, log_off, runs, undefined,
  unfinished,
}
use cs551_assignments.Shell.Run.{Script}
use cs551_assignments.Shell.Parser.{Parse}
use cs551_assignments.Shell.Session.Lines.{IsLine, at, sess, session-turn}
use cs551_assignments.Shell.Profile.{terminated}

module _ {ℓ} {Dir : Type ℓ} (child_of : Text → Child) (h : Host Dir) where
  open h use {chdir, can_fork, run}

  -- What the lines ask for: scripts, each in a directory.
  unfoldable pub scripts_of : Child → Dir → Log Dir
  scripts_of (runs script) d = (d, script) ∷ []
  scripts_of c d = []

  abbrev pub directory_behind : Action → Dir → Dir
  directory_behind (cd dir) d = change child_of h d (chdir d dir)
  directory_behind a d = d

  abbrev pub scripts_in : Action → Dir → Log Dir
  scripts_in (fork_child buf) d = scripts_of (child_of buf) d
  scripts_in a d = []

  unfoldable pub transcript : Dir → List Text → Log Dir
  transcript d [] = []
  transcript d (l ∷ ls) = scripts_in (on_line l) d ++ transcript (directory_behind (on_line l) d) ls

  -- A line that changes the directory, or whose child runs a script or ends in convertalias.
  abbrev pub Stays : Child → Type 0
  Stays (runs script) = Unit {0}
  Stays ends = Unit {0}
  Stays c = ⊥

  abbrev pub StaysOn : Action → Type 0
  StaysOn (cd dir) = Unit {0}
  StaysOn log_off = ⊥
  StaysOn (fork_child buf) = Stays (child_of buf)

  abbrev pub IsRequest : Text → Type 0
  IsRequest l = IsLine l × StaysOn (on_line l)

  after_child-request :
      (buf : Text) (c : Child) (d : Dir) (tty : List Text) (log : Log Dir)
      → Stays c
      → ((d' : Dir) (script : Parse Script) (t : List Text) → run d' script t ≡ t)
      → after_child child_of h buf c (at d) [] tty log
        ≡ goes_to (sess (at d ∷ []) tty (log ++ scripts_of c d))
  unfolding scripts_of
  after_child-request buf (runs script) d tty log s quiet = rw (quiet d script tty) refl
  after_child-request buf ends d tty log s quiet = rw append-nil refl
  after_child-request buf goes_on d tty log s quiet = absurd s
  after_child-request buf undefined d tty log s quiet = absurd s
  after_child-request buf hangs d tty log s quiet = absurd s
  after_child-request buf unfinished d tty log s quiet = absurd s

  on_action-request :
      (a : Action) (d : Dir) (tty : List Text) (log : Log Dir)
      → StaysOn a
      → can_fork 1 ≡ true
      → ((d' : Dir) (script : Parse Script) (t : List Text) → run d' script t ≡ t)
      → on_action child_of h a (at d) [] tty log
        ≡ goes_to (sess (at (directory_behind a d) ∷ []) tty (log ++ scripts_in a d))
  unfolding on_action
  on_action-request (cd dir) d tty log s can quiet = rw append-nil refl
  on_action-request log_off d tty log s can quiet = absurd s
  on_action-request (fork_child buf) d tty log s can quiet =
      rw can (after_child-request buf (child_of buf) d tty log s quiet)

  session-requests :
      (d : Dir) (ls : List Text) (log : Log Dir)
      → All IsRequest ls
      → can_fork 1 ≡ true
      → ((d' : Dir) (script : Parse Script) (t : List Text) → run d' script t ≡ t)
      → session child_of h (length ls + 2) (sess (at d ∷ []) ls log)
        ≡ some (over [] (log ++ transcript d ls))
  unfolding transcript session turn getcmd gets terminated
  session-requests d [] log r can quiet = rw append-nil refl
  session-requests d (l ∷ ls) log ((i, stays), rs) can quiet =
      let d' = directory_behind (on_line l) d in
      let log' = log ++ scripts_in (on_line l) d in
      let fuel : suc (length ls) + 2 ≡ suc (length ls + 2) = omega arith in
      let first = on_action-request (on_line l) d ls log stays can quiet in
      let rest = session-requests d' ls log' rs can quiet in
      rw fuel (
        session-turn child_of h (length ls + 2) d [] l ls log (sess (at d' ∷ []) ls log') i first
        ∙ rest
        ∙ rw append_assoc refl)

  -- Where fork succeeds and the scripts leave the terminal alone, a shell that is given lines, each
  -- one read of the terminal, which change the directory, or whose child runs a script or ends in
  -- convertalias, and then the end of the file, runs what they ask for, in their order and in the
  -- directories that they lead to.
  pub main_loop-transcript :
      (d : Dir) (ls : List Text)
      → All IsRequest ls
      → can_fork 1 ≡ true
      → ((d' : Dir) (script : Parse Script) (t : List Text) → run d' script t ≡ t)
      → main_loop child_of h (length ls + 2) d ls ≡ some (over [] (transcript d ls))
  main_loop-transcript d ls r can quiet = session-requests d ls [] r can quiet
