-- ===== src/Shell/Session/Ends.antt =====
-- The loop of main in CS551P1/CS551P1/main.c, with every shell that it becomes, comes to an end.
use cs551_assignments.Common.{
  Bool-cases, Run, List, Option, Text, [], ap, arith, inl, inr, length, refl, some, subst, suc,
  zero, ℕ, ◌*◌, ◌++◌, ◌+◌, ◌<◌, ◌∷◌, ◌≡◌, ◌≢◌, ◌≤◌,
}
use cs551_assignments.Shell.Session.{
  Ending, Got, Host, Log, Process, Session, Step, after_child, getcmd, goes_to, main_loop,
  next_turn, on_action, on_got, over, session, stops, turn, turns, undefined_behaviour, unsettled,
  waits,
}
use cs551_assignments.Shell.Alias.Blank.{HasBlank, words}
use cs551_assignments.Shell.Main.Lines.{HasEnded, child_ends, rewritten}
use cs551_assignments.Shell.Session.Reads.{
  Reads, getcmd-Reads, left_weight, reads_weight, reads_weight-append, weight,
}
use cs551_assignments.Shell.Parser.{Parse}
use cs551_assignments.Shell.Main.{
  on_line, Action, Child, cd, child, ends, fork_child, goes_on, hangs, log_off, runs, undefined,
  unfinished,
}
use cs551_assignments.Shell.Run.{Script}

-- As many turns are enough.
pub turns_for : List Text → ℕ
turns_for tty = reads_weight tty + 2

module _ {ℓ} {Dir : Type ℓ} (child_of : Text → Child) (h : Host Dir) where
  open h use {chdir, can_fork, run}

  shells_weight : List (Process Dir) → ℕ
  shells_weight [] = 0
  shells_weight (p ∷ ps) = weight p.stdin.pending + shells_weight ps

  session_weight : Session Dir → ℕ
  session_weight s = shells_weight s.shells + reads_weight s.tty

  -- What a turn leads to is lighter, or is the fault of the child of a line.
  Told : Ending Dir → Type 0
  Told (over tty log) = Unit {0}
  Told (undefined_behaviour buf) = child_of buf ≡ undefined
  Told (waits buf) = child_of buf ≡ hangs

  abbrev Under : ℕ → Step Dir → Type 0
  Under n (goes_to s) = session_weight s < n
  Under n (stops e) = Told e
  Under n unsettled = ⊥

  Under-weaken : {m n : ℕ} (o : Step Dir) → Under m o → m ≤ n → Under n o
  Under-weaken (goes_to s) u l = omega arith
  Under-weaken (stops e) u l = u
  Under-weaken unsettled u l = u

  -- A script reads what it wants of the terminal, from its front.
  abbrev pub Leaves : Type ℓ
  Leaves =
      (d : Dir) (script : Parse Script) (tty : List Text)
      → (used : List Text) × (tty ≡ used ++ run d script tty)

  module _ (leaves : Leaves) (settles : (buf : Text) → child_of buf ≢ unfinished) where
    run-le :
        (d : Dir) (script : Parse Script) (tty : List Text)
        → reads_weight (run d script tty) ≤ reads_weight tty
    run-le d script tty =
        let (used, e) = leaves d script tty in
        omega (arith, reads_weight-append used (run d script tty), ap reads_weight e)

    after_child-Under :
        (n : ℕ) (buf : Text) (c : Child) (p : Process Dir) (ps : List (Process Dir))
        (tty : List Text) (log : Log Dir)
        → child_of buf ≡ c
        → 2 * weight p.stdin.pending + shells_weight ps + reads_weight tty < n
        → Under n (after_child child_of h buf c p ps tty log)
    unfolding session_weight shells_weight Told
    after_child-Under n buf (runs script) p ps tty log e l = omega (arith, run-le p.cwd script tty)
    after_child-Under n buf ends p ps tty log e l = omega arith
    after_child-Under n buf goes_on p ps tty log e l = omega arith
    after_child-Under n buf undefined p ps tty log e l = e
    after_child-Under n buf hangs p ps tty log e l = e
    after_child-Under n buf unfinished p ps tty log e l = settles buf e

    on_action-Under :
        (n : ℕ) (a : Action) (p : Process Dir) (ps : List (Process Dir)) (tty : List Text)
        (log : Log Dir)
        → 2 * weight p.stdin.pending + shells_weight ps + reads_weight tty < n
        → Under n (on_action child_of h a p ps tty log)
    unfolding session_weight shells_weight on_action
    on_action-Under n (cd d) p ps tty log l = omega arith
    on_action-Under n log_off p ps tty log l = omega arith
    on_action-Under n (fork_child buf) p ps tty log l =
        elim (Bool-cases (can_fork (length (p ∷ ps)))) [
          | inl e ↦ rw e (after_child-Under n buf (child_of buf) p ps tty log refl l)
          | inr e ↦ rw e (omega arith)
        ]

    on_got-Under :
        (p : Process Dir) (ps : List (Process Dir)) (tty : List Text) (log : Log Dir) (g : Got)
        → Reads g (weight p.stdin.pending) tty
        → Under
            (weight p.stdin.pending + shells_weight ps + reads_weight tty)
            (on_got child_of h p ps log g)
    unfolding session_weight left_weight
    on_got-Under p ps tty log g r = go g.line refl
      where
        bound : ℕ
        bound = weight p.stdin.pending + shells_weight ps + reads_weight tty

        go : (l : Text) → g.line ≡ l → Under bound (on_got child_of h p ps log g)
        go [] e = elim r [ inl q ↦ rw e (omega (arith, q.1)) | inr q ↦ rw e (omega (arith, q)) ]
        go (c ∷ buf) e = elim r [
          | inl q ↦ absurd (ground (arith, q.0))
          | inr q ↦ rw e (
              on_action-Under bound (on_line (c ∷ buf)) (record p { stdin = g.stream }) ps g.tty log
                (omega (arith, q)))
        ]

    turn-Under :
        (p : Process Dir) (ps : List (Process Dir)) (tty : List Text) (log : Log Dir)
        → Under
            (weight p.stdin.pending + shells_weight ps + reads_weight tty)
            (turn child_of h p ps tty log)
    unfolding turn
    turn-Under p ps tty log =
        on_got-Under p ps tty log (getcmd p.stdin tty) (getcmd-Reads p.stdin tty)

    abbrev Ends : Option (Ending Dir) → Type ℓ
    Ends o = (r : Ending Dir) × (o ≡ some r) × Told r

    next_turn-Ends :
        (n : ℕ) (o : Step Dir)
        → ((s : Session Dir) → session_weight s < n → Ends (session child_of h n s))
        → Under n o
        → Ends (next_turn child_of h (session child_of h n) o)
    next_turn-Ends n (goes_to s) next u = next s u
    next_turn-Ends n (stops e) next u = (e, refl, u)
    next_turn-Ends n unsettled next u = absurd u

    turns-Ends :
        (n : ℕ) (ps : List (Process Dir)) (tty : List Text) (log : Log Dir)
        → ((s : Session Dir) → session_weight s < n → Ends (session child_of h n s))
        → shells_weight ps + reads_weight tty ≤ n
        → Ends (turns child_of h (session child_of h n) ps tty log)
    unfolding shells_weight Told
    turns-Ends n [] tty log next l = (over tty log, refl, tt)
    turns-Ends n (p ∷ ps) tty log next l =
        next_turn-Ends n (turn child_of h p ps tty log) next
          (Under-weaken (turn child_of h p ps tty log) (turn-Under p ps tty log) l)

    -- Whatever the terminal gives, and whatever the scripts read of it, so many turns are enough.
    session_enough :
        (n : ℕ) (s : Session Dir) → session_weight s < n → Ends (session child_of h n s)
    unfolding session session_weight
    session_enough zero s l = absurd (omega arith)
    session_enough (suc n) s l = turns-Ends n s.shells s.tty s.log (session_enough n) (omega arith)

    main_loop-Ends :
        (cwd : Dir) (tty : List Text) → Ends (main_loop child_of h (turns_for tty) cwd tty)
    unfolding turns_for session_weight shells_weight weight
    main_loop-Ends cwd tty = session_enough (turns_for tty) _ (omega arith)

-- How a session can come to an end: all its shells end, or the child of a line does what C leaves
-- undefined, or the shells wait for that of a line which has a word of white space.
abbrev pub IsEnd {ℓ} : {Dir : Type ℓ} → (Text → Child) → Ending Dir → Type 0
IsEnd child_of (over tty log) = Unit {0}
IsEnd child_of (undefined_behaviour buf) = child_of buf ≡ undefined
IsEnd child_of (waits buf) = HasBlank (words buf)

-- The same of a child that has enough fuel.
pub loop_ends {ℓ} :
    {Dir : Type ℓ} (child_of : Text → Child) (h : Host Dir)
    → (rewrite : Text → Option (Run Text)) (getenv : Text → Option Text)
    → ((buf : Text) → HasEnded rewrite getenv buf (child_of buf))
    → Leaves child_of h
    → (cwd : Dir) (tty : List Text)
    → (r : Ending Dir) × (main_loop child_of h (turns_for tty) cwd tty ≡ some r) × IsEnd child_of r
unfolding Told
loop_ends child_of h rewrite getenv settled leaves cwd tty =
    let (r, e, told) = main_loop-Ends child_of h leaves settles cwd tty in (r, e, known r told)
  where
    settles : (buf : Text) → child_of buf ≢ unfinished
    settles buf e = subst (HasEnded rewrite getenv buf) e (settled buf)

    known : (r : Ending _) → Told child_of h r → IsEnd child_of r
    known (over tty log) t = tt
    known (undefined_behaviour buf) t = t
    known (waits buf) t = subst (HasEnded rewrite getenv buf) t (settled buf)

-- Where every script ends and reads the terminal from its front, the loop of main comes, on every
-- input from the terminal, to one of these ends: all the shells end, those too that its children
-- become; or the child of a line does what C leaves undefined; or the shells wait for ever for the
-- child of a line that has a word, between spaces and dollar signs, which is white space
-- throughout.
pub main_loop_ends {ℓ} :
    {Dir : Type ℓ} (getenv : Text → Option Text) (h : Host Dir)
    → Leaves (child getenv) h
    → (cwd : Dir) (tty : List Text)
    → (r : Ending Dir) × (main_loop (child getenv) h (turns_for tty) cwd tty ≡ some r)
      × IsEnd (child getenv) r
main_loop_ends getenv h leaves cwd tty =
    loop_ends (child getenv) h rewritten getenv (child_ends getenv) leaves cwd tty
