-- ===== src/Shell/Run/Started.antt =====
-- runcmd of CS551P1/CS551P1/main.c starts every program of a command, where no call fails.
use cs551_assignments.Common.{List, Text, [], append-nil, inl, inr, refl, ℕ, ◌++◌, ◌∷◌, ◌≡◌}
use cs551_assignments.Shell.Calls.{Kernel}
use cs551_assignments.Shell.Parser.{
  Cmd, Mode, backcmd, execcmd, listcmd, parsecmd, parsed, pipecmd, redir,
}
use cs551_assignments.Shell.Parser.Shape.{parsecmd-IsWellFormed}
use cs551_assignments.Shell.Parser.WellFormed.{IsWellFormed}
use cs551_assignments.Shell.Run.{Launch, Runs, runcmd}

-- The programs of a command, from left to right.
abbrev pub programs : Cmd → List (List Text)
programs (execcmd []) = []
programs (execcmd (w ∷ ws)) = (w ∷ ws) ∷ []
programs (redir c file t mode fd) = programs c
programs (pipecmd left right) = programs left ++ programs right
programs (listcmd left right) = programs left ++ programs right
programs (backcmd c) = programs c

module _ (K : Kernel) where
  open K use {Table, Close, Dup, Open, Pipe}

  -- Each call can succeed.
  pub record CanServe : Type 0 where
    pub closes : (n : ℕ) (t : Table) → (t' : Table) × Close n t t'
    pub dups : (n : ℕ) (t : Table) → (t' : Table) × Dup n t t'
    pub opens : (file : Text) (mode : Mode) (t : Table) → (t' : Table) × Open file mode t t'
    pub pipes : (t : Table) → (p0 p1 : ℕ) × (t' : Table) × Pipe p0 p1 t t'

  abbrev pub argvs : List (Launch K) → List (List Text)
  argvs [] = []
  argvs (l ∷ ls) = l.argv ∷ argvs ls

  argvs-append : (xs ys : List (Launch K)) → argvs (xs ++ ys) ≡ argvs xs ++ argvs ys
  argvs-append [] ys = refl
  argvs-append (x ∷ xs) ys = rw (argvs-append xs ys) refl

  -- A run of the command that starts all its programs.
  abbrev pub Starts : Cmd → Table → Type 0
  Starts c t = (ls : List (Launch K)) × Runs K (runcmd c) t ls × (argvs ls ≡ programs c)

  module _ (can : CanServe) where
    runcmd-Starts : (c : Cmd) (t : Table) → IsWellFormed c → Starts c t
    unfolding runcmd
    runcmd-Starts (execcmd []) t h = ([], refl, refl)
    runcmd-Starts (execcmd (w ∷ ws)) t h =
        (record { argv = w ∷ ws; table = t } ∷ [], inl refl, refl)
    runcmd-Starts (redir c file s mode fd) t (h, r, p) =
        let (t1, cl) = can.closes fd t in
        let (t2, op) = can.opens file mode t1 in
        let (ls, run, e) = runcmd-Starts c t2 h in
        elim r.sign [
          | inl lt ↦ (ls, rw lt (t1, cl, inl (t2, op, run)), e)
          | inr gt ↦ (ls, rw gt (t1, cl, inl (t2, op, run)), e)
        ]
    runcmd-Starts (pipecmd l r) t (hl, hr) =
        let (p0, p1, t1, p) = can.pipes t in
        let (a2, a) = can.closes 1 t1 in
        let (a3, a') = can.dups p1 a2 in
        let (a4, a0) = can.closes p0 a3 in
        let (a5, a1) = can.closes p1 a4 in
        let (xs, left, e) = runcmd-Starts l a5 hl in
        let (b2, b) = can.closes 0 t1 in
        let (b3, b') = can.dups p0 b2 in
        let (b4, b0) = can.closes p0 b3 in
        let (b5, b1) = can.closes p1 b4 in
        let (ys, right, e') = runcmd-Starts r b5 hr in
        let (c2, c0) = can.closes p0 t1 in
        let (c3, c1) = can.closes p1 c2 in
        (
          xs ++ (ys ++ []),
          inl (
            p0,
            p1,
            t1,
            p,
            (
              xs,
              ys ++ [],
              refl,
              inr (a2, a, (a3, a', (a4, a0, (a5, a1, left)))),
              (
                ys,
                [],
                refl,
                inr (b2, b, (b3, b', (b4, b0, (b5, b1, right)))),
                (c2, c0, (c3, c1, refl)),
              ),
            ),
          ),
          rw (append-nil, argvs-append, e, e') refl,
        )
    runcmd-Starts (listcmd l r) t (hl, hr) =
        let (xs, left, e) = runcmd-Starts l t hl in
        let (ys, right, e') = runcmd-Starts r t hr in
        (xs ++ ys, (xs, ys, refl, inr left, right), rw (argvs-append, e, e') refl)
    runcmd-Starts (backcmd c) t h =
        let (ls, run, e) = runcmd-Starts c t h in
        (ls ++ [], (ls, [], refl, inr run, refl), rw append-nil e)

    -- Where each call can succeed, a process that runs the command that parsecmd reads on a line
    -- has a run in which all the programs of the command are started, from left to right.
    pub runcmd_starts_all :
        (s rest : Text) (c : Cmd) (t : Table)
        → parsecmd s ≡ parsed c rest
        → (ls : List (Launch K)) × Runs K (runcmd c) t ls × (argvs ls ≡ programs c)
    runcmd_starts_all s rest c t e = runcmd-Starts c t (parsecmd-IsWellFormed s rest c e).0
