-- ===== src/Shell/Run/Wiring.antt =====
-- What runcmd of CS551P1/CS551P1/main.c promises: which programs a command starts, and what their
-- standard input and output are.
use cs551_assignments.Common.{List, Text, [], inr, refl, some, ℕ, ◌++◌, ◌∷◌, ◌≡◌, ◌≤◌, ◌⊎◌}
use cs551_assignments.Shell.Calls.{Kernel}
use cs551_assignments.Shell.Parser.{
  Cmd, backcmd, execcmd, listcmd, o_rdonly, o_wronly_creat_trunc, pipecmd, redir,
}
use cs551_assignments.Shell.Run.{Launch}

module _ (K : Kernel) where
  open K use {Object, Table, refers, IsFile, AreEnds}

  -- A program with its standard input and output.
  pub record Program : Type 0 where
    pub argv : List Text
    pub input : Object
    pub output : Object

  -- The programs of a command that has input `i` and output `o`, from left to right; a part of it
  -- may be missing, since a call may fail. A pipe joins the output of its left side to the input of
  -- its right side, and a redirection puts a file in the place of one of the two.
  abbrev pub Plan : Cmd → Object → Object → List Program → Type 0
  Plan (execcmd []) i o ps = ps ≡ []
  Plan (execcmd (w ∷ ws)) i o ps =
      (ps ≡ record { argv = w ∷ ws; input = i; output = o } ∷ []) ⊎ (ps ≡ [])
  Plan (redir c file t mode fd) i o ps =
      ((x : Object) × (((t ≡ b'<') × IsFile x file o_rdonly × Plan c x o ps)
          ⊎ ((t ≡ b'>') × IsFile x file o_wronly_creat_trunc × Plan c i x ps)))
      ⊎ (ps ≡ [])
  Plan (pipecmd left right) i o ps =
      ((r w : Object) × AreEnds r w
        × ((xs ys : List Program) × (ps ≡ xs ++ ys) × Plan left i w xs × Plan right r o ys))
      ⊎ (ps ≡ [])
  Plan (listcmd left right) i o ps =
      (xs ys : List Program) × (ps ≡ xs ++ ys) × Plan left i o xs × Plan right i o ys
  Plan (backcmd c) i o ps = Plan c i o ps

  pub Plan-nil : (c : Cmd) (i o : Object) → Plan c i o []
  Plan-nil (execcmd []) i o = refl
  Plan-nil (execcmd (w ∷ ws)) i o = inr refl
  Plan-nil (redir c file t mode fd) i o = inr refl
  Plan-nil (pipecmd left right) i o = inr refl
  Plan-nil (listcmd left right) i o = ([], [], refl, Plan-nil left i o, Plan-nil right i o)
  Plan-nil (backcmd c) i o = Plan-nil c i o

  -- Descriptors 0 and 1 of a table, and that the others are those of another table.
  pub record IsWired (base : Table) (i o : Object) (t : Table) : Type 0 where
    pub input : refers t 0 ≡ some i
    pub output : refers t 1 ≡ some o
    pub others : (n : ℕ) → 2 ≤ n → refers t n ≡ refers base n

  -- The programs that run are the planned ones, wired as planned, and no descriptor is open in them
  -- that was not open in the shell.
  abbrev pub Match : Table → List (Launch K) → List Program → Type 0
  Match base [] [] = Unit {0}
  Match base [] (p ∷ ps) = ⊥
  Match base (l ∷ ls) [] = ⊥
  Match base (l ∷ ls) (p ∷ ps) =
      (l.argv ≡ p.argv) × IsWired base p.input p.output l.table × Match base ls ps

  pub Match-append :
      (base : Table) (ls ls' : List (Launch K)) (ps ps' : List Program)
      → Match base ls ps
      → Match base ls' ps'
      → Match base (ls ++ ls') (ps ++ ps')
  Match-append base [] ls' [] ps' h h' = h'
  Match-append base [] ls' (p ∷ ps) ps' h h' = absurd h
  Match-append base (l ∷ ls) ls' [] ps' h h' = absurd h
  Match-append base (l ∷ ls) ls' (p ∷ ps) ps' h h' =
      (h.0, h.1, Match-append base ls ls' ps ps' h.2 h')
