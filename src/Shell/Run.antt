-- ===== src/Shell/Run.antt =====
-- runcmd of CS551P1/CS551P1/main.c: the system calls that it makes, in their order, and what a
-- process that makes them may do. The calls themselves are a parameter.
pub mod Wiring
pub mod Descriptors
pub mod Refine
pub mod Started
pub mod Lists
mod Tests
use cs551_assignments.Common.{List, Text, [], if◌then◌else◌, ℕ, ◌++◌, ◌==◌, ◌||◌, ◌∷◌, ◌≡◌, ◌⊎◌}
use cs551_assignments.Shell.Parser.{
  Parse, bind, parsecmd, parsed, Cmd, Mode, backcmd, execcmd, listcmd, pipecmd, redir,
}
use cs551_assignments.Shell.Calls.{Kernel}

-- What a process does until it ends, or becomes another program. A call that can fail is followed
-- by both ways to go on; fork by what the child and what the parent does.
pub data Script : Type 0 where
  exit : (status : ℕ) → Script
  execvp : (argv : List Text) (failed : Script) → Script
  close dup : (fd : ℕ) (next : Script) → Script
  open_file : (file : Text) (mode : Mode) (opened failed : Script) → Script
  pipe : (made : ℕ → ℕ → Script) (failed : Script) → Script
  fork : (child parent : Script) → Script
  wait : (next : Script) → Script

-- `close(rcmd->fd); if(open(rcmd->file, rcmd->mode)<0) { ... exit(0); } runcmd(rcmd->cmd);`
abbrev pub redirect : ℕ → Text → Mode → Script → Script
redirect fd file mode next = close fd (open_file file mode next (exit 0))

-- `close(end); dup(p[end]); close(p[0]); close(p[1]); runcmd(...);`
abbrev pub plumb : (fd p_end p0 p1 : ℕ) → Script → Script
plumb fd p_end p0 p1 next = close fd (dup p_end (close p0 (close p1 next)))

-- runcmd. The parent of a list waits for its left side only; exit(-1) has the status 255.
unfoldable pub runcmd : Cmd → Script
runcmd (execcmd []) = exit 0
runcmd (execcmd (w ∷ ws)) = execvp (w ∷ ws) (exit 0)
runcmd (redir c file t mode fd) =
    if (t == b'>') || (t == b'<') then redirect fd file mode (runcmd c) else exit 255
runcmd (listcmd left right) = fork (runcmd left) (wait (runcmd right))
runcmd (pipecmd left right) =
    pipe
      (λ p0 p1.
        fork (plumb 1 p1 p0 p1 (runcmd left))
          (fork (plumb 0 p0 p0 p1 (runcmd right)) (close p0 (close p1 (wait (wait (exit 0)))))))
      (exit 0)
runcmd (backcmd c) = fork (runcmd c) (exit 0)

-- `runcmd(parsecmd(buf));` in main
unfoldable pub run_line : Text → Parse Script
run_line s = bind (parsecmd s) (λ c rest. parsed (runcmd c) rest)

module _ (K : Kernel) where
  open K use {Table, Close, Dup, Open, Pipe}

  -- A program that has been started, with the descriptors it has.
  pub record Launch : Type 0 where
    pub argv : List Text
    pub table : Table

  -- The programs that a process and its children start, children first. execvp, open, pipe and
  -- fork may fail; when fork1 fails, the parent goes on as after a fork.
  abbrev pub Runs : Script → Table → List Launch → Type 0
  Runs (exit status) t ls = ls ≡ []
  Runs (execvp argv failed) t ls = (ls ≡ record { argv = argv; table = t } ∷ []) ⊎ Runs failed t ls
  Runs (close fd next) t ls = (t' : Table) × Close fd t t' × Runs next t' ls
  Runs (dup fd next) t ls = (t' : Table) × Dup fd t t' × Runs next t' ls
  Runs (open_file file mode opened failed) t ls =
      ((t' : Table) × Open file mode t t' × Runs opened t' ls) ⊎ Runs failed t ls
  Runs (pipe made failed) t ls =
      ((p0 p1 : ℕ) × (t' : Table) × Pipe p0 p1 t t' × Runs (made p0 p1) t' ls) ⊎ Runs failed t ls
  Runs (fork child parent) t ls =
      (xs ys : List Launch) × (ls ≡ xs ++ ys) × ((xs ≡ []) ⊎ Runs child t xs) × Runs parent t ys
  Runs (wait next) t ls = Runs next t ls
