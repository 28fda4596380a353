-- ===== src/Older/Run.antt =====
-- runcmd of CS551P1/main.c.
use cs551_assignments.Common.{Text, [], if◌then◌else◌, ◌==◌, ◌||◌, ◌∷◌}
use cs551_assignments.Shell.Parser.{Parse, bind, parsed}
use cs551_assignments.Shell.Run.{Script, close, execvp, exit, fork, pipe, plumb, redirect, wait}
use cs551_assignments.Older.Parser.{parsecmd, Cmd, backcmd, execcmd, pipecmd, redir}

unfoldable pub runcmd : Cmd → Script
runcmd (execcmd []) = exit 0
runcmd (execcmd (w ∷ ws)) = execvp (w ∷ ws) (exit 0)
runcmd (redir c file t mode fd) =
    if (t == b'>') || (t == b'<') then redirect fd file mode (runcmd c) else exit 255
runcmd (pipecmd left right) =
    pipe
      (λ p0 p1.
        fork (plumb 1 p1 p0 p1 (runcmd left))
          (fork (plumb 0 p0 p0 p1 (runcmd right)) (close p0 (close p1 (wait (wait (exit 0)))))))
      (exit 0)
runcmd (backcmd c) = fork (runcmd c) (exit 0)

-- `runcmd(parsecmd(buf));` in main
unfoldable pub run_line : Text → Parse Script
run_line s = bind (parsecmd s) (λ c rest. parsed (runcmd c) rest)
