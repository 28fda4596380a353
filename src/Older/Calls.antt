-- ===== src/Older/Calls.antt =====
-- The system calls of CS551P1/main.c are those of CS551P1/CS551P1/main.c on a translated line.
use cs551_assignments.Common.{
  Text, [], map, refl, ◌∷◌, ◌≡◌, ◌==◌, ◌||◌, Bool-cases, inl, inr, ◌∙◌, ap,
}
use cs551_assignments.Shell.Parser.{Parse, parsed, exits, out_of_fuel, bind}
use cs551_assignments.Shell.Run.{
  Script, close, dup, execvp, exit, fork, open_file, pipe, wait, run_line as new_run_line,
  runcmd as new_runcmd,
}
use cs551_assignments.Older.Parser.{Cmd, backcmd, execcmd, parsecmd, pipecmd, redir}
use cs551_assignments.Older.Run.{run_line, runcmd}
use cs551_assignments.Older.Same.{parsecmd-translate}
use cs551_assignments.Older.Words.{translate_parse}
use cs551_assignments.Older.Translate.{embed, translate, translate-input, translate-output}

-- The same calls, with the words and the file names changed.
abbrev pub rename : (Text → Text) → Script → Script
rename f (exit status) = exit status
rename f (execvp argv failed) = execvp (map f argv) (rename f failed)
rename f (close fd next) = close fd (rename f next)
rename f (dup fd next) = dup fd (rename f next)
rename f (open_file file mode opened failed) =
    open_file (f file) mode (rename f opened) (rename f failed)
rename f (pipe made failed) = pipe (λ p0 p1. rename f (made p0 p1)) (rename f failed)
rename f (fork child parent) = fork (rename f child) (rename f parent)
rename f (wait next) = wait (rename f next)

runcmd-embed : (f : Text → Text) (c : Cmd) → new_runcmd (embed f c) ≡ rename f (runcmd c)
unfolding runcmd new_runcmd
runcmd-embed f (execcmd []) = refl
runcmd-embed f (execcmd (w ∷ ws)) = refl
runcmd-embed f (redir c file t mode fd) = elim (Bool-cases ((t == b'>') || (t == b'<'))) [
  | inl y ↦ rw (translate-output t, translate-input t, y, runcmd-embed f c) refl
  | inr n ↦ rw (translate-output t, translate-input t, n) refl
]
runcmd-embed f (pipecmd l r) = rw (runcmd-embed f l, runcmd-embed f r) refl
runcmd-embed f (backcmd c) = rw (runcmd-embed f c) refl

-- For every line, the newer shell makes on the translated line the system calls that the older one
-- makes on the line, with the words and the file names translated; or both have the same error.
pub run_line-translate :
    (s : Text) → new_run_line (translate s) ≡ translate_parse (rename translate) (run_line s)
unfolding run_line new_run_line
run_line-translate s =
    ap (λ r. bind r (λ c rest. parsed (new_runcmd c) rest)) (parsecmd-translate s) ∙ go (parsecmd s)
  where
    go :
        (r : Parse Cmd)
        → bind (translate_parse (embed translate) r) (λ c rest. parsed (new_runcmd c) rest)
          ≡ translate_parse (rename translate) (bind r (λ c rest. parsed (runcmd c) rest))
    go (parsed c rest) = rw (runcmd-embed translate c) refl
    go (exits e) = refl
    go out_of_fuel = refl
