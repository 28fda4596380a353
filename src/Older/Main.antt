-- ===== src/Older/Main.antt =====
-- The child that main of CS551P1/main.c forks for a command. What main does with a line before that
-- is the same text as in the newer shell.
use cs551_assignments.Common.{
  Bool, Option, Run, inl, inr, Text, false, fault, length, none, ok, some, true, ◌*◌, ◌+◌, refl,
  ◌≡◌, ◌≢◌,
}
use cs551_assignments.Shell.Parser.{Parse, bind, out_of_fuel, parsed, exits as parse_exits}
use cs551_assignments.Shell.Parens.{validateparenthes}
use cs551_assignments.Shell.Alias.{Converted, convertalias, converted, exits, faults, loops}
use cs551_assignments.Shell.Alias.Blank.{convertalias-HasBlank}
use cs551_assignments.Shell.Main.{Child, ends, goes_on, hangs, runs, undefined, unfinished}
use cs551_assignments.Shell.Main.Lines.{HasEnded}
use cs551_assignments.Older.Parser.{Cmd, parsecmd}
use cs551_assignments.Older.Run.{run_line, runcmd}
use cs551_assignments.Older.Same.{parsecmd_returns}
use cs551_assignments.Older.Sequence.{linearize}
use cs551_assignments.Older.Sequence.Ends.{linearize_ends}

abbrev pub after_linearize : Option (Run Text) → Child
after_linearize none = unfinished
after_linearize (some fault) = undefined
after_linearize (some (ok buf)) = runs (run_line buf)

abbrev pub after_convertalias : Converted → Child
after_convertalias exits = ends
after_convertalias faults = undefined
after_convertalias loops = hangs
after_convertalias (converted buf) = after_linearize (linearize (2 * length buf + 1) buf)

abbrev pub after_validation : Run Bool → Converted → Child
after_validation fault c = undefined
after_validation (ok false) c = goes_on
after_validation (ok true) c = after_convertalias c

unfoldable pub child : (Text → Option Text) → Text → Child
child getenv buf = after_validation (validateparenthes buf) (convertalias getenv buf)

run_line-ne-out_of_fuel : (s : Text) → run_line s ≢ out_of_fuel
unfolding run_line
run_line-ne-out_of_fuel s = go (parsecmd s) (parsecmd_returns s)
  where
    go : (r : Parse Cmd) → r ≢ out_of_fuel → bind r (λ c rest. parsed (runcmd c) rest) ≢ out_of_fuel
    go (parsed c rest) h e = cc
    go (parse_exits x) h e = cc
    go out_of_fuel h e = h refl

-- The loop that rewrites the line, with the fuel that it has in the child.
abbrev pub rewritten : Text → Option (Run Text)
rewritten t = linearize (2 * length t + 1) t

pub older_child_ends :
    (getenv : Text → Option Text) (buf : Text) → HasEnded rewritten getenv buf (child getenv buf)
unfolding child
older_child_ends getenv buf = go (validateparenthes buf) (convertalias getenv buf) refl refl
  where
    from_text :
        (t : Text) (r : Run Text)
        → convertalias getenv buf ≡ converted t
        → rewritten t ≡ some r
        → HasEnded rewritten getenv buf (after_linearize (some r))
    from_text t fault e q = inr (inr (t, e, q))
    from_text t (ok u) e q = run_line-ne-out_of_fuel u

    go :
        (v : Run Bool) (c : Converted)
        → validateparenthes buf ≡ v
        → convertalias getenv buf ≡ c
        → HasEnded rewritten getenv buf (after_validation v c)
    go fault c p q = inl p
    go (ok false) c p q = p
    go (ok true) exits p q = q
    go (ok true) faults p q = inr (inl q)
    go (ok true) loops p q = convertalias-HasBlank getenv buf q
    go (ok true) (converted t) p q = let (r, e, g) = linearize_ends t in rw e (from_text t r q e)
