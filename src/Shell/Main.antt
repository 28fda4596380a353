-- ===== src/Shell/Main.antt =====
-- The loop of main in CS551P1/CS551P1/main.c: what it does with a line, and what the child that it
-- forks for a command does.
pub mod Lines
mod Tests
use cs551_assignments.Common.{
  Bool, Option, Run, Text, [], drop, false, fault, if◌then◌else◌, length, none, ok, some,
  strncmp_eq, take, true, ◌*◌, ◌+◌, ◌-◌, ◌∷◌,
}
use cs551_assignments.Shell.Parser.{Parse}
use cs551_assignments.Shell.Parens.{validateparenthes}
use cs551_assignments.Shell.Profile.{strstr}
use cs551_assignments.Shell.Alias.{Converted, convertalias, converted, exits, faults, loops}
use cs551_assignments.Shell.Sequence.{changesequence}
use cs551_assignments.Shell.Run.{Script, run_line}

-- What a line makes the shell do: change its directory, end, or fork a child.
pub data Action : Type 0 where
  cd : (dir : Text) → Action
  log_off : Action
  fork_child : (buf : Text) → Action

-- `buf[strlen(buf)-1] = 0; chdir(buf+3)`, and the other two branches
unfoldable pub on_line : Text → Action
on_line buf =
    if strncmp_eq 3 buf (b'c' ∷ b'd' ∷ b' ' ∷ [])
    then cd (drop 3 (take (length buf - 1) buf))
    else if strstr buf (b'e' ∷ b'x' ∷ b'i' ∷ b't' ∷ [])
    then log_off
    else fork_child buf

-- The end of a child: it runs a line; it ends in convertalias; it goes on with the loop of main as
-- a second shell; or it does what C leaves undefined, or hangs in convertalias. `unfinished` is that
-- the fuel of changesequence was not enough.
pub data Child : Type 0 where
  runs : Parse Script → Child
  ends goes_on undefined hangs unfinished : Child

abbrev pub after_changesequence : Option (Run Text) → Child
after_changesequence none = unfinished
after_changesequence (some fault) = undefined
after_changesequence (some (ok buf)) = runs (run_line buf)

abbrev pub after_convertalias : Converted → Child
after_convertalias exits = ends
after_convertalias faults = undefined
after_convertalias loops = hangs
after_convertalias (converted buf) = after_changesequence (changesequence (2 * length buf + 1) buf)

abbrev pub after_validation : Run Bool → Converted → Child
after_validation fault c = undefined
after_validation (ok false) c = goes_on
after_validation (ok true) c = after_convertalias c

unfoldable pub child : (Text → Option Text) → Text → Child
child getenv buf = after_validation (validateparenthes buf) (convertalias getenv buf)
