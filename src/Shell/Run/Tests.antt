-- ===== src/Shell/Run/Tests.antt =====
-- runcmd on the command `ls -l > f; a | b`, with calls whose tables are lists.
use cs551_assignments.Common.{
  List, [], arith, inl, inr, none, refl, some, ℕ, ◌<◌, ◌∷◌, ◌≡◌, ◌≢◌, ◌≤◌, ◌⊎◌,
}
use cs551_assignments.Shell.Parser.{o_wronly_creat_trunc, redircmd}
use cs551_assignments.Shell.Tests.{command, line, nothing, parses}
use cs551_assignments.Shell.Run.{Launch, Runs, runcmd}
use cs551_assignments.Shell.Run.Refine.{Planned, runcmd-Planned}
use cs551_assignments.Shell.Run.Started.{argvs, programs, runcmd_starts_all}
use cs551_assignments.Shell.Run.Lists.{
  Descriptors, file_object, lists, lists-CanServe, lists-IsLawful, look, lowest, lowest-IsLowest,
  place, place-Sets, read_end, terminal, write_end,
}
use cs551_assignments.Shell.Console.{Breaks, Breaks_lem, IsOpen, closes}
use cs551_assignments.Shell.Calls.{IsLowest}

-- Three descriptors on the terminal, and one that was closed again.
abbrev three : Descriptors
three = some terminal ∷ some terminal ∷ some terminal ∷ none ∷ []

-- What `ls -l > f; a | b` starts.
abbrev started : List (Launch lists)
started =
    record {
      argv = (b'l' ∷ b's' ∷ []) ∷ (b'-' ∷ b'l' ∷ []) ∷ [];
      table =
          some terminal
          ∷ some (file_object (b'f' ∷ []) o_wronly_creat_trunc)
          ∷ some terminal
          ∷ none
          ∷ [];
    }
    ∷ record {
      argv = (b'a' ∷ []) ∷ [];
      table = some terminal ∷ some write_end ∷ some terminal ∷ none ∷ none ∷ [];
    }
    ∷ record {
      argv = (b'b' ∷ []) ∷ [];
      table = some read_end ∷ some terminal ∷ some terminal ∷ none ∷ none ∷ [];
    }
    ∷ []

command-Runs : Runs lists (runcmd command) three started
unfolding runcmd redircmd
command-Runs = (
  _,
  _,
  refl,
  inr (_, refl, inl (_, refl, inl refl)),
  inl (
    3,
    4,
    _,
    (refl, refl, refl),
    (
      _,
      _,
      refl,
      inr (_, refl, (_, refl, (_, refl, (_, refl, inl refl)))),
      (
        _,
        _,
        refl,
        inr (_, refl, (_, refl, (_, refl, (_, refl, inl refl)))),
        (_, refl, (_, refl, refl)),
      ),
    ),
  ),
)

runcmd-Planned_example : Planned lists lists-IsLawful three command terminal terminal started
runcmd-Planned_example =
    runcmd-Planned lists lists-IsLawful line nothing command three terminal terminal started parses
      refl refl command-Runs

runcmd_starts_all_example :
    (ls : List (Launch lists)) × Runs lists (runcmd command) three ls
    × (argvs lists ls ≡ programs command)
runcmd_starts_all_example = runcmd_starts_all lists lists-CanServe line nothing command three parses

-- `open("console")` of a kernel whose tables are lists.
abbrev Console : ℕ → Descriptors → Descriptors → Type 0
Console n t u = (n ≡ lowest t) × (u ≡ place terminal t)

Console-IsOpen : IsOpen lists Console
Console-IsOpen n t u (e, e') =
    let low : IsLowest lists n t = rw e (lowest-IsLowest t) in
    (low, (terminal, rw e' (place-Sets terminal t n low)))

-- Two descriptors are open at first.
two-Breaks : Breaks lists Console (some terminal ∷ some terminal ∷ []) three
two-Breaks =
    Breaks.opens {n = 2} (refl, refl) (omega arith) (closes {n = 3} (refl, refl) (omega arith) refl)

Breaks_lem_example :
    ((m : ℕ) → m < 3 → look three m ≢ none)
    × ((m : ℕ)
        → (3 ≤ m) ⊎ (look (some terminal ∷ some terminal ∷ []) m ≢ none)
        → look three m ≡ look (some terminal ∷ some terminal ∷ []) m)
Breaks_lem_example = Breaks_lem lists Console lists-IsLawful Console-IsOpen two-Breaks
