-- ===== src/Shell/Session.antt =====
-- getcmd of CS551P1/CS551P1/main.c and the loop of main over the lines that a terminal gives. A shell
-- that forks waits for the child, so that of the shells which there are the last one reads.
pub mod Ends
pub mod Lines
pub mod Nested
pub mod Reads
pub mod Requests
pub mod Transcript
mod Tests
use cs551_assignments.Common.{
  Bool, List, Option, Text, [], false, if◌then◌else◌, length, none, some, suc, true, zero, ℕ, ◌++◌,
  ◌-◌, ◌==◌, ◌∷◌,
}
use cs551_assignments.Shell.Parser.{Parse}
use cs551_assignments.Shell.Parens.{maxlen}
use cs551_assignments.Shell.Profile.{newline, terminated}
use cs551_assignments.Shell.Run.{Script}
use cs551_assignments.Shell.Main.{
  on_line, Action, Child, cd, ends, fork_child, goes_on, hangs, log_off, runs, undefined,
  unfinished,
}

-- stdin of a process: what has been read from the terminal and not been taken yet, and the
-- end-of-file indicator.
pub record Stream : Type 0 where
  pub pending : Text
  pub eof : Bool

-- What a read of `fgets` takes, with the stream and the terminal behind it. The terminal is the list
-- of what its reads give: a line each, and an empty text for an end of file.
pub record Got : Type 0 where
  pub line : Text
  pub stream : Stream
  pub tty : List Text

abbrev put_back : ℕ → Got → Got
put_back c g = record g { line = c ∷ g.line }

abbrev pub stream : Text → Bool → Stream
stream p e = record { pending = p; eof = e }

abbrev pub got : Text → Stream → List Text → Got
got l s tty = record { line = l; stream = s; tty = tty }

-- One character, in front of what is read behind it unless it is a newline.
abbrev pub take_char : ℕ → Text → List Text → Got → Got
take_char c p tty rest = if c == newline then got (c ∷ []) (stream p false) tty else put_back c rest

-- At most `n` more characters, and none behind a newline.
unfoldable pub gets : ℕ → Text → List Text → Got
gets zero p tty = got [] (stream p false) tty
gets (suc n) (c ∷ p) tty = take_char c p tty (gets n p tty)
gets (suc n) [] [] = got [] (stream [] true) []
gets (suc n) [] ([] ∷ tty) = got [] (stream [] true) tty
gets (suc n) [] ((c ∷ p) ∷ tty) = take_char c p tty (gets n p tty)

-- The string in the buffer, which was zeroed before.
abbrev pub buffered : Got → Got
buffered g = record g { line = terminated (g.line ++ 0 ∷ []) }

-- `memset(buf, 0, nbuf); fgets(buf, nbuf, stdin);`. The string is empty for an end of file, and for a
-- line that begins with a NUL.
unfoldable pub getcmd : Stream → List Text → Got
getcmd s tty = if s.eof then got [] s tty else buffered (gets (maxlen - 1) s.pending tty)

-- A process that runs the loop of main.
pub record Process {ℓ} (Dir : Type ℓ) : Type ℓ where
  pub cwd : Dir
  pub stdin : Stream

-- What has been run, and where.
abbrev pub Log {ℓ} : Type ℓ → Type ℓ
Log Dir = List (Dir × Parse Script)

-- The processes, the last one first, the terminal, and what has been run.
pub record Session {ℓ} (Dir : Type ℓ) : Type ℓ where
  pub shells : List (Process Dir)
  pub tty : List Text
  pub log : Log Dir

pub data Ending {ℓ} (Dir : Type ℓ) : Type ℓ where
  -- every shell has ended
  over : (tty : List Text) → (log : Log Dir) → Ending Dir
  -- the child of a line does what C leaves undefined
  undefined_behaviour : (buf : Text) → Ending Dir
  -- the child of a line hangs, and the shells wait for it
  waits : (buf : Text) → Ending Dir

-- What a turn leads to. `unsettled` is that the fuel of the child was not enough.
pub data Step {ℓ} (Dir : Type ℓ) : Type ℓ where
  goes_to : Session Dir → Step Dir
  stops : Ending Dir → Step Dir
  unsettled : Step Dir

-- `chdir` gives the directory that a name leads to, `can_fork` whether fork succeeds where so many
-- shells are, and `run` what a script leaves of the terminal.
pub record Host {ℓ} (Dir : Type ℓ) : Type ℓ where
  pub chdir : Dir → Text → Option Dir
  pub can_fork : ℕ → Bool
  pub run : Dir → Parse Script → List Text → List Text

-- `child_of` is what the child makes of a line: the two shells differ in nothing else.
module _ {ℓ} {Dir : Type ℓ} (child_of : Text → Child) (h : Host Dir) where
  open h use {chdir, can_fork, run}

  -- `if(chdir(buf+3) < 0) fprintf(...)`
  abbrev pub change : Dir → Option Dir → Dir
  change cwd none = cwd
  change cwd (some d) = d

  -- What the child of a line makes of a session in which `p` is its parent, which waits for it.
  abbrev pub after_child :
      Text → Child → Process Dir → List (Process Dir) → List Text → Log Dir → Step Dir
  after_child buf (runs script) p ps tty log =
      goes_to
        (record { shells = p ∷ ps; tty = run p.cwd script tty; log = log ++ (p.cwd, script) ∷ [] })
  after_child buf ends p ps tty log = goes_to (record { shells = p ∷ ps; tty = tty; log = log })
  after_child buf goes_on p ps tty log =
      goes_to (record { shells = p ∷ p ∷ ps; tty = tty; log = log })
  after_child buf undefined p ps tty log = stops (undefined_behaviour buf)
  after_child buf hangs p ps tty log = stops (waits buf)
  after_child buf unfinished p ps tty log = unsettled

  -- What a line does.
  unfoldable pub on_action :
      Action → Process Dir → List (Process Dir) → List Text → Log Dir → Step Dir
  on_action (cd dir) p ps tty log = goes_to (record {
    shells = record p { cwd = change p.cwd (chdir p.cwd dir) } ∷ ps;
    tty = tty;
    log = log;
  })
  on_action log_off p ps tty log = goes_to (record { shells = ps; tty = tty; log = log })
  on_action (fork_child buf) p ps tty log =
      if can_fork (length (p ∷ ps))
      then after_child buf (child_of buf) p ps tty log
      else goes_to (record { shells = p ∷ ps; tty = tty; log = log })

  -- One turn of the loop of the last process: getcmd is -1 at an empty buffer.
  abbrev pub on_got : Process Dir → List (Process Dir) → Log Dir → Got → Step Dir
  on_got p ps log g = elim g.line [
    | [] ↦ goes_to (record { shells = ps; tty = g.tty; log = log })
    | c ∷ buf ↦ on_action (on_line (c ∷ buf)) (record p { stdin = g.stream }) ps g.tty log
  ]

  unfoldable pub turn : Process Dir → List (Process Dir) → List Text → Log Dir → Step Dir
  turn p ps tty log = on_got p ps log (getcmd p.stdin tty)

  -- So many turns at most, and none where they, or the fuel of a child, are not enough.
  abbrev pub next_turn : (Session Dir → Option (Ending Dir)) → Step Dir → Option (Ending Dir)
  next_turn loop (goes_to s) = loop s
  next_turn loop (stops e) = some e
  next_turn loop unsettled = none

  abbrev pub turns :
      (Session Dir → Option (Ending Dir))
      → List (Process Dir)
      → List Text
      → Log Dir
      → Option (Ending Dir)
  turns loop [] tty log = some (over tty log)
  turns loop (p ∷ ps) tty log = next_turn loop (turn p ps tty log)

  unfoldable pub session : ℕ → Session Dir → Option (Ending Dir)
  session zero s = none
  session (suc n) s = turns (session n) s.shells s.tty s.log

  -- The loop of main, from a directory.
  abbrev pub main_loop : ℕ → Dir → List Text → Option (Ending Dir)
  main_loop n cwd tty =
      session n (record {
        shells = record { cwd = cwd; stdin = stream [] false } ∷ [];
        tty = tty;
        log = [];
      })
