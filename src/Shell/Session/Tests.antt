-- ===== src/Shell/Session/Tests.antt =====
-- Sessions of the shell, and the theorems at concrete data.
use cs551_assignments.Common.{
  All, List, Option, Text, [], arith, if◌then◌else◌, ltb, map, none, refl, some, strncmp_eq, suc,
  ◌+◌, ◌==◌, ◌∷◌, ◌≡◌,
}
use cs551_assignments.Shell.Lexer.{strchr}
use cs551_assignments.Shell.Parens.{depth, scan, validateparenthes}
use cs551_assignments.Shell.Profile.{newline, strstr, terminated}
use cs551_assignments.Shell.Alias.{
  convert_parts, convert_token, convert_tokens, convertalias, converted, cut_comma, expand,
  split_at, split_parts, trim,
}
use cs551_assignments.Shell.Run.{run_line}
use cs551_assignments.Shell.Main.{on_line, Child, cd, child, fork_child, log_off, runs}
use cs551_assignments.Shell.Main.Lines.{child_runs}
use cs551_assignments.Shell.Session.{
  Ending, Host, getcmd, gets, main_loop, on_action, over, session, turn, waits,
}
use cs551_assignments.Shell.Session.Ends.{IsEnd, Leaves, main_loop_ends, turns_for}
use cs551_assignments.Shell.Session.Lines.{IsLine, at, sess}
use cs551_assignments.Shell.Session.Nested.{session-open_line}
use cs551_assignments.Shell.Session.Requests.{
  CanServe, Request, asks, goes_in, main_loop-serve, serve,
}

abbrev no_variables : Text → Option Text
no_variables name = none

-- Any name is a directory, and the scripts read nothing.
abbrev host : Host Text
host = record { chdir = λ d dir. some dir; can_fork = λ n. ltb n 3; run = λ d script tty. tty }

-- The child of the newer shell.
abbrev child_of : Text → Child
child_of = child no_variables

abbrev open_line : Text
open_line = b'(' ∷ newline ∷ []

abbrev cd_line : Text
cd_line = b'c' ∷ b'd' ∷ b' ' ∷ b'x' ∷ newline ∷ []

abbrev exit_line : Text
exit_line = b'e' ∷ b'x' ∷ b'i' ∷ b't' ∷ newline ∷ []

abbrev pipe_line : Text
pipe_line = b'a' ∷ b',' ∷ b'b' ∷ newline ∷ []

abbrev root : Text
root = b'/' ∷ []

-- The first exit ends the second shell only, and its change of the directory is lost.
exit_twice :
    main_loop child_of host 9 root (open_line ∷ cd_line ∷ exit_line ∷ exit_line ∷ exit_line ∷ [])
    ≡ some (over (exit_line ∷ []) [])
unfolding session turn getcmd gets terminated on_action on_line strncmp_eq strstr child
    validateparenthes scan
exit_twice = refl

open_line-IsLine : IsLine open_line
open_line-IsLine = record {
  body = b'(' ∷ [];
  ended = refl;
  plain = omega arith;
  short = omega arith;
}

cd_line-IsLine : IsLine cd_line
cd_line-IsLine = record {
  body = b'c' ∷ b'd' ∷ b' ' ∷ b'x' ∷ [];
  ended = refl;
  plain = omega arith;
  short = omega arith;
}

exit_line-IsLine : IsLine exit_line
exit_line-IsLine = record {
  body = b'e' ∷ b'x' ∷ b'i' ∷ b't' ∷ [];
  ended = refl;
  plain = omega arith;
  short = omega arith;
}

pipe_line-IsLine : IsLine pipe_line
pipe_line-IsLine = record {
  body = b'a' ∷ b',' ∷ b'b' ∷ [];
  ended = refl;
  plain = omega arith;
  short = omega arith;
}

on_line-cd : on_line cd_line ≡ cd (b'x' ∷ [])
unfolding on_line strncmp_eq
on_line-cd = refl

on_line-exit : on_line exit_line ≡ log_off
unfolding on_line strncmp_eq strstr
on_line-exit = refl

on_line-open : on_line open_line ≡ fork_child open_line
unfolding on_line strncmp_eq strstr
on_line-open = refl

on_line-pipe : on_line pipe_line ≡ fork_child pipe_line
unfolding on_line strncmp_eq strstr
on_line-pipe = refl

depth-open : depth open_line 0 ≡ some 1
unfolding depth
depth-open = refl

session-open_line_example :
    session child_of host
      (suc (1 + suc 4))
      (sess (at root ∷ []) (open_line ∷ cd_line ∷ exit_line ∷ exit_line ∷ []) [])
    ≡ session child_of host 4 (sess (at root ∷ []) (exit_line ∷ []) [])
session-open_line_example =
    session-open_line no_variables host 4 0 root [] open_line exit_line (cd_line ∷ [])
      (exit_line ∷ []) [] open_line-IsLine on_line-open depth-open refl
      ((cd_line-IsLine, (b'x' ∷ [], on_line-cd)), tt) exit_line-IsLine on_line-exit

leaves_all : Leaves child_of host
leaves_all d script tty = ([], refl)

main_loop_ends_example :
    (r : Ending Text) × (main_loop child_of host
        (turns_for (open_line ∷ cd_line ∷ []))
        root
        (open_line ∷ cd_line ∷ [])
      ≡ some r)
    × IsEnd child_of r
main_loop_ends_example = main_loop_ends no_variables host leaves_all root (open_line ∷ cd_line ∷ [])

abbrev words : Text
words = b'a' ∷ b',' ∷ b'b' ∷ b' ' ∷ []

converts : convertalias no_variables pipe_line ≡ converted words
unfolding convertalias convert_parts convert_tokens convert_token cut_comma expand split_at
    split_parts trim strchr
converts = refl

child-pipe :
    child no_variables pipe_line ≡ runs (run_line (map (λ c. if c == b',' then b'|' else c) words))
unfolding strchr
child-pipe =
    child_runs no_variables pipe_line words refl refl (omega arith) converts refl (omega arith)

-- `cd x` and `a,b`.
abbrev requests : List Request
requests = goes_in (b'x' ∷ []) ∷ asks (b'a' ∷ b',' ∷ b'b' ∷ []) words ∷ []

requests-CanServe : All (CanServe no_variables) requests
unfolding strncmp_eq strstr strchr
requests-CanServe = (
  (omega arith, omega arith),
  (
    record {
      plain = omega arith;
      short = omega arith;
      no_cd = refl;
      no_exit = refl;
      no_open = refl;
      no_close = refl;
      converts = converts;
      out_open = refl;
      out_short = omega arith;
    },
    tt,
  ),
)

main_loop-serve_example :
    main_loop child_of host 4 root (cd_line ∷ pipe_line ∷ [])
    ≡ some (over [] (serve host root requests))
main_loop-serve_example =
    main_loop-serve no_variables host root requests requests-CanServe refl (λ d script t. refl)

-- The script runs where the line before it has led.
served :
    serve host root requests
    ≡ (b'x' ∷ [], run_line (map (λ c. if c == b',' then b'|' else c) words)) ∷ []
unfolding serve
served = refl

-- A space in front of the newline: the shell waits for ever.
waits_for_blank :
    main_loop child_of host 9 root ((b'a' ∷ b' ' ∷ newline ∷ []) ∷ exit_line ∷ [])
    ≡ some (waits (b'a' ∷ b' ' ∷ newline ∷ []))
unfolding session turn getcmd gets terminated on_action on_line strncmp_eq strstr child
    validateparenthes scan convertalias convert_parts convert_tokens convert_token cut_comma expand
    split_at split_parts trim strchr
waits_for_blank = refl
