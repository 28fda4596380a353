-- ===== src/Shell/Main/Tests.antt =====
-- The child of main at concrete lines.
use cs551_assignments.Common.{
  Option, Text, [], arith, if◌then◌else◌, map, none, refl, ◌∷◌, ◌==◌, ◌≡◌, strncmp_eq, some,
}
use cs551_assignments.Shell.Lexer.{strchr}
use cs551_assignments.Shell.Parens.{scan, validateparenthes}
use cs551_assignments.Shell.Profile.{strstr}
use cs551_assignments.Shell.Alias.{
  convert_parts, convert_token, convert_tokens, convertalias, converted, cut_comma, expand, faults,
  split_at, split_parts, trim, exits, loops,
}
use cs551_assignments.Shell.Run.{run_line}
use cs551_assignments.Shell.Main.{child, goes_on, log_off, on_line, runs}
use cs551_assignments.Shell.Main.Lines.{child_runs}

-- Without variables.
abbrev no_variables : Text → Option Text
no_variables name = none

-- The line `a,b` with its newline, and what convertalias makes of it.
abbrev line : Text
line = b'a' ∷ b',' ∷ b'b' ∷ 10 ∷ []

abbrev words : Text
words = b'a' ∷ b',' ∷ b'b' ∷ b' ' ∷ []

converts : convertalias no_variables line ≡ converted words
unfolding convertalias convert_parts convert_tokens convert_token cut_comma expand split_at
    split_parts trim strchr
converts = refl

child_runs_example :
    child no_variables line ≡ runs (run_line (map (λ c. if c == b',' then b'|' else c) words))
unfolding strchr
child_runs_example =
    child_runs no_variables line words refl refl (omega arith) converts refl (omega arith)

-- With a space in front of the newline, a token of white space alone is left.
space_at_end : convertalias no_variables (b'a' ∷ b' ' ∷ 10 ∷ []) ≡ loops
unfolding convertalias convert_parts convert_tokens convert_token cut_comma expand split_at
    split_parts trim strchr
space_at_end = refl

-- The newline alone begins ps.
empty_line : convertalias no_variables (10 ∷ []) ≡ faults
unfolding convertalias convert_parts convert_tokens convert_token split_at split_parts trim strchr
empty_line = refl

-- Behind a dollar sign that strtok_r has passed over, the trimming stops.
dollar_line : convertalias no_variables (b'$' ∷ 10 ∷ []) ≡ converted (b' ' ∷ [])
unfolding convertalias convert_parts convert_tokens convert_token expand split_at split_parts trim
    strchr
dollar_line = refl

-- Behind a dollar sign that strtok_r has made a NUL, it does not.
dollar_at_end : convertalias no_variables (b'a' ∷ b'$' ∷ 10 ∷ []) ≡ loops
unfolding convertalias convert_parts convert_tokens convert_token cut_comma expand split_at
    split_parts trim strchr
dollar_at_end = refl

-- A variable that is its own value.
own_value : convertalias (λ w. some w) (b'a' ∷ []) ≡ exits
unfolding convertalias convert_parts convert_tokens convert_token cut_comma expand split_at
    split_parts trim strchr
own_value = refl

-- The child goes on with the loop of main where the parentheses do not match.
open_left : child no_variables (b'(' ∷ []) ≡ goes_on
unfolding child validateparenthes scan
open_left = refl

-- `cat exits`
word_with_exit :
    on_line (b'c' ∷ b'a' ∷ b't' ∷ b' ' ∷ b'e' ∷ b'x' ∷ b'i' ∷ b't' ∷ b's' ∷ []) ≡ log_off
unfolding on_line strstr strncmp_eq
word_with_exit = refl
