-- ===== src/Shell/Tests.antt =====
-- The parser and the check of parentheses, at concrete lines.
-- The line `ls -l > f; a | b`.
use cs551_assignments.Common.{Text, [], arith, ok, refl, true, ◌↔◌, ◌∷◌, ◌≡◌, ◌≢◌}
use cs551_assignments.Shell.Lexer.{gettoken, peek, skip_whitespace, strchr, token_at, word}
use cs551_assignments.Shell.Parser.{
  Cmd, after_word, execcmd, listcmd, on_token, out_of_fuel, parsebacks, parsecmd, parsed, parseexec,
  parseline, parsepipe, parseredirs, parsewords, pipecmd, redir_of, redircmd, wrap,
}
use cs551_assignments.Shell.Parser.Shape.{parsecmd-IsWellFormed}
use cs551_assignments.Shell.Parser.WellFormed.{IsWellFormed}
use cs551_assignments.Shell.Parser.Total.{parsecmd-ne-out_of_fuel}
use cs551_assignments.Shell.Parens.{Balanced, validateparenthes}
use cs551_assignments.Shell.Balance.{validateparenthes-iff-Balanced}

abbrev pub line : Text
line =
    b'l' ∷ b's' ∷ b' ' ∷ b'-' ∷ b'l' ∷ b' ' ∷ b'>' ∷ b' ' ∷ b'f' ∷ b';' ∷ b' ' ∷ b'a' ∷ b' ' ∷ b'|'
    ∷ b' ' ∷ b'b' ∷ []

abbrev pub command : Cmd
command =
    listcmd (redircmd (execcmd ((b'l' ∷ b's' ∷ []) ∷ (b'-' ∷ b'l' ∷ []) ∷ [])) (b'f' ∷ []) b'>')
      (pipecmd (execcmd ((b'a' ∷ []) ∷ [])) (execcmd ((b'b' ∷ []) ∷ [])))

-- Nothing is left over.
abbrev pub nothing : Text
nothing = []

pub parses : parsecmd line ≡ parsed command nothing
unfolding parsecmd parseline parsebacks parsepipe parseexec parsewords on_token after_word
    parseredirs redir_of wrap redircmd peek gettoken token_at word skip_whitespace strchr
parses = refl

parsecmd-IsWellFormed_example : IsWellFormed command × (nothing ≡ nothing)
parsecmd-IsWellFormed_example = parsecmd-IsWellFormed line nothing command parses

parsecmd-ne-out_of_fuel_example : parsecmd line ≢ out_of_fuel
parsecmd-ne-out_of_fuel_example = parsecmd-ne-out_of_fuel line

-- The text `((a))b`.
abbrev nested : Text
nested = b'(' ∷ b'(' ∷ b'a' ∷ b')' ∷ b')' ∷ b'b' ∷ []

validateparenthes-iff-Balanced_example : (validateparenthes nested ≡ ok true) ↔ Balanced nested
validateparenthes-iff-Balanced_example = validateparenthes-iff-Balanced nested (omega arith)
