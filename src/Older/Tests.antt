-- ===== src/Older/Tests.antt =====
-- The older shell at a concrete line, `a b, c > f &`.
use cs551_assignments.Common.{
  All, List, ℕ, arith, replicate, strcmp_eq, strncmp_eq, Text, [], ok, refl, some, ◌+ℤ◌, ◌-ℤ◌, ◌∷◌,
  ◌≡◌,
}
use cs551_assignments.Shell.Lexer.{skip_whitespace, strchr, peek}
use cs551_assignments.Shell.Parser.{on_token, parsed, redir_of, parsecmd as new_parsecmd}
use cs551_assignments.Shell.Run.{run_line as new_run_line}
use cs551_assignments.Older.Lexer.{gettoken, token_at, word}
use cs551_assignments.Older.Parser.{
  Cmd, after_word, backcmd, execcmd, parsebacks, parsecmd, parseexec, parseline, parsepipe,
  parseredirs, parsewords, pipecmd, redircmd, wrap,
}
use cs551_assignments.Older.Run.{run_line}
use cs551_assignments.Older.Same.{parsecmd-translate}
use cs551_assignments.Older.Words.{translate_parse}
use cs551_assignments.Older.Calls.{rename, run_line-translate}
use cs551_assignments.Shell.Sequence.{ahead_to, back_to, isalnum, put_before, put_sign, find_marks}
use cs551_assignments.Older.Sequence.{changesequence, linearize}
use cs551_assignments.Older.Translate.{embed, translate}
use cs551_assignments.Shell.Profile.{
  before_sign, chdir, lines_of, name_home, name_path, setenv, strstr, terminated,
  getprofile as new_getprofile,
}
use cs551_assignments.Shell.Profile.Entries.{Entry, IsEntry, file_of, path}
use cs551_assignments.Older.Profile.{
  getprofile, on_alias, on_line, on_variable, read_lines, value_from,
}
use cs551_assignments.Older.Profile.Agrees.{IsQuiet, getprofile_agrees}

abbrev line : Text
line = b'a' ∷ b' ' ∷ b'b' ∷ b',' ∷ b' ' ∷ b'c' ∷ b' ' ∷ b'>' ∷ b' ' ∷ b'f' ∷ b' ' ∷ b'&' ∷ []

abbrev command : Cmd
command = backcmd (
    pipecmd (execcmd ((b'a' ∷ []) ∷ (b'b' ∷ []) ∷ []))
      (redircmd (execcmd ((b'c' ∷ []) ∷ [])) (b'f' ∷ []) b'>'))

parses : parsecmd line ≡ parsed command []
unfolding parsecmd parseline parsebacks parsepipe parseexec parsewords on_token after_word
    parseredirs redir_of wrap redircmd peek gettoken token_at word skip_whitespace strchr
parses = refl

parsecmd-translate_example :
    new_parsecmd (translate line) ≡ translate_parse (embed translate) (parsecmd line)
parsecmd-translate_example = parsecmd-translate line

run_line-translate_example :
    new_run_line (translate line) ≡ translate_parse (rename translate) (run_line line)
run_line-translate_example = run_line-translate line

-- `a,(b)`
abbrev nested : Text
nested = b'a' ∷ b',' ∷ b'(' ∷ b'b' ∷ b')' ∷ []

nested_runs : linearize 2 nested ≡ some (ok (b'b' ∷ b',' ∷ b'a' ∷ []))
unfolding linearize changesequence put_before put_sign ahead_to back_to find_marks isalnum ◌+ℤ◌ ◌-ℤ◌
    strchr
nested_runs = refl

-- PATH=/bin
abbrev entries : List Entry
entries = path (b'/' ∷ b'b' ∷ b'i' ∷ b'n' ∷ []) ∷ []

entries-valid : All IsEntry entries × All IsQuiet entries
unfolding strchr strcmp_eq strstr strncmp_eq
entries-valid = ((((refl, (refl, (refl, (refl, tt)))), omega arith), tt), ((refl, refl, refl), tt))

abbrev zeros : List ℕ
zeros = replicate 256 0

getprofile_agrees_example :
    getprofile (some (file_of entries)) zeros ≡ new_getprofile (some (file_of entries)) zeros
getprofile_agrees_example =
    getprofile_agrees entries zeros entries-valid.0 entries-valid.1 (omega arith)

-- The value HOME of PATH is taken for a name: the variable HOME is set as well, to HOME.
path_taken_for_name :
    getprofile (some (file_of (path name_home ∷ []))) zeros
    ≡ ok (setenv name_path name_home ∷ setenv name_home name_home ∷ chdir name_home ∷ [])
unfolding getprofile read_lines lines_of on_line before_sign terminated on_variable value_from
    on_alias strcmp_eq strstr strncmp_eq
path_taken_for_name = refl
