-- ===== src/Shell/Profile/Tests.antt =====
-- getprofile on concrete files.
use cs551_assignments.Common.{All, List, [], arith, fault, ok, refl, replicate, some, ℕ, ◌∷◌, ◌≡◌}
use cs551_assignments.Shell.Lexer.{strchr}
use cs551_assignments.Shell.Profile.{
  before_sign, getprofile, lines_of, newline, on_line, read_lines,
}
use cs551_assignments.Shell.Profile.Entries.{Entry, IsEntry, alias, file_of, home, meanings, path}
use cs551_assignments.Shell.Profile.RoundTrip.{getprofile_reads_back}

-- PATH=/bin, HOME=/root and alias l="ls -l"
abbrev entries : List Entry
entries =
    path (b'/' ∷ b'b' ∷ b'i' ∷ b'n' ∷ [])
    ∷ home (b'/' ∷ b'r' ∷ b'o' ∷ b'o' ∷ b't' ∷ [])
    ∷ alias (b'l' ∷ []) (b'l' ∷ b's' ∷ b' ' ∷ b'-' ∷ b'l' ∷ [])
    ∷ []

abbrev zeros : List ℕ
zeros = replicate 256 0

entries-valid : All IsEntry entries
unfolding strchr
entries-valid = (
  ((refl, (refl, (refl, (refl, tt)))), omega arith),
  (
    ((refl, (refl, (refl, (refl, (refl, tt))))), omega arith),
    (
      (
        ((refl, tt), omega arith, omega arith),
        ((refl, (refl, (refl, (refl, (refl, tt))))), omega arith, omega arith),
      ),
      tt,
    ),
  ),
)

getprofile_reads_back_example : getprofile (some (file_of entries)) zeros ≡ ok (meanings entries)
getprofile_reads_back_example = getprofile_reads_back entries zeros entries-valid (omega arith)

-- An empty line has no equals sign, and the search for one leaves the array.
empty_line_faults : getprofile (some (newline ∷ [])) zeros ≡ fault
unfolding getprofile read_lines lines_of on_line before_sign
empty_line_faults = refl
