-- ===== src/Older/Sequence.antt =====
-- changesequence of CS551P1/main.c, and the loop of main that calls it. Its first loop, its copy of
-- what is between the parentheses, and the bodies of its last two ifs but for the sign, are the same
-- text as in the newer shell and are taken from its model.
pub mod Ends
use cs551_assignments.Common.{
  Option, Run, Text, false, fault, if◌then◌else◌, length, ltb, none, ok, pos, some, suc, zero, ℕ,
  ◌+◌, ◌-◌, ◌>>=◌, ◌>>◌,
}
use cs551_assignments.Shell.Lexer.{strchr}
use cs551_assignments.Shell.Parens.{maxlen}
use cs551_assignments.Shell.Sequence.{Marks, add_before, find_marks, inside, put_sign}

abbrev pub add_after : Text → ℕ → Text → Run Text
add_after d right ps = if ltb (right + 2) (length d) then put_sign b',' d right ps else ok ps

-- What changesequence does behind its first loop.
abbrev pub rearrange : Text → Marks → Run Text
rearrange d m = do
  ps ← if m.paren then inside d m else ok d
  before ← add_before b',' d m.left ps
  add_after d m.right before.1

unfoldable pub changesequence : Text → Run Text
changesequence s =
    let m =
      find_marks s 0 (record { left = 0; right = length s - 1; times = pos 0; paren = false }) in
    if ltb (length s) maxlen then rearrange s m else fault

abbrev pub then_again : Run Text → (Text → Option (Run Text)) → Option (Run Text)
then_again fault next = some fault
then_again (ok t) next = next t

-- `while(strchr(buf, '(')!=0) changesequence(buf);`
unfoldable pub linearize : ℕ → Text → Option (Run Text)
linearize zero s = none
linearize (suc f) s =
    let rest = then_again (changesequence s) (linearize f) in
    if strchr s b'(' then rest else some (ok s)
