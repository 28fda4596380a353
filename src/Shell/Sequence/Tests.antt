-- ===== src/Shell/Sequence/Tests.antt =====
-- changesequence at concrete lines.
use cs551_assignments.Common.{
  Outcome, Run, Text, [], arith, false, fault, if◌then◌else◌, length, map, ok, refl, some, ◌*◌,
  ◌++◌, ◌+ℤ◌, ◌+◌, ◌-ℤ◌, ◌==◌, ◌∷◌, ◌≡◌, ◌≤◌,
}
use cs551_assignments.Shell.Lexer.{strchr}
use cs551_assignments.Shell.Sequence.{
  ahead_to, back_to, changesequence, commas, find_marks, isalnum, put_before, put_rest, put_sign,
  reorder,
}
use cs551_assignments.Shell.Sequence.Weight.{weight}
use cs551_assignments.Shell.Sequence.Ends.{changesequence_ends}
use cs551_assignments.Shell.Sequence.Precedence.{IsPair, changesequence_precedence}

-- `a,(b),c`
abbrev line : Text
line = b'a' ∷ b',' ∷ b'(' ∷ b'b' ∷ b')' ∷ b',' ∷ b'c' ∷ []

-- The line becomes `b;a;c`.
line_runs : changesequence 3 line ≡ some (ok (b'b' ∷ b';' ∷ b'a' ∷ b';' ∷ b'c' ∷ []))
unfolding changesequence reorder put_before put_sign put_rest commas ahead_to back_to find_marks
    isalnum ◌+ℤ◌ ◌-ℤ◌ strchr
line_runs = refl

-- With `aa` for `a` the last sign is a bar: `b;aa|c`.
longer_line_runs :
    changesequence 3 (b'a' ∷ line) ≡ some (ok (b'b' ∷ b';' ∷ b'a' ∷ b'a' ∷ b'|' ∷ b'c' ∷ []))
unfolding changesequence reorder put_before put_sign put_rest commas ahead_to back_to find_marks
    isalnum ◌+ℤ◌ ◌-ℤ◌ strchr
longer_line_runs = refl

-- Of `(a),(b,(c))` the last command is lost: `;a;b`.
nested_line_runs :
    changesequence 3
      (b'(' ∷ b'a' ∷ b')' ∷ b',' ∷ b'(' ∷ b'b' ∷ b',' ∷ b'(' ∷ b'c' ∷ b')' ∷ b')' ∷ [])
    ≡ some (ok (b';' ∷ b'a' ∷ b';' ∷ b'b' ∷ []))
unfolding changesequence reorder put_before put_sign put_rest commas ahead_to back_to find_marks
    isalnum ◌+ℤ◌ ◌-ℤ◌ strchr
nested_line_runs = refl

-- `,(a)` is read in front of the array.
comma_first_faults : changesequence 3 (b',' ∷ b'(' ∷ b'a' ∷ b')' ∷ []) ≡ some fault
unfolding changesequence reorder put_before put_sign put_rest commas ahead_to back_to find_marks
    isalnum ◌+ℤ◌ ◌-ℤ◌ strchr
comma_first_faults = refl

changesequence_ends_example :
    (r : Run Text) × (changesequence (2 * length line + 1) line ≡ some r)
    × Outcome
        (λ t. (strchr t b'(' ≡ false) × (strchr t b',' ≡ false) × (length t ≤ weight line))
        Unit
        r
changesequence_ends_example = changesequence_ends line

abbrev plain_line : Text
plain_line = b'a' ∷ b',' ∷ b'b' ∷ []

-- `c,aa,(b,d) `
abbrev pair_line : Text
pair_line = b'c' ∷ b',' ∷ b'a' ∷ b'a' ∷ b',' ∷ b'(' ∷ b'b' ∷ b',' ∷ b'd' ∷ b')' ∷ b' ' ∷ []

pair_line-IsPair : IsPair pair_line (b'c' ∷ b',' ∷ b'a' ∷ b'a' ∷ []) (b'b' ∷ b',' ∷ b'd' ∷ [])
unfolding strchr isalnum
pair_line-IsPair = record {
  body = b'c' ∷ b',' ∷ b'a' ∷ [];
  gap = b',' ∷ [];
  tail = b' ' ∷ [];
  x = b'a';
  word = refl;
  shape = refl;
  ends_word = refl;
  first = refl;
  between = (refl, tt);
  openless = (refl, refl);
  openless_inside = (refl, refl);
  behind = omega arith;
  fits = omega arith;
}

-- It becomes `b|d;c|aa`.
changesequence_precedence_example :
    changesequence 2 pair_line
    ≡ some (
        ok (
          map
            (λ c. if c == b',' then b'|' else c)
            (((b'b' ∷ b',' ∷ b'd' ∷ []) ++ b';' ∷ []) ++ b'c' ∷ b',' ∷ b'a' ∷ b'a' ∷ [])))
changesequence_precedence_example =
    changesequence_precedence pair_line (b'c' ∷ b',' ∷ b'a' ∷ b'a' ∷ []) (b'b' ∷ b',' ∷ b'd' ∷ [])
      pair_line-IsPair 0
