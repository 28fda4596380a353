-- ===== src/Older/Session.antt =====
-- The loop of main in CS551P1/main.c, whose text but for the child is that of the newer shell, with
-- the function getcmd; and the two shells on the same line.
pub mod Agrees
mod Tests
use cs551_assignments.Common.{
  some, List, Option, Text, [], ap, arith, false, if◌then◌else◌, length, map, refl, suc, sym, ℕ,
  ◌*◌, ◌+◌, ◌<◌, ◌==◌, ◌∙◌, ◌∷◌, ◌≡◌, ◌≤◌,
}
use cs551_assignments.Shell.Lexer.{strchr}
use cs551_assignments.Shell.Parens.{maxlen}
use cs551_assignments.Shell.Balance.{validateparenthes-iff-Balanced}
use cs551_assignments.Shell.Alias.{convertalias, converted}
use cs551_assignments.Shell.Run.{run_line as new_run_line}
use cs551_assignments.Shell.Main.{runs, child as new_child}
use cs551_assignments.Shell.Main.Lines.{child_runs, plain-Balanced}
use cs551_assignments.Shell.Session.{Ending, Host, main_loop}
use cs551_assignments.Shell.Session.Ends.{IsEnd, Leaves, loop_ends, turns_for}
use cs551_assignments.Older.Main.{child, older_child_ends, rewritten}
use cs551_assignments.Older.Run.{run_line}
use cs551_assignments.Older.Words.{translate_parse}
use cs551_assignments.Older.Sequence.{linearize}
use cs551_assignments.Older.Translate.{translate, translate_char}
use cs551_assignments.Older.Calls.{rename, run_line-translate}

unfoldable pub older_loop {ℓ} :
    {Dir : Type ℓ} → (Text → Option Text) → Host Dir → ℕ → Dir → List Text → Option (Ending Dir)
older_loop getenv h n cwd tty = main_loop (child getenv) h n cwd tty

-- A text without the signs that only the newer shell has becomes the same in both ways.
translate-commas :
    (t : Text)
    → strchr t b'|' ≡ false
    → strchr t b';' ≡ false
    → translate t ≡ map (λ c. if c == b',' then b'|' else c) t
unfolding translate_char strchr
translate-commas [] p q = refl
translate-commas (c ∷ t) p q = ground (arith, translate-commas t)

-- A line of at most 256 characters without parentheses, which convertalias makes a text of less than
-- 256 that has none of the signs ( | ; : the child of the newer shell runs what that of the
-- older one runs, with the words and file names translated.
pub children_agree :
    (getenv : Text → Option Text) (buf t : Text)
    → strchr buf b'(' ≡ false
    → strchr buf b')' ≡ false
    → length buf ≤ maxlen
    → convertalias getenv buf ≡ converted t
    → strchr t b'(' ≡ false
    → length t < maxlen
    → strchr t b'|' ≡ false
    → strchr t b';' ≡ false
    → (child getenv buf ≡ runs (run_line t))
      × (new_child getenv buf ≡ runs (translate_parse (rename translate) (run_line t)))
unfolding child linearize
children_agree getenv buf t h h' l e n l' p q =
    let valid = (validateparenthes-iff-Balanced buf l).1 (plain-Balanced buf h h') in
    let fuel : 2 * length t + 1 ≡ suc (2 * length t) = omega arith in
    (
      rw (valid, e, fuel, n) refl,
      child_runs getenv buf t h h' l e n l'
          ∙ ap runs (ap new_run_line (sym (translate-commas t p q)) ∙ run_line-translate t),
    )

-- The loop of the older shell comes to the same ends.
pub older_loop_ends {ℓ} :
    {Dir : Type ℓ} (getenv : Text → Option Text) (h : Host Dir)
    → Leaves (child getenv) h
    → (cwd : Dir) (tty : List Text)
    → (r : Ending Dir) × (older_loop getenv h (turns_for tty) cwd tty ≡ some r)
      × IsEnd (child getenv) r
unfolding older_loop
older_loop_ends getenv h leaves cwd tty =
    loop_ends (child getenv) h rewritten getenv (older_child_ends getenv) leaves cwd tty
