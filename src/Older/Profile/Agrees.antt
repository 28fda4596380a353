-- ===== src/Older/Profile/Agrees.antt =====
-- Where getprofile of CS551P1/main.c does what that of CS551P1/CS551P1/main.c does.
use mathlib.Core.List.{append_assoc}
use cs551_assignments.Common.{
  All, ◌<◌, some, sym, List, Text, [], ap, arith, false, ok, refl, strcmp_eq, strncmp_eq, ℕ, ◌++◌,
  ◌+◌, ◌==◌, ◌>>=◌, ◌||◌, ◌∙◌, ◌∷◌, ◌≡◌, ◌≤◌,
}
use cs551_assignments.Shell.Lexer.{strchr}
use cs551_assignments.Shell.Profile.{
  alias_line, before_sign, fgets, lines_of, strstr, terminated, Effect, setenv, chdir, word_alias,
  name_path, name_prompt, name_home, newline, alias_len,
}
use cs551_assignments.Shell.Profile.{getprofile as new_getprofile}
use cs551_assignments.Shell.Profile.Entries.{
  Avoids, Entry, IsEntry, alias, alias_count, file_of, home, line_of, meaning, meanings, path,
  prompt,
}
use cs551_assignments.Shell.Profile.Reads.{alias_in_array, alias_line-setenv}
use cs551_assignments.Shell.Profile.RoundTrip.{counted, getprofile_reads_back, line_of-IsOneLine}
use cs551_assignments.Older.Profile.{
  getprofile, on_alias, on_line, on_variable, read_lines, value_from,
}

-- A value that no later test takes for a name.
abbrev pub IsQuiet : Entry → Type 0
IsQuiet (path v) =
    (strcmp_eq v name_prompt ≡ false)
    × (strcmp_eq v name_home ≡ false)
    × (strstr v word_alias ≡ false)
IsQuiet (prompt v) = (strcmp_eq v name_home ≡ false) × (strstr v word_alias ≡ false)
IsQuiet (home v) = strstr v word_alias ≡ false
IsQuiet (alias key v) = Unit {0}

value_from-append :
    (v : Text) (r : List ℕ)
    → Avoids (0 ∷ newline ∷ []) v
    → value_from (v ++ newline ∷ r) ≡ ok (v, newline ∷ r)
unfolding value_from strchr
value_from-append [] r h = refl
value_from-append (c ∷ v) r h =
    let ne : ((c == 0) || (c == newline)) ≡ false = ground (arith, h.0) in
    rw (ne, value_from-append v r h.1) refl

value_in_array :
    (v : Text) (junk : List ℕ)
    → Avoids (0 ∷ newline ∷ []) v
    → value_from ((v ++ newline ∷ []) ++ 0 ∷ junk) ≡ ok (v, newline ∷ 0 ∷ junk)
value_in_array v junk h =
    ap value_from (append_assoc v (newline ∷ []) (0 ∷ junk)) ∙ value_from-append v (0 ∷ junk) h

-- The tests let the name of an alias pass.
alias_passes :
    (key rest tmp1 : Text) (k : ℕ) (e : Effect)
    → alias_line (terminated tmp1) k ≡ ok e
    → (on_variable name_path
          (λ v. setenv name_path v ∷ [])
          (record { rest = b'=' ∷ rest; tmp2 = word_alias ++ b' ' ∷ key; j = 0; effects = [] })
        >>= λ p1. on_variable name_prompt (λ v. setenv name_prompt v ∷ []) p1 >>= λ p2.
            on_variable name_home (λ v. setenv name_home v ∷ chdir v ∷ []) p2 >>= λ p3.
            on_alias tmp1 k p3)
      ≡ ok (record { effects = e ∷ []; k = k + 1 })
unfolding on_variable on_alias strcmp_eq strstr strncmp_eq
alias_passes key rest tmp1 k e h = rw h refl

alias-on_line :
    (key v : Text) (tmp1 : List ℕ) (k : ℕ)
    → IsEntry (alias key v)
    → k < alias_len
    → on_line (fgets (line_of (alias key v)) tmp1) k
      ≡ ok (record { effects = setenv key v ∷ []; k = k + 1 })
unfolding on_line
alias-on_line key v tmp1 k h l =
    let (rest, e1, e2, e3) = alias_in_array key v tmp1 h in
    rw (e1, e2)
      (alias_passes key rest (fgets (line_of (alias key v)) tmp1) k (setenv key v)
        (ap (λ t. alias_line t k) e3 ∙ alias_line-setenv key v k h l))

entry-on_line :
    (e : Entry) (es : List Entry) (tmp1 : List ℕ) (k : ℕ)
    → IsEntry e
    → IsQuiet e
    → k + alias_count (e ∷ es) ≤ alias_len
    → on_line (fgets (line_of e) tmp1) k ≡ ok (record { effects = meaning e; k = counted e k })
unfolding on_line before_sign terminated on_variable on_alias strcmp_eq
entry-on_line (path v) es tmp1 k h (q1, q2, q3) l = rw (value_in_array v _ h.0, q1, q2, q3) refl
entry-on_line (prompt v) es tmp1 k h (q2, q3) l = rw (value_in_array v _ h.0, q2, q3) refl
entry-on_line (home v) es tmp1 k h q l = rw (value_in_array v _ h.0, q) refl
entry-on_line (alias key v) es tmp1 k h q l = alias-on_line key v tmp1 k h (omega (arith, l))

counted-le :
    (e : Entry) (es : List Entry) (k : ℕ)
    → k + alias_count (e ∷ es) ≤ alias_len
    → counted e k + alias_count es ≤ alias_len
counted-le (path v) es k l = l
counted-le (prompt v) es k l = l
counted-le (home v) es k l = l
counted-le (alias key v) es k l = omega (arith, l)

read_lines-meanings :
    (es : List Entry) (tmp1 : List ℕ) (k : ℕ)
    → All IsEntry es
    → All IsQuiet es
    → k + alias_count es ≤ alias_len
    → read_lines (lines_of 255 (file_of es)) tmp1 k ≡ ok (meanings es)
unfolding read_lines lines_of
read_lines-meanings [] tmp1 k h q l = refl
read_lines-meanings (e ∷ es) tmp1 k (h, hs) (q, qs) l =
    let d = entry-on_line e es tmp1 k h q l in
    let more =
      read_lines-meanings es (fgets (line_of e) tmp1) (counted e k) hs qs (counted-le e es k l) in
    ap (λ ls. read_lines ls tmp1 k) (line_of-IsOneLine e h (file_of es)) ∙ rw (d, more) refl

-- The older getprofile does on a file of entries, as the newer one reads it back, what the newer
-- one does, if no value contains the text alias, no value of PATH is PROMPT or HOME, and no value of
-- PROMPT is HOME.
pub getprofile_agrees :
    (es : List Entry) (tmp1 : List ℕ)
    → All IsEntry es
    → All IsQuiet es
    → alias_count es ≤ alias_len
    → getprofile (some (file_of es)) tmp1 ≡ new_getprofile (some (file_of es)) tmp1
unfolding getprofile
getprofile_agrees es tmp1 h q l =
    read_lines-meanings es tmp1 0 h q (omega (arith, l)) ∙ sym (getprofile_reads_back es tmp1 h l)
