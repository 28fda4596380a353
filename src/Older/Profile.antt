-- ===== src/Older/Profile.antt =====
-- getprofile of CS551P1/main.c. The loops and the branch of an alias are the same text as in the
-- newer shell and are taken from its model; but each test of the name comes after the branches
-- before it, which have put a value in tmp2 and moved i and j.
pub mod Agrees
use cs551_assignments.Common.{
  List, Option, Run, Text, [], drop, fault, if◌then◌else◌, length, none, ok, some, strcmp_eq, take,
  ℕ, ◌++◌, ◌+◌, ◌==◌, ◌>>=◌, ◌>>◌, ◌||◌, ◌∷◌,
}
use cs551_assignments.Shell.Profile.{
  Done, Effect, alias_line, before_sign, chdir, dir_group, dir_root, fgets, lines_of, name_home,
  name_path, name_prompt, newline, setenv, strstr, terminated, word_alias,
}

-- `while(tmp1[i]!='\0'&&tmp1[i]!='\n') { tmp2[j]=tmp1[i]; j++; i++; }`: the bytes copied, and those
-- from tmp1[i] on.
unfoldable pub value_from : List ℕ → Run (Text × List ℕ)
value_from [] = fault
value_from (c ∷ a) =
    let rest = value_from a in
    if (c == 0) || (c == newline) then ok ([], c ∷ a) else (do r ← rest; ok (c ∷ r.0, r.1))

-- The bytes of tmp1 from `i` on, the string in tmp2, `j`, and what the line has done so far.
pub record At : Type 0 where
  pub rest : List ℕ
  pub tmp2 : Text
  pub j : ℕ
  pub effects : List Effect

-- The branch of a variable: `j` is not above `i`, so that tmp2 has room.
unfoldable pub on_variable : Text → (Text → List Effect) → At → Run At
on_variable name calls p =
    if strcmp_eq p.tmp2 name
    then (do
      r ← value_from (drop 1 p.rest)
      ok (record {
        rest = r.1;
        tmp2 = take p.j p.tmp2 ++ r.0;
        j = p.j + length r.0;
        effects = p.effects ++ calls (take p.j p.tmp2 ++ r.0);
      }))
    else ok p

unfoldable pub on_alias : List ℕ → ℕ → At → Run Done
on_alias tmp1 k p =
    if strstr p.tmp2 word_alias
    then (do
      e ← alias_line (terminated tmp1) k
      ok (record { effects = p.effects ++ e ∷ []; k = k + 1 }))
    else ok (record { effects = p.effects; k = k })

unfoldable pub on_line : List ℕ → ℕ → Run Done
on_line tmp1 k = do
  r ← before_sign tmp1
  p1 ←
      on_variable name_path (λ v. setenv name_path v ∷ [])
        (record { rest = b'=' ∷ r.1; tmp2 = terminated r.0; j = 0; effects = [] })
  p2 ← on_variable name_prompt (λ v. setenv name_prompt v ∷ []) p1
  p3 ← on_variable name_home (λ v. setenv name_home v ∷ chdir v ∷ []) p2
  on_alias tmp1 k p3

unfoldable pub read_lines : List Text → List ℕ → ℕ → Run (List Effect)
read_lines [] tmp1 k = ok []
read_lines (l ∷ ls) tmp1 k = do
  done ← on_line (fgets l tmp1) k
  more ← read_lines ls (fgets l tmp1) done.k
  ok (done.effects ++ more)

unfoldable pub getprofile : Option Text → List ℕ → Run (List Effect)
getprofile none tmp1 = ok (setenv name_home dir_root ∷ chdir dir_group ∷ [])
getprofile (some file) tmp1 = read_lines (lines_of 255 file) tmp1 0
