-- ===== src/Shell/Profile.antt =====
-- getprofile of CS551P1/CS551P1/main.c: from the bytes of the file PROFILE to the calls that it
-- makes of setenv and chdir.
pub mod Entries
pub mod Reads
pub mod RoundTrip
mod Tests
use cs551_assignments.Common.{
  Bool, List, Option, Run, Text, [], drop, fault, if◌then◌else◌, in_range, length, ltb, none, ok,
  some, strcmp_eq, strncmp_eq, ℕ, ◌&&◌, ◌++◌, ◌+◌, ◌-◌, ◌==◌, ◌>>=◌, ◌>>◌, ◌||◌, ◌∷◌,
}
use cs551_assignments.Shell.Lexer.{strchr}

-- ALIASLEN
abbrev pub alias_len : ℕ
alias_len = 32

abbrev pub newline : ℕ
newline = 10

pub data Effect : Type 0 where
  setenv : (name value : Text) → Effect
  chdir : (dir : Text) → Effect

abbrev pub name_path : Text
name_path = b'P' ∷ b'A' ∷ b'T' ∷ b'H' ∷ []

abbrev pub name_prompt : Text
name_prompt = b'P' ∷ b'R' ∷ b'O' ∷ b'M' ∷ b'P' ∷ b'T' ∷ []

abbrev pub name_home : Text
name_home = b'H' ∷ b'O' ∷ b'M' ∷ b'E' ∷ []

abbrev pub word_alias : Text
word_alias = b'a' ∷ b'l' ∷ b'i' ∷ b'a' ∷ b's' ∷ []

abbrev begin_with : ℕ → List Text → List Text
begin_with c [] = (c ∷ []) ∷ []
begin_with c (l ∷ ls) = (c ∷ l) ∷ ls

-- What `fgets(tmp1, 256, file)` reads until it returns NULL: each line with its newline, but no more
-- than 255 bytes at once. `room` of them are left for the first one.
unfoldable pub lines_of : ℕ → Text → List Text
lines_of room [] = []
lines_of room (c ∷ s) =
    let ends = (c == newline) || (room == 1) in
    let next = lines_of (if ends then 255 else room - 1) s in
    if ends then (c ∷ []) ∷ next else begin_with c next

-- The array behind fgets: the line, a NUL, and what stood there before.
abbrev pub fgets : Text → List ℕ → List ℕ
fgets l tmp1 = l ++ 0 ∷ drop (length l + 1) tmp1

-- `while(tmp1[i]!='=') { tmp2[i]=tmp1[i]; i++; }`: the bytes copied, and those behind the sign.
unfoldable pub before_sign : List ℕ → Run (Text × List ℕ)
before_sign [] = fault
before_sign (c ∷ a) =
    let rest = before_sign a in if c == b'=' then ok ([], a) else (do r ← rest; ok (c ∷ r.0, r.1))

-- `while(tmp1[i]!='\0'&&tmp1[i]!='\n') { tmp2[j]=tmp1[i]; j++; i++; }`
unfoldable pub until_end : List ℕ → Run Text
until_end [] = fault
until_end (c ∷ a) =
    let rest = until_end a in
    if (c == 0) || (c == newline) then ok [] else (do v ← rest; ok (c ∷ v))

-- The string in an array, up to the first NUL.
unfoldable pub terminated : List ℕ → Text
terminated [] = []
terminated (c ∷ a) = let rest = terminated a in if c == 0 then [] else c ∷ rest

-- `strstr(s, t) != 0`
unfoldable pub strstr : Text → Text → Bool
strstr [] t = strncmp_eq (length t) [] t
strstr (c ∷ s) t = strncmp_eq (length t) (c ∷ s) t || strstr s t

unfoldable pub skip_delimiters : Text → Text → Text
skip_delimiters d [] = []
skip_delimiters d (c ∷ s) = let rest = skip_delimiters d s in if strchr d c then rest else c ∷ s

-- A token, and what stands behind the delimiter that ends it.
unfoldable pub cut_token : Text → Text → Text × Text
cut_token d [] = ([], [])
cut_token d (c ∷ s) = let r = cut_token d s in if strchr d c then ([], s) else (c ∷ r.0, r.1)

abbrev token_in : Text → Text → Option (Text × Text)
token_in d [] = none
token_in d (c ∷ s) = some (cut_token d (c ∷ s))

-- strtok: none is NULL
abbrev pub strtok : Text → Text → Option (Text × Text)
strtok d s = token_in d (skip_delimiters d s)

abbrev pub fits : Text → Bool
fits t = ltb (length t) alias_len

-- The branch of an alias, as the entry `k` of the array: strlen of NULL is a fault, and so is a
-- string that its array in the entry has no room for.
unfoldable pub alias_line : Text → ℕ → Run Effect
alias_line tmp2 k = do
  first ← in_range (strtok (b' ' ∷ b'"' ∷ b'=' ∷ []) tmp2)
  key ← in_range (strtok (b' ' ∷ b'"' ∷ b'=' ∷ []) first.1)
  value ← in_range (strtok (b'"' ∷ b'=' ∷ []) key.1)
  if ltb k alias_len && (fits key.0 && fits value.0) then ok (setenv key.0 value.0) else fault

-- What a line does, and the number of aliases behind it.
pub record Done : Type 0 where
  pub effects : List Effect
  pub k : ℕ

-- The branches on the name: `rest` is what stands behind the sign in `tmp1`.
unfoldable pub on_name : Text → List ℕ → List ℕ → ℕ → Run Done
on_name name rest tmp1 k =
    if strcmp_eq name name_path
    then (do v ← until_end rest; ok (record { effects = setenv name_path v ∷ []; k = k }))
    else if strcmp_eq name name_prompt
    then (do v ← until_end rest; ok (record { effects = setenv name_prompt v ∷ []; k = k }))
    else if strcmp_eq name name_home
    then (do v ← until_end rest; ok (record { effects = setenv name_home v ∷ chdir v ∷ []; k = k }))
    else if strstr name word_alias
    then (do e ← alias_line (terminated tmp1) k; ok (record { effects = e ∷ []; k = k + 1 }))
    else ok (record { effects = []; k = k })

unfoldable pub on_line : List ℕ → ℕ → Run Done
on_line tmp1 k = do r ← before_sign tmp1; on_name (terminated r.0) r.1 tmp1 k

-- The loop over the lines, with what stands in tmp1 and the number of aliases.
unfoldable pub read_lines : List Text → List ℕ → ℕ → Run (List Effect)
read_lines [] tmp1 k = ok []
read_lines (l ∷ ls) tmp1 k = do
  done ← on_line (fgets l tmp1) k
  more ← read_lines ls (fgets l tmp1) done.k
  ok (done.effects ++ more)

abbrev pub dir_root : Text
dir_root = b'/' ∷ b'r' ∷ b'o' ∷ b'o' ∷ b't' ∷ []

abbrev pub dir_group : Text
dir_group = dir_root ++ b'/' ∷ b'G' ∷ b'r' ∷ b'o' ∷ b'u' ∷ b'p' ∷ b'1' ∷ b'5' ∷ []

-- getprofile, on the file that fopen opens, if there is one. tmp1 holds any bytes at first.
unfoldable pub getprofile : Option Text → List ℕ → Run (List Effect)
getprofile none tmp1 = ok (setenv name_home dir_root ∷ chdir dir_group ∷ [])
getprofile (some file) tmp1 = read_lines (lines_of 255 file) tmp1 0
