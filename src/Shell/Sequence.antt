-- ===== src/Shell/Sequence.antt =====
-- changesequence of CS551P1/CS551P1/main.c. The arrays `dest` and `ps` hold MAXLEN bytes: a read
-- or write outside is a fault. A text is what stands before the first NUL.
pub mod Weight
pub mod Marked
pub mod Loops
pub mod Lighter
pub mod Ends
pub mod Parts
pub mod Precedence
mod Tests
use cs551_assignments.Shell.Lexer.{strchr}
use cs551_assignments.Common.{
  Bool, Option, Run, Text, [], drop, false, fault, get_elem?, if◌then◌else◌, leb, length, ltb,
  negsuc, none, ok, pos, some, suc, take, true, zero, ℕ, ℤ, ◌%◌, ◌&&◌, ◌++◌, ◌+ℤ◌, ◌+◌, ◌-ℤ◌, ◌-◌,
  ◌==◌, ◌>>=◌, ◌>>◌, ◌^◌, ◌||◌, ◌∷◌,
}
use cs551_assignments.Shell.Parens.{maxlen}

-- isalnum of the C locale
unfoldable pub isalnum : ℕ → Bool
isalnum c = (leb b'0' c && leb c b'9') || ((leb b'A' c && leb c b'Z') || (leb b'a' c && leb c b'z'))

abbrev pub char_of : Option ℕ → ℕ
char_of none = 0
char_of (some c) = c

-- `dest[i]` for an index below MAXLEN
abbrev pub char_at : Text → ℕ → ℕ
char_at d i = char_of (get_elem? d i)

abbrev pub is_zero : ℤ → Bool
is_zero (pos n) = n == 0
is_zero (negsuc n) = false

-- The variables of the first loop.
pub record Marks : Type 0 where
  pub left : ℕ
  pub right : ℕ
  pub times : ℤ
  pub paren : Bool

-- `if(times==0) left=i; times++; paren=1;`
abbrev pub opened : ℕ → Marks → Marks
opened i m = record {
  left = if is_zero m.times then i else m.left;
  right = m.right;
  times = m.times +ℤ pos 1;
  paren = true;
}

-- `times--; if(times==0) { right=i; break; }`
abbrev pub closed : ℕ → Marks → Marks
closed i m = record {
  left = m.left;
  right = if is_zero (m.times -ℤ pos 1) then i else m.right;
  times = m.times -ℤ pos 1;
  paren = m.paren;
}

abbrev pub mark : ℕ → ℕ → Marks → Marks
mark c i m = if c == b'(' then opened i m else if c == b')' then closed i m else m

-- The first loop, from index `i` on.
unfoldable pub find_marks : Text → ℕ → Marks → Marks
find_marks [] i m = m
find_marks (c ∷ s) i m =
    let m' = mark c i m in
    let rest = find_marks s (i + 1) m' in if (c == b')') && is_zero m'.times then m' else rest

-- `strchr(dest,',')` again and again, each comma becoming '|'
unfoldable pub commas : Text → Text
commas [] = []
commas (c ∷ s) = (if c == b',' then b'|' else c) ∷ commas s

-- `while(isalnum(dest[i])==0) i--;`
unfoldable pub back_to : Text → ℕ → Run ℕ
back_to d zero = if isalnum (char_at d 0) then ok 0 else fault
back_to d (suc i) =
    let rest = back_to d i in if isalnum (char_at d (suc i)) then ok (suc i) else rest

-- `while(dest[i]!='$' && isalnum(dest[i])==0) i++;`, with `n` bytes of the array left
unfoldable pub ahead_to : Text → ℕ → ℕ → Run ℕ
ahead_to d zero i = fault
ahead_to d (suc n) i =
    let rest = ahead_to d n (i + 1) in
    if (char_at d i == b'$') || isalnum (char_at d i) then ok i else rest

-- The difference of two ints as a size_t.
abbrev pub size : ℕ → ℕ → ℕ
size a b = (a + 2 ^ 64 - b) % 2 ^ 64

-- `strncat(ps, t, n)`
abbrev pub strncat : Text → Text → ℕ → Run Text
strncat ps t n = let out = ps ++ take n t in if ltb (length out) maxlen then ok out else fault

-- `strncpy(ps, dest+left+1, right-left-1)`: a negative length is a huge one.
abbrev pub inside : Text → Marks → Run Text
inside d m =
    if leb m.right m.left then fault else ok (take (m.right - m.left - 1) (drop (m.left + 1) d))

-- The body of `if(left>0)`, with the sign that it adds: the new `left`, and what is in ps.
unfoldable pub put_before : ℕ → Text → ℕ → Text → Run (ℕ × Text)
put_before sign d left ps = do
  ps1 ← strncat ps (sign ∷ []) 1
  left' ← back_to d left
  leftoffset ← ahead_to d maxlen 0
  ps2 ← strncat ps1 (drop leftoffset d) (size (left' + 1) leftoffset)
  ok (left', ps2)

abbrev pub add_before : ℕ → Text → ℕ → Text → Run (ℕ × Text)
add_before sign d left ps = if ltb 0 left then put_before sign d left ps else ok (left, ps)

-- The body of `if(right<leng-2)` with the sign that it adds, where no semicolon is behind
-- dest[right]
unfoldable pub put_sign : ℕ → Text → ℕ → Text → Run Text
put_sign sign d right ps = do
  ps1 ← strncat ps (sign ∷ []) 1
  right' ← ahead_to d (maxlen - right) right
  rightoffset ← back_to d (length d - 1)
  strncat ps1 (drop right' d) (size (rightoffset + 1) right')

-- and where one is
unfoldable pub put_rest : Text → ℕ → Text → Run Text
put_rest d right ps = do
  rightoffset ← back_to d (length d - 1)
  strncat ps (drop (right + 1) d) (size (rightoffset + 1) right)

abbrev pub add_after : Text → ℕ → ℕ → Text → Run Text
add_after d left right ps =
    if ltb (right + 2) (length d)
    then (if strchr (drop right d) b';'
        then put_rest d right ps
        else put_sign (if ltb 0 left then b'|' else b';') d right ps)
    else ok ps

-- What changesequence does behind its first loop, with `d` in `dest`.
abbrev pub rearrange : Text → Marks → Run Text
rearrange d m = do
  ps ← if m.paren then inside d m else ok d
  before ← add_before b';' d m.left ps
  add_after d before.0 m.right before.1

-- changesequence without its last lines, where it calls itself.
unfoldable pub reorder : Text → Run Text
reorder s =
    let m =
      find_marks s 0 (record { left = 0; right = length s - 1; times = pos 0; paren = false }) in
    if ltb (length s) maxlen then rearrange (if m.paren then s else commas s) m else fault

-- `if(strchr(ps, '(')!=0 || strchr(ps, ',')!=0)`
abbrev pub again : Text → Bool
again t = strchr t b'(' || strchr t b','

abbrev pub changed : Run Text → (Text → Option (Run Text)) → Option (Run Text)
changed fault next = some fault
changed (ok t) next = if again t then next t else some (ok t)

-- changesequence with as many calls as the fuel; `none` is that more are made.
unfoldable pub changesequence : ℕ → Text → Option (Run Text)
changesequence zero s = none
changesequence (suc f) s = changed (reorder s) (changesequence f)
