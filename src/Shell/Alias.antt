-- ===== src/Shell/Alias.antt =====
-- convertalias of CS551P1/CS551P1/main.c. getenv is a parameter.
pub mod Blank
use cs551_assignments.Common.{
  Bool, List, Option, Text, [], false, if◌then◌else◌, length, ltb, none, some, suc, true, zero, ℕ,
  ◌++◌, ◌==◌, ◌∷◌,
}
use cs551_assignments.Shell.Lexer.{strchr, whitespace}
use cs551_assignments.Shell.Parens.{maxlen}

abbrev add_token : Text → List Text → List Text
add_token [] ws = ws
add_token (c ∷ w) ws = (c ∷ w) ∷ ws

-- What stands in front of the first delimiter, and the tokens behind it.
unfoldable pub split_at : ℕ → Text → Text × List Text
split_at d [] = ([], [])
split_at d (c ∷ s) =
    let r = split_at d s in if c == d then ([], add_token r.0 r.1) else (c ∷ r.0, r.1)

-- What strtok_r returns again and again, until it is NULL, for one delimiter.
abbrev pub tokens_at : ℕ → Text → List Text
tokens_at d s = add_token (split_at d s).0 (split_at d s).1

abbrev trimmed : ℕ → Text → Text
trimmed c [] = if strchr whitespace c then [] else c ∷ []
trimmed c (x ∷ s) = c ∷ x ∷ s

-- `while(strchr(" \t\r\n\v", pch[strlen(pch)-1])) pch[strlen(pch)-1]='\0';`, until nothing is left
unfoldable pub trim : Text → Text
trim [] = []
trim (c ∷ s) = trimmed c (trim s)

-- `if(pch[strlen(pch)-1]==',') { pch[strlen(pch)-1]='\0'; slash=1; }`
unfoldable pub cut_comma : Text → Text × Bool
cut_comma [] = ([], false)
cut_comma (c ∷ []) = if c == b',' then ([], true) else (c ∷ [], false)
cut_comma (c ∷ x ∷ s) = let r = cut_comma (x ∷ s) in (c ∷ r.0, r.1)

-- The byte in front of a token: outside ps; a dollar sign that strtok_r has passed over; a space, or
-- the NUL that strtok_r has put there.
pub data Front : Type 0 where
  outside dollar cleared : Front

-- A delimiter behind a token becomes a NUL, and one behind a delimiter stays.
abbrev front_behind : Bool → Front
front_behind true = cleared
front_behind false = dollar

abbrev add_part : Front → Text → List (Front × Text) → List (Front × Text)
add_part f [] ps = ps
add_part f (c ∷ w) ps = (f, c ∷ w) ∷ ps

-- As `split_at` of the dollar sign, where a token has begun or not, with what is in front of the
-- tokens behind.
unfoldable pub split_parts : Bool → Text → Text × List (Front × Text)
split_parts begun [] = ([], [])
split_parts begun (c ∷ s) = elim (c == b'$') [
  | true ↦ let r = split_parts false s in ([], add_part (front_behind begun) r.0 r.1)
  | false ↦ let r = split_parts true s in (c ∷ r.0, r.1)
]

-- What the outer strtok_r returns.
abbrev pub parts : Text → List (Front × Text)
parts ps = add_part outside (split_parts false ps).0 (split_parts false ps).1

-- What is in front of the first word of a part.
abbrev pub first_front : Front → Text → Front
first_front f [] = f
first_front f (c ∷ s) = if c == b' ' then cleared else f

-- The ends of convertalias: exit(0) for an alias that is nested too deep, what C leaves undefined,
-- and a loop that does not end.
pub data Converted : Type 0 where
  converted : Text → Converted
  exits faults loops : Converted

module _ (getenv : Text → Option Text) where
  -- `while((penv=getenv(pch))!=NULL) { if(repeated>2) exit(0); pch = penv; repeated++; }`, with `n`
  -- turns left
  unfoldable pub expand : ℕ → Text → Option Text
  expand zero w = elim (getenv w) [ none ↦ some w | some v ↦ none ]
  expand (suc n) w = elim (getenv w) [ none ↦ some w | some v ↦ expand n v ]

  -- `strncat(dest, pch, strlen(pch)); strcat(dest, " "); if(slash) strcat(dest, ",");`
  abbrev pub add_word : Text → Option Text → Bool → Converted
  add_word dest none slash = exits
  add_word dest (some w) slash =
      let out = dest ++ w ++ b' ' ∷ (if slash then b',' ∷ [] else []) in
      if ltb (length out) maxlen then converted out else faults

  -- When nothing is left of a token, `pch[strlen(pch)-1]` is the byte in front of it. Behind a space
  -- or a NUL the trimming does not end: strchr finds the NUL that is put there. It ends at a dollar
  -- sign, with an empty word.
  abbrev pub convert_blank : Front → Text → Converted
  convert_blank outside dest = faults
  convert_blank cleared dest = loops
  convert_blank dollar dest = add_word dest (expand 3 []) false

  -- The body of the inner loop.
  unfoldable pub convert_token : Front → Text → Text → Converted
  convert_token f w dest = elim (trim w) [
    | [] ↦ convert_blank f dest
    | c ∷ s ↦ add_word dest (expand 3 (cut_comma (c ∷ s)).0) (cut_comma (c ∷ s)).1
  ]

  abbrev pub and_then : Converted → (Text → Converted) → Converted
  and_then (converted t) next = next t
  and_then exits next = exits
  and_then faults next = faults
  and_then loops next = loops

  unfoldable pub convert_tokens : Front → List Text → Text → Converted
  convert_tokens f [] dest = converted dest
  convert_tokens f (w ∷ ws) dest = and_then (convert_token f w dest) (convert_tokens cleared ws)

  -- The outer loop takes the parts between dollar signs, the inner one their words.
  unfoldable pub convert_parts : List (Front × Text) → Text → Converted
  convert_parts [] dest = converted dest
  convert_parts ((f, p) ∷ ps) dest =
      and_then (convert_tokens (first_front f p) (tokens_at b' ' p) dest) (convert_parts ps)

  unfoldable pub convertalias : Text → Converted
  convertalias ps = convert_parts (parts ps) []
