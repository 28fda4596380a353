-- ===== src/Shell/Lexer.antt =====
-- gettoken and peek of CS551P1/CS551P1/main.c. The pointer `*ps` into the line is the text from it
-- to the end `es`; reading `*es` gives the NUL.
use cs551_assignments.Common.{Bool, Text, [], false, if◌then◌else◌, ℕ, ◌==◌, ◌||◌, ◌∷◌}

-- `strchr(set, c)` for a character that is not NUL.
unfoldable pub strchr : Text → ℕ → Bool
strchr [] c = false
strchr (x ∷ xs) c = (x == c) || strchr xs c

abbrev pub whitespace : Text
whitespace = b' ' ∷ 9 ∷ 13 ∷ 10 ∷ 11 ∷ []

abbrev pub symbols : Text
symbols = b'<' ∷ b'>' ∷ b'&' ∷ b'|' ∷ b';' ∷ []

-- `while(s < es && strchr(whitespace, *s)) s++;`
unfoldable pub skip_whitespace : Text → Text
skip_whitespace [] = []
skip_whitespace (c ∷ s) = if strchr whitespace c then skip_whitespace s else c ∷ s

-- `while(s < es && !strchr(whitespace, *s) && !strchr(symbols, *s)) s++;`: what it passes over,
-- and where it ends.
unfoldable pub word : Text → Text × Text
word [] = ([], [])
word (c ∷ s) =
    let (w, rest) = word s in
    if strchr whitespace c || strchr symbols c then ([], c ∷ s) else (c ∷ w, rest)

-- The value that gettoken returns: 0 at the end, a symbol, or 'a' for a word.
pub data Tok : Type 0 where
  end : Tok
  symbol : ℕ → Tok
  arg : Tok

-- Its results: the token, the text between `*q` and `*eq`, and the new `*ps`.
pub record Token : Type 0 where
  pub tok : Tok
  pub text : Text
  pub rest : Text

unfoldable pub token_at : Text → Token
token_at [] = record { tok = end; text = []; rest = [] }
token_at (c ∷ s) =
    if strchr symbols c
    then record { tok = symbol c; text = c ∷ []; rest = skip_whitespace s }
    else record { tok = arg; text = (word (c ∷ s)).0; rest = skip_whitespace (word (c ∷ s)).1 }

unfoldable pub gettoken : Text → Token
gettoken s = token_at (skip_whitespace s)

-- The answer of peek. It also moves `*ps` to `skip_whitespace s`.
unfoldable pub peek : Text → Text → Bool
peek s toks = elim (skip_whitespace s) [ [] ↦ false | c ∷ _ ↦ strchr toks c ]
