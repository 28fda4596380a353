-- ===== src/Older/Lexer.antt =====
-- gettoken of CS551P1/main.c. The white space, the loop over it, and peek are the same text as in
-- the newer shell and are taken from its model.
use cs551_assignments.Common.{Text, [], if◌then◌else◌, ◌||◌, ◌∷◌}
use cs551_assignments.Shell.Lexer.{Token, arg, end, skip_whitespace, strchr, symbol, whitespace}

abbrev pub symbols : Text
symbols = b'<' ∷ b'>' ∷ b'&' ∷ b',' ∷ []

-- `while(s < es && !strchr(whitespace, *s) && !strchr(symbols, *s)) s++;`
unfoldable pub word : Text → Text × Text
word [] = ([], [])
word (c ∷ s) =
    let (w, rest) = word s in
    if strchr whitespace c || strchr symbols c then ([], c ∷ s) else (c ∷ w, rest)

unfoldable pub token_at : Text → Token
token_at [] = record { tok = end; text = []; rest = [] }
token_at (c ∷ s) =
    if strchr symbols c
    then record { tok = symbol c; text = c ∷ []; rest = skip_whitespace s }
    else record { tok = arg; text = (word (c ∷ s)).0; rest = skip_whitespace (word (c ∷ s)).1 }

unfoldable pub gettoken : Text → Token
gettoken s = token_at (skip_whitespace s)
