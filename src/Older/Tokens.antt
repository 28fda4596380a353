-- ===== src/Older/Tokens.antt =====
-- gettoken and peek of CS551P1/main.c are those of CS551P1/CS551P1/main.c on a translated text.
use cs551_assignments.Common.{
  Bool-cases, Text, [], inl, inr, false, refl, ℕ, ◌∷◌, ◌≡◌, ◌∙◌, ap, ◌||◌, Bool,
}
use cs551_assignments.Shell.Lexer.{
  Tok, Token, arg, end, peek, skip_whitespace, strchr, symbol, whitespace, gettoken as new_gettoken,
  token_at as new_token_at, word as new_word,
}
use cs551_assignments.Older.Lexer.{gettoken, symbols, token_at, word}
use cs551_assignments.Older.Translate.{
  translate, translate-symbols, translate-whitespace, translate_char,
}

abbrev pub translate_tok : Tok → Tok
translate_tok end = end
translate_tok (symbol c) = symbol (translate_char c)
translate_tok arg = arg

abbrev pub translate_token : Token → Token
translate_token t = record {
  tok = translate_tok t.tok;
  text = translate t.text;
  rest = translate t.rest;
}

pub skip_whitespace-translate :
    (s : Text) → skip_whitespace (translate s) ≡ translate (skip_whitespace s)
unfolding skip_whitespace
skip_whitespace-translate [] = refl
skip_whitespace-translate (c ∷ s) = elim (Bool-cases (strchr whitespace c)) [
  | inl w ↦ rw (translate-whitespace c, w) (skip_whitespace-translate s)
  | inr n ↦ rw (translate-whitespace c, n) refl
]

pub peek-translate :
    (a b : Text) (s : Text)
    → ((c : ℕ) → strchr a (translate_char c) ≡ strchr b c)
    → peek (translate s) a ≡ peek s b
unfolding peek
peek-translate a b s h = ap (first a) (skip_whitespace-translate s) ∙ go (skip_whitespace s)
  where
    first : Text → Text → Bool
    first toks u = elim u [ [] ↦ false | c ∷ _ ↦ strchr toks c ]

    go : (u : Text) → first a (translate u) ≡ first b u
    go [] = refl
    go (c ∷ u) = h c

pub word-translate :
    (s : Text) → new_word (translate s) ≡ (translate (word s).0, translate (word s).1)
unfolding word new_word
word-translate [] = refl
word-translate (c ∷ s) =
    let w = translate-whitespace c in
    let y = translate-symbols c in
    elim (Bool-cases (strchr whitespace c || strchr symbols c)) [
      | inl p ↦ rw (w, y, p) refl
      | inr n ↦ rw (w, y, n, word-translate s) refl
    ]

pub token_at-translate : (s : Text) → new_token_at (translate s) ≡ translate_token (token_at s)
unfolding token_at new_token_at
token_at-translate [] = refl
token_at-translate (c ∷ s) = elim (Bool-cases (strchr symbols c)) [
  | inl y ↦ rw (translate-symbols c, y, skip_whitespace-translate s) refl
  | inr n ↦ rw (translate-symbols c, n, word-translate (c ∷ s), skip_whitespace-translate) refl
]

pub gettoken-translate : (s : Text) → new_gettoken (translate s) ≡ translate_token (gettoken s)
unfolding gettoken new_gettoken
gettoken-translate s = rw (skip_whitespace-translate s) (token_at-translate (skip_whitespace s))
