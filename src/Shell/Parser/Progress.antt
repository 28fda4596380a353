-- ===== src/Shell/Parser/Progress.antt =====
-- How far each part of the parser of CS551P1/CS551P1/main.c moves along the line.
use cs551_assignments.Common.{
  Bool-cases, Text, [], arith, false, inl, inr, length, true, ℕ, ◌<◌, ◌∷◌, ◌≡◌, ◌≢◌, ◌≤◌,
}
use cs551_assignments.Shell.Lexer.{
  arg, gettoken, peek, skip_whitespace, strchr, symbols, token_at, whitespace, word,
}

length-skip_whitespace : (s : Text) → length (skip_whitespace s) ≤ length s
unfolding skip_whitespace
length-skip_whitespace [] = omega arith
length-skip_whitespace (c ∷ s) = ground (arith, length-skip_whitespace s)

-- What is left begins with no whitespace.
abbrev Fresh : Text → Type 0
Fresh [] = Unit {0}
Fresh (c ∷ s) = strchr whitespace c ≡ false

skip_whitespace-Fresh : (s : Text) → Fresh (skip_whitespace s)
unfolding skip_whitespace
skip_whitespace-Fresh [] = tt
skip_whitespace-Fresh (c ∷ s) = elim (Bool-cases (strchr whitespace c)) [
  | inl w ↦ rw w (skip_whitespace-Fresh s)
  | inr n ↦ rw n n
]

length-word : (s : Text) → length (word s).1 ≤ length s
unfolding word
length-word [] = omega arith
length-word (c ∷ s) = ground (arith, length-word s)

length-word_cons :
    (c : ℕ) (s : Text)
    → strchr whitespace c ≡ false
    → strchr symbols c ≡ false
    → length (word (c ∷ s)).1 ≤ length s
unfolding word
length-word_cons c s w y = rw (w, y) (length-word s)

token_at-lt :
    (c : ℕ) (s : Text) → strchr whitespace c ≡ false → length (token_at (c ∷ s)).rest ≤ length s
unfolding token_at
token_at-lt c s w = elim (Bool-cases (strchr symbols c)) [
  | inl y ↦ rw y (length-skip_whitespace s)
  | inr n ↦ rw n (omega (arith, length-word_cons c s w n, length-skip_whitespace (word (c ∷ s)).1))
]

-- A token leaves no more than there was, and less if there was one.
token_at-le : (s : Text) → Fresh s → length (token_at s).rest ≤ length s
unfolding token_at
token_at-le [] h = omega arith
token_at-le (c ∷ s) h = omega (arith, token_at-lt c s h)

pub length-gettoken : (s : Text) → length (gettoken s).rest ≤ length s
unfolding gettoken
length-gettoken s =
    omega
      (arith, token_at-le (skip_whitespace s) (skip_whitespace-Fresh s), length-skip_whitespace s)

peek_gettoken :
    (r s toks : Text)
    → Fresh r
    → length r ≤ length s
    → (elim r [ [] ↦ false | c ∷ _ ↦ strchr toks c ]) ≡ true
    → length (token_at r).rest < length s
peek_gettoken [] s toks h l e = cc
peek_gettoken (c ∷ r) s toks h l e = omega (arith, token_at-lt c r h)

-- Where peek sees a character, gettoken moves on.
pub gettoken-lt : (s toks : Text) → peek s toks ≡ true → length (gettoken s).rest < length s
unfolding peek gettoken
gettoken-lt s toks e =
    peek_gettoken (skip_whitespace s) s toks (skip_whitespace-Fresh s) (length-skip_whitespace s) e

token_at_nil : (token_at []).tok ≢ arg
unfolding token_at
token_at_nil e = cc

arg_gettoken :
    (r s : Text)
    → Fresh r
    → length r ≤ length s
    → (token_at r).tok ≡ arg
    → length (token_at r).rest < length s
arg_gettoken [] s h l e = absurd (token_at_nil e)
arg_gettoken (c ∷ r) s h l e = omega (arith, token_at-lt c r h)

-- So it does where it finds a word.
pub gettoken_arg-lt : (s : Text) → (gettoken s).tok ≡ arg → length (gettoken s).rest < length s
unfolding gettoken
gettoken_arg-lt s e =
    arg_gettoken (skip_whitespace s) s (skip_whitespace-Fresh s) (length-skip_whitespace s) e

pub skip-le : (s : Text) → length (skip_whitespace s) ≤ length s
skip-le s = length-skip_whitespace s
