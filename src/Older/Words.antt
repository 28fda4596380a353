-- ===== src/Older/Words.antt =====
-- The words and redirections of a translated line in CS551P1/CS551P1/main.c are those of the line
-- in CS551P1/main.c.
use cs551_assignments.Common.{
  Bool-cases, List, Text, [], inl, inr, leb, map, refl, suc, zero, ℕ, ◌++◌, ◌+◌, ◌∷◌, ◌≡◌, ap,
}
use cs551_assignments.Shell.Lexer.{Tok, Token, arg, end, peek, symbol}
use cs551_assignments.Shell.Parser.{
  Parse, ParseError, Redir, Simple, bind, exits, is_arg, leftovers, missing_file, on_token,
  out_of_fuel, parsed, redir_of, syntax_error, too_many_args, after_word as new_after_word,
  parseredirs as new_parseredirs, parsewords as new_parsewords,
}
use cs551_assignments.Older.Lexer.{gettoken}
use cs551_assignments.Older.Parser.{after_word, max_args, parseredirs, parsewords, stop_set}
use cs551_assignments.Older.Tokens.{
  translate_tok, translate_token, skip_whitespace-translate, peek-translate, gettoken-translate,
}
use cs551_assignments.Older.Translate.{
  translate, translate-redirections, translate-stop_set, translate_char,
}

abbrev pub translate_error : ParseError → ParseError
translate_error missing_file = missing_file
translate_error syntax_error = syntax_error
translate_error too_many_args = too_many_args
translate_error (leftovers t) = leftovers (translate t)

-- The result of the newer parser for a result of the older one.
abbrev pub translate_parse : {A B : Type 0} → (A → B) → Parse A → Parse B
translate_parse f (parsed a rest) = parsed (f a) (translate rest)
translate_parse f (exits e) = exits (translate_error e)
translate_parse f out_of_fuel = out_of_fuel

pub translate_parse-bind :
    {A A' B B' : Type 0} (f : A → A') (g : B → B') (r : Parse A) {r' : Parse A'}
    (k : A → Text → Parse B) (k' : A' → Text → Parse B')
    → r' ≡ translate_parse f r
    → ((a : A) (rest : Text) → k' (f a) (translate rest) ≡ translate_parse g (k a rest))
    → bind r' k' ≡ translate_parse g (bind r k)
translate_parse-bind f g (parsed a rest) k k' e h = rw e (h a rest)
translate_parse-bind f g (exits x) k k' e h = rw e refl
translate_parse-bind f g out_of_fuel k k' e h = rw e refl

is_arg-translate : (k : Tok) → is_arg (translate_tok k) ≡ is_arg k
is_arg-translate end = refl
is_arg-translate (symbol c) = refl
is_arg-translate arg = refl

abbrev translate_redir : Redir → Redir
translate_redir (file, t) = (translate file, translate_char t)

abbrev pub translate_redirs : List Redir → List Redir
translate_redirs = map translate_redir

pub map-append :
    (rs rs' : List Redir)
    → translate_redirs rs ++ translate_redirs rs' ≡ translate_redirs (rs ++ rs')
map-append [] rs' = refl
map-append (r ∷ rs) rs' = ap (λ x. translate_redir r ∷ x) (map-append rs rs')

redir_of-translate :
    (k : Tok) (file : Text)
    → redir_of (translate_tok k) (translate file) ≡ translate_redirs (redir_of k file)
unfolding redir_of
redir_of-translate end file = refl
redir_of-translate (symbol c) file = refl
redir_of-translate arg file = refl

pub parseredirs-translate :
    (f : ℕ) (s : Text)
    → new_parseredirs f (translate s) ≡ translate_parse translate_redirs (parseredirs f s)
unfolding parseredirs new_parseredirs
parseredirs-translate zero s = refl
parseredirs-translate (suc f) s =
    let t = gettoken s in
    let a = gettoken t.rest in
    rw
      (gettoken-translate s, gettoken-translate t.rest, peek-translate _ _ s translate-redirections)
      (elim (Bool-cases (peek s (b'<' ∷ b'>' ∷ []))) [
        | inl p ↦ elim (Bool-cases (is_arg a.tok)) [
          | inl q ↦
              rw (p, is_arg-translate a.tok, q)
                (translate_parse-bind translate_redirs translate_redirs (parseredirs f a.rest) _ _
                  (parseredirs-translate f a.rest)
                  (λ rs rest. rw (redir_of-translate t.tok a.text, map-append) refl))
          | inr n ↦ rw (p, is_arg-translate a.tok, n) refl
        ]
        | inr n ↦ rw (n, skip_whitespace-translate s) refl
      ])

abbrev pub translate_simple : Simple → Simple
translate_simple c = record { argv = map translate c.argv; redirs = translate_redirs c.redirs }

after_word-translate :
    (loop loop' : Text → Parse Simple) (f argc : ℕ) (t : Token)
    → ((rest : Text) → loop' (translate rest) ≡ translate_parse translate_simple (loop rest))
    → new_after_word loop' f argc (translate_token t)
      ≡ translate_parse translate_simple (after_word loop f argc t)
unfolding after_word new_after_word
after_word-translate loop loop' f argc t h = elim (Bool-cases (leb max_args (argc + 1))) [
  | inl full ↦ rw full refl
  | inr room ↦ rw room (
      translate_parse-bind translate_redirs translate_simple (parseredirs f t.rest) _ _
        (parseredirs-translate f t.rest)
        λ rs rest.
          translate_parse-bind translate_simple translate_simple (loop rest) _ _ (h rest)
            (λ c rest'. rw (map-append rs c.redirs) refl))
]

on_token-translate :
    (k : Tok) (rest : Text) (more more' : Parse Simple)
    → more' ≡ translate_parse translate_simple more
    → on_token (translate_tok k) (translate rest) more'
      ≡ translate_parse translate_simple (on_token k rest more)
unfolding on_token
on_token-translate end rest more more' h = refl
on_token-translate (symbol c) rest more more' h = refl
on_token-translate arg rest more more' h = h

pub parsewords-translate :
    (f argc : ℕ) (s : Text)
    → new_parsewords f argc (translate s) ≡ translate_parse translate_simple (parsewords f argc s)
unfolding parsewords new_parsewords
parsewords-translate zero argc s = refl
parsewords-translate (suc f) argc s =
    rw (gettoken-translate, peek-translate _ _ s translate-stop_set)
      (elim (Bool-cases (peek s stop_set)) [
        | inl p ↦ rw (p, skip_whitespace-translate s) refl
        | inr n ↦ rw n (
            on_token-translate (gettoken s).tok (gettoken s).rest _ _ (
              after_word-translate (parsewords f (argc + 1)) (new_parsewords f (argc + 1)) f argc
                (gettoken s) (parsewords-translate f (argc + 1))))
      ])
