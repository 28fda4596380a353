-- ===== src/Older/Same.antt =====
-- The parser of CS551P1/main.c is that of CS551P1/CS551P1/main.c on a translated line.
use cs551_assignments.Common.{
  length-map, ◌≢◌, Bool-cases, List, Text, [], arith, inl, inr, false, length, refl, suc, zero, ℕ,
  ◌+◌, ◌∷◌, ◌≡◌, ◌∙◌, ap,
}
use cs551_assignments.Shell.Lexer.{peek, skip_whitespace, strchr, whitespace}
use cs551_assignments.Shell.Parser.{
  Parse, Redir, bind, exits, leftovers, out_of_fuel, parsed, Cmd as NewCmd,
  parsebacks as new_parsebacks, parsecmd as new_parsecmd, parseexec as new_parseexec,
  parseline as new_parseline, parsepipe as new_parsepipe, redircmd as new_redircmd,
  wrap as new_wrap,
}
use cs551_assignments.Shell.Parser.Total.{parsecmd-ne-out_of_fuel}
use cs551_assignments.Older.Lexer.{gettoken}
use cs551_assignments.Older.Parser.{
  Cmd, fuel_for, parsebacks, parsecmd, parseexec, parseline, parsepipe, parseredirs, parsewords,
  redircmd, wrap, execcmd, backcmd,
}
use cs551_assignments.Older.Tokens.{skip_whitespace-translate, peek-translate, gettoken-translate}
use cs551_assignments.Older.Translate.{
  embed, translate, translate-background, translate-input, translate-list, translate-pipe,
  translate_char,
}
use cs551_assignments.Older.Words.{
  map-append, parseredirs-translate, parsewords-translate, translate_parse, translate_parse-bind,
  translate_redirs, translate_simple,
}

redircmd-embed :
    (c : Cmd) (file : Text) (t : ℕ)
    → new_redircmd (embed translate c) (translate file) (translate_char t)
      ≡ embed translate (redircmd c file t)
unfolding redircmd new_redircmd
redircmd-embed c file t = rw (translate-input t) refl

wrap-embed :
    (c : Cmd) (rs : List Redir)
    → new_wrap (embed translate c) (translate_redirs rs) ≡ embed translate (wrap c rs)
unfolding wrap new_wrap
wrap-embed c [] = refl
wrap-embed c ((file, t) ∷ rs) =
    ap (λ x. new_wrap x (translate_redirs rs)) (redircmd-embed c file t)
    ∙ wrap-embed (redircmd c file t) rs

-- The newer parser gives the command of the older one, with its words translated.
abbrev IsSame : Parse NewCmd → Parse Cmd → Type 0
IsSame r r' = r ≡ translate_parse (embed translate) r'

parseexec-translate : (f : ℕ) (s : Text) → IsSame (new_parseexec f (translate s)) (parseexec f s)
unfolding parseexec new_parseexec
parseexec-translate f s =
    translate_parse-bind translate_redirs (embed translate) (parseredirs f s) _ _
      (parseredirs-translate f s)
      λ rs rest.
        translate_parse-bind translate_simple (embed translate) (parsewords f 0 rest) _ _
          (parsewords-translate f 0 rest)
          (λ c rest'. rw (map-append rs c.redirs, wrap-embed (execcmd c.argv) _) refl)

parsepipe-translate : (f : ℕ) (s : Text) → IsSame (new_parsepipe f (translate s)) (parsepipe f s)
unfolding parsepipe new_parsepipe
parsepipe-translate zero s = refl
parsepipe-translate (suc f) s =
    translate_parse-bind (embed translate) (embed translate) (parseexec f s) _ _
      (parseexec-translate f s)
      λ left rest.
        rw (gettoken-translate rest, peek-translate _ _ rest translate-pipe)
          (elim (Bool-cases (peek rest (b',' ∷ []))) [
            | inl p ↦ rw p (
                translate_parse-bind (embed translate) (embed translate)
                  (parsepipe f (gettoken rest).rest) _ _
                  (parsepipe-translate f (gettoken rest).rest) (λ c rest'. refl))
            | inr n ↦ rw (n, skip_whitespace-translate rest) refl
          ])

parsebacks-translate :
    (f : ℕ) (c : Cmd) (s : Text)
    → IsSame (new_parsebacks f (embed translate c) (translate s)) (parsebacks f c s)
unfolding parsebacks new_parsebacks
parsebacks-translate zero c s = refl
parsebacks-translate (suc f) c s =
    rw (gettoken-translate s, peek-translate _ _ s translate-background)
      (elim (Bool-cases (peek s (b'&' ∷ []))) [
        | inl p ↦ rw p (parsebacks-translate f (backcmd c) (gettoken s).rest)
        | inr n ↦ rw (n, skip_whitespace-translate s) refl
      ])

-- peek with no characters only moves past the white space.
peek-nil : (s : Text) → peek s [] ≡ false
unfolding peek strchr
peek-nil s = go (skip_whitespace s)
  where
    go : (u : Text) → elim u [ [] ↦ false | c ∷ _ ↦ strchr [] c ] ≡ false
    go [] = refl
    go (c ∷ u) = refl

peek_list-translate : (s : Text) → peek (translate s) (b';' ∷ []) ≡ false
unfolding strchr
peek_list-translate s = peek-translate (b';' ∷ []) [] s translate-list ∙ peek-nil s

skip_whitespace-twice : (s : Text) → skip_whitespace (skip_whitespace s) ≡ skip_whitespace s
unfolding skip_whitespace
skip_whitespace-twice [] = refl
skip_whitespace-twice (c ∷ s) = elim (Bool-cases (strchr whitespace c)) [
  | inl w ↦ rw w (skip_whitespace-twice s)
  | inr n ↦ rw (n, n) refl
]

-- parsebacks has moved past the white space.
parsebacks-skip :
    (f : ℕ) (c : Cmd) (s : Text)
    → bind (parsebacks f c s) (λ left rest. parsed left (skip_whitespace rest)) ≡ parsebacks f c s
unfolding parsebacks
parsebacks-skip zero c s = refl
parsebacks-skip (suc f) c s = elim (Bool-cases (peek s (b'&' ∷ []))) [
  | inl p ↦ rw p (parsebacks-skip f (backcmd c) (gettoken s).rest)
  | inr n ↦ rw (n, skip_whitespace-twice s) refl
]

parseline-translate :
    (f : ℕ) (s : Text) → IsSame (new_parseline (suc f) (translate s)) (parseline f s)
unfolding parseline new_parseline
parseline-translate f s =
    translate_parse-bind (embed translate) (embed translate) (parsepipe f s) _ _
      (parsepipe-translate f s)
      λ c rest.
        translate_parse-bind (embed translate) (embed translate) (parsebacks f c rest) _ _
          (parsebacks-translate f c rest)
          (λ left rest'. rw (peek_list-translate rest', skip_whitespace-translate rest') refl)
        ∙ ap (translate_parse (embed translate)) (parsebacks-skip f c rest)

-- For every line, the newer shell parses the translated line as the older one parses the line: the
-- result is the same command with its words and its pipe signs translated, or the same error.
pub parsecmd-translate :
    (s : Text) → new_parsecmd (translate s) ≡ translate_parse (embed translate) (parsecmd s)
unfolding parsecmd new_parsecmd
parsecmd-translate s =
    let same_fuel : length (translate s) + 3 ≡ suc (length s + 2) =
      omega (arith, length-map translate_char s) in
    rw same_fuel (
      translate_parse-bind (embed translate) (embed translate) (parseline (fuel_for s) s) _ _
        (parseline-translate (fuel_for s) s)
        (λ c rest.
          ap (last (embed translate c)) (skip_whitespace-translate rest)
          ∙ go c (skip_whitespace rest)))
  where
    last : {A : Type 0} → A → Text → Parse A
    last c u = elim u [ [] ↦ parsed c [] | x ∷ xs ↦ exits (leftovers (x ∷ xs)) ]

    go :
        (c : Cmd) (u : Text)
        → last (embed translate c) (translate u) ≡ translate_parse (embed translate) (last c u)
    go c [] = refl
    go c (x ∷ u) = refl

-- The older parser returns a command or an error for every line: its fuel is enough.
pub parsecmd_returns : (s : Text) → parsecmd s ≢ out_of_fuel
parsecmd_returns s e =
    parsecmd-ne-out_of_fuel (translate s)
      (parsecmd-translate s ∙ ap (translate_parse (embed translate)) e)
