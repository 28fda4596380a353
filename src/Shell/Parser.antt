-- ===== src/Shell/Parser.antt =====
-- The commands of CS551P1/CS551P1/main.c and its parser. Each loop and each call of a parser
-- within a parser takes one unit of fuel; parsecmd gives as many as the line has characters, and
-- more. `exit(-1)` with a message is an error value.
pub mod Progress
pub mod Total
pub mod WellFormed
pub mod Words
pub mod Shape
use cs551_assignments.Common.{
  Bool, List, Text, [], false, if◌then◌else◌, leb, length, suc, true, zero, ℕ, ◌++◌, ◌+◌, ◌==◌, ◌∷◌,
}
use cs551_assignments.Shell.Lexer.{Tok, Token, arg, end, gettoken, peek, skip_whitespace, symbol}

abbrev pub max_args : ℕ
max_args = 10

pub data Mode : Type 0 where
  o_rdonly o_wronly_creat_trunc : Mode

-- `struct cmd` and the structs it is cast to.
pub data Cmd : Type 0 where
  execcmd : (argv : List Text) → Cmd
  redir : (cmd : Cmd) (file : Text) (type' : ℕ) (mode : Mode) (fd : ℕ) → Cmd
  pipecmd listcmd : (left right : Cmd) → Cmd
  backcmd : (cmd : Cmd) → Cmd

-- The constructor redircmd.
unfoldable pub redircmd : Cmd → Text → ℕ → Cmd
redircmd c file t =
    redir c file t (if t == b'<' then o_rdonly else o_wronly_creat_trunc)
      (if t == b'<' then 0 else 1)

pub data ParseError : Type 0 where
  missing_file syntax_error too_many_args : ParseError
  leftovers : Text → ParseError

pub data Parse (A : Type 0) : Type 0 where
  parsed : A → Text → Parse A
  exits : ParseError → Parse A
  out_of_fuel : Parse A

-- A redirection: the file and the symbol.
abbrev pub Redir : Type 0
Redir = Text × ℕ

-- The node that parseexec fills is the innermost one, below the redirections that wrap it.
unfoldable pub wrap : Cmd → List Redir → Cmd
wrap c [] = c
wrap c ((file, t) ∷ rs) = wrap (redircmd c file t) rs

-- The switch on the symbol of a redirection: peek has shown one of the two.
unfoldable pub redir_of : Tok → Text → List Redir
redir_of (symbol c) file = (file, c) ∷ []
redir_of end file = []
redir_of arg file = []

abbrev pub is_arg : Tok → Bool
is_arg arg = true
is_arg end = false
is_arg (symbol c) = false

-- A parser, and what follows if it succeeds.
abbrev pub bind : {A B : Type 0} → Parse A → (A → Text → Parse B) → Parse B
bind (parsed a rest) k = k a rest
bind (exits e) k = exits e
bind out_of_fuel k = out_of_fuel

-- parseredirs: the redirections at the front of the text.
unfoldable pub parseredirs : ℕ → Text → Parse (List Redir)
parseredirs zero s = out_of_fuel
parseredirs (suc f) s =
    let t = gettoken s in
    let a = gettoken t.rest in
    let more = bind (parseredirs f a.rest) (λ rs rest. parsed (redir_of t.tok a.text ++ rs) rest) in
    if peek s (b'<' ∷ b'>' ∷ [])
    then (if is_arg a.tok then more else exits missing_file)
    else parsed [] (skip_whitespace s)

-- The words and the redirections of a simple command.
pub record Simple : Type 0 where
  pub argv : List Text
  pub redirs : List Redir

abbrev pub no_words : Simple
no_words = record { argv = []; redirs = [] }

abbrev pub stop_set : Text
stop_set = b';' ∷ b'|' ∷ b'&' ∷ []

-- A word has been stored as `argv[argc]`: the count is checked, the redirections behind the word
-- are read, and the loop goes on.
unfoldable pub after_word : (Text → Parse Simple) → ℕ → ℕ → Token → Parse Simple
after_word loop f argc t =
    if leb max_args (argc + 1)
    then exits too_many_args
    else bind (parseredirs f t.rest) λ rs rest.
      bind (loop rest)
        λ c rest'. parsed (record { argv = t.text ∷ c.argv; redirs = rs ++ c.redirs }) rest'

unfoldable pub on_token : Tok → Text → Parse Simple → Parse Simple
on_token end rest more = parsed no_words rest
on_token (symbol c) rest more = exits syntax_error
on_token arg rest more = more

-- The loop of parseexec, with `argc` words read.
unfoldable pub parsewords : ℕ → ℕ → Text → Parse Simple
parsewords zero argc s = out_of_fuel
parsewords (suc f) argc s =
    let t = gettoken s in
    let next = on_token t.tok t.rest (after_word (parsewords f (argc + 1)) f argc t) in
    if peek s stop_set then parsed no_words (skip_whitespace s) else next

unfoldable pub parseexec : ℕ → Text → Parse Cmd
parseexec f s = bind (parseredirs f s) λ rs rest.
    bind (parsewords f 0 rest) λ c rest'. parsed (wrap (execcmd c.argv) (rs ++ c.redirs)) rest'

unfoldable pub parsepipe : ℕ → Text → Parse Cmd
parsepipe zero s = out_of_fuel
parsepipe (suc f) s = bind (parseexec f s) λ left rest.
    let right : Parse Cmd =
      bind (parsepipe f (gettoken rest).rest) (λ c rest'. parsed (pipecmd left c) rest') in
    if peek rest (b'|' ∷ []) then right else parsed left (skip_whitespace rest)

-- `while(peek(ps, es, "&")) { gettoken(ps, es, 0, 0); cmd = backcmd(cmd); }`
unfoldable pub parsebacks : ℕ → Cmd → Text → Parse Cmd
parsebacks zero c s = out_of_fuel
parsebacks (suc f) c s =
    let more = parsebacks f (backcmd c) (gettoken s).rest in
    if peek s (b'&' ∷ []) then more else parsed c (skip_whitespace s)

unfoldable pub parseline : ℕ → Text → Parse Cmd
parseline zero s = out_of_fuel
parseline (suc f) s = bind (parsepipe f s) λ c rest. bind (parsebacks f c rest) λ left rest'.
    let more : Parse Cmd =
      bind (parseline f (gettoken rest').rest)
        (λ right rest''. parsed (listcmd left right) rest'') in
    if peek rest' (b';' ∷ []) then more else parsed left (skip_whitespace rest')

abbrev pub fuel_for : Text → ℕ
fuel_for s = length s + 3

-- peek with no characters skips the white space, and what is left is an error.
unfoldable pub parsecmd : Text → Parse Cmd
parsecmd s =
    bind (parseline (fuel_for s) s) λ c rest. elim (skip_whitespace rest) [
      | [] ↦ parsed c []
      | x ∷ xs ↦ exits (leftovers (x ∷ xs))
    ]
