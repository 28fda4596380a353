-- ===== src/Older/Parser.antt =====
-- The commands of CS551P1/main.c and its parser. The fuel is used, and errors are values, as in the model of the newer shell.
use cs551_assignments.Common.{
  length, List, Text, [], if◌then◌else◌, leb, suc, zero, ℕ, ◌++◌, ◌+◌, ◌==◌, ◌∷◌,
}
use cs551_assignments.Shell.Lexer.{Token, peek, skip_whitespace}
use cs551_assignments.Shell.Parser.{
  Mode, Parse, Redir, Simple, bind, exits, is_arg, leftovers, missing_file, no_words, o_rdonly,
  o_wronly_creat_trunc, on_token, out_of_fuel, parsed, redir_of, too_many_args,
}
use cs551_assignments.Older.Lexer.{gettoken}

abbrev pub max_args : ℕ
max_args = 10

-- `struct cmd` and the structs it is cast to.
pub data Cmd : Type 0 where
  execcmd : (argv : List Text) → Cmd
  redir : (cmd : Cmd) (file : Text) (type' : ℕ) (mode : Mode) (fd : ℕ) → Cmd
  pipecmd : (left right : Cmd) → Cmd
  backcmd : (cmd : Cmd) → Cmd

-- The constructor redircmd.
unfoldable pub redircmd : Cmd → Text → ℕ → Cmd
redircmd c file t =
    redir c file t (if t == b'<' then o_rdonly else o_wronly_creat_trunc)
      (if t == b'<' then 0 else 1)

unfoldable pub wrap : Cmd → List Redir → Cmd
wrap c [] = c
wrap c ((file, t) ∷ rs) = wrap (redircmd c file t) rs

unfoldable pub parseredirs : ℕ → Text → Parse (List Redir)
parseredirs zero s = out_of_fuel
parseredirs (suc f) s =
    let t = gettoken s in
    let a = gettoken t.rest in
    let more = bind (parseredirs f a.rest) (λ rs rest. parsed (redir_of t.tok a.text ++ rs) rest) in
    if peek s (b'<' ∷ b'>' ∷ [])
    then (if is_arg a.tok then more else exits missing_file)
    else parsed [] (skip_whitespace s)

abbrev pub stop_set : Text
stop_set = b',' ∷ b'&' ∷ []

unfoldable pub after_word : (Text → Parse Simple) → ℕ → ℕ → Token → Parse Simple
after_word loop f argc t =
    if leb max_args (argc + 1)
    then exits too_many_args
    else bind (parseredirs f t.rest) λ rs rest.
      bind (loop rest)
        λ c rest'. parsed (record { argv = t.text ∷ c.argv; redirs = rs ++ c.redirs }) rest'

unfoldable pub parsewords : ℕ → ℕ → Text → Parse Simple
parsewords zero argc s = out_of_fuel
parsewords (suc f) argc s =
    let t = gettoken s in
    let next = on_token t.tok t.rest (after_word (parsewords f (argc + 1)) f argc t) in
    if peek s stop_set then parsed no_words (skip_whitespace s) else next

unfoldable pub parseexec : ℕ → Text → Parse Cmd
parseexec f s = bind (parseredirs f s) λ rs rest.
    bind (parsewords f 0 rest) λ c rest'. parsed (wrap (execcmd c.argv) (rs ++ c.redirs)) rest'

unfoldable pub parsepipe : ℕ → Text → Parse Cmd
parsepipe zero s = out_of_fuel
parsepipe (suc f) s = bind (parseexec f s) λ left rest.
    let right : Parse Cmd =
      bind (parsepipe f (gettoken rest).rest) (λ c rest'. parsed (pipecmd left c) rest') in
    if peek rest (b',' ∷ []) then right else parsed left (skip_whitespace rest)

-- `while(peek(ps, es, "&")) { gettoken(ps, es, 0, 0); cmd = backcmd(cmd); }`
unfoldable pub parsebacks : ℕ → Cmd → Text → Parse Cmd
parsebacks zero c s = out_of_fuel
parsebacks (suc f) c s =
    let more = parsebacks f (backcmd c) (gettoken s).rest in
    if peek s (b'&' ∷ []) then more else parsed c (skip_whitespace s)

unfoldable pub parseline : ℕ → Text → Parse Cmd
parseline f s = bind (parsepipe f s) λ c rest. parsebacks f c rest

abbrev pub fuel_for : Text → ℕ
fuel_for s = length s + 2

unfoldable pub parsecmd : Text → Parse Cmd
parsecmd s =
    bind (parseline (fuel_for s) s) λ c rest. elim (skip_whitespace rest) [
      | [] ↦ parsed c []
      | x ∷ xs ↦ exits (leftovers (x ∷ xs))
    ]
