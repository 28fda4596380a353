-- ===== src/Older/Session/Tests.antt =====
-- Both shells on the lines `cd x` and `a,b`.
use cs551_assignments.Common.{
  [], Option, Text, arith, strncmp_eq, true, map, none, some, refl, ◌∷◌, ◌≡◌,
}
use cs551_assignments.Shell.Lexer.{strchr}
use cs551_assignments.Shell.Profile.{newline, strstr}
use cs551_assignments.Shell.Alias.{
  convert_parts, convert_token, convert_tokens, convertalias, cut_comma, expand, split_at,
  split_parts, trim,
}
use cs551_assignments.Shell.Main.{on_line, child as new_child}
use cs551_assignments.Shell.Session.{Host, Log, main_loop, over}
use cs551_assignments.Older.Session.{older_loop}
use cs551_assignments.Older.Session.Agrees.{IsCommon, shells_agree, translated}

abbrev no_variables : Text → Option Text
no_variables name = none

abbrev host : Host Text
host = record { chdir = λ d dir. some dir; can_fork = λ n. true; run = λ d script tty. tty }

abbrev root : Text
root = b'/' ∷ []

abbrev cd_line : Text
cd_line = b'c' ∷ b'd' ∷ b' ' ∷ b'x' ∷ newline ∷ []

abbrev pipe_line : Text
pipe_line = b'a' ∷ b',' ∷ b'b' ∷ newline ∷ []

cd_line-IsCommon : IsCommon no_variables cd_line
unfolding on_line strncmp_eq
cd_line-IsCommon = (
  record {
    body = b'c' ∷ b'd' ∷ b' ' ∷ b'x' ∷ [];
    ended = refl;
    plain = omega arith;
    short = omega arith;
  },
  tt,
)

pipe_line-IsCommon : IsCommon no_variables pipe_line
unfolding on_line strncmp_eq strstr convertalias convert_parts convert_tokens convert_token
    cut_comma expand split_at split_parts trim strchr
pipe_line-IsCommon = (
  record { body = b'a' ∷ b',' ∷ b'b' ∷ []; ended = refl; plain = omega arith; short = omega arith },
  record {
    out = b'a' ∷ b',' ∷ b'b' ∷ b' ' ∷ [];
    no_open = refl;
    no_close = refl;
    short = omega arith;
    converts = refl;
    out_open = refl;
    out_short = omega arith;
    out_bar = refl;
    out_list = refl;
  },
)

shells_agree_example :
    (log : Log Text) × (older_loop no_variables host 4 root (cd_line ∷ pipe_line ∷ [])
      ≡ some (over [] log))
    × (main_loop (new_child no_variables) host 4 root (cd_line ∷ pipe_line ∷ [])
        ≡ some (over [] (map translated log)))
shells_agree_example =
    shells_agree no_variables host root (cd_line ∷ pipe_line ∷ [])
      (cd_line-IsCommon, (pipe_line-IsCommon, tt)) refl (λ d script t. refl)
