-- ===== src/Older/Translate.antt =====
-- How the commands of CS551P1/main.c are written for CS551P1/CS551P1/main.c.
use cs551_assignments.Common.{Text, [], ◌∷◌, false, arith, if◌then◌else◌, map, ℕ, ◌==◌, ◌≡◌}
use cs551_assignments.Shell.Lexer.{strchr, symbols as new_symbols, whitespace}
use cs551_assignments.Shell.Parser.{
  stop_set as new_stop_set, Cmd as NewCmd, backcmd as new_backcmd, execcmd as new_execcmd,
  pipecmd as new_pipecmd, redir as new_redir,
}
use cs551_assignments.Older.Lexer.{symbols}
use cs551_assignments.Older.Parser.{stop_set, Cmd, backcmd, execcmd, pipecmd, redir}

-- The pipe sign of the older shell is the comma. The newer shell's pipe sign and semicolon are
-- ordinary characters in the older one, so that they become characters that are so in the newer one.
unfoldable pub translate_char : ℕ → ℕ
translate_char c =
    if c == b',' then b'|' else if c == b'|' then b',' else if c == b';' then b':' else c

abbrev pub translate : Text → Text
translate = map translate_char

-- A command of the older shell as one of the newer shell, with `f` applied to its words.
abbrev pub embed : (Text → Text) → Cmd → NewCmd
embed f (execcmd argv) = new_execcmd (map f argv)
embed f (redir c file t mode fd) = new_redir (embed f c) (f file) (translate_char t) mode fd
embed f (pipecmd left right) = new_pipecmd (embed f left) (embed f right)
embed f (backcmd c) = new_backcmd (embed f c)

pub translate-whitespace : (c : ℕ) → strchr whitespace (translate_char c) ≡ strchr whitespace c
unfolding translate_char strchr
translate-whitespace c = ground arith

pub translate-symbols : (c : ℕ) → strchr new_symbols (translate_char c) ≡ strchr symbols c
unfolding translate_char strchr
translate-symbols c = ground arith

-- The sets that the two parsers give to peek.
pub translate-redirections :
    (c : ℕ) → strchr (b'<' ∷ b'>' ∷ []) (translate_char c) ≡ strchr (b'<' ∷ b'>' ∷ []) c
unfolding translate_char strchr
translate-redirections c = ground arith

pub translate-stop_set : (c : ℕ) → strchr new_stop_set (translate_char c) ≡ strchr stop_set c
unfolding translate_char strchr
translate-stop_set c = ground arith

pub translate-pipe : (c : ℕ) → strchr (b'|' ∷ []) (translate_char c) ≡ strchr (b',' ∷ []) c
unfolding translate_char strchr
translate-pipe c = ground arith

pub translate-background : (c : ℕ) → strchr (b'&' ∷ []) (translate_char c) ≡ strchr (b'&' ∷ []) c
unfolding translate_char strchr
translate-background c = ground arith

-- Nothing becomes the sign of a list.
pub translate-list : (c : ℕ) → strchr (b';' ∷ []) (translate_char c) ≡ false
unfolding translate_char strchr
translate-list c = ground arith

pub translate-input : (c : ℕ) → (translate_char c == b'<') ≡ (c == b'<')
unfolding translate_char
translate-input c = ground arith

pub translate-output : (c : ℕ) → (translate_char c == b'>') ≡ (c == b'>')
unfolding translate_char
translate-output c = ground arith
