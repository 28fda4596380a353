-- ===== src/Shell/Parser/WellFormed.antt =====
-- Which commands are well-formed, and the words that gettoken of CS551P1/CS551P1/main.c finds.
use cs551_assignments.Common.{
  All, Bool-cases, Text, [], arith, false, inl, inr, length, true, ℕ, ◌<◌, ◌||◌, ◌∷◌, ◌≡◌, ◌≢◌, ◌⊎◌,
}
use cs551_assignments.Shell.Lexer.{
  gettoken, skip_whitespace, strchr, symbols, token_at, whitespace, word,
}
use cs551_assignments.Shell.Parser.{
  Cmd, Mode, Parse, backcmd, bind, execcmd, exits, is_arg, listcmd, max_args, o_rdonly,
  o_wronly_creat_trunc, out_of_fuel, parsed, pipecmd, redir,
}

-- A character that belongs to a word, and a text of them.
abbrev IsPlainChar : ℕ → Type 0
IsPlainChar c = (strchr whitespace c || strchr symbols c) ≡ false

pub record IsWord (w : Text) : Type 0 where
  pub plain : All IsPlainChar w
  pub some_char : 0 < length w

pub record IsRedir (file : Text) (t : ℕ) : Type 0 where
  pub named : IsWord file
  pub sign : (t ≡ b'<') ⊎ (t ≡ b'>')

-- `<` opens its file to be read as descriptor 0, and `>` to be written as descriptor 1.
pub record IsOpening (t : ℕ) (mode : Mode) (fd : ℕ) : Type 0 where
  pub input : t ≡ b'<' → (mode ≡ o_rdonly) × (fd ≡ 0)
  pub output : t ≡ b'>' → (mode ≡ o_wronly_creat_trunc) × (fd ≡ 1)

-- A simple command has fewer words than its array has places, so that the null pointer behind them
-- is inside; and words and files are not empty, and hold no space and no symbol.
abbrev pub IsWellFormed : Cmd → Type 0
IsWellFormed (execcmd argv) = (length argv < max_args) × All IsWord argv
IsWellFormed (redir cmd file t mode fd) = IsWellFormed cmd × IsRedir file t × IsOpening t mode fd
IsWellFormed (pipecmd left right) = IsWellFormed left × IsWellFormed right
IsWellFormed (listcmd left right) = IsWellFormed left × IsWellFormed right
IsWellFormed (backcmd cmd) = IsWellFormed cmd

-- Where the parser succeeds, its value has the property.
abbrev pub Gives : {A : Type 0} → (A → Type 0) → Parse A → Type 0
Gives P (parsed a rest) = P a
Gives P (exits e) = Unit {0}
Gives P out_of_fuel = Unit {0}

pub Gives-bind :
    {A B : Type 0} (P : A → Type 0) (Q : B → Type 0) (r : Parse A) (k : A → Text → Parse B)
    → Gives P r
    → ((a : A) (rest : Text) → P a → Gives Q (k a rest))
    → Gives Q (bind r k)
Gives-bind P Q (parsed a rest) k h next = next a rest h
Gives-bind P Q (exits e) k h next = tt
Gives-bind P Q out_of_fuel k h next = tt

word-plain : (s : Text) → All IsPlainChar (word s).0
unfolding word
word-plain [] = tt
word-plain (c ∷ s) = elim (Bool-cases (strchr whitespace c || strchr symbols c)) [
  | inl p ↦ rw p tt
  | inr n ↦ rw n (n, word-plain s)
]

word-pos : (c : ℕ) (s : Text) → IsPlainChar c → 0 < length (word (c ∷ s)).0
unfolding word
word-pos c s h = rw h (omega arith)

abbrev Fresh : Text → Type 0
Fresh [] = Unit {0}
Fresh (c ∷ s) = strchr whitespace c ≡ false

skip_whitespace-Fresh : (s : Text) → Fresh (skip_whitespace s)
unfolding skip_whitespace
skip_whitespace-Fresh [] = tt
skip_whitespace-Fresh (c ∷ s) = elim (Bool-cases (strchr whitespace c)) [
  | inl w ↦ rw w (skip_whitespace-Fresh s)
  | inr n ↦ rw n n
]

token_at-IsWord : (s : Text) → Fresh s → is_arg (token_at s).tok ≡ true → IsWord (token_at s).text
unfolding token_at
token_at-IsWord [] f h = cc
token_at-IsWord (c ∷ s) f h = elim (Bool-cases (strchr symbols c)) [
  | inl y ↦ absurd (symbol_no_arg (rw y at h))
  | inr n ↦
      rw n (record { plain = word-plain (c ∷ s); some_char = word-pos c s (ground (arith, f, n)) })
]
  where
    symbol_no_arg : false ≢ true
    symbol_no_arg e = cc

-- A word that gettoken finds is not empty, and ends before the next space or symbol.
pub gettoken-IsWord : (s : Text) → is_arg (gettoken s).tok ≡ true → IsWord (gettoken s).text
unfolding gettoken
gettoken-IsWord s h = token_at-IsWord (skip_whitespace s) (skip_whitespace-Fresh s) h
