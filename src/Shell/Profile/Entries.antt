-- ===== src/Shell/Profile/Entries.antt =====
-- The entries of a PROFILE, and what getprofile of CS551P1/CS551P1/main.c does for them.
use cs551_assignments.Common.{
  All, List, Text, [], arith, false, length, ok, refl, set, some, true, ℕ, ◌++◌, ◌+◌, ◌-◌, ◌<◌,
  ◌==◌, ◌||◌, ◌∷◌, ◌≡◌, ◌≤◌,
}
use cs551_assignments.Shell.Lexer.{strchr}
use cs551_assignments.Shell.Profile.{
  Effect, alias_len, before_sign, chdir, cut_token, lines_of, name_home, name_path, name_prompt,
  newline, setenv, skip_delimiters, strtok, terminated, until_end, word_alias,
}

pub data Entry : Type 0 where
  path prompt home : (value : Text) → Entry
  alias : (key value : Text) → Entry

abbrev pub setting : Text → Text → Text
setting name v = name ++ b'=' ∷ (v ++ newline ∷ [])

-- An entry as a line of the file.
abbrev pub line_of : Entry → Text
line_of (path v) = setting name_path v
line_of (prompt v) = setting name_prompt v
line_of (home v) = setting name_home v
line_of (alias k v) = word_alias ++ b' ' ∷ (k ++ b'=' ∷ b'"' ∷ (v ++ b'"' ∷ newline ∷ []))

-- Its meaning.
abbrev pub meaning : Entry → List Effect
meaning (path v) = setenv name_path v ∷ []
meaning (prompt v) = setenv name_prompt v ∷ []
meaning (home v) = setenv name_home v ∷ chdir v ∷ []
meaning (alias k v) = setenv k v ∷ []

-- No character of the text is one of the set.
abbrev pub Avoids : Text → Text → Type 0
Avoids set = All (λ c. strchr set c ≡ false)

abbrev pub IsAliasText : Text → Text → Type 0
IsAliasText set t = Avoids set t × (0 < length t) × (length t < alias_len)

abbrev pub IsSetting : Text → Text → Type 0
IsSetting name v = Avoids (0 ∷ newline ∷ []) v × (length (setting name v) ≤ 255)

-- An entry that fits in a line and has no character that would end a part of it. An alias has at
-- most 31 bytes for each of its texts.
abbrev pub IsEntry : Entry → Type 0
IsEntry (path v) = IsSetting name_path v
IsEntry (prompt v) = IsSetting name_prompt v
IsEntry (home v) = IsSetting name_home v
IsEntry (alias k v) =
    IsAliasText (b' ' ∷ b'"' ∷ b'=' ∷ 0 ∷ newline ∷ []) k
    × IsAliasText (b'"' ∷ b'=' ∷ 0 ∷ newline ∷ []) v

abbrev pub file_of : List Entry → Text
file_of [] = []
file_of (e ∷ es) = line_of e ++ file_of es

abbrev pub meanings : List Entry → List Effect
meanings [] = []
meanings (e ∷ es) = meaning e ++ meanings es

abbrev pub alias_count : List Entry → ℕ
alias_count [] = 0
alias_count (path v ∷ es) = alias_count es
alias_count (prompt v ∷ es) = alias_count es
alias_count (home v ∷ es) = alias_count es
alias_count (alias k v ∷ es) = 1 + alias_count es

pub Avoids-sub :
    (a b t : Text) → ((c : ℕ) → strchr a c ≡ false → strchr b c ≡ false) → Avoids a t → Avoids b t
Avoids-sub a b [] f h = tt
Avoids-sub a b (c ∷ t) f h = (f c h.0, Avoids-sub a b t f h.1)

pub Avoids-append : (a s t : Text) → Avoids a s → Avoids a t → Avoids a (s ++ t)
Avoids-append a [] t h h' = h'
Avoids-append a (c ∷ s) t h h' = (h.0, Avoids-append a s t h.1 h')

pub before_sign-append :
    (k : Text) (r : List ℕ) → Avoids (b'=' ∷ []) k → before_sign (k ++ b'=' ∷ r) ≡ ok (k, r)
unfolding before_sign strchr
before_sign-append [] r h = refl
before_sign-append (c ∷ k) r h =
    let ne : (c == b'=') ≡ false = ground (arith, h.0) in rw (ne, before_sign-append k r h.1) refl

pub until_end-append :
    (v : Text) (r : List ℕ) → Avoids (0 ∷ newline ∷ []) v → until_end (v ++ newline ∷ r) ≡ ok v
unfolding until_end strchr
until_end-append [] r h = refl
until_end-append (c ∷ v) r h =
    let ne : ((c == 0) || (c == newline)) ≡ false = ground (arith, h.0) in
    rw (ne, until_end-append v r h.1) refl

pub terminated-append : (s : Text) (r : List ℕ) → Avoids (0 ∷ []) s → terminated (s ++ 0 ∷ r) ≡ s
unfolding terminated strchr
terminated-append [] r h = refl
terminated-append (c ∷ s) r h =
    let ne : (c == 0) ≡ false = ground (arith, h.0) in rw (ne, terminated-append s r h.1) refl

pub terminated_whole : (s : Text) → Avoids (0 ∷ []) s → terminated s ≡ s
unfolding terminated strchr
terminated_whole [] h = refl
terminated_whole (c ∷ s) h =
    let ne : (c == 0) ≡ false = ground (arith, h.0) in rw (ne, terminated_whole s h.1) refl

pub lines_of-append :
    (room : ℕ) (l s : Text)
    → Avoids (newline ∷ []) l
    → length l < room
    → lines_of room (l ++ newline ∷ s) ≡ (l ++ newline ∷ []) ∷ lines_of 255 s
unfolding lines_of strchr
lines_of-append room [] s h r = refl
lines_of-append room (c ∷ l) s h r =
    let ne : ((c == newline) || (room == 1)) ≡ false = ground (arith, h.0, r) in
    rw (ne, lines_of-append (room - 1) l s h.1 (omega (arith, r))) refl

cut_token-append :
    (d w : Text) (c : ℕ) (r : Text)
    → Avoids d w
    → strchr d c ≡ true
    → cut_token d (w ++ c ∷ r) ≡ (w, r)
unfolding cut_token
cut_token-append d [] c r h e = rw e refl
cut_token-append d (x ∷ w) c r h e = rw (h.0, cut_token-append d w c r h.1 e) refl

pub strtok-word :
    (d w : Text) (c : ℕ) (r : Text)
    → Avoids d w
    → 0 < length w
    → strchr d c ≡ true
    → strtok d (w ++ c ∷ r) ≡ some (w, r)
unfolding skip_delimiters
strtok-word d [] c r h l e = absurd (omega (arith, l))
strtok-word d (x ∷ w) c r h l e = rw (h.0, cut_token-append d (x ∷ w) c r h e) refl
