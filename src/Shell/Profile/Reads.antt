-- ===== src/Shell/Profile/Reads.antt =====
-- What getprofile of CS551P1/CS551P1/main.c does on the line of an entry.
use mathlib.Core.List.{append_assoc}
use cs551_assignments.Common.{
  List, Text, [], ap, arith, drop, length, lt→ltb, ok, refl, strcmp_eq, strncmp_eq, ℕ, ◌++◌, ◌+◌,
  ◌<◌, ◌>>=◌, ◌∙◌, ◌∷◌, ◌≡◌,
}
use cs551_assignments.Shell.Lexer.{strchr}
use cs551_assignments.Shell.Profile.{
  alias_len, alias_line, before_sign, cut_token, fgets, newline, on_line, on_name, setenv,
  skip_delimiters, strstr, terminated, until_end, word_alias,
}
use cs551_assignments.Shell.Profile.Entries.{
  Avoids, Avoids-append, Avoids-sub, Entry, IsEntry, alias, before_sign-append, home, line_of,
  meaning, path, prompt, strtok-word, terminated-append, terminated_whole, until_end-append,
}

-- The delimiters of the two texts of an alias, and what may not be in them.
abbrev key_ends : Text
key_ends = b' ' ∷ b'"' ∷ b'=' ∷ []

abbrev value_ends : Text
value_ends = b'"' ∷ b'=' ∷ []

abbrev pub key_bad : Text
key_bad = b' ' ∷ b'"' ∷ b'=' ∷ 0 ∷ newline ∷ []

abbrev pub value_bad : Text
value_bad = b'"' ∷ b'=' ∷ 0 ∷ newline ∷ []

-- What a line does where it is read.
abbrev pub Does : Entry → List ℕ → ℕ → ℕ → Type 0
Does e tmp1 k k' = on_line (fgets (line_of e) tmp1) k ≡ ok (record { effects = meaning e; k = k' })

-- The rest of a line with a value, in the array.
value_in_array :
    (v : Text) (junk : List ℕ)
    → Avoids (0 ∷ newline ∷ []) v
    → until_end ((v ++ newline ∷ []) ++ 0 ∷ junk) ≡ ok v
value_in_array v junk h =
    ap until_end (append_assoc v (newline ∷ []) (0 ∷ junk)) ∙ until_end-append v (0 ∷ junk) h

pub path-Does : (v : Text) (tmp1 : List ℕ) (k : ℕ) → IsEntry (path v) → Does (path v) tmp1 k k
unfolding on_line before_sign terminated on_name strcmp_eq
path-Does v tmp1 k h = rw (value_in_array v _ h.0) refl

pub prompt-Does : (v : Text) (tmp1 : List ℕ) (k : ℕ) → IsEntry (prompt v) → Does (prompt v) tmp1 k k
unfolding on_line before_sign terminated on_name strcmp_eq
prompt-Does v tmp1 k h = rw (value_in_array v _ h.0) refl

pub home-Does : (v : Text) (tmp1 : List ℕ) (k : ℕ) → IsEntry (home v) → Does (home v) tmp1 k k
unfolding on_line before_sign terminated on_name strcmp_eq
home-Does v tmp1 k h = rw (value_in_array v _ h.0) refl

pub alias_line-setenv :
    (key v : Text) (k : ℕ)
    → IsEntry (alias key v)
    → k < alias_len
    → alias_line (line_of (alias key v)) k ≡ ok (setenv key v)
unfolding alias_line skip_delimiters cut_token strchr
alias_line-setenv key v k (hk, hv) l =
    rw
      (
        strtok-word key_ends key b'=' (b'"' ∷ (v ++ b'"' ∷ newline ∷ []))
            (Avoids-sub key_bad key_ends key (λ c e. ground (arith, e)) hk.0) hk.1 refl,
        strtok-word value_ends v b'"' (newline ∷ [])
            (Avoids-sub value_bad value_ends v (λ c e. ground (arith, e)) hv.0) hv.1 refl,
        lt→ltb k alias_len l,
        lt→ltb (length key) alias_len hk.2,
        lt→ltb (length v) alias_len hv.2,
      )
      refl

on_name_alias :
    (key rest tmp1 : Text) (k : ℕ)
    → on_name (word_alias ++ b' ' ∷ key) rest tmp1 k
      ≡ (alias_line (terminated tmp1) k >>= λ e. ok (record { effects = e ∷ []; k = k + 1 }))
unfolding on_name strcmp_eq strstr strncmp_eq
on_name_alias key rest tmp1 k = refl

alias_line-no_nul : (key v : Text) → IsEntry (alias key v) → Avoids (0 ∷ []) (line_of (alias key v))
unfolding strchr
alias_line-no_nul key v (hk, hv) =
    let k' = Avoids-sub key_bad (0 ∷ []) key (λ c e. ground (arith, e)) hk.0 in
    let v' = Avoids-sub value_bad (0 ∷ []) v (λ c e. ground (arith, e)) hv.0 in
    Avoids-append (0 ∷ []) (word_alias ++ b' ' ∷ []) _
      (refl, (refl, (refl, (refl, (refl, (refl, tt))))))
      (Avoids-append (0 ∷ []) key _ k'
        (refl, (refl, Avoids-append (0 ∷ []) v (b'"' ∷ newline ∷ []) v' (refl, (refl, tt)))))

alias_name-Avoids_sign :
    (key : Text)
    → Avoids key_bad key
    → Avoids (b'=' ∷ []) (word_alias ++ b' ' ∷ key) × Avoids (0 ∷ []) (word_alias ++ b' ' ∷ key)
unfolding strchr
alias_name-Avoids_sign key h =
    let k' = Avoids-sub key_bad (0 ∷ []) key (λ c e. ground (arith, e)) h in
    let k'' = Avoids-sub key_bad (b'=' ∷ []) key (λ c e. ground (arith, e)) h in
    (
      Avoids-append (b'=' ∷ []) (word_alias ++ b' ' ∷ []) key
          (refl, (refl, (refl, (refl, (refl, (refl, tt)))))) k'',
      Avoids-append (0 ∷ []) (word_alias ++ b' ' ∷ []) key
          (refl, (refl, (refl, (refl, (refl, (refl, tt)))))) k',
    )

-- The line of an alias in the array: what stands in front of the sign, and the line itself.
pub alias_in_array :
    (key v : Text) (tmp1 : List ℕ)
    → IsEntry (alias key v)
    → (rest : List ℕ) × (before_sign (fgets (line_of (alias key v)) tmp1)
        ≡ ok (word_alias ++ b' ' ∷ key, rest))
      × (terminated (word_alias ++ b' ' ∷ key) ≡ word_alias ++ b' ' ∷ key)
      × (terminated (fgets (line_of (alias key v)) tmp1) ≡ line_of (alias key v))
alias_in_array key v tmp1 h =
    let name = word_alias ++ b' ' ∷ key in
    let behind = b'"' ∷ (v ++ b'"' ∷ newline ∷ []) in
    let junk = drop (length (line_of (alias key v)) + 1) tmp1 in
    let a = alias_name-Avoids_sign key h.0.0 in
    (
      behind ++ 0 ∷ junk,
      ap (λ t. before_sign (word_alias ++ b' ' ∷ t)) (append_assoc key (b'=' ∷ behind) (0 ∷ junk))
          ∙ before_sign-append name (behind ++ 0 ∷ junk) a.0,
      terminated_whole name a.1,
      terminated-append (line_of (alias key v)) junk (alias_line-no_nul key v h),
    )

pub alias-Does :
    (key v : Text) (tmp1 : List ℕ) (k : ℕ)
    → IsEntry (alias key v)
    → k < alias_len
    → Does (alias key v) tmp1 k (k + 1)
unfolding on_line
alias-Does key v tmp1 k h l =
    let (rest, e1, e2, e3) = alias_in_array key v tmp1 h in
    rw
      (
        e1,
        e2,
        on_name_alias key rest (fgets (line_of (alias key v)) tmp1) k,
        e3,
        alias_line-setenv key v k h l,
      )
      refl
