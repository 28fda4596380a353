-- ===== src/Shell/Profile/RoundTrip.antt =====
-- getprofile of CS551P1/CS551P1/main.c reads back the entries of a file.
use mathlib.Core.List.{append_assoc}
use cs551_assignments.Common.{
  All, List, Text, [], ap, arith, length, length-append, ok, refl, some, subst, sym, ℕ, ◌++◌, ◌+◌,
  ◌<◌, ◌∙◌, ◌∷◌, ◌≡◌, ◌≤◌,
}
use cs551_assignments.Shell.Lexer.{strchr}
use cs551_assignments.Shell.Profile.{
  alias_len, fgets, getprofile, lines_of, name_home, name_path, name_prompt, newline, read_lines,
  word_alias,
}
use cs551_assignments.Shell.Profile.Entries.{
  Avoids, Avoids-append, Avoids-sub, Entry, IsEntry, IsSetting, alias, alias_count, file_of, home,
  line_of, lines_of-append, meanings, path, prompt, setting,
}
use cs551_assignments.Shell.Profile.Reads.{
  Does, alias-Does, home-Does, key_bad, path-Does, prompt-Does, value_bad,
}

-- fgets reads the line as one, whatever follows.
abbrev pub IsOneLine : Text → Type 0
IsOneLine line = (s : Text) → lines_of 255 (line ++ s) ≡ line ∷ lines_of 255 s

one_line :
    (body line : Text)
    → line ≡ body ++ newline ∷ []
    → Avoids (newline ∷ []) body
    → length body < 255
    → IsOneLine line
one_line body line e h l s =
    ap (λ t. lines_of 255 (t ++ s)) e
    ∙ ap (lines_of 255) (append_assoc body (newline ∷ []) s)
    ∙ lines_of-append 255 body s h l
    ∙ ap (λ t. t ∷ lines_of 255 s) (sym e)

setting-IsOneLine :
    (name v : Text)
    → setting name v ≡ (name ++ b'=' ∷ v) ++ newline ∷ []
    → Avoids (newline ∷ []) (name ++ b'=' ∷ [])
    → IsSetting name v
    → IsOneLine (setting name v)
unfolding strchr
setting-IsOneLine name v e n (h, l) =
    let n' : Avoids (newline ∷ []) ((name ++ b'=' ∷ []) ++ v) =
      Avoids-append (newline ∷ []) (name ++ b'=' ∷ []) v n
        (Avoids-sub (0 ∷ newline ∷ []) (newline ∷ []) v (λ c e. ground (arith, e)) h) in
    one_line (name ++ b'=' ∷ v) (setting name v) e
      (subst (Avoids (newline ∷ [])) (append_assoc name (b'=' ∷ []) v) n')
      (omega (arith, l, ap length e, length-append (name ++ b'=' ∷ v) (newline ∷ [])))

alias-IsOneLine : (key v : Text) → IsEntry (alias key v) → IsOneLine (line_of (alias key v))
unfolding strchr
alias-IsOneLine key v (hk, hv) =
    let tail = b'=' ∷ b'"' ∷ (v ++ b'"' ∷ []) in
    let body = word_alias ++ b' ' ∷ (key ++ tail) in
    let k' = Avoids-sub key_bad (newline ∷ []) key (λ c e. ground (arith, e)) hk.0 in
    let v' = Avoids-sub value_bad (newline ∷ []) v (λ c e. ground (arith, e)) hv.0 in
    one_line body (line_of (alias key v))
      (ap (λ t. word_alias ++ b' ' ∷ t)
        (ap (λ t. key ++ b'=' ∷ b'"' ∷ t) (sym (append_assoc v (b'"' ∷ []) (newline ∷ [])))
          ∙ sym (append_assoc key tail (newline ∷ []))))
      (
        refl,
        (
          refl,
          (
            refl,
            (
              refl,
              (
                refl,
                (
                  refl,
                  Avoids-append (newline ∷ []) key tail k'
                      (refl, (refl, Avoids-append (newline ∷ []) v (b'"' ∷ []) v' (refl, tt))),
                ),
              ),
            ),
          ),
        ),
      )
      (omega (arith, length-append key tail, length-append v (b'"' ∷ []), hk.2, hv.2))

setting-eq : (name v : Text) → setting name v ≡ (name ++ b'=' ∷ v) ++ newline ∷ []
setting-eq name v = sym (append_assoc name (b'=' ∷ v) (newline ∷ []))

pub line_of-IsOneLine : (e : Entry) → IsEntry e → IsOneLine (line_of e)
unfolding strchr
line_of-IsOneLine (path v) h =
    setting-IsOneLine name_path v (setting-eq name_path v)
      (refl, (refl, (refl, (refl, (refl, tt))))) h
line_of-IsOneLine (prompt v) h =
    setting-IsOneLine name_prompt v (setting-eq name_prompt v)
      (refl, (refl, (refl, (refl, (refl, (refl, (refl, tt))))))) h
line_of-IsOneLine (home v) h =
    setting-IsOneLine name_home v (setting-eq name_home v)
      (refl, (refl, (refl, (refl, (refl, tt))))) h
line_of-IsOneLine (alias key v) h = alias-IsOneLine key v h

-- The number of aliases behind an entry.
abbrev pub counted : Entry → ℕ → ℕ
counted (path v) k = k
counted (prompt v) k = k
counted (home v) k = k
counted (alias key v) k = k + 1

entry-Does :
    (e : Entry) (es : List Entry) (tmp1 : List ℕ) (k : ℕ)
    → IsEntry e
    → k + alias_count (e ∷ es) ≤ alias_len
    → Does e tmp1 k (counted e k) × (counted e k + alias_count es ≤ alias_len)
entry-Does (path v) es tmp1 k h l = (path-Does v tmp1 k h, l)
entry-Does (prompt v) es tmp1 k h l = (prompt-Does v tmp1 k h, l)
entry-Does (home v) es tmp1 k h l = (home-Does v tmp1 k h, l)
entry-Does (alias key v) es tmp1 k h l =
    (alias-Does key v tmp1 k h (omega (arith, l)), omega (arith, l))

read_lines-meanings :
    (es : List Entry) (tmp1 : List ℕ) (k : ℕ)
    → All IsEntry es
    → k + alias_count es ≤ alias_len
    → read_lines (lines_of 255 (file_of es)) tmp1 k ≡ ok (meanings es)
unfolding read_lines lines_of
read_lines-meanings [] tmp1 k h l = refl
read_lines-meanings (e ∷ es) tmp1 k (h, hs) l =
    let (d, l') = entry-Does e es tmp1 k h l in
    ap (λ ls. read_lines ls tmp1 k) (line_of-IsOneLine e h (file_of es))
    ∙ rw (d, read_lines-meanings es (fgets (line_of e) tmp1) (counted e k) hs l') refl

-- Let a file be made of entries, each on a line of at most 255 bytes: a setting of PATH, PROMPT or
-- HOME with a value that has no NUL and no newline, or an alias. The two texts of an alias have 1 to
-- 31 bytes and no quote, equals sign, NUL or newline, and the first has no space; and there are at
-- most 32 aliases. Then getprofile sets each variable and each alias to its value, and changes to
-- each HOME directory, in the order of the file, and does nothing else.
pub getprofile_reads_back :
    (es : List Entry) (tmp1 : List ℕ)
    → All IsEntry es
    → alias_count es ≤ alias_len
    → getprofile (some (file_of es)) tmp1 ≡ ok (meanings es)
unfolding getprofile
getprofile_reads_back es tmp1 h l = read_lines-meanings es tmp1 0 h (omega (arith, l))
