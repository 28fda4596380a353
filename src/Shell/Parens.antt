-- ===== src/Shell/Parens.antt =====
-- validateparenthes of CS551P1/CS551P1/main.c. The array `paren` of MAXLEN bytes holds the open
-- parentheses; a read or write outside it is a fault.
use native.Mathlib.Decide.{ℕ_discrete}
use cs551_assignments.Common.{
  Bool, Bool-cases, List, Option, Run, Text, [], arith, false, fault, get_elem?, get_elem?-set_ne,
  get_elem?-set_self, if◌then◌else◌, in_range, inl, inr, length, length-replicate, length-set, ltb,
  lt→ltb, none, ok, refl, replicate, set, some, subst, sym, true, ℕ, ◌&&◌, ◌++◌, ◌+◌, ◌-◌, ◌<◌,
  ◌==◌, ◌>>=◌, ◌∙◌, ◌∷◌, ◌≡◌, ◌≢◌, ◌≤◌,
}

abbrev pub maxlen : ℕ
maxlen = 256

-- The array and the two counters.
pub record Stack : Type 0 where
  pub paren : List ℕ
  pub ct1 : ℕ
  pub ct2 : ℕ

-- `paren[ct1]='('; ct1++;`
abbrev pub push : Stack → Run Stack
push st =
    if ltb st.ct1 (length st.paren)
    then ok (record st { paren = set st.paren st.ct1 b'('; ct1 = st.ct1 + 1 })
    else fault

-- `if(paren[ct1-1]=='(') ct1--; else ct2++;`: with ct1 at 0 the read is before the array.
abbrev pub pop : Stack → Run Stack
pop st = if st.ct1 == 0 then fault else do
  c ← in_range (get_elem? st.paren (st.ct1 - 1))
  ok (if c == b'(' then record st { ct1 = st.ct1 - 1 } else record st { ct2 = st.ct2 + 1 })

abbrev pub step : ℕ → Stack → Run Stack
step c st = if c == b'(' then push st else if c == b')' then pop st else ok st

unfoldable pub scan : Text → Stack → Run Stack
scan [] st = ok st
scan (c ∷ s) st = do st' ← step c st; scan s st'

unfoldable pub validateparenthes : Text → Run Bool
validateparenthes s = do
  st ← scan s (record { paren = replicate maxlen 0; ct1 = 0; ct2 = 0 })
  ok ((st.ct1 == 0) && (st.ct2 == 0))

-- The texts in which the parentheses match.
pub data Balanced : Text → Type 0 where
  empty : Balanced []
  other : {s : Text} (c : ℕ) → c ≢ b'(' → c ≢ b')' → Balanced s → Balanced (c ∷ s)
  nest : {s t u : Text} → Balanced s → Balanced t → u ≡ b'(' ∷ (s ++ b')' ∷ t) → Balanced u

-- The depth after a text, unless it closes more than is open.
unfoldable pub depth : Text → ℕ → Option ℕ
depth [] n = some n
depth (c ∷ s) n =
    if c == b'('
    then depth s (n + 1)
    else if c == b')'
    then (if n == 0 then none else depth s (n - 1))
    else depth s n

-- The first `ct1` bytes of the array are open parentheses, and no closing one was refused.
record IsOpen (n : ℕ) (st : Stack) : Type 0 where
  count : st.ct1 ≡ n
  size : length st.paren ≡ maxlen
  refused : st.ct2 ≡ 0
  opens : (i : ℕ) → i < n → get_elem? st.paren i ≡ some b'('

abbrev Follows : Option ℕ → Run Stack → Type 0
Follows none r = r ≡ fault
Follows (some n) r = (st : Stack) × (r ≡ ok st) × IsOpen n st

push-ok :
    (n : ℕ) (st : Stack)
    → IsOpen n st
    → n < maxlen
    → (st' : Stack) × (push st ≡ ok st') × IsOpen (n + 1) st'
push-ok n st o h =
    let room : ltb st.ct1 (length st.paren) ≡ true = lt→ltb _ _ (omega (arith, o.count, o.size)) in
    (
      record st { paren = set st.paren st.ct1 b'('; ct1 = st.ct1 + 1 },
      rw room,
      record {
        count = omega (arith, o.count);
        size = length-set st.paren st.ct1 b'(' ∙ o.size;
        refused = o.refused;
        opens = λ i l. elim (ℕ_discrete i st.ct1) [
          | yes e ↦ rw e (get_elem?-set_self st.paren st.ct1 b'(' (omega (arith, o.count, o.size)))
          | no ne ↦
              get_elem?-set_ne st.paren st.ct1 i b'(' (λ q. ne (sym q))
              ∙ o.opens i (ground (arith, o.count, ne))
        ];
      },
    )

pop-ok :
    (n : ℕ) (st : Stack)
    → IsOpen n st
    → 0 < n
    → (st' : Stack) × (pop st ≡ ok st') × IsOpen (n - 1) st'
pop-ok n st o h =
    let ne : (st.ct1 == 0) ≡ false = ground (arith, o.count) in
    let top : get_elem? st.paren (st.ct1 - 1) ≡ some b'(' =
      o.opens (st.ct1 - 1) (omega (arith, o.count)) in
    (
      record st { ct1 = st.ct1 - 1 },
      rw (ne, top),
      record {
        count = omega (arith, o.count);
        size = o.size;
        refused = o.refused;
        opens = λ i l. o.opens i (omega arith);
      },
    )

pop-fault : (st : Stack) → IsOpen 0 st → pop st ≡ fault
pop-fault st o = let e : (st.ct1 == 0) ≡ true = ground (arith, o.count) in rw e

scan-Follows :
    (s : Text) (n : ℕ) (st : Stack)
    → IsOpen n st
    → n + length s ≤ maxlen
    → Follows (depth s n) (scan s st)
unfolding scan depth
scan-Follows [] n st o h = (st, refl, o)
scan-Follows (c ∷ s) n st o h = elim (Bool-cases (c == b'(')) [
  | inl a ↦
      let p = push-ok n st o (omega arith) in
      rw (a, p.1) (scan-Follows s (n + 1) p.0 p.2 (omega arith))
  | inr a ↦ elim (Bool-cases (c == b')')) [
    | inl b ↦ elim (Bool-cases (n == 0)) [
      | inl z ↦
          let o' : IsOpen 0 st = subst (λ k. IsOpen k st) (ground arith) o in
          rw (a, b, z, pop-fault st o')
      | inr nz ↦
          let p = pop-ok n st o (ground arith) in
          rw (a, b, nz, p.1) (scan-Follows s (n - 1) p.0 p.2 (omega arith))
    ]
    | inr b ↦ rw (a, b) (scan-Follows s n st o (omega arith))
  ]
]

-- What validateparenthes returns, by the depth of its text.
abbrev pub answer : Option ℕ → Run Bool
answer none = fault
answer (some n) = ok (n == 0)

empty_stack-IsOpen : IsOpen 0 (record { paren = replicate maxlen 0; ct1 = 0; ct2 = 0 })
empty_stack-IsOpen = record {
  count = refl;
  size = length-replicate {A = ℕ} maxlen 0;
  refused = refl;
  opens = λ i l. absurd (omega arith);
}

-- On a text of at most MAXLEN bytes validateparenthes says whether the depth after the text is 0;
-- it reads before its array exactly where the text closes more than is open.
pub validateparenthes-answer :
    (s : Text) → length s ≤ maxlen → validateparenthes s ≡ answer (depth s 0)
unfolding validateparenthes
validateparenthes-answer s h =
    go (depth s 0) (scan s _) (scan-Follows s 0 _ empty_stack-IsOpen (omega arith))
  where
    go :
        (d : Option ℕ) (r : Run Stack)
        → Follows d r
        → (r >>= λ st. ok ((st.ct1 == 0) && (st.ct2 == 0))) ≡ answer d
    go none r e = rw e
    go (some n) r (st, e, o) = rw e (ground (arith, o.count, o.refused))
