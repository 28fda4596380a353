-- ===== src/Shell/Run/Lists.antt =====
-- A kernel whose descriptor tables are lists, which behaves as POSIX says.
use cs551_assignments.Common.{
  List, Option, Text, [], ap, arith, get_elem?, none, refl, set, some, suc, sym, zero, ℕ, ◌<◌, ◌∙◌,
  ◌∷◌, ◌≡◌, ◌≢◌,
}
use cs551_assignments.Shell.Calls.{IsLawful, IsLowest, IsPiped, Kernel, Sets}
use cs551_assignments.Shell.Parser.{Mode}
use cs551_assignments.Shell.Run.Started.{CanServe}

-- A description is of a terminal, of a file, or of an end of a pipe.
pub data Obj : Type 0 where
  terminal : Obj
  file_object : Text → Mode → Obj
  read_end write_end : Obj

abbrev pub Descriptors : Type 0
Descriptors = List (Option Obj)

abbrev pub entry : Option (Option Obj) → Option Obj
entry none = none
entry (some e) = e

abbrev pub look : Descriptors → ℕ → Option Obj
look t n = entry (get_elem? t n)

-- Puts an object at the lowest free descriptor.
abbrev pub place : Obj → Descriptors → Descriptors
place o [] = some o ∷ []
place o (none ∷ t) = some o ∷ t
place o (some x ∷ t) = some x ∷ place o t

abbrev pub lowest : Descriptors → ℕ
lowest [] = 0
lowest (none ∷ t) = 0
lowest (some x ∷ t) = suc (lowest t)

abbrev pub dup_in : Option Obj → Descriptors → Descriptors
dup_in none t = t
dup_in (some o) t = place o t

abbrev pub lists : Kernel
lists = record {
  Object = Obj;
  Table = Descriptors;
  refers = look;
  Close = λ n t t'. t' ≡ set t n none;
  Dup = λ n t t'. t' ≡ dup_in (look t n) t;
  Open = λ file mode t t'. t' ≡ place (file_object file mode) t;
  Pipe = λ p0 p1 t t'.
      (p0 ≡ lowest t)
      × (p1 ≡ lowest (place read_end t))
      × (t' ≡ place write_end (place read_end t));
  IsFile = λ o file mode. o ≡ file_object file mode;
  AreEnds = λ r w. (r ≡ read_end) × (w ≡ write_end);
}

look-lowest : (t : Descriptors) → look t (lowest t) ≡ none
look-lowest [] = refl
look-lowest (none ∷ t) = refl
look-lowest (some x ∷ t) = look-lowest t

look-place_lowest : (o : Obj) (t : Descriptors) → look (place o t) (lowest t) ≡ some o
look-place_lowest o [] = refl
look-place_lowest o (none ∷ t) = refl
look-place_lowest o (some x ∷ t) = look-place_lowest o t

look-place_ne : (o : Obj) (t : Descriptors) (m : ℕ) → m ≢ lowest t → look (place o t) m ≡ look t m
look-place_ne o [] zero h = absurd (h refl)
look-place_ne o [] (suc m) h = refl
look-place_ne o (none ∷ t) zero h = absurd (h refl)
look-place_ne o (none ∷ t) (suc m) h = refl
look-place_ne o (some x ∷ t) zero h = refl
look-place_ne o (some x ∷ t) (suc m) h = look-place_ne o t m (λ e. h (ap suc e))

lowest-eq :
    (t : Descriptors) (n : ℕ) → look t n ≡ none → ((m : ℕ) → m < n → look t m ≢ none) → n ≡ lowest t
lowest-eq [] zero e h = refl
lowest-eq [] (suc n) e h = absurd (h 0 (omega arith) refl)
lowest-eq (none ∷ t) zero e h = refl
lowest-eq (none ∷ t) (suc n) e h = absurd (h 0 (omega arith) refl)
lowest-eq (some x ∷ t) zero e h = cc
lowest-eq (some x ∷ t) (suc n) e h = ap suc (lowest-eq t n e (λ m l. h (suc m) (omega (arith, l))))

pub place-Sets :
    (o : Obj) (t : Descriptors) (n : ℕ) → IsLowest lists n t → Sets lists n (some o) t (place o t)
place-Sets o t n h =
    let e = lowest-eq t n h.free h.used in
    record {
      here = rw e (look-place_lowest o t);
      there = λ m q. look-place_ne o t m (λ e'. q (e' ∙ sym e));
    }

look-set_self : (t : Descriptors) (n : ℕ) → look (set t n none) n ≡ none
look-set_self [] n = refl
look-set_self (x ∷ t) zero = refl
look-set_self (x ∷ t) (suc n) = look-set_self t n

look-set_ne : (t : Descriptors) (n m : ℕ) → m ≢ n → look (set t n none) m ≡ look t m
look-set_ne [] n m h = refl
look-set_ne (x ∷ t) zero zero h = absurd (h refl)
look-set_ne (x ∷ t) zero (suc m) h = refl
look-set_ne (x ∷ t) (suc n) zero h = refl
look-set_ne (x ∷ t) (suc n) (suc m) h = look-set_ne t n m (λ e. h (ap suc e))

pipe_in_lists :
    (p0 p1 : ℕ) (t t' : Descriptors)
    → p0 ≡ lowest t
    → p1 ≡ lowest (place read_end t)
    → t' ≡ place write_end (place read_end t)
    → IsPiped lists p0 p1 t t'
pipe_in_lists p0 p1 t t' e0 e1 e =
    let r = look-place_lowest read_end t in
    let f = look-lowest (place read_end t) in
    let ne : p1 ≢ p0 = λ q. cc (q, e0, e1, r, f) in
    record {
      free0 = rw e0 (look-lowest t);
      free1 =
          sym (look-place_ne read_end t p1 (λ q. ne (q ∙ sym e0)))
          ∙ ap (look (place read_end t)) e1
          ∙ f;
      in_end = read_end;
      out_end = write_end;
      ends = (refl, refl);
      here0 = rw e (
          look-place_ne write_end (place read_end t) p0 (λ q. ne (e1 ∙ sym q))
          ∙ ap (look (place read_end t)) e0
          ∙ r);
      here1 = rw (e, e1) (look-place_lowest write_end (place read_end t));
      there = λ m q0 q1. rw e (
          look-place_ne write_end (place read_end t) m (λ q. q1 (q ∙ sym e1))
          ∙ look-place_ne read_end t m (λ q. q0 (q ∙ sym e0)));
    }

pub lists-IsLawful : IsLawful lists
lists-IsLawful = record {
  close-Sets = λ {n} {t} {t'} e. record {
    here = rw e (look-set_self t n);
    there = λ m q. rw e (look-set_ne t n m q);
  };
  dup-Sets = λ {m} {n} {t} {t'} {o} e e' h l. rw (e, e') (place-Sets o t n h);
  open-Sets = λ {n} {t} {t'} {file} {mode} e h.
      (file_object file mode, refl, rw e (place-Sets (file_object file mode) t n h));
  pipe-IsPiped = λ {p0} {p1} {t} {t'} e. pipe_in_lists p0 p1 t t' e.0 e.1 e.2;
}

pub lists-CanServe : CanServe lists
lists-CanServe = record {
  closes = λ n t. (set t n none, refl);
  dups = λ n t. (dup_in (look t n) t, refl);
  opens = λ file mode t. (place (file_object file mode) t, refl);
  pipes = λ t.
      (lowest t, lowest (place read_end t), place write_end (place read_end t), (refl, refl, refl));
}

look-below_lowest : (t : Descriptors) (m : ℕ) → m < lowest t → look t m ≢ none
look-below_lowest [] m l = absurd (omega arith)
look-below_lowest (none ∷ t) m l = absurd (omega arith)
look-below_lowest (some x ∷ t) zero l = λ e. cc
look-below_lowest (some x ∷ t) (suc m) l = look-below_lowest t m (omega arith)

pub lowest-IsLowest : (t : Descriptors) → IsLowest lists (lowest t) t
lowest-IsLowest t = record { free = look-lowest t; used = look-below_lowest t }
