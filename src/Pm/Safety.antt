-- ===== src/Pm/Safety.antt =====
-- What the handlers of project2/misc.c make of the group calls.
use cs551_assignments.Common.{
  Bool-cases, List, Option, Option-cases, Outcome, Run, Search, Text, [], absent, arith, false,
  fault, found, get_elem?, if◌then◌else◌, inl, inr, length, ltb, none, ok, outside, refl, some,
  subst, suc, ℕ, ◌<◌, ◌==◌, ◌>>=◌, ◌∷◌, ◌≡◌, ◌≢◌, ◌⊎◌,
}
use cs551_assignments.Group.Defs.{
  Code, Groups, find_empty_group_slot, find_named, group_name_len_overflow, max_group_name_len,
  max_mesg_len,
}
use cs551_assignments.Group.Invariant.Table.{IsInside, IsValid}
use cs551_assignments.Pm.Handlers.{
  Kernel, Message, Target, c_string, in_use, may_copy, spare, unwritable, gopen, group_name_of,
  mesg_of, mreceive, msend,
}
use cs551_assignments.Group.Admin.{Call, open_checked, open_slot, opengroup}
use cs551_assignments.Group.Messages.{Received, receivemsg, sendmsg}
use cs551_assignments.Group.Invariant.Traffic.Send.{sendmsg-Keeps}
use cs551_assignments.Group.Invariant.Traffic.Receive.{receivemsg-Keeps}

-- A string in a buffer is shorter than the buffer.
c_string-lt : (xs : List ℕ) → Outcome (λ t. length t < length xs) (Unit {0}) (c_string xs)
unfolding c_string
c_string-lt [] = tt
c_string-lt (x ∷ xs) = elim (Bool-cases (x == 0)) [
  | inl z ↦ rw z (omega arith)
  | inr z ↦ rw z (more (c_string xs) (c_string-lt xs))
]
  where
    more :
        (r : Run Text)
        → Outcome (λ t. length t < length xs) (Unit {0}) r
        → Outcome (λ t. length t < suc (length xs)) (Unit {0}) (r >>= λ t. ok (x ∷ t))
    more (ok t) h = omega (arith, h)
    more fault h = tt

-- The same of the two buffers of a handler.
below : (n : ℕ) (xs : List ℕ) → length xs ≡ n → Outcome (λ t. length t < n) (Unit {0}) (c_string xs)
below n xs e = subst (λ b. Outcome (λ t. length t < b) (Unit {0}) (c_string xs)) e (c_string-lt xs)

open_checked-ne :
    (name : Text) (s t : Groups) (r : Search)
    → open_checked name s r ≢ ok (group_name_len_overflow, t)
unfolding open_checked
open_checked-ne name s t (found i) e = cc
open_checked-ne name s t absent e = slot (find_empty_group_slot s) e
  where
    slot : (r : Search) → open_slot name s r ≢ ok (group_name_len_overflow, t)
    slot (found i) =
        unfold open_slot in
        elim (Option-cases (get_elem? s.groups_list i)) [
          | inl gone ↦ rw gone (λ e. cc)
          | inr (g, at) ↦ rw at (λ e. cc)
        ]
    slot absent = unfold open_slot in λ e. cc
    slot outside = unfold open_slot in λ e. cc
open_checked-ne name s t outside e = cc

-- sendmsg with a text shorter than the array.
sendmsg_short :
    (name mesg : Text) (s : Groups)
    → IsValid s
    → IsInside s
    → length mesg < max_mesg_len
    → Outcome (λ (c, t). IsValid t) ⊥ (sendmsg (some name) mesg s)
sendmsg_short name mesg s v inside h =
    weaken (sendmsg (some name) mesg s) (sendmsg-Keeps name mesg s v inside)
  where
    weaken :
        (r : Call)
        → Outcome (λ (c, t). IsValid t) (length mesg ≡ max_mesg_len) r
        → Outcome (λ (c, t). IsValid t) ⊥ r
    weaken (ok a) k = k
    weaken fault k = omega (arith, k)

module _ (k : Kernel) where
  -- msend stores only texts that fit: on a well-formed table with `numGroups` at most ten it
  -- returns, and keeps the table well-formed, unless one of the two buffers that it copied has
  -- no NUL.
  pub msend-Keeps :
      (m : Message) (s : Groups)
      → IsValid s
      → IsInside s
      → Outcome
          (λ (c, t). IsValid t)
          ((group_name_of k m ≡ fault) ⊎ (mesg_of k m ≡ fault))
          (msend k m s)
  unfolding msend mesg_of
  msend-Keeps m s v inside =
      go (group_name_of k m) (mesg_of k m) refl refl
        (below max_mesg_len _ (k.datacopy_size m.m_source m.m1_p2 max_mesg_len))
    where
      Fails : Type 0
      Fails = (group_name_of k m ≡ fault) ⊎ (mesg_of k m ≡ fault)

      go :
          (a b : Run Text)
          → group_name_of k m ≡ a
          → mesg_of k m ≡ b
          → Outcome (λ t. length t < max_mesg_len) (Unit {0}) b
          → Outcome
              (λ (c, t). IsValid t)
              Fails
              (a >>= λ name. b >>= λ mesg. sendmsg (some name) mesg s)
      go fault b e f h = inl e
      go (ok name) fault e f h = inr f
      go (ok name) (ok mesg) e f h =
          weaken (sendmsg (some name) mesg s) (sendmsg_short name mesg s v inside h)
        where
          weaken :
              (r : Call) → Outcome (λ (c, t). IsValid t) ⊥ r → Outcome (λ (c, t). IsValid t) Fails r
          weaken (ok a) q = q
          weaken fault q = absurd q

  -- Through gopen no name is too long: GROUP_NAME_LEN_OVERFLOW is never its answer.
  pub gopen-ne-overflow :
      (m : Message) (s t : Groups) → gopen k m s ≢ ok (group_name_len_overflow, t)
  unfolding gopen group_name_of opengroup
  gopen-ne-overflow m s t =
      go (group_name_of k m)
        (below max_group_name_len _ (k.datacopy_size m.m_source m.m1_p1 max_group_name_len))
    where
      go :
          (a : Run Text)
          → Outcome (λ t. length t < max_group_name_len) (Unit {0}) a
          → (a >>= λ name. opengroup (some name) s) ≢ ok (group_name_len_overflow, t)
      go fault h = λ e. cc
      go (ok name) h = elim (Bool-cases (length name == 0)) [
        | inl z ↦ rw z (λ e. cc)
        | inr z ↦
            let short : ltb max_group_name_len (length name) ≡ false = ground arith in
            rw (z, short) (open_checked-ne name s t (find_named name s))
      ]

  -- On a well-formed table with `numGroups` at most ten mreceive returns and keeps it
  -- well-formed, unless its buffer has no NUL, or the pointer that it never set leads anywhere but
  -- to spare memory: into memory in use, GroupsList among it, or where it cannot write.
  pub mreceive-Keeps :
      (target : Target) (m : Message) (s : Groups)
      → IsValid s
      → IsInside s
      → Outcome
          (λ (c, text, t). IsValid t)
          ((group_name_of k m ≡ fault) ⊎ (target ≢ spare))
          (mreceive k target m s)
  unfolding mreceive
  mreceive-Keeps target m s v inside = go (group_name_of k m) refl
    where
      Fails : Type 0
      Fails = (group_name_of k m ≡ fault) ⊎ (target ≢ spare)

      write :
          (b : Target) (r : Code × Option Text × Groups)
          → b ≡ target
          → IsValid r.2
          → Outcome (λ (c, text, t). IsValid t) Fails (if may_copy k b r.1 then ok r else fault)
      write b (c, none, t) e w = w
      write spare (c, some text, t) e w = w
      write in_use (c, some text, t) e w = inr (λ q. ground (arith, e, q))
      write unwritable (c, some text, t) e w = inr (λ q. ground (arith, e, q))

      go :
          (a : Run Text)
          → group_name_of k m ≡ a
          → Outcome
              (λ (c, text, t). IsValid t)
              Fails
              (a >>= λ name. receivemsg (some name) m.m1_i1 s >>= λ r.
                if may_copy k target r.1 then ok r else fault)
      go fault e = inl e
      go (ok name) e =
          received (receivemsg (some name) m.m1_i1 s)
            (receivemsg-Keeps (some name) m.m1_i1 s v inside)
        where
          received :
              (r : Received)
              → Outcome (λ (c, text, t). IsValid t) ⊥ r
              → Outcome
                  (λ (c, text, t). IsValid t)
                  Fails
                  (r >>= λ r. if may_copy k target r.1 then ok r else fault)
          received (ok r) h = write target r refl h
          received fault h = absurd h
