-- ===== src/Pm/Tests.antt =====
-- The handlers and the tables of calls, at concrete messages.
-- A buffer that holds the name "a".
use cs551_assignments.Common.{
  List, Outcome, [], ap, fault, length, length-replicate, ok, refl, replicate, suc, zero, ℕ, ◌∷◌,
  ◌≡◌, ◌≢◌, ◌⊎◌,
}
use cs551_assignments.Group.Defs.{group_name_len_overflow, groups_init}
use cs551_assignments.Group.Invariant.Table.{IsInside, IsValid, groups_init-IsValid}
use cs551_assignments.Pm.Handlers.{
  Kernel, Message, gopen, group_name_of, in_use, spare, mesg_of, mreceive, msend,
}
use cs551_assignments.Pm.Safety.{gopen-ne-overflow, mreceive-Keeps, msend-Keeps}

buffer : ℕ → List ℕ
buffer zero = []
buffer (suc n) = b'a' ∷ replicate n 0

buffer-length : (n : ℕ) → length (buffer n) ≡ n
unfolding buffer
buffer-length zero = refl
buffer-length (suc n) = ap suc (length-replicate {A = ℕ} n 0)

abbrev kernel : Kernel
kernel = record {
  datacopy = λ source address bytes. buffer bytes;
  datacopy_size = λ source address bytes. buffer-length bytes;
}

abbrev message : Message
message = record { m_source = 3; m1_i1 = 7; m1_p1 = 1000; m1_p2 = 2000 }

valid : IsValid groups_init
valid = groups_init-IsValid.0

inside : IsInside groups_init
inside = groups_init-IsValid.1

msend-Keeps_example :
    Outcome
      (λ (c, t). IsValid t)
      ((group_name_of kernel message ≡ fault) ⊎ (mesg_of kernel message ≡ fault))
      (msend kernel message groups_init)
msend-Keeps_example = msend-Keeps kernel message groups_init valid inside

mreceive-Keeps_example :
    Outcome
      (λ (c, text, t). IsValid t)
      ((group_name_of kernel message ≡ fault) ⊎ (in_use ≢ spare))
      (mreceive kernel in_use message groups_init)
mreceive-Keeps_example = mreceive-Keeps kernel in_use message groups_init valid inside

gopen-ne-overflow_example :
    gopen kernel message groups_init ≢ ok (group_name_len_overflow, groups_init)
gopen-ne-overflow_example = gopen-ne-overflow kernel message groups_init groups_init
