-- ===== src/Recycle/Records.antt =====
-- The arrays of Project3/p3_code/mfs/new.c stay in bounds, or the call that leaves them is named.
use cs551_assignments.Common.{
  Bool-cases, IsDistinct, IsDistinct-snoc, Outcome, Search, Searched, absent, arith, fault, found,
  has, has-snoc_self, has_of_hit, inl, inr, length, length-set, ltb, ltb→lt, not-has_of_miss, ok,
  outside, pos, refl, search-Searched, subst, sym, take, take-set_add_one, true, ℕ, ◌==◌, ◌>>=◌,
  ◌∙◌, ◌≡◌, ◌≤◌, ◌⊎◌,
}
use cs551_assignments.Recycle.Mfs.{
  Bin, Reply, append_dir, empty_bin, error, fs_rcmkdir, is_rcdir, max_records,
}
use cs551_assignments.Recycle.Vfs.{Lookup, do_rcmkdir}

pub record IsValid (b : Bin) : Type 0 where
  pub dirs : length b.rcdirs ≡ max_records
  pub dirs_bounded : b.cursor1 ≤ max_records
  pub dirs_distinct : IsDistinct (take b.cursor1 b.rcdirs)
  pub nodes : length b.rcnodes ≡ max_records
  pub nodes_bounded : b.cursor2 ≤ max_records

pub empty_bin-IsValid : IsValid empty_bin
unfolding empty_bin
empty_bin-IsValid = record {
  dirs = refl;
  dirs_bounded = omega arith;
  dirs_distinct = tt;
  nodes = refl;
  nodes_bounded = omega arith;
}

abbrev pub IsRcdir : ℕ → Bin → Type 0
IsRcdir inode b = has inode (take b.cursor1 b.rcdirs) ≡ true

append_dir-Keeps :
    (inode : ℕ) (b : Bin) (r : Search)
    → IsValid b
    → Searched (λ x. x == inode) b.cursor1 b.rcdirs r
    → Outcome
        (λ (r, b'). IsValid b' × IsRcdir inode b')
        (b.cursor1 ≡ max_records)
        (append_dir inode b r)
unfolding append_dir
append_dir-Keeps inode b (found i) v h = (v, has_of_hit inode i b.cursor1 b.rcdirs h.1 h.2 h.3)
append_dir-Keeps inode b absent v h = elim (Bool-cases (ltb b.cursor1 (length b.rcdirs))) [
  | inl room ↦
      let grown = take-set_add_one b.cursor1 b.rcdirs inode (ltb→lt _ _ room) in
      let miss = not-has_of_miss inode (take b.cursor1 b.rcdirs) h.1 in
      rw room (
        record {
          dirs = length-set b.rcdirs b.cursor1 inode ∙ v.dirs;
          dirs_bounded = ground (arith, v.dirs);
          dirs_distinct =
              subst IsDistinct (sym grown) (IsDistinct-snoc inode _ v.dirs_distinct miss);
          nodes = v.nodes;
          nodes_bounded = v.nodes_bounded;
        },
        subst (λ xs. has inode xs ≡ true) (sym grown) (has-snoc_self inode _),
      )
  | inr full ↦ rw full (ground (arith, v.dirs, v.dirs_bounded))
]
append_dir-Keeps inode b outside v h = absurd (omega (arith, h.0, v.dirs, v.dirs_bounded))

-- do_rcmkdir registers the directory, once, and keeps the records well-formed; only with a
-- hundred directories registered it may write past the array. Where it answers with an error it
-- changes nothing.
pub do_rcmkdir-Keeps :
    (l : Lookup) (inode : ℕ) (b : Bin)
    → IsValid b
    → Outcome
        (λ (r, b'). IsValid b' × (((r ≡ pos 0) × IsRcdir inode b') ⊎ ((r ≡ error) × (b' ≡ b))))
        (b.cursor1 ≡ max_records)
        (do_rcmkdir l inode b)
unfolding do_rcmkdir fs_rcmkdir is_rcdir
do_rcmkdir-Keeps l inode b v = elim (Bool-cases l.resolves) [
  | inl yes' ↦ rw yes' (
      reply (append_dir inode b (is_rcdir inode b))
        (append_dir-Keeps inode b (is_rcdir inode b) v (search-Searched _ _ _)))
  | inr no' ↦ rw no' (v, inr (refl, refl))
]
  where
    reply :
        (r : Reply)
        → Outcome (λ (r, b'). IsValid b' × IsRcdir inode b') (b.cursor1 ≡ max_records) r
        → Outcome
            (λ (r, b'). IsValid b' × (((r ≡ pos 0) × IsRcdir inode b') ⊎ ((r ≡ error) × (b' ≡ b))))
            (b.cursor1 ≡ max_records)
            (r >>= λ (_, b'). ok (pos 0, b'))
    reply (ok (r, b')) h = (h.0, inl (refl, h.1))
    reply fault h = h
