-- ===== src/Icache/Unique.antt =====
-- fs.c: an inode is in memory at most once.
use mathlib.Core.Path.{subst}
use native.Mathlib.Decide.{ℕ_discrete}
use cs461_mlfq_scheduler.File.{below_one}
use cs461_mlfq_scheduler.Icache.{
  Inode, ninode, is_inode, Search, hit, miss, remember, iget_scan, take_slot, one_more, iget, idup,
  iput_drop,
}
use cs461_mlfq_scheduler.Base.{
  ◌==◌, ==_iff, Bool-cases, Option-cases, update, ok, ℕ, zero, suc, ◌+◌, ◌≤◌, ◌<◌, ◌≡◌, refl, ◌⊎◌,
  inl, inr, Bool, true, false, Option, none, some, arith,
}

-- Two inodes in use with one number on one device are one.
abbrev pub IsUnique : (ℕ → Inode) → Type 0
IsUnique inode =
    (i j : ℕ)
    → i < ninode
    → j < ninode
    → below_one (inode i).ref ≡ false
    → below_one (inode j).ref ≡ false
    → (inode i).dev ≡ (inode j).dev
    → (inode i).inum ≡ (inode j).inum
    → i ≡ j

-- What the loop of `iget` finds in slots `i` to `i + n`.
pub data Found (n i : ℕ) (empty : Option ℕ) (dev inum : ℕ) (inode : ℕ → Inode) (r : Search)
    : Type 0 where
  there :
      (j : ℕ)
      → r ≡ hit j
      → j < i + n
      → is_inode dev inum (inode j) ≡ true
      → Found n i empty dev inum inode r
  absent :
      (e : Option ℕ)
      → r ≡ miss e
      → ((j : ℕ) → i ≤ j → j < i + n → is_inode dev inum (inode j) ≡ false)
      → ((j : ℕ) → e ≡ some j → (empty ≡ some j) ⊎ ((j < i + n) × ((inode j).ref ≡ 0)))
      → Found n i empty dev inum inode r

iget_scan_lem :
    (n i : ℕ) (empty : Option ℕ) (dev inum : ℕ) (inode : ℕ → Inode)
    → Found n i empty dev inum inode (iget_scan n i empty dev inum inode)
unfolding iget_scan
iget_scan_lem zero i empty dev inum inode =
    absent empty refl (λ j lo hi. absurd (omega arith)) (λ j e. inl e)
iget_scan_lem (suc n) i empty dev inum inode = elim (Bool-cases (is_inode dev inum (inode i))) [
  | inl here ↦ there i (ground arith) (omega arith) here
  | inr off ↦ elim (iget_scan_lem n (i + 1) (remember empty i (inode i)) dev inum inode) [
    | there j e lt match ↦ there j (ground arith) (omega arith) match
    | absent e r none_ slot ↦
        absent e (ground arith)
          (λ j lo hi. elim (ℕ_discrete i j) [
            | yes eq ↦ subst (λ m. is_inode dev inum (inode m) ≡ false) eq off
            | no ne ↦ none_ j (omega arith) (omega arith)
          ])
          (λ j eq. elim (slot j eq) [
            | inl kept ↦ was empty j kept
            | inr (lt, zero_ref) ↦ inr (omega arith, zero_ref)
          ])
  ]
]
  where
    was :
        (empty : Option ℕ) (j : ℕ)
        → remember empty i (inode i) ≡ some j
        → (empty ≡ some j) ⊎ ((j < i + suc n) × ((inode j).ref ≡ 0))
    was (some e) j kept = inl kept
    was none j kept = elim (Bool-cases ((inode i).ref == 0)) [
      | inl free ↦
          let same : i ≡ j = ground arith in
          inr (omega arith, subst (λ m. (inode m).ref ≡ 0) same ((==_iff (inode i).ref 0).0 free))
      | inr used ↦ absurd (ground arith)
    ]

-- What `iget` returns: the inode that is in memory already, with one reference more; or, if it is
-- not, a slot without references, which is now the inode's, not yet read.
pub data Gotten (dev inum : ℕ) (inode : ℕ → Inode) (i : ℕ) (inode' : ℕ → Inode) : Type 0 where
  cached :
      is_inode dev inum (inode i) ≡ true
      → inode' ≡ update inode i (one_more (inode i))
      → Gotten dev inum inode i inode'
  loaded :
      ((j : ℕ) → j < ninode → is_inode dev inum (inode j) ≡ false)
      → (inode i).ref ≡ 0
      → inode' ≡ update inode i (take_slot dev inum (inode i))
      → Gotten dev inum inode i inode'

-- `iget`, if it comes back, returns a slot of the table that has the inode behind it: the one that
-- had it before, with one reference more; or, if no slot in use had it, one without references,
-- which now has the inode, not yet read from disk, and one reference. No other slot changes.
pub iget_lem :
    (dev inum : ℕ) (inode : ℕ → Inode) (i : ℕ) (inode' : ℕ → Inode)
    → iget dev inum inode ≡ ok (i, inode')
    → (i < ninode) × Gotten dev inum inode i inode'
unfolding iget
iget_lem dev inum inode i inode' e = elim (iget_scan_lem ninode 0 none dev inum inode) [
  | there j r lt match ↦
      let same : j ≡ i = ground arith in
      (
        omega arith,
        cached (subst (λ m. is_inode dev inum (inode m) ≡ true) same match) (ground arith),
      )
  | absent empty r none_ slot ↦ elim (Option-cases empty) [
    | inl full ↦ absurd (ground arith)
    | inr (j, at) ↦
        let same : j ≡ i = ground arith in
        elim (slot j at) [
          | inl bad ↦ absurd (cc)
          | inr (lt, zero_ref) ↦ (
            omega arith,
            loaded (λ m h. none_ m (omega arith) (omega arith))
                (subst (λ m. (inode m).ref ≡ 0) same zero_ref) (ground arith),
          )
        ]
  ]
]

-- A step that gives no inode another number, and no slot its first reference.
IsUnique-kept :
    (inode inode' : ℕ → Inode)
    → ((j : ℕ)
        → ((inode' j).dev ≡ (inode j).dev)
          × ((inode' j).inum ≡ (inode j).inum)
          × (below_one (inode' j).ref ≡ false → below_one (inode j).ref ≡ false))
    → IsUnique inode
    → IsUnique inode'
IsUnique-kept inode inode' same v a b ha hb ra rb d n =
    let (da, na, ua) = same a in
    let (db, nb, ub) = same b in v a b ha hb (ua ra) (ub rb) (omega arith) (omega arith)

IsUnique-Gotten :
    (dev inum : ℕ) (inode : ℕ → Inode) (i : ℕ) (inode' : ℕ → Inode)
    → IsUnique inode
    → Gotten dev inum inode i inode'
    → IsUnique inode'
IsUnique-Gotten dev inum inode i inode' v (cached here same) =
    IsUnique-kept inode inode' (λ j. rw same (ground arith)) v
IsUnique-Gotten dev inum inode i inode' v (loaded none_ free same) = rw same (λ a b ha hb ra rb d n.
    elim (ℕ_discrete i a) [
      | yes ia ↦ elim (ℕ_discrete i b) [
        | yes ib ↦ omega arith
        | no nb ↦ let gone = none_ b hb in absurd (ground arith)
      ]
      | no na ↦ elim (ℕ_discrete i b) [
        | yes ib ↦ let gone = none_ a ha in absurd (ground arith)
        | no nb ↦ v a b ha hb (ground arith) (ground arith) (ground arith) (ground arith)
      ]
    ])

-- The cache in runs of `iget`, `idup` and `iput` on inodes with a reference, in any order, and of
-- what the other functions of fs.c change in an inode.
pub data Runs : (ℕ → Inode) → Type 0 where
  boot : {inode : ℕ → Inode} → ((i : ℕ) → (inode i).ref ≡ 0) → Runs inode
  gets :
      {inode inode' : ℕ → Inode} (dev inum i : ℕ)
      → Runs inode
      → iget dev inum inode ≡ ok (i, inode')
      → Runs inode'
  dups :
      {inode : ℕ → Inode} (i : ℕ)
      → Runs inode
      → below_one (inode i).ref ≡ false
      → Runs (idup i inode)
  puts :
      {inode : ℕ → Inode} (freed : Bool) (i : ℕ)
      → Runs inode
      → below_one (inode i).ref ≡ false
      → Runs (iput_drop freed i inode)
  changes :
      {inode : ℕ → Inode} (i : ℕ) (ip : Inode)
      → Runs inode
      → ip.dev ≡ (inode i).dev
      → ip.inum ≡ (inode i).inum
      → ip.ref ≡ (inode i).ref
      → Runs (update inode i ip)

-- An inode is in memory once: in every run no two slots with references have the same number on the
-- same device, so all processes that use an inode share its lock.
pub one_inode : (inode : ℕ → Inode) → Runs inode → IsUnique inode
unfolding idup iput_drop
one_inode inode (boot h) = λ a b ha hb ra rb d n. let z = h a in absurd (ground arith)
one_inode inode' (gets {inode} dev inum i r e) =
    IsUnique-Gotten dev inum inode i inode' (one_inode inode r)
      (iget_lem dev inum inode i inode' e).1
one_inode inode' (dups {inode} i r held) =
    IsUnique-kept inode (update inode i (one_more (inode i))) (λ j. ground arith)
      (one_inode inode r)
one_inode inode' (puts {inode} freed i r held) =
    IsUnique-kept inode inode' (λ j. ground arith) (one_inode inode r)
one_inode inode' (changes {inode} i ip r d n c) =
    IsUnique-kept inode (update inode i ip) (λ j. ground arith) (one_inode inode r)
