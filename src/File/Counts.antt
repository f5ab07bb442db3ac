-- ===== src/File/Counts.antt =====
-- file.c: the reference counts are exact.
use cs461_mlfq_scheduler.File.{
  File, nfile, fd_none, fd_pipe, fd_inode, Close, keeps, drops, closes_pipe, puts_inode, last_close,
  filealloc, filealloc_loop, filedup, fileclose,
}
use native.Mathlib.Decide.{ℕ_discrete}
use cs461_mlfq_scheduler.Base.{
  ◌==◌, if◌then◌else◌, Bool-cases, length, length-append, update, ok, ℕ, zero, suc, ◌+◌, ◌-◌, ◌^◌,
  ◌≤◌, ◌<◌, ◌≡◌, refl, ap, ◌∙◌, inl, inr, some, List, [], ◌∷◌, ◌++◌, arith,
}

-- How often `i` is in the list.
abbrev pub count : ℕ → List ℕ → ℕ
count i [] = 0
count i (h ∷ hs) = (if h == i then 1 else 0) + count i hs

count-append : (i : ℕ) (hs gs : List ℕ) → count i (hs ++ gs) ≡ count i hs + count i gs
count-append i [] gs = omega arith
count-append i (h ∷ hs) gs = omega (arith, count-append i hs gs)

count_le : (i : ℕ) (hs : List ℕ) → count i hs ≤ length hs
count_le i [] = omega arith
count_le i (h ∷ hs) = let rest = count_le i hs in ground arith

-- Each file's count is that of the references to it.
abbrev pub IsCounted : (ℕ → File) → List ℕ → Type 0
IsCounted file hs = (i : ℕ) → (file i).ref ≡ count i hs

-- The file that `filealloc` returns had no reference, and has one.
filealloc_loop_lem :
    (n i : ℕ) (file : ℕ → File) (j : ℕ) (file' : ℕ → File)
    → filealloc_loop n i file ≡ some (j, file')
    → ((file j).ref ≡ 0) × (file' ≡ update file j (record (file j) { ref = 1 }))
unfolding filealloc_loop
filealloc_loop_lem zero i file j file' e = absurd (cc)
filealloc_loop_lem (suc n) i file j file' e = elim (Bool-cases ((file i).ref == 0)) [
  | inl free ↦ let same : i ≡ j = ground arith in (ground arith, ground arith)
  | inr used ↦ filealloc_loop_lem n (i + 1) file j file' (ground arith)
]

-- The table and the references that descriptors hold, in runs that open, duplicate and close, in
-- any order, and that fill in the fields of files. There are less than 2 ^ 31 references.
pub data Uses : (ℕ → File) → List ℕ → Type 0 where
  none_open : {file : ℕ → File} → ((i : ℕ) → (file i).ref ≡ 0) → Uses file []
  opens :
      {file file' : ℕ → File} {hs : List ℕ} (i : ℕ)
      → Uses file hs
      → length hs + 1 < 2 ^ 31
      → filealloc file ≡ some (i, file')
      → Uses file' (i ∷ hs)
  dups :
      {file file' : ℕ → File} (before after : List ℕ) (i : ℕ)
      → Uses file (before ++ i ∷ after)
      → length (before ++ i ∷ after) + 1 < 2 ^ 31
      → filedup i file ≡ ok file'
      → Uses file' (i ∷ before ++ i ∷ after)
  closes :
      {file file' : ℕ → File} (before after : List ℕ) (i : ℕ) (c : Close)
      → Uses file (before ++ i ∷ after)
      → fileclose i file ≡ ok (c, file')
      → Uses file' (before ++ after)
  fills :
      {file : ℕ → File} {hs : List ℕ} (i : ℕ) (f : File)
      → Uses file hs
      → f.ref ≡ (file i).ref
      → Uses (update file i f) hs

-- One reference of a list taken out.
count-remove :
    (j i : ℕ) (before after : List ℕ)
    → count j (before ++ i ∷ after) ≡ (if i == j then 1 else 0) + count j (before ++ after)
count-remove j i before after =
    let all = count-append j before (i ∷ after) in
    let rest = count-append j before after in omega arith

ref-filedup :
    (i : ℕ) (file file' : ℕ → File) (j : ℕ)
    → (file i).ref + 1 < 2 ^ 32
    → filedup i file ≡ ok file'
    → (file' j).ref ≡ (if i == j then 1 else 0) + (file j).ref
unfolding filedup
ref-filedup i file file' j small e = ground arith

ref-fileclose :
    (i : ℕ) (file file' : ℕ → File) (c : Close) (j : ℕ)
    → (file i).ref < 2 ^ 31
    → fileclose i file ≡ ok (c, file')
    → (file j).ref ≡ (if i == j then 1 else 0) + (file' j).ref
unfolding fileclose
ref-fileclose i file file' c j small e = ground arith

length_bound : (file : ℕ → File) (hs : List ℕ) → Uses file hs → length hs < 2 ^ 31
length_bound file hs (none_open h) = omega arith
length_bound file hs (opens i u b e) = omega arith
length_bound file hs (dups before after i u b e) = omega arith
length_bound file' hs (closes {file} before after i c u e) =
    let all = length-append before (i ∷ after) in
    let rest = length-append before after in
    let ih = length_bound file (before ++ i ∷ after) u in omega arith
length_bound file' hs (fills {file} i f u e) = length_bound file hs u

-- The reference counts are exact: in every run of `filealloc`, `filedup` and `fileclose` each file's
-- `ref` is the number of references to it that are held.
pub counts_exact : (file : ℕ → File) (hs : List ℕ) → Uses file hs → IsCounted file hs
unfolding filealloc
counts_exact file hs (none_open h) j = h j
counts_exact file' hs' (opens {file} {hs = hs} i u b e) j =
    let (zero_ref, eq) = filealloc_loop_lem nfile 0 file i file' e in
    let ih = counts_exact file hs u j in let ih' = counts_exact file hs u i in rw eq (ground arith)
counts_exact file' hs' (dups {file} before after i u b e) j =
    let ih = counts_exact file (before ++ i ∷ after) u j in
    let ih' = counts_exact file (before ++ i ∷ after) u i in
    let bound = count_le i (before ++ i ∷ after) in
    ref-filedup i file file' j (omega arith) e ∙ ap (λ m. (if i == j then 1 else 0) + m) ih
counts_exact file' hs' (closes {file} before after i c u e) j =
    let ih = counts_exact file (before ++ i ∷ after) u j in
    let ih' = counts_exact file (before ++ i ∷ after) u i in
    let bound = count_le i (before ++ i ∷ after) in
    let small = length_bound file (before ++ i ∷ after) u in
    let step = ref-fileclose i file file' c j (omega arith) e in
    let rest = count-remove j i before after in omega arith
counts_exact file' hs (fills {file} i f u e) j =
    let ih = counts_exact file hs u j in let ih' = counts_exact file hs u i in ground arith

-- What has to happen behind the last reference to a file: `pipeclose` of its pipe with its end, or
-- `iput` of its inode.
abbrev pub IsClosed : File → Close → Type 0
IsClosed f c =
    (f.type ≡ fd_none → c ≡ drops)
    × ((p : ℕ) → f.type ≡ fd_pipe p → c ≡ closes_pipe p f.writable)
    × ((ip : ℕ) → f.type ≡ fd_inode ip → c ≡ puts_inode ip)

last_close-IsClosed : (f : File) → IsClosed f (last_close f)
last_close-IsClosed f = (λ e. ground arith, λ p e. ground arith, λ ip e. ground arith)

fileclose_cases :
    (i : ℕ) (file : ℕ → File)
    → 0 < (file i).ref
    → (file i).ref < 2 ^ 31
    → (c : Close) × (file' : ℕ → File) × (fileclose i file ≡ ok (c, file'))
      × ((file i).ref ≡ 1
          → IsClosed (file i) c
            × (file' ≡ update file i (record (file i) { ref = 0; type = fd_none })))
      × (1 < (file i).ref
          → (c ≡ keeps) × (file' ≡ update file i (record (file i) { ref = (file i).ref - 1 })))
unfolding fileclose
fileclose_cases i file some_ small = elim (ℕ_discrete (file i).ref 1) [
  | yes one ↦ (
    last_close (file i),
    update file i (record (file i) { ref = 0; type = fd_none }),
    ground arith,
    λ h. (last_close-IsClosed (file i), refl),
    λ h. absurd (omega arith),
  )
  | no more ↦ (
    keeps,
    update file i (record (file i) { ref = (file i).ref - 1 }),
    ground arith,
    λ h. absurd (more h),
    λ h. (refl, refl),
  )
]

-- Closing a reference that is held does not panic. If no other reference to the file is held, then
-- the pipe is closed, at the end that the file writes or reads, or the inode is put, and the slot is
-- free; else nothing is closed and one reference less is counted. No other file changes.
pub close_held :
    (file : ℕ → File) (before after : List ℕ) (i : ℕ)
    → Uses file (before ++ i ∷ after)
    → (c : Close) × (file' : ℕ → File) × (fileclose i file ≡ ok (c, file'))
      × (count i (before ++ after) ≡ 0
          → IsClosed (file i) c
            × (file' ≡ update file i (record (file i) { ref = 0; type = fd_none })))
      × (0 < count i (before ++ after)
          → (c ≡ keeps) × (file' ≡ update file i (record (file i) { ref = (file i).ref - 1 })))
close_held file before after i u =
    let exact = counts_exact file (before ++ i ∷ after) u i in
    let bound = count_le i (before ++ i ∷ after) in
    let small = length_bound file (before ++ i ∷ after) u in
    let split : count i (before ++ i ∷ after) ≡ 1 + count i (before ++ after) =
      count-remove i i before after ∙ ground arith in
    let (c, file', e, last, kept) = fileclose_cases i file (omega arith) (omega arith) in
    (c, file', e, λ h. last (omega arith), λ h. kept (omega arith))
