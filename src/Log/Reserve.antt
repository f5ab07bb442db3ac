-- ===== src/Log/Reserve.antt =====
-- log.c: the space in the log that `begin_op` reserves for an operation.
use cs461_mlfq_scheduler.Log.{
  Store, Log, maxopblocks, logsize, begin_round, end_round, end_commit, commit, log_write,
}
use cs461_mlfq_scheduler.Log.Space.{recorded}
use cs461_mlfq_scheduler.Base.{
  length, length-append, All, update, ok, ℕ, suc, ◌+◌, ◌*◌, ◌≤◌, ◌<◌, ◌≡◌, Bool, true, false, List,
  [], ◌∷◌, ◌++◌, arith,
}

abbrev pub sum : List ℕ → ℕ
sum [] = 0
sum (k ∷ ks) = k + sum ks

-- The logs of runs from an idle one, each with the number of blocks that each admitted operation
-- may still write: an operation writes at most MAXOPBLOCKS blocks.
pub data Reaches : Log → List ℕ → Type 0 where
  idle : {log : Log} → log.outstanding ≡ 0 → log.committing ≡ false → log.n ≡ 0 → Reaches log []
  admit :
      {log log' : Log} {left : List ℕ}
      → Reaches log left
      → begin_round log ≡ (true, log')
      → Reaches log' (maxopblocks ∷ left)
  write :
      {log log' : Log} (b : ℕ) (st st' : Store) (before after : List ℕ) (k : ℕ)
      → Reaches log (before ++ suc k ∷ after)
      → log_write b log st ≡ ok (log', st')
      → Reaches log' (before ++ k ∷ after)
  leave :
      {log log' : Log} (last : Bool) (before after : List ℕ) (k : ℕ)
      → Reaches log (before ++ k ∷ after)
      → end_round log ≡ ok (last, log')
      → Reaches log' (before ++ after)
  committed :
      {log : Log} (st : Store)
      → Reaches log []
      → log.committing ≡ true
      → Reaches (end_commit (commit log st).0) []

-- The reservation: what is logged and what may still be written fits, for at most three
-- operations.
IsReserved : Log → List ℕ → Type 0
IsReserved log left =
    (log.outstanding ≡ length left)
    × (length left ≤ 3)
    × (log.n + sum left ≤ logsize)
    × All (λ k. k ≤ maxopblocks) left

sum-append : (ks ls : List ℕ) → sum (ks ++ ls) ≡ sum ks + sum ls
sum-append [] ls = omega arith
sum-append (k ∷ ks) ls = omega (arith, sum-append ks ls)

sum_le : (ks : List ℕ) → All (λ k. k ≤ maxopblocks) ks → sum ks ≤ maxopblocks * length ks
sum_le [] h = omega arith
sum_le (k ∷ ks) (h, hs) = omega (arith, sum_le ks hs)

All-shrink :
    (ks ls : List ℕ) (k : ℕ)
    → All (λ x. x ≤ maxopblocks) (ks ++ suc k ∷ ls)
    → All (λ x. x ≤ maxopblocks) (ks ++ k ∷ ls)
All-shrink [] ls k (h, hs) = (omega arith, hs)
All-shrink (x ∷ ks) ls k (h, hs) = (h, All-shrink ks ls k hs)

All-remove :
    (ks ls : List ℕ) (k : ℕ)
    → All (λ x. x ≤ maxopblocks) (ks ++ k ∷ ls)
    → All (λ x. x ≤ maxopblocks) (ks ++ ls)
All-remove [] ls k (h, hs) = hs
All-remove (x ∷ ks) ls k (h, hs) = (h, All-remove ks ls k hs)

-- One round of `begin_op` admits if another MAXOPBLOCKS for each operation fit.
begin_round_lem :
    (log log' : Log)
    → begin_round log ≡ (true, log')
    → (log.n + (log.outstanding + 1) * maxopblocks ≤ logsize)
      × (log'.outstanding ≡ log.outstanding + 1)
      × (log'.n ≡ log.n)
unfolding begin_round
begin_round_lem log log' h = ground arith

end_round_lem :
    (log log' : Log) (last : Bool)
    → 0 < log.outstanding
    → log.outstanding ≤ 3
    → end_round log ≡ ok (last, log')
    → (log'.outstanding + 1 ≡ log.outstanding) × (log'.n ≡ log.n)
unfolding end_round
end_round_lem log log' last some_ few h = ground arith

log_write_bound :
    (log log' : Log) (b : ℕ) (st st' : Store)
    → log_write b log st ≡ ok (log', st')
    → (log'.outstanding ≡ log.outstanding) × (log'.n ≤ log.n + 1)
unfolding log_write
log_write_bound log log' b st st' h = ground arith

commit_bound :
    (log : Log) (st : Store)
    → ((commit log st).0.outstanding ≡ log.outstanding) × ((commit log st).0.n ≤ log.n)
unfolding commit
commit_bound log st = ground arith

Reaches-IsReserved : (log : Log) (left : List ℕ) → Reaches log left → IsReserved log left
unfolding IsReserved
Reaches-IsReserved log left (idle out quiet none_) = (omega arith, omega arith, omega arith, tt)
Reaches-IsReserved log' left' (admit {log} {left = left} r h) =
    let (out, few, fit, each) = Reaches-IsReserved log left r in
    let (room, out', n') = begin_round_lem log log' h in
    let le = sum_le left each in (omega arith, omega arith, omega arith, (omega arith, each))
Reaches-IsReserved log' left' (write {log} b st st' before after k r h) =
    let (out, few, fit, each) = Reaches-IsReserved log (before ++ suc k ∷ after) r in
    let (out', n') = log_write_bound log log' b st st' h in
    let old = sum-append before (suc k ∷ after) in
    let new = sum-append before (k ∷ after) in
    let len = length-append before (suc k ∷ after) in
    let len' = length-append before (k ∷ after) in
    (omega arith, omega arith, omega arith, All-shrink before after k each)
Reaches-IsReserved log' left' (leave {log} last before after k r h) =
    let (out, few, fit, each) = Reaches-IsReserved log (before ++ k ∷ after) r in
    let old = sum-append before (k ∷ after) in
    let new = sum-append before after in
    let len = length-append before (k ∷ after) in
    let len' = length-append before after in
    let (out', n') = end_round_lem log log' last (omega arith) (omega arith) h in
    (omega arith, omega arith, omega arith, All-remove before after k each)
Reaches-IsReserved log' left' (committed {log} st r c) =
    let (out, few, fit, each) = Reaches-IsReserved log [] r in
    let (out', n') = commit_bound log st in (omega arith, omega arith, omega arith, tt)

-- In whatever order operations are admitted by `begin_op`, write, and leave, and the log is
-- committed: on a log of more than LOGSIZE blocks an admitted operation that has not yet logged ten
-- blocks can log another one, so `log_write` panics for none of its reasons.
pub admitted_write :
    (log : Log) (before after : List ℕ) (k b : ℕ) (st : Store)
    → Reaches log (before ++ suc k ∷ after)
    → logsize < log.size
    → log_write b log st ≡ ok (recorded b log, record st { dirty = update st.dirty b true })
unfolding log_write IsReserved
admitted_write log before after k b st r big =
    let (out, few, fit, each) = Reaches-IsReserved log (before ++ suc k ∷ after) r in
    let old = sum-append before (suc k ∷ after) in
    let len = length-append before (suc k ∷ after) in
    let room : log.n < logsize = omega arith in
    let inside : 0 < log.outstanding = omega arith in ground arith
