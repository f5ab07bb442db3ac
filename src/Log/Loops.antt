-- ===== src/Log/Loops.antt =====
-- What the loops of `write_log` and `install_trans` write, with power for all or some of it.
use mathlib.Core.Path.{subst}
use cs461_mlfq_scheduler.Log.{Block, Store, Log, bread, bwrite, install_loop, write_log_loop}
use native.Mathlib.Decide.{ℕ_discrete}
use cs461_mlfq_scheduler.Base.{ℕ, zero, suc, ◌+◌, ◌-◌, ◌≤◌, ◌<◌, ◌≡◌, refl, ◌∙◌, ◌≢◌, ◌⊎◌, arith}

-- The block of the log that holds entry `t`.
abbrev pub loc : ℕ → ℕ → ℕ
loc start t = start + t + 1

-- Blocks outside of the log, which has `cap` blocks behind its header.
abbrev pub IsAway : ℕ → ℕ → ℕ → Type 0
IsAway start cap a = a < start ⊎ start + cap < a

-- A block that is not written keeps its data.
pub bwrite_ne :
    (b a : ℕ) (x : Block) (st : Store)
    → b ≢ a
    → ((bwrite b x st).disk a ≡ st.disk a) × ((bwrite b x st).cache a ≡ st.cache a)
bwrite_ne b a x st ne = (ground arith, ground arith)

-- A block that is written has the new data in the cache, and on disk if there is power.
pub bread-bwrite : (b : ℕ) (x : Block) (st : Store) → bread (bwrite b x st) b ≡ x
bread-bwrite b x st = ground arith

pub disk-bwrite : (b : ℕ) (x : Block) (st : Store) → 0 < st.power → (bwrite b x st).disk b ≡ x
disk-bwrite b x st pow = ground arith

-- Without power nothing reaches the disk.
pub disk-bwrite_off :
    (b : ℕ) (x : Block) (st : Store) → st.power ≡ 0 → (bwrite b x st).disk ≡ st.disk
disk-bwrite_off b x st off = ground arith

pub bread_eq :
    (st st' : Store) (a : ℕ)
    → st'.disk a ≡ st.disk a
    → st'.cache a ≡ st.cache a
    → bread st' a ≡ bread st a
bread_eq st st' a d c = ground arith

module _ (log : Log) where
  -- `write_log` writes only to the log's blocks `tail`, `tail + 1`, ….
  pub write_log_elsewhere :
      (k tail : ℕ) (st : Store) (a : ℕ)
      → (a < loc log.start tail) ⊎ (loc log.start (tail + k) ≤ a)
      → ((write_log_loop k tail log st).disk a ≡ st.disk a)
        × ((write_log_loop k tail log st).cache a ≡ st.cache a)
  unfolding write_log_loop
  write_log_elsewhere zero tail st a h = (refl, refl)
  write_log_elsewhere (suc k) tail st a h =
      let st1 = bwrite (loc log.start tail) (bread st (log.block tail)) st in
      let (d, c) = bwrite_ne (loc log.start tail) a (bread st (log.block tail)) st (omega arith) in
      let (d', c') = write_log_elsewhere k (tail + 1) st1 a (omega arith) in (d' ∙ d, c' ∙ c)

  pub power-write_log :
      (k tail : ℕ) (st : Store) → (write_log_loop k tail log st).power ≡ st.power - k
  unfolding write_log_loop
  power-write_log zero tail st = omega arith
  power-write_log (suc k) tail st =
      power-write_log k (tail + 1) (bwrite (loc log.start tail) (bread st (log.block tail)) st)
      ∙ omega arith

  -- Entry `t` gets the data of the home block `block[t]`, in the cache and, with enough power, on
  -- disk.
  pub write_log_entry :
      (k tail cap : ℕ) (st : Store)
      → tail + k ≤ cap
      → ((t : ℕ) → t < tail + k → IsAway log.start cap (log.block t))
      → (t : ℕ) → tail ≤ t
      → t < tail + k
      → (bread (write_log_loop k tail log st) (loc log.start t) ≡ bread st (log.block t))
        × (k ≤ st.power
            → (write_log_loop k tail log st).disk (loc log.start t) ≡ bread st (log.block t))
  unfolding write_log_loop
  write_log_entry zero tail cap st fit away t lo hi = absurd (omega arith)
  write_log_entry (suc k) tail cap st fit away t lo hi =
      let x = bread st (log.block tail) in
      let st1 = bwrite (loc log.start tail) x st in
      elim (ℕ_discrete tail t) [
        | yes here ↦
            let (d, c) = write_log_elsewhere k (tail + 1) st1 (loc log.start tail) (omega arith) in
            subst
              (λ u.
                (bread (write_log_loop k (tail + 1) log st1) (loc log.start u)
                  ≡ bread st (log.block u))
                × (suc k ≤ st.power
                    → (write_log_loop k (tail + 1) log st1).disk (loc log.start u)
                      ≡ bread st (log.block u)))
              here
              (
                bread_eq st1 (write_log_loop k (tail + 1) log st1) (loc log.start tail) d c
                    ∙ bread-bwrite (loc log.start tail) x st,
                λ p. d ∙ disk-bwrite (loc log.start tail) x st (omega arith),
              )
        | no later ↦
            let far = away t hi in
            let (d, c) = bwrite_ne (loc log.start tail) (log.block t) x st (omega arith) in
            let same = bread_eq st st1 (log.block t) d c in
            let (b, e) =
              write_log_entry k (tail + 1) cap st1 (omega arith) (λ u h. away u (omega arith)) t
                (omega arith) (omega arith) in
            (b ∙ same, λ p. e (omega arith) ∙ same)
      ]

  -- `install_trans` writes only to the homes of its entries.
  pub install_elsewhere :
      (k tail : ℕ) (st : Store) (a : ℕ)
      → ((t : ℕ) → tail ≤ t → t < tail + k → log.block t ≢ a)
      → ((install_loop k tail log st).disk a ≡ st.disk a)
        × ((install_loop k tail log st).cache a ≡ st.cache a)
  unfolding install_loop
  install_elsewhere zero tail st a h = (refl, refl)
  install_elsewhere (suc k) tail st a h =
      let x = bread st (loc log.start tail) in
      let st1 = bwrite (log.block tail) x st in
      let (d, c) = bwrite_ne (log.block tail) a x st (h tail (omega arith) (omega arith)) in
      let (d', c') =
        install_elsewhere k (tail + 1) st1 a (λ t lo hi. h t (omega arith) (omega arith)) in
      (d' ∙ d, c' ∙ c)

  pub power-install : (k tail : ℕ) (st : Store) → (install_loop k tail log st).power ≡ st.power - k
  unfolding install_loop
  power-install zero tail st = omega arith
  power-install (suc k) tail st =
      power-install k (tail + 1) (bwrite (log.block tail) (bread st (loc log.start tail)) st)
      ∙ omega arith

  -- With the power for it, each home gets the data of its entry in the log.
  pub install_home :
      (k tail cap : ℕ) (st : Store)
      → tail + k ≤ cap
      → k ≤ st.power
      → ((t : ℕ) → t < tail + k → IsAway log.start cap (log.block t))
      → ((s t : ℕ) → s < tail + k → t < tail + k → log.block s ≡ log.block t → s ≡ t)
      → (t : ℕ) → tail ≤ t
      → t < tail + k
      → (install_loop k tail log st).disk (log.block t) ≡ bread st (loc log.start t)
  unfolding install_loop
  install_home zero tail cap st fit pow away apart t lo hi = absurd (omega arith)
  install_home (suc k) tail cap st fit pow away apart t lo hi =
      let x = bread st (loc log.start tail) in
      let st1 = bwrite (log.block tail) x st in
      elim (ℕ_discrete tail t) [
        | yes here ↦
            let (d, c) =
              install_elsewhere k (tail + 1) st1 (log.block tail) (λ u lo' hi' e.
                let eq = apart u tail (omega arith) (omega arith) e in omega arith) in
            subst
              (λ u.
                (install_loop k (tail + 1) log st1).disk (log.block u) ≡ bread st (loc log.start u))
              here (d ∙ disk-bwrite (log.block tail) x st (omega arith))
        | no later ↦
            let far = away tail (omega arith) in
            let (d, c) = bwrite_ne (log.block tail) (loc log.start t) x st (omega arith) in
            install_home k (tail + 1) cap st1 (omega arith) (omega arith)
              (λ u h. away u (omega arith)) (λ u w hu hw. apart u w (omega arith) (omega arith)) t
              (omega arith) (omega arith)
            ∙ bread_eq st st1 (loc log.start t) d c
      ]

  -- Without power `install_trans` leaves the disk alone.
  pub install_off :
      (k tail : ℕ) (st : Store) → st.power ≡ 0 → (install_loop k tail log st).disk ≡ st.disk
  unfolding install_loop
  install_off zero tail st off = refl
  install_off (suc k) tail st off =
      let x = bread st (loc log.start tail) in
      install_off k (tail + 1) (bwrite (log.block tail) x st) (omega arith)
      ∙ disk-bwrite_off (log.block tail) x st off
