-- ===== src/Spinlock/Nesting.antt =====
-- `pushcli` and `popcli` are matched.
use cs461_mlfq_scheduler.Spinlock.{Cpu, pushcli, popcli}
use cs461_mlfq_scheduler.Base.{
  ◌==◌, if◌then◌else◌, Result, ◌>>=◌, ok, ℕ, zero, suc, ◌+◌, ◌<◌, ◌≡◌, refl, false, arith,
}

-- `pushcli`, `n` times, and then `popcli`, `n` times.
abbrev pub pushes : ℕ → Cpu → Cpu
pushes zero c = c
pushes (suc n) c = pushcli (pushes n c)

abbrev pub pops : ℕ → Cpu → Result Cpu
pops zero c = ok c
pops (suc n) c = popcli c >>= pops n

-- The CPU's interrupts are off if it has a `pushcli` to undo.
pub record IsNested (c : Cpu) : Type 0 where
  pub off : 0 < c.ncli → c.iflag ≡ false

pub pushcli-IsNested : (c : Cpu) → IsNested (pushcli c)
unfolding pushcli
pushcli-IsNested c = ground arith

-- With interrupts off on the way, one `popcli` undoes one `pushcli`, but for `intena`.
pub popcli-pushcli :
    (c : Cpu)
    → IsNested c
    → (c' : Cpu) × (popcli (pushcli c) ≡ ok c')
      × (c'.ncli ≡ c.ncli)
      × (c'.iflag ≡ c.iflag)
      × (0 < c.ncli → c' ≡ c)
unfolding pushcli popcli
popcli-pushcli c v = (
  record c { intena = if c.ncli == 0 then c.iflag else c.intena },
  ground (arith, v.off),
  refl,
  refl,
  ground arith,
)

pub pushes-IsNested : (n : ℕ) (c : Cpu) → IsNested c → IsNested (pushes n c)
pushes-IsNested zero c v = v
pushes-IsNested (suc n) c v = pushcli-IsNested (pushes n c)

pub ncli-pushes : (n : ℕ) (c : Cpu) → (pushes n c).ncli ≡ c.ncli + n
unfolding pushcli
ncli-pushes zero c = omega arith
ncli-pushes (suc n) c = omega (arith, ncli-pushes n c)

-- It takes `n` calls of `popcli` to undo `n` calls of `pushcli`: none of them panics, and then the
-- nesting depth and the interrupt flag are what they were, whether interrupts were on or off.
pub pops-pushes :
    (n : ℕ) (c : Cpu)
    → IsNested c
    → (c' : Cpu) × (pops n (pushes n c) ≡ ok c') × (c'.ncli ≡ c.ncli) × (c'.iflag ≡ c.iflag)
pops-pushes zero c v = (c, refl, refl, refl)
pops-pushes (suc zero) c v = let (c', e, a, b, _) = popcli-pushcli c v in (c', rw e, a, b)
pops-pushes (suc (suc n)) c v =
    let d = pushes (suc n) c in
    let (d', e, a, b, same) = popcli-pushcli d (pushes-IsNested (suc n) c v) in
    let (c', e', a', b') = pops-pushes (suc n) c v in
    (c', rw (e, same (omega (arith, ncli-pushes (suc n) c))) e', a', b')
