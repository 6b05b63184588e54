-- ===== src/Spinlock/Nest.antt =====
-- The nesting of `push_off` and `pop_off`.
use csklub_os.Base.{
  ℕ, zero, suc, ◌+◌, ◌^◌, ◌<◌, ◌≡◌, refl, ◌∙◌, ap, arith, false, Outcome, ok, panic, ◌==◌,
  if◌then◌else◌, ne→==,
}
use csklub_os.Spinlock.{Cpu, push_off, pop_off}

unfoldable pub pushes : ℕ → Cpu → Cpu
pushes zero c = c
pushes (suc n) c = push_off (pushes n c)

unfoldable pub pops : ℕ → Cpu → Outcome Cpu
pops zero c = ok c
pops (suc n) c = elim (pop_off c) [ ok d ↦ pops n d | panic ↦ panic ]

-- Interrupts are off inside a nesting.
abbrev pub IsQuiet : Cpu → Type 0
IsQuiet c = 0 < c.noff → c.interrupts ≡ false

-- What `push_off` remembers.
abbrev pub saved : Cpu → Cpu
saved c = record c { intena = if c.noff == 0 then c.interrupts else c.intena }

pop_off-push_off : (c : Cpu) → IsQuiet c → c.noff + 1 < 2 ^ 31 → pop_off (push_off c) ≡ ok (saved c)
unfolding pop_off push_off
pop_off-push_off c q few = ground (arith, q, few)

pushes-quiet :
    (n : ℕ) (c : Cpu)
    → c.noff + suc n < 2 ^ 31
    → ((pushes (suc n) c).noff ≡ c.noff + suc n) × ((pushes (suc n) c).interrupts ≡ false)
unfolding pushes push_off
pushes-quiet zero c few = (ground arith, ground arith)
pushes-quiet (suc n) c few =
    let r = pushes-quiet n c (omega arith) in (ground (arith, r.0), ground (arith, r.0))

saved-inner : (c : Cpu) → 0 < c.noff → saved c ≡ c
saved-inner c h = rw (ne→== c.noff 0 (omega (arith, h))) refl

-- As many `pop_off` as `push_off` succeed, and only the last one turns the interrupts on again, if
-- they were on before: the processor is as it was, up to the field that `push_off` fills.
pub pops-pushes :
    (n : ℕ) (c : Cpu)
    → IsQuiet c
    → c.noff + suc n < 2 ^ 31
    → pops (suc n) (pushes (suc n) c) ≡ ok (saved c)
unfolding pops pushes
pops-pushes zero c q few = rw (pops, pop_off-push_off c q (omega arith)) refl
pops-pushes (suc n) c q few =
    let d = pushes (suc n) c in
    let (count, off) = pushes-quiet n c (omega arith) in
    let inner : pop_off (push_off d) ≡ ok d =
      pop_off-push_off d (λ h. off) (omega (arith, count))
      ∙ ap ok (saved-inner d (omega (arith, count))) in
    rw (pops, inner) (pops-pushes n c q (omega arith))
