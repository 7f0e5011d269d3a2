-- ===== src/System/Safety.antt =====
-- What holds of every run.
use karg.Base.{ℕ, ◌≡◌, refl, sym, ◌∙◌, subst, none, some, List, [], ◌∷◌, arith}
use karg.Kernel.{Kernel}
use karg.Syscalls.{timer_interrupt}
use karg.System.{
  System, Step, yields, ticks, sleeps, waits, signals, exits, spawns, waits_child, ends_wait, Reach,
  here, next, with_kernel, with_sem,
}
use karg.System.Blocking.{sys_sleep-Inv, sem_wait-Inv}
use karg.System.Children.{sys_wait-Inv, sys_wait_resume-Inv}
use karg.System.Exits.{sys_exit-Inv}
use karg.System.Inv.{Inv}
use karg.System.Spawn.{sys_proc-Inv}
use karg.System.Ticking.{timer_interrupt-Inv}
use karg.System.Waking.{sys_yield-Inv, sem_signal-Inv}
use karg.Timer.{Timer, timer_isr}
use mathlib.Core.Option.{some-injective}

-- An interrupt with no timer queued is undefined.
pub timer_interrupt-nil :
    (now : ℕ) (k : Kernel) → k.timers.wait_queue ≡ [] → timer_interrupt now k ≡ none
unfolding timer_interrupt timer_isr
timer_interrupt-nil now k e = ground (arith, e)

ticks-Inv :
    (idle : ℕ) (s : System) (now : ℕ) (k : Kernel)
    → Inv idle s
    → timer_interrupt now s.kernel ≡ some k
    → Inv idle (with_kernel s k)
ticks-Inv idle s now k v h = go s.kernel.timers.wait_queue refl
  where
    go : (ts : List Timer) → s.kernel.timers.wait_queue ≡ ts → Inv idle (with_kernel s k)
    go [] e = absurd (ground (arith, h, timer_interrupt-nil now s.kernel e))
    go (t ∷ ts) e =
        let (k', ran, ok, _) = timer_interrupt-Inv idle s now t ts v e in
        subst (λ u. Inv idle (with_kernel s u)) (some-injective k' k (sym ran ∙ h)) ok

-- One step.
pub Step-Inv : (idle : ℕ) (s t : System) → Inv idle s → Step idle s t → Inv idle t
Step-Inv idle s _ v (yields {k} h) =
    let (k', ran, ok, _) = sys_yield-Inv idle s v in
    subst (λ u. Inv idle (with_kernel s u)) (some-injective k' k (sym ran ∙ h)) ok
Step-Inv idle s _ v (ticks {k} now h) = ticks-Inv idle s now k v h
Step-Inv idle s _ v (sleeps {k} ns now n h) =
    let (k', ran, ok, _, _) = sys_sleep-Inv idle s ns now v n in
    subst (λ u. Inv idle (with_kernel s u)) (some-injective k' k (sym ran ∙ h)) ok
Step-Inv idle s _ v (waits {r} i n h) =
    let (r', ran, ok, _) = sem_wait-Inv idle s i v n in
    subst (λ u. Inv idle (with_sem s i u)) (some-injective r' r (sym ran ∙ h)) ok
Step-Inv idle s _ v (signals {r} i h) =
    let (r', ran, ok, _) = sem_signal-Inv idle s i v in
    subst (λ u. Inv idle (with_sem s i u)) (some-injective r' r (sym ran ∙ h)) ok
Step-Inv idle s _ v (exits {k} status n h) = sys_exit-Inv idle s status k v n h
Step-Inv idle s _ v (spawns {r} entry argv block trampoline sstatus u h) =
    sys_proc-Inv idle s block v u entry argv trampoline sstatus r h
Step-Inv idle s _ v (waits_child {r} n h) = sys_wait-Inv idle s r v n h
Step-Inv idle s _ v (ends_wait {r} h) = sys_wait_resume-Inv idle s r v h

-- From a state that satisfies the invariant, every sequence of yields, time slices, timer interrupts,
-- sleeps, waits for and signals of any semaphores, exits, waits for children and new processes in unused memory, in any order, leads to
-- a state that satisfies it, as long as the idle process neither waits nor exits: the ready queue holds the
-- READY processes, one process runs, the idle process is among these, the timers of exactly the
-- sleeping processes are queued, and every semaphore's value counts its waiters.
pub Reach-Inv : (idle : ℕ) (s t : System) → Inv idle s → Reach idle s t → Inv idle t
Reach-Inv idle s _ v here = v
Reach-Inv idle s _ v (next {t} {u} r step) = Step-Inv idle t u (Reach-Inv idle s t v r) step
