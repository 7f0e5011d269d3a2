-- ===== src/System/World/Runs.antt =====
-- What holds of every run.
use karg.Base.{
  ℕ, ◌≡◌, ◌≢◌, refl, sym, ◌∙◌, ℤ, subst, Bool, true, false, some, List, [], ◌∷◌, has, arith,
}
use karg.Kernel.{Kernel, wait_child, zombie, put}
use karg.Syscalls.{
  Waited, failed, reaped, blocked, timer_interrupt, sys_exit, sys_wait, sys_wait_resume, reap,
}
use karg.System.{
  System, Step, yields, ticks, sleeps, waits, signals, exits, spawns, waits_child, ends_wait,
  with_kernel,
}
use karg.System.Blocking.{sys_sleep-Inv, sem_wait-Inv}
use karg.System.Family.{IsFamily, IsWaited, SameFamily, IsFamily-same, IsWaited-same}
use karg.System.Family.Exited.{sys_exit-IsExited}
use karg.System.Family.Started.{sys_proc-Kept}
use karg.System.Family.Waited.{Answer, is_blocked, sys_wait-IsAnswered, sys_wait_resume-IsAnswered}
use karg.System.Inv.{Inv}
use karg.System.Safety.{Step-Inv, timer_interrupt-nil}
use karg.System.Ticking.{timer_interrupt-Inv}
use karg.System.Waking.{sys_yield-Inv, sem_signal-Inv}
use karg.System.World.{World, IsAllowed, after, Move, moves, Run, still, goes, IsSound}
use karg.Timer.{Timer}
use mathlib.Core.Option.{some-injective}

ticks-SameFamily :
    (idle : ℕ) (s : System) (now : ℕ) (k : Kernel)
    → Inv idle s
    → timer_interrupt now s.kernel ≡ some k
    → SameFamily s.kernel k
ticks-SameFamily idle s now k v h = go s.kernel.timers.wait_queue refl
  where
    go : (ts : List Timer) → s.kernel.timers.wait_queue ≡ ts → SameFamily s.kernel k
    go [] e = absurd (ground (arith, h, timer_interrupt-nil now s.kernel e))
    go (t ∷ ts) e =
        let (k', ran, _, same) = timer_interrupt-Inv idle s now t ts v e in
        subst (SameFamily s.kernel) (some-injective k' k (sym ran ∙ h)) same

-- The tree and the waiting processes after a step.
abbrev Kept : ℕ → ℕ → Kernel → (ℕ → Bool) → Type 0
Kept idle first k in_wait = IsFamily idle first k × IsWaited in_wait k

module _ (idle first : ℕ) (w : World) (i : IsSound idle first w) where
  SameFamily-Kept : (k : Kernel) → SameFamily w.system.kernel k → Kept idle first k w.in_wait
  SameFamily-Kept k same = (
    IsFamily-same w.system.kernel k same idle first i.family,
    IsWaited-same w.system.kernel k same w.in_wait i.waited,
  )

  Step-Kept :
      (t : System) (step : Step idle w.system t)
      → IsAllowed idle first w.in_wait w.system t step
      → Kept idle first t.kernel (after idle w.in_wait w.system t step)
  Step-Kept _ (yields {k} h) a =
      let (k', ran, _, same) = sys_yield-Inv idle w.system i.scheduler in
      SameFamily-Kept k
        (subst (SameFamily w.system.kernel) (some-injective k' k (sym ran ∙ h)) same)
  Step-Kept _ (ticks {k} now h) a =
      SameFamily-Kept k (ticks-SameFamily idle w.system now k i.scheduler h)
  Step-Kept _ (sleeps {k} ns now n h) a =
      let (k', ran, _, _, same) = sys_sleep-Inv idle w.system ns now i.scheduler n in
      SameFamily-Kept k
        (subst (SameFamily w.system.kernel) (some-injective k' k (sym ran ∙ h)) same)
  Step-Kept _ (waits {r} j n h) a =
      let (r', ran, _, same) = sem_wait-Inv idle w.system j i.scheduler n in
      SameFamily-Kept r.1
        (subst (λ z. SameFamily w.system.kernel z.1) (some-injective r' r (sym ran ∙ h)) same)
  Step-Kept _ (signals {r} j h) a =
      let (r', ran, _, same) = sem_signal-Inv idle w.system j i.scheduler in
      SameFamily-Kept r.1
        (subst (λ z. SameFamily w.system.kernel z.1) (some-injective r' r (sym ran ∙ h)) same)
  Step-Kept _ (exits {k} status n h) a =
      let (k', ran, done) =
        sys_exit-IsExited idle first w.system status i.scheduler i.family n a.1 in
      subst (λ z. Kept idle first z w.in_wait) (some-injective k' k (sym ran ∙ h))
        (done.family, done.waited w.in_wait a.0 i.waited)
  Step-Kept _ (spawns {r} entry argv block trampoline sstatus u h) a =
      let (family, waited) =
        sys_proc-Kept idle first w.system block i.scheduler i.family a.1 entry argv trampoline
          sstatus r h in
      (family, waited w.in_wait i.waited)
  Step-Kept _ (waits_child {r} n h) a =
      let (r', ran, done) = sys_wait-IsAnswered idle first w.system i.scheduler i.family n in
      subst (λ z. Kept idle first z.1 (put w.in_wait w.system.kernel.curr_proc (is_blocked z.0)))
        (some-injective r' r (sym ran ∙ h)) (done.family, done.waited w.in_wait i.waited)
  Step-Kept _ (ends_wait {r} h) a =
      let (r', ran, over, done) =
        sys_wait_resume-IsAnswered idle first w.system w.in_wait i.scheduler i.family i.waited a in
      subst (λ z. Kept idle first z.1 (put w.in_wait w.system.kernel.curr_proc false))
        (some-injective r' r (sym ran ∙ h))
        (
          done.family,
          subst (λ b. IsWaited (put w.in_wait w.system.kernel.curr_proc b) r'.1) over
              (done.waited w.in_wait i.waited),
        )

Move-IsSound :
    (idle first : ℕ) (w u : World)
    → IsSound idle first w
    → Move idle first w u
    → IsSound idle first u
Move-IsSound idle first w _ i (moves {t} step a) =
    let (family, waited) = Step-Kept idle first w i t step a in
    record {
      scheduler = Step-Inv idle w.system t i.scheduler step;
      family = family;
      waited = waited;
    }

-- An answer that is an end, and no error, of the second half.
finished :
    (k : Kernel) (r : Waited × Kernel)
    → sys_wait_resume k ≡ some r
    → is_blocked r.0 ≡ false
    → Answer k.curr_proc k r
    → (pid : ℤ) × (status : ℕ) × (k' : Kernel) × (sys_wait_resume k ≡ some (reaped pid status, k'))
      × Answer k.curr_proc k (reaped pid status, k')
unfolding sys_wait_resume reap
finished k (reaped pid status, k') ran over a = (pid, status, k', ran, a)
finished k (blocked, k') ran over a = absurd (ground (arith, over))
finished k (failed e, k') ran over a = absurd (ground (arith, ran))

-- From a state in which the scheduler's invariant holds, the lists of children and zombies agree with
-- the parent pointers and the states, and every process inside a `sys_wait` waits for a child or has been
-- told of one of its zombies, every run leads to such a state: any sequence of yields, sleeps, timer
-- interrupts, waits for and signals of semaphores, exits, waits for children and new processes, in which a process
-- makes one system call after the other, the idle process neither waits nor exits, the init process
-- does not exit, and new processes get memory that belongs to none.
pub Run-IsSound :
    (idle first : ℕ) (w u : World)
    → IsSound idle first w
    → Run idle first w u
    → IsSound idle first u
Run-IsSound idle first w _ i still = i
Run-IsSound idle first w _ i (goes {u} {v} r m) =
    Move-IsSound idle first u v (Run-IsSound idle first w u i r) m

-- In every state that a run from a sound state comes to, a running process other than the idle one
-- and the init process may exit with any status: the call is defined, though it reads the parent's
-- pointer and adopts the orphans in two loops. After it the process is a zombie among those of its
-- parent, which does not wait for a child any more, and the state is sound.
pub Run-exits :
    (idle first : ℕ) (w u : World) (status : ℕ)
    → IsSound idle first w
    → Run idle first w u
    → u.system.kernel.curr_proc ≢ idle
    → u.system.kernel.curr_proc ≢ first
    → u.in_wait u.system.kernel.curr_proc ≡ false
    → let k = u.system.kernel in
      let p = k.curr_proc in
      (k' : Kernel) × (sys_exit status k ≡ some k')
      × ((k'.procs p).state ≡ zombie)
      × (has p (k'.procs (k.procs p).parent).zombie_children ≡ true)
      × ((k'.procs (k.procs p).parent).state ≢ wait_child)
      × IsSound idle first (record { system = with_kernel u.system k'; in_wait = u.in_wait })
Run-exits idle first w u status i r ni nf n =
    let now = Run-IsSound idle first w u i r in
    let (k', ran, done) =
      sys_exit-IsExited idle first u.system status now.scheduler now.family ni nf in
    (
      k',
      ran,
      done.exited,
      done.listed,
      done.told,
      Move-IsSound idle first u _ now (moves (exits status ni ran) (n, nf)),
    )

-- In every state that a run from a sound state comes to, a running process other than the idle one
-- that is in no `sys_wait` may call it, and that is defined. It fails, with the state unchanged, only if
-- the caller has neither children nor zombies; it frees only a zombie of the caller, whose identifier
-- and low byte of the status it returns; and otherwise the caller, which then has no zombie, waits.
pub Run-waits :
    (idle first : ℕ) (w u : World)
    → IsSound idle first w
    → Run idle first w u
    → u.system.kernel.curr_proc ≢ idle
    → u.in_wait u.system.kernel.curr_proc ≡ false
    → (r : Waited × Kernel) × (sys_wait u.system.kernel ≡ some r)
      × Answer u.system.kernel.curr_proc u.system.kernel r
Run-waits idle first w u i r n o =
    let now = Run-IsSound idle first w u i r in
    let (x, ran, done) = sys_wait-IsAnswered idle first u.system now.scheduler now.family n in
    (x, ran, done.answer)

-- In every state that a run from a sound state comes to, a process that runs inside a `sys_wait`, because
-- a child of it has exited, finishes the call: that is defined, and it frees a zombie of the
-- caller, whose identifier and low byte of the status it returns, and nothing else.
pub Run-resumes :
    (idle first : ℕ) (w u : World)
    → IsSound idle first w
    → Run idle first w u
    → u.in_wait u.system.kernel.curr_proc ≡ true
    → let k = u.system.kernel in
      let p = k.curr_proc in
      (pid : ℤ) × (status : ℕ) × (k' : Kernel) × (sys_wait_resume k ≡ some (reaped pid status, k'))
      × Answer p k (reaped pid status, k')
Run-resumes idle first w u i r o =
    let now = Run-IsSound idle first w u i r in
    let (x, ran, over, done) =
      sys_wait_resume-IsAnswered idle first u.system u.in_wait now.scheduler now.family now.waited
        o in
    finished u.system.kernel x ran over done.answer
