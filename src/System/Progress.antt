-- ===== src/System/Progress.antt =====
-- No run gets stuck: the calls of the running process are defined.
use karg.Base.{ℕ, ◌≡◌, refl, sym, ap, ◌≢◌, some, List, [], ◌∷◌, arith, ◌∙◌}
use karg.Kernel.{Kernel, sleep, sched_timer}
use karg.Sem.{Sem, sem_wait, sem_signal}
use karg.Syscalls.{sys_yield, sys_sleep, timer_interrupt}
use karg.System.{System, Reach}
use karg.System.Blocking.{sys_sleep-Inv, sem_wait-Inv}
use karg.System.Inv.{Inv}
use karg.System.Safety.{Reach-Inv}
use karg.System.Ticking.{timer_interrupt-Inv}
use karg.System.Waking.{sys_yield-Inv, sem_signal-Inv}
use karg.Timer.{Timer, queued}

-- The time slice's timer is queued, so an interrupt finds one.
interrupt_defined :
    (idle : ℕ) (s : System) (now : ℕ)
    → Inv idle s
    → (k : Kernel) × (timer_interrupt now s.kernel ≡ some k)
interrupt_defined idle s now v = go s.kernel.timers.wait_queue refl
  where
    go :
        (ts : List Timer)
        → s.kernel.timers.wait_queue ≡ ts
        → (k : Kernel) × (timer_interrupt now s.kernel ≡ some k)
    go [] e = absurd (ground (arith, sym (ap (queued sched_timer) e) ∙ v.timed.slice))
    go (t ∷ ts) e = let (k, ran, _, _) = timer_interrupt-Inv idle s now t ts v e in (k, ran)

-- In every state that a run from a state with the invariant comes to, whoever runs there: a timer interrupt,
-- at whatever time, is defined, and so are a yield and the signal of any semaphore. None of them
-- follows a null pointer, unlinks a node that is on no list or takes the head of an empty list for an entry.
pub Reach-interrupt :
    (idle : ℕ) (s t : System)
    → Inv idle s
    → Reach idle s t
    → ((now : ℕ) → (k : Kernel) × (timer_interrupt now t.kernel ≡ some k))
      × ((k : Kernel) × (sys_yield t.kernel ≡ some k))
      × ((i : ℕ) → (r : Sem × Kernel) × (sem_signal (t.sems i) t.kernel ≡ some r))
Reach-interrupt idle s t v r =
    let i = Reach-Inv idle s t v r in
    (
      λ now. interrupt_defined idle t now i,
      (let (k, ran, _, _) = sys_yield-Inv idle t i in (k, ran)),
      λ n. let (x, ran, _, _) = sem_signal-Inv idle t n i in (x, ran),
    )

-- In every state that a run from a state with the invariant comes to, if a process other than the idle
-- one runs there, it may sleep for any time and wait for any semaphore: the calls are defined. After
-- the one for a sleep the caller sleeps and another process runs.
pub Reach-blocks :
    (idle : ℕ) (s t : System)
    → Inv idle s
    → Reach idle s t
    → t.kernel.curr_proc ≢ idle
    → ((ns now : ℕ)
        → (k : Kernel) × (sys_sleep ns now t.kernel ≡ some k)
          × (k.curr_proc ≢ t.kernel.curr_proc)
          × ((k.procs t.kernel.curr_proc).state ≡ sleep))
      × ((i : ℕ) → (r : Sem × Kernel) × (sem_wait (t.sems i) t.kernel ≡ some r))
Reach-blocks idle s t v r n =
    let i = Reach-Inv idle s t v r in
    (
      λ ns now.
          let (k, ran, ok, asleep, _) = sys_sleep-Inv idle t ns now i n in
          (k, ran, (λ e. ground (arith, ok.running.is_curr, asleep, e)), asleep),
      λ j. let (x, ran, _, _) = sem_wait-Inv idle t j i n in (x, ran),
    )
