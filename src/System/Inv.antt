-- ===== src/System/Inv.antt =====
-- What holds of the kernel between any two steps.
use karg.Base.{
  ℕ, ◌≡◌, refl, sym, ◌≢◌, ◌⊎◌, inl, inr, true, false, List, [], ◌∷◌, ◌==◌, if◌then◌else◌, has,
  arith,
}
use karg.Kernel.{
  Kernel, ProcState, ready, curr, sleep, null, set_state, same_state, sched_timer, proc_timer,
}
use karg.Sched.Resched
use karg.Sched.Resched.{IsRunning, switched_to, ready_of_front}
use karg.Sem.Waiters
use karg.Sem.Waiters.{AllWaiting}
use karg.System.{System}
use karg.Timer.{queued}
use karg.Timer.Order
use karg.Timer.Own.{AllOwn}

pub record IsTimed (k : Kernel) : Type 0 where
  pub order : Order.IsValid k.timers
  pub own : AllOwn k.timers.wait_queue
  pub slice : queued sched_timer k.timers.wait_queue ≡ true
  pub sleeping :
      (p : ℕ)
      → p ≢ null
      → queued (proc_timer p) k.timers.wait_queue ≡ same_state (k.procs p).state sleep

-- The ready queue holds the READY processes, one process runs, the idle process is one of these, the
-- timers of exactly the sleeping processes and that of the time slice are queued, each semaphore counts its waiters, and no
-- process waits for two semaphores.
pub record Inv (idle : ℕ) (s : System) : Type 0 where
  pub queue : Resched.IsValid s.kernel
  pub running : IsRunning s.kernel
  pub idle_alive : ((s.kernel.procs idle).state ≡ ready) ⊎ ((s.kernel.procs idle).state ≡ curr)
  pub timed : IsTimed s.kernel
  pub sems : (i : ℕ) → Waiters.IsValid (s.sems i) s.kernel
  pub apart :
      (i j p : ℕ) → i ≢ j → has p (s.sems i).wait_queue ≡ true → has p (s.sems j).wait_queue ≡ false

-- While another process runs, the idle process is READY, so the ready queue has a front.
pub front :
    (idle : ℕ) (s : System)
    → Inv idle s
    → s.kernel.curr_proc ≢ idle
    → (p : ℕ) × (ps : List ℕ) × (s.kernel.ready_queue ≡ p ∷ ps)
front idle s v n = go s.kernel.ready_queue refl
  where
    idle_ready : (s.kernel.procs idle).state ≡ ready
    idle_ready = elim v.idle_alive [
      | inl h ↦ h
      | inr h ↦ absurd (n (sym (v.queue.single idle h).0))
    ]

    go :
        (q : List ℕ)
        → s.kernel.ready_queue ≡ q
        → (p : ℕ) × (ps : List ℕ) × (s.kernel.ready_queue ≡ p ∷ ps)
    go [] e = absurd (ground (arith, v.queue.queued idle, idle_ready, e))
    go (p ∷ ps) e = (p, ps, e)

-- The running process `c` gives the processor to the front `p` of the ready queue, and is then in the
-- state `st`.
module _ (k : Kernel) (st : ProcState) (p : ℕ) (ps : List ℕ) (v : Resched.IsValid k)
    (r : IsRunning k) (e : k.ready_queue ≡ p ∷ ps) where
  p-ready : (k.procs p).state ≡ ready
  p-ready = ready_of_front k p ps v e

  p-ne-curr : p ≢ k.curr_proc
  p-ne-curr h = ground (arith, p-ready, r.is_curr, h)

  pub switched-state :
      (q : ℕ)
      → ((switched_to p ps (set_state k k.curr_proc st)).procs q).state
        ≡ (if q == p then curr else if q == k.curr_proc then st else (k.procs q).state)
  switched-state q = ground (arith, p-ne-curr)

  pub AllWaiting-switched :
      (ws : List ℕ)
      → AllWaiting k ws
      → AllWaiting (switched_to p ps (set_state k k.curr_proc st)) ws
  AllWaiting-switched [] w = tt
  AllWaiting-switched (q ∷ ws) w =
      ground (arith, AllWaiting-switched ws w.3, switched-state q, w, p-ready, r.is_curr)

  pub idle-switched :
      (idle : ℕ)
      → k.curr_proc ≢ idle
      → ((k.procs idle).state ≡ ready) ⊎ ((k.procs idle).state ≡ curr)
      → (((switched_to p ps (set_state k k.curr_proc st)).procs idle).state ≡ ready)
        ⊎ (((switched_to p ps (set_state k k.curr_proc st)).procs idle).state ≡ curr)
  idle-switched idle n a = ground (arith, switched-state idle, n, a)
