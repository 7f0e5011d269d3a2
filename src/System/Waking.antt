-- ===== src/System/Waking.antt =====
-- Steps in which the running process goes on: yields, the timer's interrupt, and signals.
use karg.Base.{
  ℕ, ◌≡◌, refl, sym, ◌∙◌, ap, subst, ◌≢◌, ◌⊎◌, inl, inr, false, ◌&&◌, not, some, List, [], ◌∷◌,
  ◌==◌, has, arith, ==_refl, Bool-cases, succ,
}
use karg.Kernel.{
  Kernel, ProcState, init, ready, curr, wait_sem, wait_child, sleep, zombie, null, same_state,
  sched_timer,
}
use karg.Sched.{sched_update_state}
use karg.Sched.Resched
use karg.Sched.Resched.{sched_resched-same}
use karg.Sched.Update.{woken, wake, woken-IsValid, timers_after}
use karg.Sem.{Sem, sem_signal, tail}
use karg.Sem.Waiters
use karg.Sem.Waiters.{AllWaiting, AllWaiting-woken}
use karg.Sem.Signal.{sem_signal-IsValid, all_woken, first_of}
use karg.Syscalls.{sys_yield}
use karg.System.{System, with_kernel, with_sem}
use karg.System.Family.{SameFamily}
use karg.System.Family.Scheduled.{SameFamily-procs, woken-SameFamily}
use karg.System.Inv.{IsTimed, Inv}
use karg.Timer.{Timers, queued, timer_cancel}
use karg.Timer.Order
use karg.Timer.Order.{timer_cancel-IsValid}
use karg.Timer.Own.{AllOwn, timer_cancel-Own}

pub not-has_of_state :
    (k : Kernel) (p : ℕ) (ws : List ℕ)
    → AllWaiting k ws
    → (k.procs p).state ≢ wait_sem
    → has p ws ≡ false
not-has_of_state k p [] w n = refl
not-has_of_state k p (q ∷ ws) w n = ground (arith, not-has_of_state k p ws w.3 n, w)

-- `sys_yield` changes nothing.
pub sys_yield-Inv :
    (idle : ℕ) (s : System)
    → Inv idle s
    → (k : Kernel) × (sys_yield s.kernel ≡ some k)
      × Inv idle (with_kernel s k)
      × SameFamily s.kernel k
unfolding sys_yield
sys_yield-Inv idle s v = (
  record s.kernel { running = s.kernel.curr_proc },
  sched_resched-same s.kernel v.queue v.running,
  record {
    queue = record {
      distinct = v.queue.distinct;
      queued = v.queue.queued;
      not_null = v.queue.not_null;
      single = v.queue.single;
    };
    running = record { exists = v.running.exists; is_curr = v.running.is_curr };
    idle_alive = v.idle_alive;
    timed = record {
      order = v.timed.order;
      own = v.timed.own;
      slice = v.timed.slice;
      sleeping = v.timed.sleeping;
    };
    sems = λ i. record {
      counted = (v.sems i).counted;
      distinct = (v.sems i).distinct;
      waiting = (v.sems i).waiting;
    };
    apart = v.apart;
  },
  SameFamily-procs s.kernel (record s.kernel { running = s.kernel.curr_proc }) refl refl,
)

-- What waking `p`, which neither is ready nor runs, leaves true.
module _ (k : Kernel) (p : ℕ) (v : Resched.IsValid k) (pn : p ≢ null) (pc : p ≢ k.curr_proc)
    (n : (k.procs p).state ≢ ready) where
  IsTimed-by :
      (t : Timers)
      → timers_after (k.procs p).state p k.timers ≡ t
      → IsTimed k
      → Order.IsValid t
      → AllOwn t.wait_queue
      → ((x : ℕ) → queued x t.wait_queue ≡ (queued x k.timers.wait_queue && not (x == p)))
      → IsTimed (woken p k)
  IsTimed-by t e i o a q = record {
    order = subst Order.IsValid (sym e) o;
    own = subst (λ u. AllOwn u.wait_queue) (sym e) a;
    slice =
        ap (λ u. queued sched_timer u.wait_queue) e ∙ q sched_timer ∙ ground (arith, i.slice, pn);
    sleeping = λ x n. ap (λ u. queued x u.wait_queue) e ∙ q x ∙ ground (arith, i.sleeping x n);
  }

  woken-IsTimed : IsTimed k → IsTimed (woken p k)
  woken-IsTimed i = go (k.procs p).state refl
    where
      kept :
          timers_after (k.procs p).state p k.timers ≡ k.timers
          → same_state (k.procs p).state sleep ≡ false
          → IsTimed (woken p k)
      kept e f = IsTimed-by k.timers e i i.order i.own (λ x. ground (arith, i.sleeping p pn, f))

      go : (st : ProcState) → (k.procs p).state ≡ st → IsTimed (woken p k)
      go sleep e =
          let (own, q) = timer_cancel-Own p k.timers i.order i.own in
          IsTimed-by (timer_cancel p k.timers) (ap (λ st. timers_after st p k.timers) e) i
            (timer_cancel-IsValid p k.timers i.order).0 own q
      go init e = kept (ap (λ st. timers_after st p k.timers) e) (ap (λ st. same_state st sleep) e)
      go ready e = kept (ap (λ st. timers_after st p k.timers) e) (ap (λ st. same_state st sleep) e)
      go curr e = kept (ap (λ st. timers_after st p k.timers) e) (ap (λ st. same_state st sleep) e)
      go wait_sem e =
          kept (ap (λ st. timers_after st p k.timers) e) (ap (λ st. same_state st sleep) e)
      go wait_child e =
          kept (ap (λ st. timers_after st p k.timers) e) (ap (λ st. same_state st sleep) e)
      go zombie e =
          kept (ap (λ st. timers_after st p k.timers) e) (ap (λ st. same_state st sleep) e)

  pub idle-woken :
      (idle : ℕ)
      → ((k.procs idle).state ≡ ready) ⊎ ((k.procs idle).state ≡ curr)
      → (((woken p k).procs idle).state ≡ ready) ⊎ (((woken p k).procs idle).state ≡ curr)
  idle-woken idle a = ground (arith, a)

-- A process that neither is ready nor runs nor waits for a semaphore is woken.
pub wake-Inv :
    (idle : ℕ) (s : System) (p : ℕ)
    → Inv idle s
    → p ≢ null
    → p ≢ s.kernel.curr_proc
    → (s.kernel.procs p).state ≢ ready
    → (s.kernel.procs p).state ≢ wait_sem
    → (sched_update_state p ready s.kernel ≡ some (woken p s.kernel))
      × Inv idle (with_kernel s (woken p s.kernel))
wake-Inv idle s p v pn pc not_ready not_waiting =
    let k = s.kernel in
    let (valid, running) = woken-IsValid k p v.queue pn pc not_ready in
    (
      wake k p v.queue not_ready,
      record {
        queue = valid;
        running = running v.running;
        idle_alive = idle-woken k p v.queue pn pc not_ready idle v.idle_alive;
        timed = woken-IsTimed k p v.queue pn pc not_ready v.timed;
        sems = λ j. record {
          counted = (v.sems j).counted;
          distinct = (v.sems j).distinct;
          waiting =
              AllWaiting-woken k p (s.sems j).wait_queue
                (not-has_of_state k p (s.sems j).wait_queue (v.sems j).waiting not_waiting)
                (v.sems j).waiting;
        };
        apart = v.apart;
      },
    )

-- A signal, whoever waits.
pub sem_signal-Inv :
    (idle : ℕ) (s : System) (i : ℕ)
    → Inv idle s
    → (r : Sem × Kernel) × (sem_signal (s.sems i) s.kernel ≡ some r)
      × Inv idle (with_sem s i r)
      × SameFamily s.kernel r.1
sem_signal-Inv idle s i v = go (s.sems i).wait_queue refl
  where
    Result : List ℕ → Type 0
    Result ws =
        let k' = all_woken (first_of ws) s.kernel in
        let sem' : Sem = record { wait_queue = tail ws; val = succ (s.sems i).val } in
        (sem_signal (s.sems i) s.kernel ≡ some (sem', k'))
        × Waiters.IsValid sem' k'
        × Resched.IsValid k'

    result : Result (s.sems i).wait_queue
    result = sem_signal-IsValid (s.sems i) s.kernel (v.sems i) v.queue

    go :
        (ws : List ℕ)
        → (s.sems i).wait_queue ≡ ws
        → (r : Sem × Kernel) × (sem_signal (s.sems i) s.kernel ≡ some r)
          × Inv idle (with_sem s i r)
          × SameFamily s.kernel r.1
    go [] e =
        let (ran, sem_ok, valid) = subst Result e result in
        (
          _,
          ran,
          record {
            queue = valid;
            running = v.running;
            idle_alive = v.idle_alive;
            timed = v.timed;
            sems =
                λ j. elim (Bool-cases (j == i)) [ inl q ↦ rw q sem_ok | inr q ↦ rw q (v.sems j) ];
            apart = λ j l x n h. ground (arith, h, v.apart j l x n);
          },
          SameFamily-procs s.kernel s.kernel refl refl,
        )
    go (p ∷ ws) e =
        let (ran, sem_ok, valid) = subst Result e result in
        let waiting : AllWaiting s.kernel (p ∷ ws) =
          subst (AllWaiting s.kernel) e (v.sems i).waiting in
        let (pw, pn, pc, rest) = waiting in
        let not_ready : (s.kernel.procs p).state ≢ ready = ground (arith, pw) in
        (
          _,
          ran,
          record {
            queue = valid;
            running = (woken-IsValid s.kernel p v.queue pn pc not_ready).1 v.running;
            idle_alive = idle-woken s.kernel p v.queue pn pc not_ready idle v.idle_alive;
            timed = woken-IsTimed s.kernel p v.queue pn pc not_ready v.timed;
            sems = λ j. elim (Bool-cases (j == i)) [
              | inl q ↦ rw q sem_ok
              | inr q ↦ rw q (record {
                counted = (v.sems j).counted;
                distinct = (v.sems j).distinct;
                waiting =
                    AllWaiting-woken s.kernel p (s.sems j).wait_queue
                      (v.apart i j p (ground (arith, q)) (ground (arith, e, ==_refl p)))
                      (v.sems j).waiting;
              })
            ];
            apart =
                λ j l x n h. ground (arith, h, e, v.apart j l x n, v.apart i l x, v.apart j i x);
          },
          woken-SameFamily s.kernel p (ground (arith, pw)) (ground (arith, pw)),
        )
