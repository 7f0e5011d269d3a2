-- ===== src/System/Same.antt =====
-- Parts of a system call that touch neither the states of the processes, nor the ready queue, nor the
-- timers: moves in the tree of processes, exit statuses, and frees.
use karg.Base.{ℕ, ◌≡◌, refl, ◌∙◌, ◌⊎◌, List, [], ◌∷◌, arith}
use karg.Kernel.{Kernel, ready, curr}
use karg.Proc.{proc_adopt, proc_deinit}
use karg.Sched.Same.{SameSched}
use karg.Sched.Resched
use karg.Sched.Resched.{IsRunning}
use karg.Sem.{Sem}
use karg.Sem.Waiters
use karg.Sem.Waiters.{AllWaiting}
use karg.System.{System, with_kernel}
use karg.System.Inv.{IsTimed, Inv}

pub proc_adopt-SameSched : (parent p : ℕ) (k : Kernel) → SameSched k (proc_adopt parent p k)
unfolding proc_adopt
proc_adopt-SameSched parent p k = record {
  states = λ q. ground arith;
  ready_queue = ground arith;
  curr_proc = ground arith;
  timers = ground arith;
}

pub proc_deinit-SameSched : (p : ℕ) (k : Kernel) → SameSched k (proc_deinit p k)
unfolding proc_deinit
proc_deinit-SameSched p k = record {
  states = λ q. ground arith;
  ready_queue = refl;
  curr_proc = refl;
  timers = refl;
}

-- Every part of the invariant is about what such a part leaves alone.
module _ (k k' : Kernel) (same : SameSched k k') where
  pub IsValid-same : Resched.IsValid k → Resched.IsValid k'
  IsValid-same v = record {
    distinct = rw same.ready_queue v.distinct;
    queued = λ p. rw same.ready_queue (v.queued p ∙ rw (same.states p) refl);
    not_null = rw same.ready_queue v.not_null;
    single = λ p h. ground (arith, v.single p, same.states p, h, same.curr_proc);
  }

  IsRunning-same : IsRunning k → IsRunning k'
  IsRunning-same r = record {
    exists = rw same.curr_proc r.exists;
    is_curr = ground (arith, r.is_curr, same.states k.curr_proc, same.curr_proc);
  }

  IsTimed-same : IsTimed k → IsTimed k'
  IsTimed-same i = record {
    order = rw same.timers i.order;
    own = rw same.timers i.own;
    slice = rw same.timers i.slice;
    sleeping = λ p n. rw same.timers (i.sleeping p n ∙ rw (same.states p) refl);
  }

  AllWaiting-same : (ps : List ℕ) → AllWaiting k ps → AllWaiting k' ps
  AllWaiting-same [] w = tt
  AllWaiting-same (p ∷ ps) w =
      ground (arith, AllWaiting-same ps w.3, w, same.states p, same.curr_proc)

  sem-same : (sem : Sem) → Waiters.IsValid sem k → Waiters.IsValid sem k'
  sem-same sem w = record {
    counted = w.counted;
    distinct = w.distinct;
    waiting = AllWaiting-same sem.wait_queue w.waiting;
  }

  idle-same :
      (idle : ℕ)
      → ((k.procs idle).state ≡ ready) ⊎ ((k.procs idle).state ≡ curr)
      → ((k'.procs idle).state ≡ ready) ⊎ ((k'.procs idle).state ≡ curr)
  idle-same idle a = ground (arith, a, same.states idle)

pub Inv-same :
    (idle : ℕ) (s : System) (k' : Kernel)
    → SameSched s.kernel k'
    → Inv idle s
    → Inv idle (with_kernel s k')
Inv-same idle s k' same v = record {
  queue = IsValid-same s.kernel k' same v.queue;
  running = IsRunning-same s.kernel k' same v.running;
  idle_alive = idle-same s.kernel k' same idle v.idle_alive;
  timed = IsTimed-same s.kernel k' same v.timed;
  sems = λ i. sem-same s.kernel k' same (s.sems i) (v.sems i);
  apart = v.apart;
}
