-- ===== src/System/Blocking.antt =====
-- Calls in which the running process gives the processor up: each is defined, and keeps the invariant.
use karg.Base.{
  ℕ, zero, suc, ◌≡◌, refl, ◌≢◌, inl, inr, true, ◌&&◌, ◌||◌, some, List, [], ◌∷◌, ◌++◌, ◌==◌,
  has-append, arith, Bool-cases, ℤ, pos, negsuc, is_neg, pred,
}
use karg.Kernel.{Kernel, ProcState, wait_sem, sleep, set_state, same_state, sched_timer}
use karg.Sched.Resched
use karg.Sched.Resched.{IsRunning, switched_to, ready_of_front}
use karg.Sched.Update.{block}
use karg.Sem.{Sem, sem_wait}
use karg.Sem.Waiters
use karg.Sem.Waiters.{not-has_of_curr}
use karg.Sem.Wait.{sem_wait-blocks, sem_wait-pos}
use karg.Syscalls.{sys_sleep}
use karg.System.{System, with_kernel, with_sem}
use karg.System.Family.{SameFamily}
use karg.System.Family.Scheduled.{SameFamily-procs, switched-SameFamily}
use karg.System.Inv.{IsTimed, Inv, front, switched-state, AllWaiting-switched, idle-switched}
use karg.Timer.{Timers, wakeup_proc, queued}
use karg.Timer.Order
use karg.Timer.Own.{AllOwn, timer_wait-Own}

-- A state other than SLEEP leaves the timers to the sleepers; with SLEEP, the queue has one more.
pub switched-IsTimed :
    (k : Kernel) (st : ProcState) (p : ℕ) (ps : List ℕ) (t : Timers)
    → Resched.IsValid k
    → IsRunning k
    → k.ready_queue ≡ p ∷ ps
    → IsTimed k
    → Order.IsValid t
    → AllOwn t.wait_queue
    → ((q : ℕ)
        → queued q t.wait_queue
          ≡ ((same_state st sleep && (q == k.curr_proc)) || queued q k.timers.wait_queue))
    → IsTimed (switched_to p ps (set_state (record k { timers = t }) k.curr_proc st))
switched-IsTimed k st p ps t v r e i o a q = record {
  order = o;
  own = a;
  slice = ground (arith, q sched_timer, i.slice);
  sleeping = λ x n. ground (
    arith,
    q x,
    i.sleeping x n,
    switched-state k st p ps v r e x,
    ready_of_front k p ps v e,
    r.is_curr,
  );
}

pub sems-switched :
    (k : Kernel) (st : ProcState) (p : ℕ) (ps : List ℕ) (t : Timers)
    → Resched.IsValid k
    → IsRunning k
    → k.ready_queue ≡ p ∷ ps
    → (sem : Sem) → Waiters.IsValid sem k
    → Waiters.IsValid sem (switched_to p ps (set_state (record k { timers = t }) k.curr_proc st))
sems-switched k st p ps t v r e sem w = record {
  counted = w.counted;
  distinct = w.distinct;
  waiting = AllWaiting-switched k st p ps v r e sem.wait_queue w.waiting;
}

-- `sys_sleep` by a process other than the idle one.
pub sys_sleep-Inv :
    (idle : ℕ) (s : System) (ns now : ℕ)
    → Inv idle s
    → s.kernel.curr_proc ≢ idle
    → (k : Kernel) × (sys_sleep ns now s.kernel ≡ some k)
      × Inv idle (with_kernel s k)
      × ((k.procs s.kernel.curr_proc).state ≡ sleep)
      × SameFamily s.kernel k
unfolding sys_sleep
sys_sleep-Inv idle s ns now v n =
    let k = s.kernel in
    let c = k.curr_proc in
    let (p, ps, e) = front idle s v n in
    let (t, w, order, own, q) =
      timer_wait-Own c ns wakeup_proc c now k.timers v.timed.order v.timed.own
        (ground (arith, v.timed.sleeping c v.running.exists, v.running.is_curr))
        (inl (refl, refl, v.running.exists)) in
    let k₁ : Kernel = record k { timers = t } in
    let v₁ : Resched.IsValid k₁ = record {
      distinct = v.queue.distinct;
      queued = v.queue.queued;
      not_null = v.queue.not_null;
      single = v.queue.single;
    } in
    let r₁ : IsRunning k₁ = record { exists = v.running.exists; is_curr = v.running.is_curr } in
    let (ran, valid, running) = block k₁ sleep p ps v₁ r₁ (inr (inr refl)) e in
    (
      _,
      ground (arith, w, ran),
      record {
        queue = valid;
        running = running;
        idle_alive = idle-switched k₁ sleep p ps v₁ r₁ e idle n v.idle_alive;
        timed = switched-IsTimed k sleep p ps t v.queue v.running e v.timed order own q;
        sems = λ i. sems-switched k sleep p ps t v.queue v.running e (s.sems i) (v.sems i);
        apart = v.apart;
      },
      ground (
        arith,
        switched-state k sleep p ps v.queue v.running e c,
        ready_of_front k p ps v.queue e,
        v.running.is_curr,
      ),
      switched-SameFamily k t sleep p ps v.queue v.running e refl,
    )

-- `sem_wait` by a process other than the idle one, blocking or not.
module _ (idle : ℕ) (s : System) (i : ℕ) (v : Inv idle s) where
  passes :
      (m : ℕ)
      → (s.sems i).val ≡ pos (suc m)
      → Inv idle (with_sem s i (record (s.sems i) { val = pos m }, s.kernel))
  passes m h = record {
    queue = v.queue;
    running = v.running;
    idle_alive = v.idle_alive;
    timed = v.timed;
    sems = λ j. elim (Bool-cases (j == i)) [
      | inl q ↦ rw q (record {
        counted = ground (arith, (v.sems i).counted, h);
        distinct = (v.sems i).distinct;
        waiting = (v.sems i).waiting;
      })
      | inr q ↦ rw q (v.sems j)
    ];
    apart = λ j l p n h'. ground (arith, v.apart j l p n, h', v.apart i l p, v.apart j i p);
  }

  joins :
      (p : ℕ) (ps : List ℕ)
      → s.kernel.ready_queue ≡ p ∷ ps
      → s.kernel.curr_proc ≢ idle
      → is_neg (pred (s.sems i).val) ≡ true
      → let sem : Sem = record {
        wait_queue = (s.sems i).wait_queue ++ s.kernel.curr_proc ∷ [];
        val = pred (s.sems i).val;
      } in
        let k = switched_to p ps (set_state s.kernel s.kernel.curr_proc wait_sem) in
        (sem_wait (s.sems i) s.kernel ≡ some (sem, k)) × Inv idle (with_sem s i (sem, k))
  joins p ps e n h =
      let k = s.kernel in
      let (ran, sem_ok, valid, running) =
        sem_wait-blocks (s.sems i) k p ps (v.sems i) v.queue v.running h e in
      (
        ran,
        record {
          queue = valid;
          running = running;
          idle_alive = idle-switched k wait_sem p ps v.queue v.running e idle n v.idle_alive;
          timed =
              switched-IsTimed k wait_sem p ps k.timers v.queue v.running e v.timed v.timed.order
                v.timed.own (λ q. refl);
          sems = λ j. elim (Bool-cases (j == i)) [
            | inl q ↦ rw q sem_ok
            | inr q ↦
                rw q
                  (sems-switched k wait_sem p ps k.timers v.queue v.running e (s.sems j) (v.sems j))
          ];
          apart = λ j l q nj h'.
              let out = λ (x : ℕ). not-has_of_curr k (s.sems x).wait_queue (v.sems x).waiting in
              ground (
                arith,
                h',
                v.apart j l q nj,
                v.apart i l q,
                v.apart j i q,
                out j,
                out l,
                has-append q (s.sems i).wait_queue (k.curr_proc ∷ []),
              );
        },
      )

  sem_wait_neg :
      s.kernel.curr_proc ≢ idle
      → is_neg (pred (s.sems i).val) ≡ true
      → (r : Sem × Kernel) × (sem_wait (s.sems i) s.kernel ≡ some r)
        × Inv idle (with_sem s i r)
        × SameFamily s.kernel r.1
  sem_wait_neg n h =
      let (p, ps, e) = front idle s v n in
      let (ran, ok) = joins p ps e n h in
      (
        _,
        ran,
        ok,
        switched-SameFamily s.kernel s.kernel.timers wait_sem p ps v.queue v.running e refl,
      )

pub sem_wait-Inv :
    (idle : ℕ) (s : System) (i : ℕ)
    → Inv idle s
    → s.kernel.curr_proc ≢ idle
    → (r : Sem × Kernel) × (sem_wait (s.sems i) s.kernel ≡ some r)
      × Inv idle (with_sem s i r)
      × SameFamily s.kernel r.1
sem_wait-Inv idle s i v n = go (s.sems i).val refl
  where
    go :
        (z : ℤ)
        → (s.sems i).val ≡ z
        → (r : Sem × Kernel) × (sem_wait (s.sems i) s.kernel ≡ some r)
          × Inv idle (with_sem s i r)
          × SameFamily s.kernel r.1
    go (pos zero) e = sem_wait_neg idle s i v n (rw e refl)
    go (pos (suc m)) e = (
      _,
      sem_wait-pos (s.sems i) s.kernel m e,
      passes idle s i v m e,
      SameFamily-procs s.kernel s.kernel refl refl,
    )
    go (negsuc m) e = sem_wait_neg idle s i v n (rw e refl)
