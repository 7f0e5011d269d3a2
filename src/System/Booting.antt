-- ===== src/System/Booting.antt =====
-- Until the scheduler has started: `proc_init` and the change of state after it, `init` of src/sched.c,
-- and `sched_start`.
use karg.Base.{
  bind-some, ℕ, ◌≡◌, refl, sym, ◌∙◌, ap, subst, ◌≢◌, ◌⊎◌, inl, inr, true, false, Option, some,
  ◌>>=◌, List, [], ◌∷◌, ◌==◌, if◌then◌else◌, arith, ℤ, pos, is_neg, Bool-cases,
}
use karg.Kernel.{Kernel, init, ready, null, sched_timer, sched_timeslice}
use karg.Proc.Create.{proc_init}
use karg.Proc.Create.States.{proc_init-SameSched}
use karg.Sched.{sched_update_state, sched_start}
use karg.Sched.Resched
use karg.Sched.Resched.{sched_resched-front, switched_to, switched_to-IsValid}
use karg.Sched.Same.{SameSched}
use karg.Sched.Update.{timers_after, woken, wake, woken-IsValid}
use karg.Sem.{Sem, neg_part}
use karg.Startup.{sched_init}
use karg.System.Inv.{Inv}
use karg.System.Same.{IsValid-same}
use karg.Timer.{Timers, Callback, queued}
use karg.Timer.Order
use karg.Timer.Own.{AllOwn, timer_wait-Own}
use mathlib.Core.Option.{some-injective}

-- Before the scheduler's initialiser: no process is ready or runs, and no timer is queued.
pub record IsFresh (k : Kernel) : Type 0 where
  pub ready_queue : k.ready_queue ≡ []
  pub curr_proc : k.curr_proc ≡ null
  pub states : (p : ℕ) → (k.procs p).state ≡ init
  pub wait_queue : k.timers.wait_queue ≡ []
  pub timers : Order.IsValid k.timers

-- Until the scheduler starts, processes are new or ready, and the rest is as it was.
pub record IsBooting (k : Kernel) : Type 0 where
  pub queue : Resched.IsValid k
  pub curr_proc : k.curr_proc ≡ null
  pub states : (p : ℕ) → ((k.procs p).state ≡ init) ⊎ ((k.procs p).state ≡ ready)
  pub wait_queue : k.timers.wait_queue ≡ []
  pub timers : Order.IsValid k.timers

IsBooting-fresh : (k : Kernel) → IsFresh k → IsBooting k
IsBooting-fresh k f = record {
  queue = record {
    distinct = rw f.ready_queue tt;
    queued = λ p. rw f.ready_queue (rw (f.states p) refl);
    not_null = rw f.ready_queue refl;
    single = λ p h. absurd (ground (arith, f.states p, h));
  };
  curr_proc = f.curr_proc;
  states = λ p. inl (f.states p);
  wait_queue = f.wait_queue;
  timers = f.timers;
}

pub IsBooting-same : (k k' : Kernel) → SameSched k k' → IsBooting k → IsBooting k'
IsBooting-same k k' same b = record {
  queue = IsValid-same k k' same b.queue;
  curr_proc = same.curr_proc ∙ b.curr_proc;
  states = λ p. ground (arith, same.states p, b.states p);
  wait_queue = ap (λ t. t.wait_queue) same.timers ∙ b.wait_queue;
  timers = subst Order.IsValid (sym same.timers) b.timers;
}

-- A new process becomes ready.
made_ready :
    (k : Kernel) (p : ℕ)
    → IsBooting k
    → p ≢ null
    → (k.procs p).state ≡ init
    → (sched_update_state p ready k ≡ some (woken p k)) × IsBooting (woken p k)
made_ready k p b n e =
    let not_ready : (k.procs p).state ≢ ready = ground (arith, e) in
    (
      wake k p b.queue not_ready,
      record {
        queue = (woken-IsValid k p b.queue n (ground (arith, b.curr_proc, n)) not_ready).0;
        curr_proc = b.curr_proc;
        states = λ q. ground (arith, b.states q);
        wait_queue = ground (arith, e, b.wait_queue);
        timers = subst Order.IsValid (sym (ap (λ st. timers_after st p k.timers) e)) b.timers;
      },
    )

-- What `proc_init` and the change of state after it make of the booting kernel.
module _ (p entry flags : ℕ) (argv : List (List ℕ)) (page_table trampoline sstatus : ℕ)
    (k l : Kernel) (res : ℤ)
    (made : proc_init p entry flags null argv page_table trampoline sstatus k ≡ some (res, l))
    (ok : is_neg res ≡ false) (b : IsBooting k) (n : p ≢ null) (e : (k.procs p).state ≡ init) where
  pub proc_init-same : SameSched k l
  proc_init-same =
      let same =
        proc_init-SameSched p entry flags null argv page_table trampoline sstatus k l res made ok in
      record {
        states = λ q. ground (arith, same.states q, e);
        ready_queue = same.ready_queue;
        curr_proc = same.curr_proc;
        timers = same.timers;
      }

  pub process_ready :
      (k' : Kernel) → sched_update_state p ready l ≡ some k' → (k' ≡ woken p l) × IsBooting k'
  process_ready k' h =
      let booting = IsBooting-same k l proc_init-same b in
      let (ran, still) = made_ready l p booting n (proc_init-same.states p ∙ e) in
      let same = some-injective (woken p l) k' (sym ran ∙ h) in
      (sym same, subst IsBooting same still)

-- After the scheduler's initialiser, the idle process alone is ready.
pub sched_init-IsBooting :
    (idle idle_task trampoline sstatus : ℕ) (k k' : Kernel)
    → IsFresh k
    → idle ≢ null
    → sched_init idle idle_task trampoline sstatus k ≡ some (pos 0, k')
    → IsBooting k'
      × (k'.ready_queue ≡ idle ∷ [])
      × ((p : ℕ) → (k'.procs p).state ≡ (if p == idle then ready else init))
      × ((res : ℤ) × (l : Kernel) × (proc_init idle idle_task 1 0 [] null trampoline sstatus k
            ≡ some (res, l))
          × (is_neg res ≡ false)
          × (k' ≡ woken idle l))
unfolding sched_init
sched_init-IsBooting idle idle_task trampoline sstatus k k' f n h =
    let ((res, l), made, rest) =
      bind-some (proc_init idle idle_task 1 0 [] null trampoline sstatus k) rest_of (pos 0, k') h in
    elim (Bool-cases (is_neg res)) [
      | inl q ↦ absurd (negative res l q rest)
      | inr q ↦
          let (k'', ran, end) =
            bind-some (sched_update_state idle ready l) ended (pos 0, k') (after res l q rest) in
          let (same, booting) =
            process_ready idle idle_task 1 [] null trampoline sstatus k l res made q
              (IsBooting-fresh k f) n (f.states idle) k'' ran in
          let last : k'' ≡ k' = ap (λ z. z.1) (some-injective (pos 0, k'') (pos 0, k') end) in
          let kept : SameSched k l =
            proc_init-same idle idle_task 1 [] null trampoline sstatus k l res made q
              (IsBooting-fresh k f) n (f.states idle) in
          let is : k' ≡ woken idle l = sym last ∙ same in
          (
            subst IsBooting last booting,
            ap (λ z. z.ready_queue) is ∙ ap (λ q. idle ∷ q) (kept.ready_queue ∙ f.ready_queue),
            (λ p. ap (λ z. (z.procs p).state) is ∙ ground (arith, kept.states p, f.states p)),
            (res, l, made, q, is),
          )
    ]
  where
    ended : Kernel → Option (ℤ × Kernel)
    ended k₁ = some (pos 0, k₁)

    rest_of : ℤ × Kernel → Option (ℤ × Kernel)
    rest_of made =
        if is_neg made.0 then some made else (sched_update_state idle ready made.1 >>= ended)

    negative : (res : ℤ) (l : Kernel) → is_neg res ≡ true → rest_of (res, l) ≡ some (pos 0, k') → ⊥
    negative res l q e =
        let same : some (res, l) ≡ some (pos 0, k') = rw q at e in
        let zero : res ≡ pos 0 = ap (λ z. z.0) (some-injective (res, l) (pos 0, k') same) in
        ground (arith, q, zero)

    after :
        (res : ℤ) (l : Kernel)
        → is_neg res ≡ false
        → rest_of (res, l) ≡ some (pos 0, k')
        → (sched_update_state idle ready l >>= ended) ≡ some (pos 0, k')
    after res l q e = rw q at e

-- A semaphore that nobody waits for, as `sem_init` leaves it and signals keep it.
pub record IsFree (sem : Sem) : Type 0 where
  pub wait_queue : sem.wait_queue ≡ []
  pub val : neg_part sem.val ≡ 0

-- The scheduler starts: the front of the ready queue runs, with the time slice's timer queued.
module _ (idle p : ℕ) (ps : List ℕ) (sems : ℕ → Sem) (k : Kernel) (now : ℕ) (b : IsBooting k)
    (e : k.ready_queue ≡ p ∷ ps) (alive : (k.procs idle).state ≡ ready)
    (free : (i : ℕ) → IsFree (sems i)) where
  pub starts :
      (k' : Kernel) × (sched_start now k ≡ some k')
      × Inv idle (record { kernel = k'; sems = sems })
      × ((t : Timers) × (k' ≡ switched_to p ps (record k { timers = t })))
  unfolding sched_start
  starts =
      let own : AllOwn k.timers.wait_queue = rw b.wait_queue tt in
      let (t, w, order, all_own, q) =
        timer_wait-Own sched_timer sched_timeslice Callback.sched_preempt null now k.timers b.timers
          own (ap (queued sched_timer) b.wait_queue) (inr (refl, refl)) in
      let k₁ : Kernel = record k { timers = t } in
      let v₁ : Resched.IsValid k₁ = record {
        distinct = b.queue.distinct;
        queued = b.queue.queued;
        not_null = b.queue.not_null;
        single = b.queue.single;
      } in
      let (valid, running) = switched_to-IsValid k₁ p ps v₁ (inl b.curr_proc) e in
      (
        switched_to p ps k₁,
        ground (arith, w, sched_resched-front k₁ p ps v₁ (inl b.curr_proc) e),
        record {
          queue = valid;
          running = running;
          idle_alive = ground (arith, alive);
          timed = record {
            order = order;
            own = all_own;
            slice = ground (arith, q sched_timer);
            sleeping = λ x n. ground (arith, q x, ap (queued x) b.wait_queue, n, b.states x);
          };
          sems = λ i. record {
            counted = rw (free i).wait_queue (sym (free i).val);
            distinct = rw (free i).wait_queue tt;
            waiting = rw (free i).wait_queue tt;
          };
          apart = λ i j x n h. rw (free j).wait_queue refl;
        },
        (t, refl),
      )
