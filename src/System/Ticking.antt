-- ===== src/System/Ticking.antt =====
-- The timer's interrupt: the first timer wakes its process, or ends the time slice.
use karg.Base.{
  ℕ, ◌≡◌, refl, sym, ◌∙◌, ap, subst, ◌≢◌, inl, inr, true, false, ◌||◌, some, List, ◌∷◌, ◌==◌, arith,
}
use karg.Kernel.{Kernel, ready, sleep, null, same_state, sched_timer, sched_timeslice}
use karg.Sched.{sched_preempt}
use karg.Sched.Resched
use karg.Sched.Resched.{IsRunning, sched_resched-same, same_state-eq}
use karg.Sched.Update.{woken, woken-IsValid}
use karg.Sem.Waiters.{AllWaiting-woken}
use karg.Syscalls.{timer_interrupt, call_back}
use karg.Syscalls.Sleep.{timer_interrupt-wakes}
use karg.System.{System, with_kernel}
use karg.System.Family.{SameFamily}
use karg.System.Family.Scheduled.{SameFamily-procs, SameFamily-after, woken-SameFamily}
use karg.System.Inv.{Inv}
use karg.System.Waking.{not-has_of_state, idle-woken}
use karg.Timer
use karg.Timer.{Timer, Timers, Callback, wakeup_proc, queued, timer_isr, front_time}
use karg.Timer.Order
use karg.Timer.Order.{IsSorted, HasDistinct}
use karg.Timer.Own.{IsOwn, AllOwn, timer_wait-Own}

-- The first timer `t`, and the timers behind it.
module _ (idle : ℕ) (s : System) (now : ℕ) (v : Inv idle s) (t : Timer) (ts : List Timer)
    (e : s.kernel.timers.wait_queue ≡ t ∷ ts) where
  abbrev behind : Timers
  behind = record { wait_queue = ts; armed = front_time ts }

  own : IsOwn t × AllOwn ts
  own = let o : AllOwn (t ∷ ts) = subst AllOwn e v.timed.own in o

  distinct : (queued t.node ts ≡ false) × HasDistinct ts
  distinct = let o : HasDistinct (t ∷ ts) = subst HasDistinct e v.timed.order.distinct in o

  behind-IsValid : Order.IsValid behind
  behind-IsValid =
      let o : IsSorted (t ∷ ts) = subst IsSorted e v.timed.order.sorted in
      record { sorted = o.1; distinct = distinct.1; programmed = refl }

  sleeping :
      (p : ℕ)
      → p ≢ null
      → ((p == t.node) || queued p ts) ≡ same_state (s.kernel.procs p).state sleep
  sleeping p n = ap (queued p) (sym e) ∙ v.timed.sleeping p n

  slice_queued : ((sched_timer == t.node) || queued sched_timer ts) ≡ true
  slice_queued = ap (queued sched_timer) (sym e) ∙ v.timed.slice

  wakes :
      (t.callback ≡ wakeup_proc) × (t.arg ≡ t.node) × (t.node ≢ 0)
      → (k : Kernel) × (timer_interrupt now s.kernel ≡ some k)
        × Inv idle (with_kernel s k)
        × SameFamily s.kernel k
  wakes (c, a, z) =
      let k = s.kernel in
      let p = t.arg in
      let asleep : (k.procs p).state ≡ sleep =
        same_state-eq _ sleep (ground (arith, sleeping p, a, z)) in
      let pn : p ≢ null = ground (arith, a, z) in
      let pc : p ≢ k.curr_proc = λ h. ground (arith, asleep, v.running.is_curr, h) in
      let not_ready : (k.procs p).state ≢ ready = ground (arith, asleep) in
      let (valid, running) = woken-IsValid k p v.queue pn pc not_ready in
      (
        _,
        timer_interrupt-wakes k now t ts v.queue e c asleep (ground (arith, distinct, a)),
        record {
          queue = record {
            distinct = valid.distinct;
            queued = valid.queued;
            not_null = valid.not_null;
            single = valid.single;
          };
          running =
              (let r = running v.running in record { exists = r.exists; is_curr = r.is_curr });
          idle_alive = idle-woken k p v.queue pn pc not_ready idle v.idle_alive;
          timed = record {
            order = behind-IsValid;
            own = own.1;
            slice = ground (arith, slice_queued, z);
            sleeping = λ x n. ground (arith, sleeping x n, a, distinct);
          };
          sems = λ j. record {
            counted = (v.sems j).counted;
            distinct = (v.sems j).distinct;
            waiting =
                AllWaiting-woken k p (s.sems j).wait_queue
                  (not-has_of_state k p (s.sems j).wait_queue (v.sems j).waiting
                    (ground (arith, asleep)))
                  (v.sems j).waiting;
          };
          apart = v.apart;
        },
        SameFamily-after k (woken p k) _
            (woken-SameFamily k p (ground (arith, asleep)) (ground (arith, asleep))) refl refl,
      )

  ends_slice :
      (t.callback ≡ Timer.Callback.sched_preempt) × (t.node ≡ 0)
      → (k : Kernel) × (timer_interrupt now s.kernel ≡ some k)
        × Inv idle (with_kernel s k)
        × SameFamily s.kernel k
  unfolding timer_interrupt timer_isr call_back sched_preempt
  ends_slice (c, z) =
      let k = s.kernel in
      let (u, w, order, all_own, q) =
        timer_wait-Own sched_timer sched_timeslice Timer.Callback.sched_preempt null now behind
          behind-IsValid own.1 (ground (arith, distinct, z)) (inr (refl, refl)) in
      let k₁ : Kernel = record k { timers = u } in
      let v₁ : Resched.IsValid k₁ = record {
        distinct = v.queue.distinct;
        queued = v.queue.queued;
        not_null = v.queue.not_null;
        single = v.queue.single;
      } in
      let r₁ : IsRunning k₁ = record { exists = v.running.exists; is_curr = v.running.is_curr } in
      (
        record k₁ { running = k.curr_proc },
        ground (arith, e, c, w, sched_resched-same k₁ v₁ r₁),
        record {
          queue = record {
            distinct = v₁.distinct;
            queued = v₁.queued;
            not_null = v₁.not_null;
            single = v₁.single;
          };
          running = record { exists = r₁.exists; is_curr = r₁.is_curr };
          idle_alive = v.idle_alive;
          timed = record {
            order = order;
            own = all_own;
            slice = ground (arith, q sched_timer);
            sleeping = λ x n. ground (arith, q x, sleeping x n, z);
          };
          sems = λ i. record {
            counted = (v.sems i).counted;
            distinct = (v.sems i).distinct;
            waiting = (v.sems i).waiting;
          };
          apart = v.apart;
        },
        SameFamily-procs k (record k₁ { running = k.curr_proc }) refl refl,
      )

pub timer_interrupt-Inv :
    (idle : ℕ) (s : System) (now : ℕ) (t : Timer) (ts : List Timer)
    → Inv idle s
    → s.kernel.timers.wait_queue ≡ t ∷ ts
    → (k : Kernel) × (timer_interrupt now s.kernel ≡ some k)
      × Inv idle (with_kernel s k)
      × SameFamily s.kernel k
timer_interrupt-Inv idle s now t ts v e = elim (own idle s now v t ts e).0 [
  | inl o ↦ wakes idle s now v t ts e o
  | inr o ↦ ends_slice idle s now v t ts e o
]
