-- ===== src/Syscalls/Sleep.antt =====
-- `sys_sleep`, and the timer interrupt that ends it.
use karg.Base.{ℕ, ◌≡◌, refl, false, some, List, ◌∷◌, arith, inl, inr, Option-cases}
use karg.Timer
use karg.Timer.{Timer, Timers, timer_wait, timer_isr, timer_cancel, queued, front_time}
use karg.Kernel.{Kernel, ready, sleep, set_state, proc_timer}
use karg.Sched.Resched.{IsValid, IsRunning, switched_to}
use karg.Sched.Update.{block, wake}
use karg.Syscalls.{sys_sleep, timer_interrupt, call_back}

-- When the running process sleeps, its timer is put on the wait queue, and the front of the ready
-- queue gets the processor.
pub sys_sleep-blocks :
    (k : Kernel) (ns now p : ℕ) (ps : List ℕ)
    → IsValid k
    → IsRunning k
    → queued (proc_timer k.curr_proc) k.timers.wait_queue ≡ false
    → k.ready_queue ≡ p ∷ ps
    → (t : Timers) × (timer_wait
          (proc_timer k.curr_proc)
          ns
          Timer.Callback.wakeup_proc
          k.curr_proc
          now
          k.timers
        ≡ some t)
      × let k' = switched_to p ps (set_state (record k { timers = t }) k.curr_proc sleep) in
        (sys_sleep ns now k ≡ some k') × IsValid k' × IsRunning k'
unfolding sys_sleep timer_wait
sys_sleep-blocks k ns now p ps v r q e =
    let cases = Option-cases (
      timer_wait (proc_timer k.curr_proc) ns Timer.Callback.wakeup_proc k.curr_proc now k.timers) in
    elim cases [
      | inl h ↦ absurd (ground (arith, h, q))
      | inr (t, h) ↦
          let k₁ : Kernel = record k { timers = t } in
          let v₁ : IsValid k₁ = record {
            distinct = v.distinct;
            queued = v.queued;
            not_null = v.not_null;
            single = v.single;
          } in
          let r₁ : IsRunning k₁ = record { exists = r.exists; is_curr = r.is_curr } in
          let (ran, valid, running) = block k₁ sleep p ps v₁ r₁ (inr (inr refl)) e in
          (t, h, (ground (arith, h, ran), valid, running))
    ]

-- When the first timer is that of a sleeping process, the interrupt makes the process READY, at the
-- front of the ready queue, and arms the timer for the next entry.
pub timer_interrupt-wakes :
    (k : Kernel) (now : ℕ) (t : Timer) (ts : List Timer)
    → IsValid k
    → k.timers.wait_queue ≡ t ∷ ts
    → t.callback ≡ Timer.Callback.wakeup_proc
    → (k.procs t.arg).state ≡ sleep
    → queued (proc_timer t.arg) ts ≡ false
    → timer_interrupt now k
      ≡ some (record (set_state k t.arg ready) {
        ready_queue = t.arg ∷ k.ready_queue;
        timers = record { wait_queue = ts; armed = front_time ts };
      })
unfolding timer_interrupt timer_isr call_back timer_cancel
timer_interrupt-wakes k now t ts v e c s q =
    let k₁ : Kernel = record k { timers = record { wait_queue = ts; armed = front_time ts } } in
    let v₁ : IsValid k₁ = record {
      distinct = v.distinct;
      queued = v.queued;
      not_null = v.not_null;
      single = v.single;
    } in
    let w = wake k₁ t.arg v₁ (ground (arith, s)) in ground (arith, e, c, s, q, w)
