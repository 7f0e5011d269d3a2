-- ===== src/Sched/Starvation.antt =====
-- What the front insertion of `sched_update_state` means for the order in which processes run.
use karg.Base.{ℕ, ◌≡◌, refl, sym, subst, ◌∙◌, ◌≢◌, Option, none, some, ◌>>=◌, arith}
use mathlib.Core.Option.{some-injective}
use karg.Timer.{Timers, timer_wait, Callback}
use karg.Kernel.{Kernel, ready, curr, null, sched_timer, sched_timeslice}
use karg.Sched.{sched_resched, sched_update_state, sched_preempt}
use karg.Sched.Resched.{IsValid, IsRunning, sched_resched-same}
use karg.Sched.Update.{wake, woken-IsValid}

-- What happens to the scheduler while the current process goes on: it yields, its time slice ends
-- at some time, or some other process is woken.
pub data Event (k : Kernel) : Kernel → Type 0 where
  yields : {k' : Kernel} → sched_resched k ≡ some k' → Event k k'
  slice_ends : {k' : Kernel} (now : ℕ) → sched_preempt now k ≡ some k' → Event k k'
  wakes :
      {k' : Kernel} (p : ℕ)
      → p ≢ null
      → p ≢ k.curr_proc
      → (k.procs p).state ≢ ready
      → sched_update_state p ready k ≡ some k'
      → Event k k'

pub data Events (k : Kernel) : Kernel → Type 0 where
  none_yet : Events k k
  then : {k' k'' : Kernel} → Events k k' → Event k' k'' → Events k k''

record Same (k k' : Kernel) : Type 0 where
  valid : IsValid k'
  running : IsRunning k'
  current : k'.curr_proc ≡ k.curr_proc

resched-Same : (k k' : Kernel) → IsValid k → IsRunning k → sched_resched k ≡ some k' → Same k k'
resched-Same k k' v r e = ground (arith, sched_resched-same k v r, v, r)

preempt-Same :
    (now : ℕ) (k k' : Kernel) → IsValid k → IsRunning k → sched_preempt now k ≡ some k' → Same k k'
unfolding sched_preempt
preempt-Same now k k' v r e =
    go (timer_wait sched_timer sched_timeslice Callback.sched_preempt null now k.timers) e
  where
    go :
        (o : Option Timers)
        → (o >>= λ t. sched_resched (record k { timers = t })) ≡ some k'
        → Same k k'
    go none h = cc
    go (some t) h =
        let s =
          resched-Same (record k { timers = t }) k'
            (record {
              distinct = v.distinct;
              queued = v.queued;
              not_null = v.not_null;
              single = v.single;
            })
            (record { exists = r.exists; is_curr = r.is_curr }) h in
        record { valid = s.valid; running = s.running; current = s.current }

wake-Same :
    (k k' : Kernel) (p : ℕ)
    → IsValid k
    → IsRunning k
    → p ≢ null
    → p ≢ k.curr_proc
    → (k.procs p).state ≢ ready
    → sched_update_state p ready k ≡ some k'
    → Same k k'
wake-Same k k' p v r pn pc n e =
    subst (Same k) (some-injective _ _ (sym (wake k p v n) ∙ e)) (record {
      valid = (woken-IsValid k p v pn pc n).0;
      running = (woken-IsValid k p v pn pc n).1 r;
      current = refl;
    })

Event-Same : {k k' : Kernel} → Event k k' → IsValid k → IsRunning k → Same k k'
Event-Same (yields e) v r = resched-Same _ _ v r e
Event-Same (slice_ends now e) v r = preempt-Same now _ _ v r e
Event-Same (wakes p pn pc n e) v r = wake-Same _ _ p v r pn pc n e

Events-Same : {k k' : Kernel} → IsValid k → IsRunning k → Events k k' → Same k k'
Events-Same v r none_yet = record { valid = v; running = r; current = refl }
Events-Same v r (then es e) =
    let s = Events-Same v r es in
    let s' = Event-Same e s.valid s.running in
    record { valid = s'.valid; running = s'.running; current = s'.current ∙ s.current }

-- From a valid ready queue and a running process, that process keeps the processor: however often
-- it yields or its time slice ends, and whatever other processes are woken meanwhile, it is still the
-- current process, CURR, and no other process is CURR.
pub monopoly :
    (k k' : Kernel)
    → IsValid k
    → IsRunning k
    → Events k k'
    → (k'.curr_proc ≡ k.curr_proc)
      × ((k'.procs k.curr_proc).state ≡ curr)
      × ((p : ℕ) → p ≢ k.curr_proc → (k'.procs p).state ≢ curr)
monopoly k k' v r es =
    let s = Events-Same v r es in
    (
      s.current,
      subst (λ p. (k'.procs p).state ≡ curr) s.current s.running.is_curr,
      λ p n c. n ((s.valid.single p c).0 ∙ s.current),
    )
