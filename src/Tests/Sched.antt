-- ===== src/Tests/Sched.antt =====
-- The scheduler.
use karg.Base.{ℕ, ◌≡◌, ◌≢◌, refl, some, [], ◌∷◌, arith, inr}
use karg.Kernel.{Kernel, ready, curr, wait_sem, set_state}
use karg.Sched.{sched_resched, sched_update_state}
use karg.Sched.Resched.{IsValid, sched_resched-same, sched_resched-front, switched_to}
use karg.Sched.Update.{wake, woken, woken-IsValid}
use karg.Sched.Starvation.{Event, Events, monopoly}
use karg.Tests.{sample, sample-IsValid, sample-IsRunning}

-- The sample, in which the running process has begun to wait.
abbrev waiting : Kernel
waiting = set_state sample 100 wait_sem

waiting-IsValid : IsValid waiting
waiting-IsValid = record {
  distinct = ground arith;
  queued = λ p. ground arith;
  not_null = ground arith;
  single = λ p h. ground (arith, h);
}

sched_resched-front_example : sched_resched waiting ≡ some (switched_to 200 (300 ∷ []) waiting)
sched_resched-front_example =
    sched_resched-front waiting 200 (300 ∷ []) waiting-IsValid (inr (ground arith)) refl

sched_resched-same_example : sched_resched sample ≡ some (record sample { running = 100 })
sched_resched-same_example = sched_resched-same sample sample-IsValid sample-IsRunning

wake_example : sched_update_state 500 ready sample ≡ some (woken 500 sample)
wake_example = wake sample 500 sample-IsValid (ground arith)

-- Process 500 is woken, and then process 100 yields.
abbrev after_wake : Kernel
after_wake = woken 500 sample

woken_then_yielded : Events sample (record after_wake { running = 100 })
woken_then_yielded =
    let ok = woken-IsValid sample 500 sample-IsValid (ground arith) (ground arith) (ground arith) in
    Events.then
      (Events.then Events.none_yet (
        Event.wakes 500 (ground arith) (ground arith) (ground arith)
          (wake sample 500 sample-IsValid (ground arith))))
      (Event.yields (sched_resched-same after_wake ok.0 (ok.1 sample-IsRunning)))

monopoly_example :
    let k' = record after_wake { running = 100 } in
    (k'.curr_proc ≡ 100)
    × ((k'.procs 100).state ≡ curr)
    × ((p : ℕ) → p ≢ 100 → (k'.procs p).state ≢ curr)
monopoly_example =
    monopoly sample (record after_wake { running = 100 }) sample-IsValid sample-IsRunning
      woken_then_yielded
