-- ===== src/Timer/Own.antt =====
-- Whose timers wait: each node's timer has the callback and the argument of its owner, and the queue
-- operations keep that.
use karg.Base.{
  ℕ, ◌≡◌, refl, ◌≢◌, ◌⊎◌, true, false, ◌&&◌, ◌||◌, not, some, List, [], ◌∷◌, arith, ltb, ◌==◌,
  if◌then◌else◌,
}
use karg.Timer.{
  Timer, Timers, Callback, sched_preempt, wakeup_proc, queued, unqueue, front_time, deadline, place,
  timer_wait, timer_cancel, timer_set,
}
use karg.Timer.Order.{IsValid, HasDistinct, queued-place, timer_wait-placed}

-- A process's timer wakes that process; the scheduler's, at address 0, ends the time slice.
abbrev pub IsOwn : Timer → Type 0
IsOwn t =
    ((t.callback ≡ wakeup_proc) × (t.arg ≡ t.node) × (t.node ≢ 0))
    ⊎ ((t.callback ≡ sched_preempt) × (t.node ≡ 0))

abbrev pub AllOwn : List Timer → Type 0
AllOwn [] = Unit
AllOwn (t ∷ ts) = IsOwn t × AllOwn ts

AllOwn-place : (t : Timer) (ts : List Timer) → IsOwn t → AllOwn ts → AllOwn (place t ts)
unfolding place
AllOwn-place t [] o a = (o, tt)
AllOwn-place t (e ∷ es) o a =
    elim (ltb t.time e.time) as (λ b. AllOwn (if b then t ∷ e ∷ es else e ∷ place t es)) [
      | true ↦ (o, a)
      | false ↦ (a.0, AllOwn-place t es o a.1)
    ]

AllOwn-unqueue : (n : ℕ) (ts : List Timer) → AllOwn ts → AllOwn (unqueue n ts)
AllOwn-unqueue n [] a = tt
AllOwn-unqueue n (t ∷ ts) a =
    elim (n == t.node) as (λ b. AllOwn (if b then ts else t ∷ unqueue n ts)) [
      | true ↦ a.1
      | false ↦ (a.0, AllOwn-unqueue n ts a.1)
    ]

queued-unqueue_lem :
    (n m : ℕ) (ts : List Timer)
    → HasDistinct ts
    → queued n (unqueue m ts) ≡ (queued n ts && not (n == m))
queued-unqueue_lem n m [] d = refl
queued-unqueue_lem n m (t ∷ ts) d = ground (arith, queued-unqueue_lem n m ts d.1, d.0)

-- `timer_wait` of an own timer.
pub timer_wait-Own :
    (node ns : ℕ) (cb : Callback) (arg now : ℕ) (s : Timers)
    → IsValid s
    → AllOwn s.wait_queue
    → queued node s.wait_queue ≡ false
    → IsOwn (record { node = node; time = deadline now ns; callback = cb; arg = arg })
    → (s' : Timers) × (timer_wait node ns cb arg now s ≡ some s')
      × IsValid s'
      × AllOwn s'.wait_queue
      × ((n : ℕ) → queued n s'.wait_queue ≡ ((n == node) || queued n s.wait_queue))
timer_wait-Own node ns cb arg now s v a f o =
    let t : Timer = record { node = node; time = deadline now ns; callback = cb; arg = arg } in
    let (e, valid) = timer_wait-placed node ns cb arg now s v f in
    (_, e, valid, AllOwn-place t s.wait_queue o a, λ n. queued-place n t s.wait_queue)

-- `timer_cancel`, of a timer that waits or not.
pub timer_cancel-Own :
    (node : ℕ) (s : Timers)
    → IsValid s
    → AllOwn s.wait_queue
    → AllOwn (timer_cancel node s).wait_queue
      × ((n : ℕ)
          → queued n (timer_cancel node s).wait_queue ≡ (queued n s.wait_queue && not (n == node)))
unfolding timer_cancel
timer_cancel-Own node s v a = (
  elim (queued node s.wait_queue)
      as (λ b.
        AllOwn
          (if b
            then timer_set (front_time (unqueue node s.wait_queue))
                (record s { wait_queue = unqueue node s.wait_queue })
            else s).wait_queue) [ true ↦ AllOwn-unqueue node s.wait_queue a | false ↦ a ],
  λ n. ground (arith, queued-unqueue_lem n node s.wait_queue v.distinct),
)
