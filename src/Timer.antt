-- ===== src/Timer.antt =====
-- src/timer.c and include/timer.h: the queue of timers that wait for their time. `wait_queue` is
-- the sequence of its entries (`Links` proves that the pointer code behaves as these list
-- operations), an entry is known by the address of its node, and `armed` is the last deadline that
-- `timer_set` gave to the hardware. What the callbacks do is in `Sched` and `Syscalls`.
pub mod Order
pub mod Own
use karg.Base.{
  ℕ, ◌+◌, ◌-◌, ◌/◌, ◌%◌, ◌^◌, Bool, true, false, ◌||◌, Option, none, some, List, [], ◌∷◌, ltb, ◌==◌,
  if◌then◌else◌,
}

-- The two functions that the kernel registers.
pub data Callback : Type 0 where
  sched_preempt wakeup_proc : Callback

pub record Timer : Type 0 where
  pub node : ℕ
  pub time : ℕ
  pub callback : Callback
  pub arg : ℕ

pub record Timers : Type 0 where
  pub wait_queue : List Timer
  pub armed : ℕ

abbrev pub ns_in_sec : ℕ
ns_in_sec = 1_000_000_000

-- `TIMER_FREQ` of src/platforms/virt.c.
abbrev pub timer_freq : ℕ
timer_freq = 10_000_000

abbrev pub time_max : ℕ
time_max = 2 ^ 64 - 1

-- Whether the node is linked; `timer_init` and `list_remove_init` leave it linked to itself alone.
abbrev pub queued : ℕ → List Timer → Bool
queued n [] = false
queued n (t ∷ ts) = (n == t.node) || queued n ts

abbrev pub unqueue : ℕ → List Timer → List Timer
unqueue n [] = []
unqueue n (t ∷ ts) = if n == t.node then ts else t ∷ unqueue n ts

-- `timer_set(wait_time)`
abbrev pub timer_set : ℕ → Timers → Timers
timer_set wait_time s = record s { armed = wait_time }

-- The time of the first entry, or `TIME_MAX`.
abbrev pub front_time : List Timer → ℕ
front_time [] = time_max
front_time (t ∷ ts) = t.time

-- `timer->time = time() + ns / (NS_IN_SEC / TIMER_FREQ)`, in 64 bits.
pub deadline : ℕ → ℕ → ℕ
deadline now ns = (now + ns / (ns_in_sec / timer_freq)) % 2 ^ 64

-- The loop: in front of the first entry with a later time, or at the back.
pub place : Timer → List Timer → List Timer
place t [] = t ∷ []
place t (e ∷ es) = if ltb t.time e.time then t ∷ e ∷ es else e ∷ place t es

abbrev pub is_front : ℕ → List Timer → Bool
is_front n [] = false
is_front n (t ∷ ts) = n == t.node

-- `none`: the timer waits already, and its node would be linked twice.
unfoldable pub timer_wait : ℕ → ℕ → Callback → ℕ → ℕ → Timers → Option Timers
timer_wait node ns callback arg now s =
    if queued node s.wait_queue
    then none
    else some (
        let t : Timer = record {
          node = node;
          time = deadline now ns;
          callback = callback;
          arg = arg;
        } in
        let q = place t s.wait_queue in
        let s' : Timers = record s { wait_queue = q } in
        if is_front node q then timer_set t.time s' else s')

unfoldable pub timer_cancel : ℕ → Timers → Timers
timer_cancel node s =
    if queued node s.wait_queue
    then (let q = unqueue node s.wait_queue in
        timer_set (front_time q) (record s { wait_queue = q }))
    else s

take_first : List Timer → Option (Timer × Timers)
take_first [] = none
take_first (t ∷ ts) = some (t, record { wait_queue = ts; armed = front_time ts })

-- The entry whose callback the handler calls, with the queue that the callback finds. `none`: the
-- queue is empty, and its head is read as if it stood in a timer.
unfoldable pub timer_isr : Timers → Option (Timer × Timers)
unfolding take_first
timer_isr s = take_first s.wait_queue
