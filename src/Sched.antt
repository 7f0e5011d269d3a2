-- ===== src/Sched.antt =====
-- src/sched.c: the ready queue and the state machine of a process. `none` is undefined behaviour:
-- a node that is unlinked from a list on which it is not, or linked twice, or the front of an empty
-- ready queue taken for a process. `sched_update_state` and `sched_resched` call each other; the
-- inner call of `sched_resched` only makes processes READY or CURR and reschedules no more, so the
-- call is passed in as a function, and `Sched.Knot` proves that the recursion is the source's.
pub mod Knot
pub mod Resched
pub mod Same
pub mod Update
pub mod Starvation
use karg.Base.{
  ℕ, Bool, true, false, ◌&&◌, ◌||◌, not, Option, none, some, ◌>>=◌, List, [], ◌∷◌, ◌==◌,
  if◌then◌else◌, has, erase,
}
use karg.Timer.{Callback, timer_wait, timer_cancel}
use karg.Kernel.{
  Kernel, ProcState, init, ready, curr, wait_sem, wait_child, sleep, zombie, null, set_state,
  same_state, proc_timer, sched_timer, sched_timeslice,
}

-- The first `switch`: what leaving a state undoes.
leave : ProcState → ℕ → Kernel → Option Kernel
leave ready p k =
    if has p k.ready_queue then some (record k { ready_queue = erase p k.ready_queue }) else none
leave sleep p k = some (record k { timers = timer_cancel (proc_timer p) k.timers })
leave _ p k = some k

push_ready : ℕ → Kernel → Option Kernel
push_ready p k =
    if has p k.ready_queue then none else some (record k { ready_queue = p ∷ k.ready_queue })

-- The second `switch`: what entering a state does.
enter : (Kernel → Option Kernel) → ProcState → ℕ → Kernel → Option Kernel
unfolding push_ready
enter resched ready p k = push_ready p k
enter resched curr p k = some (record k { curr_proc = p })
enter resched wait_sem p k = if p == k.curr_proc then resched k else some k
enter resched wait_child p k = if p == k.curr_proc then resched k else some k
enter resched sleep p k = if p == k.curr_proc then resched k else some k
enter resched zombie p k =
    if p == k.curr_proc then resched (record k { curr_proc = null }) else some k
enter resched init p k = some k

pub update_state : (Kernel → Option Kernel) → ℕ → ProcState → Kernel → Option Kernel
unfolding leave enter
update_state resched p s k =
    if same_state (k.procs p).state s
    then some k
    else do k₁ ← leave (k.procs p).state p k; enter resched s p (set_state k₁ p s)

-- `proc_ctx_sw`: the processor goes on in the context of `new_proc`.
abbrev pub proc_ctx_sw : ℕ → ℕ → Kernel → Kernel
proc_ctx_sw old_proc new_proc k = record k { running = new_proc }

abbrev pub first_entry : List ℕ → Option ℕ
first_entry [] = none
first_entry (p ∷ ps) = some p

unfoldable pub sched_resched : Kernel → Option Kernel
unfolding update_state
sched_resched k = do
  let old_proc = k.curr_proc
  let preempted = not (old_proc == null) && same_state (k.procs old_proc).state curr
  k₁ ← if preempted then update_state some old_proc ready k else some k
  new_proc ← first_entry k₁.ready_queue
  k₂ ← update_state some new_proc curr k₁
  some (proc_ctx_sw old_proc new_proc k₂)

unfoldable pub sched_update_state : ℕ → ProcState → Kernel → Option Kernel
unfolding update_state
sched_update_state = update_state sched_resched

-- The timer's callback, and the start of the first time slice.
unfoldable pub sched_preempt : ℕ → Kernel → Option Kernel
sched_preempt now k = do
  t ← timer_wait sched_timer sched_timeslice Callback.sched_preempt null now k.timers
  sched_resched (record k { timers = t })

unfoldable pub sched_start : ℕ → Kernel → Option Kernel
sched_start now k = do
  t ← timer_wait sched_timer sched_timeslice Callback.sched_preempt null now k.timers
  sched_resched (record k { timers = t })
