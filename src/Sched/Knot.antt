-- ===== src/Sched/Knot.antt =====
-- `sched_update_state` and `sched_resched` satisfy the equations of the mutually recursive source.
use karg.Base.{ℕ, ◌≡◌, refl, ◌&&◌, not, Option, some, ◌>>=◌, ◌==◌, if◌then◌else◌}
use karg.Kernel.{Kernel, ProcState, ready, curr, null, same_state}
use karg.Sched.{update_state, first_entry, proc_ctx_sw, sched_resched, sched_update_state}

-- What the body of `sched_resched` says, with the real `sched_update_state` for its two calls.
abbrev source_resched : Kernel → Option Kernel
source_resched k = do
  let old_proc = k.curr_proc
  let preempted = not (old_proc == null) && same_state (k.procs old_proc).state curr
  k₁ ← if preempted then sched_update_state old_proc ready k else some k
  new_proc ← first_entry k₁.ready_queue
  k₂ ← sched_update_state new_proc curr k₁
  some (proc_ctx_sw old_proc new_proc k₂)

-- The two functions of the model are a solution of the two mutually recursive definitions of the
-- source: `sched_update_state` is the function of the two `switch` statements that calls
-- `sched_resched`, and `sched_resched` is its body that calls `sched_update_state`.
pub knot :
    (p : ℕ) (s : ProcState) (k : Kernel)
    → (sched_update_state p s k ≡ update_state sched_resched p s k)
      × (sched_resched k ≡ source_resched k)
unfolding sched_update_state sched_resched
knot p s k = (refl, refl)
