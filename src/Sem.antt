-- ===== src/Sem.antt =====
-- src/sync/sem.c: counting semaphores. A negative value counts the processes in the wait queue.
-- An operation returns the semaphore and the kernel; `none` is undefined behaviour. What a process
-- does after a `sem_wait` that blocked it, it does when it is current again. The value, an `i32`, and
-- the count of `sem_signaln`, a `u32`, are numbers without a bound: the model is that of the code as long
-- as they do not overflow.
pub mod Waiters
pub mod Wait
pub mod Signal
use karg.Base.{
  ℕ, zero, suc, ◌+◌, Bool, true, false, Option, none, some, ◌>>=◌, List, [], ◌∷◌, ◌++◌, ◌==◌,
  if◌then◌else◌, ℤ, pos, is_neg, succ, pred,
}
use karg.Kernel.{Kernel, ProcState, ready, wait_sem}
use karg.Sched.{first_entry, sched_update_state}

pub record Sem : Type 0 where
  pub wait_queue : List ℕ
  pub val : ℤ

abbrev pub tail : List ℕ → List ℕ
tail [] = []
tail (x ∷ xs) = xs

unfoldable pub sem_init : Sem
sem_init = record { wait_queue = []; val = pos 0 }

pub sem_wait : Sem → Kernel → Option (Sem × Kernel)
sem_wait sem k =
    let val = pred sem.val in
    if is_neg val
    then (do
      k' ← sched_update_state k.curr_proc wait_sem k
      some (record { wait_queue = sem.wait_queue ++ k.curr_proc ∷ []; val = val }, k'))
    else some (record sem { val = val }, k)

-- `first_entry` and `list_pop_front`, then the front process is made READY.
wake_first : Sem → Kernel → Option (Sem × Kernel)
wake_first sem k = do
  proc ← first_entry sem.wait_queue
  k' ← sched_update_state proc ready k
  some (record sem { wait_queue = tail sem.wait_queue }, k')

pub sem_signal : Sem → Kernel → Option (Sem × Kernel)
unfolding wake_first
sem_signal sem k =
    let sem' : Sem = record sem { val = succ sem.val } in
    if is_neg sem.val then wake_first sem' k else some (sem', k)

pub sem_signaln : ℕ → Sem → Kernel → Option (Sem × Kernel)
sem_signaln zero sem k = some (sem, k)
sem_signaln (suc n) sem k = sem_signal sem k >>= λ (s, k'). sem_signaln n s k'

-- The loop of `sem_deinit`, on fuel: `val` counts up, so `-val` rounds and the last test are enough.
deinit_loop : ℕ → Sem → Kernel → Option (Sem × Kernel)
deinit_loop zero sem k = none
deinit_loop (suc fuel) sem k =
    let sem' : Sem = record sem { val = succ sem.val } in
    let rest = wake_first sem' k >>= λ (s, k'). deinit_loop fuel s k' in
    if is_neg sem.val then rest else some (sem', k)

abbrev pub neg_part : ℤ → ℕ
neg_part (pos n) = 0
neg_part (ℤ.negsuc n) = suc n

pub sem_deinit : Sem → Kernel → Option (Sem × Kernel)
unfolding deinit_loop
sem_deinit sem k = deinit_loop (neg_part sem.val + 1) sem k
