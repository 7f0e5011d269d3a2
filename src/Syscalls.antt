-- ===== src/Syscalls.antt =====
-- src/syscalls/: the system calls, by the running process. A call that gives the processor up ends
-- there, and what the process does when it runs again is a function of its own. `none` is undefined
-- behaviour: a null pointer read as a process, a loop that does not end, or a descriptor out of the
-- table.
pub mod Exit
pub mod Wait
pub mod Sleep
pub mod Files
use karg.Base.{
  ℕ, zero, suc, ◌+◌, ◌%◌, ◌^◌, Bool, true, false, ◌&&◌, ◌||◌, not, Option, none, some, ◌>>=◌, List,
  [], ◌∷◌, ◌++◌, ◌==◌, leb, if◌then◌else◌, get_elem?, ◌⊎◌, inl, inr, ℤ, pos, negsuc, is_neg, negate,
  test_bit, length,
}
use karg.Errno.{ebadf, echild, efault, einval, enomem}
use karg.Timer
use karg.Timer.{timer_wait}
use karg.Vm.{vm_virt_to_phys}
use karg.Kernel.{
  Fd, Dev, Proc, ProcState, ready, wait_child, sleep, zombie, Kernel, null, put, same_state,
  sched_timer, proc_timer,
}
use karg.Sched.{first_entry, sched_resched, sched_update_state, sched_preempt}
use karg.Proc.{proc_adopt, proc_deinit, proc_is_bad_fd, unlink_tree, push_zombie}
use karg.Proc.Create.{proc_init}
use karg.Tty.{Io, ReadState, dev_read, dev_write}

abbrev pub is_empty : List ℕ → Bool
is_empty [] = true
is_empty (x ∷ xs) = false

abbrev pub init_pid : ℕ
init_pid = 1

-- The two loops of `sys_exit`: while the list that `children` reads is not empty, its first process
-- is adopted by the init process. On fuel.
unfoldable pub adopt_all : ℕ → (Proc → List ℕ) → ℕ → Kernel → Option Kernel
adopt_all zero children p k = none
adopt_all (suc fuel) children p k = elim (children (k.procs p)) [
  | [] ↦ some k
  | child ∷ _ ↦ adopt_all fuel children p (proc_adopt (k.proc_table init_pid) child k)
]

abbrev pub set_exit_status : ℕ → ℕ → Kernel → Kernel
set_exit_status p status k = record k {
  procs = put k.procs p (record (k.procs p) { exit_status = status });
}

-- The zombie goes to its parent, which is woken if it waits for a child.
unfoldable pub notify_parent : ℕ → ℕ → Kernel → Option Kernel
notify_parent p parent k =
    let k₁ = push_zombie parent p (unlink_tree p k) in
    if same_state (k₁.procs parent).state wait_child
    then sched_update_state parent ready
        (record k₁ { procs = put k₁.procs parent (record (k₁.procs parent) { proc_waiting = p }) })
    else some k₁

-- `status` is the register `a0`, of which the call takes the low 32 bits.
unfoldable pub sys_exit : ℕ → Kernel → Option Kernel
unfolding notify_parent
sys_exit status k = do
  let p = k.curr_proc
  let k₁ = set_exit_status p (status % 2 ^ 32) k
  k₂ ← adopt_all (length (k₁.procs p).children + 1) (λ q. q.children) p k₁
  k₃ ← adopt_all (length (k₂.procs p).zombie_children + 1) (λ q. q.zombie_children) p k₂
  let parent = (k₃.procs p).parent
  k₄ ← if parent == null then none else notify_parent p parent k₃
  sched_update_state p zombie k₄

-- How `sys_wait` ends: with an error, with the identifier of the child and its status, or not yet.
pub data Waited : Type 0 where
  failed : ℤ → Waited
  reaped : (pid : ℤ) (status : ℕ) → Waited
  blocked : Waited

-- From the label `quit` on. The identifier is read after the process is freed, and its memory still
-- holds it.
unfoldable pub reap : ℕ → Kernel → Option (Waited × Kernel)
reap proc k =
    if proc == null
    then none
    else some (reaped (k.procs proc).pid ((k.procs proc).exit_status % 2 ^ 8), proc_deinit proc k)

unfoldable pub sys_wait : Kernel → Option (Waited × Kernel)
unfolding reap
sys_wait k =
    let p = k.procs k.curr_proc in
    if is_empty p.children && is_empty p.zombie_children
    then some (failed (negate echild), k)
    else elim p.zombie_children [
      | child ∷ _ ↦ reap child k
      | [] ↦ (do k' ← sched_update_state k.curr_proc wait_child k; some (blocked, k'))
    ]

-- The waiting process runs again.
unfoldable pub sys_wait_resume : Kernel → Option (Waited × Kernel)
unfolding reap
sys_wait_resume k = reap (k.procs k.curr_proc).proc_waiting k

unfoldable pub sys_yield : Kernel → Option Kernel
sys_yield k = sched_resched k

pub sys_getpid : Kernel → ℤ
sys_getpid k = (k.procs k.curr_proc).pid

unfoldable pub sys_sleep : (ns now : ℕ) → Kernel → Option Kernel
sys_sleep ns now k = do
  let p = k.curr_proc
  t ← timer_wait (proc_timer p) ns Timer.Callback.wakeup_proc p now k.timers
  sched_update_state p sleep (record k { timers = t })

-- The callback of a timer, with its argument.
unfoldable pub call_back : Timer.Callback → ℕ → ℕ → Kernel → Option Kernel
call_back Timer.Callback.sched_preempt arg now k = sched_preempt now k
call_back Timer.Callback.wakeup_proc arg now k = sched_update_state arg ready k

-- The timer interrupt: `timer_isr` and the callback that it calls.
unfoldable pub timer_interrupt : ℕ → Kernel → Option Kernel
unfolding call_back
timer_interrupt now k = Timer.timer_isr k.timers >>= λ (t, timers).
    call_back t.callback t.arg now (record k { timers = timers })

-- `curr_proc->fds[fd]`
abbrev pub fd_at : Proc → ℤ → Option Fd
fd_at p (pos fd) = get_elem? p.fds fd
fd_at p (negsuc fd) = none

-- `proc_is_bad_fd(curr_proc, fd) && !(curr_proc->fds[fd].flags & flag)`: the flag is read only of a
-- bad descriptor.
pub is_refused : Proc → ℤ → ℕ → Option Bool
is_refused p fd bit =
    if proc_is_bad_fd p fd
    then (do f ← fd_at p fd; some (not (test_bit f.flags bit)))
    else some false

pub sys_read : (fd : ℤ) (buf size : ℕ) → Io → Kernel → Option (ℤ ⊎ ReadState)
sys_read fd buf size io k = do
  let p = k.procs k.curr_proc
  refused ← is_refused p fd 1
  let read = fd_at p fd >>= λ f. dev_read f.dev size io k
  let checked = if buf == null then some (inl (negate efault)) else read
  if refused then some (inl (negate ebadf)) else checked

-- `bytes` are the bytes at a physical address; terminals write to terminals at most `depth` deep.
pub sys_write :
    (depth : ℕ) (bytes : ℕ → ℕ → List ℕ) (fd : ℤ) (buf size : ℕ) → Io → Kernel → Option (ℤ × Io)
sys_write depth bytes fd buf size io k = do
  let p = k.procs k.curr_proc
  let translated = vm_virt_to_phys p.page_table buf k.mm
  refused ← if is_neg translated.0 then some false else is_refused p fd 2
  let written =
      translated.1 >>= λ addr. fd_at p fd >>= λ f. dev_write depth f.dev (bytes addr size) io
  let checked = if refused then some (negate ebadf, io) else written
  if is_neg translated.0 then some (translated.0, io) else checked

-- `block` is what `kmalloc` gives for the new process, `argv` the strings, if the pointer to them is
-- not null.
unfoldable pub sys_proc :
    (entry : ℕ) (argv : Option (List (List ℕ))) (block trampoline sstatus : ℕ)
    → Kernel
    → Option (ℤ × Kernel)
sys_proc entry none block trampoline sstatus k = some (negate efault, k)
sys_proc entry (some argv) block trampoline sstatus k =
    let made = proc_init block entry 0 k.curr_proc argv null trampoline sstatus k >>= λ (res, k').
    if is_neg res
    then some (res, k')
    else (do k'' ← sched_update_state block ready k'; some ((k''.procs block).pid, k'')) in
    if entry == null
    then some (negate efault, k)
    else if block == null
    then some (negate enomem, k)
    else made

-- What `sys_reboot` asks of the machine; the three calls do not return.
pub data Reboot : Type 0 where
  reboot shutdown hang : Reboot

pub sys_reboot : ℕ → ℤ ⊎ Reboot
sys_reboot type =
    if type == 0
    then inr reboot
    else if type == 1
    then inr shutdown
    else if type == 2
    then inr hang
    else inl (negate einval)
