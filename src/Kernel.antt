-- ===== src/Kernel.antt =====
-- The kernel's state: include/proc.h, include/fd.h, the `dev_t` of include/dev.h, and the static
-- variables of src/proc.c and src/sched.c. A pointer to a process is its address, 0 is `nullptr`,
-- and a list of processes is the sequence of their addresses (`Links` proves the pointer code
-- right against such sequences).
use karg.Base.{ℕ, Bool, List, ◌==◌, if◌then◌else◌}
use karg.Timer.{Timers}
use karg.Vm.{Mm}
use karg.Base.{ℤ}

abbrev pub null : ℕ
null = 0

-- include/config.h
abbrev pub proc_table_size : ℕ
proc_table_size = 256

abbrev pub proc_fd_capacity : ℕ
proc_fd_capacity = 64

abbrev pub sched_timeslice : ℕ
sched_timeslice = 10_000_000

-- The drivers that a `dev_t` points at.
pub data Driver : Type 0 where
  no_driver tty_driver uart_driver : Driver

pub record Dev : Type 0 where
  pub driver : Driver
  pub num : ℕ

pub record Fd : Type 0 where
  pub flags : ℕ
  pub dev : Dev

pub data ProcState : Type 0 where
  init ready curr wait_sem wait_child sleep zombie : ProcState

-- The words that `proc_fill_stack` puts on a new kernel stack.
pub record Frame : Type 0 where
  pub argv : ℕ
  pub argc : ℕ
  pub entry : ℕ
  pub sstatus : ℕ
  pub usp : ℕ
  pub satp : ℕ

pub record Proc : Type 0 where
  pub pid : ℤ
  pub flags : ℕ
  pub parent : ℕ
  pub children : List ℕ
  pub zombie_children : List ℕ
  pub fds : List Fd
  pub state : ProcState
  pub proc_waiting : ℕ
  pub exit_status : ℕ
  pub page_table : ℕ
  pub kern_stack : ℕ
  pub user_stack : ℕ
  pub sp : ℕ
  pub frame : Frame

-- `running` is the process whose context the processor is in: `proc_ctx_sw` changes it.
pub record Kernel : Type 0 where
  pub procs : ℕ → Proc
  pub proc_table : ℕ → ℕ
  pub last_pid : ℕ
  pub ready_queue : List ℕ
  pub curr_proc : ℕ
  pub running : ℕ
  pub timers : Timers
  pub mm : Mm

-- The same process table but for the process at `p`.
abbrev pub put {ℓ} : {A : Type ℓ} → (ℕ → A) → ℕ → A → ℕ → A
put f p v q = if q == p then v else f q

abbrev pub set_state : Kernel → ℕ → ProcState → Kernel
set_state k p s = record k { procs = put k.procs p (record (k.procs p) { state = s }) }

abbrev pub same_state : ProcState → ProcState → Bool
same_state init init = Bool.true
same_state ready ready = Bool.true
same_state curr curr = Bool.true
same_state wait_sem wait_sem = Bool.true
same_state wait_child wait_child = Bool.true
same_state sleep sleep = Bool.true
same_state zombie zombie = Bool.true
same_state _ _ = Bool.false

-- The address of the timer inside a process; `sched.c`'s own timer has the address 0, which is no
-- process's.
abbrev pub proc_timer : ℕ → ℕ
proc_timer p = p

abbrev pub sched_timer : ℕ
sched_timer = 0
