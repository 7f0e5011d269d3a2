-- ===== src/Tests.antt =====
-- Tests of the definitions, and the theorems at concrete inputs. Here: the kernel that the tests use.
pub mod Sched
pub mod Process
pub mod Heap
pub mod Terminal
pub mod Queue
pub mod System
pub mod Run
pub mod Tree
pub mod Args
pub mod Traps
pub mod Paging
pub mod Start
use karg.Base.{
  ℕ, ◌≡◌, ◌≢◌, Bool, true, false, ◌||◌, List, [], ◌∷◌, ◌==◌, if◌then◌else◌, arith, pos, ℤ,
}
use karg.Kernel.{
  Kernel, Proc, ProcState, init, ready, curr, wait_sem, wait_child, sleep, zombie, same_state,
}
use karg.Sched.Resched.{IsValid, IsRunning}
use karg.Timer
use karg.Vm.{zero_pte}

-- A process with a state, a parent and zombie children, and nothing else.
abbrev pub proc_of : ℤ → ProcState → ℕ → List ℕ → List ℕ → Proc
proc_of pid state parent children zombies = record {
  pid = pid;
  flags = 0;
  parent = parent;
  children = children;
  zombie_children = zombies;
  fds = [];
  state = state;
  proc_waiting = 0;
  exit_status = 5;
  page_table = 0;
  kern_stack = 0;
  user_stack = 0;
  sp = 0;
  frame = record { argv = 0; argc = 0; entry = 0; sstatus = 0; usp = 0; satp = 0 };
}

-- Process 100 runs, 200 and 300 are ready, 400 sleeps and 500 waits for a semaphore. 600 waits for
-- its child 100, and 700 is a zombie child of 100.
abbrev pub sample_procs : ℕ → Proc
sample_procs p =
    if p == 100
    then proc_of (pos 2) curr 600 [] (700 ∷ [])
    else if p == 200
    then proc_of (pos 3) ready 600 [] []
    else if p == 300
    then proc_of (pos 4) ready 600 [] []
    else if p == 400
    then proc_of (pos 5) sleep 600 [] []
    else if p == 500
    then proc_of (pos 6) wait_sem 600 [] []
    else if p == 600
    then proc_of (pos 1) wait_child 0 (100 ∷ 200 ∷ 300 ∷ 400 ∷ 500 ∷ []) []
    else if p == 700
    then proc_of (pos 7) zombie 100 [] []
    else proc_of (pos 0) init 0 [] []

abbrev pub sample : Kernel
sample = record {
  procs = sample_procs;
  proc_table = λ n. if n == 1 then 600 else if n == 7 then 700 else 0;
  last_pid = 7;
  ready_queue = 200 ∷ 300 ∷ [];
  curr_proc = 100;
  running = 100;
  timers = record {
    wait_queue =
        record { node = 400; time = 9; callback = Timer.Callback.wakeup_proc; arg = 400 } ∷ [];
    armed = 9;
  };
  mm = record { free = 8192 ∷ 12288 ∷ []; pte = λ a. zero_pte };
}

pub sample-IsValid : IsValid sample
sample-IsValid = record {
  distinct = ground arith;
  queued = λ p. ground arith;
  not_null = ground arith;
  single = λ p h. ground (arith, h);
}

pub sample-IsRunning : IsRunning sample
sample-IsRunning = record { exists = ground arith; is_curr = ground arith }
