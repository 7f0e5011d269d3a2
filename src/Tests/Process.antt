-- ===== src/Tests/Process.antt =====
-- Processes: identifiers, descriptors, the system calls, and semaphores.
use karg.Base.{
  ℕ, ◌%◌, ◌^◌, ◌<◌, ◌≡◌, ◌≢◌, ◌⊎◌, refl, some, none, false, ◌&&◌, not, [], ◌∷◌, arith, ℤ, pos,
  negsuc, negate, is_neg, ◌==◌, leb, if◌then◌else◌, replicate, test_bit, get_or,
}
use karg.Errno.{eagain}
use karg.Kernel.{
  Kernel, Proc, ready, curr, wait_sem, null, set_state, proc_table_size, proc_fd_capacity, put,
}
use karg.Sched.Resched
use karg.Sched.Resched.{IsRunning, switched_to}
use karg.Proc.{new_pid, no_fd}
use karg.Proc.Pid.{new_pid_lem}
use karg.Sem.{Sem, sem_wait, sem_signaln, sem_deinit}
use karg.Sem.Waiters.{IsValid}
use karg.Sem.Wait.{sem_wait-blocks}
use karg.Sem.Signal.{sem_signaln-IsValid, sem_deinit-wakes_all, all_woken, add}
use karg.Syscalls.{adopt_all, sys_exit, sys_wait_resume, is_refused, reaped}
use karg.Syscalls.Exit.{adopt_all-init}
use karg.Syscalls.Wait.{exit_wait}
use karg.Syscalls.Files.{is_refused_lem}
use karg.Tests.{sample, sample-IsValid, sample-IsRunning, proc_of}

new_pid_lem_example :
    ((pid : ℕ) × (new_pid sample.proc_table 7 ≡ (pos pid, pid))
      × (pid < proc_table_size)
      × (sample.proc_table pid ≡ null)
      × (pid ≢ 7))
    ⊎ ((new_pid sample.proc_table 7 ≡ (negate eagain, 7))
        × ((q : ℕ) → q < proc_table_size → q ≢ 7 → sample.proc_table q ≢ null))
new_pid_lem_example = new_pid_lem sample.proc_table 7 (omega arith)

-- A process with a table of descriptors of which none is used.
abbrev closed : Proc
closed = record (proc_of (pos 2) curr 600 [] []) { fds = replicate 64 no_fd }

is_refused_lem_example : is_refused closed (pos 3) 1 ≡ (
    if leb proc_fd_capacity 3
    then none
    else some (
        not (test_bit (get_or closed.fds 3 no_fd).flags 0)
        && not (test_bit (get_or closed.fds 3 no_fd).flags 1)))
is_refused_lem_example = is_refused_lem closed 3 1 refl

-- The sample without the zombie.
abbrev childless : Kernel
childless = record sample { procs = put sample.procs 100 (proc_of (pos 2) curr 600 [] []) }

childless-IsValid : Resched.IsValid childless
childless-IsValid = record {
  distinct = ground arith;
  queued = λ p. ground arith;
  not_null = ground arith;
  single = λ p h. ground (arith, h);
}

exit_wait_example :
    (k' : Kernel) × (sys_exit 3 childless ≡ some k')
    × (k'.curr_proc ≡ 600)
    × Resched.IsValid k'
    × IsRunning k'
    × ((k'' : Kernel) × (sys_wait_resume k' ≡ some (reaped (pos 2) (3 % 2 ^ 32 % 2 ^ 8), k'')))
exit_wait_example =
    exit_wait childless 3 600 childless-IsValid (record { exists = ground arith; is_curr = refl })
      refl refl refl (ground arith) refl

-- Process 800 with two children, 100 and 200.
abbrev family : Kernel
family = record sample {
  procs = λ p.
      if p == 800
      then proc_of (pos 2) curr 600 (100 ∷ 200 ∷ []) []
      else proc_of (pos 3) ready 800 [] [];
}

-- The same with process 800 as the init process.
abbrev init_family : Kernel
init_family = record family { proc_table = λ n. 800 }

adopt_all-init_example : adopt_all 9 (λ q. q.children) 800 init_family ≡ none
adopt_all-init_example =
    adopt_all-init 9 800 1 init_family refl (λ q h. ground (arith, h)) (λ q h. ground (arith, h))
      refl

-- A semaphore for which process 500 waits.
abbrev held : Sem
held = record { wait_queue = 500 ∷ []; val = negsuc 0 }

held-IsValid : IsValid held sample
held-IsValid = record { counted = refl; distinct = ground arith; waiting = ground arith }

sem_wait-blocks_example :
    let k' = switched_to 200 (300 ∷ []) (set_state sample 100 wait_sem) in
    let sem' : Sem = record { wait_queue = 500 ∷ 100 ∷ []; val = negsuc 1 } in
    (sem_wait held sample ≡ some (sem', k')) × IsValid sem' k' × Resched.IsValid k' × IsRunning k'
sem_wait-blocks_example =
    sem_wait-blocks held sample 200 (300 ∷ []) held-IsValid sample-IsValid sample-IsRunning refl
      refl

sem_signaln-IsValid_example :
    let k' = all_woken (500 ∷ []) sample in
    let sem' : Sem = record { wait_queue = []; val = add 3 (negsuc 0) } in
    (sem_signaln 3 held sample ≡ some (sem', k')) × IsValid sem' k' × Resched.IsValid k'
sem_signaln-IsValid_example =
    sem_signaln-IsValid 3 held sample (omega arith) (omega arith) (omega arith) held-IsValid
      sample-IsValid

sem_deinit-wakes_all_example :
    (z : ℤ) × (sem_deinit held sample
      ≡ some (record { wait_queue = []; val = z }, all_woken (500 ∷ []) sample))
    × (is_neg z ≡ false)
    × Resched.IsValid (all_woken (500 ∷ []) sample)
sem_deinit-wakes_all_example = sem_deinit-wakes_all held sample held-IsValid sample-IsValid
