-- ===== src/Tests/Run.antt =====
-- The kernel from its start, and runs of it.
use karg.Base.{
  ℕ, ◌≡◌, ◌≢◌, refl, ◌==◌, if◌then◌else◌, Option, none, some, [], ◌∷◌, replicate, arith, ℤ, pos,
  negsuc, zero, suc, Bool, true, false,
}
use karg.Kernel.{Kernel, sleep, init, null}
use karg.PageAlloc.{page_alloc}
use karg.Proc.{no_fd, new_pid, first_free, init_fds}
use karg.Elf.{elf_load, elf_hdr, read_le, load_progs}
use karg.Vm.{vm_create_page_table, next_table, vm_map_page}
use karg.Timer.{timer_wait}
use karg.Proc.Create.{proc_init}
use karg.Sched.{sched_update_state, sched_start, sched_resched}
use karg.Sem.{Sem, sem_wait, sem_signal}
use karg.Startup.{Started, started, elf_failed, proc_failed, sched_init, kmain}
use karg.System.Booting.{IsFresh, IsFree}
use karg.System.Boot.{boot-Inv}
use karg.Syscalls.{sys_yield, sys_sleep, timer_interrupt}
use karg.System.{System, here, next, sleeps, ticks, with_kernel}
use karg.System.Blocking.{sys_sleep-Inv}
use karg.System.Inv.{Inv}
use karg.System.Progress.{Reach-interrupt, Reach-blocks}
use karg.Tests.{proc_of}
use karg.Vm.{zero_pte}

-- Before the scheduler's initialiser, with twenty free pages.
abbrev pub fresh : Kernel
fresh = record {
  procs = λ p. record (proc_of (pos 0) init 0 [] []) { fds = replicate 64 no_fd };
  proc_table = λ n. null;
  last_pid = 255;
  ready_queue = [];
  curr_proc = null;
  running = null;
  timers = record { wait_queue = []; armed = 18446744073709551615 };
  mm = record {
    free =
        8192 ∷ 12288 ∷ 16384 ∷ 20480 ∷ 24576 ∷ 28672 ∷ 32768 ∷ 36864 ∷ 40960 ∷ 45056 ∷ 49152 ∷ 53248
        ∷ 57344 ∷ 61440 ∷ 65536 ∷ 69632 ∷ 73728 ∷ 77824 ∷ 81920 ∷ 86016 ∷ [];
    pte = λ a. zero_pte;
  };
}

pub fresh-IsFresh : IsFresh fresh
fresh-IsFresh = record {
  ready_queue = refl;
  curr_proc = refl;
  states = λ p. refl;
  wait_queue = refl;
  timers = record { sorted = tt; distinct = tt; programmed = refl };
}

abbrev pub sems : ℕ → Sem
sems i = record { val = pos 0; wait_queue = [] }

-- A program image at the address 2^20 with no segments.
abbrev pub image : ℕ → ℕ
image a =
    if a == 1048576
    then 0x7F
    else if a == 1048577
    then 69
    else if a == 1048578
    then 76
    else if a == 1048579
    then 70
    else if a == 1048580
    then 2
    else if a == 1048581
    then 1
    else if a == 1048582
    then 1
    else if a == 1048592
    then 2
    else 0

abbrev kernel_of : Option (ℤ × Kernel) → Kernel
kernel_of none = fresh
kernel_of (some r) = r.1

abbrev started_kernel : Option Started → Kernel
started_kernel (some (started k)) = k
started_kernel _ = fresh

-- The idle process is at 100, its code at 4096.
abbrev pub idle_made : Kernel
idle_made = kernel_of (sched_init 100 4096 1052672 0 fresh)

-- Whether a result is 0, or a kernel that runs.
abbrev is_zero : Option (ℤ × Kernel) → Bool
is_zero (some (pos zero, k)) = true
is_zero _ = false

abbrev is_started : Option Started → Bool
is_started (some (started k)) = true
is_started _ = false

is_zero-eq : (o : Option (ℤ × Kernel)) → is_zero o ≡ true → o ≡ some (pos 0, kernel_of o)
is_zero-eq none h = absurd (ground (arith, h))
is_zero-eq (some (pos zero, k)) h = refl
is_zero-eq (some (pos (suc n), k)) h = absurd (ground (arith, h))
is_zero-eq (some (negsuc n, k)) h = absurd (ground (arith, h))

is_started-eq : (o : Option Started) → is_started o ≡ true → o ≡ some (started (started_kernel o))
is_started-eq none h = absurd (ground (arith, h))
is_started-eq (some (started k)) h = refl
is_started-eq (some (elf_failed e)) h = absurd (ground (arith, h))
is_started-eq (some (proc_failed e)) h = absurd (ground (arith, h))

idle_ran : is_zero (sched_init 100 4096 1052672 0 fresh) ≡ true
unfolding sched_init proc_init new_pid first_free init_fds sched_update_state page_alloc
idle_ran = refl

main_ran : is_started (kmain 1048576 600 1052672 0 0 image idle_made) ≡ true
unfolding sched_init kmain proc_init new_pid first_free init_fds sched_update_state page_alloc
    elf_load elf_hdr read_le load_progs vm_create_page_table next_table vm_map_page sched_start
    sched_resched timer_wait
main_ran = refl

-- The first process is at 600, and runs in `first`.
abbrev pub first : System
first = record {
  kernel = started_kernel (kmain 1048576 600 1052672 0 0 image idle_made);
  sems = sems;
}

pub idle_ok : sched_init 100 4096 1052672 0 fresh ≡ some (pos 0, idle_made)
idle_ok = is_zero-eq (sched_init 100 4096 1052672 0 fresh) idle_ran

pub main_ok : kmain 1048576 600 1052672 0 0 image idle_made ≡ some (started first.kernel)
main_ok = is_started-eq (kmain 1048576 600 1052672 0 0 image idle_made) main_ran

pub sems-IsFree : (i : ℕ) → IsFree (sems i)
sems-IsFree i = record { wait_queue = refl; val = refl }

first-Inv : Inv 100 first
first-Inv =
    boot-Inv 100 4096 1048576 600 1052672 0 0 image sems fresh idle_made first.kernel first
      fresh-IsFresh (ground arith) (ground arith) (ground arith) sems-IsFree idle_ok main_ok here

pub first_runs : (first.kernel.curr_proc == 100) ≡ false
unfolding sched_init kmain proc_init new_pid first_free init_fds sched_update_state page_alloc
    elf_load elf_hdr read_le load_progs vm_create_page_table next_table vm_map_page sched_start
    sched_resched timer_wait
first_runs = refl

-- The first process sleeps, and then the timer interrupts the idle process.
asleep : (k : Kernel) × (sys_sleep 5000 3 first.kernel ≡ some k) × Inv 100 (with_kernel first k)
asleep =
    let (k, ran, ok, _, _) =
      sys_sleep-Inv 100 first 5000 3 first-Inv (ground (arith, first_runs)) in
    (k, ran, ok)

ticked : (k : Kernel) × (timer_interrupt 90 asleep.0 ≡ some k)
ticked =
    (Reach-interrupt 100 (with_kernel first asleep.0) (with_kernel first asleep.0) asleep.2 here).0
      90

boot-Inv_example : Inv 100 (with_kernel first ticked.0)
boot-Inv_example =
    boot-Inv 100 4096 1048576 600 1052672 0 0 image sems fresh idle_made first.kernel
      (with_kernel first ticked.0) fresh-IsFresh (ground arith) (ground arith) (ground arith)
      sems-IsFree idle_ok main_ok
      (next (next here (sleeps 5000 3 (ground (arith, first_runs)) asleep.1)) (ticks 90 ticked.1))

Reach-interrupt_example :
    ((now : ℕ) → (k : Kernel) × (timer_interrupt now first.kernel ≡ some k))
    × ((k : Kernel) × (sys_yield first.kernel ≡ some k))
    × ((i : ℕ) → (r : Sem × Kernel) × (sem_signal (first.sems i) first.kernel ≡ some r))
Reach-interrupt_example = Reach-interrupt 100 first first first-Inv here

Reach-blocks_example :
    ((ns now : ℕ)
      → (k : Kernel) × (sys_sleep ns now first.kernel ≡ some k)
        × (k.curr_proc ≢ first.kernel.curr_proc)
        × ((k.procs first.kernel.curr_proc).state ≡ sleep))
    × ((i : ℕ) → (r : Sem × Kernel) × (sem_wait (first.sems i) first.kernel ≡ some r))
Reach-blocks_example = Reach-blocks 100 first first first-Inv here (ground (arith, first_runs))
