-- ===== src/Tests/Tree.antt =====
-- The first process makes a child and waits for it, and the child exits.
use karg.Base.{
  ℕ, ◌≡◌, ◌≢◌, refl, Bool, true, false, Option, none, some, [], has, arith, inl, ℤ, pos, ◌==◌,
}
use karg.Elf.{elf_load, elf_hdr, read_le, load_progs}
use karg.Kernel.{Kernel, init, zombie, wait_child, put}
use karg.PageAlloc.{page_alloc}
use karg.Proc.{new_pid, first_free, init_fds, proc_adopt}
use karg.Proc.Create.{proc_init}
use karg.Sched.{sched_update_state, sched_start, sched_resched}
use karg.Startup.{sched_init, kmain}
use karg.Syscalls.{
  Waited, reaped, blocked, sys_exit, sys_wait, sys_wait_resume, sys_proc, adopt_all, notify_parent,
}
use karg.System.{with_kernel, spawns, waits_child, exits}
use karg.System.Family.Waited.{Answer, is_blocked}
use karg.System.World.{World, moves, Run, still, goes, IsSound}
use karg.System.World.Booted.{IsClean, boot-IsSound}
use karg.System.World.Runs.{Run-exits, Run-waits, Run-resumes}
use karg.Tests.Run.{
  fresh, fresh-IsFresh, idle_made, image, sems, sems-IsFree, first, idle_ok, main_ok,
}
use karg.Timer.{timer_wait}
use karg.Vm.{vm_create_page_table, next_table, vm_map_page}

fresh-IsClean : IsClean fresh
fresh-IsClean = record {
  children = λ p. refl;
  zombie_children = λ p. refl;
  table = λ n. refl;
  last_pid = refl;
}

abbrev booted : World
booted = record { system = first; in_wait = λ p. false }

booted-IsSound : IsSound 100 600 booted
booted-IsSound =
    boot-IsSound 100 4096 1048576 600 1052672 0 0 image sems fresh idle_made first.kernel booted
      fresh-IsFresh fresh-IsClean (ground arith) (ground arith) (ground arith) sems-IsFree idle_ok
      main_ok still

-- The child is at 700.
abbrev made : Option (ℤ × Kernel)
made = sys_proc 4096 (some []) 700 1052672 0 first.kernel

abbrev made_result : Option (ℤ × Kernel) → ℤ × Kernel
made_result none = (pos 0, fresh)
made_result (some r) = r

abbrev is_pid : Option (ℤ × Kernel) → Bool
is_pid (some (pos n, k)) = n == 2
is_pid _ = false

is_pid-eq : (o : Option (ℤ × Kernel)) → is_pid o ≡ true → o ≡ some (made_result o)
is_pid-eq none h = absurd (ground (arith, h))
is_pid-eq (some r) h = refl

made_ran : is_pid made ≡ true
unfolding sys_proc sched_init kmain proc_init new_pid first_free init_fds sched_update_state
    page_alloc elf_load elf_hdr read_le load_progs vm_create_page_table next_table vm_map_page
    sched_start sched_resched timer_wait
made_ran = refl

abbrev spawned : World
spawned = record { system = with_kernel first (made_result made).1; in_wait = λ p. false }

unused : (first.kernel.procs 700).state ≡ init
unfolding sched_init kmain proc_init new_pid first_free init_fds sched_update_state page_alloc
    elf_load elf_hdr read_le load_progs vm_create_page_table next_table vm_map_page sched_start
    sched_resched timer_wait
unused = refl

no_zombie : (q : ℕ) → has 700 (first.kernel.procs q).zombie_children ≡ false
no_zombie q = ground (arith, booted-IsSound.family.dead q 700, unused)

to_spawned : Run 100 600 booted spawned
to_spawned = goes still (
    moves (spawns 4096 (some []) 700 1052672 0 (inl unused) (is_pid-eq made made_ran))
      (refl, (inl unused, ground arith, no_zombie)))

-- The first process waits.
abbrev waited : Option (Waited × Kernel)
waited = sys_wait spawned.system.kernel

abbrev waited_result : Option (Waited × Kernel) → Waited × Kernel
waited_result none = (blocked, fresh)
waited_result (some r) = r

abbrev is_wait : Option (Waited × Kernel) → Bool
is_wait (some (blocked, k)) = true
is_wait _ = false

is_wait-eq : (o : Option (Waited × Kernel)) → is_wait o ≡ true → o ≡ some (waited_result o)
is_wait-eq none h = absurd (ground (arith, h))
is_wait-eq (some r) h = refl

waited_ran : is_wait waited ≡ true
unfolding sys_wait sys_proc sched_init kmain proc_init new_pid first_free init_fds
    sched_update_state page_alloc elf_load elf_hdr read_le load_progs vm_create_page_table
    next_table vm_map_page sched_start sched_resched timer_wait
waited_ran = refl

spawned_runs : (spawned.system.kernel.curr_proc == 600) ≡ true
unfolding sys_proc sched_init kmain proc_init new_pid first_free init_fds sched_update_state
    page_alloc elf_load elf_hdr read_le load_progs vm_create_page_table next_table vm_map_page
    sched_start sched_resched timer_wait
spawned_runs = refl

Run-waits_example :
    (r : Waited × Kernel) × (sys_wait spawned.system.kernel ≡ some r)
    × Answer spawned.system.kernel.curr_proc spawned.system.kernel r
Run-waits_example =
    Run-waits 100 600 booted spawned booted-IsSound to_spawned (ground (arith, spawned_runs)) refl

abbrev waiting : World
waiting = record {
  system = with_kernel spawned.system (waited_result waited).1;
  in_wait = put (λ p. false) spawned.system.kernel.curr_proc (is_blocked (waited_result waited).0);
}

to_waiting : Run 100 600 booted waiting
to_waiting =
    goes to_spawned
      (moves (waits_child (ground (arith, spawned_runs)) (is_wait-eq waited waited_ran)) refl)

-- The child runs, and exits with the status 3.
child_runs : (waiting.system.kernel.curr_proc == 700) ≡ true
unfolding sys_wait sys_proc sched_init kmain proc_init new_pid first_free init_fds
    sched_update_state page_alloc elf_load elf_hdr read_le load_progs vm_create_page_table
    next_table vm_map_page sched_start sched_resched timer_wait
child_runs = refl

child_free : waiting.in_wait waiting.system.kernel.curr_proc ≡ false
child_free = ground (arith, child_runs, spawned_runs)

Run-exits_example :
    let k = waiting.system.kernel in
    let p = k.curr_proc in
    (k' : Kernel) × (sys_exit 3 k ≡ some k')
    × ((k'.procs p).state ≡ zombie)
    × (has p (k'.procs (k.procs p).parent).zombie_children ≡ true)
    × ((k'.procs (k.procs p).parent).state ≢ wait_child)
    × IsSound 100 600 (record { system = with_kernel waiting.system k'; in_wait = waiting.in_wait })
Run-exits_example =
    Run-exits 100 600 booted waiting 3 booted-IsSound to_waiting (ground (arith, child_runs))
      (ground (arith, child_runs)) child_free

-- The first process goes on with the child's status.
abbrev exited : Option Kernel
exited = sys_exit 3 waiting.system.kernel

abbrev exited_kernel : Option Kernel → Kernel
exited_kernel none = fresh
exited_kernel (some k) = k

abbrev is_some : Option Kernel → Bool
is_some none = false
is_some (some k) = true

is_some-eq : (o : Option Kernel) → is_some o ≡ true → o ≡ some (exited_kernel o)
is_some-eq none h = absurd (ground (arith, h))
is_some-eq (some k) h = refl

exited_ran : is_some exited ≡ true
unfolding sys_exit adopt_all notify_parent proc_adopt sys_wait sys_proc sched_init kmain proc_init
    new_pid first_free init_fds sched_update_state page_alloc elf_load elf_hdr read_le load_progs
    vm_create_page_table next_table vm_map_page sched_start sched_resched timer_wait
exited_ran = refl

abbrev left : World
left = record {
  system = with_kernel waiting.system (exited_kernel exited);
  in_wait = waiting.in_wait;
}

to_left : Run 100 600 booted left
to_left = goes to_waiting (
    moves (exits 3 (ground (arith, child_runs)) (is_some-eq exited exited_ran))
      (child_free, ground (arith, child_runs)))

parent_runs : (left.system.kernel.curr_proc == 600) ≡ true
unfolding sys_exit adopt_all notify_parent proc_adopt sys_wait sys_proc sched_init kmain proc_init
    new_pid first_free init_fds sched_update_state page_alloc elf_load elf_hdr read_le load_progs
    vm_create_page_table next_table vm_map_page sched_start sched_resched timer_wait
parent_runs = refl

still_blocked : is_blocked (waited_result waited).0 ≡ true
unfolding sys_wait sys_proc sched_init kmain proc_init new_pid first_free init_fds
    sched_update_state page_alloc elf_load elf_hdr read_le load_progs vm_create_page_table
    next_table vm_map_page sched_start sched_resched timer_wait
still_blocked = refl

Run-resumes_example :
    let k = left.system.kernel in
    let p = k.curr_proc in
    (pid : ℤ) × (status : ℕ) × (k' : Kernel) × (sys_wait_resume k ≡ some (reaped pid status, k'))
    × Answer p k (reaped pid status, k')
Run-resumes_example =
    Run-resumes 100 600 booted left booted-IsSound to_left
      (ground (arith, parent_runs, spawned_runs, still_blocked))

boot-IsSound_example : IsSound 100 600 left
boot-IsSound_example =
    boot-IsSound 100 4096 1048576 600 1052672 0 0 image sems fresh idle_made first.kernel left
      fresh-IsFresh fresh-IsClean (ground arith) (ground arith) (ground arith) sems-IsFree idle_ok
      main_ok to_left
