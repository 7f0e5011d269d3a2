-- ===== src/Tests/Traps.antt =====
-- Traps of the first process.
use karg.Base.{
  ℕ, ◌+◌, ◌%◌, ◌^◌, ◌≡◌, refl, Bool, true, false, Option, none, some, [], ◌==◌, if◌then◌else◌,
  arith, negate,
}
use karg.Elf.{elf_load, elf_hdr, read_le, load_progs}
use karg.Errno.{enosys}
use karg.Kernel.{init}
use karg.PageAlloc.{page_alloc}
use karg.Proc.{new_pid, first_free, init_fds}
use karg.Proc.Create.{proc_init}
use karg.Sched.{sched_update_state, sched_start, sched_resched}
use karg.Startup.{sched_init, kmain}
use karg.Tests.Run.{first}
use karg.Timer.{timer_wait}
use karg.Trap.{Trapframe, Syscall, Trap, trap_handler, as_usize}
use karg.Trap.Served.{Env, Handled, goes_on, handle_trap, call}
use karg.Trap.Served.Frame.{trap-frame, trap-unknown}
use karg.Trap.Served.Effect.{Effect}
use karg.Uart.{Uarts}
use karg.Vm.{vm_create_page_table, next_table, vm_map_page}

abbrev env : Env
env = record {
  now = 7;
  depth = 2;
  base_addr = 0x0C000000;
  uart_isr = 4096;
  register = λ a. 0;
  block = 700;
  trampoline = 1052672;
  sstatus = 0;
  strings = λ a. [];
  bytes = λ a n. [];
}

-- A system call with a number, at the instruction 4096.
abbrev frame : ℕ → Trapframe
frame number = record { sepc = 4096; scause = 8; a0 = 5000; a1 = 0; a2 = 0; a7 = number }

abbrev uarts : Uarts
uarts = record {
  ctrl_blks = [];
  isrs = [];
  plic_enable = λ a. 0;
  written = [];
  io = record { ttys = λ n. none; out = [] };
}

trap-frame_example : record (frame 9) { sepc = 4100; a0 = as_usize (negate enosys) } ≡ (
    if (frame 9).scause == 8
    then record (frame 9) { sepc = (4096 + 4) % 2 ^ 64; a0 = as_usize (negate enosys) }
    else frame 9)
trap-frame_example =
    trap-frame env (frame 9) (record (frame 9) { sepc = 4100; a0 = as_usize (negate enosys) }) uarts
      uarts first.kernel first.kernel none
      (trap-unknown env (frame 9) uarts first.kernel refl (omega arith))

-- The first process yields, by the call 3.
abbrev yielded : Option Handled
yielded = handle_trap env (frame 3) uarts first.kernel

abbrev yielded_result : Option Handled → Handled
yielded_result none = goes_on (frame 3) none uarts first.kernel
yielded_result (some h) = h

abbrev is_some : Option Handled → Bool
is_some none = false
is_some (some h) = true

unused : (first.kernel.procs 700).state ≡ init
unfolding sched_init kmain proc_init new_pid first_free init_fds sched_update_state page_alloc
    elf_load elf_hdr read_le load_progs vm_create_page_table next_table vm_map_page sched_start
    sched_resched timer_wait
unused = refl

asks : trap_handler (frame 3) ≡ Trap.call Syscall.yield (record (frame 3) { sepc = 4100 })
unfolding trap_handler
asks = refl
