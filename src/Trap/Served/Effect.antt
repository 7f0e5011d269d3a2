-- ===== src/Trap/Served/Effect.antt =====
-- What each trap does to the kernel, by the numbers that processes use.
use karg.Base.{ℕ, ◌+◌, ◌%◌, ◌^◌, ◌≤◌, ◌≡◌, ◌≢◌, Option, none, some, List, ◌==◌, if◌then◌else◌, ℤ}
use karg.Kernel.{Kernel, null}
use karg.Syscalls.{Waited, sys_yield, sys_sleep, sys_exit, sys_wait, sys_proc, timer_interrupt}
use karg.Trap.{Trapframe, Syscall, Trap}
use karg.Trap.Served.{Env, Called, returns, leaves, reads, stops, Handled, goes_on, ends}
use karg.System.{
  System, with_kernel, IsUnused, yields, ticks, sleeps, exits, spawns, waits_child, Reach, here,
  next,
}
use karg.Uart.{Uarts}

-- The kernel that a call, or a trap, leaves.
abbrev pub kernel_called : Kernel → Called → Kernel
kernel_called k (returns res stored u k') = k'
kernel_called k (leaves u k') = k'
kernel_called k (reads r) = r.kernel
kernel_called k (stops r) = k

abbrev pub kernel_after : Kernel → Handled → Kernel
kernel_after k (goes_on f stored u k') = k'
kernel_after k (ends c) = kernel_called k c

-- The arguments of a new process.
abbrev pub argv_of : Env → Trapframe → Option (List (List ℕ))
argv_of env f = if f.a1 == null then none else some (env.strings f.a1)

-- What a trap with these registers makes of the kernel. Interrupt 5 is the timer's, exception 8 a system call,
-- and `a7` its number; call 1, which reads, is not here.
pub data Effect (env : Env) (f : Trapframe) (k : Kernel) : Kernel → Type 0 where
  ticked :
      {k' : Kernel}
      → f.scause ≡ 2 ^ 63 + 5
      → timer_interrupt env.now k ≡ some k'
      → Effect env f k k'
  exited : {k' : Kernel} → f.scause ≡ 8 → f.a7 ≡ 0 → sys_exit f.a0 k ≡ some k' → Effect env f k k'
  wrote : f.scause ≡ 8 → f.a7 ≡ 2 → Effect env f k k
  yielded : {k' : Kernel} → f.scause ≡ 8 → f.a7 ≡ 3 → sys_yield k ≡ some k' → Effect env f k k'
  slept :
      {k' : Kernel}
      → f.scause ≡ 8
      → f.a7 ≡ 4
      → sys_sleep f.a0 env.now k ≡ some k'
      → Effect env f k k'
  asked_pid : f.scause ≡ 8 → f.a7 ≡ 5 → Effect env f k k
  spawned :
      {r : ℤ × Kernel}
      → f.scause ≡ 8
      → f.a7 ≡ 6
      → sys_proc f.a0 (argv_of env f) env.block env.trampoline env.sstatus k ≡ some r
      → Effect env f k r.1
  waited :
      {r : Waited × Kernel} → f.scause ≡ 8 → f.a7 ≡ 7 → sys_wait k ≡ some r → Effect env f k r.1
  rebooted : f.scause ≡ 8 → f.a7 ≡ 8 → Effect env f k k
  unknown : f.scause ≡ 8 → 9 ≤ f.a7 → Effect env f k k
  ignored : f.scause ≢ 8 → f.scause ≢ 2 ^ 63 + 5 → Effect env f k k

-- The calls by their numbers.
number : Syscall → ℕ
number Syscall.exit = 0
number Syscall.read = 1
number Syscall.write = 2
number Syscall.yield = 3
number Syscall.sleep = 4
number Syscall.getpid = 5
number Syscall.proc = 6
number Syscall.wait = 7
number Syscall.reboot = 8

-- The calls, made with the registers behind the call instruction.
module _ (env : Env) (f : Trapframe) (u : Uarts) (k : Kernel) (e : f.scause ≡ 8) where
  abbrev frame : Trapframe
  frame = record f { sepc = (f.sepc + 4) % 2 ^ 64 }

-- Each of these is a step of the system, or none.
pub Effect-Reach :
    (idle : ℕ) (s : System) (env : Env) (f : Trapframe) (k' : Kernel)
    → s.kernel.curr_proc ≢ idle
    → IsUnused env.block s.kernel
    → Effect env f s.kernel k'
    → Reach idle s (with_kernel s k')
Effect-Reach idle s env f k' n free (ticked e ran) = next here (ticks env.now ran)
Effect-Reach idle s env f k' n free (exited e a ran) = next here (exits f.a0 n ran)
Effect-Reach idle s env f k' n free (wrote e a) = here
Effect-Reach idle s env f k' n free (yielded e a ran) = next here (yields ran)
Effect-Reach idle s env f k' n free (slept e a ran) = next here (sleeps f.a0 env.now n ran)
Effect-Reach idle s env f k' n free (asked_pid e a) = here
Effect-Reach idle s env f k' n free (spawned e a ran) =
    next here (spawns f.a0 (argv_of env f) env.block env.trampoline env.sstatus free ran)
Effect-Reach idle s env f k' n free (waited e a ran) = next here (waits_child n ran)
Effect-Reach idle s env f k' n free (rebooted e a) = here
Effect-Reach idle s env f k' n free (unknown e a) = here
Effect-Reach idle s env f k' n free (ignored e a) = here
