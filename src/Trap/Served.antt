-- ===== src/Trap/Served.antt =====
-- `trap_handler` with what it calls: the timer's interrupt, the UART's, and the system calls with their
-- arguments from the registers.
pub mod Effect
pub mod Frame
use karg.Base.{
  ℕ, ◌+◌, ◌-◌, ◌%◌, ◌^◌, Option, none, some, ◌>>=◌, List, [], ◌∷◌, ◌==◌, ltb, if◌then◌else◌, ◌⊎◌,
  inl, inr, ℤ, pos, negsuc,
}
use karg.Kernel.{Kernel, null}
use karg.Syscalls.{
  Waited, failed, reaped, blocked, Reboot, sys_yield, sys_sleep, sys_getpid, sys_exit, sys_wait,
  sys_proc, sys_read, sys_write, sys_reboot, timer_interrupt,
}
use karg.Trap
use karg.Trap.{Trapframe, Syscall, Trap, trap_handler, as_usize}
use karg.Tty.{Io, ReadState}
use karg.Uart.{Uarts, external_interrupt}

-- What the code reads that is not its own: the clock, the registers of devices and `sstatus`, the
-- addresses of the devices, of the UART's handler and of the trampoline, what `kmalloc` gives,
-- and the memory of the process, by physical address for what it writes and as strings for the
-- arguments of a new process. Terminals write to terminals at most `depth` deep.
pub record Env : Type 0 where
  pub now : ℕ
  pub depth : ℕ
  pub base_addr : ℕ
  pub uart_isr : ℕ
  pub register : ℕ → ℕ
  pub block : ℕ
  pub trampoline : ℕ
  pub sstatus : ℕ
  pub strings : ℕ → List (List ℕ)
  pub bytes : ℕ → ℕ → List ℕ

-- How a call ends: with a result, and the status stored at an address if it is a `wait` that was given
-- one; with the processor given to another process; inside a read; or in the firmware.
pub data Called : Type 0 where
  returns : (res : ℤ) (stored : Option (ℕ × ℕ)) → Uarts → Kernel → Called
  leaves : Uarts → Kernel → Called
  reads : ReadState → Called
  stops : Reboot → Called

-- The low 32 bits of a register, as an `int`.
abbrev as_i32 : ℕ → ℤ
as_i32 n = let low = n % 2 ^ 32 in if ltb low (2 ^ 31) then pos low else negsuc (2 ^ 32 - 1 - low)

wait_ends : (status : ℕ) → Uarts → Waited × Kernel → Called
wait_ends status u (failed e, k) = returns e none u k
wait_ends status u (reaped pid code, k) =
    returns pid (if status == null then none else some (status, code)) u k
wait_ends status u (blocked, k) = leaves u k

read_ends : Uarts → Kernel → ℤ ⊎ ReadState → Called
read_ends u k (inl e) = returns e none u k
read_ends u k (inr r) = reads r

reboot_ends : Uarts → Kernel → ℤ ⊎ Reboot → Called
reboot_ends u k (inl e) = returns e none u k
reboot_ends u k (inr r) = stops r

-- The functions of `SYSCALL_TABLE`, each with the registers that it reads.
unfoldable pub call : Env → Syscall → Trapframe → Uarts → Kernel → Option Called
unfolding wait_ends read_ends reboot_ends
call env Syscall.exit f u k = do k' ← sys_exit f.a0 k; some (leaves u k')
call env Syscall.read f u k = do r ← sys_read (as_i32 f.a0) f.a1 f.a2 u.io k; some (read_ends u k r)
call env Syscall.write f u k = do
  r ← sys_write env.depth env.bytes (as_i32 f.a0) f.a1 f.a2 u.io k
  some (returns r.0 none (record u { io = r.1 }) k)
call env Syscall.yield f u k = do k' ← sys_yield k; some (returns (pos 0) none u k')
call env Syscall.sleep f u k = do k' ← sys_sleep f.a0 env.now k; some (leaves u k')
call env Syscall.getpid f u k = some (returns (sys_getpid k) none u k)
call env Syscall.proc f u k = do
  let argv = if f.a1 == null then none else some (env.strings f.a1)
  r ← sys_proc f.a0 argv env.block env.trampoline env.sstatus k
  some (returns r.0 none u r.1)
call env Syscall.wait f u k = do r ← sys_wait k; some (wait_ends f.a0 u r)
call env Syscall.reboot f u k = some (reboot_ends u k (sys_reboot (f.a0 % 2 ^ 32)))

-- What follows a trap: the process goes on with these registers, or as a call has left it.
pub data Handled : Type 0 where
  goes_on : Trapframe → (stored : Option (ℕ × ℕ)) → Uarts → Kernel → Handled
  ends : Called → Handled

finish : Trapframe → Called → Handled
finish f (returns res stored u k) = goes_on (record f { a0 = as_usize res }) stored u k
finish f (leaves u k) = ends (leaves u k)
finish f (reads r) = ends (reads r)
finish f (stops r) = ends (stops r)

serve : Env → Trapframe → Trap → Uarts → Kernel → Option Handled
unfolding finish
serve env f Trap.timer u k = do k' ← timer_interrupt env.now k; some (goes_on f none u k')
serve env f Trap.external u k = do
  r ← external_interrupt env.depth env.base_addr env.uart_isr env.register u k
  some (goes_on f none r.0 r.1)
serve env f Trap.ignored u k = some (goes_on f none u k)
serve env f Trap.wild u k = none
serve env f (Trap.call s g) u k = do c ← call env s g u k; some (finish g c)
serve env f (Trap.resume g) u k = some (goes_on g none u k)

-- `trap_handler`, with the effects of what it calls.
unfoldable pub handle_trap : Env → Trapframe → Uarts → Kernel → Option Handled
unfolding serve
handle_trap env f u k = serve env f (trap_handler f) u k
