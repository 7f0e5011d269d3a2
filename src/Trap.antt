-- ===== src/Trap.antt =====
-- src/arch/riscv/trap.c, src/syscalls/syscall.c and src/arch/riscv/sbi.c: what a trap asks for, and
-- the errors of the firmware.
pub mod Dispatch
pub mod Served
use karg.Base.{
  ℕ, zero, suc, ◌+◌, ◌-◌, ◌%◌, ◌^◌, Bool, true, false, Option, none, some, List, [], ◌∷◌, ◌==◌, leb,
  if◌then◌else◌, get_elem?, length, ℤ, pos, negsuc, negate,
}
use karg.Errno.{eperm, enotsup, einval, efault, enosys}

-- The registers of `trapframe_t` that the handler uses.
pub record Trapframe : Type 0 where
  pub sepc : ℕ
  pub scause : ℕ
  pub a0 : ℕ
  pub a1 : ℕ
  pub a2 : ℕ
  pub a7 : ℕ

-- A result in a register: an `isize` becomes a `usize`.
abbrev pub as_usize : ℤ → ℕ
as_usize (pos n) = n % 2 ^ 64
as_usize (negsuc n) = (2 ^ 64 - 1 - n) % 2 ^ 64

pub data Syscall : Type 0 where
  exit read write yield sleep getpid proc wait reboot : Syscall

abbrev pub syscall_table : List Syscall
syscall_table = exit ∷ read ∷ write ∷ yield ∷ sleep ∷ getpid ∷ proc ∷ wait ∷ reboot ∷ []

-- What `trap_handler` does: it calls `timer_isr`, serves an external interrupt, makes a system call
-- whose result goes to `a0`, returns to the process at once, or ignores the trap; `wild` is a call through a
-- pointer read behind the end of the table, which is undefined.
pub data Trap : Type 0 where
  timer external ignored wild : Trap
  call : Syscall → Trapframe → Trap
  resume : Trapframe → Trap

abbrev call_entry : Option Syscall → Trapframe → Trap
call_entry none frame = wild
call_entry (some s) frame = call s frame

-- Bit 63 of `scause` marks an interrupt.
unfoldable pub trap_handler : Trapframe → Trap
trap_handler frame =
    let interrupt = frame.scause - 2 ^ 63 in
    let frame' = record frame { sepc = (frame.sepc + 4) % 2 ^ 64 } in
    if leb (2 ^ 63) frame.scause
    then (if interrupt == 5 then timer else if interrupt == 9 then external else ignored)
    else if frame.scause == 8
    then (if leb (length syscall_table) frame.a7
        then resume (record frame' { a0 = as_usize (negate enosys) })
        else call_entry (get_elem? syscall_table frame.a7) frame')
    else ignored

unfoldable pub sbi_map_err : ℤ → ℤ
sbi_map_err (pos zero) = pos 0
sbi_map_err (negsuc n) =
    if n == 0
    then negate eperm
    else if n == 1
    then negate enotsup
    else if n == 2
    then negate einval
    else if n == 3
    then negate eperm
    else if n == 4
    then negate efault
    else if n == 5
    then negate eperm
    else if n == 6
    then negate eperm
    else if n == 7
    then negate eperm
    else negate enotsup
sbi_map_err (pos (suc n)) = negate enotsup
