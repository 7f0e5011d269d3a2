-- ===== src/Machine.antt =====
-- include/arch/riscv/sbi.h, src/arch/riscv/pm.c, src/arch/riscv/timer.c, src/pm.c and the `init` of
-- src/arch/riscv/trap.c: what the kernel asks of the firmware, and how it ends. The firmware is an
-- argument `ecall`: its answer to the numbers of a call and the arguments, or `none` where it does not
-- return. The processor's registers are a record.
pub mod Firmware
use karg.Base.{
  ℕ, ◌^◌, ◌-◌, Option, none, some, ◌>>=◌, List, [], ◌∷◌, if◌then◌else◌, ℤ, pos, negsuc, suc, zero,
  is_neg, or_bit,
}
use karg.Errno.{errno_name}
use karg.Syscalls.{Reboot}
use karg.Timer.{time_max}
use karg.Trap.{sbi_map_err}
use Prim.Native.String.{String}

-- `sbi_res_t`
pub record SbiRes : Type 0 where
  pub err : ℤ
  pub val : ℤ

abbrev pub Ecall : Type 0
Ecall = (eid fid : ℕ) → List ℕ → Option SbiRes

abbrev pub sbi_eid_time : ℕ
sbi_eid_time = 0x54494D45

abbrev pub sbi_eid_srst : ℕ
sbi_eid_srst = 0x53525354

abbrev pub sbi_set_timer : Ecall → ℕ → Option ℤ
sbi_set_timer ecall time = do res ← ecall sbi_eid_time 0 (time ∷ []); some (sbi_map_err res.err)

-- `sbi_reboot_type_t`
pub data RebootType : Type 0 where
  shutdown reboot : RebootType

abbrev pub type_number : RebootType → ℕ
type_number shutdown = 0
type_number reboot = 1

-- The one reason is `SBI_REBOOT_REASON_NONE`, 0.
abbrev pub sbi_reboot : Ecall → RebootType → Option ℤ
sbi_reboot ecall type = do
  res ← ecall sbi_eid_srst 0 (type_number type ∷ 0 ∷ [])
  some (sbi_map_err res.err)

-- How the kernel ends: in the firmware, in `pm_hang`, or there after a panic with a message that names
-- an error, if the number has a name.
pub data End : Type 0 where
  gone hung : End
  panicked : (doing : String) → Option String → End

-- `-res`, where no number below 1 has a name.
abbrev pub errno_of : ℤ → ℕ
errno_of (pos n) = 0
errno_of (negsuc n) = suc n

-- What follows a firmware call that should not return.
abbrev ends : String → Option ℤ → End
ends doing none = gone
ends doing (some res) = panicked doing (errno_name (errno_of res))

pub pm_reboot : Ecall → End
pm_reboot ecall = ends "rebooting system" (sbi_reboot ecall reboot)

pub pm_shutdown : Ecall → End
pm_shutdown ecall = ends "shutting down system" (sbi_reboot ecall shutdown)

-- The loop that waits for interrupts.
abbrev pub pm_hang : End
pm_hang = hung

-- The calls that `sys_reboot` makes.
abbrev pub power : Ecall → Reboot → End
power ecall Reboot.reboot = pm_reboot ecall
power ecall Reboot.shutdown = pm_shutdown ecall
power ecall Reboot.hang = pm_hang

-- `none` when the firmware has set the timer.
pub timer_set : Ecall → ℕ → Option End
timer_set ecall wait_time = elim (sbi_set_timer ecall wait_time) [
  | none ↦ some gone
  | some res ↦
      if is_neg res then some (panicked "setting timer" (errno_name (errno_of res))) else none
]

-- The control registers that the initialisers write.
pub record Csrs : Type 0 where
  pub sie : ℕ
  pub stvec : ℕ

-- `init` of timer.c; bit 5 of `sie` is `STIE`.
pub timer_module_init : Ecall → Csrs → Option (ℤ × Csrs)
timer_module_init ecall csrs = do
  res ← sbi_set_timer ecall time_max
  some (res, record csrs { sie = or_bit csrs.sie 5 })

-- `init` of trap.c
pub trap_module_init : (trampoline : ℕ) → Csrs → ℤ × Csrs
trap_module_init trampoline csrs = (pos 0, record csrs { stvec = trampoline })
