-- ===== src/Machine/Firmware.antt =====
-- The firmware calls, with every answer that the firmware can give.
use karg.Base.{
  ℕ, ◌≡◌, refl, Option, none, some, [], ◌∷◌, ℤ, pos, negsuc, zero, suc, is_neg, arith, ◌==◌,
  if◌then◌else◌,
}
use karg.Errno.{errno_name}
use karg.Machine.{
  Ecall, End, SbiRes, panicked, pm_reboot, pm_shutdown, timer_set, errno_of, sbi_eid_time,
  sbi_eid_srst,
}
use karg.Trap.{sbi_map_err}
use Prim.Native.String.{String}

-- The name of each error of the SBI specification: -1 failed, -2 not supported, -3 invalid parameter,
-- -4 denied, -5 invalid address, -6 already available, -7 already started, -8 already stopped. The numbers
-- that are none of these are not supported.
abbrev pub error_name : ℤ → Option String
error_name (pos zero) = none
error_name (pos (suc n)) = some "ENOTSUP"
error_name (negsuc n) =
    if n == 0
    then some "EPERM"
    else if n == 1
    then some "ENOTSUP"
    else if n == 2
    then some "EINVAL"
    else if n == 3
    then some "EPERM"
    else if n == 4
    then some "EFAULT"
    else if n == 5
    then some "EPERM"
    else if n == 6
    then some "EPERM"
    else if n == 7
    then some "EPERM"
    else some "ENOTSUP"

named : (err : ℤ) → errno_name (errno_of (sbi_map_err err)) ≡ error_name err
unfolding sbi_map_err errno_name
named (pos zero) = refl
named (pos (suc n)) = refl
named (negsuc n) = ground arith

-- How setting the timer ends, by the firmware's answer.
abbrev pub timer_end : ℤ → Option End
timer_end (pos zero) = none
timer_end err = some (panicked "setting timer" (error_name err))

set_end :
    (err : ℤ)
    → (if is_neg (sbi_map_err err)
        then some (panicked "setting timer" (errno_name (errno_of (sbi_map_err err))))
        else none)
      ≡ timer_end err
unfolding sbi_map_err errno_name
set_end (pos zero) = refl
set_end (pos (suc n)) = refl
set_end (negsuc n) = ground arith

-- When the firmware returns from a call: setting the timer succeeds exactly when the firmware reports
-- success, and with every other answer the kernel panics with the name that the errors of the SBI
-- specification have in the kernel; rebooting and shutting down panic with every answer, with that name,
-- or with none when the firmware reports success.
pub firmware_lem :
    (ecall : Ecall) (time : ℕ) (set restart off : SbiRes)
    → ecall sbi_eid_time 0 (time ∷ []) ≡ some set
    → ecall sbi_eid_srst 0 (1 ∷ 0 ∷ []) ≡ some restart
    → ecall sbi_eid_srst 0 (0 ∷ 0 ∷ []) ≡ some off
    → (timer_set ecall time ≡ timer_end set.err)
      × (pm_reboot ecall ≡ panicked "rebooting system" (error_name restart.err))
      × (pm_shutdown ecall ≡ panicked "shutting down system" (error_name off.err))
unfolding timer_set pm_reboot pm_shutdown
firmware_lem ecall time set restart off h g f = (
  ground (arith, h, set_end set.err),
  ground (arith, g, named restart.err),
  ground (arith, f, named off.err),
)
