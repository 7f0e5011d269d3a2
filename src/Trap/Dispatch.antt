-- ===== src/Trap/Dispatch.antt =====
-- System calls and firmware errors, in every case.
use karg.Base.{zero, suc, ◌≡◌, ◌↔◌, false, arith, ℤ, pos, negsuc, is_neg}
use karg.Trap.{sbi_map_err}

-- A firmware call reports no error to the kernel exactly when the firmware reported success, and every
-- error becomes a negative number.
pub sbi_map_err_lem : (err : ℤ) → (is_neg (sbi_map_err err) ≡ false) ↔ (err ≡ pos 0)
unfolding sbi_map_err
sbi_map_err_lem (pos zero) = ground arith
sbi_map_err_lem (pos (suc n)) = ground arith
sbi_map_err_lem (negsuc n) = ground arith
