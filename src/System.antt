-- ===== src/System.antt =====
-- The kernel and its semaphores under any sequence of system calls, time slices, timer interrupts and
-- signals. A step is a call of the model's function for it that is defined; which step comes next, and
-- with what arguments, is the environment's choice.
pub mod Inv
pub mod Blocking
pub mod Waking
pub mod Ticking
pub mod Same
pub mod Exits
pub mod Children
pub mod Safety
pub mod Booting
pub mod Boot
pub mod Progress
pub mod Spawn
pub mod Family
pub mod World
use karg.Base.{ℕ, ℤ, List, ◌⊎◌, ◌≡◌, ◌≢◌, Option, some, ◌==◌, if◌then◌else◌, ◌>>=◌}
use karg.Kernel.{Kernel, put, init, zombie}
use karg.Sem.{Sem, sem_wait, sem_signal}
use karg.Syscalls.{
  Waited, sys_yield, sys_sleep, sys_exit, sys_wait, sys_wait_resume, sys_proc, timer_interrupt,
}

pub record System : Type 0 where
  pub kernel : Kernel
  pub sems : ℕ → Sem

abbrev pub with_kernel : System → Kernel → System
with_kernel s k = record s { kernel = k }

abbrev pub with_sem : System → ℕ → Sem × Kernel → System
with_sem s i (sem, k) = record { kernel = k; sems = put s.sems i sem }

-- What `kmalloc` gives for a new process is the memory of no process, or that of one that is over; the
-- state of an address that holds no process is INIT in the model.
abbrev pub IsUnused : ℕ → Kernel → Type 0
IsUnused block k = ((k.procs block).state ≡ init) ⊎ ((k.procs block).state ≡ zombie)

-- The idle process `idle` only spins: it makes no call in which it would wait or exit. Everything else
-- may happen to whichever process is current.
pub data Step (idle : ℕ) (s : System) : System → Type 0 where
  yields : {k : Kernel} → sys_yield s.kernel ≡ some k → Step idle s (with_kernel s k)
  ticks :
      {k : Kernel} (now : ℕ) → timer_interrupt now s.kernel ≡ some k → Step idle s (with_kernel s k)
  sleeps :
      {k : Kernel} (ns now : ℕ)
      → s.kernel.curr_proc ≢ idle
      → sys_sleep ns now s.kernel ≡ some k
      → Step idle s (with_kernel s k)
  waits :
      {r : Sem × Kernel} (i : ℕ)
      → s.kernel.curr_proc ≢ idle
      → sem_wait (s.sems i) s.kernel ≡ some r
      → Step idle s (with_sem s i r)
  signals :
      {r : Sem × Kernel} (i : ℕ)
      → sem_signal (s.sems i) s.kernel ≡ some r
      → Step idle s (with_sem s i r)
  exits :
      {k : Kernel} (status : ℕ)
      → s.kernel.curr_proc ≢ idle
      → sys_exit status s.kernel ≡ some k
      → Step idle s (with_kernel s k)
  spawns :
      {r : ℤ × Kernel} (entry : ℕ) (argv : Option (List (List ℕ))) (block trampoline sstatus : ℕ)
      → IsUnused block s.kernel
      → sys_proc entry argv block trampoline sstatus s.kernel ≡ some r
      → Step idle s (with_kernel s r.1)
  waits_child :
      {r : Waited × Kernel}
      → s.kernel.curr_proc ≢ idle
      → sys_wait s.kernel ≡ some r
      → Step idle s (with_kernel s r.1)
  ends_wait :
      {r : Waited × Kernel} → sys_wait_resume s.kernel ≡ some r → Step idle s (with_kernel s r.1)

-- The states that a run from `s` comes to.
pub data Reach (idle : ℕ) (s : System) : System → Type 0 where
  here : Reach idle s s
  next : {t u : System} → Reach idle s t → Step idle t u → Reach idle s u
