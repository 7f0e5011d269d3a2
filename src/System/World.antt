-- ===== src/System/World.antt =====
-- Runs in which every process makes its system calls one after the other: the calls that concern the
-- tree of processes are made by a process that is in none, and a `sys_wait` that blocked goes on where
-- it was left. `in_wait` tells which processes are inside a `sys_wait`.
pub mod Runs
pub mod Booted
use karg.Base.{ℕ, ◌≡◌, ◌≢◌, ◌⊎◌, Bool, true, false}
use karg.Kernel.{put}
use karg.System.{
  System, Step, yields, ticks, sleeps, waits, signals, exits, spawns, waits_child, ends_wait,
}
use karg.System.Family.{IsFamily, IsWaited}
use karg.System.Family.Spawned.{IsFreeBlock}
use karg.System.Family.Waited.{is_blocked}
use karg.System.Inv.{Inv}

pub record World : Type 0 where
  pub system : System
  pub in_wait : ℕ → Bool

-- A process inside `sys_wait` makes no other call. The init process `first` does not exit, and
-- `kmalloc` gives memory that belongs to no process. Interrupts, and what they signal, come at any time.
abbrev pub IsAllowed : (idle first : ℕ) (in_wait : ℕ → Bool) (s t : System) → Step idle s t → Type 0
IsAllowed idle first in_wait s _ (yields h) = in_wait s.kernel.curr_proc ≡ false
IsAllowed idle first in_wait s _ (ticks now h) = Unit
IsAllowed idle first in_wait s _ (sleeps ns now n h) = in_wait s.kernel.curr_proc ≡ false
IsAllowed idle first in_wait s _ (waits i n h) = in_wait s.kernel.curr_proc ≡ false
IsAllowed idle first in_wait s _ (signals i h) = Unit
IsAllowed idle first in_wait s _ (exits status n h) =
    (in_wait s.kernel.curr_proc ≡ false) × (s.kernel.curr_proc ≢ first)
IsAllowed idle first in_wait s _ (spawns entry argv block trampoline sstatus u h) =
    (in_wait s.kernel.curr_proc ≡ false) × IsFreeBlock block s.kernel
IsAllowed idle first in_wait s _ (waits_child n h) = in_wait s.kernel.curr_proc ≡ false
IsAllowed idle first in_wait s _ (ends_wait h) = in_wait s.kernel.curr_proc ≡ true

-- Who is inside a `sys_wait` after a step.
abbrev pub after : (idle : ℕ) (in_wait : ℕ → Bool) (s t : System) → Step idle s t → ℕ → Bool
after idle in_wait s _ (waits_child {r} n h) = put in_wait s.kernel.curr_proc (is_blocked r.0)
after idle in_wait s _ (ends_wait h) = put in_wait s.kernel.curr_proc false
after idle in_wait s _ _ = in_wait

pub data Move (idle first : ℕ) (w : World) : World → Type 0 where
  moves :
      {t : System} (step : Step idle w.system t)
      → IsAllowed idle first w.in_wait w.system t step
      → Move idle first w (record { system = t; in_wait = after idle w.in_wait w.system t step })

pub data Run (idle first : ℕ) (w : World) : World → Type 0 where
  still : Run idle first w w
  goes : {u v : World} → Run idle first w u → Move idle first u v → Run idle first w v

-- What holds between any two steps: the scheduler's invariant, the tree of processes, and that every
-- process inside a `sys_wait` waits for a child or has been told of one of its zombies.
pub record IsSound (idle first : ℕ) (w : World) : Type 0 where
  pub scheduler : Inv idle w.system
  pub family : IsFamily idle first w.system.kernel
  pub waited : IsWaited w.in_wait w.system.kernel
