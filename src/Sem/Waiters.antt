-- ===== src/Sem/Waiters.antt =====
-- When a semaphore and the kernel fit together.
use karg.Base.{ℕ, ◌≡◌, refl, ◌≢◌, false, List, [], ◌∷◌, has, Distinct, length, arith}
use karg.Kernel.{Kernel, wait_sem, null}
use karg.Sched.Update.{woken}
use karg.Sem.{Sem, neg_part}

-- Every process of the sequence waits for a semaphore.
abbrev pub AllWaiting : Kernel → List ℕ → Type 0
AllWaiting k [] = Unit
AllWaiting k (p ∷ ps) =
    ((k.procs p).state ≡ wait_sem) × (p ≢ null) × (p ≢ k.curr_proc) × AllWaiting k ps

-- The value counts the waiters when it is negative, and otherwise there are none; the waiters are
-- distinct processes that wait.
pub record IsValid (sem : Sem) (k : Kernel) : Type 0 where
  pub counted : length sem.wait_queue ≡ neg_part sem.val
  pub distinct : Distinct sem.wait_queue
  pub waiting : AllWaiting k sem.wait_queue

pub AllWaiting-woken :
    (k : Kernel) (p : ℕ) (ps : List ℕ)
    → has p ps ≡ false
    → AllWaiting k ps
    → AllWaiting (woken p k) ps
AllWaiting-woken k p [] n w = tt
AllWaiting-woken k p (q ∷ ps) n w = ground (arith, AllWaiting-woken k p ps, w)

-- A process that runs is no waiter.
pub not-has_of_curr : (k : Kernel) (ps : List ℕ) → AllWaiting k ps → has k.curr_proc ps ≡ false
not-has_of_curr k [] w = refl
not-has_of_curr k (q ∷ ps) w = ground (arith, not-has_of_curr k ps w.3, w.2)
