-- ===== src/Sem/Wait.antt =====
-- `sem_wait` by the running process.
use karg.Base.{
  ℕ, zero, suc, ◌+◌, ◌≡◌, refl, inl, true, some, List, [], ◌∷◌, ◌++◌, Distinct-snoc, length-append,
  arith, ℤ, pos, negsuc, is_neg, pred,
}
use karg.Kernel.{Kernel, ready, wait_sem, set_state}
use karg.Sched.Resched
use karg.Sched.Resched.{IsRunning, switched_to}
use karg.Sched.Update.{block}
use karg.Sem.{Sem, neg_part, sem_wait}
use karg.Sem.Waiters.{IsValid, AllWaiting, not-has_of_curr}

pub sem_wait-pos :
    (sem : Sem) (k : Kernel) (n : ℕ)
    → sem.val ≡ pos (suc n)
    → sem_wait sem k ≡ some (record sem { val = pos n }, k)
unfolding sem_wait
sem_wait-pos sem k n e = ground (arith, e)

-- With a positive value the wait only counts it down: nobody blocks and the kernel is as it was.
pub sem_wait-passes :
    (sem : Sem) (k : Kernel) (n : ℕ)
    → IsValid sem k
    → sem.val ≡ pos (suc n)
    → (sem_wait sem k ≡ some (record sem { val = pos n }, k))
      × IsValid (record sem { val = pos n }) k
sem_wait-passes sem k n v e = (sem_wait-pos sem k n e, ground (arith, v, e))

-- The waiters wait on when the running process joins them and `p` is switched to.
AllWaiting-blocked :
    (k : Kernel) (p : ℕ) (ps ws : List ℕ)
    → IsRunning k
    → (k.procs p).state ≡ ready
    → AllWaiting k ws
    → AllWaiting (switched_to p ps (set_state k k.curr_proc wait_sem)) (ws ++ k.curr_proc ∷ [])
AllWaiting-blocked k p ps [] r s w = ground (arith, r.exists, r.is_curr, s)
AllWaiting-blocked k p ps (q ∷ ws) r s w =
    ground (arith, AllWaiting-blocked k p ps ws r s w.3, w.0, w.1, w.2, s)

neg_part-pred : (z : ℤ) → is_neg (pred z) ≡ true → neg_part (pred z) ≡ neg_part z + 1
neg_part-pred (pos zero) h = refl
neg_part-pred (pos (suc n)) h = cc
neg_part-pred (negsuc n) h = ground arith

-- With a value that is not positive, a valid semaphore and a valid ready queue that is not empty, the
-- running process goes to the end of the wait queue and waits, and the front of the ready queue, `p`,
-- gets the processor. Semaphore and ready queue stay valid, and a process runs.
pub sem_wait-blocks :
    (sem : Sem) (k : Kernel) (p : ℕ) (ps : List ℕ)
    → IsValid sem k
    → Resched.IsValid k
    → IsRunning k
    → is_neg (pred sem.val) ≡ true
    → k.ready_queue ≡ p ∷ ps
    → let k' = switched_to p ps (set_state k k.curr_proc wait_sem) in
      let sem' : Sem = record {
        wait_queue = sem.wait_queue ++ k.curr_proc ∷ [];
        val = pred sem.val;
      } in
      (sem_wait sem k ≡ some (sem', k')) × IsValid sem' k' × Resched.IsValid k' × IsRunning k'
unfolding sem_wait
sem_wait-blocks sem k p ps v q r n e =
    let (b, q', r') = block k wait_sem p ps q r (inl refl) e in
    (
      rw (n, b),
      record {
        counted = omega (
          arith,
          v.counted,
          neg_part-pred sem.val n,
          length-append sem.wait_queue (k.curr_proc ∷ []),
        );
        distinct =
            Distinct-snoc k.curr_proc sem.wait_queue v.distinct
              (not-has_of_curr k sem.wait_queue v.waiting);
        waiting =
            AllWaiting-blocked k p ps sem.wait_queue r (Resched.ready_of_front k p ps q e)
              v.waiting;
      },
      q',
      r',
    )
