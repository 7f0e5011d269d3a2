-- ===== src/Sem/Signal.antt =====
-- `sem_signal` and the loops over it: waiters are made ready in the order in which they came.
use karg.Base.{
  ℕ, zero, suc, ◌+◌, ◌^◌, ◌≡◌, refl, false, some, List, [], ◌∷◌, ◌++◌, arith, ℤ, pos, negsuc,
  is_neg, succ, ◌<◌, take, drop, sym, take-nil, drop-nil,
}
use karg.Kernel.{Kernel, wait_sem}
use karg.Sched.Resched
use karg.Sched.Update.{woken, wake, woken-IsValid}
use karg.Sem.{Sem, tail, neg_part, wake_first, sem_signal, sem_signaln, deinit_loop, sem_deinit}
use karg.Sem.Waiters.{IsValid, AllWaiting-woken}

-- The kernel after all of `ps` have been woken, the first of them first.
abbrev pub all_woken : List ℕ → Kernel → Kernel
all_woken [] k = k
all_woken (p ∷ ps) k = all_woken ps (woken p k)

-- The first of a sequence, if there is one.
abbrev pub first_of : List ℕ → List ℕ
first_of [] = []
first_of (p ∷ ps) = p ∷ []

wake_first-woken :
    (sem : Sem) (p : ℕ) (ps : List ℕ) (k : Kernel)
    → Resched.IsValid k
    → (k.procs p).state ≡ wait_sem
    → sem.wait_queue ≡ p ∷ ps
    → wake_first sem k ≡ some (record sem { wait_queue = ps }, woken p k)
unfolding wake_first
wake_first-woken sem p ps k v s e = ground (arith, wake k p v, s, e)

-- What `succ` does to the number of waiters that the value stands for.
neg_part-succ : (n : ℕ) → neg_part (succ (negsuc n)) ≡ n
neg_part-succ zero = refl
neg_part-succ (suc n) = refl

-- A semaphore with waiters, and what is left when the first of them has been woken.
module _ (p : ℕ) (ps : List ℕ) (n : ℕ) (k : Kernel)
    (v : IsValid (record { wait_queue = p ∷ ps; val = negsuc n }) k) (r : Resched.IsValid k) where
  wake_first-signalled :
      wake_first (record { wait_queue = p ∷ ps; val = succ (negsuc n) }) k
      ≡ some (record { wait_queue = ps; val = succ (negsuc n) }, woken p k)
  wake_first-signalled = wake_first-woken _ p ps k r v.waiting.0 refl

  signalled-IsValid : IsValid (record { wait_queue = ps; val = succ (negsuc n) }) (woken p k)
  signalled-IsValid = record {
    counted = omega (arith, neg_part-succ n, v.counted);
    distinct = v.distinct.1;
    waiting = AllWaiting-woken k p ps v.distinct.0 v.waiting.3;
  }

  signalled-Resched : Resched.IsValid (woken p k)
  signalled-Resched =
      (woken-IsValid k p r v.waiting.1 v.waiting.2 (λ e. ground (arith, v.waiting.0, e))).0

abbrev Signalled : Sem → Kernel → Type 0
Signalled sem k =
    let k' = all_woken (first_of sem.wait_queue) k in
    let sem' : Sem = record { wait_queue = tail sem.wait_queue; val = succ sem.val } in
    (sem_signal sem k ≡ some (sem', k')) × IsValid sem' k' × Resched.IsValid k'

signal_at :
    (ws : List ℕ) (val : ℤ) (k : Kernel)
    → IsValid (record { wait_queue = ws; val = val }) k
    → Resched.IsValid k
    → Signalled (record { wait_queue = ws; val = val }) k
unfolding sem_signal
signal_at [] (pos n) k v r = (refl, record { counted = refl; distinct = tt; waiting = tt }, r)
signal_at [] (negsuc n) k v r = absurd (omega (arith, v.counted))
signal_at (p ∷ ps) (pos n) k v r = absurd (omega (arith, v.counted))
signal_at (p ∷ ps) (negsuc n) k v r = (
  wake_first-signalled p ps n k v r,
  signalled-IsValid p ps n k v r,
  signalled-Resched p ps n k v r,
)

-- A signal to a semaphore with waiters makes the one that came first READY, at the front of the
-- ready queue, and takes it off the wait queue; without waiters it wakes nobody. Either way the
-- value goes up by one, and semaphore and ready queue stay right.
pub sem_signal-IsValid :
    (sem : Sem) (k : Kernel)
    → IsValid sem k
    → Resched.IsValid k
    → let k' = all_woken (first_of sem.wait_queue) k in
      let sem' : Sem = record { wait_queue = tail sem.wait_queue; val = succ sem.val } in
      (sem_signal sem k ≡ some (sem', k')) × IsValid sem' k' × Resched.IsValid k'
sem_signal-IsValid sem k v r = signal_at sem.wait_queue sem.val k v r

all_woken-append :
    (ps qs : List ℕ) (k : Kernel) → all_woken (ps ++ qs) k ≡ all_woken qs (all_woken ps k)
all_woken-append [] qs k = refl
all_woken-append (p ∷ ps) qs k = all_woken-append ps qs (woken p k)

abbrev pub add : ℕ → ℤ → ℤ
add zero z = z
add (suc n) z = add n (succ z)

take-suc : (n : ℕ) (ws : List ℕ) → take (suc n) ws ≡ first_of ws ++ take n (tail ws)
take-suc n [] = rw (take-nil n)
take-suc n (x ∷ ws) = refl

drop-suc : (n : ℕ) (ws : List ℕ) → drop (suc n) ws ≡ drop n (tail ws)
drop-suc n [] = sym (drop-nil n)
drop-suc n (x ∷ ws) = refl

signals :
    (n : ℕ) (sem : Sem) (k : Kernel)
    → IsValid sem k
    → Resched.IsValid k
    → let k' = all_woken (take n sem.wait_queue) k in
      let sem' : Sem = record { wait_queue = drop n sem.wait_queue; val = add n sem.val } in
      (sem_signaln n sem k ≡ some (sem', k')) × IsValid sem' k' × Resched.IsValid k'
unfolding sem_signaln
signals zero sem k v r = (refl, v, r)
signals (suc n) sem k v r =
    let (e, v', r') = sem_signal-IsValid sem k v r in
    let rest =
      signals n (record { wait_queue = tail sem.wait_queue; val = succ sem.val })
        (all_woken (first_of sem.wait_queue) k) v' r' in
    rw (e, take-suc n sem.wait_queue, drop-suc n sem.wait_queue, all_woken-append) rest

-- The numbers of an `i32`.
abbrev pub IsI32 : ℤ → Type 0
IsI32 (pos n) = n < 2 ^ 31
IsI32 (negsuc n) = n < 2 ^ 31

-- `n` signals, of which the value does not overflow, wake the first `n` waiters, or all if there are
-- fewer, the one that came first first, leave the other waiters waiting in their order, and count the
-- value up by `n`.
pub sem_signaln-IsValid :
    (n : ℕ) (sem : Sem) (k : Kernel)
    → n < 2 ^ 32
    → IsI32 sem.val
    → IsI32 (add n sem.val)
    → IsValid sem k
    → Resched.IsValid k
    → let k' = all_woken (take n sem.wait_queue) k in
      let sem' : Sem = record { wait_queue = drop n sem.wait_queue; val = add n sem.val } in
      (sem_signaln n sem k ≡ some (sem', k')) × IsValid sem' k' × Resched.IsValid k'
sem_signaln-IsValid n sem k _ _ _ v r = signals n sem k v r

-- `deinit_loop` with enough fuel wakes every waiter.
deinit_at :
    (fuel : ℕ) (ws : List ℕ) (val : ℤ) (k : Kernel)
    → neg_part val < fuel
    → IsValid (record { wait_queue = ws; val = val }) k
    → Resched.IsValid k
    → (z : ℤ) × (deinit_loop fuel (record { wait_queue = ws; val = val }) k
        ≡ some (record { wait_queue = []; val = z }, all_woken ws k))
      × (is_neg z ≡ false)
      × Resched.IsValid (all_woken ws k)
unfolding deinit_loop
deinit_at zero ws val k f v r = absurd (omega arith)
deinit_at (suc fuel) [] (pos n) k f v r = (pos (n + 1), refl, refl, r)
deinit_at (suc fuel) [] (negsuc n) k f v r = absurd (omega (arith, v.counted))
deinit_at (suc fuel) (p ∷ ps) (pos n) k f v r = absurd (omega (arith, v.counted))
deinit_at (suc fuel) (p ∷ ps) (negsuc n) k f v r =
    let rest =
      deinit_at fuel ps (succ (negsuc n)) (woken p k) (omega (arith, neg_part-succ n))
        (signalled-IsValid p ps n k v r) (signalled-Resched p ps n k v r) in
    (rest.0, rw (wake_first-signalled p ps n k v r) rest.1, rest.2, rest.3)

-- `sem_deinit` ends, wakes every waiter in the order in which they came, and leaves a semaphore
-- with no waiter and a value that is not negative.
pub sem_deinit-wakes_all :
    (sem : Sem) (k : Kernel)
    → IsValid sem k
    → Resched.IsValid k
    → (z : ℤ) × (sem_deinit sem k
        ≡ some (record { wait_queue = []; val = z }, all_woken sem.wait_queue k))
      × (is_neg z ≡ false)
      × Resched.IsValid (all_woken sem.wait_queue k)
unfolding sem_deinit
sem_deinit-wakes_all sem k v r =
    deinit_at (neg_part sem.val + 1) sem.wait_queue sem.val k (omega arith) v r
