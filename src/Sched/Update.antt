-- ===== src/Sched/Update.antt =====
-- `sched_update_state`: a process is woken, blocks, or exits.
use karg.Base.{ℕ, ◌≡◌, refl, ◌≢◌, ◌⊎◌, inl, inr, false, some, List, ◌∷◌, has, arith}
use karg.Timer.{Timers, timer_cancel}
use karg.Kernel.{
  Kernel, ProcState, ready, wait_sem, wait_child, sleep, zombie, null, set_state, proc_timer,
}
use karg.Sched.{sched_update_state}
use karg.Sched.Resched.{
  IsValid, IsRunning, IsGivenUp, same_state-eq, sched_resched-front, switched_to,
  switched_to-IsValid,
}

-- The timers after `p` left its state: a sleeper's timer is cancelled.
abbrev pub timers_after : ProcState → ℕ → Timers → Timers
timers_after sleep p t = timer_cancel (proc_timer p) t
timers_after _ p t = t

-- The kernel after `p` has been woken.
abbrev pub woken : ℕ → Kernel → Kernel
woken p k = record (set_state k p ready) {
  ready_queue = p ∷ k.ready_queue;
  timers = timers_after (k.procs p).state p k.timers;
}

-- With a valid ready queue, to make a process READY that is not READY puts it at the FRONT of the
-- ready queue, cancels its timer if it slept, and does nothing else.
pub wake :
    (k : Kernel) (p : ℕ)
    → IsValid k
    → (k.procs p).state ≢ ready
    → sched_update_state p ready k ≡ some (woken p k)
unfolding sched_update_state
wake k p v n = wake_from (k.procs p).state refl
  where
    out : has p k.ready_queue ≡ false
    out = ground (arith, v.queued p, same_state-eq (k.procs p).state ready)

    wake_from :
        (s : ProcState) → (k.procs p).state ≡ s → sched_update_state p ready k ≡ some (woken p k)
    wake_from ready e = absurd (n e)
    wake_from _ e = ground (arith, e, out)

-- That keeps the queue right, and the running process running.
pub woken-IsValid :
    (k : Kernel) (p : ℕ)
    → IsValid k
    → p ≢ null
    → p ≢ k.curr_proc
    → (k.procs p).state ≢ ready
    → IsValid (woken p k) × (IsRunning k → IsRunning (woken p k))
woken-IsValid k p v pn pc n =
    let out : has p k.ready_queue ≡ false =
      ground (arith, v.queued p, same_state-eq (k.procs p).state ready) in
    (
      record {
        distinct = (out, v.distinct);
        queued = λ q. ground (arith, v.queued q);
        not_null = ground (arith, v.not_null);
        single = λ q s. ground (arith, v.single q);
      },
      λ r. record { exists = r.exists; is_curr = ground (arith, r.is_curr) },
    )

-- The states in which a process waits for something.
abbrev pub IsWaiting : ProcState → Type 0
IsWaiting s = (s ≡ wait_sem) ⊎ (s ≡ wait_child) ⊎ (s ≡ sleep)

-- When the running process begins to wait, and the ready queue is valid and not empty, its front gets
-- the processor, the waiting process is in its new state, the queue is valid again and a process
-- runs.
pub block :
    (k : Kernel) (s : ProcState) (p : ℕ) (ps : List ℕ)
    → IsValid k
    → IsRunning k
    → IsWaiting s
    → k.ready_queue ≡ p ∷ ps
    → let k' = switched_to p ps (set_state k k.curr_proc s) in
      (sched_update_state k.curr_proc s k ≡ some k') × IsValid k' × IsRunning k'
unfolding sched_update_state
block k s p ps v r w e =
    let k₁ = set_state k k.curr_proc s in
    let given_up : IsGivenUp k₁ = inr (ground (arith, w)) in
    let valid : IsValid k₁ = record {
      distinct = v.distinct;
      queued = λ q. ground (arith, v.queued q, w, r.is_curr);
      not_null = v.not_null;
      single = λ q h. ground (arith, v.single q, w);
    } in
    (
      ground (arith, w, r.is_curr, sched_resched-front k₁ p ps valid given_up e),
      (switched_to-IsValid k₁ p ps valid given_up e).0,
      (switched_to-IsValid k₁ p ps valid given_up e).1,
    )

-- When the running process becomes a zombie, and the ready queue is valid and not empty, its front
-- gets the processor too, the queue is valid again and a process runs.
pub exit :
    (k : Kernel) (p : ℕ) (ps : List ℕ)
    → IsValid k
    → IsRunning k
    → k.ready_queue ≡ p ∷ ps
    → let k' = switched_to p ps (set_state k k.curr_proc zombie) in
      (sched_update_state k.curr_proc zombie k ≡ some k') × IsValid k' × IsRunning k'
unfolding sched_update_state
exit k p ps v r e =
    let k₁ : Kernel = record (set_state k k.curr_proc zombie) { curr_proc = null } in
    let valid : IsValid k₁ = record {
      distinct = v.distinct;
      queued = λ q. ground (arith, v.queued q, r.is_curr);
      not_null = v.not_null;
      single = λ q h. ground (arith, v.single q);
    } in
    (
      ground (arith, r.is_curr, sched_resched-front k₁ p ps valid (inl refl) e),
      (switched_to-IsValid k₁ p ps valid (inl refl) e).0,
      (switched_to-IsValid k₁ p ps valid (inl refl) e).1,
    )
