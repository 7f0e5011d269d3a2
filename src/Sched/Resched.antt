-- ===== src/Sched/Resched.antt =====
-- `sched_resched` from every state in which the kernel calls it.
use karg.Base.{
  ℕ, ◌≡◌, refl, ◌≢◌, ◌⊎◌, inl, inr, true, false, ◌&&◌, not, none, some, List, [], ◌∷◌, ◌==◌, has,
  Distinct, arith, ap, sym, ◌∙◌, fun_ext, ==_refl, Bool-cases,
}
use karg.Kernel.{
  Kernel, Proc, ProcState, init, ready, curr, wait_sem, wait_child, sleep, zombie, null, put,
  set_state, same_state,
}
use karg.Sched.{sched_resched}

-- The ready queue holds exactly the READY processes, each once, and no process but the current one
-- is CURR. The null pointer is no process.
pub record IsValid (k : Kernel) : Type 0 where
  pub distinct : Distinct k.ready_queue
  pub queued : (p : ℕ) → has p k.ready_queue ≡ same_state (k.procs p).state ready
  pub not_null : has null k.ready_queue ≡ false
  pub single : (p : ℕ) → (k.procs p).state ≡ curr → (p ≡ k.curr_proc) × (p ≢ null)

-- A process runs: there is a current process, and its state is CURR.
pub record IsRunning (k : Kernel) : Type 0 where
  pub exists : k.curr_proc ≢ null
  pub is_curr : (k.procs k.curr_proc).state ≡ curr

pub same_state_refl : (s : ProcState) → same_state s s ≡ true
same_state_refl init = refl
same_state_refl ready = refl
same_state_refl curr = refl
same_state_refl wait_sem = refl
same_state_refl wait_child = refl
same_state_refl sleep = refl
same_state_refl zombie = refl

pub same_state-eq : (s t : ProcState) → same_state s t ≡ true → s ≡ t
same_state-eq s t h = ground arith

-- Two changes of one process's state leave it as it was, if the second restores the state.
restore :
    (f : ℕ → Proc) (p : ℕ) (s t : ProcState)
    → (f p).state ≡ t
    → put
        (put f p (record (f p) { state = s }))
        p
        (record (put f p (record (f p) { state = s }) p) { state = t })
      ≡ f
restore f p s t e = fun_ext λ q. ground arith

-- While the current process is CURR and the ready queue valid, `sched_resched` (called for the `yield` system call and at the
-- end of every time slice) selects that same process again: it succeeds, and the queue, the
-- current process and every process's fields are what they were.
pub sched_resched-same :
    (k : Kernel)
    → IsValid k
    → IsRunning k
    → sched_resched k ≡ some (record k { running = k.curr_proc })
unfolding sched_resched
sched_resched-same k v r = ground (
  arith,
  r.is_curr,
  r.exists,
  v.queued k.curr_proc,
  restore k.procs k.curr_proc ready curr r.is_curr,
)

-- The kernel after the front of the ready queue, `p`, has been given the processor.
abbrev pub switched_to : ℕ → List ℕ → Kernel → Kernel
switched_to p ps k = record (set_state k p curr) { ready_queue = ps; curr_proc = p; running = p }

-- The current process gives the processor up: there is none, or it is in another state than CURR.
abbrev pub IsGivenUp : Kernel → Type 0
IsGivenUp k = (k.curr_proc ≡ null) ⊎ ((k.procs k.curr_proc).state ≢ curr)

pub ready_of_front :
    (k : Kernel) (p : ℕ) (ps : List ℕ)
    → IsValid k
    → k.ready_queue ≡ p ∷ ps
    → (k.procs p).state ≡ ready
ready_of_front k p ps v e =
    let b : has p k.ready_queue ≡ true = rw e (rw ==_refl refl) in
    same_state-eq _ ready (ground (arith, v.queued p))

-- When the current process has given the processor up and the ready queue is valid and not empty,
-- `sched_resched` takes the front of the ready queue off it, makes it the current process and CURR, and goes on in its context.
pub sched_resched-front :
    (k : Kernel) (p : ℕ) (ps : List ℕ)
    → IsValid k
    → IsGivenUp k
    → k.ready_queue ≡ p ∷ ps
    → sched_resched k ≡ some (switched_to p ps k)
unfolding sched_resched
sched_resched-front k p ps v g e =
    let s = ready_of_front k p ps v e in
    elim g [
      | inl h ↦ ground (arith, h, e, s)
      | inr h ↦ ground (arith, same_state-eq (k.procs k.curr_proc).state curr, e, s)
    ]

-- With nobody ready either, it takes the head of the empty queue for a process.
pub sched_resched-undefined :
    (k : Kernel) → IsGivenUp k → k.ready_queue ≡ [] → sched_resched k ≡ none
unfolding sched_resched
sched_resched-undefined k (inl h) e = ground (arith, h, e)
sched_resched-undefined k (inr h) e =
    ground (arith, same_state-eq (k.procs k.curr_proc).state curr, e)

has-tail : (q p : ℕ) (ps : List ℕ) → Distinct (p ∷ ps) → has q ps ≡ (not (q == p) && has q (p ∷ ps))
has-tail q p ps d = ground (arith, Bool-cases (has q ps))

-- That keeps the queue right, and leaves a process running.
pub switched_to-IsValid :
    (k : Kernel) (p : ℕ) (ps : List ℕ)
    → IsValid k
    → IsGivenUp k
    → k.ready_queue ≡ p ∷ ps
    → IsValid (switched_to p ps k) × IsRunning (switched_to p ps k)
switched_to-IsValid k p ps v g e =
    let d : Distinct (p ∷ ps) = rw e at v.distinct in
    let n : has null (p ∷ ps) ≡ false = rw e at v.not_null in
    (
      record {
        distinct = d.1;
        queued = λ q. ground (arith, v.queued q, ap (has q) e, d.0);
        not_null = ground arith;
        single = λ q s. single' q s;
      },
      record { exists = ground arith; is_curr = ground (arith, ==_refl p) },
    )
  where
    nobody : (q : ℕ) → (k.procs q).state ≡ curr → ⊥
    nobody q s = elim g [
      | inl h ↦ (v.single q s).1 ((v.single q s).0 ∙ h)
      | inr h ↦ h (ap (λ x. (k.procs x).state) (sym (v.single q s).0) ∙ s)
    ]

    p≢null : p ≢ null
    p≢null h = ground (arith, ap (has null) e, v.not_null, h)

    single' : (q : ℕ) → ((switched_to p ps k).procs q).state ≡ curr → (q ≡ p) × (q ≢ null)
    single' q s = ground (arith, nobody q, p≢null)
