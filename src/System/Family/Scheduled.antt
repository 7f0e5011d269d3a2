-- ===== src/System/Family/Scheduled.antt =====
-- What the scheduler does leaves the tree of processes alone.
use karg.Base.{ℕ, ◌≡◌, refl, ◌∙◌, ap, ◌≢◌, true, List, ◌∷◌, arith}
use karg.Kernel.{Kernel, ProcState, wait_child, set_state}
use karg.Sched.Resched
use karg.Sched.Resched.{IsRunning, switched_to, ready_of_front}
use karg.Sched.Update.{woken}
use karg.System.Family.{SameFamily, is_live}
use karg.System.Inv.{switched-state}
use karg.Timer.{Timers}

-- A kernel with the same processes and process table.
pub SameFamily-procs :
    (k k' : Kernel) → k'.procs ≡ k.procs → k'.proc_table ≡ k.proc_table → SameFamily k k'
SameFamily-procs k k' p t = record {
  parent = λ q. ap (λ f. (f q).parent) p;
  children = λ q. ap (λ f. (f q).children) p;
  zombie_children = λ q. ap (λ f. (f q).zombie_children) p;
  pid = λ q. ap (λ f. (f q).pid) p;
  proc_waiting = λ q. ap (λ f. (f q).proc_waiting) p;
  live = λ q. ap (λ f. is_live (f q).state) p;
  dead = λ q h. rw p h;
  waiting = λ q h. rw p h;
  table = t;
}

-- The same for a kernel that `m` agrees with on these.
pub SameFamily-after :
    (k m k' : Kernel)
    → SameFamily k m
    → k'.procs ≡ m.procs
    → k'.proc_table ≡ m.proc_table
    → SameFamily k k'
SameFamily-after k m k' s p t = record {
  parent = λ q. ap (λ f. (f q).parent) p ∙ s.parent q;
  children = λ q. ap (λ f. (f q).children) p ∙ s.children q;
  zombie_children = λ q. ap (λ f. (f q).zombie_children) p ∙ s.zombie_children q;
  pid = λ q. ap (λ f. (f q).pid) p ∙ s.pid q;
  proc_waiting = λ q. ap (λ f. (f q).proc_waiting) p ∙ s.proc_waiting q;
  live = λ q. ap (λ f. is_live (f q).state) p ∙ s.live q;
  dead = λ q h. ap (λ f. (f q).state) p ∙ s.dead q h;
  waiting = λ q h. ap (λ f. (f q).state) p ∙ s.waiting q h;
  table = t ∙ s.table;
}

-- The running process gives the processor up and goes on living.
pub switched-SameFamily :
    (k : Kernel) (t : Timers) (st : ProcState) (a : ℕ) (behind : List ℕ)
    → Resched.IsValid k
    → IsRunning k
    → k.ready_queue ≡ a ∷ behind
    → is_live st ≡ true
    → SameFamily k (switched_to a behind (set_state (record k { timers = t }) k.curr_proc st))
switched-SameFamily k t st a behind v r e l = record {
  parent = λ q. ground arith;
  children = λ q. ground arith;
  zombie_children = λ q. ground arith;
  pid = λ q. ground arith;
  proc_waiting = λ q. ground arith;
  live = λ q.
      ground
        (arith, switched-state k st a behind v r e q, ready_of_front k a behind v e, r.is_curr, l);
  dead = λ q h.
      ground
        (arith, switched-state k st a behind v r e q, ready_of_front k a behind v e, r.is_curr, h);
  waiting = λ q h.
      ground
        (arith, switched-state k st a behind v r e q, ready_of_front k a behind v e, r.is_curr, h);
  table = refl;
}

-- A process is woken that does not wait for a child.
pub woken-SameFamily :
    (k : Kernel) (p : ℕ)
    → is_live (k.procs p).state ≡ true
    → (k.procs p).state ≢ wait_child
    → SameFamily k (woken p k)
woken-SameFamily k p l n = record {
  parent = λ q. ground arith;
  children = λ q. ground arith;
  zombie_children = λ q. ground arith;
  pid = λ q. ground arith;
  proc_waiting = λ q. ground arith;
  live = λ q. ground (arith, l);
  dead = λ q h. ground (arith, l, h);
  waiting = λ q h. ground (arith, n, h);
  table = refl;
}
