-- ===== src/Sched/Same.antt =====
-- Parts of an operation that touch neither the states of the processes, nor the ready queue, nor the
-- timers.
use karg.Base.{ℕ, ◌≡◌, refl, ◌∙◌}
use karg.Kernel.{Kernel}

pub record SameSched (k k' : Kernel) : Type 0 where
  pub states : (p : ℕ) → (k'.procs p).state ≡ (k.procs p).state
  pub ready_queue : k'.ready_queue ≡ k.ready_queue
  pub curr_proc : k'.curr_proc ≡ k.curr_proc
  pub timers : k'.timers ≡ k.timers

pub SameSched-refl : (k : Kernel) → SameSched k k
SameSched-refl k = record {
  states = λ p. refl;
  ready_queue = refl;
  curr_proc = refl;
  timers = refl;
}

pub SameSched-trans : {k l m : Kernel} → SameSched k l → SameSched l m → SameSched k m
SameSched-trans a b = record {
  states = λ p. b.states p ∙ a.states p;
  ready_queue = b.ready_queue ∙ a.ready_queue;
  curr_proc = b.curr_proc ∙ a.curr_proc;
  timers = b.timers ∙ a.timers;
}
