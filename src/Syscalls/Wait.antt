-- ===== src/Syscalls/Wait.antt =====
-- `sys_wait`, and how it meets with `sys_exit` of a child.
use karg.Base.{
  ℕ, ◌%◌, ◌^◌, ◌≡◌, refl, ◌≢◌, some, List, [], ◌∷◌, ◌==◌, if◌then◌else◌, arith, pos, ==_refl, sym,
  ◌∙◌,
}
use karg.Kernel.{Kernel, ready, wait_child, zombie, null, put, set_state}
use karg.Sched.Resched.{IsValid, IsRunning, switched_to}
use karg.Sched.Update.{exit, wake, woken, woken-IsValid}
use karg.Proc.{proc_deinit, unlink_tree, push_zombie}
use karg.Syscalls.{
  reaped, sys_wait, sys_wait_resume, sys_exit, reap, set_exit_status, notify_parent, adopt_all,
}

-- A process that has a zombie child does not block: it gets the identifier and the low byte of the
-- status of the first one, which leaves the tree and frees its slot of the process table alone.
pub sys_wait-reaps :
    (k : Kernel) (c : ℕ) (cs : List ℕ) (pid : ℕ)
    → (k.procs k.curr_proc).zombie_children ≡ c ∷ cs
    → c ≢ null
    → (k.procs c).parent ≡ k.curr_proc
    → (k.procs c).pid ≡ pos pid
    → (k' : Kernel) × (sys_wait k ≡ some (reaped (pos pid) ((k.procs c).exit_status % 2 ^ 8), k'))
      × ((k'.procs k.curr_proc).zombie_children ≡ cs)
      × ((n : ℕ) → k'.proc_table n ≡ (if n == pid then null else k.proc_table n))
unfolding sys_wait reap proc_deinit
sys_wait-reaps k c cs pid z n h i = (
  proc_deinit c k,
  ground (arith, z, n, i),
  ground (arith, z, h, ==_refl c),
  λ m. ground (arith, i, h),
)

-- The kernel in which the parent of an exiting process has been told of it.
abbrev told : ℕ → ℕ → ℕ → Kernel → Kernel
told p q status k =
    let k₁ = push_zombie q p (unlink_tree p (set_exit_status p status k)) in
    record k₁ { procs = put k₁.procs q (record (k₁.procs q) { proc_waiting = p }) }

told-state :
    (p q r status : ℕ) (k : Kernel) → ((told p q status k).procs r).state ≡ (k.procs r).state
told-state p q r status k = ground arith

told-IsValid : (p q status : ℕ) (k : Kernel) → IsValid k → IsValid (told p q status k)
told-IsValid p q status k v = record {
  distinct = v.distinct;
  queued = λ r. ground (arith, v.queued r, told-state p q r status k);
  not_null = v.not_null;
  single = λ r s. v.single r (sym (told-state p q r status k) ∙ s);
}

told-IsRunning : (p q status : ℕ) (k : Kernel) → IsRunning k → IsRunning (told p q status k)
told-IsRunning p q status k r = record {
  exists = r.exists;
  is_curr = told-state p q k.curr_proc status k ∙ r.is_curr;
}

notify_parent-waits :
    (p q status : ℕ) (k : Kernel)
    → IsValid k
    → (k.procs q).state ≡ wait_child
    → notify_parent p q (set_exit_status p status k) ≡ some (woken q (told p q status k))
unfolding notify_parent
notify_parent-waits p q status k v w =
    let state = told-state p q q status k ∙ w in
    ground
      (arith, wake (told p q status k) q (told-IsValid p q status k v) (ground (arith, state)), w)

-- When a process without children exits while its parent waits for a child, the parent runs next,
-- whoever else is ready, and its wait returns the identifier of the process and the low byte of its
-- status.
pub exit_wait :
    (k : Kernel) (status q : ℕ)
    → IsValid k
    → IsRunning k
    → (k.procs k.curr_proc).children ≡ []
    → (k.procs k.curr_proc).zombie_children ≡ []
    → (k.procs k.curr_proc).parent ≡ q
    → q ≢ null
    → (k.procs q).state ≡ wait_child
    → (k' : Kernel) × (sys_exit status k ≡ some k')
      × (k'.curr_proc ≡ q)
      × IsValid k'
      × IsRunning k'
      × ((k'' : Kernel) × (sys_wait_resume k'
            ≡ some (reaped (k.procs k.curr_proc).pid (status % 2 ^ 32 % 2 ^ 8), k'')))
unfolding sys_exit adopt_all sys_wait_resume reap
exit_wait k status q v r c z h n w =
    let p = k.curr_proc in
    let s = status % 2 ^ 32 in
    let t = told p q s k in
    let differs : q ≢ p = λ e. ground (arith, r.is_curr, w, e) in
    let asleep : (t.procs q).state ≢ ready = ground (arith, told-state p q q s k, w) in
    let (valid, running) = woken-IsValid t q (told-IsValid p q s k v) n differs asleep in
    let (ran, valid', running') =
      exit (woken q t) q k.ready_queue valid (running (told-IsRunning p q s k r)) refl in
    let notified = notify_parent-waits p q s k v w in
    let k' = switched_to q k.ready_queue (set_state (woken q t) p zombie) in
    (
      k',
      ground (arith, c, z, h, n, notified, ran),
      refl,
      valid',
      running',
      (proc_deinit p k', ground (arith, h, differs, r.exists)),
    )
