-- ===== src/System/Family/Waited.antt =====
-- The two halves of `sys_wait` in a tree of processes.
use karg.Base.{
  ℕ, ◌%◌, ◌^◌, ◌≡◌, refl, ◌∙◌, ap, ◌≢◌, inl, inr, Bool, true, false, some, List, [], ◌∷◌, ◌==◌, has,
  arith, ==_refl, negate, Bool-cases,
}
use karg.Errno.{echild}
use karg.Kernel.{Kernel, wait_child, zombie, null, put, set_state}
use karg.Proc.{proc_deinit}
use karg.Sched.{sched_update_state}
use karg.Sched.Resched.{switched_to, ready_of_front}
use karg.Sched.Update.{block}
use karg.Syscalls.{Waited, failed, reaped, blocked, sys_wait, sys_wait_resume, reap}
use karg.System.{System}
use karg.System.Family.{IsFamily, IsWaited, IsFamily-same, SameFamily}
use karg.System.Family.Reaped.{freed-IsFamily, freed-IsWaited}
use karg.System.Family.Scheduled.{switched-SameFamily}
use karg.System.Inv.{Inv, front, switched-state}

-- Whether the process is still inside the call.
abbrev pub is_blocked : Waited → Bool
is_blocked blocked = true
is_blocked _ = false

-- How a `sys_wait` of `p` ends: with an error if `p` has no children, with a zombie that is freed if
-- it has one, and else `p` waits for a child.
abbrev pub Answer : ℕ → Kernel → Waited × Kernel → Type 0
Answer p k (failed e, k') =
    (k' ≡ k) × ((k.procs p).children ≡ []) × ((k.procs p).zombie_children ≡ [])
Answer p k (reaped pid status, k') =
    (c : ℕ) × (has c (k.procs p).zombie_children ≡ true)
    × ((k.procs c).state ≡ zombie)
    × (pid ≡ (k.procs c).pid)
    × (status ≡ (k.procs c).exit_status % 2 ^ 8)
    × (k' ≡ proc_deinit c k)
Answer p k (blocked, k') = ((k'.procs p).state ≡ wait_child) × ((k.procs p).zombie_children ≡ [])

-- What a `sys_wait`, or the rest of one, by `p` leaves true.
pub record IsAnswered (idle first p : ℕ) (k : Kernel) (r : Waited × Kernel) : Type 0 where
  pub answer : Answer p k r
  pub family : IsFamily idle first r.1
  pub waited :
      (in_wait : ℕ → Bool) → IsWaited in_wait k → IsWaited (put in_wait p (is_blocked r.0)) r.1

reaps :
    (idle first z p : ℕ) (k : Kernel)
    → IsFamily idle first k
    → has z (k.procs p).zombie_children ≡ true
    → (r : Waited × Kernel) × (reap z k ≡ some r)
      × (is_blocked r.0 ≡ false)
      × IsAnswered idle first p k r
unfolding reap
reaps idle first z p k f h =
    let (parent, lives, dead, pid, exists) = f.dead p z h in
    let exists' : (z == null) ≡ false = ground (arith, exists) in
    (
      (reaped (k.procs z).pid ((k.procs z).exit_status % 2 ^ 8), proc_deinit z k),
      rw exists' refl,
      refl,
      record {
        answer = (z, h, dead, refl, refl, refl);
        family = freed-IsFamily idle first z p k f h;
        waited = freed-IsWaited idle first z p k f h;
      },
    )

sys_wait-none :
    (k : Kernel)
    → (k.procs k.curr_proc).children ≡ []
    → (k.procs k.curr_proc).zombie_children ≡ []
    → sys_wait k ≡ some (failed (negate echild), k)
unfolding sys_wait
sys_wait-none k d e = rw (d, e) refl

sys_wait-zombie :
    (k : Kernel) (z : ℕ) (zs : List ℕ)
    → (k.procs k.curr_proc).zombie_children ≡ z ∷ zs
    → sys_wait k ≡ reap z k
unfolding sys_wait
sys_wait-zombie k z zs e = go (k.procs k.curr_proc).children refl
  where
    go : (cs : List ℕ) → (k.procs k.curr_proc).children ≡ cs → sys_wait k ≡ reap z k
    go [] d = rw (d, e) refl
    go (c ∷ cs) d = rw (d, e) refl

sys_wait-waits :
    (k k' : Kernel) (c : ℕ) (cs : List ℕ)
    → (k.procs k.curr_proc).children ≡ c ∷ cs
    → (k.procs k.curr_proc).zombie_children ≡ []
    → sched_update_state k.curr_proc wait_child k ≡ some k'
    → sys_wait k ≡ some (blocked, k')
unfolding sys_wait
sys_wait-waits k k' c cs d e ran = ground (arith, d, e, ran)

-- The running process waits for a child.
module _ (idle first a : ℕ) (behind : List ℕ) (s : System) (v : Inv idle s)
    (f : IsFamily idle first s.kernel) (q : s.kernel.ready_queue ≡ a ∷ behind)
    (e : (s.kernel.procs s.kernel.curr_proc).zombie_children ≡ []) where
  abbrev waiting : Kernel
  waiting = switched_to a behind (set_state s.kernel s.kernel.curr_proc wait_child)

  same : SameFamily s.kernel waiting
  same = switched-SameFamily s.kernel s.kernel.timers wait_child a behind v.queue v.running q refl

  waits : (waiting.procs s.kernel.curr_proc).state ≡ wait_child
  waits = ground (
    arith,
    switched-state s.kernel wait_child a behind v.queue v.running q s.kernel.curr_proc,
    ready_of_front s.kernel a behind v.queue q,
    v.running.is_curr,
  )

  waits-IsWaited :
      (in_wait : ℕ → Bool)
      → IsWaited in_wait s.kernel
      → IsWaited (put in_wait s.kernel.curr_proc true) waiting
  waits-IsWaited in_wait w x i = elim (Bool-cases (x == s.kernel.curr_proc)) [
    | inl b ↦ inl (ground (arith, waits, b))
    | inr b ↦ ground (arith, w x, i, b, same.waiting x, same.proc_waiting x, same.zombie_children x)
  ]

  waits-IsAnswered : IsAnswered idle first s.kernel.curr_proc s.kernel (blocked, waiting)
  waits-IsAnswered = record {
    answer = (waits, e);
    family = IsFamily-same s.kernel waiting same idle first f;
    waited = waits-IsWaited;
  }

pub sys_wait-IsAnswered :
    (idle first : ℕ) (s : System)
    → Inv idle s
    → IsFamily idle first s.kernel
    → s.kernel.curr_proc ≢ idle
    → (r : Waited × Kernel) × (sys_wait s.kernel ≡ some r)
      × IsAnswered idle first s.kernel.curr_proc s.kernel r
sys_wait-IsAnswered idle first s v f n =
    go (k.procs p).children (k.procs p).zombie_children refl refl
  where
    k : Kernel
    k = s.kernel

    p : ℕ
    p = s.kernel.curr_proc

    Result : Type 0
    Result = (r : Waited × Kernel) × (sys_wait k ≡ some r) × IsAnswered idle first p k r

    go : (cs zs : List ℕ) → (k.procs p).children ≡ cs → (k.procs p).zombie_children ≡ zs → Result
    go [] [] d e = (
      (failed (negate echild), k),
      sys_wait-none k d e,
      record {
        answer = (refl, d, e);
        family = f;
        waited = λ in_wait w x i. w x (ground (arith, i));
      },
    )
    go cs (z ∷ zs) d e =
        let h : has z (k.procs p).zombie_children ≡ true =
          ap (has z) e ∙ ground (arith, ==_refl z) in
        let (r, ran, _, a) = reaps idle first z p k f h in (r, sys_wait-zombie k z zs e ∙ ran, a)
    go (c ∷ cs) [] d e =
        let (a, behind, q) = front idle s v n in
        let (ran, _, _) = block k wait_child a behind v.queue v.running (inr (inl refl)) q in
        (
          (blocked, waiting idle first a behind s v f q e),
          sys_wait-waits k _ c cs d e ran,
          waits-IsAnswered idle first a behind s v f q e,
        )

-- The process that was told of a child runs again: that child is freed.
pub sys_wait_resume-IsAnswered :
    (idle first : ℕ) (s : System) (in_wait : ℕ → Bool)
    → Inv idle s
    → IsFamily idle first s.kernel
    → IsWaited in_wait s.kernel
    → in_wait s.kernel.curr_proc ≡ true
    → (r : Waited × Kernel) × (sys_wait_resume s.kernel ≡ some r)
      × (is_blocked r.0 ≡ false)
      × IsAnswered idle first s.kernel.curr_proc s.kernel r
unfolding sys_wait_resume
sys_wait_resume-IsAnswered idle first s in_wait v f w i =
    let k = s.kernel in
    let p = k.curr_proc in
    let c = (k.procs p).proc_waiting in
    let h : has c (k.procs p).zombie_children ≡ true = ground (arith, w p i, v.running.is_curr) in
    reaps idle first c p k f h
