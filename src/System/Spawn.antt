-- ===== src/System/Spawn.antt =====
-- `sys_proc`: a new process, or an error on the way to it.
use karg.Base.{
  bind-some, ℕ, ◌≡◌, sym, ◌∙◌, ap, subst, ◌≢◌, ◌⊎◌, inl, inr, true, Option, none, some, ◌>>=◌, List,
  [], ◌∷◌, ◌==◌, if◌then◌else◌, arith, ℤ, is_neg, negate, Bool-cases,
}
use karg.Errno.{efault, enomem}
use karg.Kernel.{Kernel, init, ready, null, set_state}
use karg.Proc.Create.{proc_init}
use karg.Proc.Create.States.{proc_init-cases}
use karg.Sched.{sched_update_state}
use karg.Sched.Update.{woken}
use karg.Sem.Waiters.{AllWaiting}
use karg.Syscalls.{sys_proc}
use karg.System.{System, with_kernel, IsUnused}
use karg.System.Inv.{Inv}
use karg.System.Same.{Inv-same}
use karg.System.Waking.{wake-Inv}
use mathlib.Core.Option.{some-injective}

-- To write the memory of no process changes nothing that holds.
module _ (idle : ℕ) (s : System) (block : ℕ) (v : Inv idle s) (u : IsUnused block s.kernel) where
  AllWaiting-unused :
      (ws : List ℕ) → AllWaiting s.kernel ws → AllWaiting (set_state s.kernel block init) ws
  AllWaiting-unused [] w = tt
  AllWaiting-unused (p ∷ ws) w = ground (arith, AllWaiting-unused ws w.3, w, u)

  unused-Inv : Inv idle (with_kernel s (set_state s.kernel block init))
  unused-Inv = record {
    queue = record {
      distinct = v.queue.distinct;
      queued = λ q. ground (arith, v.queue.queued q, u);
      not_null = v.queue.not_null;
      single = λ q h. ground (arith, v.queue.single q, h);
    };
    running = record { exists = v.running.exists; is_curr = ground (arith, v.running.is_curr, u) };
    idle_alive = ground (arith, v.idle_alive, u);
    timed = record {
      order = v.timed.order;
      own = v.timed.own;
      slice = v.timed.slice;
      sleeping = λ p n. ground (arith, v.timed.sleeping p n, u);
    };
    sems = λ i. record {
      counted = (v.sems i).counted;
      distinct = (v.sems i).distinct;
      waiting = AllWaiting-unused (s.sems i).wait_queue (v.sems i).waiting;
    };
    apart = v.apart;
  }

  -- After `proc_init`, with an error or not.
  pub made-Inv :
      (entry flags parent : ℕ) (argv : List (List ℕ)) (page_table trampoline sstatus : ℕ) (res : ℤ)
      (l : Kernel)
      → proc_init block entry flags parent argv page_table trampoline sstatus s.kernel
        ≡ some (res, l)
      → Inv idle (with_kernel s l) × ((is_neg res ≡ true) ⊎ ((l.procs block).state ≡ init))
  made-Inv entry flags parent argv page_table trampoline sstatus res l h =
      elim (proc_init-cases block entry flags parent argv page_table trampoline sstatus s.kernel l
        res h) [
          | inl (same, q) ↦ (Inv-same idle s l same v, inl q)
          | inr same ↦ (
            Inv-same idle (with_kernel s (set_state s.kernel block init)) l same unused-Inv,
            inr (ground (arith, same.states block)),
          )
        ]

  -- Once it is ready.
  ready-Inv :
      (l k' : Kernel)
      → Inv idle (with_kernel s l)
      → (l.procs block).state ≡ init
      → block ≢ null
      → sched_update_state block ready l ≡ some k'
      → Inv idle (with_kernel s k')
  ready-Inv l k' i e n h =
      let (ran, ok) =
        wake-Inv idle (with_kernel s l) block i n (λ c. ground (arith, e, i.running.is_curr, c))
          (ground (arith, e)) (ground (arith, e)) in
      subst (λ z. Inv idle (with_kernel s z)) (some-injective (woken block l) k' (sym ran ∙ h)) ok

  -- A `sys_proc` that is defined.
  pub sys_proc-Inv :
      (entry : ℕ) (argv : Option (List (List ℕ))) (trampoline sstatus : ℕ) (r : ℤ × Kernel)
      → sys_proc entry argv block trampoline sstatus s.kernel ≡ some r
      → Inv idle (with_kernel s r.1)
  unfolding sys_proc
  sys_proc-Inv entry none trampoline sstatus r h =
      subst (λ z. Inv idle (with_kernel s z))
        (ap (λ z. z.1) (some-injective (negate efault, s.kernel) r h)) v
  sys_proc-Inv entry (some argv) trampoline sstatus r h = elim (Bool-cases (entry == null)) [
    | inl q ↦ same (negate efault) (ground (arith, h, q))
    | inr q ↦ elim (Bool-cases (block == null)) [
      | inl z ↦ same (negate enomem) (ground (arith, h, q, z))
      | inr z ↦
          let ((res, l), made, rest) =
            bind-some
              (proc_init block entry 0 s.kernel.curr_proc argv null trampoline sstatus s.kernel)
              rest_of r (rw z at (rw q at h)) in
          made_with res l (ground (arith, z)) made rest
    ]
  ]
    where
      same : (e : ℤ) → some (e, s.kernel) ≡ some r → Inv idle (with_kernel s r.1)
      same e f =
          subst (λ z. Inv idle (with_kernel s z)) (ap (λ z. z.1) (some-injective (e, s.kernel) r f))
            v

      pid_of : Kernel → Option (ℤ × Kernel)
      pid_of k = some ((k.procs block).pid, k)

      rest_of : ℤ × Kernel → Option (ℤ × Kernel)
      rest_of (res, k) =
          if is_neg res then some (res, k) else (sched_update_state block ready k >>= pid_of)

      made_with :
          (res : ℤ) (l : Kernel)
          → block ≢ null
          → proc_init block entry 0 s.kernel.curr_proc argv null trampoline sstatus s.kernel
            ≡ some (res, l)
          → rest_of (res, l) ≡ some r
          → Inv idle (with_kernel s r.1)
      made_with res l n made rest =
          let (kept, state) =
            made-Inv entry 0 s.kernel.curr_proc argv null trampoline sstatus res l made in
          elim (Bool-cases (is_neg res)) [
            | inl q ↦
                subst (λ z. Inv idle (with_kernel s z))
                  (ap (λ z. z.1) (some-injective (res, l) r (rw q at rest))) kept
            | inr q ↦
                let (k', ran, end) =
                  bind-some (sched_update_state block ready l) pid_of r (rw q at rest) in
                subst (λ z. Inv idle (with_kernel s z))
                  (ap (λ z. z.1) (some-injective ((k'.procs block).pid, k') r end))
                  (ready-Inv l k' kept (ground (arith, state, q)) n ran)
          ]
