-- ===== src/System/Children.antt =====
-- `sys_wait`, whatever the children are.
use karg.Base.{
  bind-some, ℕ, ◌%◌, ◌^◌, ◌≡◌, refl, sym, ◌∙◌, ap, subst, ◌≢◌, ◌⊎◌, inl, inr, some, ◌>>=◌, List, [],
  ◌∷◌, ◌==◌, arith, negate, Bool-cases,
}
use mathlib.Core.Option.{some-injective}
use karg.Kernel.{Kernel, wait_child, null}
use karg.Proc.{proc_deinit}
use karg.Sched.{sched_update_state}
use karg.Sched.Update.{block}
use karg.Syscalls.{sys_wait, sys_wait_resume, reap, Waited, failed, reaped, blocked}
use karg.Errno.{echild}
use karg.System.{System, with_kernel}
use karg.System.Blocking.{switched-IsTimed, sems-switched}
use karg.System.Inv.{Inv, front, idle-switched}
use karg.System.Same.{proc_deinit-SameSched, Inv-same}

-- A `sys_wait` that is defined leaves everything, frees a child, or waits for a child.
pub sys_wait-cases :
    (k : Kernel) (r : Waited × Kernel)
    → sys_wait k ≡ some r
    → (r.1 ≡ k)
      ⊎ ((c : ℕ) × (r.1 ≡ proc_deinit c k))
      ⊎ (sched_update_state k.curr_proc wait_child k ≡ some r.1)
unfolding sys_wait reap
sys_wait-cases k r h =
    go (k.procs k.curr_proc).children (k.procs k.curr_proc).zombie_children refl refl
  where
    first : (x y : Waited × Kernel) → some x ≡ some y → x.1 ≡ y.1
    first x y e = ap (λ z. z.1) (some-injective x y e)

    go :
        (cs zs : List ℕ)
        → (k.procs k.curr_proc).children ≡ cs
        → (k.procs k.curr_proc).zombie_children ≡ zs
        → (r.1 ≡ k)
          ⊎ ((c : ℕ) × (r.1 ≡ proc_deinit c k))
          ⊎ (sched_update_state k.curr_proc wait_child k ≡ some r.1)
    go [] [] d e = inl (first r (failed (negate echild), k) (ground (arith, d, e, h)))
    go (c ∷ cs) [] d e =
        let blocks : (sched_update_state k.curr_proc wait_child k >>= λ k'. some (blocked, k'))
            ≡ some r =
          ground (arith, d, e, h) in
        let (k', ran, end) =
          bind-some (sched_update_state k.curr_proc wait_child k) (λ k'. some (blocked, k')) r
            blocks in
        inr (inr (ran ∙ ap some (first (blocked, k') r end)))
    go cs (z ∷ zs) d e = elim (Bool-cases (z == null)) [
      | inl q ↦ absurd (ground (arith, d, e, h, q))
      | inr q ↦ inr (
          inl (
            z,
            first r (reaped (k.procs z).pid ((k.procs z).exit_status % 2 ^ 8), proc_deinit z k)
                (ground (arith, d, e, h, q)),
          ))
    ]

-- A process other than the idle one begins to wait for a child.
wait_child-Inv :
    (idle : ℕ) (s : System)
    → Inv idle s
    → s.kernel.curr_proc ≢ idle
    → (k : Kernel) × (sched_update_state s.kernel.curr_proc wait_child s.kernel ≡ some k)
      × Inv idle (with_kernel s k)
wait_child-Inv idle s v n =
    let k = s.kernel in
    let (p, ps, e) = front idle s v n in
    let (ran, valid, running) = block k wait_child p ps v.queue v.running (inr (inl refl)) e in
    (
      _,
      ran,
      record {
        queue = valid;
        running = running;
        idle_alive = idle-switched k wait_child p ps v.queue v.running e idle n v.idle_alive;
        timed =
            switched-IsTimed k wait_child p ps k.timers v.queue v.running e v.timed v.timed.order
              v.timed.own (λ q. refl);
        sems =
            λ i. sems-switched k wait_child p ps k.timers v.queue v.running e (s.sems i) (v.sems i);
        apart = v.apart;
      },
    )

pub sys_wait-Inv :
    (idle : ℕ) (s : System) (r : Waited × Kernel)
    → Inv idle s
    → s.kernel.curr_proc ≢ idle
    → sys_wait s.kernel ≡ some r
    → Inv idle (with_kernel s r.1)
sys_wait-Inv idle s r v n h =
    let k = s.kernel in
    elim (sys_wait-cases k r h) [
      | inl same ↦ subst (λ u. Inv idle (with_kernel s u)) (sym same) v
      | inr (inl (c, freed)) ↦
          subst (λ u. Inv idle (with_kernel s u)) (sym freed)
            (Inv-same idle s (proc_deinit c k) (proc_deinit-SameSched c k) v)
      | inr (inr waits) ↦
          let (k', ran, ok) = wait_child-Inv idle s v n in
          subst (λ u. Inv idle (with_kernel s u)) (some-injective _ _ (sym ran ∙ waits)) ok
    ]

-- The wait of a process that was woken ends: the child is freed.
pub sys_wait_resume-Inv :
    (idle : ℕ) (s : System) (r : Waited × Kernel)
    → Inv idle s
    → sys_wait_resume s.kernel ≡ some r
    → Inv idle (with_kernel s r.1)
unfolding sys_wait_resume reap
sys_wait_resume-Inv idle s r v h =
    let k = s.kernel in
    let c = (k.procs k.curr_proc).proc_waiting in
    let end : Waited × Kernel =
      (reaped (k.procs c).pid ((k.procs c).exit_status % 2 ^ 8), proc_deinit c k) in
    elim (Bool-cases (c == null)) [
      | inl q ↦ absurd (ground (arith, h, q))
      | inr q ↦
          let freed : proc_deinit c k ≡ r.1 = ap (λ z. z.1) (some-injective end r (rw q at h)) in
          subst (λ u. Inv idle (with_kernel s u)) freed
            (Inv-same idle s (proc_deinit c k) (proc_deinit-SameSched c k) v)
    ]
