-- ===== src/System/Exits.antt =====
-- `sys_exit`, whoever the parent and the children are.
use karg.Base.{
  bind-some, ℕ, zero, suc, ◌+◌, ◌%◌, ◌^◌, ◌≡◌, refl, sym, ◌∙◌, ap, subst, ◌≢◌, inl, inr, Option,
  none, some, ◌>>=◌, List, [], ◌∷◌, ◌==◌, if◌then◌else◌, arith, length, Bool-cases,
}
use mathlib.Core.Option.{some-injective}
use karg.Kernel.{Kernel, Proc, wait_child, zombie, null, put, same_state}
use karg.Proc.{proc_adopt, unlink_tree, push_zombie}
use karg.Sched.{sched_update_state}
use karg.Sched.Resched.{same_state-eq}
use karg.Sched.Update.{woken, exit}
use karg.Syscalls.{adopt_all, init_pid, notify_parent, set_exit_status, sys_exit}
use karg.System.{System, with_kernel}
use karg.System.Blocking.{switched-IsTimed, sems-switched}
use karg.System.Inv.{Inv, front, idle-switched}
use karg.Sched.Same.{SameSched, SameSched-refl, SameSched-trans}
use karg.System.Same.{proc_adopt-SameSched, Inv-same}
use karg.System.Waking.{wake-Inv}

-- The adoptions leave the scheduler alone.
adopt_all-SameSched :
    (fuel : ℕ) (children : Proc → List ℕ) (p : ℕ) (k k' : Kernel)
    → adopt_all fuel children p k ≡ some k'
    → SameSched k k'
unfolding adopt_all
adopt_all-SameSched zero children p k k' h = absurd (ground (arith, h))
adopt_all-SameSched (suc fuel) children p k k' h =
    let parent = k.proc_table init_pid in
    go (children (k.procs p)) refl
      (λ c. adopt_all-SameSched fuel children p (proc_adopt parent c k) k')
  where
    Next : ℕ → Type 0
    Next c =
        let k₁ = proc_adopt (k.proc_table init_pid) c k in
        adopt_all fuel children p k₁ ≡ some k' → SameSched k₁ k'

    go : (cs : List ℕ) → children (k.procs p) ≡ cs → ((c : ℕ) → Next c) → SameSched k k'
    go [] e rest =
        let h' : some k ≡ some k' = ground (arith, e, h) in
        subst (SameSched k) (some-injective _ _ h') (SameSched-refl k)
    go (c ∷ cs) e rest =
        SameSched-trans (proc_adopt-SameSched (k.proc_table init_pid) c k)
          (rest c (ground (arith, e, h)))

pub exit_status-SameSched : (p status : ℕ) (k : Kernel) → SameSched k (set_exit_status p status k)
exit_status-SameSched p status k = record {
  states = λ q. ground arith;
  ready_queue = refl;
  curr_proc = refl;
  timers = refl;
}

-- The parent is told.
pub notify_parent-Inv :
    (idle : ℕ) (s : System) (p parent : ℕ) (k' : Kernel)
    → Inv idle s
    → parent ≢ null
    → notify_parent p parent s.kernel ≡ some k'
    → Inv idle (with_kernel s k') × (k'.curr_proc ≡ s.kernel.curr_proc)
unfolding notify_parent
notify_parent-Inv idle s p parent k' v n h =
    let k = s.kernel in
    let moved = push_zombie parent p (unlink_tree p k) in
    let told : Kernel = record moved {
      procs = put moved.procs parent (record (moved.procs parent) { proc_waiting = p });
    } in
    let same : SameSched k moved = record {
      states = λ q. ground arith;
      ready_queue = refl;
      curr_proc = refl;
      timers = refl;
    } in
    let same' : SameSched k told = record {
      states = λ q. ground arith;
      ready_queue = refl;
      curr_proc = refl;
      timers = refl;
    } in
    elim (Bool-cases (same_state (moved.procs parent).state wait_child)) [
      | inl q ↦
          let waits : (told.procs parent).state ≡ wait_child =
            same'.states parent ∙ sym (same.states parent) ∙ same_state-eq _ wait_child q in
          let told_ok = Inv-same idle s told same' v in
          let (ran, ok) =
            wake-Inv idle (with_kernel s told) parent told_ok n
              (λ e. ground (arith, waits, told_ok.running.is_curr, e)) (ground (arith, waits))
              (ground (arith, waits)) in
          let h' : some (woken parent told) ≡ some k' = sym ran ∙ (rw q at h) in
          (
            subst (λ u. Inv idle (with_kernel s u)) (some-injective _ _ h') ok,
            ap (λ u. u.curr_proc) (sym (some-injective _ _ h')),
          )
      | inr q ↦
          let h' : some moved ≡ some k' = rw q at h in
          (
            subst (λ u. Inv idle (with_kernel s u)) (some-injective _ _ h')
                (Inv-same idle s moved same v),
            ap (λ u. u.curr_proc) (sym (some-injective _ _ h')),
          )
    ]

-- Then the process itself becomes a zombie.
zombie-Inv :
    (idle : ℕ) (s : System)
    → Inv idle s
    → s.kernel.curr_proc ≢ idle
    → (k : Kernel) × (sched_update_state s.kernel.curr_proc zombie s.kernel ≡ some k)
      × Inv idle (with_kernel s k)
zombie-Inv idle s v n =
    let k = s.kernel in
    let (p, ps, e) = front idle s v n in
    let (ran, valid, running) = exit k p ps v.queue v.running e in
    (
      _,
      ran,
      record {
        queue = valid;
        running = running;
        idle_alive = idle-switched k zombie p ps v.queue v.running e idle n v.idle_alive;
        timed =
            switched-IsTimed k zombie p ps k.timers v.queue v.running e v.timed v.timed.order
              v.timed.own (λ q. refl);
        sems = λ i. sems-switched k zombie p ps k.timers v.queue v.running e (s.sems i) (v.sems i);
        apart = v.apart;
      },
    )

-- The rest of a `sys_exit`, from where the parent is told and from where the zombies are adopted.
abbrev tells : ℕ → Kernel → Option Kernel
tells p k =
    (if (k.procs p).parent == null then none else notify_parent p (k.procs p).parent k)
    >>= sched_update_state p zombie

abbrev adopts : ℕ → Kernel → Option Kernel
adopts p k =
    adopt_all (length (k.procs p).zombie_children + 1) (λ q. q.zombie_children) p k >>= tells p

-- A `sys_exit` that is defined.
pub sys_exit-Inv :
    (idle : ℕ) (s : System) (status : ℕ) (k' : Kernel)
    → Inv idle s
    → s.kernel.curr_proc ≢ idle
    → sys_exit status s.kernel ≡ some k'
    → Inv idle (with_kernel s k')
unfolding sys_exit
sys_exit-Inv idle s status k' v n h =
    let k = s.kernel in
    let p = k.curr_proc in
    let k₁ = set_exit_status p (status % 2 ^ 32) k in
    let (k₂, h₂, h₂') =
      bind-some (adopt_all (length (k₁.procs p).children + 1) (λ q. q.children) p k₁) (adopts p) k'
        h in
    let (k₃, h₃, h₃') =
      bind-some (adopt_all (length (k₂.procs p).zombie_children + 1) (λ q. q.zombie_children) p k₂)
        (tells p) k' h₂' in
    let (k₄, h₄, h₄') =
      bind-some
        (if (k₃.procs p).parent == null then none else notify_parent p (k₃.procs p).parent k₃)
        (sched_update_state p zombie) k' h₃' in
    let same : SameSched k k₃ = SameSched-trans (exit_status-SameSched p (status % 2 ^ 32) k) (
      SameSched-trans (adopt_all-SameSched _ (λ q. q.children) p k₁ k₂ h₂)
        (adopt_all-SameSched _ (λ q. q.zombie_children) p k₂ k₃ h₃)) in
    let v₃ = Inv-same idle s k₃ same v in
    let parent = (k₃.procs p).parent in
    elim (Bool-cases (parent == null)) [
      | inl q ↦ absurd (ground (arith, h₄, q))
      | inr q ↦
          let told : notify_parent p parent k₃ ≡ some k₄ = rw q at h₄ in
          let (v₄, c) =
            notify_parent-Inv idle (with_kernel s k₃) p parent k₄ v₃ (ground (arith, q)) told in
          let same_curr : k₄.curr_proc ≡ p = c ∙ same.curr_proc in
          let (k₅, ran, ok) = zombie-Inv idle (with_kernel s k₄) v₄ (λ e. n (sym same_curr ∙ e)) in
          let ran' : sched_update_state p zombie k₄ ≡ some k₅ =
            subst (λ x. sched_update_state x zombie k₄ ≡ some k₅) same_curr ran in
          subst (λ u. Inv idle (with_kernel s u)) (some-injective _ _ (sym ran' ∙ h₄')) ok
    ]
