-- ===== src/System/Family/Started.antt =====
-- `sys_proc` in a tree of processes, whether the process comes to be or not.
use karg.Base.{
  bind-some, ℕ, ◌≡◌, refl, sym, ◌∙◌, ap, subst, ◌≢◌, inl, inr, Bool, true, false, not, Option, none,
  some, ◌>>=◌, List, ◌==◌, if◌then◌else◌, arith, ℤ, is_neg, negate, Bool-cases,
}
use karg.Errno.{efault}
use karg.Kernel.{Kernel, ready, null}
use karg.Proc.Create.{proc_init}
use karg.Proc.Create.States.{proc_init-cases}
use karg.Proc.Create.Made.{IsMade, proc_init-IsMade}
use karg.Sched.{sched_update_state}
use karg.Sched.Update.{woken, wake}
use karg.Syscalls.{sys_proc}
use karg.System.{System}
use karg.System.Family.{IsFamily, IsWaited, is_live}
use karg.System.Family.Spawned.{IsFreeBlock, made-IsFamily, made-IsWaited}
use karg.System.Inv.{Inv}
use karg.System.Spawn.{made-Inv}
use mathlib.Core.Option.{some-injective}

-- What `sys_proc` leaves true.
abbrev pub Kept : ℕ → ℕ → Kernel → Kernel → Type 0
Kept idle first k k' =
    IsFamily idle first k' × ((in_wait : ℕ → Bool) → IsWaited in_wait k → IsWaited in_wait k')

module _ (idle first : ℕ) (s : System) (b : ℕ) (v : Inv idle s) (f : IsFamily idle first s.kernel)
    (u : IsFreeBlock b s.kernel) (entry : ℕ) (argv : List (List ℕ))
    (page_table trampoline sstatus : ℕ) (res : ℤ) (l : Kernel)
    (made : proc_init b entry 0 s.kernel.curr_proc argv page_table trampoline sstatus s.kernel
      ≡ some (res, l)) where
  lives : is_live (s.kernel.procs s.kernel.curr_proc).state ≡ true
  lives = ap is_live v.running.is_curr

  b-dead : is_live (s.kernel.procs b).state ≡ false
  b-dead = elim u.0 [ inl e ↦ ap is_live e | inr e ↦ ap is_live e ]

  init-IsMade : IsMade b s.kernel.curr_proc (not (is_neg res)) s.kernel l
  init-IsMade =
      proc_init-IsMade b entry 0 s.kernel.curr_proc argv page_table trampoline sstatus s.kernel l
        res made (λ e. ground (arith, lives, b-dead, e))

  states : (x : ℕ) → x ≢ b → (l.procs x).state ≡ (s.kernel.procs x).state
  states x n =
      elim (proc_init-cases b entry 0 s.kernel.curr_proc argv page_table trampoline sstatus s.kernel
        l res made) [ inl (same, q) ↦ same.states x | inr same ↦ ground (arith, same.states x, n) ]

  still-dead : is_live (l.procs b).state ≡ false
  still-dead =
      elim (proc_init-cases b entry 0 s.kernel.curr_proc argv page_table trampoline sstatus s.kernel
        l res made) [
          | inl (same, q) ↦ ap is_live (same.states b) ∙ b-dead
          | inr same ↦ ground (arith, same.states b)
        ]

  fails : is_neg res ≡ true → Kept idle first s.kernel l
  fails q =
      let i : IsMade b s.kernel.curr_proc false s.kernel l =
        subst (λ z. IsMade b s.kernel.curr_proc (not z) s.kernel l) q init-IsMade in
      let live : (x : ℕ)
          → is_live (l.procs x).state
            ≡ (if x == b then false else is_live (s.kernel.procs x).state) =
        λ x. ground (arith, states x, still-dead) in
      (
        made-IsFamily idle first b s.kernel.curr_proc s.kernel f u lives false l l i live states
            (λ x. refl) (λ x. refl) (λ x. refl) (λ x. refl) (λ x. refl) refl,
        made-IsWaited idle first b s.kernel.curr_proc s.kernel f u lives false l l i live states
            (λ x. refl) (λ x. refl) (λ x. refl) (λ x. refl) (λ x. refl) refl,
      )

  succeeds : is_neg res ≡ false → Kept idle first s.kernel (woken b l)
  succeeds q =
      let i : IsMade b s.kernel.curr_proc true s.kernel l =
        subst (λ z. IsMade b s.kernel.curr_proc (not z) s.kernel l) q init-IsMade in
      let m = woken b l in
      let live : (x : ℕ)
          → is_live (m.procs x).state
            ≡ (if x == b then true else is_live (s.kernel.procs x).state) =
        λ x. ground (arith, states x) in
      let states' : (x : ℕ) → x ≢ b → (m.procs x).state ≡ (s.kernel.procs x).state =
        λ x n. ground (arith, states x, n) in
      let children : (x : ℕ) → (m.procs x).children ≡ (l.procs x).children = λ x. ground arith in
      let zombies : (x : ℕ) → (m.procs x).zombie_children ≡ (l.procs x).zombie_children =
        λ x. ground arith in
      let parents : (x : ℕ) → (m.procs x).parent ≡ (l.procs x).parent = λ x. ground arith in
      let pids : (x : ℕ) → (m.procs x).pid ≡ (l.procs x).pid = λ x. ground arith in
      let waits : (x : ℕ) → (m.procs x).proc_waiting ≡ (l.procs x).proc_waiting =
        λ x. ground arith in
      (
        made-IsFamily idle first b s.kernel.curr_proc s.kernel f u lives true l m i live states'
            children zombies parents pids waits refl,
        made-IsWaited idle first b s.kernel.curr_proc s.kernel f u lives true l m i live states'
            children zombies parents pids waits refl,
      )

-- A `sys_proc` that is defined.
pub sys_proc-Kept :
    (idle first : ℕ) (s : System) (b : ℕ)
    → Inv idle s
    → IsFamily idle first s.kernel
    → IsFreeBlock b s.kernel
    → (entry : ℕ) (argv : Option (List (List ℕ))) (trampoline sstatus : ℕ) (r : ℤ × Kernel)
    → sys_proc entry argv b trampoline sstatus s.kernel ≡ some r
    → Kept idle first s.kernel r.1
unfolding sys_proc
sys_proc-Kept idle first s b v f u entry none trampoline sstatus r h =
    subst (Kept idle first s.kernel) (ap (λ z. z.1) (some-injective (negate efault, s.kernel) r h))
      (f, λ i w. w)
sys_proc-Kept idle first s b v f u entry (some argv) trampoline sstatus r h =
    elim (Bool-cases (entry == null)) [
      | inl q ↦ same (negate efault) (ground (arith, h, q))
      | inr q ↦
          let z : (b == null) ≡ false = ground (arith, u.1) in
          let ((res, l), made, rest) =
            bind-some (proc_init b entry 0 s.kernel.curr_proc argv null trampoline sstatus s.kernel)
              rest_of r (rw z at (rw q at h)) in
          made_with res l made rest
    ]
  where
    same : (e : ℤ) → some (e, s.kernel) ≡ some r → Kept idle first s.kernel r.1
    same e g =
        subst (Kept idle first s.kernel) (ap (λ z. z.1) (some-injective (e, s.kernel) r g))
          (f, λ i w. w)

    pid_of : Kernel → Option (ℤ × Kernel)
    pid_of k = some ((k.procs b).pid, k)

    rest_of : ℤ × Kernel → Option (ℤ × Kernel)
    rest_of (res, k) =
        if is_neg res then some (res, k) else (sched_update_state b ready k >>= pid_of)

    made_with :
        (res : ℤ) (l : Kernel)
        → proc_init b entry 0 s.kernel.curr_proc argv null trampoline sstatus s.kernel
          ≡ some (res, l)
        → rest_of (res, l) ≡ some r
        → Kept idle first s.kernel r.1
    made_with res l made rest = elim (Bool-cases (is_neg res)) [
      | inl q ↦
          subst (Kept idle first s.kernel)
            (ap (λ z. z.1) (some-injective (res, l) r (rw q at rest)))
            (fails idle first s b v f u entry argv null trampoline sstatus res l made q)
      | inr q ↦
          let (kept, state) =
            made-Inv idle s b v u.0 entry 0 s.kernel.curr_proc argv null trampoline sstatus res l
              made in
          let (k', ran, end) = bind-some (sched_update_state b ready l) pid_of r (rw q at rest) in
          let is : woken b l ≡ k' =
            some-injective (woken b l) k'
              (sym (wake l b kept.queue (ground (arith, state, q))) ∙ ran) in
          subst (Kept idle first s.kernel)
            (is ∙ ap (λ z. z.1) (some-injective ((k'.procs b).pid, k') r end))
            (succeeds idle first s b v f u entry argv null trampoline sstatus res l made q)
    ]
