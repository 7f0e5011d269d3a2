-- ===== src/System/Family/Exited.antt =====
-- `sys_exit` in a tree of processes.
use karg.Base.{
  nil_of_none, ℕ, ◌+◌, ◌%◌, ◌^◌, ◌≡◌, refl, sym, ◌∙◌, ap, subst, ◌≢◌, inl, inr, Bool, true, false,
  Option, some, none, ◌>>=◌, [], ◌==◌, if◌then◌else◌, has, arith, length, Bool-cases,
}
use karg.Kernel.{Kernel, ready, wait_child, zombie, null, same_state, set_state}
use karg.Sched.Resched.{ready_of_front, switched_to}
use karg.Sched.Same.{SameSched, SameSched-trans}
use karg.Sched.{sched_update_state}
use karg.Sched.Update.{exit, wake, woken}
use karg.Syscalls.{set_exit_status, notify_parent, adopt_all, sys_exit}
use karg.System.{System, with_kernel}
use karg.System.Exits.{exit_status-SameSched, notify_parent-Inv}
use karg.System.Family.{IsFamily, IsWaited, SameFamily, IsFamily-same, IsWaited-same, is_live}
use karg.System.Family.Orphans.{adopts_children, adopts_zombies, IsAdopted}
use karg.System.Family.Left.{
  IsTold, moved, told, moved-IsTold, told-IsTold, last-IsFamily, last-IsWaited, last-IsMoved,
  last-state, state-at,
}
use karg.System.Inv.{Inv, front}
use karg.System.Same.{Inv-same}

exit_status-SameFamily : (p status : ℕ) (k : Kernel) → SameFamily k (set_exit_status p status k)
exit_status-SameFamily p status k = record {
  parent = λ q. ground arith;
  children = λ q. ground arith;
  zombie_children = λ q. ground arith;
  pid = λ q. ground arith;
  proc_waiting = λ q. ground arith;
  live = λ q. ground arith;
  dead = λ q h. ground (arith, h);
  waiting = λ q h. ground (arith, h);
  table = refl;
}

-- The parent can be told.
notify_parent-IsTold :
    (idle : ℕ) (s : System) (p q : ℕ)
    → Inv idle s
    → (s.kernel.procs p).parent ≡ q
    → p ≢ q
    → q ≢ null
    → (k : Kernel) × (notify_parent p q s.kernel ≡ some k) × IsTold p q s.kernel k
unfolding notify_parent
notify_parent-IsTold idle s p q v e n z =
    let k = s.kernel in
    let state : ((moved p q k).procs q).state ≡ (k.procs q).state = ground arith in
    let state' : ((told p q k).procs q).state ≡ (k.procs q).state = ground arith in
    elim (Bool-cases (same_state (k.procs q).state wait_child)) [
      | inl w ↦
          let same : SameSched k (told p q k) = record {
            states = λ r. ground arith;
            ready_queue = refl;
            curr_proc = refl;
            timers = refl;
          } in
          let asleep : ((told p q k).procs q).state ≢ ready = ground (arith, state', w) in
          let ran = wake (told p q k) q (Inv-same idle s (told p q k) same v).queue asleep in
          (woken q (told p q k), ground (arith, state, w, ran), told-IsTold p q k e n w)
      | inr w ↦ (moved p q k, ground (arith, state, w), moved-IsTold p q k e n w)
    ]

-- What an exit of `p` leaves: `p` is a zombie of its parent, and its orphans are the init process's.
pub record IsExited (idle first p : ℕ) (k k' : Kernel) : Type 0 where
  pub family : IsFamily idle first k'
  pub waited : (in_wait : ℕ → Bool) → in_wait p ≡ false → IsWaited in_wait k → IsWaited in_wait k'
  pub exited : (k'.procs p).state ≡ zombie
  pub parent : (k'.procs p).parent ≡ (k.procs p).parent
  pub listed : has p (k'.procs (k.procs p).parent).zombie_children ≡ true
  pub told : (k'.procs (k.procs p).parent).state ≢ wait_child

-- From where the orphans have been adopted.
tells_and_ends :
    (idle first p : ℕ) (s : System)
    → s.kernel.curr_proc ≡ p
    → Inv idle s
    → IsFamily idle first s.kernel
    → p ≢ idle
    → p ≢ first
    → (s.kernel.procs p).children ≡ []
    → ((x : ℕ) → has x (s.kernel.procs p).zombie_children ≡ false)
    → let q = (s.kernel.procs p).parent in
      (k₄ : Kernel) × (k' : Kernel) × (q ≢ null)
      × (notify_parent p q s.kernel ≡ some k₄)
      × (sched_update_state p zombie k₄ ≡ some k')
      × IsExited idle first p s.kernel k'
tells_and_ends idle first p s here v f ni nf no_child no_zombie =
    let k = s.kernel in
    let q = (k.procs p).parent in
    let lives : is_live (k.procs p).state ≡ true =
      subst (λ x. is_live (k.procs x).state ≡ true) here (ap is_live v.running.is_curr) in
    let listed = f.linked p lives nf ni in
    let (_, q_lives, _, _, differs) = f.child q p listed in
    let exists : q ≢ null = λ e. ground (arith, q_lives, f.parent_exists, e) in
    let (k₄, ran, t) = notify_parent-IsTold idle s p q v refl differs exists in
    let (v₄, same) = notify_parent-Inv idle s p q k₄ v exists ran in
    let c : k₄.curr_proc ≡ p = same ∙ here in
    let (a, behind, e) = front idle (with_kernel s k₄) v₄ (λ z. ni (sym c ∙ z)) in
    let (ends, _, _) = exit k₄ a behind v₄.queue v₄.running e in
    let a_ready = ready_of_front k₄ a behind v₄.queue e in
    let other : a ≢ p = λ z. ground (arith, a_ready, v₄.running.is_curr, z, c) in
    let m =
      last-IsMoved p q a behind k k₄ refl differs t c a_ready other idle first f lives listed in
    (
      k₄,
      switched_to a behind (set_state k₄ k₄.curr_proc zombie),
      exists,
      ran,
      subst
          (λ x.
            sched_update_state x zombie k₄
            ≡ some (switched_to a behind (set_state k₄ k₄.curr_proc zombie)))
          c ends,
      record {
        family =
            last-IsFamily p q a behind k k₄ refl differs t c a_ready other idle first f lives listed
              (λ x. ap (has x) no_child) no_zombie nf ni;
        waited = λ in_wait w.
            last-IsWaited p q a behind k k₄ refl differs t c a_ready other idle first f lives listed
              in_wait w;
        exited = m.is_zombie refl;
        parent = ground (arith, m.parent p);
        listed = ground (arith, m.zombie_children q p);
        told = ground (
          arith,
          last-state p q a behind k k₄ refl differs t c a_ready other q,
          state-at p q a behind k k₄ refl differs t c a_ready other q,
        );
      },
    )

-- The adoptions leave the rest of what an exit looks at alone.
module _ (p : ℕ) (k l : Kernel) (a : IsAdopted p k l) where
  IsWaited-adopted :
      (in_wait : ℕ → Bool) → in_wait p ≡ false → IsWaited in_wait k → IsWaited in_wait l
  IsWaited-adopted in_wait n w x i = ground (
    arith,
    w x i,
    n,
    i,
    a.sched.states x,
    a.proc_waiting x,
    a.zombie_children x (k.procs x).proc_waiting,
  )

bind-of :
    (m : Option Kernel) (f : Kernel → Option Kernel) (a : Kernel) (r : Option Kernel)
    → m ≡ some a
    → f a ≡ r
    → (m >>= f) ≡ r
bind-of m f a r e h = rw e h

tells_parent :
    (p q : ℕ) (k k' : Kernel)
    → q ≢ null
    → notify_parent p q k ≡ some k'
    → (if q == null then none else notify_parent p q k) ≡ some k'
tells_parent p q k k' n h = let n' : (q == null) ≡ false = ground (arith, n) in rw n' h

-- The parts of a `sys_exit` that are defined make one that is.
sys_exit_ran :
    (status : ℕ) (k k₂ k₃ k₄ k' : Kernel)
    → let p = k.curr_proc in
      let k₁ = set_exit_status p (status % 2 ^ 32) k in
      adopt_all (length (k₁.procs p).children + 1) (λ x. x.children) p k₁ ≡ some k₂
      → adopt_all (length (k₂.procs p).zombie_children + 1) (λ x. x.zombie_children) p k₂ ≡ some k₃
      → (k₃.procs p).parent ≢ null
      → notify_parent p (k₃.procs p).parent k₃ ≡ some k₄
      → sched_update_state p zombie k₄ ≡ some k'
      → sys_exit status k ≡ some k'
unfolding sys_exit
sys_exit_ran status k k₂ k₃ k₄ k' r₂ r₃ n r₄ r' =
    let p = k.curr_proc in
    bind-of _ _ k₂ (some k') r₂ (
      bind-of _ _ k₃ (some k') r₃ (
        bind-of _ (sched_update_state p zombie) k₄ (some k')
          (tells_parent p (k₃.procs p).parent k₃ k₄ n r₄) r'))

-- A process other than the idle one and the init process exits: that is defined.
pub sys_exit-IsExited :
    (idle first : ℕ) (s : System) (status : ℕ)
    → Inv idle s
    → IsFamily idle first s.kernel
    → s.kernel.curr_proc ≢ idle
    → s.kernel.curr_proc ≢ first
    → (k' : Kernel) × (sys_exit status s.kernel ≡ some k')
      × IsExited idle first s.kernel.curr_proc s.kernel k'
sys_exit-IsExited idle first s status v f ni nf =
    let k = s.kernel in
    let p = k.curr_proc in
    let st = status % 2 ^ 32 in
    let k₁ = set_exit_status p st k in
    let same₁ = exit_status-SameFamily p st k in
    let f₁ = IsFamily-same k k₁ same₁ idle first f in
    let (k₂, ran₂, empty₂, f₂, a₂) = adopts_children idle first p nf k₁ f₁ in
    let (k₃, ran₃, empty₃, f₃, a₃) = adopts_zombies idle first p nf k₂ f₂ in
    let sched₃ : SameSched k k₃ =
      SameSched-trans (exit_status-SameSched p st k) (SameSched-trans a₂.sched a₃.sched) in
    let v₃ = Inv-same idle s k₃ sched₃ v in
    let p_parent = a₃.parent ∙ a₂.parent ∙ same₁.parent p in
    let no_child : (k₃.procs p).children ≡ [] =
      nil_of_none _ (λ x. a₃.children x (ap (has x) empty₂)) in
    let (k₄, k', exists, ran₄, ran', done) =
      tells_and_ends idle first p (with_kernel s k₃) sched₃.curr_proc v₃ f₃ ni nf no_child
        (λ x. ap (has x) empty₃) in
    (
      k',
      sys_exit_ran status k k₂ k₃ k₄ k' ran₂ ran₃ exists ran₄ ran',
      record {
        family = done.family;
        waited = λ in_wait z w. done.waited in_wait z (
            IsWaited-adopted p k₂ k₃ a₃ in_wait z
              (IsWaited-adopted p k₁ k₂ a₂ in_wait z (IsWaited-same k k₁ same₁ in_wait w)));
        exited = done.exited;
        parent = done.parent ∙ p_parent;
        listed = subst (λ q. has p (k'.procs q).zombie_children ≡ true) p_parent done.listed;
        told = subst (λ q. (k'.procs q).state ≢ wait_child) p_parent done.told;
      },
    )
