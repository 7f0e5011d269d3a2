-- ===== src/System/Family/Adopted.antt =====
-- `proc_adopt` in a tree of processes.
use karg.Base.{
  ℕ, ◌≡◌, sym, ◌∙◌, ap, ◌≢◌, ◌⊎◌, inl, inr, true, false, ◌&&◌, ◌++◌, not, [], ◌∷◌, ◌==◌,
  if◌then◌else◌, has, erase, arith, has-append, has-erase_self, has-erase_ne, Distinct-erase,
  Distinct-snoc,
}
use karg.Kernel.{Kernel, zombie, null, same_state}
use karg.Proc.{proc_adopt, pid_index}
use karg.Sched.Resched.{same_state-eq}
use karg.Syscalls.{init_pid}
use karg.System.Family.{IsFamily, is_live}
use karg.System.Same.{proc_adopt-SameSched}
use karg.System.Family.Moved.{IsMoved, IsFamily-moved}

-- `c` is a child of `p`, or one of its zombies.
abbrev pub IsIn : ℕ → ℕ → Kernel → Type 0
IsIn c p k = (has c (k.procs p).children ≡ true) ⊎ (has c (k.procs p).zombie_children ≡ true)

module _ (idle first c p : ℕ) (k : Kernel) (f : IsFamily idle first k) (i : IsIn c p k)
    (n : p ≢ first) where
  parent-c : (k.procs c).parent ≡ p
  parent-c = ground (arith, f.child p c, f.dead p c, i)

  p-lives : is_live (k.procs p).state ≡ true
  p-lives = ground (arith, f.child p c, f.dead p c, i)

  p-exists : p ≢ null
  p-exists e = ground (arith, p-lives, f.parent_exists, e)

  children-apart : (q : ℕ) → q ≢ p → has c (k.procs q).children ≡ false
  children-apart q m = ground (arith, f.child q c, parent-c)

  pub zombies-apart : (q : ℕ) → q ≢ p → has c (k.procs q).zombie_children ≡ false
  zombies-apart q m = ground (arith, f.dead q c, parent-c)

  pub adopted-children :
      (q : ℕ)
      → ((proc_adopt first c k).procs q).children ≡ (
          if q == p
          then erase c (k.procs p).children
          else if (q == first) && not (same_state (k.procs c).state zombie)
          then (k.procs first).children ++ c ∷ []
          else (k.procs q).children)
  unfolding proc_adopt
  adopted-children q = ground (arith, parent-c, n)

  pub adopted-zombies :
      (q : ℕ)
      → ((proc_adopt first c k).procs q).zombie_children ≡ (
          if q == p
          then erase c (k.procs p).zombie_children
          else if (q == first) && same_state (k.procs c).state zombie
          then (k.procs first).zombie_children ++ c ∷ []
          else (k.procs q).zombie_children)
  unfolding proc_adopt
  adopted-zombies q = ground (arith, parent-c, n)

  adopted-state : (x : ℕ) → ((proc_adopt first c k).procs x).state ≡ (k.procs x).state
  adopted-state x = (proc_adopt-SameSched first c k).states x

  pub adopted-pid : (x : ℕ) → ((proc_adopt first c k).procs x).pid ≡ (k.procs x).pid
  unfolding proc_adopt
  adopted-pid x = ground arith

  c-live : is_live (k.procs c).state ≡ not (same_state (k.procs c).state zombie)
  c-live = ground (arith, f.child p c, f.dead p c, i)

  c-pid : pid_index (k.procs c).pid ≢ init_pid
  c-pid = elim i [ inl h ↦ (f.child p c h).3 | inr h ↦ (f.dead p c h).3 ]

  pub adopted-IsMoved :
      IsMoved c first
        (not (same_state (k.procs c).state zombie))
        (same_state (k.procs c).state zombie)
        k
        (proc_adopt first c k)
  unfolding proc_adopt
  adopted-IsMoved = record {
    children = λ q x. ground (
      arith,
      adopted-children q,
      has-append x (k.procs first).children (c ∷ []),
      children-apart q,
      has-erase_self c (k.procs p).children (f.distinct p),
      has-erase_ne x c (k.procs p).children,
    );
    zombie_children = λ q x. ground (
      arith,
      adopted-zombies q,
      has-append x (k.procs first).zombie_children (c ∷ []),
      zombies-apart q,
      has-erase_self c (k.procs p).zombie_children (f.distinct_dead p),
      has-erase_ne x c (k.procs p).zombie_children,
    );
    distinct = λ q. ground (
      arith,
      adopted-children q,
      f.distinct q,
      Distinct-erase c (k.procs p).children (f.distinct p),
      Distinct-snoc c (k.procs first).children (f.distinct first),
      children-apart first,
    );
    distinct_dead = λ q. ground (
      arith,
      adopted-zombies q,
      f.distinct_dead q,
      Distinct-erase c (k.procs p).zombie_children (f.distinct_dead p),
      Distinct-snoc c (k.procs first).zombie_children (f.distinct_dead first),
      zombies-apart first,
    );
    parent = λ x. ground arith;
    live = λ x. ap is_live (adopted-state x) ∙ ground (arith, c-live);
    dead = λ x m h. adopted-state x ∙ h;
    is_zombie = λ h. adopted-state c ∙ same_state-eq _ zombie h;
    pid = λ x m. adopted-pid x;
    pid_moved = λ e. c-pid (sym (ap pid_index (adopted-pid c)) ∙ e);
    table = ground arith;
  }

  pub adopted-IsFamily : IsFamily idle first (proc_adopt first c k)
  adopted-IsFamily =
      IsFamily-moved idle first c first (not (same_state (k.procs c).state zombie))
        (same_state (k.procs c).state zombie) k (proc_adopt first c k) f adopted-IsMoved
        (λ e. p-exists (sym parent-c ∙ ap (λ x. (k.procs x).parent) e ∙ f.first_root))
        (λ e. p-exists (sym parent-c ∙ ap (λ x. (k.procs x).parent) e ∙ f.idle_root))
        (ground (arith, f.child p c, f.dead p c, f.parent_exists, i))
        (λ z. (
          (λ e. p-exists (sym parent-c ∙ ap (λ x. (k.procs x).parent) e ∙ f.first_root)),
          f.first_lives,
        ))
        (λ x h. ground (arith, f.child c x h, c-live)) (λ x h. ground (arith, f.dead c x h, c-live))
