-- ===== src/System/Family/Reaped.antt =====
-- `sys_wait` in a tree of processes.
use karg.Base.{
  ℕ, ◌≡◌, sym, ◌∙◌, ap, ◌≢◌, Bool, true, false, ◌==◌, if◌then◌else◌, has, erase, arith,
  has-erase_self, has-erase_ne, Distinct-erase,
}
use karg.Kernel.{Kernel, null, put}
use karg.Proc.{proc_deinit, pid_index}
use karg.Syscalls.{init_pid}
use karg.System.Family.{IsFamily, IsWaited, is_live}
use karg.System.Family.Moved.{IsMoved, IsFamily-moved}
use karg.System.Same.{proc_deinit-SameSched}

deinit-waiting :
    (z q : ℕ) (k : Kernel) → ((proc_deinit z k).procs q).proc_waiting ≡ (k.procs q).proc_waiting
unfolding proc_deinit
deinit-waiting z q k = ground arith

-- A zombie of `p` is freed.
module _ (idle first z p : ℕ) (k : Kernel) (f : IsFamily idle first k)
    (h : has z (k.procs p).zombie_children ≡ true) where
  abbrev freed : Kernel
  freed = proc_deinit z k

  freed-children :
      (q : ℕ)
      → (freed.procs q).children
        ≡ (if q == p then erase z (k.procs p).children else (k.procs q).children)
  unfolding proc_deinit
  freed-children q = ground (arith, (f.dead p z h).0)

  freed-zombies :
      (q : ℕ)
      → (freed.procs q).zombie_children
        ≡ (if q == p then erase z (k.procs p).zombie_children else (k.procs q).zombie_children)
  unfolding proc_deinit
  freed-zombies q = ground (arith, (f.dead p z h).0)

  freed-parent : (q : ℕ) → (freed.procs q).parent ≡ (k.procs q).parent
  unfolding proc_deinit
  freed-parent q = ground arith

  freed-pid : (q : ℕ) → (freed.procs q).pid ≡ (k.procs q).pid
  unfolding proc_deinit
  freed-pid q = ground arith

  freed-table :
      (n : ℕ)
      → freed.proc_table n ≡ (if n == pid_index (k.procs z).pid then null else k.proc_table n)
  unfolding proc_deinit
  freed-table n = ground arith

  freed-state : (q : ℕ) → (freed.procs q).state ≡ (k.procs q).state
  freed-state q = (proc_deinit-SameSched z k).states q

  no_child : (q : ℕ) → has z (k.procs q).children ≡ false
  no_child q = ground (arith, f.child q z, f.dead p z)

  elsewhere : (q : ℕ) → q ≢ p → has z (k.procs q).zombie_children ≡ false
  elsewhere q n = ground (arith, f.dead q z, f.dead p z)

  freed-IsMoved : IsMoved z p false false k freed
  freed-IsMoved = record {
    children = λ q x. ground (
      arith,
      freed-children q,
      no_child q,
      no_child p,
      has-erase_ne x z (k.procs p).children,
      has-erase_self z (k.procs p).children (f.distinct p),
    );
    zombie_children = λ q x. ground (
      arith,
      freed-zombies q,
      elsewhere q,
      has-erase_ne x z (k.procs p).zombie_children,
      has-erase_self z (k.procs p).zombie_children (f.distinct_dead p),
    );
    distinct = λ q. ground (
      arith,
      freed-children q,
      f.distinct q,
      Distinct-erase z (k.procs p).children (f.distinct p),
    );
    distinct_dead = λ q. ground (
      arith,
      freed-zombies q,
      f.distinct_dead q,
      Distinct-erase z (k.procs p).zombie_children (f.distinct_dead p),
    );
    parent = λ x. ground (arith, freed-parent x, (f.dead p z h).0);
    live = λ x. ap is_live (freed-state x) ∙ ground (arith, f.dead p z h);
    dead = λ x n s. freed-state x ∙ s;
    is_zombie = λ s. absurd (ground (arith, s));
    pid = λ x n. freed-pid x;
    pid_moved = λ e. (f.dead p z h).3 (sym (ap pid_index (freed-pid z)) ∙ e);
    table = ground (arith, freed-table init_pid, f.dead p z h);
  }

  pub freed-IsFamily : IsFamily idle first freed
  freed-IsFamily =
      IsFamily-moved idle first z p false false k freed f freed-IsMoved
        (λ e. ground (arith, f.dead p z h, f.first_lives, e))
        (λ e. ground (arith, f.dead p z h, f.idle_lives, e)) (ground (arith, f.dead p z h))
        (λ s. absurd (ground (arith, s)))
        (λ x s. absurd (ground (arith, f.child z x s, f.dead p z h)))
        (λ x s. absurd (ground (arith, f.dead z x s, f.dead p z h)))

  -- The process `p` has its answer, and the others wait on.
  pub freed-IsWaited :
      (in_wait : ℕ → Bool) → IsWaited in_wait k → IsWaited (put in_wait p false) freed
  freed-IsWaited in_wait w x i =
      ground (arith, w x, i, freed-state x, deinit-waiting z x k, freed-zombies x)
