-- ===== src/System/Family.antt =====
-- The tree of processes: the lists `children` and `zombie_children` against the `parent` pointers and
-- the states, for src/proc.c and the system calls `exit`, `wait` and `proc`.
pub mod Moved
pub mod Adopted
pub mod Orphans
pub mod Left
pub mod Exited
pub mod Scheduled
pub mod Reaped
pub mod Waited
pub mod Spawned
pub mod Started
use karg.Base.{
  ℕ, ◌≡◌, refl, sym, ◌∙◌, ap, ◌≢◌, ◌⊎◌, Bool, true, false, List, Distinct, has, arith, ℤ,
}
use karg.Kernel.{Kernel, ProcState, init, wait_child, zombie, null}
use karg.Proc.{pid_index}
use karg.Syscalls.{init_pid}

-- The process has begun and has not exited.
abbrev pub is_live : ProcState → Bool
is_live init = false
is_live zombie = false
is_live _ = true

-- Whatever stands on a list of `q` has the parent `q`, which lives; the children live, none is its own
-- parent, and the zombies are zombies; every living process but the init process `first` and the idle process stands on its
-- parent's list of children; and the slot `init_pid` of the process table is the init process's.
pub record IsFamily (idle first : ℕ) (k : Kernel) : Type 0 where
  pub table : k.proc_table init_pid ≡ first
  pub first_exists : first ≢ null
  pub first_lives : is_live (k.procs first).state ≡ true
  pub idle_lives : is_live (k.procs idle).state ≡ true
  pub first_root : (k.procs first).parent ≡ null
  pub idle_root : (k.procs idle).parent ≡ null
  pub parent_exists : is_live (k.procs null).state ≡ false
  pub child :
      (q c : ℕ)
      → has c (k.procs q).children ≡ true
      → ((k.procs c).parent ≡ q)
        × (is_live (k.procs q).state ≡ true)
        × (is_live (k.procs c).state ≡ true)
        × (pid_index (k.procs c).pid ≢ init_pid)
        × (c ≢ q)
  pub dead :
      (q c : ℕ)
      → has c (k.procs q).zombie_children ≡ true
      → ((k.procs c).parent ≡ q)
        × (is_live (k.procs q).state ≡ true)
        × ((k.procs c).state ≡ zombie)
        × (pid_index (k.procs c).pid ≢ init_pid)
        × (c ≢ null)
  pub distinct : (q : ℕ) → Distinct (k.procs q).children
  pub distinct_dead : (q : ℕ) → Distinct (k.procs q).zombie_children
  pub linked :
      (c : ℕ)
      → is_live (k.procs c).state ≡ true
      → c ≢ first
      → c ≢ idle
      → has c (k.procs (k.procs c).parent).children ≡ true

-- A process inside `sys_wait`, of which `in_wait` tells, still waits for a child, or has been told of
-- one that is among its zombies.
abbrev pub IsWaited : (ℕ → Bool) → Kernel → Type 0
IsWaited in_wait k =
    (p : ℕ)
    → in_wait p ≡ true
    → ((k.procs p).state ≡ wait_child)
      ⊎ (has (k.procs p).proc_waiting (k.procs p).zombie_children ≡ true)

-- Parts of an operation that leave the tree alone.
pub record SameFamily (k k' : Kernel) : Type 0 where
  pub parent : (p : ℕ) → (k'.procs p).parent ≡ (k.procs p).parent
  pub children : (p : ℕ) → (k'.procs p).children ≡ (k.procs p).children
  pub zombie_children : (p : ℕ) → (k'.procs p).zombie_children ≡ (k.procs p).zombie_children
  pub pid : (p : ℕ) → (k'.procs p).pid ≡ (k.procs p).pid
  pub proc_waiting : (p : ℕ) → (k'.procs p).proc_waiting ≡ (k.procs p).proc_waiting
  pub live : (p : ℕ) → is_live (k'.procs p).state ≡ is_live (k.procs p).state
  pub dead : (p : ℕ) → (k.procs p).state ≡ zombie → (k'.procs p).state ≡ zombie
  pub waiting : (p : ℕ) → (k.procs p).state ≡ wait_child → (k'.procs p).state ≡ wait_child
  pub table : k'.proc_table ≡ k.proc_table

-- What looks at a kernel through these fields cannot tell the two apart.
module _ (k k' : Kernel) (s : SameFamily k k') where
  pub IsFamily-same : (idle first : ℕ) → IsFamily idle first k → IsFamily idle first k'
  IsFamily-same idle first f = record {
    table = ap (λ t. t init_pid) s.table ∙ f.table;
    first_exists = f.first_exists;
    first_lives = s.live first ∙ f.first_lives;
    idle_lives = s.live idle ∙ f.idle_lives;
    first_root = s.parent first ∙ f.first_root;
    idle_root = s.parent idle ∙ f.idle_root;
    parent_exists = s.live null ∙ f.parent_exists;
    child = λ q c h.
        let (p, l, a, i, n) = f.child q c (sym (ap (has c) (s.children q)) ∙ h) in
        (
          s.parent c ∙ p,
          s.live q ∙ l,
          s.live c ∙ a,
          (λ e. i (sym (ap pid_index (s.pid c)) ∙ e)),
          n,
        );
    dead = λ q c h.
        let (p, l, a, i, n) = f.dead q c (sym (ap (has c) (s.zombie_children q)) ∙ h) in
        (s.parent c ∙ p, s.live q ∙ l, s.dead c a, (λ e. i (sym (ap pid_index (s.pid c)) ∙ e)), n);
    distinct = λ q. rw (s.children q) (f.distinct q);
    distinct_dead = λ q. rw (s.zombie_children q) (f.distinct_dead q);
    linked = λ c l n m.
        rw (s.parent c) (rw (s.children (k.procs c).parent) (f.linked c (sym (s.live c) ∙ l) n m));
  }

  pub IsWaited-same : (in_wait : ℕ → Bool) → IsWaited in_wait k → IsWaited in_wait k'
  IsWaited-same in_wait w p i =
      ground (arith, w p i, s.waiting p, s.proc_waiting p, s.zombie_children p)
