-- ===== src/System/Family/Moved.antt =====
-- One process moves in the tree.
use karg.Base.{
  ◌||◌, ℕ, ◌≡◌, ◌∙◌, ◌≢◌, Bool, true, ◌&&◌, ◌==◌, if◌then◌else◌, Distinct, has, arith, Bool-cases,
  inl, inr,
}
use karg.Kernel.{Kernel, zombie, null}
use karg.Proc.{pid_index}
use karg.Syscalls.{init_pid}
use karg.System.Family.{IsFamily, is_live}

-- `c` comes to the children of `q`, or to its zombies, or leaves the tree; everything else stays.
pub record IsMoved (c q : ℕ) (is_child is_dead : Bool) (k k' : Kernel) : Type 0 where
  pub children :
      (p x : ℕ)
      → has x (k'.procs p).children
        ≡ (if x == c then (p == q) && is_child else has x (k.procs p).children)
  pub zombie_children :
      (p x : ℕ)
      → has x (k'.procs p).zombie_children
        ≡ (if x == c then (p == q) && is_dead else has x (k.procs p).zombie_children)
  pub distinct : (p : ℕ) → Distinct (k'.procs p).children
  pub distinct_dead : (p : ℕ) → Distinct (k'.procs p).zombie_children
  pub parent : (x : ℕ) → (k'.procs x).parent ≡ (if x == c then q else (k.procs x).parent)
  pub live :
      (x : ℕ)
      → is_live (k'.procs x).state ≡ (if x == c then is_child else is_live (k.procs x).state)
  pub dead : (x : ℕ) → x ≢ c → (k.procs x).state ≡ zombie → (k'.procs x).state ≡ zombie
  pub is_zombie : is_dead ≡ true → (k'.procs c).state ≡ zombie
  pub pid : (x : ℕ) → x ≢ c → (k'.procs x).pid ≡ (k.procs x).pid
  pub pid_moved : pid_index (k'.procs c).pid ≢ init_pid
  pub table : k'.proc_table init_pid ≡ k.proc_table init_pid

-- If the new parent, should there be one, lives and the process is neither the init process nor the idle one nor the parent
-- of anything that is still in the tree, the tree stays one.
pub IsFamily-moved :
    (idle first c q : ℕ) (is_child is_dead : Bool) (k k' : Kernel)
    → IsFamily idle first k
    → IsMoved c q is_child is_dead k k'
    → c ≢ first
    → c ≢ idle
    → c ≢ null
    → ((is_child || is_dead) ≡ true → (c ≢ q) × (is_live (k.procs q).state ≡ true))
    → ((x : ℕ) → has x (k.procs c).children ≡ true → is_child ≡ true)
    → ((x : ℕ) → has x (k.procs c).zombie_children ≡ true → is_child ≡ true)
    → IsFamily idle first k'
IsFamily-moved idle first c q is_child is_dead k k' f m nf ni nn lq ec ez = record {
  table = m.table ∙ f.table;
  first_exists = f.first_exists;
  first_lives = ground (arith, m.live first, f.first_lives);
  idle_lives = ground (arith, m.live idle, f.idle_lives);
  first_root = ground (arith, m.parent first, f.first_root);
  idle_root = ground (arith, m.parent idle, f.idle_root);
  parent_exists = ground (arith, m.live null, f.parent_exists);
  child = λ p x h. elim (Bool-cases (x == c)) [
    | inl e ↦ ground (arith, m.children p x, m.parent x, m.live p, m.live x, m.pid_moved, h, e, lq)
    | inr e ↦
        ground
          (arith, m.children p x, m.parent x, m.live p, m.live x, m.pid x, h, e, f.child p x, ec x)
  ];
  dead = λ p x h. elim (Bool-cases (x == c)) [
    | inl e ↦
        ground
          (arith, m.zombie_children p x, m.parent x, m.live p, m.is_zombie, m.pid_moved, h, e, lq)
    | inr e ↦ ground (
      arith,
      m.zombie_children p x,
      m.parent x,
      m.live p,
      m.dead x,
      m.pid x,
      h,
      e,
      f.dead p x,
      ez x,
    )
  ];
  distinct = m.distinct;
  distinct_dead = m.distinct_dead;
  linked = λ x l n o. elim (Bool-cases (x == c)) [
    | inl e ↦ ground (arith, m.children (k'.procs x).parent x, m.parent x, m.live x, l, e)
    | inr e ↦
        ground (arith, m.children (k'.procs x).parent x, m.parent x, m.live x, l, e, f.linked x)
  ];
}
