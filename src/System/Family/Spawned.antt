-- ===== src/System/Family/Spawned.antt =====
-- `sys_proc` in a tree of processes.
use karg.Base.{
  nil_of_none, ℕ, ◌≡◌, refl, sym, ◌∙◌, ap, ◌≢◌, inl, inr, Bool, true, false, ◌&&◌, ◌++◌, [], ◌∷◌,
  ◌==◌, if◌then◌else◌, has, arith, ℤ, pos, negsuc, Bool-cases, has-append, Distinct-snoc,
}
use karg.Kernel.{Kernel, null}
use karg.Proc.{pid_index}
use karg.Proc.Pid.{new_pid-free}
use karg.Proc.Create.Made.{IsMade}
use karg.Syscalls.{init_pid}
use karg.System.{IsUnused}
use karg.System.Family.{IsFamily, IsWaited, is_live}
use karg.System.Family.Moved.{IsMoved, IsFamily-moved}

-- The block belongs to no process, also not to a zombie that nobody has waited for.
abbrev pub IsFreeBlock : ℕ → Kernel → Type 0
IsFreeBlock b k = IsUnused b k × (b ≢ null) × ((q : ℕ) → has b (k.procs q).zombie_children ≡ false)

module _ (idle first b q : ℕ) (k : Kernel) (f : IsFamily idle first k) (u : IsFreeBlock b k)
    (lq : is_live (k.procs q).state ≡ true) where
  b-dead : is_live (k.procs b).state ≡ false
  b-dead = elim u.0 [ inl e ↦ ap is_live e | inr e ↦ ap is_live e ]

  no_parent : (p : ℕ) → has b (k.procs p).children ≡ false
  no_parent p = ground (arith, f.child p b, b-dead)

  no_child : (x : ℕ) → has x (k.procs b).children ≡ false
  no_child x = ground (arith, f.child b x, b-dead)

  no_zombie : (x : ℕ) → has x (k.procs b).zombie_children ≡ false
  no_zombie x = ground (arith, f.dead b x, b-dead)

  apart : q ≢ b
  apart e = ground (arith, lq, b-dead, e)

  exists : q ≢ null
  exists e = ground (arith, lq, f.parent_exists, e)

  table : k.proc_table init_pid ≢ null
  table e = f.first_exists (sym f.table ∙ e)

  -- `l` is the kernel after `proc_init`, `m` the one after the change of state, if there is one.
  module _ (is_in : Bool) (l m : Kernel) (i : IsMade b q is_in k l)
      (live : (x : ℕ)
        → is_live (m.procs x).state ≡ (if x == b then is_in else is_live (k.procs x).state))
      (states : (x : ℕ) → x ≢ b → (m.procs x).state ≡ (k.procs x).state)
      (children : (x : ℕ) → (m.procs x).children ≡ (l.procs x).children)
      (zombies : (x : ℕ) → (m.procs x).zombie_children ≡ (l.procs x).zombie_children)
      (parents : (x : ℕ) → (m.procs x).parent ≡ (l.procs x).parent)
      (pids : (x : ℕ) → (m.procs x).pid ≡ (l.procs x).pid)
      (waits : (x : ℕ) → (m.procs x).proc_waiting ≡ (l.procs x).proc_waiting)
      (tables : m.proc_table ≡ l.proc_table) where
    made-children :
        (p : ℕ)
        → p ≢ b
        → (m.procs p).children
          ≡ (if is_in && (p == q) then (k.procs p).children ++ b ∷ [] else (k.procs p).children)
    made-children p n = children p ∙ ap (λ y. y.children) (i.others p n) ∙ ground (arith, exists)

    made-zombies : (p : ℕ) → p ≢ b → (m.procs p).zombie_children ≡ (k.procs p).zombie_children
    made-zombies p n = zombies p ∙ ap (λ y. y.zombie_children) (i.others p n) ∙ ground arith

    made-parent : (p : ℕ) → p ≢ b → (m.procs p).parent ≡ (k.procs p).parent
    made-parent p n = parents p ∙ ap (λ y. y.parent) (i.others p n) ∙ ground arith

    made-pid : (p : ℕ) → p ≢ b → (m.procs p).pid ≡ (k.procs p).pid
    made-pid p n = pids p ∙ ap (λ y. y.pid) (i.others p n) ∙ ground arith

    made-waits : (p : ℕ) → p ≢ b → (m.procs p).proc_waiting ≡ (k.procs p).proc_waiting
    made-waits p n = waits p ∙ ap (λ y. y.proc_waiting) (i.others p n) ∙ ground arith

    made-none : (m.procs b).children ≡ []
    made-none = children b ∙ nil_of_none (l.procs b).children (λ x. i.children x (no_child x))

    made-none_dead : (m.procs b).zombie_children ≡ []
    made-none_dead =
        zombies b ∙ nil_of_none (l.procs b).zombie_children (λ x. i.zombie_children x (no_zombie x))

    made-slot : pid_index (m.procs b).pid ≢ init_pid
    made-slot e = go (m.procs b).pid refl
      where
        go : (z : ℤ) → (m.procs b).pid ≡ z → ⊥
        go (pos n) h = table (
            ap k.proc_table (sym (sym (ap pid_index h) ∙ e))
            ∙ new_pid-free k.proc_table k.last_pid n (sym (pids b ∙ i.pid) ∙ h))
        go (negsuc n) h = ground (arith, h, e)

    made-above : is_in ≡ true → (m.procs b).parent ≡ q
    made-above e = parents b ∙ i.parent e

    made-slots : m.proc_table init_pid ≡ k.proc_table init_pid
    made-slots =
        ap (λ t. t init_pid) tables
        ∙ i.table init_pid
        ∙ ground (arith, made-slot, ap pid_index (pids b))

    made-IsMoved : IsMoved b (m.procs b).parent is_in false k m
    made-IsMoved = record {
      children = λ p x. elim (Bool-cases (p == b)) [
        | inl e ↦ ground (arith, e, made-none, no_child x, made-above, apart)
        | inr e ↦ ground (
          arith,
          e,
          made-children p,
          has-append x (k.procs p).children (b ∷ []),
          no_parent p,
          made-above,
        )
      ];
      zombie_children = λ p x. elim (Bool-cases (p == b)) [
        | inl e ↦ ground (arith, e, made-none_dead, no_zombie x)
        | inr e ↦ ground (arith, e, made-zombies p, u.2 p)
      ];
      distinct = λ p. elim (Bool-cases (p == b)) [
        | inl e ↦ ground (arith, e, made-none)
        | inr e ↦ ground (
          arith,
          e,
          made-children p,
          f.distinct p,
          Distinct-snoc b (k.procs p).children (f.distinct p) (no_parent p),
        )
      ];
      distinct_dead = λ p. elim (Bool-cases (p == b)) [
        | inl e ↦ ground (arith, e, made-none_dead)
        | inr e ↦ ground (arith, e, made-zombies p, f.distinct_dead p)
      ];
      parent = λ x. ground (arith, made-parent x);
      live = live;
      dead = λ x n e. states x n ∙ e;
      is_zombie = λ e. absurd (ground (arith, e));
      pid = made-pid;
      pid_moved = made-slot;
      table = made-slots;
    }

    pub made-IsFamily : IsFamily idle first m
    made-IsFamily =
        IsFamily-moved idle first b (m.procs b).parent is_in false k m f made-IsMoved
          (λ e. ground (arith, b-dead, f.first_lives, e))
          (λ e. ground (arith, b-dead, f.idle_lives, e)) u.1
          (λ e. ground (arith, made-above, apart, lq, e))
          (λ x h. absurd (ground (arith, no_child x, h)))
          (λ x h. absurd (ground (arith, no_zombie x, h)))

    pub made-IsWaited : (in_wait : ℕ → Bool) → IsWaited in_wait k → IsWaited in_wait m
    made-IsWaited in_wait w x h = elim (Bool-cases (x == b)) [
      | inl e ↦ absurd (ground (arith, e, w x h, b-dead, no_zombie (k.procs x).proc_waiting))
      | inr e ↦ ground (arith, e, w x h, states x, made-zombies x, made-waits x)
    ]
