-- ===== src/System/Family/Left.antt =====
-- `sys_exit` in a tree of processes: from where the parent is told.
use karg.Base.{
  ℕ, ◌≡◌, refl, sym, ◌∙◌, ap, ◌≢◌, inl, inr, true, false, ◌&&◌, ◌++◌, List, [], ◌∷◌, ◌==◌,
  if◌then◌else◌, has, erase, arith, has-append, has-erase_self, has-erase_ne, Distinct-erase,
  Distinct-snoc, ==_refl, Bool-cases, Bool,
}
use karg.Kernel.{Kernel, ready, curr, wait_child, zombie, put, same_state, set_state}
use karg.Proc.{unlink_tree, push_zombie, pid_index}
use karg.Sched.Resched.{switched_to}
use karg.Sched.Update.{woken}
use karg.Syscalls.{init_pid}
use karg.System.Family.{IsFamily, IsWaited, is_live}
use karg.System.Family.Moved.{IsMoved, IsFamily-moved}

-- The kernel after `notify_parent` for the child `p` of `q`.
abbrev pub moved : ℕ → ℕ → Kernel → Kernel
moved p q k = push_zombie q p (unlink_tree p k)

abbrev pub told : ℕ → ℕ → Kernel → Kernel
told p q k =
    let k₁ = moved p q k in
    record k₁ { procs = put k₁.procs q (record (k₁.procs q) { proc_waiting = p }) }

-- What that changes: the lists of `q`, and `q` is woken if it waits for a child.
pub record IsTold (p q : ℕ) (k k' : Kernel) : Type 0 where
  pub children :
      (r : ℕ)
      → (k'.procs r).children
        ≡ (if r == q then erase p (k.procs q).children else (k.procs r).children)
  pub zombie_children :
      (r : ℕ)
      → (k'.procs r).zombie_children ≡ (
          if r == q
          then erase p (k.procs q).zombie_children ++ p ∷ []
          else (k.procs r).zombie_children)
  pub parent : (r : ℕ) → (k'.procs r).parent ≡ (k.procs r).parent
  pub pid : (r : ℕ) → (k'.procs r).pid ≡ (k.procs r).pid
  pub table : k'.proc_table ≡ k.proc_table
  pub states : (r : ℕ) → r ≢ q → (k'.procs r).state ≡ (k.procs r).state
  pub parent_state :
      (k'.procs q).state
      ≡ (if same_state (k.procs q).state wait_child then ready else (k.procs q).state)
  pub proc_waiting : (r : ℕ) → r ≢ q → (k'.procs r).proc_waiting ≡ (k.procs r).proc_waiting
  pub parent_waiting :
      (k'.procs q).proc_waiting
      ≡ (if same_state (k.procs q).state wait_child then p else (k.procs q).proc_waiting)

module _ (p q : ℕ) (k : Kernel) (e : (k.procs p).parent ≡ q) (n : p ≢ q) where
  pub moved-IsTold : same_state (k.procs q).state wait_child ≡ false → IsTold p q k (moved p q k)
  moved-IsTold w = record {
    children = λ r. ground (arith, e);
    zombie_children = λ r. ground (arith, e);
    parent = λ r. ground (arith, e);
    pid = λ r. ground (arith, e);
    table = refl;
    states = λ r m. ground (arith, e);
    parent_state = ground (arith, e, w);
    proc_waiting = λ r m. ground (arith, e);
    parent_waiting = ground (arith, e, w);
  }

  pub told-IsTold :
      same_state (k.procs q).state wait_child ≡ true → IsTold p q k (woken q (told p q k))
  told-IsTold w = record {
    children = λ r. ground (arith, e);
    zombie_children = λ r. ground (arith, e);
    parent = λ r. ground (arith, e);
    pid = λ r. ground (arith, e);
    table = refl;
    states = λ r m. ground (arith, e);
    parent_state = ground (arith, e, w);
    proc_waiting = λ r m. ground (arith, e);
    parent_waiting = ground (arith, e, w);
  }

-- The child then becomes a zombie, and the front `a` of the ready queue runs.
module _ (p q a : ℕ) (behind : List ℕ) (k k' : Kernel) (e : (k.procs p).parent ≡ q) (n : p ≢ q)
    (t : IsTold p q k k') (c : k'.curr_proc ≡ p) (r : (k'.procs a).state ≡ ready) (o : a ≢ p) where
  abbrev last : Kernel
  last = switched_to a behind (set_state k' k'.curr_proc zombie)

  pub last-state :
      (x : ℕ)
      → (last.procs x).state
        ≡ (if x == a then curr else if x == p then zombie else (k'.procs x).state)
  last-state x = ground (arith, c, o)

  last-children : (x : ℕ) → (last.procs x).children ≡ (k'.procs x).children
  last-children x = ground arith

  last-zombies : (x : ℕ) → (last.procs x).zombie_children ≡ (k'.procs x).zombie_children
  last-zombies x = ground arith

  last-parent : (x : ℕ) → (last.procs x).parent ≡ (k'.procs x).parent
  last-parent x = ground arith

  last-pid : (x : ℕ) → (last.procs x).pid ≡ (k'.procs x).pid
  last-pid x = ground arith

  last-waiting : (x : ℕ) → (last.procs x).proc_waiting ≡ (k'.procs x).proc_waiting
  last-waiting x = ground arith

  pub state-at :
      (x : ℕ)
      → (k'.procs x).state
        ≡ (if (x == q) && same_state (k.procs q).state wait_child then ready else (k.procs x).state)
  state-at x = ground (arith, t.states x, t.parent_state)

  module _ (idle first : ℕ) (f : IsFamily idle first k) (l : is_live (k.procs p).state ≡ true)
      (h : has p (k.procs q).children ≡ true) where
    not_dead : (x : ℕ) → has p (k.procs x).zombie_children ≡ false
    not_dead x = ground (arith, f.dead x p, l)

    last-live :
        (x : ℕ)
        → is_live (last.procs x).state ≡ (if x == p then false else is_live (k.procs x).state)
    last-live x = ground (arith, last-state x, state-at x, state-at a, r, o)

    pub last-IsMoved : IsMoved p q false true k last
    last-IsMoved = record {
      children = λ s x. ground (
        arith,
        last-children s,
        t.children s,
        f.child s p,
        e,
        has-erase_self p (k.procs q).children (f.distinct q),
        has-erase_ne x p (k.procs q).children,
      );
      zombie_children = λ s x. ground (
        arith,
        last-zombies s,
        t.zombie_children s,
        not_dead s,
        has-append x (erase p (k.procs q).zombie_children) (p ∷ []),
        has-erase_self p (k.procs q).zombie_children (f.distinct_dead q),
        has-erase_ne x p (k.procs q).zombie_children,
      );
      distinct = λ s. ground (
        arith,
        last-children s,
        t.children s,
        f.distinct s,
        Distinct-erase p (k.procs q).children (f.distinct q),
      );
      distinct_dead = λ s. ground (
        arith,
        last-zombies s,
        t.zombie_children s,
        f.distinct_dead s,
        Distinct-snoc p (erase p (k.procs q).zombie_children)
            (Distinct-erase p (k.procs q).zombie_children (f.distinct_dead q)),
        has-erase_self p (k.procs q).zombie_children (f.distinct_dead q),
      );
      parent = λ x. ground (arith, last-parent x, t.parent x, e);
      live = λ x. last-live x;
      dead = λ x m z. ground (arith, last-state x, state-at x, state-at a, r, z);
      is_zombie = λ z. ground (arith, last-state p, o);
      pid = λ x m. last-pid x ∙ t.pid x;
      pid_moved = λ z. (f.child q p h).3 (sym (ap pid_index (last-pid p ∙ t.pid p)) ∙ z);
      table = ap (λ u. u init_pid) t.table;
    }

    pub last-IsFamily :
        ((x : ℕ) → has x (k.procs p).children ≡ false)
        → ((x : ℕ) → has x (k.procs p).zombie_children ≡ false)
        → p ≢ first
        → p ≢ idle
        → IsFamily idle first last
    last-IsFamily no_child no_zombie nf ni =
        IsFamily-moved idle first p q false true k last f last-IsMoved nf ni
          (λ z. ground (arith, l, f.parent_exists, z)) (λ z. (n, (f.child q p h).1))
          (λ x z. ground (arith, no_child x, z)) (λ x z. ground (arith, no_zombie x, z))

    pub last-IsWaited :
        (in_wait : ℕ → Bool) → in_wait p ≡ false → IsWaited in_wait k → IsWaited in_wait last
    last-IsWaited in_wait z w x i = elim (w x i) [
      | inl s ↦ elim (Bool-cases (x == q)) [
        | inl b ↦ inr (
            ground (
              arith,
              s,
              b,
              last-zombies x,
              t.zombie_children x,
              last-waiting x,
              t.parent_waiting,
              has-append p (erase p (k.procs q).zombie_children) (p ∷ []),
              ==_refl p,
            ))
        | inr b ↦ inl (ground (arith, s, b, last-state x, state-at x, state-at a, r, z, i))
      ]
      | inr s ↦
          let pw = (k.procs x).proc_waiting in
          elim (Bool-cases ((x == q) && same_state (k.procs q).state wait_child)) [
            | inl b ↦ inr (
                ground (
                  arith,
                  b,
                  last-zombies x,
                  t.zombie_children x,
                  last-waiting x,
                  t.parent_waiting,
                  has-append p (erase p (k.procs q).zombie_children) (p ∷ []),
                  ==_refl p,
                ))
            | inr b ↦ inr (
                ground (
                  arith,
                  s,
                  b,
                  last-zombies x,
                  t.zombie_children x,
                  last-waiting x,
                  t.parent_waiting,
                  t.proc_waiting x,
                  not_dead x,
                  has-erase_ne pw p (k.procs q).zombie_children,
                  has-append pw (erase p (k.procs q).zombie_children) (p ∷ []),
                ))
          ]
    ]
