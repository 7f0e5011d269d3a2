-- ===== src/System/World/Booted.antt =====
-- The tree of processes after `kmain`, and every run after it.
use karg.Base.{
  ◌||◌, ==_refl, ℕ, ◌-◌, ◌≡◌, refl, sym, ◌∙◌, ap, subst, ◌≢◌, true, false, not, some, List, [], ◌∷◌,
  ◌==◌, if◌then◌else◌, has, arith, ℤ, pos, is_neg, Bool-cases, inl, inr,
}
use karg.Kernel.{Kernel, init, ready, null, proc_table_size}
use karg.Proc.{new_pid, pid_index}
use karg.Proc.Pid.{new_pid-first, new_pid-second}
use karg.Proc.Create.{proc_init}
use karg.Proc.Create.Made.{IsMade, proc_init-IsMade}
use karg.Sched.Resched.{switched_to}
use karg.Sched.Update.{woken}
use karg.Sem.{Sem}
use karg.Startup.{started, sched_init, kmain}
use karg.System.Boot.{kmain-Inv}
use karg.System.Booting.{IsFresh, IsFree, sched_init-IsBooting}
use karg.System.Family.{IsFamily, is_live}
use karg.System.World.{World, Run, IsSound}
use karg.System.World.Runs.{Run-IsSound}
use karg.Timer.{Timers}
use karg.Vm.{Mm}

-- No process has children, and the process table is as the static initialisers leave it.
pub record IsClean (k : Kernel) : Type 0 where
  pub children : (p : ℕ) → (k.procs p).children ≡ []
  pub zombie_children : (p : ℕ) → (k.procs p).zombie_children ≡ []
  pub table : (n : ℕ) → k.proc_table n ≡ null
  pub last_pid : k.last_pid ≡ proc_table_size - 1

-- A process without a parent joins others that have no children.
module _ (p entry flags : ℕ) (argv : List (List ℕ)) (page_table trampoline sstatus : ℕ)
    (k l : Kernel) (res : ℤ)
    (made : proc_init p entry flags null argv page_table trampoline sstatus k ≡ some (res, l))
    (ok : is_neg res ≡ false) (n : p ≢ null) (no_child : (q : ℕ) → (k.procs q).children ≡ [])
    (no_zombie : (q : ℕ) → (k.procs q).zombie_children ≡ []) where
  init-IsMade : IsMade p null true k l
  init-IsMade =
      subst (λ z. IsMade p null (not z) k l) ok
        (proc_init-IsMade p entry flags null argv page_table trampoline sstatus k l res made
          (λ e. n (sym e)))

  same : (q : ℕ) → q ≢ p → l.procs q ≡ k.procs q
  same q m = init-IsMade.others q m ∙ ground arith

  made-children : (q : ℕ) → (l.procs q).children ≡ []
  made-children q = elim (Bool-cases (q == p)) [
    | inl e ↦ ground (arith, e, init-IsMade.emptied refl)
    | inr e ↦ ap (λ y. y.children) (same q (ground (arith, e))) ∙ no_child q
  ]

  made-zombies : (q : ℕ) → (l.procs q).zombie_children ≡ []
  made-zombies q = elim (Bool-cases (q == p)) [
    | inl e ↦ ground (arith, e, init-IsMade.emptied refl)
    | inr e ↦ ap (λ y. y.zombie_children) (same q (ground (arith, e))) ∙ no_zombie q
  ]

  made-parent : (q : ℕ) → (l.procs q).parent ≡ (if q == p then null else (k.procs q).parent)
  made-parent q = elim (Bool-cases (q == p)) [
    | inl e ↦ ground (arith, e, init-IsMade.parent refl)
    | inr e ↦ ap (λ y. y.parent) (same q (ground (arith, e))) ∙ ground (arith, e)
  ]

-- The idle process alone.
record IsPlanted (idle : ℕ) (k : Kernel) : Type 0 where
  children : (p : ℕ) → (k.procs p).children ≡ []
  zombie_children : (p : ℕ) → (k.procs p).zombie_children ≡ []
  root : (k.procs idle).parent ≡ null
  table : (n : ℕ) → k.proc_table n ≡ (if n == 0 then idle else null)
  last_pid : k.last_pid ≡ 0

planted :
    (idle idle_task trampoline sstatus : ℕ) (k l : Kernel) (res : ℤ)
    → proc_init idle idle_task 1 null [] null trampoline sstatus k ≡ some (res, l)
    → is_neg res ≡ false
    → idle ≢ null
    → IsClean k
    → IsPlanted idle (woken idle l)
planted idle idle_task trampoline sstatus k l res made ok n c =
    let m =
      init-IsMade idle idle_task 1 [] null trampoline sstatus k l res made ok n c.children
        c.zombie_children in
    let chosen : new_pid k.proc_table k.last_pid ≡ (pos 0, 0) =
      ap (new_pid k.proc_table) c.last_pid ∙ new_pid-first k.proc_table (c.table 0) in
    let no_child =
      made-children idle idle_task 1 [] null trampoline sstatus k l res made ok n c.children
        c.zombie_children in
    let no_zombie =
      made-zombies idle idle_task 1 [] null trampoline sstatus k l res made ok n c.children
        c.zombie_children in
    record {
      children = λ p. ground (arith, no_child p, no_child idle);
      zombie_children = λ p. ground (arith, no_zombie p, no_zombie idle);
      root = ground (arith, m.parent refl);
      table =
          λ x. m.table x ∙ ground (arith, ap pid_index (m.pid ∙ ap (λ z. z.0) chosen), c.table x);
      last_pid = m.last_pid ∙ ap (λ z. z.1) chosen;
    }

-- Then the first process beside it.
module _ (idle block : ℕ) (entry page_table trampoline sstatus : ℕ) (k l k' : Kernel) (mm : Mm)
    (t : Timers) (res : ℤ) (p : IsPlanted idle k)
    (states : (x : ℕ) → (k.procs x).state ≡ (if x == idle then ready else init))
    (made : proc_init block entry 0 null [] page_table trampoline sstatus (record k { mm = mm })
      ≡ some (res, l))
    (ok : is_neg res ≡ false) (n : block ≢ null) (i : idle ≢ null) (d : block ≢ idle)
    (is : k' ≡ switched_to block (idle ∷ []) (record (woken block l) { timers = t })) where
  abbrev k₁ : Kernel
  k₁ = record k { mm = mm }

  abbrev last : Kernel
  last = switched_to block (idle ∷ []) (record (woken block l) { timers = t })

  l-is : IsMade block null true k₁ l
  l-is =
      init-IsMade block entry 0 [] page_table trampoline sstatus k₁ l res made ok n p.children
        p.zombie_children

  l-children : (x : ℕ) → (l.procs x).children ≡ []
  l-children =
      made-children block entry 0 [] page_table trampoline sstatus k₁ l res made ok n p.children
        p.zombie_children

  l-zombies : (x : ℕ) → (l.procs x).zombie_children ≡ []
  l-zombies =
      made-zombies block entry 0 [] page_table trampoline sstatus k₁ l res made ok n p.children
        p.zombie_children

  l-parent : (x : ℕ) → (l.procs x).parent ≡ (if x == block then null else (k.procs x).parent)
  l-parent =
      made-parent block entry 0 [] page_table trampoline sstatus k₁ l res made ok n p.children
        p.zombie_children

  l-state : (x : ℕ) → x ≢ block → (l.procs x).state ≡ (if x == idle then ready else init)
  l-state x m =
      ap (λ y. y.state)
        (same block entry 0 [] page_table trampoline sstatus k₁ l res made ok n p.children
          p.zombie_children x m)
      ∙ states x

  chosen : new_pid k.proc_table k.last_pid ≡ (pos 1, 1)
  chosen = ap (new_pid k.proc_table) p.last_pid ∙ new_pid-second k.proc_table (p.table 1)

  last-children : (x : ℕ) → (last.procs x).children ≡ []
  last-children x = ground (arith, l-children x, l-children block)

  last-zombies : (x : ℕ) → (last.procs x).zombie_children ≡ []
  last-zombies x = ground (arith, l-zombies x, l-zombies block)

  last-parent : (x : ℕ) → (last.procs x).parent ≡ (l.procs x).parent
  last-parent x = ground arith

  last-live : (x : ℕ) → is_live (last.procs x).state ≡ ((x == block) || (x == idle))
  last-live x = ground (arith, l-state x)

  last-IsFamily : IsFamily idle block last
  last-IsFamily = record {
    table = l-is.table 1 ∙ ground (arith, ap pid_index (l-is.pid ∙ ap (λ z. z.0) chosen));
    first_exists = n;
    first_lives = ground (arith, last-live block, ==_refl block);
    idle_lives = ground (arith, last-live idle, ==_refl idle);
    first_root = last-parent block ∙ ground (arith, l-parent block, ==_refl block);
    idle_root = last-parent idle ∙ ground (arith, l-parent idle, p.root, d);
    parent_exists = ground (arith, last-live null, n, i);
    child = λ q c h. absurd (ground (arith, ap (has c) (last-children q), h));
    dead = λ q c h. absurd (ground (arith, ap (has c) (last-zombies q), h));
    distinct = λ q. rw (last-children q) tt;
    distinct_dead = λ q. rw (last-zombies q) tt;
    linked = λ c l f g. absurd (ground (arith, last-live c, l, f, g));
  }

  booted-IsFamily : IsFamily idle block k'
  booted-IsFamily = subst (IsFamily idle block) (sym is) last-IsFamily

-- After the scheduler's initialiser and `kmain`, both without an error, with semaphores for which
-- nobody waits and nobody inside a `sys_wait`, every run in which a process makes one system call
-- after the other, the idle process neither waits nor exits, the first process `block`, which has
-- become the init process, does not exit, and new processes get memory that belongs to none, comes
-- only to sound states: the scheduler's invariant holds, the lists of children and zombies agree with
-- the parent pointers and the states, and whoever is inside a `sys_wait` waits for a child or has been
-- told of one of its zombies. Before all that the static variables are as their initialisers leave
-- them, and no process exists.
pub boot-IsSound :
    (idle idle_task elf block trampoline sstatus now : ℕ) (bytes : ℕ → ℕ) (sems : ℕ → Sem)
    (k k₁ k₂ : Kernel) (u : World)
    → IsFresh k
    → IsClean k
    → idle ≢ null
    → block ≢ null
    → block ≢ idle
    → ((i : ℕ) → IsFree (sems i))
    → sched_init idle idle_task trampoline sstatus k ≡ some (pos 0, k₁)
    → kmain elf block trampoline sstatus now bytes k₁ ≡ some (started k₂)
    → Run idle block
        (record { system = record { kernel = k₂; sems = sems }; in_wait = λ p. false })
        u
    → IsSound idle block u
boot-IsSound idle idle_task elf block trampoline sstatus now bytes sems k k₁ k₂ u f c i n d free h m
      r =
    let (booting, queue, states, (res, l, made, ok, is)) =
      sched_init-IsBooting idle idle_task trampoline sstatus k k₁ f i h in
    let p : IsPlanted idle k₁ =
      subst (IsPlanted idle) (sym is)
        (planted idle idle_task trampoline sstatus k l res made ok i c) in
    let (v, (entry, page_table, mm, res', l', t, made', ok', is')) =
      kmain-Inv idle block now sems k₁ k₂ booting queue states n d free elf trampoline sstatus bytes
        m in
    Run-IsSound idle block
      (record { system = record { kernel = k₂; sems = sems }; in_wait = λ p. false }) u
      (record {
        scheduler = v;
        family =
            booted-IsFamily idle block entry page_table trampoline sstatus k₁ l' k₂ mm t res' p
              states made' ok' n i d is';
        waited = λ x e. absurd (ground (arith, e));
      })
      r
