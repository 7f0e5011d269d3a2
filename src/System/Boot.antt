-- ===== src/System/Boot.antt =====
-- `kmain`, and every run after it.
use karg.Base.{
  bind-some, ℕ, ◌≡◌, refl, sym, ◌∙◌, ap, subst, ◌≢◌, ◌⊎◌, inl, inr, Option, some, ◌>>=◌, [], ◌∷◌,
  ◌==◌, if◌then◌else◌, arith, ℤ, pos, is_neg, Bool-cases, false,
}
use karg.Elf.{ElfLoadRes, Space, elf_load}
use karg.Kernel.{Kernel, init, ready, null}
use karg.Proc.Create.{proc_init}
use karg.Sched.{sched_update_state, sched_start}
use karg.Sched.Resched.{switched_to}
use karg.Sched.Same.{SameSched}
use karg.Sched.Update.{woken}
use karg.Sem.{Sem}
use karg.Startup.{Started, started, elf_failed, proc_failed, sched_init, kmain}
use karg.System.{System, Reach}
use karg.System.Inv.{Inv}
use karg.System.Safety.{Reach-Inv}
use karg.Timer.{Timers}
use karg.Vm.{Mm}
use mathlib.Core.Option.{some-injective}
use karg.System.Booting.{
  IsFresh, IsFree, IsBooting, IsBooting-same, proc_init-same, process_ready, sched_init-IsBooting,
  starts,
}

-- The kernel that a start ends with; `k` where there is none.
abbrev kernel_or : Kernel → Started → Kernel
kernel_or k (started k') = k'
kernel_or k (elf_failed res) = k
kernel_or k (proc_failed res) = k

-- `kmain`, once the idle process alone is ready.
module _ (idle block now : ℕ) (sems : ℕ → Sem) (k k' : Kernel) (b : IsBooting k)
    (e : k.ready_queue ≡ idle ∷ [])
    (s : (p : ℕ) → (k.procs p).state ≡ (if p == idle then ready else init)) (n : block ≢ null)
    (d : block ≢ idle) (free : (i : ℕ) → IsFree (sems i)) where
  abbrev ended : Kernel → Option Started
  ended k₃ = some (started k₃)

  abbrev start : Kernel → Option Started
  start k₂ = sched_start now k₂ >>= ended

  abbrev run_first : ℤ × Kernel → Option Started
  run_first made =
      if is_neg made.0
      then some (proc_failed made.0)
      else (sched_update_state block ready made.1 >>= start)

  -- How the first process was made, and what the start then did.
  abbrev pub First : (trampoline sstatus : ℕ) → Type 0
  First trampoline sstatus =
      (entry : ℕ) × (page_table : ℕ) × (mm : Mm) × (res : ℤ) × (l : Kernel) × (t : Timers)
      × (proc_init block entry 0 null [] page_table trampoline sstatus (record k { mm = mm })
          ≡ some (res, l))
      × (is_neg res ≡ false)
      × (k' ≡ switched_to block (idle ∷ []) (record (woken block l) { timers = t }))

  -- The new process `block` is made ready and the scheduler starts.
  starts_first :
      (l : Kernel)
      → SameSched k l
      → ((k₂ : Kernel)
          → sched_update_state block ready l ≡ some k₂
          → (k₂ ≡ woken block l) × IsBooting k₂)
      → (sched_update_state block ready l >>= start) ≡ some (started k')
      → Inv idle (record { kernel = k'; sems = sems })
        × ((t : Timers) × (k'
              ≡ switched_to block (idle ∷ []) (record (woken block l) { timers = t })))
  starts_first l same wakes h =
      let (k₂, ran, rest) = bind-some (sched_update_state block ready l) start (started k') h in
      let (k₃, run, end) = bind-some (sched_start now k₂) ended (started k') rest in
      let (is, booting) = wakes k₂ ran in
      let queue : k₂.ready_queue ≡ block ∷ idle ∷ [] =
        ap (λ z. z.ready_queue) is ∙ ap (λ q. block ∷ q) (same.ready_queue ∙ e) in
      let alive : (k₂.procs idle).state ≡ ready =
        ap (λ z. (z.procs idle).state) is ∙ ground (arith, same.states idle, s idle) in
      let (k₄, run', ok, (t, shape)) =
        starts idle block (idle ∷ []) sems k₂ now booting queue alive free in
      let last : k₃ ≡ k' = ap (kernel_or k) (some-injective (started k₃) (started k') end) in
      let first : k₄ ≡ k₃ = some-injective k₄ k₃ (sym run' ∙ run) in
      (
        subst (λ u. Inv idle (record { kernel = u; sems = sems })) (first ∙ last) ok,
        (
          t,
          sym (first ∙ last)
              ∙ shape
              ∙ ap (λ z. switched_to block (idle ∷ []) (record z { timers = t })) is,
        ),
      )

  pub kmain-Inv :
      (elf trampoline sstatus : ℕ) (bytes : ℕ → ℕ)
      → kmain elf block trampoline sstatus now bytes k ≡ some (started k')
      → Inv idle (record { kernel = k'; sems = sems }) × First trampoline sstatus
  unfolding kmain
  kmain-Inv elf trampoline sstatus bytes h = elim (Bool-cases (is_neg loaded.0)) [
    | inl q ↦ absurd (elf_failed_only (rw q at h))
    | inr q ↦
        let ((res, l), made, rest) =
          bind-some
            (proc_init block loaded.1.entry 0 null [] loaded.1.page_table trampoline sstatus k₁)
            run_first (started k') (rw q at h) in
        made_with res l made rest
  ]
    where
      loaded : ℤ × ElfLoadRes × Space
      loaded = elf_load elf (record { mm = k.mm; bytes = bytes })

      k₁ : Kernel
      k₁ = record k { mm = loaded.2.mm }

      failed-ne :
          (x : Started)
          → ((x ≡ elf_failed loaded.0) ⊎ ((z : ℤ) × (x ≡ proc_failed z)))
          → x ≡ started k'
          → ⊥
      failed-ne (started k'') o f = ground (arith, o)
      failed-ne (elf_failed z) o f = ground (arith, f)
      failed-ne (proc_failed z) o f = ground (arith, f)

      elf_failed_only : some (elf_failed loaded.0) ≡ some (started k') → ⊥
      elf_failed_only f = failed-ne (elf_failed loaded.0) (inl refl) (some-injective _ _ f)

      proc_failed_only : (z : ℤ) → some (proc_failed z) ≡ some (started k') → ⊥
      proc_failed_only z f = failed-ne (proc_failed z) (inr (z, refl)) (some-injective _ _ f)

      booting : IsBooting k₁
      booting =
          IsBooting-same k k₁
            (record { states = λ q. refl; ready_queue = refl; curr_proc = refl; timers = refl }) b

      fresh : (k₁.procs block).state ≡ init
      fresh = ground (arith, s block, d)

      made_with :
          (res : ℤ) (l : Kernel)
          → proc_init block loaded.1.entry 0 null [] loaded.1.page_table trampoline sstatus k₁
            ≡ some (res, l)
          → run_first (res, l) ≡ some (started k')
          → Inv idle (record { kernel = k'; sems = sems }) × First trampoline sstatus
      made_with res l made rest = elim (Bool-cases (is_neg res)) [
        | inl q ↦ absurd (proc_failed_only res (rw q at rest))
        | inr q ↦
            let kept : SameSched k₁ l =
              proc_init-same block loaded.1.entry 0 [] loaded.1.page_table trampoline sstatus k₁ l
                res made q booting n fresh in
            let (ok, (t, shape)) =
              starts_first l
                (record {
                  states = kept.states;
                  ready_queue = kept.ready_queue;
                  curr_proc = kept.curr_proc;
                  timers = kept.timers;
                })
                (process_ready block loaded.1.entry 0 [] loaded.1.page_table trampoline sstatus k₁ l
                  res made q booting n fresh)
                (rw q at rest) in
            (ok, (loaded.1.entry, loaded.1.page_table, loaded.2.mm, res, l, t, made, q, shape))
      ]

-- After the scheduler's initialiser and `kmain`, both without an error, with semaphores for which
-- nobody waits, every run of defined system calls, timer interrupts and signals, in any order, in which
-- the idle process neither waits nor exits and new processes get unused memory, comes only to states in
-- which the invariant holds: the ready queue holds the READY processes, one process runs, the idle
-- process is READY or runs, the timers of exactly the sleeping processes and that of the time slice are
-- queued in order, and each semaphore counts its waiters. The idle process and the first one are at
-- different addresses, and before them no process exists and no timer is queued.
pub boot-Inv :
    (idle idle_task elf block trampoline sstatus now : ℕ) (bytes : ℕ → ℕ) (sems : ℕ → Sem)
    (k k₁ k₂ : Kernel) (t : System)
    → IsFresh k
    → idle ≢ null
    → block ≢ null
    → block ≢ idle
    → ((i : ℕ) → IsFree (sems i))
    → sched_init idle idle_task trampoline sstatus k ≡ some (pos 0, k₁)
    → kmain elf block trampoline sstatus now bytes k₁ ≡ some (started k₂)
    → Reach idle (record { kernel = k₂; sems = sems }) t
    → Inv idle t
boot-Inv idle idle_task elf block trampoline sstatus now bytes sems k k₁ k₂ t f i n d free h m r =
    let (booting, queue, states, _) =
      sched_init-IsBooting idle idle_task trampoline sstatus k k₁ f i h in
    Reach-Inv idle (record { kernel = k₂; sems = sems }) t
      (kmain-Inv idle block now sems k₁ k₂ booting queue states n d free elf trampoline sstatus
        bytes m).0
      r
