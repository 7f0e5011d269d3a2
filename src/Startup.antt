-- ===== src/Startup.antt =====
-- src/module/init.c, src/dev.c and src/kmain.c: the initialisers of the modules, the match of drivers
-- to devices, and the start of the first process. An initialiser is a function of the state that it
-- changes, of which the log is a part. What a panic logs, and what is logged of a device, is given as data,
-- in order. The linker collects the tables of initialisers from all modules, so they are arguments.
pub mod Phases
pub mod Devices
use karg.Base.{
  none, ◌++◌, ℕ, zero, Option, some, ◌>>=◌, List, [], ◌∷◌, if◌then◌else◌, ℤ, pos, is_neg,
}
use karg.Elf.{elf_load}
use karg.Log.{Log, Arg, str, Severity, Logged, returned, hung, log_as}
use karg.Log.Severity.{info}
use karg.Kernel.{Kernel, ready, null}
use karg.Proc.Create.{proc_init}
use karg.Sched.{sched_update_state, sched_start}
use karg.Utils.{str_cmp}

abbrev pub pre : List ℕ
pre = b'p' ∷ b'r' ∷ b'e' ∷ b'-' ∷ []

abbrev pub post : List ℕ
post = b'p' ∷ b'o' ∷ b's' ∷ b't' ∷ b'-' ∷ []

-- "entering the initialization phase", with `pre` or `post` in it.
abbrev pub entering : List ℕ → List ℕ
entering which =
    (b'e' ∷ b'n' ∷ b't' ∷ b'e' ∷ b'r' ∷ b'i' ∷ b'n' ∷ b'g' ∷ 32 ∷ b't' ∷ b'h' ∷ b'e' ∷ 32 ∷ [])
    ++ which
    ++ (b'i' ∷ b'n' ∷ b'i' ∷ b't' ∷ b'i' ∷ b'a' ∷ b'l' ∷ b'i' ∷ b'z' ∷ b'a' ∷ b't' ∷ b'i' ∷ b'o'
        ∷ b'n' ∷ 32 ∷ b'p' ∷ b'h' ∷ b'a' ∷ b's' ∷ b'e' ∷ [])

-- "initialized %s"
abbrev pub initialized : List ℕ
initialized =
    b'i' ∷ b'n' ∷ b'i' ∷ b't' ∷ b'i' ∷ b'a' ∷ b'l' ∷ b'i' ∷ b'z' ∷ b'e' ∷ b'd' ∷ 32 ∷ b'%' ∷ b's'
    ∷ []

abbrev log_of : Logged → Log
log_of (returned l) = l
log_of (hung l) = l

module _ {ℓ} (S : Type ℓ) where
  -- The state of the kernel, and its log.
  abbrev pub Logging : Type ℓ
  Logging = S × Log

  pub record Module : Type ℓ where
    pub name : List ℕ
    pub init : Logging → ℤ × Logging

  -- How the phases end: a module's initialiser fails, and the kernel panics, or all have been called.
  pub data Phase : Type ℓ where
    panicked : (name : List ℕ) (res : ℤ) → Logging → Phase
    finished : Logging → Phase

  -- `log_info` in the module "init".
  pub log_info : (fmt : List ℕ) → List Arg → Logging → Option Logging
  log_info fmt args s = do
    r ← log_as info (b'i' ∷ b'n' ∷ b'i' ∷ b't' ∷ []) fmt args s.1
    some (s.0, log_of r)

  -- The loop of a phase.
  pub init_phase : List Module → Logging → Option Phase
  unfolding log_info
  init_phase [] s = some (finished s)
  init_phase (m ∷ ms) s =
      let (res, s') = m.init s in
      let rest = log_info initialized (str m.name ∷ []) s' >>= λ s₁. init_phase ms s₁ in
      if is_neg res then some (panicked m.name res s') else rest

  enter_phase : (which : List ℕ) → List Module → Logging → Option Phase
  unfolding log_info init_phase
  enter_phase which ms s = log_info (entering which) [] s >>= λ s₁. init_phase ms s₁

  abbrev and_phase : Option Phase → (Logging → Option Phase) → Option Phase
  and_phase none f = none
  and_phase (some (panicked name res s)) f = some (panicked name res s)
  and_phase (some (finished s)) f = f s

  pub init_modules : (pre_init init post_init : List Module) → Logging → Option Phase
  unfolding enter_phase
  init_modules pre_init init post_init s =
      and_phase (and_phase (enter_phase pre pre_init s) (enter_phase [] init))
        (enter_phase post post_init)

  pub record DevNode : Type 0 where
    pub name : List ℕ
    pub addr : ℕ
    pub irq : ℕ
    pub reg_size : ℕ

  -- src/platforms/virt.c: the interrupt controller and the UART, "plic" and "uart8250".
  abbrev pub dev_table : List DevNode
  dev_table =
      record { name = b'p' ∷ b'l' ∷ b'i' ∷ b'c' ∷ []; addr = 0x0C000000; irq = 0; reg_size = 0 }
      ∷ record {
        name = b'u' ∷ b'a' ∷ b'r' ∷ b't' ∷ b'8' ∷ b'2' ∷ b'5' ∷ b'0' ∷ [];
        addr = 0x10000000;
        irq = 10;
        reg_size = 1;
      }
      ∷ []

  pub record DevInit : Type ℓ where
    pub name : List ℕ
    pub compat : List ℕ
    pub init : DevNode → S → ℤ × S

  -- What is logged of a device.
  pub data Loaded : Type 0 where
    loaded : (driver device : List ℕ) → Loaded
    failed : (driver device : List ℕ) → ℤ → Loaded
    no_driver_found : (device : List ℕ) → Loaded

  -- The inner loop: the first driver that is compatible with the device.
  pub init_dev : DevNode → List DevInit → S → Loaded × S
  init_dev node [] s = (no_driver_found node.name, s)
  init_dev node (d ∷ ds) s =
      let (res, s') = d.init node s in
      let rest = init_dev node ds s in
      elim (str_cmp d.compat node.name) [
        | pos zero ↦
            if is_neg res then (failed d.name node.name res, s') else (loaded d.name node.name, s')
        | _ ↦ rest
      ]

  pub init_devs : List DevNode → List DevInit → S → List Loaded × S
  unfolding init_dev
  init_devs [] ds s = ([], s)
  init_devs (node ∷ nodes) ds s =
      let (l, s') = init_dev node ds s in let (ls, s'') = init_devs nodes ds s' in (l ∷ ls, s'')

-- `init` of src/sched.c: the idle process, a process of the kernel with no page table. `idle` is the
-- address of `idle_proc`, `idle_task` that of its code. A timer that has been initialised is on no
-- queue, which is how the model's timers begin.
unfoldable pub sched_init : (idle idle_task trampoline sstatus : ℕ) → Kernel → Option (ℤ × Kernel)
sched_init idle idle_task trampoline sstatus k = do
  made ← proc_init idle idle_task 1 0 [] null trampoline sstatus k
  if is_neg made.0
      then some made
      else (do k₁ ← sched_update_state idle ready made.1; some (pos 0, k₁))

-- How `kmain` goes on once the modules are there: it panics with an error, or the first process is
-- made and the scheduler started.
pub data Started : Type 0 where
  elf_failed proc_failed : ℤ → Started
  started : Kernel → Started

-- `elf` and `block` are the addresses of the program image and of `init_proc`.
unfoldable pub kmain :
    (elf block trampoline sstatus now : ℕ) (bytes : ℕ → ℕ) → Kernel → Option Started
kmain elf block trampoline sstatus now bytes k =
    let (res, program, space) = elf_load elf (record { mm = k.mm; bytes = bytes }) in
    if is_neg res then some (elf_failed res) else (do
      let k₁ = record k { mm = space.mm }
      made ← proc_init block program.entry 0 null [] program.page_table trampoline sstatus k₁
      if is_neg made.0 then some (proc_failed made.0) else (do
        k₂ ← sched_update_state block ready made.1
        k₃ ← sched_start now k₂
        some (started k₃)))
