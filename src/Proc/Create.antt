-- ===== src/Proc/Create.antt =====
-- `proc_init` of src/proc.c, with `init_stacks` and `proc_fill_stack` of src/arch/riscv/proc.c. The
-- arguments of the new process are their strings. What the stack pages hold is not modelled but for
-- the frame from which the process starts; `trampoline` and `sstatus` are the address of the
-- trampoline and what the register holds.
pub mod States
pub mod Tree
pub mod Made
pub mod Args
use karg.Base.{
  ℕ, ◌+◌, ◌-◌, ◌*◌, ◌/◌, ◌%◌, ◌^◌, Option, some, ◌>>=◌, List, [], ◌∷◌, ◌==◌, ◌||◌, if◌then◌else◌, ℤ,
  pos, is_neg, negate, or_bit, test_bit, length,
}
use karg.Errno.{enomem}
use karg.Kernel.{Proc, Frame, ProcState, Kernel, null, put}
use karg.PageAlloc.{page_size, page_alloc}
use karg.Vm.{vm_map_page}
use karg.Proc.{new_pid, init_fds, push_child, pid_index}

abbrev with_proc : ℕ → (Proc → Proc) → Kernel → Kernel
with_proc p f k = record k { procs = put k.procs p (f (k.procs p)) }

-- Pointers are 64 bits wide.
abbrev sub_usize : ℕ → ℕ → ℕ
sub_usize a b = (a + 2 ^ 64 - b) % 2 ^ 64

-- The loop over the arguments: each string goes below the last, with its terminator.
push_strings : ℕ → List (List ℕ) → ℕ
push_strings usp [] = usp
push_strings usp (s ∷ ss) = push_strings (sub_usize usp (length s + 1)) ss

-- `PROC_FLAG_KERN` is bit 0; `SPIE` is bit 5 of `sstatus` and `SPP` bit 8.
fill_frame : ℕ → ℕ → ℕ → ℕ → ℕ → ℕ → ℕ → Frame
fill_frame flags page_table entry usp argc argv sstatus =
    let spie = or_bit sstatus 5 in
    record {
      argv = argv;
      argc = argc;
      entry = entry;
      sstatus =
          if test_bit flags 0
          then or_bit spie 8
          else (if test_bit spie 8 then spie - 2 ^ 8 else spie);
      usp = usp - usp % 16;
      satp = 8 * 2 ^ 60 + page_table / page_size;
    }

-- Both pages are asked for before either is tested.
pub init_stacks : ℕ → ℕ → List (List ℕ) → ℕ → Kernel → ℤ × Kernel
unfolding push_strings fill_frame
init_stacks p entry argv sstatus k =
    let (kern_stack, free₁) = page_alloc k.mm.free in
    let (user_stack, free₂) = page_alloc free₁ in
    let k₁ =
      with_proc p (λ q. record q { kern_stack = kern_stack; user_stack = user_stack })
        (record k { mm = record k.mm { free = free₂ } }) in
    let new_argv = sub_usize (user_stack + page_size) ((length argv + 1) * 8) in
    let usp = push_strings new_argv argv in
    if (kern_stack == null) || (user_stack == null) then (negate enomem, k₁) else (
      pos 0,
      with_proc p
          (λ q. record q {
            sp = kern_stack + page_size - 38 * 8;
            frame = fill_frame q.flags q.page_table entry usp (length argv) new_argv sstatus;
          })
          k₁,
    )

-- One of the calls of `vm_map_page`; the identity mapping of `addr`.
map_same : ℕ → ℕ → ℕ → Kernel → ℤ × Kernel
map_same page_table addr flags k =
    let (res, mm) = vm_map_page page_table addr addr flags k.mm in (res, record k { mm = mm })

abbrev and_then : ℤ × Kernel → (Kernel → ℤ × Kernel) → ℤ × Kernel
and_then (res, k) f = if is_neg res then (res, k) else f k

-- The mappings of a user process: the trampoline may be read and executed, the kernel stack read
-- and written, the user stack read and written by the process too.
map_stacks : ℕ → ℕ → Kernel → ℤ × Kernel
unfolding map_same
map_stacks p trampoline k =
    let q = k.procs p in
    and_then (map_same q.page_table trampoline 5 k) λ k₁.
      and_then (map_same q.page_table q.kern_stack 3 k₁)
        λ k₂. map_same q.page_table q.user_stack 11 k₂

-- The process gets its slot in the table and its place in the tree.
pub register : ℕ → Kernel → Kernel
register p k =
    let q = k.procs p in
    let k₁ = record k { proc_table = put k.proc_table (pid_index q.pid) p } in
    if q.parent == null then k₁ else push_child q.parent p k₁

-- What follows the descriptors.
pub init_rest : ℕ → ℕ → ℕ → ℕ → List (List ℕ) → ℕ → ℕ → Kernel → ℤ × Kernel
unfolding init_stacks map_stacks register
init_rest p entry flags page_table argv trampoline sstatus k =
    let k₁ = with_proc p (λ q. record q { state = ProcState.init; page_table = page_table }) k in
    and_then (init_stacks p entry argv sstatus k₁) λ k₂.
      and_then (if test_bit flags 0 then (pos 0, k₂) else map_stacks p trampoline k₂)
        λ k₃. (pos 0, register p k₃)

unfoldable pub proc_init :
    (p entry flags parent : ℕ) (argv : List (List ℕ)) (page_table trampoline sstatus : ℕ)
    → Kernel
    → Option (ℤ × Kernel)
unfolding init_rest
proc_init p entry flags parent argv page_table trampoline sstatus k =
    let (pid, last_pid) = new_pid k.proc_table k.last_pid in
    let k₁ = with_proc p (λ q. record q { pid = pid }) (record k { last_pid = last_pid }) in
    if is_neg pid
    then some (pid, k₁)
    else let k₂ =
        with_proc p
          (λ q. record q { flags = flags; parent = parent; children = []; zombie_children = [] })
          k₁ in
      init_fds (k₂.procs p).fds >>= λ (res, fds).
      let k₃ = with_proc p (λ q. record q { fds = fds }) k₂ in
      if is_neg res
      then some (res, k₃)
      else some (init_rest p entry flags page_table argv trampoline sstatus k₃)
