-- ===== src/Proc.antt =====
-- src/proc.c: identifiers, file descriptors, and the tree of processes.
pub mod Pid
pub mod Fds
pub mod Create
use karg.Base.{
  ℕ, zero, suc, ◌+◌, ◌-◌, Bool, true, false, ◌||◌, not, Option, none, some, ◌>>=◌, List, [], ◌∷◌,
  ◌++◌, ◌==◌, leb, if◌then◌else◌, ℤ, pos, negsuc, is_neg, negate, map, set, get_or, has, erase,
  or_bit, test_bit,
}
use karg.Errno.{eagain}
use karg.Kernel.{
  Driver, tty_driver, no_driver, Dev, Fd, Proc, ProcState, zombie, Kernel, null, put, same_state,
  proc_table_size, proc_fd_capacity,
}
use karg.PageAlloc.{page_free}

-- The first free slot among the `n` from `pid` on.
unfoldable pub first_free : (ℕ → ℕ) → ℕ → ℕ → Option ℕ
first_free table zero pid = none
first_free table (suc n) pid =
    let rest = first_free table n (pid + 1) in if table pid == null then some pid else rest

-- A loop's early return, or what comes after the loop.
abbrev pub found : Option ℕ → ℤ × ℕ → ℤ × ℕ
found (some pid) rest = (pos pid, pid)
found none rest = rest

-- The two loops: from behind the last identifier to the end of the table, then from 0 to before it.
-- The result is what is returned, and `last_pid` as it is left.
unfoldable pub new_pid : (ℕ → ℕ) → ℕ → ℤ × ℕ
new_pid table last_pid =
    found (first_free table (proc_table_size - (last_pid + 1)) (last_pid + 1))
      (found (first_free table last_pid 0) (negate eagain, last_pid))

-- `FD_FLAG_USED`, `FD_FLAG_READABLE` and `FD_FLAG_WRITABLE` are the bits 0, 1 and 2.
new_fd_from : ℕ → List Fd → ℤ × List Fd
new_fd_from fd [] = (negate eagain, [])
new_fd_from fd (f ∷ fs) =
    let (r, rest) = new_fd_from (fd + 1) fs in
    if test_bit f.flags 0 then (r, f ∷ rest) else (pos fd, record f { flags = 1 } ∷ fs)

pub new_fd : List Fd → ℤ × List Fd
unfolding new_fd_from
new_fd fds = new_fd_from 0 fds

abbrev pub no_dev : Dev
no_dev = record { driver = no_driver; num = 0 }

abbrev pub no_fd : Fd
no_fd = record { flags = 0; dev = no_dev }

-- `proc->fds[fd].dev = make_dev(TTY_DRIVER, 0); proc->fds[fd].flags |= ...`; `none` is a negative
-- index.
abbrev pub open_tty : ℤ → ℕ → List Fd → Option (List Fd)
open_tty (pos fd) bit fds =
    let f = get_or fds fd no_fd in
    some (
      set fds fd
        (record { flags = or_bit f.flags bit; dev = record { driver = tty_driver; num = 0 } }))
open_tty (negsuc n) bit fds = none

-- All three results are checked by the test of the first one.
unfoldable pub init_fds : List Fd → Option (ℤ × List Fd)
unfolding new_fd
init_fds fds =
    let cleared = map (λ (f : Fd). record f { flags = 0 }) fds in
    let (stdin_fd, fds₁) = new_fd cleared in
    if is_neg stdin_fd then some (stdin_fd, fds₁) else (do
      fds₂ ← open_tty stdin_fd 1 fds₁
      let stdout = new_fd fds₂
      if is_neg stdin_fd then some (stdin_fd, stdout.1) else (do
        fds₄ ← open_tty stdout.0 2 stdout.1
        let stderr = new_fd fds₄
        if is_neg stdin_fd
            then some (stdin_fd, stderr.1)
            else (do fds₆ ← open_tty stderr.0 2 stderr.1; some (pos 0, fds₆))))

-- `list_remove(&proc->tree_node)`: the node is on one of the two lists of its parent.
abbrev pub unlink_tree : ℕ → Kernel → Kernel
unlink_tree p k =
    let parent = (k.procs p).parent in
    record k {
      procs = put k.procs parent (record (k.procs parent) {
        children = erase p (k.procs parent).children;
        zombie_children = erase p (k.procs parent).zombie_children;
      });
    }

abbrev pub push_child : ℕ → ℕ → Kernel → Kernel
push_child parent p k = record k {
  procs =
      put k.procs parent
        (record (k.procs parent) { children = (k.procs parent).children ++ p ∷ [] });
}

abbrev pub push_zombie : ℕ → ℕ → Kernel → Kernel
push_zombie parent p k = record k {
  procs =
      put k.procs parent
        (record (k.procs parent) { zombie_children = (k.procs parent).zombie_children ++ p ∷ [] });
}

abbrev pub set_parent : ℕ → ℕ → Kernel → Kernel
set_parent parent p k = record k { procs = put k.procs p (record (k.procs p) { parent = parent }) }

unfoldable pub proc_adopt : ℕ → ℕ → Kernel → Kernel
proc_adopt new_parent p k =
    let k₁ = set_parent new_parent p (unlink_tree p k) in
    if same_state (k₁.procs p).state zombie
    then push_zombie new_parent p k₁
    else push_child new_parent p k₁

-- The identifier is read as an index: it is not negative once `proc_init` has succeeded.
abbrev pub pid_index : ℤ → ℕ
pid_index (pos n) = n
pid_index (negsuc n) = 0

unfoldable pub proc_deinit : ℕ → Kernel → Kernel
proc_deinit p k =
    let k₁ = unlink_tree p k in
    let q = k₁.procs p in
    record k₁ {
      proc_table = put k₁.proc_table (pid_index q.pid) null;
      mm = record k₁.mm {
        free = page_free q.page_table (page_free q.kern_stack (page_free q.user_stack k₁.mm.free));
      };
    }

unfoldable pub proc_is_bad_fd : Proc → ℤ → Bool
proc_is_bad_fd p (negsuc n) = true
proc_is_bad_fd p (pos fd) =
    leb proc_fd_capacity fd || not (test_bit (get_or p.fds fd no_fd).flags 0)
