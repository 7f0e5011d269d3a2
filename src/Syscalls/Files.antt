-- ===== src/Syscalls/Files.antt =====
-- The check of a file descriptor in `sys_read` and `sys_write`.
use karg.Base.{
  ℕ, zero, suc, ◌≡◌, refl, ◌≢◌, ◌<◌, true, ◌&&◌, not, none, some, List, [], ◌∷◌, leb, if◌then◌else◌,
  get_elem?, get_or, length, pos, test_bit, arith, ==_of_ne,
}
use karg.Kernel.{Fd, Proc, Kernel, null, proc_fd_capacity}
use karg.Proc.{proc_is_bad_fd, no_fd}
use karg.Tty.{Io, dev_read}
use karg.Syscalls.{is_refused, sys_read}

get_elem?_of_lt : (fs : List Fd) (i : ℕ) → i < length fs → get_elem? fs i ≡ some (get_or fs i no_fd)
get_elem?_of_lt [] i h = absurd (omega arith)
get_elem?_of_lt (f ∷ fs) zero h = refl
get_elem?_of_lt (f ∷ fs) (suc i) h = get_elem?_of_lt fs i (omega arith)

get_elem?_of_ge : (fs : List Fd) (i : ℕ) → leb (length fs) i ≡ true → get_elem? fs i ≡ none
get_elem?_of_ge [] i h = refl
get_elem?_of_ge (f ∷ fs) zero h = ground arith
get_elem?_of_ge (f ∷ fs) (suc i) h = get_elem?_of_ge fs i (ground arith)

-- With a full table of descriptors, a descriptor from the capacity on is looked up out of bounds, and
-- one below it is refused only if it is both unused and without the access asked for.
pub is_refused_lem :
    (p : Proc) (fd bit : ℕ)
    → length p.fds ≡ proc_fd_capacity
    → is_refused p (pos fd) bit ≡ (
        if leb proc_fd_capacity fd
        then none
        else some (
            not (test_bit (get_or p.fds fd no_fd).flags 0)
            && not (test_bit (get_or p.fds fd no_fd).flags bit)))
unfolding is_refused proc_is_bad_fd
is_refused_lem p fd bit e = ground (arith, get_elem?_of_lt p.fds fd, get_elem?_of_ge p.fds fd)

-- So `sys_read` reads from an open descriptor whatever its flags say, as if it were readable.
pub sys_read-open :
    (k : Kernel) (fd buf size : ℕ) (io : Io) (f : Fd)
    → length (k.procs k.curr_proc).fds ≡ proc_fd_capacity
    → fd < proc_fd_capacity
    → get_elem? (k.procs k.curr_proc).fds fd ≡ some f
    → test_bit f.flags 0 ≡ true
    → buf ≢ null
    → sys_read (pos fd) buf size io k ≡ dev_read f.dev size io k
unfolding sys_read
sys_read-open k fd buf size io f e h g u b = ground (
  arith,
  is_refused_lem (k.procs k.curr_proc) fd 1 e,
  get_elem?_of_lt (k.procs k.curr_proc).fds fd,
  ==_of_ne buf null b,
)
