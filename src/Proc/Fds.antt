-- ===== src/Proc/Fds.antt =====
-- The descriptors of a new process, and the test for a bad one.
use karg.Base.{ℕ, ◌≡◌, refl, some, List, ◌∷◌, pos, map}
use karg.Kernel.{Fd, tty_driver}
use karg.Proc.{init_fds}

abbrev pub tty_fd : ℕ → Fd
tty_fd flags = record { flags = flags; dev = record { driver = tty_driver; num = 0 } }

-- Whatever the table held, a new process has three descriptors that are used: 0 is readable, 1 and
-- 2 are writable, all three are the terminal, and every other descriptor is closed.
pub init_fds_lem :
    (a b c : Fd) (rest : List Fd)
    → init_fds (a ∷ b ∷ c ∷ rest)
      ≡ some (pos 0, tty_fd 3 ∷ tty_fd 5 ∷ tty_fd 5 ∷ map (λ (f : Fd). record f { flags = 0 }) rest)
unfolding init_fds
init_fds_lem a b c rest = refl
