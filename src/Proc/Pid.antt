-- ===== src/Proc/Pid.antt =====
-- `new_pid` over the whole table.
use karg.Base.{
  ℕ, zero, suc, ◌+◌, ◌-◌, ◌<◌, ◌≤◌, ◌≡◌, refl, ◌≢◌, ◌⊎◌, inl, inr, none, some, arith, pos, negate,
  Option-cases,
}
use karg.Errno.{eagain}
use karg.Kernel.{null, proc_table_size}
use karg.Proc.{first_free, new_pid}

first_free-some :
    (table : ℕ → ℕ) (n from pid : ℕ)
    → first_free table n from ≡ some pid
    → (from ≤ pid) × (pid < from + n) × (table pid ≡ null)
unfolding first_free
first_free-some table zero from pid e = cc
first_free-some table (suc n) from pid e = ground (arith, first_free-some table n (from + 1) pid)

first_free-none :
    (table : ℕ → ℕ) (n from : ℕ)
    → first_free table n from ≡ none
    → (q : ℕ) → from ≤ q
    → q < from + n
    → table q ≢ null
unfolding first_free
first_free-none table zero from e q a b = absurd (omega arith)
first_free-none table (suc n) from e q a b =
    ground (
      arith,
      first_free-none table n (from + 1),
      first_free-none table n (from + 1) (ground arith) q,
    )

-- `new_pid` hands out an identifier of the table whose slot is free, other than the last one that
-- it handed out, and remembers it; or it returns -EAGAIN and remembers nothing, and then every slot
-- but that of the last identifier is taken.
pub new_pid_lem :
    (table : ℕ → ℕ) (last_pid : ℕ)
    → last_pid < proc_table_size
    → ((pid : ℕ) × (new_pid table last_pid ≡ (pos pid, pid))
        × (pid < proc_table_size)
        × (table pid ≡ null)
        × (pid ≢ last_pid))
      ⊎ ((new_pid table last_pid ≡ (negate eagain, last_pid))
          × ((q : ℕ) → q < proc_table_size → q ≢ last_pid → table q ≢ null))
unfolding new_pid
new_pid_lem table last_pid h =
    elim (Option-cases (first_free table (proc_table_size - (last_pid + 1)) (last_pid + 1))) [
      | inr (pid, e) ↦
          let f = first_free-some table _ _ pid e in inl (pid, rw e, omega arith, f.2, omega arith)
      | inl e ↦ elim (Option-cases (first_free table last_pid 0)) [
        | inr (pid, e') ↦
            let f = first_free-some table _ _ pid e' in
            inl (pid, rw (e, e'), omega arith, f.2, omega arith)
        | inl e' ↦ inr (
          rw (e, e'),
          λ q a n. grind (arith, first_free-none table _ _ e q, first_free-none table _ _ e' q),
        )
      ]
    ]

-- Whatever it hands out, the slot is free.
pub new_pid-free :
    (table : ℕ → ℕ) (last_pid n : ℕ) → (new_pid table last_pid).0 ≡ pos n → table n ≡ null
unfolding new_pid
new_pid-free table last_pid n h =
    elim (Option-cases (first_free table (proc_table_size - (last_pid + 1)) (last_pid + 1))) [
      | inr (pid, e) ↦ ground (arith, first_free-some table _ _ pid e, e, h)
      | inl e ↦ elim (Option-cases (first_free table last_pid 0)) [
        | inr (pid, e') ↦ ground (arith, first_free-some table _ _ pid e', e, e', h)
        | inl e' ↦ absurd (ground (arith, e, e', h))
      ]
    ]

first_free-head :
    (table : ℕ → ℕ) (n pid : ℕ) → table pid ≡ null → first_free table (suc n) pid ≡ some pid
unfolding first_free
first_free-head table n pid e = ground (arith, e)

-- The first two identifiers, of the idle process and of the init process.
pub new_pid-first :
    (table : ℕ → ℕ) → table 0 ≡ null → new_pid table (proc_table_size - 1) ≡ (pos 0, 0)
unfolding new_pid first_free
new_pid-first table e = rw (first_free-head table 254 0 e) refl

pub new_pid-second : (table : ℕ → ℕ) → table 1 ≡ null → new_pid table 0 ≡ (pos 1, 1)
unfolding new_pid
new_pid-second table e = rw (first_free-head table 254 1 e) refl
