-- ===== src/Trap/Served/Frame.antt =====
-- What a trap does to the registers.
use karg.Base.{
  true, leb, bind-some, ℕ, ◌+◌, ◌%◌, ◌^◌, ◌≤◌, ◌≡◌, Option, none, some, ◌==◌, if◌then◌else◌, arith,
  get_elem?, length, negate, Bool-cases, Option-cases, inl, inr,
}
use karg.Errno.{enosys}
use karg.Kernel.{Kernel}
use karg.Syscalls.{timer_interrupt}
use karg.Trap.{Trapframe, Trap, trap_handler, as_usize, syscall_table}
use karg.Trap.Served.{
  Env, Called, returns, leaves, reads, stops, call, goes_on, serve, finish, handle_trap,
}
use karg.Uart.{Uarts, external_interrupt}
use mathlib.Core.Option.{some-injective}

-- The registers with which a process goes on.
finish-frame :
    (g f : Trapframe) (c : Called) (stored : Option (ℕ × ℕ)) (u : Uarts) (k : Kernel)
    → finish g c ≡ goes_on f stored u k
    → f ≡ record g { a0 = f.a0 }
unfolding finish
finish-frame g f (returns res st u' k') stored u k h = ground (arith, h)
finish-frame g f (leaves u' k') stored u k h = absurd (ground (arith, h))
finish-frame g f (reads r) stored u k h = absurd (ground (arith, h))
finish-frame g f (stops r) stored u k h = absurd (ground (arith, h))

-- The registers behind a trap, by what it asks for.
Frame : Trapframe → Trap → Trapframe → Type 0
Frame f (Trap.call c b) g = g ≡ record b { a0 = g.a0 }
Frame f (Trap.resume b) g = g ≡ b
Frame f _ g = g ≡ f

serve-Frame :
    (env : Env) (f g : Trapframe) (t : Trap) (u u' : Uarts) (k k' : Kernel)
    (stored : Option (ℕ × ℕ))
    → serve env f t u k ≡ some (goes_on g stored u' k')
    → Frame f t g
unfolding serve Frame
serve-Frame env f g Trap.timer u u' k k' stored h =
    let (x, _, end) = bind-some (timer_interrupt env.now k) (λ x. some (goes_on f none u x)) _ h in
    ground (arith, end)
serve-Frame env f g Trap.external u u' k k' stored h =
    let (x, _, end) =
      bind-some (external_interrupt env.depth env.base_addr env.uart_isr env.register u k)
        (λ r. some (goes_on f none r.0 r.1)) _ h in
    ground (arith, end)
serve-Frame env f g Trap.ignored u u' k k' stored h = ground (arith, h)
serve-Frame env f g Trap.wild u u' k k' stored h = absurd (ground (arith, h))
serve-Frame env f g (Trap.resume b) u u' k k' stored h = ground (arith, h)
serve-Frame env f g (Trap.call c b) u u' k k' stored h =
    let (x, _, end) = bind-some (call env c b u k) (λ x. some (finish b x)) _ h in
    finish-frame b g x stored u' k' (some-injective _ _ end)

abbrev advanced : Trapframe → Trapframe
advanced f = record f { sepc = (f.sepc + 4) % 2 ^ 64 }

-- What a trap asks for goes on with these registers.
asked-Frame :
    (f g : Trapframe)
    → Frame f (trap_handler f) g
    → g ≡ (if f.scause == 8 then record (advanced f) { a0 = g.a0 } else f)
unfolding trap_handler Frame
asked-Frame f g h = elim (Bool-cases (f.scause == 8)) [
  | inl e ↦ elim (Bool-cases (leb (length syscall_table) f.a7)) [
    | inl b ↦ ground (arith, e, b, h)
    | inr b ↦ elim (Option-cases (get_elem? syscall_table f.a7)) [
      | inl o ↦ ground (arith, e, b, o, h)
      | inr (c, o) ↦ ground (arith, e, b, o, h)
    ]
  ]
  | inr e ↦ ground (arith, e, h)
]

-- A process that goes on behind a trap finds its registers as they were if the trap was no system
-- call. Behind a system call it goes on at the next instruction, and only the register `a0`, for the
-- result, has changed.
pub trap-frame :
    (env : Env) (f g : Trapframe) (u u' : Uarts) (k k' : Kernel) (stored : Option (ℕ × ℕ))
    → handle_trap env f u k ≡ some (goes_on g stored u' k')
    → g ≡ (if f.scause == 8 then record f { sepc = (f.sepc + 4) % 2 ^ 64; a0 = g.a0 } else f)
unfolding handle_trap
trap-frame env f g u u' k k' stored h =
    asked-Frame f g (serve-Frame env f g (trap_handler f) u u' k k' stored h)

-- A system call with a number outside the table changes nothing but the registers: the process goes on at the
-- next instruction with -ENOSYS.
pub trap-unknown :
    (env : Env) (f : Trapframe) (u : Uarts) (k : Kernel)
    → f.scause ≡ 8
    → 9 ≤ f.a7
    → handle_trap env f u k
      ≡ some (
          goes_on
            (record f { sepc = (f.sepc + 4) % 2 ^ 64; a0 = as_usize (negate enosys) })
            none
            u
            k)
unfolding handle_trap serve trap_handler
trap-unknown env f u k e n =
    let o : leb (length syscall_table) f.a7 ≡ true = ground (arith, n) in ground (arith, e, o)
