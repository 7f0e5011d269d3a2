-- ===== src/Proc/Create/States.antt =====
-- What `proc_init` leaves alone.
use karg.Base.{
  ℕ, ◌≡◌, refl, ◌∙◌, sym, ap, subst, false, true, Option, none, some, ◌>>=◌, List, [],
  if◌then◌else◌, ℤ, pos, is_neg, Bool-cases, arith, test_bit, inl, inr, ◌⊎◌,
}
use karg.Kernel.{Kernel, ProcState, Fd, set_state}
use karg.Proc.{new_pid, init_fds}
use karg.Proc.Create.{
  with_proc, and_then, init_stacks, map_same, map_stacks, register, init_rest, proc_init,
}
use karg.Sched.Same.{SameSched, SameSched-refl, SameSched-trans}
use mathlib.Core.Option.{some-injective}

and_then-SameSched :
    (k : Kernel) (m : ℤ × Kernel) (f : Kernel → ℤ × Kernel)
    → SameSched k m.1
    → ((l : Kernel) → SameSched k l → SameSched k (f l).1)
    → SameSched k (and_then m f).1
and_then-SameSched k (res, l) f s g = elim (Bool-cases (is_neg res)) [
  | inl q ↦ rw q s
  | inr q ↦ rw q (g l s)
]

init_stacks-SameSched :
    (p entry : ℕ) (argv : List (List ℕ)) (sstatus : ℕ) (k : Kernel)
    → SameSched k (init_stacks p entry argv sstatus k).1
unfolding init_stacks
init_stacks-SameSched p entry argv sstatus k = record {
  states = λ q. ground arith;
  ready_queue = ground arith;
  curr_proc = ground arith;
  timers = ground arith;
}

map_same-SameSched :
    (page_table addr flags : ℕ) (k : Kernel) → SameSched k (map_same page_table addr flags k).1
unfolding map_same
map_same-SameSched page_table addr flags k = record {
  states = λ q. refl;
  ready_queue = refl;
  curr_proc = refl;
  timers = refl;
}

map_stacks-SameSched : (p trampoline : ℕ) (k : Kernel) → SameSched k (map_stacks p trampoline k).1
unfolding map_stacks
map_stacks-SameSched p trampoline k =
    let q = k.procs p in
    let map_user = λ (l : Kernel). map_same q.page_table q.user_stack 11 l in
    and_then-SameSched k (map_same q.page_table trampoline 5 k)
      (λ l. and_then (map_same q.page_table q.kern_stack 3 l) map_user)
      (map_same-SameSched q.page_table trampoline 5 k)
      λ k₁ s₁.
        and_then-SameSched k (map_same q.page_table q.kern_stack 3 k₁) map_user
          (SameSched-trans s₁ (map_same-SameSched q.page_table q.kern_stack 3 k₁))
          λ k₂ s₂. SameSched-trans s₂ (map_same-SameSched q.page_table q.user_stack 11 k₂)

register-SameSched : (p : ℕ) (k : Kernel) → SameSched k (register p k)
unfolding register
register-SameSched p k = record {
  states = λ q. ground arith;
  ready_queue = ground arith;
  curr_proc = ground arith;
  timers = ground arith;
}

stacks_if_user-SameSched :
    (p flags trampoline : ℕ) (k : Kernel)
    → SameSched k (if test_bit flags 0 then (pos 0, k) else map_stacks p trampoline k).1
stacks_if_user-SameSched p flags trampoline k = elim (Bool-cases (test_bit flags 0)) [
  | inl q ↦ rw q (SameSched-refl k)
  | inr q ↦ rw q (map_stacks-SameSched p trampoline k)
]

init_rest-SameSched :
    (p entry flags page_table : ℕ) (argv : List (List ℕ)) (trampoline sstatus : ℕ) (k : Kernel)
    → SameSched
        (set_state k p ProcState.init)
        (init_rest p entry flags page_table argv trampoline sstatus k).1
unfolding init_rest
init_rest-SameSched p entry flags page_table argv trampoline sstatus k =
    let k₀ = set_state k p ProcState.init in
    let k₁ = with_proc p (λ q. record q { state = ProcState.init; page_table = page_table }) k in
    let ends : Kernel → ℤ × Kernel = λ l. (pos 0, register p l) in
    let begun : SameSched k₀ k₁ = record {
      states = λ q. ground arith;
      ready_queue = refl;
      curr_proc = refl;
      timers = refl;
    } in
    and_then-SameSched k₀ (init_stacks p entry argv sstatus k₁)
      (λ l. and_then (if test_bit flags 0 then (pos 0, l) else map_stacks p trampoline l) ends)
      (SameSched-trans begun (init_stacks-SameSched p entry argv sstatus k₁))
      λ k₂ s₂.
        and_then-SameSched k₀ (if test_bit flags 0 then (pos 0, k₂) else map_stacks p trampoline k₂)
          ends (SameSched-trans s₂ (stacks_if_user-SameSched p flags trampoline k₂))
          λ k₃ s₃. SameSched-trans s₃ (register-SameSched p k₃)

-- Whatever `proc_init` comes to, it touches neither the ready queue nor the timers, nor the state of
-- any process but the new one, which is in its first state if nothing failed before that was set.
pub proc_init-cases :
    (p entry flags parent : ℕ) (argv : List (List ℕ)) (page_table trampoline sstatus : ℕ)
    (k k' : Kernel) (res : ℤ)
    → proc_init p entry flags parent argv page_table trampoline sstatus k ≡ some (res, k')
    → (SameSched k k' × (is_neg res ≡ true)) ⊎ SameSched (set_state k p ProcState.init) k'
unfolding proc_init
proc_init-cases p entry flags parent argv page_table trampoline sstatus k k' res h =
    elim (Bool-cases (is_neg pid)) [
      | inl q ↦ inl (failed (pid, k₁) (ground (arith, h, q)) q same₁)
      | inr q ↦ go (init_fds (k₂.procs p).fds) (ground (arith, h, q))
    ]
  where
    pid : ℤ
    pid = (new_pid k.proc_table k.last_pid).0

    k₁ : Kernel
    k₁ =
        with_proc p (λ q. record q { pid = pid })
          (record k { last_pid = (new_pid k.proc_table k.last_pid).1 })

    k₂ : Kernel
    k₂ =
        with_proc p
          (λ q. record q { flags = flags; parent = parent; children = []; zombie_children = [] }) k₁

    with_fds : List Fd → Kernel
    with_fds fds = with_proc p (λ q. record q { fds = fds }) k₂

    result : (r : ℤ × Kernel) → some r ≡ some (res, k') → r ≡ (res, k')
    result r e = some-injective r (res, k') e

    same₁ : SameSched k k₁
    same₁ = record {
      states = λ q. ground arith;
      ready_queue = refl;
      curr_proc = refl;
      timers = refl;
    }

    same₃ : (fds : List Fd) → SameSched k (with_fds fds)
    same₃ fds = record {
      states = λ q. ground arith;
      ready_queue = refl;
      curr_proc = refl;
      timers = refl;
    }

    failed :
        (r : ℤ × Kernel)
        → some r ≡ some (res, k')
        → is_neg r.0 ≡ true
        → SameSched k r.1
        → SameSched k k' × (is_neg res ≡ true)
    failed r e q same =
        let is : r ≡ (res, k') = result r e in
        (subst (λ z. SameSched k z.1) is same, sym (ap (λ z. is_neg z.0) is) ∙ q)

    after_fds : ℤ × List Fd → Option (ℤ × Kernel)
    after_fds (r, fds) =
        if is_neg r
        then some (r, with_fds fds)
        else some (init_rest p entry flags page_table argv trampoline sstatus (with_fds fds))

    go :
        (o : Option (ℤ × List Fd))
        → (o >>= after_fds) ≡ some (res, k')
        → (SameSched k k' × (is_neg res ≡ true)) ⊎ SameSched (set_state k p ProcState.init) k'
    go none e = absurd (ground (arith, e))
    go (some (r, fds)) e = elim (Bool-cases (is_neg r)) [
      | inl q ↦ inl (failed (r, with_fds fds) (rw q at e) q (same₃ fds))
      | inr q ↦
          let made = init_rest p entry flags page_table argv trampoline sstatus (with_fds fds) in
          let ended : some made ≡ some (res, k') = rw q at e in
          let begun : SameSched (set_state k p ProcState.init)
              (set_state (with_fds fds) p ProcState.init) =
            record {
              states = λ q. ground arith;
              ready_queue = refl;
              curr_proc = refl;
              timers = refl;
            } in
          inr (
            subst (λ z. SameSched (set_state k p ProcState.init) z.1) (result made ended)
              (SameSched-trans begun (
                init_rest-SameSched p entry flags page_table argv trampoline sstatus
                  (with_fds fds))))
    ]

pub proc_init-SameSched :
    (p entry flags parent : ℕ) (argv : List (List ℕ)) (page_table trampoline sstatus : ℕ)
    (k k' : Kernel) (res : ℤ)
    → proc_init p entry flags parent argv page_table trampoline sstatus k ≡ some (res, k')
    → is_neg res ≡ false
    → SameSched (set_state k p ProcState.init) k'
proc_init-SameSched p entry flags parent argv page_table trampoline sstatus k k' res h n =
    elim (proc_init-cases p entry flags parent argv page_table trampoline sstatus k k' res h) [
      | inl (same, q) ↦ absurd (ground (arith, n, q))
      | inr same ↦ same
    ]
