-- ===== src/Uart/Interrupt.antt =====
-- From the setup of a UART to the byte that it receives.
use karg.Base.{
  bind-some, ℕ, ◌+◌, ◌%◌, ◌^◌, ◌≡◌, refl, sym, ◌∙◌, ap, inl, inr, Bool, true, Option, none, some,
  ◌>>=◌, List, [], ◌∷◌, ◌++◌, ==_refl, leb, if◌then◌else◌, get_elem?, length, ℤ, pos, is_neg, arith,
  Bool-cases,
}
use karg.Intr.{Isr, intr_isr, intr_register_isr}
use karg.Intr.Dispatch.{intr_isr-last, intr_register_isr-append}
use karg.Kernel.{Kernel, Dev, uart_driver}
use karg.Tty.{
  Tty, Io, driver_dev_capacity, ldisc_recv_byte, ldisc_register_src, ldisc_register_sink, dev_write,
}
use karg.Uart.{Uarts, isr, init_uart, external_interrupt, plic_complete, plic_enable_irq, reg_write}
use mathlib.Core.Option.{some-injective}

last_elem {ℓ} : {A : Type ℓ} (xs : List A) (x : A) → get_elem? (xs ++ x ∷ []) (length xs) ≡ some x
last_elem [] x = refl
last_elem (y ∷ xs) x = last_elem xs x

-- A setup that succeeds: the UART is the next one, and its handler is the last of the table.
init_uart-entries :
    (block : Option Tty) (has_buf : Bool) (base_addr handler addr irq reg_size : ℕ) (s s' : Uarts)
    → init_uart block has_buf base_addr handler addr irq reg_size s ≡ some (pos 0, s')
    → (s'.ctrl_blks ≡ s.ctrl_blks ++ record { addr = addr; reg_size = reg_size } ∷ [])
      × (s'.isrs ≡ s.isrs ++ record { irq = irq; isr = handler; arg = length s.ctrl_blks } ∷ [])
unfolding init_uart plic_enable_irq
init_uart-entries block has_buf base_addr handler addr irq reg_size s s' h =
    elim (Bool-cases (leb driver_dev_capacity num)) [
      | inl q ↦ absurd (ground (arith, h, q))
      | inr q ↦ elim (Bool-cases (is_neg registered.0)) [
        | inl r ↦ absurd (negative (registered.0, s₃) r (rw r at (rw q at h)))
        | inr r ↦
            let ((res, io), made, rest) =
              bind-some (ldisc_register_src block has_buf num dev s₃.io) sink (pos 0, s')
                (rw r at (rw q at h)) in
            let (same_blks, same_isrs) = sinks res io rest in
            (same_blks, same_isrs ∙ intr_register_isr-append irq handler num s₂.isrs r)
      ]
    ]
  where
    num : ℕ
    num = length s.ctrl_blks

    dev : Dev
    dev = record { driver = uart_driver; num = num }

    s₂ : Uarts
    s₂ = plic_enable_irq base_addr irq (
        reg_write (addr + reg_size) 1 (record s {
          ctrl_blks = s.ctrl_blks ++ record { addr = addr; reg_size = reg_size } ∷ [];
        }))

    registered : ℤ × List Isr
    registered = intr_register_isr irq handler num s₂.isrs

    s₃ : Uarts
    s₃ = record s₂ { isrs = registered.1 }

    negative : (r : ℤ × Uarts) → is_neg r.0 ≡ true → some r ≡ some (pos 0, s') → ⊥
    negative r q e =
        let zero : r.0 ≡ pos 0 = ap (λ z. z.0) (some-injective r (pos 0, s') e) in
        ground (arith, q, zero)

    last : ℤ × Io → Option (ℤ × Uarts)
    last sunk = some (if is_neg sunk.0 then sunk.0 else pos 0, record s₃ { io = sunk.1 })

    sink : ℤ × Io → Option (ℤ × Uarts)
    sink (res, io) =
        if is_neg res
        then some (res, record s₃ { io = io })
        else (ldisc_register_sink block has_buf num dev io >>= last)

    sinks :
        (res : ℤ) (io : Io)
        → sink (res, io) ≡ some (pos 0, s')
        → (s'.ctrl_blks ≡ s₃.ctrl_blks) × (s'.isrs ≡ s₃.isrs)
    sinks res io e = elim (Bool-cases (is_neg res)) [
      | inl q ↦ absurd (negative (res, record s₃ { io = io }) q (rw q at e))
      | inr q ↦
          let (sunk, ran, end) =
            bind-some (ldisc_register_sink block has_buf num dev io) last (pos 0, s') (rw q at e) in
          let done : Uarts = record s₃ { io = sunk.1 } in
          let is : done ≡ s' =
            ap (λ z. z.1)
              (some-injective (if is_neg sunk.0 then sunk.0 else pos 0, done) (pos 0, s') end) in
          (ap (λ z. z.ctrl_blks) (sym is), ap (λ z. z.isrs) (sym is))
    ]

-- Once the setup of a UART has succeeded, with an interrupt that had no handler before: when the
-- interrupt controller reports that interrupt, the byte in the UART's receive register goes to the line
-- discipline of its terminal, whatever that does then, and the interrupt is completed.
pub init_uart-interrupt :
    (block : Option Tty) (has_buf : Bool) (depth base_addr handler addr irq reg_size : ℕ)
    (register : ℕ → ℕ) (s s' : Uarts) (k : Kernel)
    → init_uart block has_buf base_addr handler addr irq reg_size s ≡ some (pos 0, s')
    → intr_isr irq s.isrs ≡ none
    → register (base_addr + 0x201004) ≡ irq
    → external_interrupt depth base_addr handler register s' k ≡ (
        ldisc_recv_byte (dev_write depth) (length s.ctrl_blks) (register addr % 2 ^ 8) s'.io k
        >>= λ (io, k'). some (plic_complete base_addr irq (record s' { io = io }), k'))
unfolding external_interrupt isr
init_uart-interrupt block has_buf depth base_addr handler addr irq reg_size register s s' k h n
      claimed =
    let e : Isr = record { irq = irq; isr = handler; arg = length s.ctrl_blks } in
    let (blks, isrs) = init_uart-entries block has_buf base_addr handler addr irq reg_size s s' h in
    let found : intr_isr irq s'.isrs ≡ some e = ap (intr_isr irq) isrs ∙ intr_isr-last e s.isrs n in
    let blk : get_elem? s'.ctrl_blks (length s.ctrl_blks)
        ≡ some (record { addr = addr; reg_size = reg_size }) =
      ap (λ l. get_elem? l (length s.ctrl_blks)) blks ∙ last_elem s.ctrl_blks _ in
    let received =
      ldisc_recv_byte (dev_write depth) (length s.ctrl_blks) (register addr % 2 ^ 8) s'.io k in
    rw claimed (rw found (rw (==_refl handler) (rw blk (go received))))
  where
    delivered : Io × Kernel → Option (Uarts × Kernel)
    delivered r = some (record s' { io = r.0 }, r.1)

    completed : Uarts × Kernel → Option (Uarts × Kernel)
    completed (t, k') = some (plic_complete base_addr irq t, k')

    go :
        (m : Option (Io × Kernel))
        → ((m >>= delivered) >>= completed)
          ≡ (m >>= λ (io, k'). some (plic_complete base_addr irq (record s' { io = io }), k'))
    go none = refl
    go (some r) = refl
