-- ===== src/Uart.antt =====
-- src/drivers/uart.c and src/drivers/plic.c: the setup of a UART, with its interrupt. The registers of
-- devices are written, as the sequence of the addresses and the values.
pub mod Interrupt
use karg.Base.{
  get_elem?, none, ◌^◌, ℕ, ◌+◌, ◌*◌, ◌/◌, ◌%◌, Bool, Option, some, ◌>>=◌, List, [], ◌∷◌, ◌++◌, ◌==◌,
  leb, if◌then◌else◌, length, ℤ, pos, negate, is_neg, or_bit,
}
use karg.Errno.{eagain}
use karg.Intr.{Isr, intr_isr, intr_register_isr}
use karg.Kernel.{Kernel, Dev, uart_driver}
use karg.Tty.{
  Tty, Io, ldisc_recv_byte, dev_write, driver_dev_capacity, ldisc_register_src, ldisc_register_sink,
}

-- `ctrl_blks[num]`; `nr_devs` is how many there are.
pub record CtrlBlk : Type 0 where
  pub addr : ℕ
  pub reg_size : ℕ

-- `plic_enable` is the interrupt controller's word of enabled interrupts, by its address.
pub record Uarts : Type 0 where
  pub ctrl_blks : List CtrlBlk
  pub isrs : List Isr
  pub plic_enable : ℕ → ℕ
  pub written : List (ℕ × ℕ)
  pub io : Io

abbrev pub reg_write : ℕ → ℕ → Uarts → Uarts
reg_write addr val s = record s { written = s.written ++ (addr, val) ∷ [] }

-- `base_addr` is where the controller's registers are.
unfoldable pub plic_enable_irq : ℕ → ℕ → Uarts → Uarts
plic_enable_irq base_addr irq s =
    let enable = base_addr + 0x2080 + irq / 32 * 4 in
    let word = or_bit (s.plic_enable enable) (irq % 32) in
    reg_write (base_addr + irq * 4) 1 (
      reg_write enable word
        (record s { plic_enable = λ a. if a == enable then word else s.plic_enable a }))

-- `block` and `has_buf` are what `kmalloc` gives for the terminal, as in `ldisc_register_src`; `isr` is
-- the address of the UART's handler.
unfoldable pub init_uart :
    (block : Option Tty) (has_buf : Bool) (base_addr isr addr irq reg_size : ℕ)
    → Uarts
    → Option (ℤ × Uarts)
init_uart block has_buf base_addr isr addr irq reg_size s =
    let num = length s.ctrl_blks in
    let dev : Dev = record { driver = uart_driver; num = num } in
    let s₁ : Uarts = record s {
      ctrl_blks = s.ctrl_blks ++ record { addr = addr; reg_size = reg_size } ∷ [];
    } in
    let s₂ = plic_enable_irq base_addr irq (reg_write (addr + reg_size) 1 s₁) in
    let registered = intr_register_isr irq isr num s₂.isrs in
    let s₃ : Uarts = record s₂ { isrs = registered.1 } in
    let listed = ldisc_register_src block has_buf num dev s₃.io >>= λ (res, io).
    if is_neg res then some (res, record s₃ { io = io }) else (do
      sunk ← ldisc_register_sink block has_buf num dev io
      some (if is_neg sunk.0 then sunk.0 else pos 0, record s₃ { io = sunk.1 })) in
    if leb driver_dev_capacity num
    then some (negate eagain, s)
    else if is_neg registered.0
    then some (registered.0, s₃)
    else listed

-- `isr` of uart.c: the byte of the receive register, register 0, goes to the line discipline.
-- `register` is what a read of a device's register gives, by its address.
pub isr : (depth : ℕ) (register : ℕ → ℕ) (num : ℕ) → Uarts → Kernel → Option (Uarts × Kernel)
isr depth register num s k = do
  blk ← get_elem? s.ctrl_blks num
  received ← ldisc_recv_byte (dev_write depth) num (register blk.addr % 2 ^ 8) s.io k
  some (record s { io = received.0 }, received.1)

abbrev pub plic_claim : (base_addr : ℕ) (register : ℕ → ℕ) → ℕ
plic_claim base_addr register = register (base_addr + 0x201004)

abbrev pub plic_complete : ℕ → ℕ → Uarts → Uarts
plic_complete base_addr irq s = reg_write (base_addr + 0x201004) irq s

-- `init_dev` of plic.c: the new `base_addr`, `sie` with `SEIE`, its bit 9, and the threshold.
pub init_plic : (addr sie : ℕ) → Uarts → ℤ × ℕ × ℕ × Uarts
init_plic addr sie s = (pos 0, addr, or_bit sie 9, reg_write (addr + 0x201000) 0 s)

-- An external interrupt in `trap_handler`: it is claimed, the handler in the table is called, if there
-- is one, and it is completed. `uart_isr` is the address of the UART's handler; other handlers are not
-- known.
pub external_interrupt :
    (depth base_addr uart_isr : ℕ) (register : ℕ → ℕ) → Uarts → Kernel → Option (Uarts × Kernel)
external_interrupt depth base_addr uart_isr register s k =
    let irq = plic_claim base_addr register in
    let served : Option (Uarts × Kernel) = elim (intr_isr irq s.isrs) [
      | none ↦ some (s, k)
      | some e ↦ if e.isr == uart_isr then isr depth register e.arg s k else none
    ] in
    do (s', k') ← served; some (plic_complete base_addr irq s', k')
