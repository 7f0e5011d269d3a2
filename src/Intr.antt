-- ===== src/Intr.antt =====
-- src/intr.c: the table of interrupt handlers, as the sequence of its `nr_isrs` entries. A handler
-- and its argument (`data`) are their addresses.
pub mod Dispatch
use karg.Base.{
  ℕ, ◌+◌, Option, none, some, List, [], ◌∷◌, ◌++◌, ◌==◌, leb, if◌then◌else◌, length, ℤ, pos, negate,
}
use karg.Errno.{eagain}

-- include/config.h
abbrev pub intr_isr_capacity : ℕ
intr_isr_capacity = 256

pub record Isr : Type 0 where
  pub irq : ℕ
  pub isr : ℕ
  pub arg : ℕ

unfoldable pub intr_register_isr : (irq isr arg : ℕ) → List Isr → ℤ × List Isr
intr_register_isr irq isr arg isrs =
    if leb intr_isr_capacity (length isrs)
    then (negate eagain, isrs)
    else (pos 0, isrs ++ record { irq = irq; isr = isr; arg = arg } ∷ [])

-- The entry whose handler is called, if there is one.
unfoldable pub intr_isr : ℕ → List Isr → Option Isr
intr_isr irq [] = none
intr_isr irq (e ∷ es) = if e.irq == irq then some e else intr_isr irq es
