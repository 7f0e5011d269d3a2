-- ===== src/Intr/Dispatch.antt =====
-- Which handler an interrupt reaches.
use karg.Base.{
  ℕ, ◌≤◌, ◌≡◌, refl, Option, none, some, List, [], ◌∷◌, ◌++◌, ◌==◌, leb, if◌then◌else◌, length,
  length-append, pos, negate, arith, ==_refl, is_neg, false,
}
use karg.Errno.{eagain}
use karg.Intr.{Isr, intr_isr_capacity, intr_register_isr, intr_isr}

-- The first of two answers.
abbrev pub or_else : Option Isr → Option Isr → Option Isr
or_else none o = o
or_else (some e) o = some e

intr_isr-append :
    (irq : ℕ) (xs ys : List Isr)
    → intr_isr irq (xs ++ ys) ≡ or_else (intr_isr irq xs) (intr_isr irq ys)
unfolding intr_isr
intr_isr-append irq [] ys = refl
intr_isr-append irq (x ∷ xs) ys = ground (arith, intr_isr-append irq xs ys)

-- Registering a handler: while the table has room, every interrupt reaches the handler that it
-- reached before, and one that had none reaches the new handler if it has its number; a full table
-- answers -EAGAIN and is left as it is. No table grows beyond the capacity.
pub intr_register_isr-dispatch :
    (irq isr arg : ℕ) (isrs : List Isr) (n : ℕ)
    → length isrs ≤ intr_isr_capacity
    → let (res, isrs') = intr_register_isr irq isr arg isrs in
      let full = leb intr_isr_capacity (length isrs) in
      let e : Isr = record { irq = irq; isr = isr; arg = arg } in
      (res ≡ (if full then negate eagain else pos 0))
      × (intr_isr n isrs' ≡ (
          if full
          then intr_isr n isrs
          else or_else (intr_isr n isrs) (if irq == n then some e else none)))
      × (length isrs' ≤ intr_isr_capacity)
unfolding intr_register_isr intr_isr
intr_register_isr-dispatch irq isr arg isrs n h =
    let e : Isr = record { irq = irq; isr = isr; arg = arg } in
    (
      ground arith,
      ground (arith, intr_isr-append n isrs (e ∷ [])),
      ground (arith, length-append isrs (e ∷ [])),
    )

-- A registration without an error.
pub intr_register_isr-append :
    (irq isr arg : ℕ) (isrs : List Isr)
    → is_neg (intr_register_isr irq isr arg isrs).0 ≡ false
    → (intr_register_isr irq isr arg isrs).1
      ≡ isrs ++ record { irq = irq; isr = isr; arg = arg } ∷ []
unfolding intr_register_isr
intr_register_isr-append irq isr arg isrs h = ground (arith, h)

-- The last entry serves an interrupt that no entry before it serves.
pub intr_isr-last :
    (e : Isr) (isrs : List Isr)
    → intr_isr e.irq isrs ≡ none
    → intr_isr e.irq (isrs ++ e ∷ []) ≡ some e
unfolding intr_isr
intr_isr-last e isrs h = ground (arith, intr_isr-append e.irq isrs (e ∷ []), h, ==_refl e.irq)
