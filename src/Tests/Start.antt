-- ===== src/Tests/Start.antt =====
-- Startup, firmware calls, the setup of a UART, and loops over lists.
use karg.Base.{
  ℕ, ◌+◌, ◌%◌, ◌^◌, ◌≡◌, refl, Option, none, some, ◌>>=◌, true, Bool, [], ◌∷◌, arith, ℤ, pos,
  negsuc, zero, suc, map, ◌==◌, if◌then◌else◌, false,
}
use karg.Intr.{intr_register_isr, intr_isr}
use karg.Log.{Log}
use karg.Links.{list_for_each, list_for_each_entry, list_entry}
use karg.Links.Loop.{loops}
use karg.Machine.{SbiRes, Ecall, panicked, timer_set, pm_reboot, pm_shutdown}
use karg.Machine.Firmware.{firmware_lem}
use karg.Startup.{Module, Phase, init_modules}
use karg.Startup.Phases.{Runs, script, init_modules-Runs}
use karg.Tests.{sample}
use karg.Tests.Queue.{memory, memory-IsRing}
use karg.Tty.{
  Tty, ldisc_register_src, ldisc_register_sink, lazy_init_ctrl_blk, tty_init_ctrl_blk,
  ldisc_recv_byte, dev_write,
}
use karg.Uart.{Uarts, init_uart, plic_enable_irq, external_interrupt, plic_complete}
use karg.Uart.Interrupt.{init_uart-interrupt}

loops_example :
    (list_for_each 9 memory 1 ≡ some (2 ∷ 3 ∷ []))
    × (list_for_each_entry 9 memory 1 16 ≡ some (map (λ node. list_entry node 16) (2 ∷ 3 ∷ [])))
loops_example =
    loops memory 1 16 9 (2 ∷ 3 ∷ []) memory-IsRing (ground arith) (omega arith) (omega arith)

-- Modules that count, and one that fails.
abbrev counts : Module ℕ
counts = record { name = 99 ∷ []; init = λ s. (pos 0, (s.0 + 1, s.1)) }

abbrev breaks : Module ℕ
breaks = record { name = 98 ∷ []; init = λ s. (negsuc 11, s) }

abbrev empty_log : Log
empty_log = record { inited = false; log_buf = λ i. 0; log_head = 0; log_tail = 0; out = [] }

init_modules-Runs_example :
    (p : Phase ℕ) × (init_modules ℕ
        (counts ∷ [])
        (counts ∷ breaks ∷ [])
        (counts ∷ [])
        (0, empty_log)
      ≡ some p)
    × Runs ℕ (script ℕ (counts ∷ []) (counts ∷ breaks ∷ []) (counts ∷ [])) (0, empty_log) p
init_modules-Runs_example =
    init_modules-Runs ℕ (counts ∷ []) (counts ∷ breaks ∷ []) (counts ∷ []) (0, empty_log)

-- A firmware that denies every call.
abbrev denies : Ecall
denies eid fid args = some (record { err = negsuc 3; val = pos 0 })

firmware_lem_example :
    (timer_set denies 9 ≡ some (panicked "setting timer" (some "EPERM")))
    × (pm_reboot denies ≡ panicked "rebooting system" (some "EPERM"))
    × (pm_shutdown denies ≡ panicked "shutting down system" (some "EPERM"))
firmware_lem_example =
    let r : SbiRes = record { err = negsuc 3; val = pos 0 } in
    firmware_lem denies 9 r r r refl refl refl

abbrev blank : Tty
blank = record {
  src = none;
  sinks = [];
  cursor_pos = 0;
  rx_buf = λ i. 0;
  rx_head = 0;
  rx_tail = 0;
  rx_sem = record { wait_queue = []; val = pos 0 };
}

abbrev uarts : Uarts
uarts = record {
  ctrl_blks = [];
  isrs = [];
  plic_enable = λ a. 0;
  written = [];
  io = record { ttys = λ n. none; out = [] };
}

abbrev uarts_of : Option (ℤ × Uarts) → Uarts
uarts_of none = uarts
uarts_of (some r) = r.1

abbrev is_zero : Option (ℤ × Uarts) → Bool
is_zero (some (pos zero, u)) = true
is_zero _ = false

is_zero-eq : (o : Option (ℤ × Uarts)) → is_zero o ≡ true → o ≡ some (pos 0, uarts_of o)
is_zero-eq none h = absurd (ground (arith, h))
is_zero-eq (some (pos zero, u)) h = refl
is_zero-eq (some (pos (suc n), u)) h = absurd (ground (arith, h))
is_zero-eq (some (negsuc n, u)) h = absurd (ground (arith, h))

-- The UART at 0x10000000 with the interrupt 10; its handler is at 4096.
abbrev set_up : Option (ℤ × Uarts)
set_up = init_uart (some blank) true 0x0C000000 4096 0x10000000 10 1 uarts

set_up_ok : is_zero set_up ≡ true
unfolding init_uart plic_enable_irq intr_register_isr ldisc_register_src ldisc_register_sink
    lazy_init_ctrl_blk tty_init_ctrl_blk
set_up_ok = refl

-- The byte 'a' is in every register but the one with the number of the interrupt.
abbrev register : ℕ → ℕ
register a = if a == 0x0C201004 then 10 else 97

no_handler : intr_isr 10 uarts.isrs ≡ none
unfolding intr_isr
no_handler = refl

init_uart-interrupt_example :
    external_interrupt 9 0x0C000000 4096 register (uarts_of set_up) sample ≡ (
      ldisc_recv_byte (dev_write 9) 0 (97 % 2 ^ 8) (uarts_of set_up).io sample >>= λ (io, k').
      some (plic_complete 0x0C000000 10 (record (uarts_of set_up) { io = io }), k'))
init_uart-interrupt_example =
    init_uart-interrupt (some blank) true 9 0x0C000000 4096 0x10000000 10 1 register uarts
      (uarts_of set_up) sample (is_zero-eq set_up set_up_ok) no_handler refl
