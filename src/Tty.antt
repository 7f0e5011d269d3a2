-- ===== src/Tty.antt =====
-- src/drivers/tty.c, src/drivers/ldisc.c and the registration in src/drivers/uart.c: terminals,
-- their line discipline, and the devices to which they write. The control block of a terminal and
-- the part of the line discipline in it are one record. What the drivers put out is the list of the
-- bytes that each UART was given.
pub mod Spec
pub mod Ring
pub mod Recv
pub mod Read
use karg.Base.{
  ℕ, zero, suc, ◌+◌, ◌-◌, ◌%◌, Bool, true, false, ◌||◌, Option, none, some, ◌>>=◌, List, [], ◌∷◌,
  ◌++◌, ◌==◌, ltb, leb, if◌then◌else◌, length, ℤ, pos, is_neg, negate, map, ◌⊎◌, inl, inr,
}
use karg.Circular.{write_byte}
use karg.Errno.{eagain, enomem, enxio}
use karg.Kernel.{Driver, no_driver, tty_driver, uart_driver, Dev, Kernel}
use karg.Sem.{Sem, sem_init, sem_wait, sem_signaln}

abbrev pub tty_buf_size : ℕ
tty_buf_size = 128

abbrev pub tty_sink_capacity : ℕ
tty_sink_capacity = 4

abbrev pub driver_dev_capacity : ℕ
driver_dev_capacity = 8

pub record Tty : Type 0 where
  pub src : Option Dev
  pub sinks : List Dev
  pub cursor_pos : ℕ
  pub rx_buf : ℕ → ℕ
  pub rx_head : ℕ
  pub rx_tail : ℕ
  pub rx_sem : Sem

abbrev pub newline : ℕ
newline = 10

abbrev pub backspace : ℕ
backspace = 127

-- What a received byte asks for beyond the control block: signals to the readers, and an echo.
pub record Reply : Type 0 where
  pub signals : ℕ
  pub echo : List ℕ

abbrev pub quiet : Reply
quiet = record { signals = 0; echo = [] }

-- The case `'\x7F'`: `rx_tail` steps back round the buffer.
erase_last : Tty → Tty × Reply
erase_last t =
    if ltb 0 t.cursor_pos
    then (
      record t {
        rx_tail = (if t.rx_tail == 0 then tty_buf_size else t.rx_tail) - 1;
        cursor_pos = t.cursor_pos - 1;
      },
      record { signals = 0; echo = 8 ∷ 32 ∷ 8 ∷ [] },
    )
    else (t, quiet)

-- The default case.
store_byte : ℕ → Tty → Tty × Reply
store_byte byte t =
    let next_tail = (t.rx_tail + 1) % tty_buf_size in
    if next_tail == t.rx_head
    then (t, quiet)
    else let t' = record t {
      rx_buf = write_byte t.rx_buf t.rx_tail byte;
      rx_tail = next_tail;
      cursor_pos = t.cursor_pos + 1;
    } in
      if byte == newline
      then (record t' { cursor_pos = 0 }, record { signals = t'.cursor_pos; echo = byte ∷ [] })
      else (t', record { signals = 0; echo = byte ∷ [] })

-- The two `switch` statements of `ldisc_recv_byte`.
pub edit : ℕ → Tty → Tty × Reply
unfolding erase_last store_byte
edit byte t =
    let byte' = if byte == 13 then newline else byte in
    if byte' == backspace then erase_last t else store_byte byte' t

-- `tty_ctrl_blks` and the output of the UARTs.
pub record Io : Type 0 where
  pub ttys : ℕ → Option Tty
  pub out : List (ℕ × ℕ)

-- `write` of uart.c, when the transmitter is ready: it waits for that before each byte.
pub uart_write : ℕ → List ℕ → Io → ℤ × Io
uart_write num buf io =
    (pos (length buf), record io { out = io.out ++ map (λ (b : ℕ). (num, b)) buf })

abbrev pub WriteDev : Type 0
WriteDev = Dev → List ℕ → Io → Option (ℤ × Io)

-- The loop of `ldisc_write` over the sinks; `write_dev` is `dev_write`, and `size` what is returned
-- when no sink fails.
pub write_sinks : WriteDev → ℕ → List Dev → List ℕ → Io → Option (ℤ × Io)
write_sinks write_dev size [] buf io = some (pos size, io)
write_sinks write_dev size (d ∷ ds) buf io = write_dev d buf io >>= λ (res, io').
    if is_neg res then some (res, io') else write_sinks write_dev size ds buf io'

-- `none`: the control block is a null pointer.
pub ldisc_write : WriteDev → ℕ → List ℕ → Io → Option (ℤ × Io)
ldisc_write write_dev num buf io =
    io.ttys num >>= λ t. write_sinks write_dev (length buf) t.sinks buf io

abbrev pub is_null : Option Tty → Bool
is_null none = true
is_null (some t) = false

-- `write` of tty.c.
pub tty_write : WriteDev → ℕ → List ℕ → Io → Option (ℤ × Io)
tty_write write_dev num buf io =
    if leb driver_dev_capacity num || is_null (io.ttys num)
    then some (negate enxio, io)
    else ldisc_write write_dev num buf io

-- `dev.driver->write(dev.num, buf, size)`; a driver with a null pointer there gives `-ENXIO`.
call_write : WriteDev → Driver → WriteDev
call_write write_dev no_driver dev buf io = some (negate enxio, io)
call_write write_dev uart_driver dev buf io = some (uart_write dev.num buf io)
call_write write_dev tty_driver dev buf io = tty_write write_dev dev.num buf io

-- Terminals may write to terminals; the fuel bounds how deep, and `none` is deeper than that.
pub dev_write : ℕ → WriteDev
dev_write zero dev buf io = none
dev_write (suc fuel) dev buf io = call_write (dev_write fuel) dev.driver dev buf io

abbrev pub put_tty : ℕ → Tty → Io → Io
put_tty num t io = record io { ttys = λ n. if n == num then some t else io.ttys n }

-- The whole of `ldisc_recv_byte`: the signals go to the readers before the echo is written, and the
-- result of the echo is dropped.
pub ldisc_recv_byte : WriteDev → ℕ → ℕ → Io → Kernel → Option (Io × Kernel)
ldisc_recv_byte write_dev num byte io k = do
  t ← io.ttys num
  let (t', reply) = edit byte t
  signalled ← sem_signaln reply.signals t'.rx_sem k
  let io' = put_tty num (record t' { rx_sem = signalled.0 }) io
  echoed ← ldisc_write write_dev num reply.echo io'
  some (echoed.1, signalled.1)

-- How far a `read` has come: it ends with its result and the bytes, or the process blocks in
-- `sem_wait` with the bytes read so far and `todo` more to come, that one included.
pub data Reading : Type 0 where
  done : ℤ → List ℕ → Reading
  blocked : (todo : ℕ) → List ℕ → Reading

pub record ReadState : Type 0 where
  pub reading : Reading
  pub tty : Tty
  pub kernel : Kernel

abbrev pub at_state : Reading → Tty → Kernel → Option ReadState
at_state r t k = some (record { reading = r; tty = t; kernel = k })

-- `buf[i] = ctrl_blk->rx_buf[ctrl_blk->rx_head++]` and the wrap.
abbrev pub advance : Tty → Tty
advance t = record t { rx_head = (t.rx_head + 1) % tty_buf_size }

-- The loop's body behind `sem_wait`; `continue` is the next round.
take_byte : (List ℕ → Tty → Option ReadState) → List ℕ → Tty → Kernel → Option ReadState
take_byte continue bytes t k =
    let byte = t.rx_buf t.rx_head in
    let bytes' = bytes ++ byte ∷ [] in
    if byte == newline
    then at_state (done (pos (length bytes')) bytes') (advance t) k
    else continue bytes' (advance t)

-- The loop, with the number of rounds left.
pub read_loop : ℕ → List ℕ → Tty → Kernel → Option ReadState
unfolding take_byte
read_loop zero bytes t k = at_state (done (pos (length bytes)) bytes) t k
read_loop (suc todo) bytes t k = sem_wait t.rx_sem k >>= λ (sem, k').
    let t' = record t { rx_sem = sem } in
    let rest = take_byte (λ bs t''. read_loop todo bs t'' k') bytes t' k' in
    if is_neg sem.val then at_state (blocked (suc todo) bytes) t' k' else rest

-- The reader goes on behind the `sem_wait` that blocked it.
pub read_resume : ℕ → List ℕ → Tty → Kernel → Option ReadState
unfolding take_byte
read_resume zero bytes t k = none
read_resume (suc todo) bytes t k = take_byte (λ bs t'. read_loop todo bs t' k) bytes t k

-- `read` of tty.c: `inl` is an error before the loop.
pub tty_read : ℕ → ℕ → Io → Kernel → Option (ℤ ⊎ ReadState)
tty_read num size io k =
    if leb driver_dev_capacity num || is_null (io.ttys num)
    then some (inl (negate enxio))
    else (do t ← io.ttys num; s ← read_loop size [] t k; some (inr s))

call_read : Driver → ℕ → ℕ → Io → Kernel → Option (ℤ ⊎ ReadState)
call_read tty_driver num size io k = tty_read num size io k
call_read no_driver num size io k = some (inl (negate enxio))
call_read uart_driver num size io k = some (inl (negate enxio))

-- `dev_read`: the UART's `read` is a null pointer.
pub dev_read : Dev → ℕ → Io → Kernel → Option (ℤ ⊎ ReadState)
unfolding call_read
dev_read dev size io k = call_read dev.driver dev.num size io k

-- `tty_init_ctrl_blk` and `lazy_init_ctrl_blk`, when `kmalloc` gives the two blocks: the rest of a
-- fresh control block is what the memory held, here `old`.
unfoldable pub tty_init_ctrl_blk : Tty → Tty
unfolding sem_init
tty_init_ctrl_blk old = record old { rx_head = 0; rx_tail = 0; rx_sem = sem_init }

-- `block` is what the memory of the control block held, if `kmalloc` gives one, and `has_buf` says
-- whether it gives the buffer.
new_ctrl_blk : Option Tty → Bool → ℕ → Io → ℤ × Io
new_ctrl_blk none has_buf num io = (negate enomem, io)
new_ctrl_blk (some old) false num io = (negate enomem, io)
new_ctrl_blk (some old) true num io =
    (pos 0, put_tty num (tty_init_ctrl_blk (record old { sinks = []; cursor_pos = 0 })) io)

unfoldable pub lazy_init_ctrl_blk : Option Tty → Bool → ℕ → Io → ℤ × Io
unfolding new_ctrl_blk
lazy_init_ctrl_blk block has_buf num io =
    if leb driver_dev_capacity num
    then (negate eagain, io)
    else if is_null (io.ttys num)
    then new_ctrl_blk block has_buf num io
    else (pos 0, io)

add_sink : Dev → Tty → ℤ × Tty
add_sink dev t =
    if leb tty_sink_capacity (length t.sinks)
    then (negate eagain, t)
    else (pos 0, record t { sinks = t.sinks ++ dev ∷ [] })

unfoldable pub ldisc_register_src : Option Tty → Bool → ℕ → Dev → Io → Option (ℤ × Io)
ldisc_register_src block has_buf num dev io =
    let (res, io') = lazy_init_ctrl_blk block has_buf num io in
    if is_neg res
    then some (res, io')
    else (do t ← io'.ttys num; some (pos 0, put_tty num (record t { src = some dev }) io'))

unfoldable pub ldisc_register_sink : Option Tty → Bool → ℕ → Dev → Io → Option (ℤ × Io)
unfolding add_sink
ldisc_register_sink block has_buf num dev io =
    let (res, io') = lazy_init_ctrl_blk block has_buf num io in
    if is_neg res
    then some (res, io')
    else (do t ← io'.ttys num; let (res', t') = add_sink dev t; some (res', put_tty num t' io'))
