-- ===== src/Tty/Ring.antt =====
-- Which line the control block of a terminal stands for.
use karg.Base.{◌+◌, ◌%◌, ◌<◌, ◌≤◌, ◌≡◌, length}
use karg.Circular.{Holds}
use karg.Tty.{Tty}
use karg.Tty.Spec.{Line, room}

-- The bytes from `rx_head` on are the finished lines and then the line that is edited, up to
-- `rx_tail`, and `cursor_pos` is the length of the latter.
pub record Represents (t : Tty) (l : Line) : Type 0 where
  pub head_in : t.rx_head < 128
  pub ready : Holds 128 t.rx_buf t.rx_head l.ready
  pub editing : Holds 128 t.rx_buf ((t.rx_head + length l.ready) % 128) l.editing
  pub tail : t.rx_tail ≡ (t.rx_head + length l.ready + length l.editing) % 128
  pub cursor : t.cursor_pos ≡ length l.editing
  pub fits : length l.ready + length l.editing ≤ room
