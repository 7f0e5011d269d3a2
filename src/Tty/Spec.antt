-- ===== src/Tty/Spec.antt =====
-- What a terminal promises its readers: lines that are finished, and a line that is being edited.
use karg.Base.{ℕ, ◌+◌, List, [], ◌∷◌, ◌++◌, ◌==◌, ltb, if◌then◌else◌, length}
use karg.Circular.{drop_last}
use karg.Tty.{newline, backspace}

pub record Line : Type 0 where
  pub ready : List ℕ
  pub editing : List ℕ

-- The buffer's 128 places hold 127 bytes.
abbrev pub room : ℕ
room = 127

-- A carriage return counts as a newline. Backspace takes back the last byte of the line that is
-- edited. A newline finishes that line. With no room left a byte is dropped, a newline too.
abbrev pub typed : ℕ → Line → Line
typed byte l =
    let byte' = if byte == 13 then newline else byte in
    if byte' == backspace
    then record l { editing = drop_last l.editing }
    else if ltb (length l.ready + length l.editing) room
    then (if byte' == newline
        then record { ready = l.ready ++ l.editing ++ byte' ∷ []; editing = [] }
        else record l { editing = l.editing ++ byte' ∷ [] })
    else l
