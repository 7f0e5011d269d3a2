-- ===== src/Tests/Terminal.antt =====
-- The terminal's line discipline, and the log.
use karg.Base.{
  ◌<◌, ◌≤◌, ◌≡◌, ◌⊎◌, refl, some, none, false, [], ◌∷◌, arith, pos, length, ◌==◌, if◌then◌else◌,
}
use karg.Tty.{Tty, edit, read_loop, done}
use karg.Tty.Spec.{Line, typed}
use karg.Tty.Ring.{Represents}
use karg.Tty.Recv.{Follows, edit-typed}
use karg.Tty.Read.{read-takes}
use karg.Log
use karg.Log.{Log, write, flush, slice, hex_digits}
use karg.Log.Buffer
use karg.Log.Buffer.{newest, write-newest}
use karg.Log.Flush.{flush-contents}
use karg.Log.Hex.{read_hex, hex_digits-roundtrip}
use karg.Tests.{sample}

-- A terminal in which "a\n" is ready, round the end of the array, and "b" is being edited.
abbrev term : Tty
term = record {
  src = none;
  sinks = [];
  cursor_pos = 1;
  rx_buf = λ i. if i == 127 then 97 else if i == 0 then 10 else if i == 1 then 98 else 0;
  rx_head = 127;
  rx_tail = 2;
  rx_sem = record { wait_queue = []; val = pos 2 };
}

abbrev line : Line
line = record { ready = 97 ∷ 10 ∷ []; editing = 98 ∷ [] }

term-Represents : Represents term line
term-Represents = record {
  head_in = omega arith;
  ready = (refl, (refl, tt));
  editing = (refl, tt);
  tail = refl;
  cursor = refl;
  fits = omega arith;
}

edit-typed_example : let (t', r) = edit 13 term in Follows term line (typed 13 line) t' r
edit-typed_example = edit-typed 13 term line term-Represents

read-takes_example :
    (t' : Tty) × (read_loop 64 [] term sample
      ≡ some (record { reading = done (pos 2) (97 ∷ 10 ∷ []); tty = t'; kernel = sample }))
    × Represents t' (record line { ready = [] })
    × (t'.rx_sem.val ≡ pos 0)
read-takes_example = read-takes 64 term sample line (97 ∷ 10 ∷ []) [] term-Represents refl refl

-- The log before anything is logged.
abbrev fresh : Log
fresh = record { inited = false; log_buf = λ i. 0; log_head = 0; log_tail = 0; out = [] }

fresh-Represents : Log.Buffer.Represents fresh (newest [])
fresh-Represents = record { head_in = omega arith; bytes = tt; tail = refl; fits = omega arith }

write-newest_example :
    Log.Buffer.Represents (write (104 ∷ 105 ∷ []) fresh) (newest (104 ∷ 105 ∷ []))
write-newest_example = write-newest (104 ∷ 105 ∷ []) fresh [] refl fresh-Represents

-- A log that goes round the end of the array.
abbrev wrapped : Log
wrapped = record {
  inited = false;
  log_buf = λ i. if i == 4095 then 104 else 105;
  log_head = 4095;
  log_tail = 1;
  out = [];
}

flush-contents_example :
    ((1 < 4095) × ((flush wrapped).out ≡ 104 ∷ 105 ∷ []))
    ⊎ ((4095 ≤ 1) × ((flush wrapped).out ≡ 104 ∷ 105 ∷ slice wrapped.log_buf 1 4095))
flush-contents_example =
    flush-contents wrapped (104 ∷ 105 ∷ []) (record {
      head_in = omega arith;
      bytes = (refl, (refl, tt));
      tail = refl;
      fits = omega arith;
    })

hex_digits-roundtrip_example :
    (read_hex 0 (hex_digits 16 0x80200000) ≡ 0x80200000) × (length (hex_digits 16 0x80200000) ≡ 16)
hex_digits-roundtrip_example = hex_digits-roundtrip 0x80200000 (omega arith)
