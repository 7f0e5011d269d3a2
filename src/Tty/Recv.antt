-- ===== src/Tty/Recv.antt =====
-- `ldisc_recv_byte` against the line that is typed.
use karg.Base.{
  ℕ, ◌+◌, ◌%◌, ◌≡◌, refl, true, false, List, [], ◌∷◌, ◌++◌, ◌==◌, ltb, if◌then◌else◌, length,
  length-append, arith, append_assoc, Bool-cases, inl, inr,
}
use karg.Tty.{Tty, Reply, newline, backspace, tty_buf_size, erase_last, store_byte, edit}
use karg.Tty.Spec.{Line, room, typed}
use karg.Circular.{
  write_byte, drop_last, Holds, Holds-append, Holds-write, Holds-drop_last, length-drop_last,
}
use karg.Tty.Ring.{Represents}

-- The control block stands for the line, and the signals are as many as the bytes that the line has
-- now made ready. Nothing is done to the reader's side.
pub record Follows (t : Tty) (l l' : Line) (t' : Tty) (r : Reply) : Type 0 where
  pub represents : Represents t' l'
  pub signalled : length l'.ready ≡ length l.ready + r.signals
  pub head_kept : t'.rx_head ≡ t.rx_head
  pub sem_kept : t'.rx_sem ≡ t.rx_sem

drop_last-empty : (xs : List ℕ) → length xs ≡ 0 → drop_last xs ≡ xs
drop_last-empty [] e = refl
drop_last-empty (x ∷ xs) e = absurd (omega arith)

erase_last-Follows :
    (t : Tty) (l : Line)
    → Represents t l
    → let (t', r) = erase_last t in Follows t l (record l { editing = drop_last l.editing }) t' r
unfolding erase_last
erase_last-Follows t l v = elim (Bool-cases (ltb 0 t.cursor_pos)) [
  | inl c ↦ rw c (record {
    represents = record {
      head_in = v.head_in;
      ready = v.ready;
      editing =
          Holds-drop_last 128 t.rx_buf ((t.rx_head + length l.ready) % 128) l.editing v.editing;
      tail = ground (arith, v.tail, v.head_in, v.cursor, v.fits, length-drop_last l.editing);
      cursor = ground (arith, v.cursor, length-drop_last l.editing);
      fits = ground (arith, v.fits, length-drop_last l.editing);
    };
    signalled = omega arith;
    head_kept = refl;
    sem_kept = refl;
  })
  | inr c ↦
      rw (c, drop_last-empty l.editing (ground (arith, v.cursor)))
        (record { represents = v; signalled = omega arith; head_kept = refl; sem_kept = refl })
]

-- What `store_byte` does to the line, for a byte that is neither a backspace nor a carriage return.
abbrev stored : ℕ → Line → Line
stored byte l =
    if ltb (length l.ready + length l.editing) room
    then (if byte == newline
        then record { ready = l.ready ++ l.editing ++ byte ∷ []; editing = [] }
        else record l { editing = l.editing ++ byte ∷ [] })
    else l

-- The test for a full buffer is the specification's.
full_test :
    (t : Tty) (l : Line)
    → Represents t l
    → ((t.rx_tail + 1) % tty_buf_size == t.rx_head)
      ≡ (if ltb (length l.ready + length l.editing) room then false else true)
full_test t l v = ground (arith, v.tail, v.head_in, v.fits)

module _ (t : Tty) (l : Line) (v : Represents t l) (byte : ℕ)
    (free : ltb (length l.ready + length l.editing) room ≡ true) where
  Holds-ready : Holds 128 (write_byte t.rx_buf t.rx_tail byte) t.rx_head l.ready
  Holds-ready =
      Holds-write 128 t.rx_buf t.rx_head t.rx_tail byte (length l.ready + length l.editing) l.ready
        v.head_in (omega arith) (ground arith) (ground (arith, v.tail)) v.ready

  -- The new byte stands behind those of the line that is edited.
  Holds-editing :
      Holds 128
        (write_byte t.rx_buf t.rx_tail byte)
        ((t.rx_head + length l.ready) % 128)
        (l.editing ++ byte ∷ [])
  Holds-editing =
      Holds-append 128 (write_byte t.rx_buf t.rx_tail byte) ((t.rx_head + length l.ready) % 128)
        l.editing (byte ∷ []) (omega arith)
        (Holds-write 128 t.rx_buf ((t.rx_head + length l.ready) % 128) t.rx_tail byte
          (length l.editing) l.editing (omega arith) (omega arith) (ground arith)
          (ground (arith, v.tail, v.head_in)) v.editing)
        (ground (arith, v.tail, v.head_in), tt)

  Holds-stored :
      Holds 128 (write_byte t.rx_buf t.rx_tail byte) t.rx_head (l.ready ++ l.editing ++ byte ∷ [])
  Holds-stored = rw append_assoc (
      Holds-append 128 (write_byte t.rx_buf t.rx_tail byte) t.rx_head l.ready
        (l.editing ++ byte ∷ []) v.head_in Holds-ready Holds-editing)

store_byte-Follows :
    (byte : ℕ) (t : Tty) (l : Line)
    → Represents t l
    → let (t', r) = store_byte byte t in Follows t l (stored byte l) t' r
unfolding store_byte
store_byte-Follows byte t l v = elim (Bool-cases (ltb (length l.ready + length l.editing) room)) [
  | inr c ↦
      rw (full_test t l v, c)
        (record { represents = v; signalled = omega arith; head_kept = refl; sem_kept = refl })
  | inl c ↦
      rw (full_test t l v, c)
        (elim (Bool-cases (byte == newline)) [
          | inl n ↦ rw n (record {
            represents = record {
              head_in = v.head_in;
              ready = Holds-stored t l v byte c;
              editing = tt;
              tail = ground (
                arith,
                v.tail,
                v.head_in,
                length-append (l.ready ++ l.editing) (byte ∷ []),
                length-append l.ready l.editing,
              );
              cursor = refl;
              fits = ground (
                arith,
                c,
                length-append (l.ready ++ l.editing) (byte ∷ []),
                length-append l.ready l.editing,
              );
            };
            signalled = ground (
              arith,
              v.cursor,
              length-append (l.ready ++ l.editing) (byte ∷ []),
              length-append l.ready l.editing,
            );
            head_kept = refl;
            sem_kept = refl;
          })
          | inr n ↦ rw n (record {
            represents = record {
              head_in = v.head_in;
              ready = Holds-ready t l v byte c;
              editing = Holds-editing t l v byte c;
              tail = ground (arith, v.tail, v.head_in, length-append l.editing (byte ∷ []));
              cursor = ground (arith, v.cursor, length-append l.editing (byte ∷ []));
              fits = ground (arith, c, length-append l.editing (byte ∷ []));
            };
            signalled = omega arith;
            head_kept = refl;
            sem_kept = refl;
          })
        ])
]

-- `ldisc_recv_byte`'s two `switch` statements, on the control block of a terminal that stands for a
-- line: the control block then stands for the line with the byte typed, it gives exactly one signal
-- to the readers for each byte that the line has made ready, and it touches neither the reader's
-- index nor the semaphore otherwise. So backspace never takes back a finished line, and the buffer
-- never overflows.
pub edit-typed :
    (byte : ℕ) (t : Tty) (l : Line)
    → Represents t l
    → let (t', r) = edit byte t in Follows t l (typed byte l) t' r
unfolding edit
edit-typed byte t l v =
    let b = if byte == 13 then newline else byte in
    elim (Bool-cases (b == backspace)) [
      | inl e ↦ rw e (erase_last-Follows t l v)
      | inr e ↦ rw e (store_byte-Follows b t l v)
    ]
