-- ===== src/Tty/Read.antt =====
-- `read` of a terminal: it takes from the finished lines.
use karg.Base.{
  ℕ, zero, suc, ◌≡◌, refl, ap, ◌∙◌, Option, none, some, List, [], ◌∷◌, ◌++◌, append-nil, ◌==◌,
  if◌then◌else◌, length, arith, subst, append_assoc, Bool-cases, inl, inr, pos,
}
use karg.Kernel.{Kernel}
use karg.Sem.Wait.{sem_wait-pos}
use karg.Tty.{Tty, ReadState, done, newline, advance, read_loop}
use karg.Tty.Spec.{Line}
use karg.Circular.{Holds}
use karg.Tty.Ring.{Represents}

abbrev pub prepend : ℕ → Option (List ℕ × List ℕ) → Option (List ℕ × List ℕ)
prepend x none = none
prepend x (some (got, left)) = some (x ∷ got, left)

-- What a read of at most `n` bytes takes of the finished lines, and what it leaves: it stops behind
-- a newline. `none`: the lines end first, and the reader has to wait.
abbrev pub takes : ℕ → List ℕ → Option (List ℕ × List ℕ)
takes zero xs = some ([], xs)
takes (suc n) [] = none
takes (suc n) (x ∷ xs) =
    let rest = takes n xs in if x == newline then some (x ∷ [], xs) else prepend x rest

-- The reader's state after it has taken one byte.
abbrev pub taken_one : Tty → ℕ → Tty
taken_one t n = advance (record t { rx_sem = record t.rx_sem { val = pos n } })

Represents-taken :
    (t : Tty) (x : ℕ) (xs editing : List ℕ)
    → Represents t (record { ready = x ∷ xs; editing = editing })
    → Represents (taken_one t (length xs)) (record { ready = xs; editing = editing })
Represents-taken t x xs editing v = record {
  head_in = omega arith;
  ready = v.ready.1;
  editing = subst (λ i. Holds 128 t.rx_buf i editing) (omega arith) v.editing;
  tail = ground (arith, v.tail);
  cursor = v.cursor;
  fits = omega (arith, v.fits);
}

-- What a read that need not wait has done, when it began with `bytes` read.
record Got (k : Kernel) (bytes got left editing : List ℕ) (r : Option ReadState) : Type 0 where
  after : Tty
  result :
      r
      ≡ some (record {
        reading = done (pos (length (bytes ++ got))) (bytes ++ got);
        tty = after;
        kernel = k;
      })
  represents : Represents after (record { ready = left; editing = editing })
  counted : after.rx_sem.val ≡ pos (length left)

-- A read that was begun with one byte more.
Got-cons :
    (k : Kernel) (bytes : List ℕ) (x : ℕ) (got left editing : List ℕ) (r : Option ReadState)
    → Got k (bytes ++ x ∷ []) got left editing r
    → Got k bytes (x ∷ got) left editing r
Got-cons k bytes x got left editing r g = record {
  after = g.after;
  result =
      subst
        (λ (bs : List ℕ).
          r ≡ some (record { reading = done (pos (length bs)) bs; tty = g.after; kernel = k }))
        (append_assoc bytes (x ∷ []) got) g.result;
  represents = g.represents;
  counted = g.counted;
}

Got-further :
    (k : Kernel) (bytes : List ℕ) (x : ℕ) (o : Option (List ℕ × List ℕ)) (got left editing : List ℕ)
    (r : Option ReadState)
    → ((got' left' : List ℕ)
        → o ≡ some (got', left')
        → Got k (bytes ++ x ∷ []) got' left' editing r)
    → prepend x o ≡ some (got, left)
    → Got k bytes got left editing r
Got-further k bytes x none got left editing r ih e = cc
Got-further k bytes x (some (g, l)) got left editing r ih e =
    let eg : x ∷ g ≡ got = ground arith in
    let el : l ≡ left = ground arith in
    subst (λ gs. Got k bytes gs left editing r) eg
      (subst (λ ls. Got k bytes (x ∷ g) ls editing r) el
        (Got-cons k bytes x g l editing r (ih g l refl)))

read_loop-Got :
    (n : ℕ) (t : Tty) (k : Kernel) (bytes ready editing got left : List ℕ)
    → Represents t (record { ready = ready; editing = editing })
    → t.rx_sem.val ≡ pos (length ready)
    → takes n ready ≡ some (got, left)
    → Got k bytes got left editing (read_loop n bytes t k)
unfolding read_loop
read_loop-Got zero t k bytes ready editing got left v c e =
    let eg : [] ≡ got = ground arith in
    let el : ready ≡ left = ground arith in
    record {
      after = t;
      result = rw (← eg, append-nil) refl;
      represents = subst (λ xs. Represents t (record { ready = xs; editing = editing })) el v;
      counted = c ∙ ap (λ xs. pos (length xs)) el;
    }
read_loop-Got (suc n) t k bytes [] editing got left v c e = cc
read_loop-Got (suc n) t k bytes (x ∷ xs) editing got left v c e =
    rw (sem_wait-pos t.rx_sem k (length xs) c, v.ready.0)
      (elim (Bool-cases (x == newline)) [
        | inl nl ↦
            let eg : x ∷ [] ≡ got = ground (arith, e, nl) in
            let el : xs ≡ left = ground (arith, e, nl) in
            rw nl (record {
              after = taken_one t (length xs);
              result = rw (← eg) refl;
              represents =
                  subst
                    (λ ys.
                      Represents (taken_one t (length xs))
                        (record { ready = ys; editing = editing }))
                    el (Represents-taken t x xs editing v);
              counted = ap (λ ys. pos (length ys)) el;
            })
        | inr nl ↦ rw nl (
            Got-further k bytes x (takes n xs) got left editing _
              (λ got' left' e'.
                read_loop-Got n (taken_one t (length xs)) k (bytes ++ x ∷ []) xs editing got' left'
                  (Represents-taken t x xs editing v) refl e')
              (ground (arith, e, nl)))
      ])

-- A read of `size` bytes from a terminal that stands for a line, whose semaphore counts the bytes of
-- the finished lines: when these hold `size` bytes or a newline among the first `size`, it does not
-- block. It returns those bytes, up to and with the first newline, and their number, leaves the
-- kernel as it is, and the terminal stands for what is left, with the semaphore counting that.
pub read-takes :
    (size : ℕ) (t : Tty) (k : Kernel) (l : Line) (got left : List ℕ)
    → Represents t l
    → t.rx_sem.val ≡ pos (length l.ready)
    → takes size l.ready ≡ some (got, left)
    → (t' : Tty) × (read_loop size [] t k
        ≡ some (record { reading = done (pos (length got)) got; tty = t'; kernel = k }))
      × Represents t' (record l { ready = left })
      × (t'.rx_sem.val ≡ pos (length left))
read-takes size t k l got left v c e =
    let g = read_loop-Got size t k [] l.ready l.editing got left v c e in
    (g.after, g.result, g.represents, g.counted)
