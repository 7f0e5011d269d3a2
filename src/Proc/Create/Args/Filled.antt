-- ===== src/Proc/Create/Args/Filled.antt =====
-- The whole loop: the new process finds its arguments.
use karg.Base.{
  ℕ, ◌+◌, ◌-◌, ◌*◌, ◌^◌, ◌≤◌, ◌<◌, ◌≡◌, refl, sym, ◌∙◌, ap, subst, ◌↔◌, false, List, [], ◌∷◌,
  length, arith,
}
use karg.Elf.{read_le}
use karg.Elf.Bytes.{read_le-same}
use karg.PageAlloc.{page_size}
use karg.Proc.Create.{sub_usize}
use karg.Proc.Create.Args.{store_le, put_args, fill_args}
use karg.Proc.Create.Args.Stored.{
  Holds-moved, HoldAll, HoldAll-same, HasArgs, AreOutside, room, next, next-is, round, round-out,
  str_len-length, round-string, round-slot, store_le-out, read_le-store_le, Fits-word,
}
use karg.Utils.{mem_copy, str_len}
use karg.Utils.Bytes.{within}

-- The loop writes the pointers and the strings, and nothing else.
put_args-out :
    (args : List (ℕ × List ℕ)) (slot usp low high : ℕ) (m : ℕ → ℕ) (x : ℕ)
    → low + room args ≤ usp
    → usp ≤ slot
    → slot + 8 * length args ≤ high
    → high ≤ 2 ^ 64
    → AreOutside low high args
    → within slot (8 * length args) x ≡ false
    → within (usp - room args) (room args) x ≡ false
    → (put_args slot usp args m).1 x ≡ m x
unfolding put_args room AreOutside
put_args-out [] slot usp low high m x f a t w o p q = refl
put_args-out ((arg, s) ∷ args) slot usp low high m x f a t w o p q =
    let is = next-is slot usp low high arg s m (omega arith) a (omega arith) w o.0 in
    let low₁ = next slot usp low high arg s m (omega arith) a (omega arith) w o.0 in
    let m₁ = round slot usp low high arg s m (omega arith) a (omega arith) w o.0 in
    put_args-out args (slot + 8) low₁ low high m₁ x (omega (arith, is)) (omega (arith, is))
      (omega arith) w o.1 (ground (arith, p)) (ground (arith, is, q))
    ∙ round-out slot usp low high arg s m (omega arith) a (omega arith) w o.0 x (ground (arith, p))
        (ground (arith, q))

-- Afterwards the pointers point at the strings.
put_args-HasArgs :
    (args : List (ℕ × List ℕ)) (slot usp low high : ℕ) (m : ℕ → ℕ)
    → low + room args ≤ usp
    → usp ≤ slot
    → slot + 8 * length args + 8 ≤ high
    → high ≤ 2 ^ 64
    → AreOutside low high args
    → HoldAll m args
    → read_le 8 (slot + 8 * length args) m ≡ 0
    → HasArgs (put_args slot usp args m).1 slot args
unfolding put_args room AreOutside HasArgs HoldAll
put_args-HasArgs [] slot usp low high m f a t w o h z = ground (arith, z)
put_args-HasArgs ((arg, s) ∷ args) slot usp low high m f a t w o h z =
    let fits : low + (length s + 1) ≤ usp = omega arith in
    let top : slot + 8 ≤ high = omega arith in
    let is = next-is slot usp low high arg s m fits a top w o.0 in
    let low₁ = next slot usp low high arg s m fits a top w o.0 in
    let m₁ = round slot usp low high arg s m fits a top w o.0 in
    let m' = (put_args (slot + 8) low₁ args m₁).1 in
    let out = round-out slot usp low high arg s m fits a top w o.0 in
    let kept : (x : ℕ)
        → within (slot + 8) (8 * length args) x ≡ false
        → within (low₁ - room args) (room args) x ≡ false
        → m' x ≡ m₁ x =
      λ x p q.
        put_args-out args (slot + 8) low₁ low high m₁ x (omega (arith, is)) (omega (arith, is))
          (omega arith) w o.1 p q in
    let pointer : read_le 8 slot m' ≡ low₁ =
      read_le-same 8 slot m₁ m' (λ x l u. kept x (ground (arith, l, u)) (ground (arith, l, u, is)))
      ∙ round-slot slot usp low high arg s m fits a top w o.0 in
    (
      Holds-moved s m m' arg (read_le 8 slot m')
          (λ i l.
            ap (λ p. m' (p + i)) pointer
            ∙ kept (low₁ + i) (ground (arith, l, is)) (ground (arith, l, is))
            ∙ round-string slot usp low high arg s m fits a top w o.0 i l)
          h.0,
      put_args-HasArgs args (slot + 8) low₁ low high m₁ (omega (arith, is)) (omega (arith, is))
          (omega arith) w o.1
          (HoldAll-same args low high m m₁ o.1
            (λ x p. out x (ground (arith, p)) (ground (arith, p))) h.1)
          (read_le-same 8 (slot + 8 + 8 * length args) m m₁
              (λ x l u. out x (ground (arith, l, u)) (ground (arith, l, u)))
            ∙ subst (λ y. read_le 8 y m ≡ 0) (omega arith) z),
    )

put_args-usp :
    (args : List (ℕ × List ℕ)) (slot usp : ℕ) (m : ℕ → ℕ)
    → usp < 2 ^ 64
    → room args ≤ usp
    → (put_args slot usp args m).0 ≡ usp - room args
unfolding put_args room
put_args-usp [] slot usp m w f = omega arith
put_args-usp ((arg, s) ∷ args) slot usp m w f =
    let low = sub_usize usp (str_len s + 1) in
    omega (
      arith,
      str_len-length s,
      put_args-usp args (slot + 8) low (mem_copy low arg (str_len s + 1) (store_le 8 slot low m)),
    )

-- With the null pointer before the loop, at the room `base` for the pointers.
filled :
    (user_stack base : ℕ) (args : List (ℕ × List ℕ)) (m : ℕ → ℕ)
    → user_stack + room args ≤ base
    → base + (length args + 1) * 8 ≡ user_stack + page_size
    → user_stack + page_size < 2 ^ 64
    → AreOutside user_stack (user_stack + page_size) args
    → HoldAll m args
    → let (usp, m') = put_args base base args (store_le 8 (base + length args * 8) 0 m) in
      HasArgs m' base args
      × (user_stack ≤ usp)
      × (usp ≡ base - room args)
      × ((x : ℕ) → within user_stack page_size x ≡ false → m' x ≡ m x)
filled user_stack base args m f b w o h =
    let end = base + length args * 8 in
    let high = user_stack + page_size in
    let m₁ = store_le 8 end 0 m in
    let out : (x : ℕ) → within end 8 x ≡ false → m₁ x ≡ m x = store_le-out 8 end 0 m in
    let usp = put_args-usp args base base m₁ (omega (arith, b)) (omega (arith, f)) in
    let none : read_le 8 (base + 8 * length args) m₁ ≡ 0 =
      subst (λ y. read_le 8 y m₁ ≡ 0) (omega arith)
        (read_le-store_le 8 end 0 m (Fits-word 0 (omega arith))) in
    (
      put_args-HasArgs args base base user_stack high m₁ f (omega arith) (omega (arith, b))
          (omega arith) o
          (HoldAll-same args user_stack high m m₁ o (λ x p. out x (ground (arith, p, b))) h) none,
      omega (arith, usp, f),
      usp,
      λ x p.
          put_args-out args base base user_stack high m₁ x f (omega arith) (omega (arith, b))
            (omega arith) o (ground (arith, p, b, f)) (ground (arith, p, b, f))
          ∙ out x (ground (arith, p, b)),
    )

-- If the strings with their terminators, the pointers to them and a null pointer need no more than a
-- page, and no string overlaps the new user stack, then `init_stacks` leaves there what it was
-- given: the pointers from `new_argv` on point at copies of the strings, in order, and a null
-- pointer is behind them; the stack pointer that the process starts with is in the page, below all of
-- this; and no byte outside the page changes.
pub fill_args-HasArgs :
    (user_stack : ℕ) (args : List (ℕ × List ℕ)) (m : ℕ → ℕ)
    → room args + (length args + 1) * 8 ≤ page_size
    → user_stack + page_size < 2 ^ 64
    → AreOutside user_stack (user_stack + page_size) args
    → HoldAll m args
    → let new_argv = user_stack + page_size - (length args + 1) * 8 in
      let (usp, m') = fill_args user_stack args m in
      HasArgs m' new_argv args
      × (user_stack ≤ usp)
      × (usp ≡ new_argv - room args)
      × ((x : ℕ) → within user_stack page_size x ≡ false → m' x ≡ m x)
unfolding fill_args
fill_args-HasArgs user_stack args m f w o h =
    let argc = length args in
    let high = user_stack + page_size in
    let base = high - (argc + 1) * 8 in
    let is : sub_usize high ((argc + 1) * 8) ≡ base = omega arith in
    let P = λ (b : ℕ).
      (let (usp, m') = put_args b b args (store_le 8 (b + argc * 8) 0 m) in
        HasArgs m' base args
        × (user_stack ≤ usp)
        × (usp ≡ base - room args)
        × ((x : ℕ) → within user_stack page_size x ≡ false → m' x ≡ m x)) in
    subst P (sym is) (filled user_stack base args m (omega arith) (omega arith) w o h)

-- There is no test that they fit: if the strings and pointers need more than the page, and not more
-- than there is memory below its end, the stack pointer that the process starts with is below the page, and it
-- is in the page exactly if they fit.
pub fill_args-below :
    (user_stack : ℕ) (args : List (ℕ × List ℕ)) (m : ℕ → ℕ)
    → user_stack + page_size < 2 ^ 64
    → room args + (length args + 1) * 8 ≤ user_stack + page_size
    → (user_stack ≤ (fill_args user_stack args m).0)
      ↔ (room args + (length args + 1) * 8 ≤ page_size)
unfolding fill_args
fill_args-below user_stack args m w f =
    let new_argv = sub_usize (user_stack + page_size) ((length args + 1) * 8) in
    let is : new_argv ≡ user_stack + page_size - (length args + 1) * 8 = omega arith in
    let usp =
      put_args-usp args new_argv new_argv (store_le 8 (new_argv + length args * 8) 0 m)
        (omega (arith, is)) (omega (arith, is)) in
    ground (arith, usp, is)
