-- ===== src/Proc/Create/Args/Stored.antt =====
-- The arguments on the new stack.
use karg.Base.{
  ℕ, zero, suc, ◌+◌, ◌-◌, ◌/◌, ◌%◌, ◌^◌, ◌≤◌, ◌<◌, ◌≡◌, refl, sym, ◌∙◌, ◌⊎◌, false, List, [], ◌∷◌,
  length, arith,
}
use karg.Elf.{read_le}
use karg.Elf.Bytes.{read_le-same}
use karg.Kernel.{put}
use karg.Proc.Create.{sub_usize}
use karg.Proc.Create.Args.{store_le}
use karg.Utils.{mem_copy, str_len}
use karg.Utils.Bytes.{within, mem_copy_lem}

pub store_le-out : (n a v : ℕ) (m : ℕ → ℕ) (x : ℕ) → within a n x ≡ false → store_le n a v m x ≡ m x
unfolding store_le
store_le-out zero a v m x h = refl
store_le-out (suc n) a v m x h =
    ground (arith, store_le-out n (a + 1) (v / 2 ^ 8) (put m a (v % 2 ^ 8)) x)

-- The number has at most `n` bytes.
abbrev pub Fits : ℕ → ℕ → Type 0
Fits zero v = v ≡ 0
Fits (suc n) v = Fits n (v / 2 ^ 8)

-- What is written is read.
pub read_le-store_le : (n a v : ℕ) (m : ℕ → ℕ) → Fits n v → read_le n a (store_le n a v m) ≡ v
unfolding read_le store_le
read_le-store_le zero a v m h = sym h
read_le-store_le (suc n) a v m h = ground (
  arith,
  store_le-out n (a + 1) (v / 2 ^ 8) (put m a (v % 2 ^ 8)) a,
  read_le-store_le n (a + 1) (v / 2 ^ 8) (put m a (v % 2 ^ 8)) h,
)

pub Fits-word : (v : ℕ) → v < 2 ^ 64 → Fits 8 v
Fits-word v h = omega arith

-- The bytes from `a` on are the string's, and its terminator.
unfoldable pub Holds : (ℕ → ℕ) → ℕ → List ℕ → Type 0
Holds m a [] = m a ≡ 0
Holds m a (c ∷ cs) = (m a ≡ c) × Holds m (a + 1) cs

-- The pointers from `slot` on point at these strings, and the one behind them is null.
unfoldable pub HasArgs : (ℕ → ℕ) → ℕ → List (ℕ × List ℕ) → Type 0
unfolding Holds
HasArgs m slot [] = read_le 8 slot m ≡ 0
HasArgs m slot ((arg, s) ∷ args) = Holds m (read_le 8 slot m) s × HasArgs m (slot + 8) args

-- What the strings need.
unfoldable pub room : List (ℕ × List ℕ) → ℕ
room [] = 0
room ((arg, s) ∷ args) = length s + 1 + room args

-- The strings stand in memory.
unfoldable pub HoldAll : (ℕ → ℕ) → List (ℕ × List ℕ) → Type 0
unfolding Holds
HoldAll m [] = Unit
HoldAll m ((arg, s) ∷ args) = Holds m arg s × HoldAll m args

-- None of the strings reaches between `low` and `high`.
unfoldable pub AreOutside : (low high : ℕ) → List (ℕ × List ℕ) → Type 0
AreOutside low high [] = Unit
AreOutside low high ((arg, s) ∷ args) =
    ((arg + length s + 1 ≤ low) ⊎ (high ≤ arg)) × AreOutside low high args

pub str_len-length : (s : List ℕ) → str_len s ≡ length s
unfolding str_len
str_len-length [] = refl
str_len-length (c ∷ s) = omega (arith, str_len-length s)

pub Holds-moved :
    (s : List ℕ) (m m' : ℕ → ℕ) (a b : ℕ)
    → ((i : ℕ) → i ≤ length s → m' (b + i) ≡ m (a + i))
    → Holds m a s
    → Holds m' b s
unfolding Holds
Holds-moved [] m m' a b e h = ground (arith, e 0, h)
Holds-moved (c ∷ s) m m' a b e h = (
  ground (arith, e 0, h),
  Holds-moved s m m' (a + 1) (b + 1) (λ i l. ground (arith, e (i + 1))) h.1,
)

pub HoldAll-same :
    (args : List (ℕ × List ℕ)) (low high : ℕ) (m m' : ℕ → ℕ)
    → AreOutside low high args
    → ((x : ℕ) → (x < low) ⊎ (high ≤ x) → m' x ≡ m x)
    → HoldAll m args
    → HoldAll m' args
unfolding HoldAll AreOutside
HoldAll-same [] low high m m' o e h = tt
HoldAll-same ((arg, s) ∷ args) low high m m' o e h = (
  Holds-moved s m m' arg arg (λ i l. ground (arith, e (arg + i), o.0)) h.0,
  HoldAll-same args low high m m' o.1 e h.1,
)

-- One round of the loop.
module _ (slot usp low high arg : ℕ) (s : List ℕ) (m : ℕ → ℕ) (fits : low + (length s + 1) ≤ usp)
    (above : usp ≤ slot) (top : slot + 8 ≤ high) (word : high ≤ 2 ^ 64)
    (out : (arg + length s + 1 ≤ low) ⊎ (high ≤ arg)) where
  abbrev pub next : ℕ
  next = sub_usize usp (str_len s + 1)

  pub next-is : next ≡ usp - (length s + 1)
  next-is = omega (arith, str_len-length s)

  abbrev pub round : ℕ → ℕ
  round = mem_copy next arg (str_len s + 1) (store_le 8 slot next m)

  -- Only the pointer and the string change.
  pub round-out :
      (x : ℕ)
      → within slot 8 x ≡ false
      → within (usp - (length s + 1)) (length s + 1) x ≡ false
      → round x ≡ m x
  round-out x a b =
      mem_copy_lem next arg (str_len s + 1) (store_le 8 slot next m) x
        (omega (arith, next-is, str_len-length s, out))
      ∙ ground (arith, next-is, str_len-length s, store_le-out 8 slot next m x)

  pub round-string : (i : ℕ) → i ≤ length s → round (next + i) ≡ m (arg + i)
  round-string i l =
      mem_copy_lem next arg (str_len s + 1) (store_le 8 slot next m) (next + i)
        (omega (arith, next-is, str_len-length s, out))
      ∙ ground (arith, next-is, str_len-length s, store_le-out 8 slot next m (arg + i))

  pub round-slot : read_le 8 slot round ≡ next
  round-slot =
      read_le-same 8 slot (store_le 8 slot next m) round (λ x l u.
        mem_copy_lem next arg (str_len s + 1) (store_le 8 slot next m) x
          (omega (arith, next-is, str_len-length s, out))
        ∙ ground (arith, next-is, str_len-length s))
      ∙ read_le-store_le 8 slot next m (Fits-word next (omega (arith, next-is)))
