-- ===== src/Utils.antt =====
-- src/utils/mem.c and src/utils/str.c. Memory is the byte at each address; a C string is the list of
-- its characters before the null character.
pub mod Bytes
pub mod Strings
use karg.Base.{
  ℕ, zero, suc, ◌+◌, ◌-◌, Bool, true, false, List, [], ◌∷◌, ◌==◌, leb, if◌then◌else◌, ℤ, pos,
  negate,
}
use karg.Kernel.{put}

-- The loops, `n` rounds from the index `i` on.
pub mem_set_from : (n i : ℕ) (dst val : ℕ) → (ℕ → ℕ) → ℕ → ℕ
mem_set_from zero i dst val m = m
mem_set_from (suc n) i dst val m = mem_set_from n (i + 1) dst val (put m (dst + i) val)

abbrev pub mem_set : (dst val size : ℕ) → (ℕ → ℕ) → ℕ → ℕ
mem_set dst val size m = mem_set_from size 0 dst val m

pub mem_copy_from : (n i : ℕ) (dst src : ℕ) → (ℕ → ℕ) → ℕ → ℕ
mem_copy_from zero i dst src m = m
mem_copy_from (suc n) i dst src m = mem_copy_from n (i + 1) dst src (put m (dst + i) (m (src + i)))

abbrev pub mem_copy : (dst src size : ℕ) → (ℕ → ℕ) → ℕ → ℕ
mem_copy dst src size m = mem_copy_from size 0 dst src m

-- The difference of two characters, as an `int`.
abbrev pub diff : ℕ → ℕ → ℤ
diff a b = if leb b a then pos (a - b) else negate (b - a)

pub str_cmp : List ℕ → List ℕ → ℤ
str_cmp [] [] = pos 0
str_cmp [] (b ∷ ys) = diff 0 b
str_cmp (a ∷ xs) [] = diff a 0
str_cmp (a ∷ xs) (b ∷ ys) = let rest = str_cmp xs ys in if a == b then rest else diff a b

unfoldable pub str_len : List ℕ → ℕ
str_len [] = 0
str_len (c ∷ cs) = str_len cs + 1
