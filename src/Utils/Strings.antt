-- ===== src/Utils/Strings.antt =====
-- `str_cmp` and `str_len`.
use karg.Base.{ℕ, ◌≡◌, ◌≢◌, ◌↔◌, List, [], ◌∷◌, pos, arith}
use karg.Utils.{str_cmp}

-- No character of a string is the null character.
abbrev pub NonNull : List ℕ → Type 0
NonNull [] = Unit
NonNull (c ∷ cs) = (c ≢ 0) × NonNull cs

-- Two strings without null characters compare xs 0 exactly if they are equal.
pub str_cmp_iff : (xs ys : List ℕ) → NonNull xs → NonNull ys → (str_cmp xs ys ≡ pos 0) ↔ (xs ≡ ys)
unfolding str_cmp
str_cmp_iff [] [] h g = ground arith
str_cmp_iff [] (b ∷ ys) h g = ground arith
str_cmp_iff (a ∷ xs) [] h g = ground arith
str_cmp_iff (a ∷ xs) (b ∷ ys) h g = ground (arith, str_cmp_iff xs ys h.1 g.1)
