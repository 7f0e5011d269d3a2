-- ===== src/Errno/Names.antt =====
-- What `errno_name` answers for the numbers of the header and for all others.
use Prim.Native.String.{String}
use karg.Base.{
  ℕ, ◌≡◌, ◌↔◌, refl, ◌⊎◌, inl, inr, Bool, true, false, some, List, [], ◌∷◌, arith, ◌==◌,
  if◌then◌else◌,
}
use karg.Errno.{cases, find_case, errno_name}

-- No value stands in two rows.
abbrev pub has_code : ℕ → List (ℕ × String) → Bool
has_code n [] = false
has_code n ((v, s) ∷ cs) = if n == v then true else has_code n cs

abbrev pub IsRow : ℕ → String → List (ℕ × String) → Type 0
IsRow n s [] = ⊥
IsRow n s ((v, t) ∷ cs) = ((n ≡ v) × (s ≡ t)) ⊎ IsRow n s cs

abbrev pub has_distinct_codes : List (ℕ × String) → Bool
has_distinct_codes [] = true
has_distinct_codes ((v, s) ∷ cs) = if has_code v cs then false else has_distinct_codes cs

has_code-row : (n : ℕ) (s : String) (cs : List (ℕ × String)) → IsRow n s cs → has_code n cs ≡ true
has_code-row n s [] r = elim r [ ]
has_code-row n s ((v, t) ∷ cs) (inl e) = ground arith
has_code-row n s ((v, t) ∷ cs) (inr r) = ground (arith, has_code-row n s cs r)

find_case-row :
    (n : ℕ) (s : String) (cs : List (ℕ × String))
    → has_distinct_codes cs ≡ true
    → IsRow n s cs
    → find_case n cs ≡ some s
find_case-row n s [] d r = elim r [ ]
find_case-row n s ((v, t) ∷ cs) d (inl e) = ground arith
find_case-row n s ((v, t) ∷ cs) d (inr r) =
    ground (arith, find_case-row n s cs, has_code-row n s cs r)

find_case-IsRow :
    (n : ℕ) (s : String) (cs : List (ℕ × String)) → find_case n cs ≡ some s → IsRow n s cs
find_case-IsRow n s [] e = cc
find_case-IsRow n s ((v, t) ∷ cs) e = ground (arith, find_case-IsRow n s cs)

cases_distinct : has_distinct_codes cases ≡ true
cases_distinct = refl

-- `errno_name` answers a text for a number exactly when the header defines an error of that number
-- and that name: no label is shadowed by an earlier one, and every other number gives `nullptr`.
pub errno_name_iff : (n : ℕ) (s : String) → (errno_name n ≡ some s) ↔ IsRow n s cases
unfolding errno_name
errno_name_iff n s = (find_case-IsRow n s cases, find_case-row n s cases cases_distinct)
