-- ===== src/Vm/Walk.antt =====
-- The way of an address through the tables, and the roles that the frames of memory play in it.
use karg.Base.{
  zero, suc, ap, ◌∙◌, false, ◌||◌, ℕ, ◌+◌, ◌*◌, ◌/◌, ◌%◌, ◌^◌, ◌<◌, ◌≤◌, ◌≡◌, refl, Bool, true,
  ◌&&◌, Option, none, some, ◌>>=◌, List, [], ◌∷◌, ◌==◌, if◌then◌else◌, Distinct, test_bit, or_bit,
  arith, Bool-cases, subst, sym, inl, inr,
}
use karg.PageAlloc.{page_size}
use karg.Vm.{
  zero_pte, Pte, Mm, is_valid, entry, idx0, idx1, idx2, init_pte, zero_page, with_flag, leaf_flags,
}

-- The permissions of an entry: bits 0 to 3 are to read, to write, to execute, and to do so in user mode.
abbrev pub permissions : Pte → ℕ
permissions e = e.flags / 2 % 16

-- What a valid entry says in one word: the address of its frame, with the permissions in the low bits.
abbrev pub target : Pte → Option ℕ
target e = if is_valid e then some (e.ppn * page_size + permissions e) else none

abbrev pub look : Mm → ℕ → ℕ → Option ℕ
look m table i = target (m.pte (entry table i))

-- The word of the last entry on the way of a virtual address, if all three entries are valid.
unfoldable pub walk : ℕ → ℕ → Mm → Option ℕ
walk root virt m = look m root (idx0 virt) >>= λ table1.
    look m table1 (idx1 virt) >>= λ table2. look m table2 (idx2 virt)

-- The permissions in the word of an entry, and none where there is no entry.
abbrev pub held : Option ℕ → ℕ
held none = 0
held (some x) = x % page_size

-- The roles of frames: a table knows the indices on its path from the root.
pub data Role : Type 0 where
  free other root : Role
  mid : ℕ → Role
  leaf : ℕ → ℕ → Role

-- The role of what entry `i` of a table may point at.
abbrev pub child : Role → ℕ → Option Role
child root i = some (mid i)
child (mid i) j = some (leaf i j)
child _ i = none

abbrev pub is_table : Role → Bool
is_table root = true
is_table (mid i) = true
is_table (leaf i j) = true
is_table _ = false

-- A frame's address: it is aligned, not null, and its number fits `ppn`.
abbrev pub IsFrame : ℕ → Type 0
IsFrame a = (a % page_size ≡ 0) × (0 < a) × (a < 2 ^ 56)

abbrev pub AllFree : (ℕ → Role) → List ℕ → Type 0
AllFree role [] = Unit
AllFree role (p ∷ ps) = IsFrame p × (role p ≡ free) × AllFree role ps

-- The tables below `page_table` form a tree: every valid entry points at the frame whose role is
-- that entry's place, and has no permission, so no two entries share a table, and no table is a free page. An
-- entry of a table that is not valid has no permission either.
pub record IsTree (role : ℕ → Role) (page_table : ℕ) (m : Mm) : Type 0 where
  pub top : role page_table ≡ root
  pub frame : IsFrame page_table
  pub unique : Distinct m.free
  pub pages : AllFree role m.free
  pub aligned : (a i : ℕ) (r : Role) → child (role a) i ≡ some r → a % page_size ≡ 0
  pub points :
      (a i t : ℕ) (r : Role)
      → child (role a) i ≡ some r
      → i < 512
      → look m a i ≡ some t
      → (role t ≡ r) × IsFrame t
  pub blank :
      (a i : ℕ)
      → is_table (role a) ≡ true
      → a % page_size ≡ 0
      → i < 512
      → look m a i ≡ none
      → permissions (m.pte (entry a i)) ≡ 0

-- The roles but for the frame `p`, which gets the role `r`.
abbrev pub assign : (ℕ → Role) → ℕ → Role → ℕ → Role
assign role p r a = if a == p then r else role a

-- Two entries of frames are the same only if frame and index are.
entry-eq :
    (a b i j : ℕ)
    → a % page_size ≡ 0
    → b % page_size ≡ 0
    → i < 512
    → j < 512
    → (entry a i == entry b j) ≡ ((a == b) && (i == j))
entry-eq a b i j p q h k = ground arith

-- Further flags leave the valid bit set.
bit0_of_add :
    (b : Bool) (x d : ℕ) → test_bit x 0 ≡ true → test_bit (if b then x else x + 2 * d) 0 ≡ true
bit0_of_add b x d h = ground arith

with_flag-IsSet :
    (flags k d f : ℕ)
    → 2 ^ (k + 1) ≡ 2 * d
    → test_bit f 0 ≡ true
    → test_bit (with_flag flags k f) 0 ≡ true
with_flag-IsSet flags k d f e h = elim (Bool-cases (test_bit flags k)) [
  | inl b ↦ rw b (
      subst (λ z. test_bit (if test_bit f (k + 1) then f else f + z) 0 ≡ true) (sym e)
        (bit0_of_add (test_bit f (k + 1)) f d h))
  | inr b ↦ rw b h
]

leaf_flags-IsSet : (flags old : ℕ) → test_bit (leaf_flags flags old) 0 ≡ true
leaf_flags-IsSet flags old = with_flag-IsSet flags 3 8 _ refl (
    with_flag-IsSet flags 2 4 _ refl (
      with_flag-IsSet flags 1 2 _ refl
        (with_flag-IsSet flags 0 1 (or_bit old 0) refl (ground arith))))

frame_number : (page : ℕ) → IsFrame page → page / page_size % 2 ^ 44 * page_size ≡ page
frame_number page f = omega (arith, f.0, f.2)

-- The permissions asked for, and those that were there.
abbrev pub grant : (flags held k : ℕ) → ℕ
grant flags held k = if test_bit flags k || test_bit held k then 2 ^ k else 0

abbrev pub granted : (flags held : ℕ) → ℕ
granted flags held =
    grant flags held 0 + grant flags held 1 + grant flags held 2 + grant flags held 3

-- All permissions asked for are there.
abbrev pub Covers : (flags allowed : ℕ) → Type 0
Covers flags allowed = (k : ℕ) → k < 4 → test_bit flags k ≡ true → test_bit allowed k ≡ true

-- What is granted is what was asked for and what was there.
pub granted-bit :
    (flags h k : ℕ) → k < 4 → test_bit (granted flags h) k ≡ (test_bit flags k || test_bit h k)
granted-bit flags h k l = bits (λ j. test_bit flags j || test_bit h j) k l
  where
    bits :
        (b : ℕ → Bool) (k : ℕ)
        → k < 4
        → test_bit
            ((if b 0 then 1 else 0)
              + (if b 1 then 2 else 0)
              + (if b 2 then 4 else 0)
              + (if b 3 then 8 else 0))
            k
          ≡ b k
    bits b zero l = ground arith
    bits b (suc zero) l = ground arith
    bits b (suc (suc zero)) l = ground arith
    bits b (suc (suc (suc zero))) l = ground arith
    bits b (suc (suc (suc (suc k)))) l = absurd (omega (arith, l))

at_most : (b : Bool) (n : ℕ) → (if b then n else 0) ≤ n
at_most b n = ground arith

pub granted-below : (flags held : ℕ) → granted flags held < page_size
granted-below flags h =
    let bit : ℕ → Bool = λ k. test_bit flags k || test_bit h k in
    omega (arith, at_most (bit 0) 1, at_most (bit 1) 2, at_most (bit 2) 4, at_most (bit 3) 8)

-- The word of an entry that `init_pte` has written covers what was asked for, and what was covered.
pub given-Covers :
    (frame flags h : ℕ)
    → IsFrame frame
    → let low = (frame + granted flags h) % page_size in
      Covers flags low × ((asked : ℕ) → Covers asked h → Covers asked low)
given-Covers frame flags h f =
    let low : (frame + granted flags h) % page_size ≡ granted flags h =
      omega (arith, f.0, granted-below flags h) in
    (
      (λ k l b. rw low (granted-bit flags h k l ∙ rw b refl)),
      (λ asked c k l b. rw low (granted-bit flags h k l ∙ ground (arith, c k l b))),
    )

-- What `init_pte` does to the entries, for two frames.
pub pte-init_pte :
    (m : Mm) (t i page flags a j : ℕ)
    → t % page_size ≡ 0
    → a % page_size ≡ 0
    → i < 512
    → j < 512
    → ((a == t) && (j == i)) ≡ false
    → (init_pte (entry t i) page flags m).pte (entry a j) ≡ m.pte (entry a j)
pte-init_pte m t i page flags a j ft fa h k n = ground (arith, entry-eq a t j i fa ft k h, n)

-- One flag, by the number that it has among the permissions.
abbrev added : (b : Bool) (k h : ℕ) → ℕ
added b k h = if b then or_bit h k else h

added0 : (b : Bool) (f : ℕ) → (if b then or_bit f 1 else f) / 2 % 16 ≡ added b 0 (f / 2 % 16)
added0 b f = ground arith

added1 : (b : Bool) (f : ℕ) → (if b then or_bit f 2 else f) / 2 % 16 ≡ added b 1 (f / 2 % 16)
added1 b f = ground arith

added2 : (b : Bool) (f : ℕ) → (if b then or_bit f 3 else f) / 2 % 16 ≡ added b 2 (f / 2 % 16)
added2 b f = ground arith

added3 : (b : Bool) (f : ℕ) → (if b then or_bit f 4 else f) / 2 % 16 ≡ added b 3 (f / 2 % 16)
added3 b f = ground arith

abbrev bit_of : Bool → ℕ → ℕ → ℕ
bit_of b k h = if b || test_bit h k then 2 ^ k else 0

-- A flag leaves the bits below and above it.
split0 : (b : Bool) (h : ℕ) → (added b 0 h ≡ bit_of b 0 h + h / 2 * 2) × (added b 0 h / 2 ≡ h / 2)
split0 b h = (ground arith, ground arith)

split1 :
    (b : Bool) (h : ℕ)
    → (added b 1 h ≡ h % 2 + bit_of b 1 h + h / 4 * 4) × (added b 1 h / 4 ≡ h / 4)
split1 b h = (ground arith, ground arith)

split2 :
    (b : Bool) (h : ℕ)
    → (added b 2 h ≡ h % 4 + bit_of b 2 h + h / 8 * 8) × (added b 2 h / 8 ≡ h / 8)
split2 b h = (ground arith, ground arith)

split3 : (b : Bool) (h : ℕ) → h < 16 → added b 3 h ≡ h % 8 + bit_of b 3 h
split3 b h l = ground arith

added-bits :
    (a b c d : Bool) (h : ℕ)
    → h < 16
    → added d 3 (added c 2 (added b 1 (added a 0 h)))
      ≡ bit_of a 0 h + bit_of b 1 h + bit_of c 2 h + bit_of d 3 h
added-bits a b c d h l =
    let x = added a 0 h in
    let y = added b 1 x in
    let z = added c 2 y in
    let (x_is, x_up) = split0 a h in
    let (y_is, y_up) = split1 b x in
    let (z_is, z_up) = split2 c y in
    let x4 : x / 4 ≡ h / 4 = omega (arith, x_up) in
    let y8 : y / 8 ≡ h / 8 = omega (arith, x_up, y_up) in
    let bx : bit_of b 1 x ≡ bit_of b 1 h = ap (λ q. if b || q % 2 == 1 then 2 else 0) x_up in
    let cy : bit_of c 2 y ≡ bit_of c 2 h = ap (λ q. if c || q % 2 == 1 then 4 else 0) (y_up ∙ x4) in
    let dz : bit_of d 3 z ≡ bit_of d 3 h = ap (λ q. if d || q % 2 == 1 then 8 else 0) (z_up ∙ y8) in
    let z16 : z < 16 = omega (arith, z_up, y8, l) in
    let a2 : bit_of a 0 h < 2 = ground arith in
    let b4 : bit_of b 1 h % 2 ≡ 0 = ground arith in
    let b5 : bit_of b 1 h < 4 = ground arith in
    let c8 : bit_of c 2 h % 4 ≡ 0 = ground arith in
    let c9 : bit_of c 2 h < 8 = ground arith in
    sum (bit_of a 0 h) (bit_of b 1 h) (bit_of c 2 h) (bit_of d 3 h) h x y z x_is
      (y_is ∙ ap (λ q. x % 2 + q + x / 4 * 4) bx) (z_is ∙ ap (λ q. y % 4 + q + y / 8 * 8) cy) x_up
      y_up l a2 b4 b5 c8 c9 (split3 d z z16 ∙ ap (λ q. z % 8 + q) dz)
  where
    sum :
        (p q r t h x y z : ℕ) {w : ℕ}
        → x ≡ p + h / 2 * 2
        → y ≡ x % 2 + q + x / 4 * 4
        → z ≡ y % 4 + r + y / 8 * 8
        → x / 2 ≡ h / 2
        → y / 4 ≡ x / 4
        → h < 16
        → p < 2
        → q % 2 ≡ 0
        → q < 4
        → r % 4 ≡ 0
        → r < 8
        → w ≡ z % 8 + t
        → w ≡ p + q + r + t
    sum p q r t h x y z hx hy hz ux uy l a b c d e hw =
        omega (arith, hx, hy, hz, ux, uy, l, a, b, c, d, e, hw)

permissions-leaf_flags :
    (flags old : ℕ) → leaf_flags flags old / 2 % 16 ≡ granted flags (old / 2 % 16)
permissions-leaf_flags flags old =
    let f₀ = or_bit old 0 in
    let f₁ = with_flag flags 0 f₀ in
    let f₂ = with_flag flags 1 f₁ in
    let f₃ = with_flag flags 2 f₂ in
    let start : f₀ / 2 % 16 ≡ old / 2 % 16 = ground arith in
    added3 (test_bit flags 3) f₃
    ∙ ap (added (test_bit flags 3) 3) (added2 (test_bit flags 2) f₂)
    ∙ ap (λ h. added (test_bit flags 3) 3 (added (test_bit flags 2) 2 h))
        (added1 (test_bit flags 1) f₁)
    ∙ ap
        (λ h.
          added (test_bit flags 3) 3 (added (test_bit flags 2) 2 (added (test_bit flags 1) 1 h)))
        (added0 (test_bit flags 0) f₀ ∙ ap (added (test_bit flags 0) 0) start)
    ∙ added-bits (test_bit flags 0) (test_bit flags 1) (test_bit flags 2) (test_bit flags 3)
        (old / 2 % 16) (omega arith)

pub look-init_pte :
    (m : Mm) (t i page flags a j : ℕ)
    → IsFrame t
    → IsFrame page
    → a % page_size ≡ 0
    → i < 512
    → j < 512
    → look (init_pte (entry t i) page flags m) a j ≡ (
        if (a == t) && (j == i)
        then some (page + granted flags (permissions (m.pte (entry t i))))
        else look m a j)
look-init_pte m t i page flags a j ft fp fa h k = ground (
  arith,
  entry-eq a t j i fa ft.0 k h,
  leaf_flags-IsSet flags (m.pte (entry t i)).flags,
  permissions-leaf_flags flags (m.pte (entry t i)).flags,
  frame_number page fp,
)

-- A page of zeros holds no valid entry.
pub look-zero_page :
    (m : Mm) (page a j : ℕ)
    → page % page_size ≡ 0
    → a % page_size ≡ 0
    → j < 512
    → look (zero_page page m) a j ≡ (if a == page then none else look m a j)
look-zero_page m page a j fp fa k = ground arith

pub pte-zero_page :
    (m : Mm) (page a j : ℕ)
    → page % page_size ≡ 0
    → a % page_size ≡ 0
    → j < 512
    → (zero_page page m).pte (entry a j) ≡ (if a == page then zero_pte else m.pte (entry a j))
pte-zero_page m page a j fp fa k = ground arith
