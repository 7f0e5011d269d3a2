-- ===== src/Links/Ring.antt =====
-- Which sequence of nodes a list head stands for, and how that is read off and framed.
use karg.Base.{ℕ, ◌≡◌, ◌∙◌, true, false, List, [], ◌∷◌, ◌++◌, arith, ◌==◌, has, Distinct}
use karg.Links.{Memory, list_init_head, list_front, list_back, list_empty}

-- From `a` the `next` pointers lead through `xs` to `b`, and the `prev` pointers lead back.
abbrev pub Linked : Memory → ℕ → List ℕ → ℕ → Type 0
Linked m a [] b = (m.next a ≡ b) × (m.prev b ≡ a)
Linked m a (x ∷ xs) b = (m.next a ≡ x) × (m.prev x ≡ a) × Linked m x xs b

-- `head` is the head of a list of the nodes `xs`, which are distinct and do not hold the head.
pub record IsRing (m : Memory) (head : ℕ) (xs : List ℕ) : Type 0 where
  pub linked : Linked m head xs head
  pub distinct : Distinct (head ∷ xs)

-- The last node of `a ∷ xs`.
abbrev pub last : ℕ → List ℕ → ℕ
last a [] = a
last a (x ∷ xs) = last x xs

-- The first node of `xs`, or `d`.
abbrev pub first : List ℕ → ℕ → ℕ
first [] d = d
first (x ∷ xs) d = x

pub has-last : (a : ℕ) (xs : List ℕ) → has (last a xs) (a ∷ xs) ≡ true
has-last a [] = ground arith
has-last a (x ∷ xs) = ground (arith, has-last x xs)

pub prev-last : (m : Memory) (a : ℕ) (xs : List ℕ) (b : ℕ) → Linked m a xs b → m.prev b ≡ last a xs
prev-last m a [] b l = l.1
prev-last m a (x ∷ xs) b l = prev-last m x xs b l.2

pub next-first :
    (m : Memory) (a : ℕ) (xs : List ℕ) (b : ℕ) → Linked m a xs b → m.next a ≡ first xs b
next-first m a [] b l = l.0
next-first m a (x ∷ xs) b l = l.0

pub split :
    (m : Memory) (a : ℕ) (xs : List ℕ) (y : ℕ) (ys : List ℕ) (b : ℕ)
    → Linked m a (xs ++ y ∷ ys) b
    → Linked m a xs y × Linked m y ys b
split m a [] y ys b l = ((l.0, l.1), l.2)
split m a (x ∷ xs) y ys b l = let r = split m x xs y ys b l.2 in ((l.0, l.1, r.0), r.1)

pub join :
    (m : Memory) (a : ℕ) (xs : List ℕ) (y : ℕ) (ys : List ℕ) (b : ℕ)
    → Linked m a xs y
    → Linked m y ys b
    → Linked m a (xs ++ y ∷ ys) b
join m a [] y ys b l r = (l.0, l.1, r)
join m a (x ∷ xs) y ys b l r = (l.0, l.1, join m x xs y ys b l.2 r)

-- A path survives a change of memory that spares the `next` of its nodes but the end, and the
-- `prev` of all but the start.
pub frame :
    (m m' : Memory) (a : ℕ) (xs : List ℕ) (b : ℕ)
    → Linked m a xs b
    → ((p : ℕ) → has p (a ∷ xs) ≡ true → m'.next p ≡ m.next p)
    → ((p : ℕ) → has p (xs ++ b ∷ []) ≡ true → m'.prev p ≡ m.prev p)
    → Linked m' a xs b
frame m m' a [] b l n p = (n a (ground arith) ∙ l.0, p b (ground arith) ∙ l.1)
frame m m' a (x ∷ xs) b l n p = (
  n a (ground arith) ∙ l.0,
  p x (ground arith) ∙ l.1,
  frame m m' x xs b l.2 (λ q i. n q (ground arith)) (λ q i. p q (ground arith)),
)

-- The end of a path is moved to another node by writing the last node's `next`.
pub retarget :
    (m m' : Memory) (a : ℕ) (xs : List ℕ) (y n : ℕ)
    → Linked m a xs y
    → Distinct (a ∷ xs)
    → ((p : ℕ) → has p (a ∷ xs) ≡ true → (p == last a xs) ≡ false → m'.next p ≡ m.next p)
    → ((p : ℕ) → has p xs ≡ true → m'.prev p ≡ m.prev p)
    → m'.next (last a xs) ≡ n
    → m'.prev n ≡ last a xs
    → Linked m' a xs n
retarget m m' a [] y n l d hn hp e f = (e, f)
retarget m m' a (x ∷ xs) y n l d hn hp e f = (
  hn a (ground arith) (ground (arith, has-last x xs)) ∙ l.0,
  hp x (ground arith) ∙ l.1,
  retarget m m' x xs y n l.2 d.1 (λ q i j. hn q (ground arith) j) (λ q i. hp q (ground arith)) e f,
)

-- The observers read the sequence: the front is its first node, the back its last, and a list is
-- empty exactly when its sequence is.
pub observers :
    (m : Memory) (head : ℕ) (xs : List ℕ)
    → IsRing m head xs
    → (list_front m head ≡ first xs head)
      × (list_back m head ≡ last head xs)
      × (list_empty m head ≡ elim xs [ [] ↦ true | _ ∷ _ ↦ false ])
unfolding list_front list_back list_empty
observers m head [] r = (r.linked.0, r.linked.1, ground (arith, r.linked.0))
observers m head (x ∷ xs) r =
    (r.linked.0, prev-last m head (x ∷ xs) head r.linked, ground (arith, r.linked.0, r.distinct.0))

-- A fresh head is an empty list.
pub list_init_head-IsRing : (m : Memory) (head : ℕ) → IsRing (list_init_head m head) head []
unfolding list_init_head
list_init_head-IsRing m head = ground arith
