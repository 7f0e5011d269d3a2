-- ===== src/Kalloc/Space.antt =====
-- The memory that the blocks of the heap take up.
use karg.Base.{ℕ, ◌+◌, ◌<◌, ◌≤◌, ◌≡◌, ◌⊎◌, inl, inr, true, List, [], ◌∷◌, ◌++◌, arith}
use karg.Kalloc.{Block}

-- The `s` bytes from `a` on, and a block, have no byte in common.
abbrev pub Away : ℕ → ℕ → Block → Type 0
Away a s b = (a + s ≤ b.addr) ⊎ (b.addr + b.size ≤ a)

abbrev pub AllAway : ℕ → ℕ → List Block → Type 0
AllAway a s [] = Unit
AllAway a s (b ∷ bs) = Away a s b × AllAway a s bs

-- The same of the blocks that are given out alone.
abbrev pub AllocatedAway : ℕ → ℕ → List Block → Type 0
AllocatedAway a s [] = Unit
AllocatedAway a s (b ∷ bs) = (b.allocated ≡ true → Away a s b) × AllocatedAway a s bs

-- No block is empty, and no two have a byte in common.
abbrev pub Disjoint : List Block → Type 0
Disjoint [] = Unit
Disjoint (b ∷ bs) = (0 < b.size) × AllAway b.addr b.size bs × Disjoint bs

-- The bytes of all blocks.
abbrev pub total : List Block → ℕ
total [] = 0
total (b ∷ bs) = b.size + total bs

-- A block of the list that is given out, at `a` and of at least `s` bytes.
abbrev pub Gives : ℕ → ℕ → List Block → Type 0
Gives a s [] = ⊥
Gives a s (b ∷ bs) = ((b.addr ≡ a) × (b.allocated ≡ true) × (s ≤ b.size)) ⊎ Gives a s bs

pub AllAway-sub :
    (a s a' s' : ℕ) (bs : List Block) → a ≤ a' → a' + s' ≤ a + s → AllAway a s bs → AllAway a' s' bs
AllAway-sub a s a' s' [] h k w = tt
AllAway-sub a s a' s' (b ∷ bs) h k w = (omega (arith, w.0), AllAway-sub a s a' s' bs h k w.1)

pub AllocatedAway_of_AllAway : (a s : ℕ) (bs : List Block) → AllAway a s bs → AllocatedAway a s bs
AllocatedAway_of_AllAway a s [] w = tt
AllocatedAway_of_AllAway a s (b ∷ bs) w = ((λ _. w.0), AllocatedAway_of_AllAway a s bs w.1)

pub AllAway-append :
    (a s : ℕ) (bs cs : List Block) → AllAway a s bs → AllAway a s cs → AllAway a s (bs ++ cs)
AllAway-append a s [] cs w v = v
AllAway-append a s (b ∷ bs) cs w v = (w.0, AllAway-append a s bs cs w.1 v)

pub total-append : (bs cs : List Block) → total (bs ++ cs) ≡ total bs + total cs
total-append [] cs = omega arith
total-append (b ∷ bs) cs = omega (arith, total-append bs cs)

-- A block that is given out lies apart from all that the whole list lies apart from.
pub Gives-Away :
    (a s : ℕ) (b : Block) (bs : List Block) → Gives a s bs → AllAway b.addr b.size bs → Away a s b
Gives-Away a s b [] g w = elim g [ ]
Gives-Away a s b (c ∷ bs) (inl g) w = omega (arith, g, w.0)
Gives-Away a s b (c ∷ bs) (inr g) w = Gives-Away a s b bs g w.1

pub Gives-append : (a s : ℕ) (bs cs : List Block) → Gives a s cs → Gives a s (bs ++ cs)
Gives-append a s [] cs g = g
Gives-append a s (b ∷ bs) cs g = inr (Gives-append a s bs cs g)
