-- ===== src/Tests/Heap.antt =====
-- The heap.
use karg.Base.{
  ◌↔◌, ◌⊎◌, ◌<◌, ℕ, ◌+◌, ◌-◌, ◌^◌, ◌≡◌, refl, some, true, false, List, [], ◌∷◌, arith, inl, inr,
}
use karg.Kalloc.{Block, Heap, kmalloc, kfree}
use karg.Kalloc.Space.{AllocatedAway, total}
use karg.Kalloc.Malloc.{IsValid, Outcome, kmalloc-Outcome, kmalloc_wraps}
use karg.Kalloc.Free.{kfree-IsValid}

-- A page of the heap in three blocks, of which the second is given out.
abbrev blocks : List Block
blocks =
    record { addr = 4096; allocated = false; size = 64 }
    ∷ record { addr = 4160; allocated = true; size = 96 }
    ∷ record { addr = 4256; allocated = false; size = 3936 }
    ∷ []

abbrev heap : Heap
heap = record { blocks = blocks; free = 8192 ∷ [] }

heap-IsValid : IsValid heap
heap-IsValid = record { disjoint = ground arith; pages = ground arith }

kmalloc-Outcome_example : Outcome 132 heap (kmalloc 100 heap)
kmalloc-Outcome_example = kmalloc-Outcome 100 heap (omega arith) heap-IsValid

kfree-IsValid_example :
    (h' : Heap) × (kfree 4192 heap ≡ some h')
    × IsValid h'
    × (total h'.blocks ≡ total blocks)
    × AllocatedAway 4160 96 h'.blocks
    × ((x y : ℕ) → AllocatedAway x y blocks → AllocatedAway x y h'.blocks)
kfree-IsValid_example = kfree-IsValid 4160 96 heap heap-IsValid (inr (inl (refl, refl)))

kmalloc_wraps_example :
    let ptr = (kmalloc (2 ^ 64 - 32 + 8) (record { blocks = []; free = 4096 ∷ [] })).0 in
    ((ptr ≡ 0) ↔ ((4096 < 2 ^ 64 - 32 + 8 + 32) × (2 ^ 64 - 32 + 8 < 2 ^ 64 - 32)))
    × ((ptr ≡ 0) ⊎ (ptr ≡ 4128))
kmalloc_wraps_example =
    kmalloc_wraps (2 ^ 64 - 32 + 8) 4096 [] (omega arith) (ground arith) (omega arith)
