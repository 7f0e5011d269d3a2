-- ===== src/PageAlloc.antt =====
-- src/mm/page_alloc.c: the list of free pages, as the sequence of their addresses. `heap_start` is
-- the address that the linker script gives to `_heap_start`.
pub mod Pages
use karg.Base.{ℕ, zero, suc, ◌+◌, ◌/◌, List, [], ◌∷◌, ◌++◌, ltb, ◌==◌, if◌then◌else◌}

abbrev pub page_size : ℕ
page_size = 4096

abbrev pub kheap_size : ℕ
kheap_size = 0x800000

-- The `while` loop of `init`, on fuel.
pub init_loop : ℕ → ℕ → ℕ → List ℕ → List ℕ
init_loop zero node limit free = free
init_loop (suc fuel) node limit free =
    let rest = init_loop fuel (node + page_size) limit (free ++ node ∷ []) in
    if ltb node limit then rest else free

-- Enough for every page of the heap, and the test that ends the loop.
abbrev pub rounds : ℕ
rounds = kheap_size / page_size + 1

pub init : ℕ → List ℕ
init heap_start = init_loop rounds heap_start (heap_start + kheap_size) []

-- The null pointer is 0.
unfoldable pub page_alloc : List ℕ → ℕ × List ℕ
page_alloc [] = (0, [])
page_alloc (p ∷ free) = (p, free)

pub page_free : ℕ → List ℕ → List ℕ
page_free ptr free = if ptr == 0 then free else free ++ ptr ∷ []
