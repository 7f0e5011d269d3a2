-- ===== src/Kalloc.antt =====
-- src/mm/kalloc.c: the kernel's heap. The block list is the sequence of the block headers, each with
-- the address at which it stands; `free` are the free pages of the page allocator. `kcalloc` is
-- `kmalloc` of the product, which wraps, and a memory that is cleared.
pub mod Space
pub mod Malloc
pub mod Free
use karg.Base.{
  ℕ, ◌+◌, ◌-◌, ◌*◌, ◌%◌, ◌^◌, Bool, true, false, ◌&&◌, not, Option, none, some, List, [], ◌∷◌, ◌++◌,
  ◌==◌, ltb, leb, if◌then◌else◌,
}
use karg.PageAlloc.{page_size, page_alloc}

pub record Block : Type 0 where
  pub addr : ℕ
  pub allocated : Bool
  pub size : ℕ

pub record Heap : Type 0 where
  pub blocks : List Block
  pub free : List ℕ

-- `sizeof(block_header_t)`
abbrev pub header_size : ℕ
header_size = 32

-- A block that is given out, and the rest of it as a free block of its own if a header fits.
abbrev pub split : ℕ → Block → List Block → List Block
split size b bs =
    let rest : Block = record { addr = b.addr + size; allocated = false; size = b.size - size } in
    if ltb header_size (b.size - size)
    then record { addr = b.addr; allocated = true; size = size } ∷ rest ∷ bs
    else record b { allocated = true } ∷ bs

abbrev pub keep : Block → Option (ℕ × List Block) → Option (ℕ × List Block)
keep b none = none
keep b (some (p, bs)) = some (p, b ∷ bs)

-- The search for the first free block that is large enough, and what is done with it. The pointer
-- is that behind the header.
pub take_fit : ℕ → List Block → Option (ℕ × List Block)
take_fit size [] = none
take_fit size (b ∷ bs) =
    let rest = keep b (take_fit size bs) in
    if not b.allocated && leb size b.size
    then some (b.addr + header_size, split size b bs)
    else rest

-- A page of its own, at the end of the list; the null pointer is 0.
take_page : ℕ → Heap → ℕ × Heap
take_page size h =
    let (page, free) = page_alloc h.free in
    let h' : Heap = record h { free = free } in
    let block : Block = record { addr = page; allocated = false; size = page_size } in
    if page == 0
    then (0, h')
    else (page + header_size, record h' { blocks = h.blocks ++ split size block [] })

fit_or_page : ℕ → Heap → Option (ℕ × List Block) → ℕ × Heap
fit_or_page size h none = take_page size h
fit_or_page size h (some (p, bs)) = (p, record h { blocks = bs })

-- `size += sizeof(block_header_t)` wraps.
pub kmalloc : ℕ → Heap → ℕ × Heap
unfolding fit_or_page take_page
kmalloc size h =
    let whole = (size + header_size) % 2 ^ 64 in
    if ltb page_size whole then (0, h) else fit_or_page whole h (take_fit whole h.blocks)

pub kcalloc : ℕ → ℕ → Heap → ℕ × Heap
kcalloc size n h = kmalloc (size * n % 2 ^ 64) h

-- The second merge of `kfree`: the block with the one behind it.
abbrev pub merge_next : Block → List Block → List Block
merge_next curr [] = curr ∷ []
merge_next curr (n ∷ ns) =
    if not n.allocated && (curr.addr + curr.size == n.addr)
    then record curr { size = curr.size + n.size } ∷ ns
    else curr ∷ n ∷ ns

-- The first merge: with the block before it.
abbrev pub merge_prev : Block → Block → List Block → List Block
merge_prev prev curr ns =
    if not prev.allocated && (prev.addr + prev.size == curr.addr)
    then merge_next (record prev { size = prev.size + curr.size }) ns
    else prev ∷ merge_next curr ns

abbrev pub keep_free : Block → Option (List Block) → Option (List Block)
keep_free b none = none
keep_free b (some bs) = some (b ∷ bs)

-- The blocks behind `prev`, with the block at `addr` freed. `none`: there is no block there.
free_behind : ℕ → Block → List Block → Option (List Block)
free_behind addr prev [] = none
free_behind addr prev (c ∷ cs) =
    let rest = keep_free prev (free_behind addr c cs) in
    if c.addr == addr then some (merge_prev prev (record c { allocated = false }) cs) else rest

free_in : ℕ → List Block → Option (List Block)
free_in addr [] = none
free_in addr (b ∷ bs) =
    if b.addr == addr
    then some (merge_next (record b { allocated = false }) bs)
    else free_behind addr b bs

abbrev pub with_blocks : Heap → Option (List Block) → Option Heap
with_blocks h none = none
with_blocks h (some bs) = some (record h { blocks = bs })

pub kfree : ℕ → Heap → Option Heap
kfree ptr h = if ptr == 0 then some h else with_blocks h (free_in (ptr - header_size) h.blocks)
