-- ===== src/Vm.antt =====
-- src/arch/riscv/vm.c: Sv39 page tables. Memory is what the model reads of it: the free pages of
-- the page allocator, and the page table entry at each address. `_ / 2 ^ n` and `_ % 2 ^ n` are the
-- shifts, the masks and the casts to `u16`. A free page is taken to be below 2^44, where the 44 bits
-- of `ppn` are enough and the width in which a compiler shifts them makes no difference.
pub mod Walk
pub mod Tables
pub mod Enter
pub mod Leaf
pub mod Map
pub mod Hardware
pub mod Enough
pub mod Free
use karg.Base.{
  ℕ, ◌+◌, ◌*◌, ◌/◌, ◌%◌, ◌^◌, ◌≤◌, Bool, true, false, ◌&&◌, Option, none, some, List, ◌==◌, ltb,
  leb, if◌then◌else◌, test_bit, or_bit, ℤ, pos, negate,
}
use karg.Errno.{efault, enomem}
use karg.PageAlloc.{page_size, page_alloc}

pub record Pte : Type 0 where
  pub flags : ℕ
  pub ppn : ℕ

pub record Mm : Type 0 where
  pub free : List ℕ
  pub pte : ℕ → Pte

abbrev pub zero_pte : Pte
zero_pte = record { flags = 0; ppn = 0 }

-- `PTE_FLAG_V` is bit 0, and `R`, `W`, `X`, `U` are bits 1 to 4; the `VM_FLAG_`s are one lower.
abbrev pub is_valid : Pte → Bool
is_valid e = test_bit e.flags 0

abbrev pub with_flag : ℕ → ℕ → ℕ → ℕ
with_flag flags k f = if test_bit flags k then or_bit f (k + 1) else f

abbrev pub set_pte : ℕ → Pte → Mm → Mm
set_pte a e m = record m { pte = λ b. if b == a then e else m.pte b }

-- The flags that `init_pte` adds to those that are there.
abbrev pub leaf_flags : ℕ → ℕ → ℕ
leaf_flags flags old =
    with_flag flags 3 (with_flag flags 2 (with_flag flags 1 (with_flag flags 0 (or_bit old 0))))

abbrev pub init_pte : ℕ → ℕ → ℕ → Mm → Mm
init_pte a page flags m =
    set_pte a (record { flags = leaf_flags flags (m.pte a).flags; ppn = page / page_size % 2 ^ 44 })
      m

-- `mem_set(page, 0, PAGE_SIZE)`
abbrev pub zero_page : ℕ → Mm → Mm
zero_page page m = record m {
  pte = λ a. if leb page a && ltb a (page + page_size) then zero_pte else m.pte a;
}

-- The null pointer is 0.
unfoldable pub vm_create_page_table : Mm → ℕ × Mm
vm_create_page_table m =
    let (page, free) = page_alloc m.free in
    let m' : Mm = record m { free = free } in
    if page == 0 then (0, m') else (page, zero_page page m')

-- The table that the entry at `a` points at, made now if there is none yet; `none` if there is no
-- page for it.
unfoldable pub next_table : ℕ → Mm → Option ℕ × Mm
unfolding vm_create_page_table
next_table a m =
    if is_valid (m.pte a)
    then (some ((m.pte a).ppn * page_size), m)
    else let (page, m') = vm_create_page_table m in
      if page == 0 then (none, m') else (some page, init_pte a page 0 m')

abbrev pub idx0 : ℕ → ℕ
idx0 virt = virt / 2 ^ 30 % 2 ^ 16

abbrev pub idx1 : ℕ → ℕ
idx1 virt = virt / 2 ^ 21 % 2 ^ 9

abbrev pub idx2 : ℕ → ℕ
idx2 virt = virt / 2 ^ 12 % 2 ^ 9

-- The address of the entry with an index, eight bytes each.
abbrev pub entry : ℕ → ℕ → ℕ
entry table idx = table + 8 * idx

map_leaf : ℕ → ℕ → ℕ → Option ℕ × Mm → ℤ × Mm
map_leaf virt phys flags (none, m) = (negate enomem, m)
map_leaf virt phys flags (some table2, m) =
    (pos 0, init_pte (entry table2 (idx2 virt)) phys flags m)

map_from : ℕ → ℕ → ℕ → Option ℕ × Mm → ℤ × Mm
map_from virt phys flags (none, m) = (negate enomem, m)
map_from virt phys flags (some table1, m) =
    map_leaf virt phys flags (next_table (entry table1 (idx1 virt)) m)

-- The root is indexed by all the bits from 30 on, cut to 16, and not by nine bits.
unfoldable pub vm_map_page : ℕ → ℕ → ℕ → ℕ → Mm → ℤ × Mm
unfolding map_from map_leaf
vm_map_page page_table virt phys flags m =
    map_from virt phys flags (next_table (entry page_table (idx0 virt)) m)

-- The physical address goes through `*phys`, which an error leaves unwritten.
pub vm_virt_to_phys : ℕ → ℕ → Mm → ℤ × Option ℕ
vm_virt_to_phys page_table virt m =
    if ltb 0 (virt / 2 ^ 39)
    then (negate efault, none)
    else let pte0 = m.pte (entry page_table (idx0 virt)) in
      if is_valid pte0
      then (let pte1 = m.pte (entry (pte0.ppn * page_size) (idx1 virt)) in
          if is_valid pte1
          then (let pte2 = m.pte (entry (pte1.ppn * page_size) (idx2 virt)) in
              (pos 0, some (pte2.ppn * 2 ^ 12 + virt % page_size)))
          else (negate efault, none))
      else (negate efault, none)
