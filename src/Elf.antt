-- ===== src/Elf.antt =====
-- src/elf.c: loading the init process's program. `INIT_ELF` (src/init.c) is bytes in memory from the
-- address `elf` on. Memory is its bytes, beside the page table entries and the free pages of `Vm`; a
-- field is read little-endian, at the offset that the C structure gives it.
pub mod Pages
pub mod Bytes
pub mod Mapping
pub mod Kept
pub mod Program
pub mod Load
pub mod Image
use karg.Base.{
  ℕ, zero, suc, ◌+◌, ◌-◌, ◌*◌, ◌/◌, ◌%◌, ◌^◌, Bool, true, false, ◌&&◌, ◌||◌, not, ◌==◌, ltb,
  if◌then◌else◌, ℤ, pos, is_neg, negate, test_bit, or_bit,
}
use karg.Errno.{eacces, einval, enomem}
use karg.PageAlloc.{page_size, page_alloc}
use karg.Utils.{mem_set, mem_copy}
use karg.Vm.{Mm, vm_create_page_table, vm_map_page}

pub record Space : Type 0 where
  pub mm : Mm
  pub bytes : ℕ → ℕ

-- The number in `n` bytes.
unfoldable pub read_le : (n a : ℕ) → (ℕ → ℕ) → ℕ
read_le zero a m = 0
read_le (suc n) a m = m a + 2 ^ 8 * read_le n (a + 1) m

-- The fields of `elf_hdr_t` and `prog_hdr_t` that are used.
pub record ElfHdr : Type 0 where
  pub ident : ℕ → ℕ
  pub type : ℕ
  pub entry : ℕ
  pub phoff : ℕ
  pub phnum : ℕ

pub record ProgHdr : Type 0 where
  pub type : ℕ
  pub flags : ℕ
  pub offset : ℕ
  pub vaddr : ℕ
  pub filesz : ℕ
  pub memsz : ℕ

unfoldable pub elf_hdr : ℕ → (ℕ → ℕ) → ElfHdr
unfolding read_le
elf_hdr elf m = record {
  ident = λ i. m (elf + i);
  type = read_le 2 (elf + 16) m;
  entry = read_le 8 (elf + 24) m;
  phoff = read_le 8 (elf + 32) m;
  phnum = read_le 2 (elf + 56) m;
}

unfoldable pub prog_hdr : ℕ → (ℕ → ℕ) → ProgHdr
unfolding read_le
prog_hdr a m = record {
  type = read_le 4 a m;
  flags = read_le 4 (a + 4) m;
  offset = read_le 8 (a + 8) m;
  vaddr = read_le 8 (a + 16) m;
  filesz = read_le 8 (a + 32) m;
  memsz = read_le 8 (a + 40) m;
}

-- 0x7F and "ELF".
abbrev pub check_ident : (ℕ → ℕ) → Bool
check_ident ident = ident 0 == 0x7F && ident 1 == 69 && ident 2 == 76 && ident 3 == 70

abbrev pub check_compat : (ℕ → ℕ) → Bool
check_compat ident = ident 4 == 2 && ident 5 == 1 && ident 6 == 1

-- `PF_X`, `PF_W` and `PF_R` are bits 0, 1 and 2 of the header's flags; the flags for executable,
-- writable, readable and user pages are bits 2, 1, 0 and 3.
unfoldable pub vm_flags : ℕ → ℕ
vm_flags flags =
    let f = or_bit 0 3 in
    let f₁ = if test_bit flags 0 then or_bit f 2 else f in
    let f₂ = if test_bit flags 1 then or_bit f₁ 1 else f₁ in
    if test_bit flags 2 then or_bit f₂ 0 else f₂

abbrev pub minimum : ℕ → ℕ → ℕ
minimum a b = if ltb a b then a else b

-- The bytes of a new page: null, and over that what the file has of it.
abbrev pub fill_page : (elf page offset : ℕ) → ProgHdr → (ℕ → ℕ) → ℕ → ℕ
fill_page elf page offset h m =
    let cleared = mem_set page 0 page_size m in
    if ltb offset h.filesz
    then mem_copy page (elf + h.offset + offset) (minimum (h.filesz - offset) page_size) cleared
    else cleared

-- One round of the inner loop.
unfoldable pub load_page : (elf page_table flags offset : ℕ) → ProgHdr → Space → ℤ × Space
load_page elf page_table flags offset h s =
    let (page, free) = page_alloc s.mm.free in
    let mm : Mm = record s.mm { free = free } in
    let (res, mm') = vm_map_page page_table (h.vaddr + offset) page flags mm in
    if page == 0
    then (negate enomem, record s { mm = mm })
    else (res, record { mm = mm'; bytes = fill_page elf page offset h s.bytes })

-- The inner loop, on fuel.
unfoldable pub load_segment : (fuel elf page_table flags offset : ℕ) → ProgHdr → Space → ℤ × Space
load_segment zero elf page_table flags offset h s = (pos 0, s)
load_segment (suc fuel) elf page_table flags offset h s =
    let (res, s') = load_page elf page_table flags offset h s in
    let rest = load_segment fuel elf page_table flags (offset + page_size) h s' in
    if ltb offset h.memsz then (if is_neg res then (res, s') else rest) else (pos 0, s)

-- Enough for every page of the segment.
abbrev pub segment_rounds : ProgHdr → ℕ
segment_rounds h = h.memsz / page_size + 1

-- `PT_LOAD` is 1; other segments are skipped.
unfoldable pub load_prog : (elf page_table : ℕ) → ProgHdr → Space → ℤ × Space
load_prog elf page_table h s =
    if h.type == 1
    then load_segment (segment_rounds h) elf page_table (vm_flags h.flags) 0 h s
    else (pos 0, s)

-- The outer loop, over `n` headers of 56 bytes.
unfoldable pub load_progs : (n elf page_table a : ℕ) → Space → ℤ × Space
load_progs zero elf page_table a s = (pos 0, s)
load_progs (suc n) elf page_table a s =
    let (res, s') = load_prog elf page_table (prog_hdr a s.bytes) s in
    let rest = load_progs n elf page_table (a + 56) s' in if is_neg res then (res, s') else rest

-- `elf_load_res_t`: an error before the page table leaves it unwritten, which is 0 here.
pub record ElfLoadRes : Type 0 where
  pub entry : ℕ
  pub page_table : ℕ

unfoldable pub elf_load : ℕ → Space → ℤ × ElfLoadRes × Space
elf_load elf s =
    let h = elf_hdr elf s.bytes in
    let early : ElfLoadRes = record { entry = h.entry; page_table = 0 } in
    let (table, mm) = vm_create_page_table s.mm in
    let made : Space = record {
      mm = mm;
      bytes = if table == 0 then s.bytes else mem_set table 0 page_size s.bytes;
    } in
    let loaded = load_progs h.phnum elf table (elf + h.phoff) made in
    if not (check_ident h.ident)
    then (negate eacces, early, s)
    else if not (check_compat h.ident) || not (h.type == 2)
    then (negate einval, early, s)
    else if table == 0
    then (negate enomem, early, made)
    else (loaded.0, record { entry = h.entry; page_table = table }, loaded.1)
