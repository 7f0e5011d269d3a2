-- ===== src/Tests/Paging.antt =====
-- Page tables.
use karg.Base.{
  test_bit, true, ◌∙◌, ap, ℤ, is_neg, get_elem?, ◌-◌, List, zero, suc, inl, inr, ◌<◌, ℕ, ◌+◌, ◌*◌,
  ◌≡◌, refl, none, some, [], ◌∷◌, ◌==◌, if◌then◌else◌, arith, pos,
}
use karg.Elf.{
  ProgHdr, elf_load, elf_hdr, Space, load_page, load_segment, load_prog, load_progs, prog_hdr,
  read_le,
}
use karg.Elf.Kept.{IsLoadable}
use karg.Elf.Program.{header}
use karg.Elf.Load.{with_table, header-with_table, headers_from, elf_load-translates, Allows}
use karg.PageAlloc.{page_alloc}
use karg.Vm.{vm_create_page_table, Mm, zero_pte, vm_map_page, next_table}
use karg.Vm.Free.{AreApart}
use karg.Vm.Hardware.{Place, Translated, translate, vm_map_page-translates}
use karg.Vm.Walk.{Role, free, other, root, IsTree}

-- An empty table at 4096, and three free pages.
abbrev space : Mm
space = record { free = 8192 ∷ 12288 ∷ 16384 ∷ []; pte = λ a. zero_pte }

abbrev roles : ℕ → Role
roles a =
    if a == 4096
    then root
    else if a == 8192
    then free
    else if a == 12288
    then free
    else if a == 16384
    then free
    else other

space-IsTree : IsTree roles 4096 space
space-IsTree = record {
  top = refl;
  frame = ground arith;
  unique = ground arith;
  pages = ground arith;
  aligned = λ a i r h. ground (arith, h);
  points = λ a i t r h l e. absurd (ground (arith, e));
  blank = λ a i t f l e. refl;
}

vm_map_page-translates_example :
    Translated 4096 65536 20480 3 65540 space (vm_map_page 4096 65536 20480 3 space)
vm_map_page-translates_example =
    vm_map_page-translates roles 4096 65536 20480 3 65540 space space-IsTree (ground arith)
      (ground arith) (ground arith)

-- The memory after that.
abbrev mapped : Mm
mapped = (vm_map_page 4096 65536 20480 3 space).1

-- A file at 32768 with two program headers behind its own: one of another type, and a segment of 5000
-- bytes at 65536, of which 100 are in the file.
abbrev file_header : List ℕ
file_header = 0x7F ∷ 69 ∷ 76 ∷ 70 ∷ 2 ∷ 1 ∷ 1 ∷ 0 ∷ 0 ∷ 0 ∷ 0 ∷ 0 ∷ 0 ∷ 0 ∷ 0 ∷ 0 ∷ 2 ∷ []

abbrev byte : List ℕ → ℕ → ℕ
byte xs i = elim (get_elem? xs i) [ none ↦ 0 | some x ↦ x ]

abbrev program : ℕ → ℕ
program a =
    if a == 32800
    then 64
    else if a == 32824
    then 2
    else if a == 32832
    then 3
    else if a == 32888
    then 1
    else if a == 32892
    then 5
    else if a == 32896
    then 64
    else if a == 32906
    then 1
    else if a == 32920
    then 100
    else if a == 32928
    then 136
    else if a == 32929
    then 19
    else byte file_header (a - 32768)

abbrev image : Space
image = record {
  mm = record { free = 4096 ∷ 8192 ∷ 12288 ∷ 16384 ∷ 20480 ∷ []; pte = λ a. zero_pte };
  bytes = program;
}

two_headers : (headers_from 32768 program ≡ 32832) × ((elf_hdr 32768 program).phnum ≡ 2)
unfolding elf_hdr read_le
two_headers = (refl, refl)

headers-AreApart :
    AreApart
      (headers_from 32768 program)
      (headers_from 32768 program + (elf_hdr 32768 program).phnum * 56)
      image.mm.free
unfolding AreApart
headers-AreApart = rw two_headers.0 (rw two_headers.1 (ground arith))

headers-IsLoadable :
    (j : ℕ)
    → j < (elf_hdr 32768 program).phnum
    → IsLoadable (header (headers_from 32768 program) j program)
unfolding IsLoadable prog_hdr elf_hdr read_le
headers-IsLoadable zero l = inl (ground arith)
headers-IsLoadable (suc zero) l = inr (refl, omega arith)
headers-IsLoadable (suc (suc j)) l = absurd (omega (arith, l, two_headers))

-- The headers, as the loop reads them once there is a table.
abbrev note : ProgHdr
note = record { type = 3; flags = 0; offset = 0; vaddr = 0; filesz = 0; memsz = 0 }

abbrev segment : ProgHdr
segment = record { type = 1; flags = 5; offset = 64; vaddr = 65536; filesz = 100; memsz = 5000 }

abbrev made : Space
made = with_table 4096 (8192 ∷ 12288 ∷ 16384 ∷ 20480 ∷ []) image

headers_read : (header 32832 0 program ≡ note) × (header 32832 1 program ≡ segment)
unfolding prog_hdr read_le
headers_read = (refl, refl)

made-AreApart : AreApart 32832 (32832 + 2 * 56) (4096 ∷ 8192 ∷ 12288 ∷ 16384 ∷ 20480 ∷ [])
unfolding AreApart
made-AreApart = ground arith

headers_made : (header 32832 0 made.bytes ≡ note) × (header 32832 1 made.bytes ≡ segment)
headers_made = (
  header-with_table 32832 2 4096 0 (8192 ∷ 12288 ∷ 16384 ∷ 20480 ∷ []) image made-AreApart
        (omega arith)
      ∙ headers_read.0,
  header-with_table 32832 2 4096 1 (8192 ∷ 12288 ∷ 16384 ∷ 20480 ∷ []) image made-AreApart
        (omega arith)
      ∙ headers_read.1,
)

abbrev round : ℕ → ℕ → ProgHdr → ℤ
round n a h =
    let (res, s) = load_prog 32768 4096 h made in
    let rest = load_progs n 32768 4096 a s in (if is_neg res then (res, s) else rest).0

first_round : (elf_load 32768 image).0 ≡ round 1 32888 (header 32832 0 made.bytes)
unfolding elf_load elf_hdr vm_create_page_table load_progs page_alloc read_le
first_round = refl

second_round : round 1 32888 note ≡ round 0 32944 (header 32832 1 made.bytes)
unfolding load_progs load_prog
second_round = refl

last_round : round 0 32944 segment ≡ pos 0
unfolding load_progs load_prog load_segment load_page page_alloc vm_map_page next_table
last_round = refl

program_loaded : (elf_load 32768 image).0 ≡ pos 0
program_loaded =
    first_round
    ∙ ap (round 1 32888) headers_made.0
    ∙ second_round
    ∙ ap (round 0 32944) headers_made.1
    ∙ last_round

segment_found :
    let h = header (headers_from 32768 program) 1 program in
    (h.type ≡ 1) × (h.vaddr ≡ 65536) × (h.memsz ≡ 5000) × (test_bit h.flags 2 ≡ true)
unfolding prog_hdr elf_hdr read_le
segment_found = (refl, refl, refl, refl)

elf_load-translates_example :
    let (_, res, s) = elf_load 32768 image in
    (p : Place) × (translate res.page_table 70000 s.mm ≡ some p)
    × Allows (header (headers_from 32768 program) 1 program).flags p.allowed
elf_load-translates_example =
    elf_load-translates 32768 1 70000 image (ground arith) (ground arith) headers-AreApart
      headers-IsLoadable (omega (arith, two_headers)) segment_found.0 segment_found.3
      (omega (arith, segment_found)) (omega (arith, segment_found)) (omega arith) program_loaded
