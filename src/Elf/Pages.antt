-- ===== src/Elf/Pages.antt =====
-- The pages that `elf_load` fills.
use karg.Base.{
  ℕ, zero, suc, ◌+◌, ◌-◌, ◌*◌, ◌≤◌, ◌≡◌, refl, ap, ◌⊎◌, ltb, if◌then◌else◌, arith, pos, is_neg,
}
use karg.PageAlloc.{page_size}
use karg.Utils.{mem_set}
use karg.Utils.Bytes.{within, mem_set_lem, mem_copy_lem}
use karg.Elf.{ProgHdr, Space, fill_page, minimum, load_page, load_segment}

-- If the page and the part of the file that goes to it do not overlap, byte `i` of the page is the
-- file's byte at that offset of the segment while the file has one, and 0 behind; no byte outside
-- the page changes.
pub fill_page_lem :
    (elf page offset : ℕ) (h : ProgHdr) (m : ℕ → ℕ) (i : ℕ)
    → (page + page_size ≤ elf + h.offset + offset) ⊎ (elf + h.offset + offset + page_size ≤ page)
    → fill_page elf page offset h m i ≡ (
        if within page page_size i
        then (if ltb (offset + (i - page)) h.filesz
            then m (elf + h.offset + offset + (i - page))
            else 0)
        else m i)
fill_page_lem elf page offset h m i d =
    let src = elf + h.offset + offset in
    let size = minimum (h.filesz - offset) page_size in
    let cleared = mem_set page 0 page_size m in
    ground (
      arith,
      mem_set_lem page 0 page_size m i,
      mem_set_lem page 0 page_size m (src + (i - page)),
      mem_copy_lem page src size cleared i,
    )

-- The fuel of the inner loop is enough: with as many rounds as the segment has pages, further rounds
-- change nothing.
pub load_segment-enough :
    (fuel n elf page_table flags offset : ℕ) (h : ProgHdr) (s : Space)
    → fuel ≤ n
    → h.memsz ≤ offset + fuel * page_size
    → load_segment n elf page_table flags offset h s
      ≡ load_segment fuel elf page_table flags offset h s
unfolding load_segment
load_segment-enough zero zero elf page_table flags offset h s l e = refl
load_segment-enough zero (suc n) elf page_table flags offset h s l e = ground arith
load_segment-enough (suc fuel) zero elf page_table flags offset h s l e = absurd (omega arith)
load_segment-enough (suc fuel) (suc n) elf page_table flags offset h s l e =
    let page = load_page elf page_table flags offset h s in
    ap
      (λ rest.
        if ltb offset h.memsz
        then (if is_neg page.0 then (page.0, page.1) else rest)
        else (pos 0, s))
      (load_segment-enough fuel n elf page_table flags (offset + page_size) h page.1
        (omega (arith, l)) (omega (arith, e)))
