-- ===== src/Tests/System.antt =====
-- The loader, interrupts, strings, and error names.
use karg.Base.{refl, ℕ, true, get_or, ◌≡◌}
use karg.Elf.Image.{init_elf_headers}
use karg.Elf.{read_le, elf_hdr, prog_hdr, check_ident, check_compat}

-- The headers of the first program, at address 0.
abbrev image : ℕ → ℕ
image a = get_or init_elf_headers a 0

image_accepted : (check_ident image ≡ true) × (check_compat image ≡ true)
image_accepted = (refl, refl)

image_entry : (elf_hdr 0 image).entry ≡ 0x1010c
unfolding elf_hdr read_le
image_entry = refl

image_segments : (elf_hdr 0 image).phnum ≡ 3
unfolding elf_hdr read_le
image_segments = refl

-- The second program header is loaded, and may be read and executed.
image_code : ((prog_hdr 120 image).type ≡ 1) × ((prog_hdr 120 image).flags ≡ 5)
unfolding prog_hdr read_le
image_code = (refl, refl)
