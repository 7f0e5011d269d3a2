-- ===== src/Elf/Bytes.antt =====
-- Numbers and headers are read from their own bytes only.
use karg.Base.{ℕ, zero, suc, ◌+◌, ◌≤◌, ◌<◌, ◌≡◌, refl, arith}
use karg.Elf.{read_le, prog_hdr}

pub read_le-same :
    (n a : ℕ) (m m' : ℕ → ℕ)
    → ((x : ℕ) → a ≤ x → x < a + n → m' x ≡ m x)
    → read_le n a m' ≡ read_le n a m
unfolding read_le
read_le-same zero a m m' h = refl
read_le-same (suc n) a m m' h =
    ground (arith, h a, read_le-same n (a + 1) m m' (λ x l u. h x (omega arith) (omega arith)))

pub prog_hdr-same :
    (a : ℕ) (m m' : ℕ → ℕ)
    → ((x : ℕ) → a ≤ x → x < a + 56 → m' x ≡ m x)
    → prog_hdr a m' ≡ prog_hdr a m
unfolding prog_hdr
prog_hdr-same a m m' h =
    let part : (n d : ℕ) → d + n ≤ 56 → read_le n (a + d) m' ≡ read_le n (a + d) m = λ n d l.
      read_le-same n (a + d) m m' (λ x g k. h x (omega (arith, g)) (omega (arith, k, l))) in
    ground (
      arith,
      part 4 0 (omega arith),
      part 4 4 (omega arith),
      part 8 8 (omega arith),
      part 8 16 (omega arith),
      part 8 32 (omega arith),
      part 8 40 (omega arith),
    )
