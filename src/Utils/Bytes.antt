-- ===== src/Utils/Bytes.antt =====
-- What `mem_set` and `mem_copy` leave in memory, address by address.
use karg.Base.{
  ℕ, zero, suc, ◌+◌, ◌-◌, ◌≤◌, ◌≡◌, refl, ◌⊎◌, Bool, false, ◌&&◌, leb, ltb, if◌then◌else◌, arith,
}
use karg.Kernel.{put}
use karg.Utils.{mem_set_from, mem_set, mem_copy_from, mem_copy}

-- The address is one of the `n` from `dst` on.
abbrev pub within : (dst n a : ℕ) → Bool
within dst n a = leb dst a && ltb a (dst + n)

mem_set_from_lem :
    (n i dst val : ℕ) (m : ℕ → ℕ) (a : ℕ)
    → mem_set_from n i dst val m a ≡ (if within (dst + i) n a then val else m a)
unfolding mem_set_from
mem_set_from_lem zero i dst val m a = ground arith
mem_set_from_lem (suc n) i dst val m a =
    ground (arith, mem_set_from_lem n (i + 1) dst val (put m (dst + i) val) a)

pub mem_set_lem :
    (dst val size : ℕ) (m : ℕ → ℕ) (a : ℕ)
    → mem_set dst val size m a ≡ (if within dst size a then val else m a)
mem_set_lem dst val size m a = ground (arith, mem_set_from_lem size 0 dst val m a)

mem_copy_from_lem :
    (n i dst src : ℕ) (m : ℕ → ℕ) (a : ℕ)
    → (dst + i + n ≤ src + i) ⊎ (src + i + n ≤ dst + i)
    → mem_copy_from n i dst src m a ≡ (if within (dst + i) n a then m (src + (a - dst)) else m a)
unfolding mem_copy_from
mem_copy_from_lem zero i dst src m a d = ground arith
mem_copy_from_lem (suc n) i dst src m a d =
    let m' = put m (dst + i) (m (src + i)) in
    ground (arith, mem_copy_from_lem n (i + 1) dst src m' a)

-- Where source and destination do not overlap, the destination gets the bytes of the source, and
-- nothing else changes.
pub mem_copy_lem :
    (dst src size : ℕ) (m : ℕ → ℕ) (a : ℕ)
    → (dst + size ≤ src) ⊎ (src + size ≤ dst)
    → mem_copy dst src size m a ≡ (if within dst size a then m (src + (a - dst)) else m a)
mem_copy_lem dst src size m a d = ground (arith, mem_copy_from_lem size 0 dst src m a)

-- Whatever is copied, nothing outside the destination changes.
mem_copy_from-outside :
    (n i dst src : ℕ) (m : ℕ → ℕ) (a : ℕ)
    → within (dst + i) n a ≡ false
    → mem_copy_from n i dst src m a ≡ m a
unfolding mem_copy_from
mem_copy_from-outside zero i dst src m a h = refl
mem_copy_from-outside (suc n) i dst src m a h =
    ground (arith, mem_copy_from-outside n (i + 1) dst src (put m (dst + i) (m (src + i))) a)

pub mem_copy-outside :
    (dst src size : ℕ) (m : ℕ → ℕ) (a : ℕ)
    → within dst size a ≡ false
    → mem_copy dst src size m a ≡ m a
mem_copy-outside dst src size m a h = mem_copy_from-outside size 0 dst src m a (ground (arith, h))
