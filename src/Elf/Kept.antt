-- ===== src/Elf/Kept.antt =====
-- What loading one segment leaves alone: bytes, and what is mapped already.
use karg.Base.{
  ℕ, zero, suc, ◌+◌, ◌-◌, ◌/◌, ◌%◌, ◌^◌, ◌<◌, ◌≤◌, ◌≡◌, refl, ◌∙◌, subst, ◌≢◌, ◌⊎◌, inl, inr, false,
  List, [], ◌∷◌, ◌==◌, if◌then◌else◌, ltb, arith, ℤ, pos, is_neg, negate, Bool-cases,
}
use karg.Elf.{
  ProgHdr, Space, fill_page, minimum, load_page, load_segment, load_prog, segment_rounds, vm_flags,
}
use karg.Errno.{enomem}
use karg.Elf.Mapping.{IsIn, load_page-maps}
use karg.PageAlloc.{page_alloc, page_size}
use karg.Utils.{mem_set}
use karg.Utils.Bytes.{within, mem_set_lem, mem_copy-outside}
use karg.Vm.{Mm, vm_map_page}
use karg.Vm.Free.{AreApart, vm_map_page-AreApart}
use karg.Vm.Walk.{Role, IsTree}

fill_page-outside :
    (elf page offset : ℕ) (h : ProgHdr) (m : ℕ → ℕ) (x : ℕ)
    → within page page_size x ≡ false
    → fill_page elf page offset h m x ≡ m x
fill_page-outside elf page offset h m x o =
    let cleared = mem_set page 0 page_size m in
    let size = minimum (h.filesz - offset) page_size in
    ground (
      arith,
      mem_set_lem page 0 page_size m x,
      mem_copy-outside page (elf + h.offset + offset) size cleared x,
    )

-- What loading leaves alone: the bytes from `low` to `high`, with which no page that is then free overlaps.
pub record IsKept (low high : ℕ) (s s' : Space) : Type 0 where
  pub free : AreApart low high s'.mm.free
  pub bytes : (x : ℕ) → low ≤ x → x < high → s'.bytes x ≡ s.bytes x

load_page-IsKept :
    (low high elf table flags offset : ℕ) (h : ProgHdr) (s : Space)
    → AreApart low high s.mm.free
    → IsKept low high s (load_page elf table flags offset h s).1
unfolding load_page page_alloc AreApart
load_page-IsKept low high elf table flags offset h s f = go s.mm.free refl
  where
    with_page : ℕ × List ℕ → ℤ × Space
    with_page (page, rest) =
        let mm : Mm = record s.mm { free = rest } in
        let (res, mm') = vm_map_page table (h.vaddr + offset) page flags mm in
        if page == 0
        then (negate enomem, record s { mm = mm })
        else (res, record { mm = mm'; bytes = fill_page elf page offset h s.bytes })

    go : (ps : List ℕ) → s.mm.free ≡ ps → IsKept low high s (with_page (page_alloc ps)).1
    go [] e = record { free = tt; bytes = λ x l u. refl }
    go (p ∷ ps) e =
        let all : AreApart low high (p ∷ ps) = subst (AreApart low high) e f in
        let mm : Mm = record s.mm { free = ps } in
        elim (Bool-cases (p == 0)) [
          | inl z ↦ rw z (record { free = all.1; bytes = λ x l u. refl })
          | inr z ↦ rw z (record {
            free = vm_map_page-AreApart low high table (h.vaddr + offset) p flags mm all.1;
            bytes = λ x l u. fill_page-outside elf p offset h s.bytes x (ground (arith, all, l, u));
          })
        ]

pub IsKept-trans :
    (low high : ℕ) (s t u : Space) → IsKept low high s t → IsKept low high t u → IsKept low high s u
IsKept-trans low high s t u a b = record {
  free = b.free;
  bytes = λ x l h. b.bytes x l h ∙ a.bytes x l h;
}

load_segment-IsKept :
    (fuel low high elf table flags offset : ℕ) (h : ProgHdr) (s : Space)
    → AreApart low high s.mm.free
    → IsKept low high s (load_segment fuel elf table flags offset h s).1
unfolding load_segment
load_segment-IsKept zero low high elf table flags offset h s f = record {
  free = f;
  bytes = λ x l u. refl;
}
load_segment-IsKept (suc fuel) low high elf table flags offset h s f =
    let page = load_page elf table flags offset h s in
    let kept = load_page-IsKept low high elf table flags offset h s f in
    elim (Bool-cases (ltb offset h.memsz)) [
      | inr q ↦ rw q (record { free = f; bytes = λ x l u. refl })
      | inl q ↦ elim (Bool-cases (is_neg page.0)) [
        | inl n ↦ rw q (rw n kept)
        | inr n ↦ rw q (
            rw n (
              IsKept-trans low high s page.1
                (load_segment fuel elf table flags (offset + page_size) h page.1).1 kept
                (load_segment-IsKept fuel low high elf table flags (offset + page_size) h page.1
                  kept.free)))
      ]
    ]

-- A page that has an entry keeps it, or gets one with more permissions.
module _ (elf table flags w asked : ℕ) (h : ProgHdr) (top : h.vaddr + h.memsz ≤ 2 ^ 39)
    (wl : w < 2 ^ 39) where
  segment-stays :
      (fuel offset : ℕ) (role : ℕ → Role) (s : Space)
      → IsTree role table s.mm
      → (load_segment fuel elf table flags offset h s).0 ≡ pos 0
      → ((role' : ℕ → Role) × IsTree role' table
            (load_segment fuel elf table flags offset h s).1.mm)
        × (IsIn table w asked s.mm
            → IsIn table w asked (load_segment fuel elf table flags offset h s).1.mm)
  unfolding load_segment
  segment-stays zero offset role s v ok = ((role, v), λ i. i)
  segment-stays (suc fuel) offset role s v ok = elim (Bool-cases (ltb offset h.memsz)) [
    | inr q ↦ rw q ((role, v), λ i. i)
    | inl q ↦ elim (Bool-cases (is_neg (load_page elf table flags offset h s).0)) [
      | inl n ↦ absurd (ground (arith, ok, q, n))
      | inr n ↦
          let page = load_page elf table flags offset h s in
          let ((role', v'), (x, walks, covers, kept_covers)) =
            load_page-maps role elf table flags offset w h s v (ground (arith, q, top)) wl n in
          let (tree, kept) =
            segment-stays fuel (offset + page_size) role' page.1 v' (rw n at (rw q at ok)) in
          let now : IsIn table w asked s.mm → IsIn table w asked page.1.mm = λ i.
            elim (Bool-cases (w / page_size == (h.vaddr + offset) / page_size)) [
              | inl e ↦ (x, walks ∙ rw e refl, kept_covers asked e (rw i.1 i.2))
              | inr e ↦ (i.0, walks ∙ rw e i.1, i.2)
            ] in
          rw q (rw n (tree, λ i. kept (now i)))
    ]
  ]

-- A header that the loader maps nothing for, or a segment at a page boundary below 2^39.
unfoldable pub IsLoadable : ProgHdr → Type 0
IsLoadable h = (h.type ≢ 1) ⊎ ((h.vaddr % page_size ≡ 0) × (h.vaddr + h.memsz ≤ 2 ^ 39))

pub prog-IsKept :
    (low high elf table : ℕ) (h : ProgHdr) (s : Space)
    → AreApart low high s.mm.free
    → IsKept low high s (load_prog elf table h s).1
unfolding load_prog
prog-IsKept low high elf table h s f = elim (Bool-cases (h.type == 1)) [
  | inl t ↦
      rw t (load_segment-IsKept (segment_rounds h) low high elf table (vm_flags h.flags) 0 h s f)
  | inr t ↦ rw t (record { free = f; bytes = λ x l u. refl })
]

pub prog-stays :
    (elf table w asked : ℕ) (h : ProgHdr) (role : ℕ → Role) (s : Space)
    → IsLoadable h
    → w < 2 ^ 39
    → IsTree role table s.mm
    → (load_prog elf table h s).0 ≡ pos 0
    → ((role' : ℕ → Role) × IsTree role' table (load_prog elf table h s).1.mm)
      × (IsIn table w asked s.mm → IsIn table w asked (load_prog elf table h s).1.mm)
unfolding load_prog IsLoadable
prog-stays elf table w asked h role s b wl v ok = elim (Bool-cases (h.type == 1)) [
  | inr t ↦ rw t ((role, v), λ i. i)
  | inl t ↦ rw t (
      segment-stays elf table (vm_flags h.flags) w asked h (ground (arith, b, t)) wl
        (segment_rounds h) 0 role s v (rw t at ok))
]

-- What is no error is 0.
segment-zero :
    (fuel elf table flags offset : ℕ) (h : ProgHdr) (s : Space)
    → is_neg (load_segment fuel elf table flags offset h s).0 ≡ false
    → (load_segment fuel elf table flags offset h s).0 ≡ pos 0
unfolding load_segment
segment-zero zero elf table flags offset h s n = refl
segment-zero (suc fuel) elf table flags offset h s n = elim (Bool-cases (ltb offset h.memsz)) [
  | inr q ↦ rw q refl
  | inl q ↦ elim (Bool-cases (is_neg (load_page elf table flags offset h s).0)) [
    | inl m ↦ absurd (ground (arith, n, q, m))
    | inr m ↦ rw q (
        rw m (
          segment-zero fuel elf table flags (offset + page_size) h
            (load_page elf table flags offset h s).1 (rw m at (rw q at n))))
  ]
]

pub prog-zero :
    (elf table : ℕ) (h : ProgHdr) (s : Space)
    → is_neg (load_prog elf table h s).0 ≡ false
    → (load_prog elf table h s).0 ≡ pos 0
unfolding load_prog
prog-zero elf table h s n = elim (Bool-cases (h.type == 1)) [
  | inl t ↦ rw t (segment-zero (segment_rounds h) elf table (vm_flags h.flags) 0 h s (rw t at n))
  | inr t ↦ rw t refl
]
