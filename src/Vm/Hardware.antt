-- ===== src/Vm/Hardware.antt =====
-- The translation that Sv39 hardware makes, where it sets the accessed and dirty bits by itself, and the
-- operations of src/arch/riscv/vm.c against it.
use karg.Base.{
  ℕ, ◌+◌, ◌-◌, ◌*◌, ◌/◌, ◌%◌, ◌^◌, ◌<◌, ◌≡◌, refl, sym, ◌∙◌, ap, ◌⊎◌, inl, inr, Bool, true, false,
  ◌&&◌, ◌||◌, not, Option, none, some, ◌==◌, ltb, if◌then◌else◌, test_bit, arith, Option-cases,
  Bool-cases, ℤ, pos, negate, length,
}
use karg.Errno.{enomem}
use karg.PageAlloc.{page_size}
use karg.Vm.{Pte, Mm, is_valid, entry, idx0, idx1, idx2, vm_map_page}
use karg.Vm.Enter.{on_way1, on_way2}
use karg.Vm.Map.{Mapped, vm_map_page-Mapped}
use karg.Vm.Walk.{Role, look, walk, permissions, granted, granted-below, held, IsFrame, IsTree}

-- Where an access goes, and the permissions of the entry that says so: to read, to write, to execute and for user
-- mode, by bits 0 to 3.
pub record Place : Type 0 where
  pub address : ℕ
  pub allowed : ℕ

-- An entry is no translation if it is not valid, or may be written but not read.
abbrev pub is_fault : Pte → Bool
is_fault e = not (is_valid e) || (test_bit e.flags 2 && not (test_bit e.flags 1))

-- An entry that may be read or executed maps a page of its level, others point at a table.
abbrev pub is_page : Pte → Bool
is_page e = test_bit e.flags 1 || test_bit e.flags 3

-- One level, whose pages have `size` bytes, with what a pointer to a table leads to. The frame of a larger page
-- that is not aligned is a fault.
abbrev pub level : (size virt : ℕ) → Pte → (ℕ → Option Place) → Option Place
level size virt e below =
    if is_fault e
    then none
    else if is_page e
    then (if e.ppn * page_size % size == 0
        then some (record { address = e.ppn * page_size + virt % size; allowed = permissions e })
        else none)
    else below (e.ppn * page_size)

abbrev level2 : ℕ → Mm → ℕ → Option Place
level2 virt m u = level (2 ^ 12) virt (m.pte (entry u (virt / 2 ^ 12 % 512))) (λ _. none)

abbrev level1 : ℕ → Mm → ℕ → Option Place
level1 virt m t = level (2 ^ 21) virt (m.pte (entry t (virt / 2 ^ 21 % 512))) (level2 virt m)

-- Three levels for an address below 2^38. The bits from 39 on repeat bit 38, so an address from there
-- to 2^39 has no translation; those at the upper end of the address space are not considered.
unfoldable pub translate : (root virt : ℕ) → Mm → Option Place
translate root virt m =
    if ltb virt (2 ^ 38)
    then level (2 ^ 30) virt (m.pte (entry root (virt / 2 ^ 30 % 512))) (level1 virt m)
    else none

-- What the hardware makes of the frame and the permissions of a last entry.
abbrev pub place : (frame virt allowed : ℕ) → Option Place
place frame virt allowed =
    if (test_bit allowed 0 || test_bit allowed 2)
      && (test_bit allowed 0 || not (test_bit allowed 1))
    then some (record { address = frame + virt % page_size; allowed = allowed })
    else none

-- The same of its word.
abbrev at_word : ℕ → Option ℕ → Option Place
at_word virt none = none
at_word virt (some x) = place (x - x % page_size) virt (x % page_size)

level-none :
    (size virt : ℕ) (e : Pte) (below : ℕ → Option Place)
    → is_valid e ≡ false
    → level size virt e below ≡ none
level-none size virt e below n = rw n refl

level-table :
    (size virt : ℕ) (e : Pte) (below : ℕ → Option Place)
    → is_valid e ≡ true
    → permissions e ≡ 0
    → level size virt e below ≡ below (e.ppn * page_size)
level-table size virt e below v p =
    let r : test_bit e.flags 1 ≡ false = ground (arith, p) in
    let w : test_bit e.flags 2 ≡ false = ground (arith, p) in
    let x : test_bit e.flags 3 ≡ false = ground (arith, p) in rw (v, r, w, x) refl

level-last :
    (virt : ℕ) (e : Pte)
    → is_valid e ≡ true
    → level (2 ^ 12) virt e (λ _. none) ≡ place (e.ppn * page_size) virt (permissions e)
level-last virt e v =
    let r : test_bit (permissions e) 0 ≡ test_bit e.flags 1 = ground arith in
    let w : test_bit (permissions e) 1 ≡ test_bit e.flags 2 = ground arith in
    let x : test_bit (permissions e) 2 ≡ test_bit e.flags 3 = ground arith in
    let a : (e.ppn * page_size % 2 ^ 12 == 0) ≡ true = ground arith in
    rw (v, r, w, x, a) (ground arith)

-- An entry that a table has, or has not.
no_entry : (m : Mm) (a i : ℕ) → look m a i ≡ none → is_valid (m.pte (entry a i)) ≡ false
no_entry m a i e = ground (arith, e)

entry_is :
    (m : Mm) (a i t : ℕ)
    → look m a i ≡ some t
    → (is_valid (m.pte (entry a i)) ≡ true)
      × ((m.pte (entry a i)).ppn * page_size + permissions (m.pte (entry a i)) ≡ t)
entry_is m a i t e = ground (arith, e)

-- A pointer to a table.
level-look :
    (m : Mm) (size virt a i t : ℕ) (below : ℕ → Option Place)
    → look m a i ≡ some t
    → t % page_size ≡ 0
    → level size virt (m.pte (entry a i)) below ≡ below t
level-look m size virt a i t below e f =
    let (v, is) = entry_is m a i t e in
    level-table size virt (m.pte (entry a i)) below v (omega (arith, is, f))
    ∙ ap below (omega (arith, is, f))

level-end :
    (m : Mm) (virt a i : ℕ)
    → level (2 ^ 12) virt (m.pte (entry a i)) (λ _. none) ≡ at_word virt (look m a i)
level-end m virt a i = elim (Option-cases (look m a i)) [
  | inl e ↦
      level-none (2 ^ 12) virt (m.pte (entry a i)) (λ _. none) (no_entry m a i e)
      ∙ sym (ap (at_word virt) e)
  | inr (x, e) ↦
      let (v, is) = entry_is m a i x e in
      let frame : (m.pte (entry a i)).ppn * page_size ≡ x - x % page_size = omega (arith, is) in
      let low : permissions (m.pte (entry a i)) ≡ x % page_size = omega (arith, is) in
      level-last virt (m.pte (entry a i)) v
      ∙ ap (λ f. place f virt (permissions (m.pte (entry a i)))) frame
      ∙ ap (place (x - x % page_size) virt) low
      ∙ sym (ap (at_word virt) e)
]

-- In tables that form a tree, the hardware goes the way of the address and looks at the last entry's permissions.
pub translate-walk :
    (role : ℕ → Role) (root virt : ℕ) (m : Mm)
    → IsTree role root m
    → virt < 2 ^ 38
    → translate root virt m ≡ at_word virt (walk root virt m)
unfolding translate walk
translate-walk role root virt m v lt =
    let low : ltb virt (2 ^ 38) ≡ true = ground (arith, lt) in
    let top : virt / 2 ^ 30 % 512 ≡ idx0 virt = omega (arith, lt) in
    rw (low, top)
      (elim (Option-cases (look m root (idx0 virt))) [
        | inl e ↦
            level-none (2 ^ 30) virt (m.pte (entry root (idx0 virt))) (level1 virt m)
              (no_entry m root (idx0 virt) e)
            ∙ rw e refl
        | inr (t, e) ↦
            let (rt, ft) = on_way1 role root m v virt (omega (arith, lt)) t e in
            level-look m (2 ^ 30) virt root (idx0 virt) t (level1 virt m) e ft.0
            ∙ elim (Option-cases (look m t (idx1 virt))) [
              | inl h ↦
                  level-none (2 ^ 21) virt (m.pte (entry t (idx1 virt))) (level2 virt m)
                    (no_entry m t (idx1 virt) h)
                  ∙ rw e (rw h refl)
              | inr (u, h) ↦
                  let (ru, fu) = on_way2 role root m v virt (omega (arith, lt)) t u e h in
                  level-look m (2 ^ 21) virt t (idx1 virt) u (level2 virt m) h fu.0
                  ∙ level-end m virt u (idx2 virt)
                  ∙ rw e (rw h refl)
            ]
      ])

-- The permissions that the last entry of an address has.
abbrev pub permitted : (root virt : ℕ) → Mm → ℕ
permitted root virt m = held (walk root virt m)

abbrev pub same_page : (a b : ℕ) → Bool
same_page a b = a / page_size == b / page_size

word :
    (frame w x : ℕ) → IsFrame frame → x < page_size → at_word w (some (frame + x)) ≡ place frame w x
word frame w x f l =
    let high : frame + x - (frame + x) % page_size ≡ frame = omega (arith, f.0, l) in
    let low : (frame + x) % page_size ≡ x = omega (arith, f.0, l) in
    ap (λ a. place a w ((frame + x) % page_size)) high ∙ ap (place frame w) low

-- What mapping the page of `virt` to the frame `phys` does to the hardware's translation of `w`.
abbrev pub Translated : (page_table virt phys flags w : ℕ) → Mm → ℤ × Mm → Type 0
Translated page_table virt phys flags w m (res, m') =
    ((role : ℕ → Role) × IsTree role page_table m')
    × (((res ≡ pos 0)
          × (translate page_table w m' ≡ (
              if same_page w virt
              then place phys w (granted flags (permitted page_table virt m))
              else translate page_table w m)))
        ⊎ ((res ≡ negate enomem)
            × (length m.free < 2)
            × (translate page_table w m' ≡ translate page_table w m)))

-- The words of the two cases.
mapped_word :
    (g phys virt w : ℕ) (old now : Option ℕ)
    → IsFrame phys
    → g < page_size
    → now ≡ (if same_page w virt then some (phys + g) else old)
    → at_word w now ≡ (if same_page w virt then place phys w g else at_word w old)
mapped_word g phys virt w old now f l is =
    ap (at_word w) is
    ∙ elim (Bool-cases (same_page w virt)) [ inl q ↦ rw q (word phys w g f l) | inr q ↦ rw q refl ]

Mapped-Translated :
    (page_table virt phys flags w : ℕ) (m : Mm) (r : ℤ × Mm)
    → IsFrame phys
    → w < 2 ^ 38
    → translate page_table w m ≡ at_word w (walk page_table w m)
    → Mapped page_table virt phys flags w m r
    → (r.0 ≡ pos 0) ⊎ (length m.free < 2)
    → Translated page_table virt phys flags w m r
Mapped-Translated page_table virt phys flags w m (res, m') fp wl before (tree, walks) enough =
    let g = granted flags (permitted page_table virt m) in
    let after = translate-walk tree.0 page_table w m' tree.1 wl in
    (
      tree,
      elim walks [
        | inl (z, is) ↦ inl (
          z,
          after
              ∙ mapped_word g phys virt w (walk page_table w m) (walk page_table w m') fp
                  (granted-below flags (permitted page_table virt m)) is
              ∙ ap (λ old. if same_page w virt then place phys w g else old) (sym before),
        )
        | inr (z, is) ↦ inr (
          z,
          elim enough [ inl o ↦ absurd (ground (arith, sym z ∙ o)) | inr few ↦ few ],
          after ∙ ap (at_word w) is ∙ sym before,
        )
      ],
    )

-- Mapping a page of the addresses below 2^38 to a frame, in a tree of page tables. When it succeeds, the
-- hardware translates that page to the frame, with the permissions that are asked for besides those that the page's
-- last entry had: if these are to read or to execute, and not to write without to read; with other
-- permissions every access to the page faults. Every other page it translates as before. It
-- fails with -ENOMEM and only if fewer than two pages were free; then every page is translated as before. Either
-- way the tables are a tree still, so that no table is shared or a free page.
pub vm_map_page-translates :
    (role : ℕ → Role) (page_table virt phys flags w : ℕ) (m : Mm)
    → IsTree role page_table m
    → virt < 2 ^ 38
    → IsFrame phys
    → w < 2 ^ 38
    → Translated page_table virt phys flags w m (vm_map_page page_table virt phys flags m)
vm_map_page-translates role page_table virt phys flags w m v lt fp wl =
    let (mapped, enough) =
      vm_map_page-Mapped role page_table virt phys flags w m v (omega (arith, lt)) fp
        (omega (arith, wl)) in
    Mapped-Translated page_table virt phys flags w m (vm_map_page page_table virt phys flags m) fp
      wl (translate-walk role page_table w m v wl) mapped enough
