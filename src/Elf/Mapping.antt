-- ===== src/Elf/Mapping.antt =====
-- What the program loader maps.
use karg.Base.{
  Bool, Option, ℕ, zero, suc, ◌+◌, ◌*◌, ◌/◌, ◌%◌, ◌^◌, ◌<◌, ◌≤◌, ◌≡◌, refl, sym, ◌∙◌, ap, subst,
  inl, inr, true, false, some, List, [], ◌∷◌, ◌==◌, if◌then◌else◌, ltb, has, Distinct, arith, ℤ,
  pos, is_neg, negate, Bool-cases,
}
use karg.Errno.{enomem}
use karg.Elf.{
  ProgHdr, Space, fill_page, load_page, load_segment, load_prog, segment_rounds, vm_flags,
}
use karg.PageAlloc.{page_alloc, page_size}
use karg.Vm.{Mm, vm_map_page}
use karg.Vm.Leaf.{walk-same_page}
use karg.Vm.Map.{vm_map_page-Mapped}
use karg.Vm.Walk.{Role, granted, held, Covers, given-Covers, other, AllFree, IsTree, assign, walk}

-- A page taken off the free list leaves the tree as it is.
AllFree-assign :
    (role : ℕ → Role) (p : ℕ) (r : Role) (ps : List ℕ)
    → has p ps ≡ false
    → AllFree role ps
    → AllFree (assign role p r) ps
AllFree-assign role p r [] n f = tt
AllFree-assign role p r (q ∷ ps) n f =
    ground (arith, n, f, AllFree-assign role p r ps (ground (arith, n)) f.2)

taken-IsTree :
    (role : ℕ → Role) (table p : ℕ) (ps : List ℕ) (m : Mm)
    → IsTree role table m
    → m.free ≡ p ∷ ps
    → IsTree (assign role p other) table (record m { free = ps })
taken-IsTree role table p ps m v e =
    let all : AllFree role (p ∷ ps) = subst (AllFree role) e v.pages in
    let distinct : Distinct (p ∷ ps) = subst Distinct e v.unique in
    record {
      top = ground (arith, v.top, all);
      frame = v.frame;
      unique = distinct.1;
      pages = AllFree-assign role p other ps distinct.0 all.2;
      aligned = λ a i r h. ground (arith, h, v.aligned a i r);
      points = λ a i t r h l k. ground (arith, h, v.points a i t r, l, k, all);
      blank = λ a i t f l k. ground (arith, t, v.blank a i, f, l, k);
    }

-- An entry for the page of an address: there is one if the page was mapped, with the permissions that it had
-- and those that were asked for.
abbrev pub Entry : (flags : ℕ) (here : Bool) → (old now : Option ℕ) → Type 0
Entry flags here old now =
    (x : ℕ) × (now ≡ (if here then some x else old))
    × Covers flags (x % page_size)
    × ((asked : ℕ) → here ≡ true → Covers asked (held old) → Covers asked (x % page_size))

-- One round that succeeds: the page has an entry, and other pages are where they were.
pub load_page-maps :
    (role : ℕ → Role) (elf table flags offset w : ℕ) (h : ProgHdr) (s : Space)
    → IsTree role table s.mm
    → h.vaddr + offset < 2 ^ 39
    → w < 2 ^ 39
    → is_neg (load_page elf table flags offset h s).0 ≡ false
    → let s' = (load_page elf table flags offset h s).1 in
      ((role' : ℕ → Role) × IsTree role' table s'.mm)
      × Entry flags
          (w / page_size == (h.vaddr + offset) / page_size)
          (walk table w s.mm)
          (walk table w s'.mm)
unfolding load_page page_alloc walk
load_page-maps role elf table flags offset w h s v lt wl ok = go s.mm.free refl ok
  where
    Result : Space → Type 0
    Result s' =
        ((role' : ℕ → Role) × IsTree role' table s'.mm)
        × Entry flags (w / page_size == (h.vaddr + offset) / page_size) (walk table w s.mm)
            (walk table w s'.mm)

    with_page : ℕ × List ℕ → ℤ × Space
    with_page (page, rest) =
        let mm : Mm = record s.mm { free = rest } in
        let (res, mm') = vm_map_page table (h.vaddr + offset) page flags mm in
        if page == 0
        then (negate enomem, record s { mm = mm })
        else (res, record { mm = mm'; bytes = fill_page elf page offset h s.bytes })

    go :
        (ps : List ℕ)
        → s.mm.free ≡ ps
        → is_neg (with_page (page_alloc ps)).0 ≡ false
        → Result (with_page (page_alloc ps)).1
    go [] e ok = absurd (ground (arith, ok))
    go (p ∷ ps) e ok =
        let mm : Mm = record s.mm { free = ps } in
        let all : AllFree role (p ∷ ps) = subst (AllFree role) e v.pages in
        let ((tree, walks), enough) =
          vm_map_page-Mapped (assign role p other) table (h.vaddr + offset) p flags w mm
            (taken-IsTree role table p ps s.mm v e) lt all.0 wl in
        let r = vm_map_page table (h.vaddr + offset) p flags mm in
        let done : ℤ × Space =
          (r.0, record { mm = r.1; bytes = fill_page elf p offset h s.bytes }) in
        let n : (p == 0) ≡ false = ground (arith, all) in
        let is : with_page (p, ps) ≡ done = rw n refl in
        let succeeds : is_neg r.0 ≡ false = sym (ap (λ z. is_neg z.0) is) ∙ ok in
        subst (λ z. Result z.1) (sym is)
          (
            tree,
            elim walks [
              | inl (z, w') ↦ (
                p + granted flags (held (walk table (h.vaddr + offset) mm)),
                w',
                (given-Covers p flags (held (walk table (h.vaddr + offset) mm)) all.0).0,
                λ asked here covers.
                    (given-Covers p flags (held (walk table (h.vaddr + offset) mm)) all.0).1 asked (
                      subst (λ o. Covers asked (held o))
                        (walk-same_page table w (h.vaddr + offset) mm here) covers),
              )
              | inr (z, w') ↦ absurd (ground (arith, succeeds, z))
            ],
          )

-- The address has an entry with these permissions.
abbrev pub IsIn : (table w flags : ℕ) → Mm → Type 0
IsIn table w flags m = (x : ℕ) × (walk table w m ≡ some x) × Covers flags (x % page_size)

-- The pages of a segment from `offset` on: those before are left where they were, and each of these
-- gets a frame.
module _ (elf table flags w : ℕ) (h : ProgHdr) (top : h.vaddr + h.memsz ≤ 2 ^ 39)
    (wl : w < 2 ^ 39) where
  segment-keeps :
      (fuel offset : ℕ) (role : ℕ → Role) (s : Space)
      → IsTree role table s.mm
      → (h.vaddr + offset) % page_size ≡ 0
      → w < h.vaddr + offset
      → (load_segment fuel elf table flags offset h s).0 ≡ pos 0
      → ((role' : ℕ → Role) × IsTree role' table
            (load_segment fuel elf table flags offset h s).1.mm)
        × (walk table w (load_segment fuel elf table flags offset h s).1.mm ≡ walk table w s.mm)
  unfolding load_segment
  segment-keeps zero offset role s v al before ok = ((role, v), refl)
  segment-keeps (suc fuel) offset role s v al before ok = elim (Bool-cases (ltb offset h.memsz)) [
    | inr q ↦ rw q ((role, v), refl)
    | inl q ↦ elim (Bool-cases (is_neg (load_page elf table flags offset h s).0)) [
      | inl n ↦ absurd (ground (arith, ok, q, n))
      | inr n ↦
          let page = load_page elf table flags offset h s in
          let ((role', v'), (x, walks, covers, kept_covers)) =
            load_page-maps role elf table flags offset w h s v (ground (arith, q, top)) wl n in
          let (tree, kept) =
            segment-keeps fuel (offset + page_size) role' page.1 v' (omega (arith, al))
              (omega (arith, before)) (rw n at (rw q at ok)) in
          let differs : (w / page_size == (h.vaddr + offset) / page_size) ≡ false =
            ground (arith, before, al) in
          rw q (rw n (tree, kept ∙ walks ∙ rw differs refl))
    ]
  ]

  segment-maps :
      (fuel offset : ℕ) (role : ℕ → Role) (s : Space)
      → IsTree role table s.mm
      → (h.vaddr + offset) % page_size ≡ 0
      → h.memsz ≤ offset + fuel * page_size
      → h.vaddr + offset ≤ w
      → w < h.vaddr + h.memsz
      → (load_segment fuel elf table flags offset h s).0 ≡ pos 0
      → IsIn table w flags (load_segment fuel elf table flags offset h s).1.mm
  unfolding load_segment
  segment-maps zero offset role s v al enough from below ok =
      absurd (omega (arith, enough, from, below))
  segment-maps (suc fuel) offset role s v al enough from below ok =
      let q : ltb offset h.memsz ≡ true = ground (arith, from, below) in
      let page = load_page elf table flags offset h s in
      elim (Bool-cases (is_neg page.0)) [
        | inl n ↦ absurd (ground (arith, ok, q, n))
        | inr n ↦
            let ((role', v'), (x, walks, covers, kept_covers)) =
              load_page-maps role elf table flags offset w h s v (ground (arith, q, top)) wl n in
            let rest_ok : (load_segment fuel elf table flags (offset + page_size) h page.1).0
                ≡ pos 0 =
              rw n at (rw q at ok) in
            let next : (h.vaddr + (offset + page_size)) % page_size ≡ 0 = omega (arith, al) in
            elim (Bool-cases (ltb w (h.vaddr + (offset + page_size)))) [
              | inl b ↦
                  let (tree, kept) =
                    segment-keeps fuel (offset + page_size) role' page.1 v' next (ground (arith, b))
                      rest_ok in
                  let here : (w / page_size == (h.vaddr + offset) / page_size) ≡ true =
                    ground (arith, from, b, al) in
                  rw q (rw n (x, kept ∙ walks ∙ rw here refl, covers))
              | inr b ↦
                  let mapped =
                    segment-maps fuel (offset + page_size) role' page.1 v' next
                      (omega (arith, enough)) (ground (arith, b)) below rest_ok in
                  rw q (rw n mapped)
            ]
      ]

-- A loadable segment at a page boundary below 2^39, with all pages that its memory needs.
pub load_prog-maps :
    (role : ℕ → Role) (elf table w : ℕ) (h : ProgHdr) (s : Space)
    → IsTree role table s.mm
    → h.type ≡ 1
    → h.vaddr % page_size ≡ 0
    → h.vaddr + h.memsz ≤ 2 ^ 39
    → h.vaddr ≤ w
    → w < h.vaddr + h.memsz
    → (load_prog elf table h s).0 ≡ pos 0
    → IsIn table w (vm_flags h.flags) (load_prog elf table h s).1.mm
unfolding load_prog
load_prog-maps role elf table w h s v t al top from below ok =
    let loads : (h.type == 1) ≡ true = ground (arith, t) in
    let ok' : (load_segment (segment_rounds h) elf table (vm_flags h.flags) 0 h s).0 ≡ pos 0 =
      rw loads at ok in
    let mapped =
      segment-maps elf table (vm_flags h.flags) w h top (omega (arith, top, below))
        (segment_rounds h) 0 role s v (omega (arith, al)) (omega arith) (omega (arith, from)) below
        ok' in
    rw loads mapped
