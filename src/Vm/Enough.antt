-- ===== src/Vm/Enough.antt =====
-- Two free pages are enough to map a page.
use karg.Base.{
  ℕ, ◌<◌, ◌≡◌, refl, ◌≢◌, ◌⊎◌, inl, inr, Option, none, some, List, [], ◌∷◌, length, arith, pos,
}
use karg.PageAlloc.{page_alloc}
use karg.Vm.{Mm, entry, idx0, idx1, next_table, map_from, map_leaf, vm_map_page}
use karg.Vm.Walk.{Role, AllFree}

-- With a free page, the next table is there, and at most that page is taken.
next_table-ne-none :
    (a p : ℕ) (ps : List ℕ) (m : Mm) → m.free ≡ p ∷ ps → p ≢ 0 → (next_table a m).0 ≢ none
unfolding next_table page_alloc
next_table-ne-none a p ps m e n h = ground (arith, e, n, h)

next_table-free :
    (a p : ℕ) (ps : List ℕ) (m : Mm)
    → m.free ≡ p ∷ ps
    → p ≢ 0
    → ((next_table a m).1.free ≡ ps) ⊎ ((next_table a m).1.free ≡ p ∷ ps)
unfolding next_table page_alloc
next_table-free a p ps m e n = ground (arith, e, n)

-- A failure of `vm_map_page` means that fewer than two pages were free.
pub vm_map_page-enough :
    (role : ℕ → Role) (page_table virt phys flags : ℕ) (m : Mm)
    → AllFree role m.free
    → ((vm_map_page page_table virt phys flags m).0 ≡ pos 0) ⊎ (length m.free < 2)
unfolding vm_map_page map_from map_leaf
vm_map_page-enough role page_table virt phys flags m f = go m.free refl
  where
    second :
        (a p : ℕ) (ps : List ℕ) (m₁ : Mm)
        → m₁.free ≡ p ∷ ps
        → p ≢ 0
        → (map_leaf virt phys flags (next_table a m₁)).0 ≡ pos 0
    second a p ps m₁ e n = third (next_table a m₁) (next_table-ne-none a p ps m₁ e n)
      where
        third : (r : Option ℕ × Mm) → r.0 ≢ none → (map_leaf virt phys flags r).0 ≡ pos 0
        third (none, m₂) h = absurd (h refl)
        third (some t, m₂) h = refl

    first :
        (r : Option ℕ × Mm) (p q : ℕ) (ps : List ℕ)
        → r.0 ≢ none
        → (r.1.free ≡ q ∷ ps) ⊎ (r.1.free ≡ p ∷ q ∷ ps)
        → p ≢ 0
        → q ≢ 0
        → (map_from virt phys flags r).0 ≡ pos 0
    first (none, m₁) p q ps h e n n' = absurd (h refl)
    first (some t, m₁) p q ps h (inl e) n n' = second (entry t (idx1 virt)) q ps m₁ e n'
    first (some t, m₁) p q ps h (inr e) n n' = second (entry t (idx1 virt)) p (q ∷ ps) m₁ e n

    go :
        (ps : List ℕ)
        → m.free ≡ ps
        → ((vm_map_page page_table virt phys flags m).0 ≡ pos 0) ⊎ (length m.free < 2)
    go [] e = inr (ground (arith, e))
    go (p ∷ []) e = inr (ground (arith, e))
    go (p ∷ q ∷ ps) e =
        let free : AllFree role (p ∷ q ∷ ps) = rw e at f in
        let n : p ≢ 0 = ground (arith, free) in
        let n' : q ≢ 0 = ground (arith, free) in
        let a = entry page_table (idx0 virt) in
        inl (
          first (next_table a m) p q ps (next_table-ne-none a p (q ∷ ps) m e n)
            (next_table-free a p (q ∷ ps) m e n) n n')
