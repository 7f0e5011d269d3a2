-- ===== src/Vm/Free.antt =====
-- `vm_map_page` takes pages off the free list and puts none on it.
use karg.Base.{ℕ, ◌+◌, ◌≤◌, ◌≡◌, refl, ◌⊎◌, Option, none, some, List, [], ◌∷◌, arith, subst}
use karg.PageAlloc.{page_alloc, page_size}
use karg.Vm.{Mm, entry, idx0, idx1, next_table, map_from, map_leaf, vm_map_page}

-- No page of the list reaches between `low` and `high`.
unfoldable pub AreApart : (low high : ℕ) → List ℕ → Type 0
AreApart low high [] = Unit
AreApart low high (p ∷ ps) = ((p + page_size ≤ low) ⊎ (high ≤ p)) × AreApart low high ps

next_table-AreApart :
    (low high a : ℕ) (m : Mm) → AreApart low high m.free → AreApart low high (next_table a m).1.free
unfolding next_table page_alloc AreApart
next_table-AreApart low high a m h = go m.free refl
  where
    go : (ps : List ℕ) → m.free ≡ ps → AreApart low high (next_table a m).1.free
    go [] e = ground (arith, e, h)
    go (p ∷ ps) e =
        let all : AreApart low high (p ∷ ps) = subst (AreApart low high) e h in
        ground (arith, e, h, all)

pub vm_map_page-AreApart :
    (low high page_table virt phys flags : ℕ) (m : Mm)
    → AreApart low high m.free
    → AreApart low high (vm_map_page page_table virt phys flags m).1.free
unfolding vm_map_page map_from map_leaf
vm_map_page-AreApart low high page_table virt phys flags m h =
    first (next_table (entry page_table (idx0 virt)) m)
      (next_table-AreApart low high (entry page_table (idx0 virt)) m h)
  where
    second :
        (r : Option ℕ × Mm)
        → AreApart low high r.1.free
        → AreApart low high (map_leaf virt phys flags r).1.free
    second (none, m₂) k = k
    second (some t, m₂) k = k

    first :
        (r : Option ℕ × Mm)
        → AreApart low high r.1.free
        → AreApart low high (map_from virt phys flags r).1.free
    first (none, m₁) k = k
    first (some t, m₁) k =
        second (next_table (entry t (idx1 virt)) m₁)
          (next_table-AreApart low high (entry t (idx1 virt)) m₁ k)

pub AreApart-narrow :
    (low high low' high' : ℕ) (ps : List ℕ)
    → low ≤ low'
    → high' ≤ high
    → AreApart low high ps
    → AreApart low' high' ps
unfolding AreApart
AreApart-narrow low high low' high' [] l h a = tt
AreApart-narrow low high low' high' (p ∷ ps) l h a =
    (ground (arith, a, l, h), AreApart-narrow low high low' high' ps l h a.1)
