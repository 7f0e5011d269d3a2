-- ===== src/Vm/Map.antt =====
-- What `vm_map_page` does to the way of every address through the tables.
use karg.Base.{
  ap, ℕ, ◌+◌, ◌/◌, ◌%◌, ◌^◌, ◌<◌, ◌≡◌, refl, sym, subst, ◌∙◌, ◌⊎◌, inl, inr, Option, some, ◌==◌,
  if◌then◌else◌, arith, Bool-cases, ℤ, pos, negate, length,
}
use karg.Errno.{enomem}
use karg.PageAlloc.{page_size}
use karg.Vm.{Mm, entry, next_table, idx0, idx1, vm_map_page, map_from, map_leaf}
use karg.Vm.Walk.{granted, held, Role, root, mid, leaf, look, walk, IsFrame, IsTree}
use karg.Vm.Enter.{on_way1, Entered, next_table-Entered}
use karg.Vm.Enough.{vm_map_page-enough}
use karg.Vm.Leaf.{mapped-IsTree, held_before, walk-same, walk-other}

-- What mapping the page of `virt` to the frame `phys` has done: the tables are a tree still, and the
-- way of `w` ends at the new frame if `w` lies in that page, with the permissions asked for besides those that the
-- page had, and where it ended if not; or there was no page for a table, and it ends where it did.
abbrev pub Mapped : (page_table virt phys flags w : ℕ) → Mm → ℤ × Mm → Type 0
Mapped page_table virt phys flags w m (res, m') =
    ((role : ℕ → Role) × IsTree role page_table m')
    × (((res ≡ pos 0)
          × (walk page_table w m' ≡ (
              if w / page_size == virt / page_size
              then some (phys + granted flags (held (walk page_table virt m)))
              else walk page_table w m)))
        ⊎ ((res ≡ negate enomem) × (walk page_table w m' ≡ walk page_table w m)))

module _ (page_table virt phys flags w : ℕ) (lt : virt < 2 ^ 39) (fp : IsFrame phys)
    (wl : w < 2 ^ 39) where
  map_leaf-Mapped :
      (role : ℕ → Role) (m m₁ : Mm) (t : ℕ)
      → look m₁ page_table (idx0 virt) ≡ some t
      → walk page_table w m₁ ≡ walk page_table w m
      → walk page_table virt m₁ ≡ walk page_table virt m
      → (om : Option ℕ × Mm) → role page_table ≡ root
      → Entered role page_table t (idx1 virt) (leaf (idx0 virt) (idx1 virt)) m₁ om
      → role t ≡ mid (idx0 virt)
      → page_table % page_size ≡ 0
      → Mapped page_table virt phys flags w m (map_leaf virt phys flags om)
  unfolding map_leaf
  map_leaf-Mapped role m m₁ t e same same_virt (o, m₂) top (role', v, walks, roles, entries, inl n)
        rt fr =
      subst (λ x. Mapped page_table virt phys flags w m (map_leaf virt phys flags (x, m₂))) (sym n)
        ((role', v), inr (refl, walks w wl ∙ same))
  map_leaf-Mapped role m m₁ t e same same_virt (o, m₂) top
        (role', v, walks, roles, entries, inr (u, n, l)) rt fr =
      let e' : look m₂ page_table (idx0 virt) ≡ some t =
        entries page_table (idx0 virt) fr (omega (arith, lt)) (ground (arith, top))
          (ground (arith, top, rt))
        ∙ e in
      subst (λ x. Mapped page_table virt phys flags w m (map_leaf virt phys flags (x, m₂))) (sym n)
        (
          (role', mapped-IsTree role' page_table m₂ v virt lt phys flags fp t u e' l),
          inl (
            refl,
            elim (Bool-cases (w / page_size == virt / page_size)) [
              | inl q ↦ rw q (
                  walk-same role' page_table m₂ v virt lt phys flags fp t u e' l w q
                  ∙ ap (λ x. some (phys + granted flags x))
                      (held_before role' page_table m₂ v virt lt phys flags fp t u e' l
                        ∙ ap held (walks virt lt ∙ same_virt)))
              | inr q ↦ rw q (
                  walk-other role' page_table m₂ v virt lt phys flags fp t u e' l w wl q
                  ∙ walks w wl
                  ∙ same)
            ],
          ),
        )

  map_from-Mapped :
      (role : ℕ → Role) (m : Mm)
      → IsTree role page_table m
      → (om : Option ℕ × Mm) → Entered role page_table page_table (idx0 virt) (mid (idx0 virt)) m om
      → Mapped page_table virt phys flags w m (map_from virt phys flags om)
  unfolding map_from
  map_from-Mapped role m v (o, m₁) (role', v', walks, roles, entries, inl n) =
      subst (λ x. Mapped page_table virt phys flags w m (map_from virt phys flags (x, m₁))) (sym n)
        ((role', v'), inr (refl, walks w wl))
  map_from-Mapped role m v (o, m₁) (role', v', walks, roles, entries, inr (t, n, l)) =
      let (rt, ft) = on_way1 role' page_table m₁ v' virt lt t l in
      let next =
        next_table-Entered role' page_table t (idx1 virt) (leaf (idx0 virt) (idx1 virt)) m₁ v'
          (ground (arith, rt)) (omega arith) ft in
      subst (λ x. Mapped page_table virt phys flags w m (map_from virt phys flags (x, m₁))) (sym n)
        (map_leaf-Mapped role' m m₁ t l (walks w wl) (walks virt lt)
          (next_table (entry t (idx1 virt)) m₁) v'.top next rt v'.frame.0)

-- Mapping a page of the first 512 GiB to a frame, in a tree of page tables.
pub vm_map_page-Mapped :
    (role : ℕ → Role) (page_table virt phys flags w : ℕ) (m : Mm)
    → IsTree role page_table m
    → virt < 2 ^ 39
    → IsFrame phys
    → w < 2 ^ 39
    → Mapped page_table virt phys flags w m (vm_map_page page_table virt phys flags m)
      × (((vm_map_page page_table virt phys flags m).0 ≡ pos 0) ⊎ (length m.free < 2))
unfolding vm_map_page
vm_map_page-Mapped role page_table virt phys flags w m v lt fp wl = (
  map_from-Mapped page_table virt phys flags w lt fp wl role m v
      (next_table (entry page_table (idx0 virt)) m)
      (next_table-Entered role page_table page_table (idx0 virt) (mid (idx0 virt)) m v
        (ground (arith, v.top)) (omega (arith, lt)) v.frame),
  vm_map_page-enough role page_table virt phys flags m v.pages,
)
