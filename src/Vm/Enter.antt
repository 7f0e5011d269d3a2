-- ===== src/Vm/Enter.antt =====
-- Entering a table that may have to be made leaves every translation as it was.
use karg.Base.{
  ℕ, ◌%◌, ◌^◌, ◌<◌, ◌≡◌, refl, sym, subst, ap, ◌≢◌, ◌⊎◌, inl, inr, ◌&&◌, Option, none, some, ◌>>=◌,
  ◌==◌, if◌then◌else◌, arith, ==_refl, Option-cases,
}
use karg.PageAlloc.{page_size}
use karg.Vm.{Mm, entry, next_table, idx0, idx1, idx2}
use karg.Vm.Walk.{Role, free, mid, leaf, child, look, target, walk, IsFrame, IsTree, assign}
use karg.Vm.Tables.{IsNew, Next, next_table-Next}

-- A table on the way of an address is not the free page `p`, and has the role of its place.
module _ (role : ℕ → Role) (page_table : ℕ) (m : Mm) (v : IsTree role page_table m) (virt : ℕ)
    (lt : virt < 2 ^ 39) where
  pub on_way1 :
      (t : ℕ) → look m page_table (idx0 virt) ≡ some t → (role t ≡ mid (idx0 virt)) × IsFrame t
  on_way1 t e =
      v.points page_table (idx0 virt) t (mid (idx0 virt)) (ground (arith, v.top))
        (omega (arith, lt)) e

  pub on_way2 :
      (t u : ℕ)
      → look m page_table (idx0 virt) ≡ some t
      → look m t (idx1 virt) ≡ some u
      → (role u ≡ leaf (idx0 virt) (idx1 virt)) × IsFrame u
  on_way2 t u e h =
      v.points t (idx1 virt) u (leaf (idx0 virt) (idx1 virt)) (ground (arith, on_way1 t e))
        (omega arith) h

-- A new table leaves every translation as it was.
module _ (role : ℕ → Role) (page_table : ℕ) (a i p : ℕ) (r : Role) (m m' : Mm)
    (v : IsTree role page_table m) (c : child (role a) i ≡ some r) (f : role p ≡ free)
    (n : look m a i ≡ none) (new : IsNew a i p m m') where
  -- An entry of a table that is not the new one.
  look-new :
      (b j : ℕ)
      → b % page_size ≡ 0
      → j < 512
      → role b ≢ free
      → look m' b j ≡ (if (b == a) && (j == i) then some p else look m b j)
  look-new b j fb k h = ground (arith, new b j fb k, f)

  nothing_in_new : (p % page_size ≡ 0) → (j : ℕ) → j < 512 → look m' p j ≡ none
  nothing_in_new fp j k = ground (arith, new p j fp k)

  -- The first two steps from the new table, and from one that was there.
  step2-new :
      (p % page_size ≡ 0)
      → (t j k x y : ℕ) → t % page_size ≡ 0
      → role t ≢ free
      → j < 512
      → k < 512
      → ((u : ℕ) → look m t j ≡ some u → (role u ≡ leaf x y) × IsFrame u)
      → (look m' t j >>= λ u. look m' u k) ≡ (look m t j >>= λ u. look m u k)
  step2-new fp t j k x y ft ht lj lk next = elim (Option-cases (look m t j)) [
    | inl e ↦ ground (arith, e, look-new t j ft lj ht, nothing_in_new fp k lk)
    | inr (u, e) ↦
        let (cu, fu) = next u e in
        ground
          (arith, e, n, look-new t j ft lj ht, look-new u k fu.0 lk (ground (arith, cu)), c, cu)
  ]

  walk-new :
      (p % page_size ≡ 0)
      → (virt : ℕ) → virt < 2 ^ 39
      → walk page_table virt m' ≡ walk page_table virt m
  unfolding walk
  walk-new fp virt lt = elim (Option-cases (look m page_table (idx0 virt))) [
    | inl e ↦ ground (
      arith,
      e,
      look-new page_table (idx0 virt) v.frame.0 (omega (arith, lt)) (ground (arith, v.top)),
      nothing_in_new fp (idx1 virt) (omega arith),
    )
    | inr (t, e) ↦
        let (rt, ft) = on_way1 role page_table m v virt lt t e in
        let rest =
          step2-new fp t (idx1 virt) (idx2 virt) (idx0 virt) (idx1 virt) ft.0 (ground (arith, rt))
            (omega arith) (omega arith) (λ u h. on_way2 role page_table m v virt lt t u e h) in
        let root_kept : look m' page_table (idx0 virt) ≡ some t = ground (
          arith,
          e,
          n,
          look-new page_table (idx0 virt) v.frame.0 (omega (arith, lt)) (ground (arith, v.top)),
        ) in
        rw (root_kept, e) rest
  ]

-- What entering a table has done: every translation is as before, tables keep their roles, and the
-- table, if there is one, is the one that the entry now points at.
abbrev pub Entered :
    (role : ℕ → Role) (page_table a i : ℕ) (r : Role) (m : Mm) → Option ℕ × Mm → Type 0
Entered role page_table a i r m (o, m') =
    (role' : ℕ → Role) × IsTree role' page_table m'
    × ((virt : ℕ) → virt < 2 ^ 39 → walk page_table virt m' ≡ walk page_table virt m)
    × ((b : ℕ) → role b ≢ free → role' b ≡ role b)
    × ((b j : ℕ) → b % page_size ≡ 0 → j < 512 → role b ≢ free → b ≢ a → look m' b j ≡ look m b j)
    × ((o ≡ none) ⊎ ((t : ℕ) × (o ≡ some t) × (look m' a i ≡ some t)))

walk-pte :
    (page_table virt : ℕ) (m m' : Mm)
    → m'.pte ≡ m.pte
    → walk page_table virt m' ≡ walk page_table virt m
unfolding walk
walk-pte page_table virt m m' s =
    ap (λ f. walk page_table virt (record { free = m'.free; pte = f })) s

pub next_table-Entered :
    (role : ℕ → Role) (page_table a i : ℕ) (r : Role) (m : Mm)
    → IsTree role page_table m
    → child (role a) i ≡ some r
    → i < 512
    → IsFrame a
    → Entered role page_table a i r m (next_table (entry a i) m)
next_table-Entered role page_table a i r m v c lt fa =
    go (next_table (entry a i) m) (next_table-Next role page_table a i r m v c lt fa)
  where
    go : (om : Option ℕ × Mm) → Next role page_table a i r m om → Entered role page_table a i r m om
    go (o, m') (inl (t, e, l, s)) =
        subst (λ x. Entered role page_table a i r m (o, x)) (sym s)
          (role, v, (λ _ _. refl), (λ _ _. refl), (λ _ _ _ _ _ _. refl), inr (t, e, l))
    go (o, m') (inr (inl (e, s, v'))) = (
      role,
      v',
      (λ virt _. walk-pte page_table virt m m' s),
      (λ _ _. refl),
      (λ b j _ _ _ _. ap (λ f. target (f (entry b j))) s),
      inl e,
    )
    go (o, m') (inr (inr (p, e, n, f, fp, new, v'))) = (
      assign role p r,
      v',
      walk-new role page_table a i p r m m' v c f n new fp.0,
      (λ b h. ground (arith, f, h)),
      (λ b j fb k h ne.
          ground (arith, look-new role page_table a i p r m m' v c f n new b j fb k h)),
      inr (
        p,
        e,
        ground (
          arith,
          look-new role page_table a i p r m m' v c f n new a i fa.0 lt (ground (arith, c)),
          ==_refl a,
        ),
      ),
    )
