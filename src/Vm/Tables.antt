-- ===== src/Vm/Tables.antt =====
-- `next_table`: the table that an entry points at, or a new one.
use karg.Base.{
  ap, ◌∙◌, ==_of_ne, ◌+◌, ℕ, ◌*◌, ◌%◌, ◌<◌, ◌≡◌, refl, sym, subst, ◌≢◌, ◌⊎◌, inl, inr, true, false,
  ◌&&◌, Option, none, some, List, [], ◌∷◌, ◌==◌, if◌then◌else◌, has, Distinct, arith, Bool-cases,
}
use karg.PageAlloc.{page_size, page_alloc}
use karg.Vm.{Mm, is_valid, entry, init_pte, zero_page, vm_create_page_table, next_table}
use karg.Vm.Walk.{
  is_table, permissions, granted, pte-init_pte, pte-zero_page, Role, free, root, mid, child, look,
  IsFrame, AllFree, IsTree, assign, look-init_pte, look-zero_page,
}

child-ne-free : (s r : Role) (i : ℕ) → child s i ≡ some r → r ≢ free
child-ne-free root r i e = cc
child-ne-free (mid j) r i e = cc
child-ne-free _ r i e = cc

AllFree-assign :
    (role : ℕ → Role) (p : ℕ) (r : Role) (ps : List ℕ)
    → has p ps ≡ false
    → AllFree role ps
    → AllFree (assign role p r) ps
AllFree-assign role p r [] h f = tt
AllFree-assign role p r (q ∷ ps) h f = ground (arith, AllFree-assign role p r ps)

-- What a new table at `p`, entered at index `i` of the table `a`, does to all entries.
abbrev pub IsNew : (a i p : ℕ) (m m' : Mm) → Type 0
IsNew a i p m m' =
    (b j : ℕ)
    → b % page_size ≡ 0
    → j < 512
    → look m' b j ≡ (if b == p then none else if (b == a) && (j == i) then some p else look m b j)

-- How `next_table` ends: the table was there; or there is no page for it, and no entry changes; or
-- it is new, in a page that was free.
abbrev pub Next :
    (role : ℕ → Role) (page_table a i : ℕ) (r : Role) (m : Mm) → Option ℕ × Mm → Type 0
Next role page_table a i r m (o, m') =
    ((t : ℕ) × (o ≡ some t) × (look m a i ≡ some t) × (m' ≡ m))
    ⊎ ((o ≡ none) × (m'.pte ≡ m.pte) × IsTree role page_table m')
    ⊎ ((p : ℕ) × (o ≡ some p)
        × (look m a i ≡ none)
        × (role p ≡ free)
        × IsFrame p
        × IsNew a i p m m'
        × IsTree (assign role p r) page_table m')

-- The memory in which the free page `p` has become a table.
abbrev made : (a i p : ℕ) (ps : List ℕ) → Mm → Mm
made a i p ps m = init_pte (entry a i) p 0 (zero_page p (record m { free = ps }))

module _ (role : ℕ → Role) (page_table a i : ℕ) (r : Role) (m : Mm) (p : ℕ) (ps : List ℕ)
    (v : IsTree role page_table m) (c : child (role a) i ≡ some r) (lt : i < 512) (fa : IsFrame a)
    (e : m.free ≡ p ∷ ps) (n : look m a i ≡ none) where
  first : IsFrame p × (role p ≡ free) × AllFree role ps
  first = rw e at v.pages

  fresh : has p ps ≡ false
  fresh = let d : Distinct (p ∷ ps) = rw e at v.unique in d.0

  a-ne-p : a ≢ p
  a-ne-p h = ground (arith, first, c, h)

  -- The entry had no permission, and gets none.
  a-is_table : is_table (role a) ≡ true
  a-is_table = ground (arith, c)

  granted_none :
      granted 0 (permissions ((zero_page p (record m { free = ps })).pte (entry a i))) ≡ 0
  granted_none =
      let kept =
        rw (==_of_ne a p a-ne-p) at
          (pte-zero_page (record m { free = ps }) p a i first.0.0 fa.0 lt) in
      let old : permissions (m.pte (entry a i)) ≡ 0 = v.blank a i a-is_table fa.0 lt n in
      ap (λ e. granted 0 (permissions e)) kept ∙ ap (granted 0) old

  made-IsNew : IsNew a i p m (made a i p ps m)
  made-IsNew b j fb k =
      let m₀ : Mm = record m { free = ps } in
      ground (
        arith,
        look-init_pte (zero_page p m₀) a i p 0 b j fa first.0 fb lt k,
        look-zero_page m₀ p b j first.0.0 fb k,
        a-ne-p,
        granted_none,
      )

  made_aligned : (b j : ℕ) (s : Role) → child (assign role p r b) j ≡ some s → b % page_size ≡ 0
  made_aligned b j s h = elim (Bool-cases (b == p)) [
    | inl q ↦ ground (arith, first, q)
    | inr q ↦ v.aligned b j s (ground (arith, h, q))
  ]

  made_points :
      (b j t : ℕ) (s : Role)
      → child (assign role p r b) j ≡ some s
      → j < 512
      → look (made a i p ps m) b j ≡ some t
      → (assign role p r t ≡ s) × IsFrame t
  made_points b j t s h k w =
      let l = made-IsNew b j (made_aligned b j s h) k in
      elim (Bool-cases (b == p)) [
        | inl q ↦ absurd (ground (arith, l, w, q))
        | inr q ↦ elim (Bool-cases ((b == a) && (j == i))) [
          | inl here ↦ ground (arith, l, w, q, here, first, c, h)
          | inr there ↦
              let old =
                v.points b j t s (ground (arith, h, q)) k (ground (arith, l, w, q, there)) in
              ground (arith, old, first, child-ne-free (role b) s j (ground (arith, h, q)))
        ]
      ]

  made_blank :
      (b j : ℕ)
      → is_table (assign role p r b) ≡ true
      → b % page_size ≡ 0
      → j < 512
      → look (made a i p ps m) b j ≡ none
      → permissions ((made a i p ps m).pte (entry b j)) ≡ 0
  made_blank b j tb fb k none_there =
      let m₀ : Mm = record m { free = ps } in
      let l = made-IsNew b j fb k in
      elim (Bool-cases ((b == a) && (j == i))) [
        | inl here ↦ absurd (ground (arith, l, none_there, here, a-ne-p))
        | inr there ↦
            let same =
              pte-init_pte (zero_page p m₀) a i p 0 b j fa.0 fb lt k there
              ∙ pte-zero_page m₀ p b j first.0.0 fb k in
            elim (Bool-cases (b == p)) [
              | inl q ↦ ap permissions (rw q at same)
              | inr q ↦
                  ap permissions (rw q at same)
                  ∙ v.blank b j (rw q at tb) fb k (sym (l ∙ rw q (rw there refl)) ∙ none_there)
            ]
      ]

  made-IsTree : IsTree (assign role p r) page_table (made a i p ps m)
  made-IsTree = record {
    top = ground (arith, v.top, first);
    frame = v.frame;
    unique = (let d : Distinct (p ∷ ps) = rw e at v.unique in d.1);
    pages = AllFree-assign role p r ps fresh first.2;
    aligned = made_aligned;
    points = made_points;
    blank = made_blank;
  }

next_table-found :
    (a : ℕ) (m : Mm)
    → is_valid (m.pte a) ≡ true
    → next_table a m ≡ (some ((m.pte a).ppn * page_size), m)
unfolding next_table
next_table-found a m n = ground (arith, n)

next_table-full :
    (a : ℕ) (m : Mm)
    → is_valid (m.pte a) ≡ false
    → m.free ≡ []
    → next_table a m ≡ (none, record m { free = [] })
unfolding next_table vm_create_page_table page_alloc
next_table-full a m n e = ground (arith, n, e)

next_table-made :
    (a i p : ℕ) (ps : List ℕ) (m : Mm)
    → is_valid (m.pte (entry a i)) ≡ false
    → m.free ≡ p ∷ ps
    → 0 < p
    → next_table (entry a i) m ≡ (some p, made a i p ps m)
unfolding next_table vm_create_page_table page_alloc
next_table-made a i p ps m n e z = ground (arith, n, e)

IsTree-full :
    (role : ℕ → Role) (page_table : ℕ) (m : Mm)
    → IsTree role page_table m
    → IsTree role page_table (record m { free = [] })
IsTree-full role page_table m v = record {
  top = v.top;
  frame = v.frame;
  unique = tt;
  pages = tt;
  aligned = v.aligned;
  points = v.points;
  blank = v.blank;
}

new_table :
    (role : ℕ → Role) (page_table a i : ℕ) (r : Role) (m : Mm) (ps : List ℕ)
    → IsTree role page_table m
    → child (role a) i ≡ some r
    → i < 512
    → IsFrame a
    → is_valid (m.pte (entry a i)) ≡ false
    → m.free ≡ ps
    → Next role page_table a i r m (next_table (entry a i) m)
new_table role page_table a i r m [] v c lt fa n e =
    subst (Next role page_table a i r m) (sym (next_table-full (entry a i) m n e))
      (inr (inl (refl, refl, IsTree-full role page_table m v)))
new_table role page_table a i r m (p ∷ ps) v c lt fa n e =
    let none_there : look m a i ≡ none = ground (arith, n) in
    let f = first role page_table a i r m p ps v c lt fa e none_there in
    subst (Next role page_table a i r m) (sym (next_table-made a i p ps m n e f.0.1)) (
      inr (
        inr (
          p,
          refl,
          none_there,
          f.1,
          f.0,
          made-IsNew role page_table a i r m p ps v c lt fa e none_there,
          made-IsTree role page_table a i r m p ps v c lt fa e none_there,
        )))

-- The three ways in which `next_table` ends.
pub next_table-Next :
    (role : ℕ → Role) (page_table a i : ℕ) (r : Role) (m : Mm)
    → IsTree role page_table m
    → child (role a) i ≡ some r
    → i < 512
    → IsFrame a
    → Next role page_table a i r m (next_table (entry a i) m)
next_table-Next role page_table a i r m v c lt fa =
    let bare : is_valid (m.pte (entry a i)) ≡ true
        → look m a i ≡ some ((m.pte (entry a i)).ppn * page_size) =
      λ valid.
        let l : look m a i
            ≡ some ((m.pte (entry a i)).ppn * page_size + permissions (m.pte (entry a i))) =
          ground (arith, valid) in
        l ∙ ap some (omega (arith, (v.points a i _ r c lt l).1.0)) in
    elim (Bool-cases (is_valid (m.pte (entry a i)))) [
      | inl valid ↦
          subst (Next role page_table a i r m) (sym (next_table-found (entry a i) m valid))
            (inl (_, refl, bare valid, refl))
      | inr invalid ↦ new_table role page_table a i r m m.free v c lt fa invalid refl
    ]
