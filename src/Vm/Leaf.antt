-- ===== src/Vm/Leaf.antt =====
-- Writing an entry of the last level maps one page, and no other.
use karg.Base.{
  ℕ, ◌+◌, ◌/◌, ◌%◌, ◌^◌, ◌<◌, ◌≡◌, refl, sym, ◌∙◌, ap, inl, inr, true, false, ◌&&◌, none, some,
  ◌==◌, if◌then◌else◌, arith, Bool-cases, ==_refl, Option-cases,
}
use karg.PageAlloc.{page_size}
use karg.Vm.{Mm, entry, init_pte, idx0, idx1, idx2}
use karg.Vm.Walk.{
  Role, permissions, granted, held, pte-init_pte, mid, leaf, child, look, walk, IsFrame, IsTree,
  look-init_pte,
}
use karg.Vm.Enter.{on_way1, on_way2}

-- Two addresses lie in the same page if all indices are the same.
idx_of_same :
    (a b : ℕ)
    → (a / page_size == b / page_size) ≡ true
    → (idx0 a ≡ idx0 b) × (idx1 a ≡ idx1 b) × (idx2 a ≡ idx2 b)
idx_of_same a b h = ground arith

pub walk-same_page :
    (page_table a b : ℕ) (m : Mm)
    → (a / page_size == b / page_size) ≡ true
    → walk page_table a m ≡ walk page_table b m
unfolding walk
walk-same_page page_table a b m h = let (e0, e1, e2) = idx_of_same a b h in rw (e0, e1, e2) refl

same_of_idx :
    (a b : ℕ)
    → a < 2 ^ 39
    → b < 2 ^ 39
    → idx0 a ≡ idx0 b
    → idx1 a ≡ idx1 b
    → idx2 a ≡ idx2 b
    → (a / page_size == b / page_size) ≡ true
same_of_idx a b h k p q r = ground arith

module _ (m : Mm) (page_table virt : ℕ) where
  walk_none0 : look m page_table (idx0 virt) ≡ none → walk page_table virt m ≡ none
  unfolding walk
  walk_none0 e = rw e

  walk_none1 :
      (t : ℕ)
      → look m page_table (idx0 virt) ≡ some t
      → look m t (idx1 virt) ≡ none
      → walk page_table virt m ≡ none
  unfolding walk
  walk_none1 t e h = rw e (rw h)

  pub walk_steps :
      (t u : ℕ)
      → look m page_table (idx0 virt) ≡ some t
      → look m t (idx1 virt) ≡ some u
      → walk page_table virt m ≡ look m u (idx2 virt)
  unfolding walk
  walk_steps t u e h = rw e (rw h)

both_equal : (a b i j : ℕ) → ((a == b) && (i == j)) ≡ true → (a ≡ b) × (i ≡ j)
both_equal a b i j h = ground arith

leaf-injective : (i j i' j' : ℕ) → leaf i j ≡ leaf i' j' → (i ≡ i') × (j ≡ j')
leaf-injective i j i' j' h = ground arith

-- `map_leaf` writes one entry of a table of the last level, and so maps one page.
module _ (role : ℕ → Role) (page_table : ℕ) (m : Mm) (v : IsTree role page_table m) (virt : ℕ)
    (lt : virt < 2 ^ 39) (phys flags : ℕ) (fp : IsFrame phys) (t u : ℕ)
    (e : look m page_table (idx0 virt) ≡ some t) (h : look m t (idx1 virt) ≡ some u) where
  abbrev pub mapped : Mm
  mapped = init_pte (entry u (idx2 virt)) phys flags m

  -- The word of the new entry: the frame, with the permissions asked for and those that were there.
  abbrev pub given : ℕ
  given = phys + granted flags (permissions (m.pte (entry u (idx2 virt))))

  mapped_table : (role u ≡ leaf (idx0 virt) (idx1 virt)) × IsFrame u
  mapped_table = on_way2 role page_table m v virt lt t u e h

  look-mapped :
      (b j : ℕ)
      → b % page_size ≡ 0
      → j < 512
      → look mapped b j ≡ (if (b == u) && (j == idx2 virt) then some given else look m b j)
  look-mapped b j fb k =
      look-init_pte m u (idx2 virt) phys flags b j mapped_table.1 fp fb (omega arith) k

  -- The tables above the last level keep their entries.
  look-above :
      (b j i : ℕ) (r : Role)
      → b % page_size ≡ 0
      → j < 512
      → child (role b) i ≡ some r
      → look mapped b j ≡ look m b j
  look-above b j i r fb k c = ground (arith, look-mapped b j fb k, mapped_table, c)

  pub mapped-IsTree : IsTree role page_table mapped
  mapped-IsTree = record {
    top = v.top;
    frame = v.frame;
    unique = v.unique;
    pages = v.pages;
    aligned = v.aligned;
    points = λ b j x r c k w.
        v.points b j x r c k (sym (look-above b j j r (v.aligned b j r c) k c) ∙ w);
    blank = λ b j tb fb k none_there.
        let l = look-mapped b j fb k in
        elim (Bool-cases ((b == u) && (j == idx2 virt))) [
          | inl here ↦ absurd (ground (arith, l, none_there, here))
          | inr there ↦
              ap permissions (
                pte-init_pte m u (idx2 virt) phys flags b j mapped_table.1.0 fb (omega arith) k
                  there)
              ∙ v.blank b j tb fb k (sym (rw there at l) ∙ none_there)
        ];
  }

  kept0 : (i : ℕ) → i < 512 → look mapped page_table i ≡ look m page_table i
  kept0 i k = look-above page_table i 0 (mid 0) v.frame.0 k (ground (arith, v.top))

  kept1 : (x i j : ℕ) → role x ≡ mid i → IsFrame x → j < 512 → look mapped x j ≡ look m x j
  kept1 x i j r fx k = look-above x j 0 (leaf i 0) fx.0 k (ground (arith, r))

  -- An address of another page ends at another entry.
  last_differs :
      (w y : ℕ)
      → w < 2 ^ 39
      → (w / page_size == virt / page_size) ≡ false
      → role y ≡ leaf (idx0 w) (idx1 w)
      → ((y == u) && (idx2 w == idx2 virt)) ≡ false
  last_differs w y wl d ry = elim (Bool-cases ((y == u) && (idx2 w == idx2 virt))) [
    | inr n ↦ n
    | inl q ↦
        let (qu, qi) = both_equal y u (idx2 w) (idx2 virt) q in
        let paths : leaf (idx0 w) (idx1 w) ≡ leaf (idx0 virt) (idx1 virt) =
          sym ry ∙ ap role qu ∙ mapped_table.0 in
        let (q0, q1) = leaf-injective (idx0 w) (idx1 w) (idx0 virt) (idx1 virt) paths in
        cc (same_of_idx w virt wl lt q0 q1 qi)
  ]

  pub walk-same :
      (w : ℕ) → (w / page_size == virt / page_size) ≡ true → walk page_table w mapped ≡ some given
  walk-same w q =
      let (q0, q1, q2) = idx_of_same w virt q in
      walk_steps mapped page_table w t u
        (ap (look mapped page_table) q0 ∙ kept0 (idx0 virt) (omega (arith, lt)) ∙ e)
        (ap (look mapped t) q1
          ∙ kept1 t (idx0 virt) (idx1 virt) (on_way1 role page_table m v virt lt t e).0
              (on_way1 role page_table m v virt lt t e).1 (omega arith)
          ∙ h)
      ∙ ap (look mapped u) q2
      ∙ look-mapped u (idx2 virt) mapped_table.1.0 (omega arith)
      ∙ rw (==_refl u) (rw (==_refl (idx2 virt)) refl)

  -- The permissions that were there are those of the entry's word, if it had one.
  pub held_before : permissions (m.pte (entry u (idx2 virt))) ≡ held (walk page_table virt m)
  held_before =
      let steps = walk_steps m page_table virt t u e h in
      elim (Option-cases (look m u (idx2 virt))) [
        | inl n ↦
            v.blank u (idx2 virt) (ground (arith, mapped_table)) mapped_table.1.0 (omega arith) n
            ∙ sym (ap held (steps ∙ n))
        | inr (x, n) ↦
            let low : permissions (m.pte (entry u (idx2 virt))) ≡ x % page_size =
              ground (arith, n) in
            low ∙ sym (ap held (steps ∙ n))
      ]

  pub walk-other :
      (w : ℕ)
      → w < 2 ^ 39
      → (w / page_size == virt / page_size) ≡ false
      → walk page_table w mapped ≡ walk page_table w m
  walk-other w wl d = elim (Option-cases (look m page_table (idx0 w))) [
    | inl n ↦
        walk_none0 mapped page_table w (kept0 (idx0 w) (omega (arith, wl)) ∙ n)
        ∙ sym (walk_none0 m page_table w n)
    | inr (x, ex) ↦
        let (rx, fx) = on_way1 role page_table m v w wl x ex in
        let ex' = kept0 (idx0 w) (omega (arith, wl)) ∙ ex in
        let k1 = kept1 x (idx0 w) (idx1 w) rx fx (omega arith) in
        elim (Option-cases (look m x (idx1 w))) [
          | inl n ↦
              walk_none1 mapped page_table w x ex' (k1 ∙ n) ∙ sym (walk_none1 m page_table w x ex n)
          | inr (y, ey) ↦
              let (ry, fy) = on_way2 role page_table m v w wl x y ex ey in
              walk_steps mapped page_table w x y ex' (k1 ∙ ey)
              ∙ look-mapped y (idx2 w) fy.0 (omega arith)
              ∙ rw (last_differs w y wl d ry) (sym (walk_steps m page_table w x y ex ey))
        ]
  ]
