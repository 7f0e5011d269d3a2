-- ===== src/Kalloc/Free.antt =====
-- `kfree`: the block is free, and merged with its free neighbours.
use karg.Base.{
  ℕ, ◌+◌, ◌-◌, ◌<◌, ◌≤◌, ◌≡◌, refl, ◌⊎◌, inl, inr, ◌≢◌, true, false, ◌&&◌, not, Option, some, List,
  [], ◌∷◌, ◌==◌, arith, Bool-cases, subst, sym, ◌∙◌, ==_of_ne, ==_iff,
}
use karg.Kalloc.{
  Block, Heap, header_size, merge_next, merge_prev, keep_free, free_behind, free_in, kfree,
}
use karg.Kalloc.Space.{AllAway, AllocatedAway, AllocatedAway_of_AllAway, Disjoint, total}
use karg.PageAlloc.{page_size}
use karg.Kalloc.Malloc.{IsValid, PagesAway}

-- The blocks take up the same memory as before, are apart, and what was apart from the blocks that
-- are given out still is.
pub record Frees (bs bs' : List Block) : Type 0 where
  pub disjoint : Disjoint bs'
  pub same_total : total bs' ≡ total bs
  pub inside : (a s : ℕ) → 0 < s → AllAway a s bs → AllAway a s bs'
  pub allocated : (a s : ℕ) → AllocatedAway a s bs → AllocatedAway a s bs'

-- Two adjoining spaces that blocks lie apart from are one such space.
AllAway-join :
    (a s s' : ℕ) (bs : List Block)
    → Disjoint bs
    → AllAway a s bs
    → AllAway (a + s) s' bs
    → AllAway a (s + s') bs
AllAway-join a s s' [] d w v = tt
AllAway-join a s s' (b ∷ bs) d w v =
    (omega (arith, d.0, w.0, v.0), AllAway-join a s s' bs d.2 w.1 v.1)

merge_next-Frees :
    (curr : Block) (ns : List Block)
    → curr.allocated ≡ false
    → Disjoint (curr ∷ ns)
    → Frees (curr ∷ ns) (merge_next curr ns)
merge_next-Frees curr [] f d = record {
  disjoint = d;
  same_total = refl;
  inside = λ a s p w. w;
  allocated = λ a s w. w;
}
merge_next-Frees curr (n ∷ ns) f d =
    elim (Bool-cases (not n.allocated && (curr.addr + curr.size == n.addr))) [
      | inl c ↦
          let e : curr.addr + curr.size ≡ n.addr = ground (arith, c) in
          rw c (record {
            disjoint = (
              omega (arith, d.0),
              AllAway-join curr.addr curr.size n.size ns d.2.2 d.1.1
                  (subst (λ a. AllAway a n.size ns) (sym e) d.2.1),
              d.2.2,
            );
            same_total = omega arith;
            inside = λ a s p w. (omega (arith, w.0, w.1.0, e), w.1.1);
            allocated = λ a s w. ((λ g. absurd (ground (arith, g, f))), w.1.1);
          })
      | inr c ↦ rw c (record {
        disjoint = d;
        same_total = refl;
        inside = λ a s p w. w;
        allocated = λ a s w. w;
      })
    ]

Frees-trans : (bs cs ds : List Block) → Frees bs cs → Frees cs ds → Frees bs ds
Frees-trans bs cs ds f g = record {
  disjoint = g.disjoint;
  same_total = g.same_total ∙ f.same_total;
  inside = λ a s p w. g.inside a s p (f.inside a s p w);
  allocated = λ a s w. g.allocated a s (f.allocated a s w);
}

Frees-keep :
    (b : Block) (bs bs' : List Block)
    → 0 < b.size
    → AllAway b.addr b.size bs
    → Frees bs bs'
    → Frees (b ∷ bs) (b ∷ bs')
Frees-keep b bs bs' p w f = record {
  disjoint = (p, f.inside b.addr b.size p w, f.disjoint);
  same_total = omega (arith, f.same_total);
  inside = λ a s q v. (v.0, f.inside a s q v.1);
  allocated = λ a s v. (v.0, f.allocated a s v.1);
}

-- The list with its first block marked as free.
abbrev marked : Block → List Block → List Block
marked b bs = record b { allocated = false } ∷ bs

Frees-marked : (b : Block) (bs : List Block) → Disjoint (b ∷ bs) → Frees (b ∷ bs) (marked b bs)
Frees-marked b bs d = record {
  disjoint = d;
  same_total = refl;
  inside = λ a s p w. w;
  allocated = λ a s w. ((λ g. absurd (ground (arith, g))), w.1);
}

-- Both merges of `kfree`, for the block `c` that has just been marked as free.
merge_prev-Frees :
    (prev c : Block) (ns : List Block)
    → Disjoint (prev ∷ marked c ns)
    → Frees (prev ∷ marked c ns) (merge_prev prev (record c { allocated = false }) ns)
merge_prev-Frees prev c ns d =
    elim (Bool-cases (not prev.allocated && (prev.addr + prev.size == c.addr))) [
      | inl h ↦
          let both : Block = record prev { size = prev.size + c.size } in
          let free : prev.allocated ≡ false = ground (arith, h) in
          let near : (prev.addr + prev.size == c.addr) ≡ true = ground (arith, h) in
          let first : Frees (prev ∷ marked c ns) (both ∷ ns) =
            (rw near at (merge_next-Frees prev (marked c ns) free d)) in
          rw h (
            Frees-trans (prev ∷ marked c ns) (both ∷ ns) (merge_next both ns) first
              (merge_next-Frees both ns free first.disjoint))
      | inr h ↦ rw h (
          Frees-keep prev (marked c ns) (merge_next (record c { allocated = false }) ns) d.0 d.1
            (merge_next-Frees (record c { allocated = false }) ns refl d.2))
    ]

-- A block of the list at `a`, of `s` bytes.
abbrev pub HasBlock : ℕ → ℕ → List Block → Type 0
HasBlock a s [] = ⊥
HasBlock a s (b ∷ bs) = ((b.addr ≡ a) × (b.size ≡ s)) ⊎ HasBlock a s bs

HasBlock-ne :
    (a s : ℕ) (b : Block) (bs : List Block)
    → 0 < b.size
    → Disjoint bs
    → AllAway b.addr b.size bs
    → HasBlock a s bs
    → b.addr ≢ a
HasBlock-ne a s b [] p d w h = elim h [ ]
HasBlock-ne a s b (c ∷ bs) p d w (inl h) = omega (arith, w.0, d.0, h.0)
HasBlock-ne a s b (c ∷ bs) p d w (inr h) = HasBlock-ne a s b bs p d.2 w.1 h

-- Freeing the block of `s` bytes at `a` gives the list `bs'`, in which no block that is given out
-- has a byte of it.
abbrev pub Freed : ℕ → ℕ → List Block → Option (List Block) → Type 0
Freed a s bs o = (bs' : List Block) × (o ≡ some bs') × Frees bs bs' × AllocatedAway a s bs'

HasBlock-Away :
    (a s x y : ℕ) (bs : List Block) → AllAway x y bs → HasBlock a s bs → (x + y ≤ a) ⊎ (a + s ≤ x)
HasBlock-Away a s x y [] w h = elim h [ ]
HasBlock-Away a s x y (c ∷ bs) w (inl h) = omega (arith, w.0, h.0, h.1)
HasBlock-Away a s x y (c ∷ bs) w (inr h) = HasBlock-Away a s x y bs w.1 h

Freed-keep :
    (a s : ℕ) (b : Block) (bs : List Block) (o : Option (List Block))
    → Disjoint (b ∷ bs)
    → HasBlock a s bs
    → Freed a s bs o
    → Freed a s (b ∷ bs) (keep_free b o)
Freed-keep a s b bs o d h (bs', e, f, al) = (
  b ∷ bs',
  rw e refl,
  Frees-keep b bs bs' d.0 d.1 f,
  ((λ _. omega (arith, HasBlock-Away a s b.addr b.size bs d.1 h)), al),
)

-- Nothing that is given out has a byte of a block that has just been marked.
marked-AllocatedAway :
    (c : Block) (cs : List Block) → Disjoint (c ∷ cs) → AllocatedAway c.addr c.size (marked c cs)
marked-AllocatedAway c cs d =
    ((λ g. absurd (ground (arith, g))), AllocatedAway_of_AllAway c.addr c.size cs d.1)

free_behind-Freed :
    (a s : ℕ) (prev : Block) (cs : List Block)
    → Disjoint (prev ∷ cs)
    → HasBlock a s cs
    → Freed a s (prev ∷ cs) (free_behind a prev cs)
unfolding free_behind
free_behind-Freed a s prev [] d h = elim h [ ]
free_behind-Freed a s prev (c ∷ cs) d (inl h) =
    let f = merge_prev-Frees prev c cs d in
    let away : AllocatedAway a s (prev ∷ marked c cs) = (
      (λ _. omega (arith, d.1.0, h.0, h.1)),
      subst (λ x. AllocatedAway x s (marked c cs)) h.0
          (subst (λ y. AllocatedAway c.addr y (marked c cs)) h.1 (marked-AllocatedAway c cs d.2)),
    ) in
    rw ((==_iff c.addr a).1 h.0) (
      merge_prev prev (record c { allocated = false }) cs,
      refl,
      Frees-trans (prev ∷ c ∷ cs) (prev ∷ marked c cs) _
          (Frees-keep prev (c ∷ cs) (marked c cs) d.0 d.1 (Frees-marked c cs d.2)) f,
      f.allocated a s away,
    )
free_behind-Freed a s prev (c ∷ cs) d (inr h) =
    rw (==_of_ne c.addr a (HasBlock-ne a s c cs d.2.0 d.2.2 d.2.1 h)) (
      Freed-keep a s prev (c ∷ cs) (free_behind a c cs) d (inr h)
        (free_behind-Freed a s c cs d.2 h))

free_in-Freed :
    (a s : ℕ) (bs : List Block) → Disjoint bs → HasBlock a s bs → Freed a s bs (free_in a bs)
unfolding free_in
free_in-Freed a s [] d h = elim h [ ]
free_in-Freed a s (b ∷ bs) d (inl h) =
    let f = merge_next-Frees (record b { allocated = false }) bs refl d in
    rw ((==_iff b.addr a).1 h.0) (
      merge_next (record b { allocated = false }) bs,
      refl,
      Frees-trans (b ∷ bs) (marked b bs) _ (Frees-marked b bs d) f,
      f.allocated a s (
          subst (λ x. AllocatedAway x s (marked b bs)) h.0
            (subst (λ y. AllocatedAway b.addr y (marked b bs)) h.1 (marked-AllocatedAway b bs d))),
    )
free_in-Freed a s (b ∷ bs) d (inr h) =
    rw (==_of_ne b.addr a (HasBlock-ne a s b bs d.0 d.2 d.1 h)) (free_behind-Freed a s b bs d h)

pages_kept : (bs bs' : List Block) (ps : List ℕ) → Frees bs bs' → PagesAway bs ps → PagesAway bs' ps
pages_kept bs bs' [] f w = tt
pages_kept bs bs' (p ∷ ps) f w =
    (w.0, f.inside p page_size (omega arith) w.1, w.2, pages_kept bs bs' ps f w.3)

-- `kfree` of the pointer behind the header of a block of the heap succeeds, keeps the blocks and the
-- free pages apart, and keeps the number of bytes that the blocks take up. Afterwards no block that
-- is given out has a byte of the freed one, and none has gained a byte.
pub kfree-IsValid :
    (a s : ℕ) (h : Heap)
    → IsValid h
    → HasBlock a s h.blocks
    → (h' : Heap) × (kfree (a + header_size) h ≡ some h')
      × IsValid h'
      × (total h'.blocks ≡ total h.blocks)
      × AllocatedAway a s h'.blocks
      × ((x y : ℕ) → AllocatedAway x y h.blocks → AllocatedAway x y h'.blocks)
unfolding kfree
kfree-IsValid a s h v b =
    let (bs', e, f, away) = free_in-Freed a s h.blocks v.disjoint b in
    let back : a + header_size - header_size ≡ a = omega arith in
    (
      record h { blocks = bs' },
      rw (==_of_ne (a + header_size) 0 (omega arith), back, e) refl,
      record { disjoint = f.disjoint; pages = pages_kept h.blocks bs' h.free f v.pages },
      f.same_total,
      away,
      f.allocated,
    )
