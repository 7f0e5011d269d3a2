-- ===== src/Kalloc/Malloc.antt =====
-- `kmalloc`: a block that is large enough, taken from memory that nobody has.
use karg.Base.{
  ℕ, ◌+◌, ◌-◌, ◌%◌, ◌^◌, ◌<◌, ◌≤◌, ◌≡◌, refl, ◌↔◌, ◌⊎◌, inl, inr, false, ◌&&◌, not, Option, none,
  some, List, [], ◌∷◌, ◌++◌, ltb, leb, arith, Bool-cases, Option-cases, subst, map, ◌≢◌, ==_of_ne,
  ltb_of_le, lt→ltb,
}
use karg.PageAlloc.{page_size, page_alloc}
use karg.Kalloc.{Block, Heap, header_size, split, keep, take_fit, take_page, fit_or_page, kmalloc}
use karg.Kalloc.Space.{
  AllAway, AllocatedAway, Disjoint, total, Gives, Gives-Away, Gives-append, AllAway-sub,
  AllocatedAway_of_AllAway, AllAway-append,
}

-- What an allocation of `size` bytes, header included, has done to the blocks: the block at `a` is
-- given out and no allocated block had a byte of it, blocks are disjoint, take up the memory that
-- they took up, and nothing outside it.
pub record Takes (size a : ℕ) (bs bs' : List Block) : Type 0 where
  pub gives : Gives a size bs'
  pub fresh : AllocatedAway a size bs
  pub disjoint : Disjoint bs'
  pub same_total : total bs' ≡ total bs
  pub inside : (b s : ℕ) → AllAway b s bs → AllAway b s bs'

split-Takes :
    (size : ℕ) (b : Block) (bs : List Block)
    → (b.allocated ≡ false)
    → 0 < size
    → size ≤ b.size
    → Disjoint (b ∷ bs)
    → Takes size b.addr (b ∷ bs) (split size b bs)
split-Takes size b bs f pos le d = elim (Bool-cases (ltb header_size (b.size - size))) [
  | inl c ↦ rw c (record {
    gives = inl (refl, refl, omega arith);
    fresh = (
      (λ e. absurd (ground (arith, e, f))),
      AllocatedAway_of_AllAway b.addr size bs
          (AllAway-sub b.addr b.size b.addr size bs (omega arith) (omega arith) d.1),
    );
    disjoint = (
      pos,
      (inl (omega arith), AllAway-sub b.addr b.size b.addr size bs (omega arith) (omega arith) d.1),
      (
        ground (arith, c),
        AllAway-sub b.addr b.size (b.addr + size) (b.size - size) bs (omega arith) (omega arith)
            d.1,
        d.2,
      ),
    );
    same_total = omega arith;
    inside = λ a s w. (omega (arith, w.0), (omega (arith, w.0), w.1));
  })
  | inr c ↦ rw c (record {
    gives = inl (refl, refl, le);
    fresh = (
      (λ e. absurd (ground (arith, e, f))),
      AllocatedAway_of_AllAway b.addr size bs
          (AllAway-sub b.addr b.size b.addr size bs (omega arith) (omega arith) d.1),
    );
    disjoint = d;
    same_total = refl;
    inside = λ a s w. w;
  })
]

keep-Takes :
    (size a : ℕ) (b : Block) (bs bs' : List Block)
    → 0 < b.size
    → AllAway b.addr b.size bs
    → Takes size a bs bs'
    → Takes size a (b ∷ bs) (b ∷ bs')
keep-Takes size a b bs bs' pos w t = record {
  gives = inr t.gives;
  fresh = ((λ _. Gives-Away a size b bs' t.gives (t.inside b.addr b.size w)), t.fresh);
  disjoint = (pos, t.inside b.addr b.size w, t.disjoint);
  same_total = omega (arith, t.same_total);
  inside = λ c s v. (v.0, t.inside c s v.1);
}

take_fit-Takes :
    (size p : ℕ) (bs bs' : List Block)
    → 0 < size
    → Disjoint bs
    → take_fit size bs ≡ some (p, bs')
    → (header_size ≤ p) × Takes size (p - header_size) bs bs'
unfolding take_fit
take_fit-Takes size p [] bs' pos d e = cc
take_fit-Takes size p (b ∷ bs) bs' pos d e =
    elim (Bool-cases (not b.allocated && leb size b.size)) [
      | inl c ↦
          let ep : b.addr + header_size ≡ p = ground (arith, e, c) in
          let eb : split size b bs ≡ bs' = ground (arith, e, c) in
          let t = split-Takes size b bs (ground (arith, c)) pos (ground (arith, c)) d in
          (
            omega arith,
            subst (λ a. Takes size a (b ∷ bs) bs') (omega arith)
                (subst (Takes size b.addr (b ∷ bs)) eb t),
          )
      | inr c ↦
          behind (take_fit size bs) (λ q cs e'. take_fit-Takes size q bs cs pos d.2 e') (rw c at e)
    ]
  where
    behind :
        (o : Option (ℕ × List Block))
        → ((q : ℕ) (cs : List Block)
            → o ≡ some (q, cs)
            → (header_size ≤ q) × Takes size (q - header_size) bs cs)
        → keep b o ≡ some (p, bs')
        → (header_size ≤ p) × Takes size (p - header_size) (b ∷ bs) bs'
    behind none ih h = cc
    behind (some (q, cs)) ih h =
        let ep : q ≡ p = ground arith in
        let eb : b ∷ cs ≡ bs' = ground arith in
        let t = ih q cs refl in
        (
          omega (arith, t.0),
          subst (λ r. Takes size (r - header_size) (b ∷ bs) bs') ep
              (subst (Takes size (q - header_size) (b ∷ bs)) eb
                (keep-Takes size (q - header_size) b bs cs d.0 d.1 t.1)),
        )

-- A page as a block.
abbrev pub page_block : ℕ → Block
page_block p = record { addr = p; allocated = false; size = page_size }

-- The free pages lie apart from all blocks and from one another, and none is the null pointer.
abbrev pub PagesAway : List Block → List ℕ → Type 0
PagesAway bs [] = Unit
PagesAway bs (p ∷ ps) =
    (p ≢ 0)
    × AllAway p page_size bs
    × AllAway p page_size (map (λ (q : ℕ). page_block q) ps)
    × PagesAway bs ps

pub record IsValid (h : Heap) : Type 0 where
  pub disjoint : Disjoint h.blocks
  pub pages : PagesAway h.blocks h.free

PagesAway-inside :
    (bs bs' : List Block) (ps : List ℕ)
    → ((b s : ℕ) → AllAway b s bs → AllAway b s bs')
    → PagesAway bs ps
    → PagesAway bs' ps
PagesAway-inside bs bs' [] f w = tt
PagesAway-inside bs bs' (p ∷ ps) f w =
    (w.0, f p page_size w.1, w.2, PagesAway-inside bs bs' ps f w.3)

-- The free pages when the first of them has become a block.
PagesAway-cons :
    (bs cs : List Block) (p : ℕ) (ps : List ℕ)
    → AllAway p page_size (map (λ (q : ℕ). page_block q) ps)
    → ((b s : ℕ) → AllAway b s (page_block p ∷ []) → AllAway b s cs)
    → PagesAway bs ps
    → PagesAway (bs ++ cs) ps
PagesAway-cons bs cs p [] a f w = tt
PagesAway-cons bs cs p (q ∷ ps) a f w = (
  w.0,
  AllAway-append q page_size bs cs w.1 (f q page_size (omega (arith, a.0), tt)),
  w.2,
  PagesAway-cons bs cs p ps a.1 f w.3,
)

Disjoint-append :
    (p : ℕ) (bs cs : List Block)
    → AllAway p page_size bs
    → ((b s : ℕ) → AllAway b s (page_block p ∷ []) → AllAway b s cs)
    → Disjoint bs
    → Disjoint cs
    → Disjoint (bs ++ cs)
Disjoint-append p [] cs a f d e = e
Disjoint-append p (b ∷ bs) cs a f d e = (
  d.0,
  AllAway-append b.addr b.size bs cs d.1 (f b.addr b.size (omega (arith, a.0), tt)),
  Disjoint-append p bs cs a.1 f d.2 e,
)

-- An allocation of `whole` bytes, header included, that gave `p`: the block behind which `p` stands
-- is given out, is large enough, and no block that was given out before had a byte of it.
pub record Allocated (whole p : ℕ) (bs bs' : List Block) : Type 0 where
  pub behind_header : header_size ≤ p
  pub gives : Gives (p - header_size) whole bs'
  pub fresh : AllocatedAway (p - header_size) whole bs

abbrev pub Outcome : ℕ → Heap → ℕ × Heap → Type 0
Outcome whole h (p, h') = IsValid h' × (((p ≡ 0) × (h' ≡ h)) ⊎ Allocated whole p h.blocks h'.blocks)

page_Outcome :
    (whole : ℕ) (bs : List Block) (ps : List ℕ)
    → 0 < whole
    → whole ≤ page_size
    → IsValid (record { blocks = bs; free = ps })
    → Outcome whole
        (record { blocks = bs; free = ps })
        (take_page whole (record { blocks = bs; free = ps }))
unfolding take_page page_alloc
page_Outcome whole bs [] pos le v = (v, inl (refl, refl))
page_Outcome whole bs (p ∷ ps) pos le v =
    let b = page_block p in
    let t = split-Takes whole b [] refl pos le (omega arith, tt, tt) in
    rw (==_of_ne p 0 v.pages.0) (
      record {
        disjoint = Disjoint-append p bs (split whole b []) v.pages.1 t.inside v.disjoint t.disjoint;
        pages = PagesAway-cons bs (split whole b []) p ps v.pages.2 t.inside v.pages.3;
      },
      inr (record {
        behind_header = omega arith;
        gives =
            subst (λ a. Gives a whole (bs ++ split whole b [])) (omega arith)
              (Gives-append p whole bs (split whole b []) t.gives);
        fresh =
            subst (λ a. AllocatedAway a whole bs) (omega arith)
              (AllocatedAway_of_AllAway p whole bs
                (AllAway-sub p page_size p whole bs (omega arith) (omega arith) v.pages.1));
      }),
    )

fit_Outcome :
    (whole : ℕ) (h : Heap)
    → 0 < whole
    → whole ≤ page_size
    → IsValid h
    → Outcome whole h (fit_or_page whole h (take_fit whole h.blocks))
unfolding fit_or_page
fit_Outcome whole h pos le v = elim (Option-cases (take_fit whole h.blocks)) [
  | inl e ↦ rw e (page_Outcome whole h.blocks h.free pos le v)
  | inr ((p, bs), e) ↦
      let t = take_fit-Takes whole p h.blocks bs pos v.disjoint e in
      rw e (
        record {
          disjoint = t.1.disjoint;
          pages = PagesAway-inside h.blocks bs h.free t.1.inside v.pages;
        },
        inr (record { behind_header = t.0; gives = t.1.gives; fresh = t.1.fresh }),
      )
]

-- `kmalloc` of a size that fits a page with its header keeps the blocks and the free pages apart. It
-- returns the null pointer and changes nothing, or it gives out a block of at least that size, no
-- byte of which, header included, belonged to a block that was given out.
pub kmalloc-Outcome :
    (size : ℕ) (h : Heap)
    → size + header_size ≤ page_size
    → IsValid h
    → Outcome (size + header_size) h (kmalloc size h)
unfolding kmalloc
kmalloc-Outcome size h le v =
    let e : (size + header_size) % 2 ^ 64 ≡ size + header_size = omega arith in
    rw (e, ltb_of_le page_size (size + header_size) le)
      (fit_Outcome (size + header_size) h (omega arith) le v)

-- A larger size is refused and changes nothing, up to the sizes for which adding the header wraps.
pub kmalloc-refuses :
    (size : ℕ) (h : Heap)
    → page_size < size + header_size
    → size + header_size < 2 ^ 64
    → kmalloc size h ≡ (0, h)
unfolding kmalloc
kmalloc-refuses size h lt small =
    let e : (size + header_size) % 2 ^ 64 ≡ size + header_size = omega arith in
    rw (e, lt→ltb page_size (size + header_size) lt)

-- With an empty block list and a free page, `kmalloc` refuses exactly the sizes that make more than a
-- page with their header, up to those for which adding the header wraps: for the last 32 sizes
-- it gives out memory in the free page, although 2^64 - 32 bytes or more were asked for.
pub kmalloc_wraps :
    (size p : ℕ) (ps : List ℕ)
    → size < 2 ^ 64
    → p ≢ 0
    → p + header_size < 2 ^ 64
    → let ptr = (kmalloc size (record { blocks = []; free = p ∷ ps })).0 in
      ((ptr ≡ 0) ↔ ((page_size < size + header_size) × (size < 2 ^ 64 - header_size)))
      × ((ptr ≡ 0) ⊎ (ptr ≡ p + header_size))
unfolding kmalloc take_fit page_alloc
kmalloc_wraps size p ps lt n room =
    let whole = (size + header_size) % 2 ^ 64 in
    elim (Bool-cases (ltb page_size whole)) [
      | inl q ↦ rw q (ground (arith, q, lt), inl refl)
      | inr q ↦ rw q (rw (==_of_ne p 0 n) (ground (arith, q, lt), inr refl))
    ]
