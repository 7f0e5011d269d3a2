-- ===== src/PageAlloc/Pages.antt =====
-- Every page of the heap is free at first, and no page is handed out twice.
use karg.Base.{
  ℕ, zero, suc, ◌+◌, ◌*◌, ◌<◌, ◌≡◌, refl, sym, subst, ◌≢◌, ◌⊎◌, inl, inr, false, List, [], ◌∷◌,
  ◌++◌, append-nil, append_assoc, arith, has, Distinct, has-append,
}
use karg.PageAlloc.{page_size, kheap_size, init_loop, rounds, init, page_alloc, page_free}

-- `n` pages from address `a` on.
pub pages_from : ℕ → ℕ → List ℕ
pages_from a zero = []
pages_from a (suc n) = a ∷ pages_from (a + page_size) n

init_loop-pages :
    (fuel n a limit : ℕ) (free : List ℕ)
    → n < fuel
    → a + page_size * n ≡ limit
    → init_loop fuel a limit free ≡ free ++ pages_from a n
unfolding init_loop pages_from
init_loop-pages zero n a limit free h e = elim h [ ]
init_loop-pages (suc fuel) zero a limit free h e = ground (arith, append-nil free)
init_loop-pages (suc fuel) (suc n) a limit free h e = ground (
  arith,
  init_loop-pages fuel n (a + page_size) limit (free ++ a ∷ []) (omega arith) (omega arith),
  append_assoc free (a ∷ []) (pages_from (a + page_size) n),
)

-- `init` puts all 2048 pages of the heap on the free list, in ascending order.
pub init-pages : (heap_start : ℕ) → init heap_start ≡ pages_from heap_start 2048
unfolding init
init-pages heap_start =
    init_loop-pages rounds 2048 heap_start (heap_start + kheap_size) [] (omega arith) (omega arith)

has-pages_from-below : (b a n : ℕ) → b < a → has b (pages_from a n) ≡ false
unfolding pages_from
has-pages_from-below b a zero h = refl
has-pages_from-below b a (suc n) h =
    ground (arith, has-pages_from-below b (a + page_size) n (omega arith))

pub Distinct-pages_from : (a n : ℕ) → Distinct (pages_from a n)
unfolding pages_from
Distinct-pages_from a zero = tt
Distinct-pages_from a (suc n) =
    (has-pages_from-below a (a + page_size) n (omega arith), Distinct-pages_from (a + page_size) n)

-- Who owns which page: the allocator those of `free`, its clients those of `held`. No page is owned
-- twice, and the null page is no one's.
pub record IsValid (free held : List ℕ) : Type 0 where
  pub distinct : Distinct (free ++ held)
  pub not_null : has 0 (free ++ held) ≡ false

IsValid-fresh : (xs : List ℕ) → Distinct xs → has 0 xs ≡ false → IsValid xs []
IsValid-fresh xs d n = record { distinct = rw append-nil d; not_null = rw append-nil n }

-- After `init` the allocator owns every page, if the heap does not begin at the null pointer.
pub init-IsValid : (heap_start : ℕ) → 0 < heap_start → IsValid (init heap_start) []
init-IsValid heap_start h =
    subst (λ xs. IsValid xs []) (sym (init-pages heap_start))
      (IsValid-fresh (pages_from heap_start 2048) (Distinct-pages_from heap_start 2048)
        (has-pages_from-below 0 heap_start 2048 h))

Distinct-move : (p : ℕ) (xs ys : List ℕ) → Distinct (p ∷ xs ++ ys) → Distinct (xs ++ p ∷ ys)
Distinct-move p [] ys d = d
Distinct-move p (x ∷ xs) ys d =
    ground (arith, Distinct-move p xs ys, has-append x xs ys, has-append x xs (p ∷ ys))

-- `page_alloc` with a free page hands out one that no client holds and that is not null, and takes
-- it off the free list; with none it returns the null pointer and changes nothing.
pub page_alloc-IsValid :
    (free held : List ℕ)
    → IsValid free held
    → let (p, free') = page_alloc free in
      ((p ≡ 0) × (free ≡ []) × (free' ≡ []))
      ⊎ ((p ≢ 0) × (has p held ≡ false) × (free ≡ p ∷ free') × IsValid free' (p ∷ held))
unfolding page_alloc
page_alloc-IsValid [] held v = inl (refl, refl, refl)
page_alloc-IsValid (p ∷ free) held v = inr (
  ground (arith, v.not_null),
  ground (arith, v.distinct, has-append p free held),
  refl,
  record {
    distinct = Distinct-move p free held v.distinct;
    not_null = ground (arith, v.not_null, has-append 0 free held, has-append 0 free (p ∷ held));
  },
)

-- `page_free` of a page that a client holds takes it back, at the end of the free list, and keeps
-- every page owned once; of the null pointer it changes nothing.
pub page_free-IsValid :
    (p : ℕ) (free held : List ℕ)
    → IsValid free (p ∷ held)
    → IsValid (page_free p free) held
      × (page_free p free ≡ free ++ p ∷ [])
      × (page_free 0 free ≡ free)
unfolding page_free
page_free-IsValid p free held v =
    let n : p ≢ 0 = ground (arith, v.not_null, has-append 0 free (p ∷ held)) in
    (
      ground (arith, n, append_assoc free (p ∷ []) held, v.distinct, v.not_null),
      ground (arith, n),
      refl,
    )
