-- ===== src/Links/Remove.antt =====
-- `list_remove` and its variants: what they do to the sequence of the list, and to the node.
use karg.Base.{
  ℕ, ◌≡◌, ◌≢◌, true, false, List, [], ◌∷◌, ◌++◌, arith, append-nil, ◌==◌, if◌then◌else◌, has,
  Distinct, has-append,
}
use karg.Links.{
  Memory, list_remove, list_front, list_back, list_remove_init, list_pop_front, list_pop_back,
  list_empty,
}
use karg.Links.Ring.{IsRing, last, has-last, prev-last, split, join, frame, retarget}
use karg.Links.Insert.{Distinct-append, ne_of_has}

-- What unlinking `n` between its neighbours `l` and `y` writes.
module _ (m : Memory) (l n y : ℕ) (ep : m.prev n ≡ l) (en : m.next n ≡ y) (n≢l : n ≢ l)
    (n≢y : n ≢ y) where
  next-list_remove : (p : ℕ) → (list_remove m n).next p ≡ (if p == l then y else m.next p)
  unfolding list_remove
  next-list_remove p = ground arith

  prev-list_remove : (p : ℕ) → (list_remove m n).prev p ≡ (if p == y then l else m.prev p)
  unfolding list_remove
  prev-list_remove p = ground arith

Distinct-delete :
    (n : ℕ) (xs ys : List ℕ)
    → Distinct (xs ++ n ∷ ys)
    → Distinct (xs ++ ys) × (has n (xs ++ ys) ≡ false)
Distinct-delete n [] ys d = (d.1, d.0)
Distinct-delete n (x ∷ xs) ys d =
    ground (arith, has-append x xs (n ∷ ys), has-append x xs ys, Distinct-delete n xs ys d.1)

-- `list_remove` takes the node out of its list, and leaves the other nodes in their order.
pub list_remove-IsRing :
    (m : Memory) (head : ℕ) (xs : List ℕ) (n : ℕ) (ys : List ℕ)
    → IsRing m head (xs ++ n ∷ ys)
    → IsRing (list_remove m n) head (xs ++ ys)
list_remove-IsRing m head xs n [] r =
    let s = split m head xs n [] head r.linked in
    let d = Distinct-append n (head ∷ xs) (n ∷ []) r.distinct in
    let e = prev-last m head xs n s.0 in
    let out =
      (Distinct-append (last head xs) (head ∷ xs) (n ∷ []) r.distinct).2 (has-last head xs) in
    let n≢l : n ≢ last head xs = ground arith in
    let n≢h : n ≢ head = ground (arith, has-append head xs (n ∷ [])) in
    rw append-nil (record {
      linked =
          retarget m (list_remove m n) head xs n head s.0 d.0
            (λ p i j. ground (arith, next-list_remove m (last head xs) n head e s.1.0 n≢l n≢h p))
            (λ p i. ground (
              arith,
              prev-list_remove m (last head xs) n head e s.1.0 n≢l n≢h p,
              ne_of_has p head xs i d.0.0,
            ))
            (ground
              (arith, next-list_remove m (last head xs) n head e s.1.0 n≢l n≢h (last head xs)))
            (ground (arith, prev-list_remove m (last head xs) n head e s.1.0 n≢l n≢h head));
      distinct = d.0;
    })
list_remove-IsRing m head xs n (y ∷ ys) r =
    let s = split m head xs n (y ∷ ys) head r.linked in
    let d = Distinct-append n (head ∷ xs) (n ∷ y ∷ ys) r.distinct in
    let e = prev-last m head xs n s.0 in
    let out =
      (Distinct-append (last head xs) (head ∷ xs) (n ∷ y ∷ ys) r.distinct).2 (has-last head xs) in
    let n≢l : n ≢ last head xs = ground arith in
    let n≢y : n ≢ y = ground (arith, d.1) in
    record {
      linked =
          join (list_remove m n) head xs y ys head
            (retarget m (list_remove m n) head xs n y s.0 d.0
              (λ p i j. ground (arith, next-list_remove m (last head xs) n y e s.1.0 n≢l n≢y p))
              (λ p i. ground (
                arith,
                prev-list_remove m (last head xs) n y e s.1.0 n≢l n≢y p,
                (Distinct-append p (head ∷ xs) (n ∷ y ∷ ys) r.distinct).2,
              ))
              (ground (arith, next-list_remove m (last head xs) n y e s.1.0 n≢l n≢y (last head xs)))
              (ground (arith, prev-list_remove m (last head xs) n y e s.1.0 n≢l n≢y y)))
            (frame m (list_remove m n) y ys head s.1.2
              (λ p i. ground (
                arith,
                next-list_remove m (last head xs) n y e s.1.0 n≢l n≢y p,
                ne_of_has p (last head xs) (y ∷ ys) i,
              ))
              (λ p i. ground (
                arith,
                prev-list_remove m (last head xs) n y e s.1.0 n≢l n≢y p,
                ne_of_has p y ys,
                d.1,
                has-append p ys (head ∷ []),
                has-append head xs (n ∷ y ∷ ys),
              )));
      distinct = ground (
        arith,
        Distinct-delete n xs (y ∷ ys) r.distinct.1,
        has-append head xs (n ∷ y ∷ ys),
        has-append head xs (y ∷ ys),
      );
    }

-- `list_remove_init` takes a node out of the list, whose other nodes stay in their order, and leaves the node as an
-- empty list of its own, so that `list_empty` tells that it is on no list.
pub list_remove_init-IsRing :
    (m : Memory) (head : ℕ) (xs : List ℕ) (n : ℕ) (ys : List ℕ)
    → IsRing m head (xs ++ n ∷ ys)
    → IsRing (list_remove_init m n) head (xs ++ ys)
      × IsRing (list_remove_init m n) n []
      × (list_empty (list_remove_init m n) n ≡ true)
unfolding list_remove_init list_empty list_front
list_remove_init-IsRing m head xs n ys r =
    let k = list_remove-IsRing m head xs n ys r in
    let fresh = (Distinct-delete n xs ys r.distinct.1).1 in
    (
      record {
        linked =
            frame (list_remove m n) (list_remove_init m n) head (xs ++ ys) head k.linked
              (λ p i.
                ground (arith, ne_of_has p n (head ∷ xs ++ ys) i, has-append head xs (n ∷ ys)))
              (λ p i. ground (
                arith,
                ne_of_has p n (xs ++ ys),
                has-append p (xs ++ ys) (head ∷ []),
                has-append head xs (n ∷ ys),
              ));
        distinct = k.distinct;
      },
      ground arith,
      ground arith,
    )

-- `list_pop_front` drops the first node of a list that has one.
pub list_pop_front-IsRing :
    (m : Memory) (head n : ℕ) (ys : List ℕ)
    → IsRing m head (n ∷ ys)
    → IsRing (list_pop_front m head) head ys
unfolding list_pop_front list_front
list_pop_front-IsRing m head n ys r = rw r.linked.0 (list_remove-IsRing m head [] n ys r)

-- `list_pop_back` drops the last node of a list that has one.
pub list_pop_back-IsRing :
    (m : Memory) (head : ℕ) (xs : List ℕ) (n : ℕ)
    → IsRing m head (xs ++ n ∷ [])
    → IsRing (list_pop_back m head) head xs
unfolding list_pop_back list_back
list_pop_back-IsRing m head xs n r =
    rw (split m head xs n [] head r.linked).1.1
      (rw append-nil at (list_remove-IsRing m head xs n [] r))
