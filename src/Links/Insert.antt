-- ===== src/Links/Insert.antt =====
-- `list_insert` and the two pushes: what they do to the sequence of the list.
use karg.Base.{
  ℕ, ◌≡◌, ◌≢◌, true, false, List, [], ◌∷◌, ◌++◌, arith, append-nil, ◌==◌, if◌then◌else◌, has,
  Distinct, has-append, Bool-cases,
}
use karg.Links.{Memory, list_insert, list_front, list_push_front, list_push_back}
use karg.Links.Ring.{
  Linked, IsRing, last, first, has-last, prev-last, next-first, split, join, frame, retarget,
}

pub Distinct-append :
    (a : ℕ) (xs ys : List ℕ)
    → Distinct (xs ++ ys)
    → Distinct xs × Distinct ys × (has a xs ≡ true → has a ys ≡ false)
Distinct-append a [] ys d = (tt, d, λ i. ground arith)
Distinct-append a (x ∷ xs) ys d =
    ground (arith, has-append x xs ys, has-append a xs ys, Distinct-append a xs ys d.1)

pub Distinct-insert :
    (n : ℕ) (xs ys : List ℕ)
    → Distinct (xs ++ ys)
    → has n (xs ++ ys) ≡ false
    → Distinct (xs ++ n ∷ ys)
Distinct-insert n [] ys d f = (f, d)
Distinct-insert n (x ∷ xs) ys d f =
    ground (arith, has-append x xs ys, has-append x xs (n ∷ ys), Distinct-insert n xs ys d.1)

-- What an insertion of `n` before `y`, behind the last node `l`, writes.
module _ (m : Memory) (l y n : ℕ) (e : m.prev y ≡ l) (n≢l : n ≢ l) (n≢y : n ≢ y) where
  next-list_insert :
      (p : ℕ) → (list_insert m y n).next p ≡ (if p == n then y else if p == l then n else m.next p)
  unfolding list_insert
  next-list_insert p = ground arith

  prev-list_insert :
      (p : ℕ) → (list_insert m y n).prev p ≡ (if p == y then n else if p == n then l else m.prev p)
  unfolding list_insert
  prev-list_insert p = ground arith

pub ne_of_has : (p n : ℕ) (xs : List ℕ) → has p xs ≡ true → has n xs ≡ false → (p == n) ≡ false
ne_of_has p n [] i f = ground arith
ne_of_has p n (x ∷ xs) i f = ground (arith, ne_of_has p n xs)

-- The path up to the new node, for an end `y` that is not on the path behind its start.
to_new :
    (m : Memory) (head : ℕ) (xs : List ℕ) (y n : ℕ)
    → Linked m head xs y
    → Distinct (head ∷ xs)
    → has n (head ∷ xs) ≡ false
    → n ≢ y
    → has y xs ≡ false
    → Linked (list_insert m y n) head xs n
to_new m head xs y n l d f n≢y out =
    let e = prev-last m head xs y l in
    let k = ne_of_has (last head xs) n (head ∷ xs) (has-last head xs) f in
    let k' : n ≢ last head xs = ground arith in
    retarget m (list_insert m y n) head xs y n l d
      (λ p i j.
        ground
          (arith, next-list_insert m (last head xs) y n e k' n≢y p, ne_of_has p n (head ∷ xs) i f))
      (λ p i. ground (
        arith,
        prev-list_insert m (last head xs) y n e k' n≢y p,
        ne_of_has p n xs i,
        ne_of_has p y xs i out,
      ))
      (ground (arith, next-list_insert m (last head xs) y n e k' n≢y (last head xs)))
      (ground (arith, prev-list_insert m (last head xs) y n e k' n≢y n))

-- The path from `y` on, which the insertion before `y` spares.
from_old :
    (m : Memory) (head : ℕ) (xs : List ℕ) (y : ℕ) (ys : List ℕ) (n : ℕ)
    → Linked m head xs y
    → Linked m y ys head
    → Distinct (head ∷ xs ++ y ∷ ys)
    → has n (head ∷ xs ++ y ∷ ys) ≡ false
    → Linked (list_insert m y n) n (y ∷ ys) head
from_old m head xs y ys n a b d f =
    let e = prev-last m head xs y a in
    let k =
      ne_of_has (last head xs) n (head ∷ xs) (has-last head xs)
        (ground (arith, has-append n xs (y ∷ ys))) in
    let k' : n ≢ last head xs = ground arith in
    let n≢y : n ≢ y = ground (arith, has-append n xs (y ∷ ys)) in
    let out : has (last head xs) (y ∷ ys) ≡ false =
      (Distinct-append (last head xs) (head ∷ xs) (y ∷ ys) d).2 (has-last head xs) in
    let dy : Distinct (y ∷ ys) = (Distinct-append y (head ∷ xs) (y ∷ ys) d).1 in
    (
      ground (arith, next-list_insert m (last head xs) y n e k' n≢y n),
      ground (arith, prev-list_insert m (last head xs) y n e k' n≢y y),
      frame m (list_insert m y n) y ys head b
          (λ p i. ground (
            arith,
            next-list_insert m (last head xs) y n e k' n≢y p,
            ne_of_has p n (y ∷ ys) i,
            ne_of_has p (last head xs) (y ∷ ys) i out,
            has-append n xs (y ∷ ys),
          ))
          (λ p i. ground (
            arith,
            prev-list_insert m (last head xs) y n e k' n≢y p,
            ne_of_has p n (y ∷ ys),
            ne_of_has p y ys,
            has-append p ys (head ∷ []),
            has-append n xs (y ∷ ys),
            has-append head xs (y ∷ ys),
          )),
    )

-- `list_insert(pos, node)`, for a node that is not in the list, puts it right before `pos`, a node
-- of the list or its head.
pub list_insert-IsRing :
    (m : Memory) (head : ℕ) (xs ys : List ℕ) (n : ℕ)
    → IsRing m head (xs ++ ys)
    → has n (head ∷ xs ++ ys) ≡ false
    → IsRing (list_insert m (first ys head) n) head (xs ++ n ∷ ys)
list_insert-IsRing m head xs [] n r f =
    let l : Linked m head xs head = rw append-nil at r.linked in
    let d : Distinct (head ∷ xs) = rw append-nil at r.distinct in
    let g : has n (head ∷ xs) ≡ false = rw append-nil at f in
    let e = prev-last m head xs head l in
    let n≢h : n ≢ head = ground arith in
    let k = ne_of_has (last head xs) n (head ∷ xs) (has-last head xs) g in
    let k' : n ≢ last head xs = ground arith in
    record {
      linked =
          join (list_insert m head n) head xs n [] head (to_new m head xs head n l d g n≢h d.0) (
            ground (arith, next-list_insert m (last head xs) head n e k' n≢h n),
            ground (arith, prev-list_insert m (last head xs) head n e k' n≢h head),
          );
      distinct = ground (arith, Distinct-insert n xs [] r.distinct.1, has-append head xs (n ∷ []));
    }
list_insert-IsRing m head xs (y ∷ ys) n r f =
    let s = split m head xs y ys head r.linked in
    let d = Distinct-append y (head ∷ xs) (y ∷ ys) r.distinct in
    record {
      linked =
          join (list_insert m y n) head xs n (y ∷ ys) head
            (to_new m head xs y n s.0 d.0 (ground (arith, has-append n xs (y ∷ ys)))
              (ground (arith, has-append n xs (y ∷ ys)))
              (ground (arith, d.2, Bool-cases (has y xs))))
            (from_old m head xs y ys n s.0 s.1 r.distinct f);
      distinct = ground (
        arith,
        Distinct-insert n xs (y ∷ ys) r.distinct.1 (ground arith),
        has-append head xs (y ∷ ys),
        has-append head xs (n ∷ y ∷ ys),
      );
    }

-- `list_push_back` appends the node.
pub list_push_back-IsRing :
    (m : Memory) (head : ℕ) (xs : List ℕ) (n : ℕ)
    → IsRing m head xs
    → has n (head ∷ xs) ≡ false
    → IsRing (list_push_back m head n) head (xs ++ n ∷ [])
unfolding list_push_back
list_push_back-IsRing m head xs n r f =
    list_insert-IsRing m head xs [] n (rw append-nil r) (rw append-nil f)

-- `list_push_front` prepends the node.
pub list_push_front-IsRing :
    (m : Memory) (head : ℕ) (xs : List ℕ) (n : ℕ)
    → IsRing m head xs
    → has n (head ∷ xs) ≡ false
    → IsRing (list_push_front m head n) head (n ∷ xs)
unfolding list_push_front list_front
list_push_front-IsRing m head xs n r f =
    rw (next-first m head xs head r.linked) (list_insert-IsRing m head [] xs n r f)
