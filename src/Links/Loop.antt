-- ===== src/Links/Loop.antt =====
-- The loops over a list.
use karg.Base.{
  ℕ, zero, suc, ◌^◌, ◌<◌, ◌≡◌, refl, false, some, List, [], ◌∷◌, ◌==◌, has, length, map, arith,
  ==_refl,
}
use karg.Links.{
  Memory, list_entry, member, for_each_from, for_each_entry_from, list_for_each,
  list_for_each_entry,
}
use karg.Links.Ring.{IsRing, Linked}

for_each-Linked :
    (fuel : ℕ) (m : Memory) (head a : ℕ) (xs : List ℕ)
    → Linked m a xs head
    → has head xs ≡ false
    → length xs < fuel
    → for_each_from fuel m head (m.next a) ≡ some xs
unfolding for_each_from
for_each-Linked zero m head a xs l d f = absurd (omega (arith, f))
for_each-Linked (suc fuel) m head a [] l d f = ground (arith, l.0, ==_refl head)
for_each-Linked (suc fuel) m head a (x ∷ xs) l d f =
    let rest = for_each-Linked fuel m head x xs l.2 (ground (arith, d)) (omega (arith, f)) in
    ground (arith, l.0, d, rest)

-- A node below 2^64 is found again from its object.
member-entry :
    (node offset : ℕ)
    → node < 2 ^ 64
    → offset < 2 ^ 64
    → member (list_entry node offset) offset ≡ node
member-entry node offset h o = omega (arith, h, o)

-- Every node of the sequence is a 64-bit address.
abbrev pub AllWords : List ℕ → Type 0
AllWords [] = Unit
AllWords (x ∷ xs) = (x < 2 ^ 64) × AllWords xs

for_each_entry-Linked :
    (fuel : ℕ) (m : Memory) (head offset a : ℕ) (xs : List ℕ)
    → Linked m a xs head
    → has head xs ≡ false
    → AllWords (head ∷ xs)
    → offset < 2 ^ 64
    → length xs < fuel
    → for_each_entry_from fuel m head offset (list_entry (m.next a) offset)
      ≡ some (map (λ node. list_entry node offset) xs)
unfolding for_each_entry_from
for_each_entry-Linked zero m head offset a xs l d w o f = absurd (omega (arith, f))
for_each_entry-Linked (suc fuel) m head offset a [] l d w o f =
    rw l.0 (rw (member-entry head offset w.0 o) (rw (==_refl head) refl))
for_each_entry-Linked (suc fuel) m head offset a (x ∷ xs) l d w o f =
    let rest =
      for_each_entry-Linked fuel m head offset x xs l.2 (ground (arith, d)) (w.0, w.1.1) o
        (omega (arith, f)) in
    let differs : (x == head) ≡ false = ground (arith, d) in
    rw l.0 (rw (member-entry x offset w.1.0 o) (rw differs (rw rest refl)))

-- A loop over a list whose body changes no pointers ends after a round for each node, and visits exactly the
-- nodes of its sequence, in order: `list_for_each` the nodes, and `list_for_each_entry` the objects
-- around them, whatever the member's offset, when addresses have 64 bits.
pub loops :
    (m : Memory) (head offset fuel : ℕ) (xs : List ℕ)
    → IsRing m head xs
    → AllWords (head ∷ xs)
    → offset < 2 ^ 64
    → length xs < fuel
    → (list_for_each fuel m head ≡ some xs)
      × (list_for_each_entry fuel m head offset ≡ some (map (λ node. list_entry node offset) xs))
unfolding list_for_each list_for_each_entry
loops m head offset fuel xs r w o f = (
  for_each-Linked fuel m head head xs r.linked r.distinct.0 f,
  for_each_entry-Linked fuel m head offset head xs r.linked r.distinct.0 w o f,
)
