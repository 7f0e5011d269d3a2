-- ===== src/Syscalls/Exit.antt =====
-- The orphans of `sys_exit`.
use karg.Base.{
  ℕ, zero, suc, ◌+◌, ◌≡◌, refl, ◌≢◌, sym, ◌∙◌, ap, true, false, none, some, List, [], ◌∷◌, ◌++◌,
  ◌==◌, if◌then◌else◌, has, erase, Distinct, length, length-append, arith, ==_refl, has-append,
}
use karg.Kernel.{Kernel, zombie, same_state}
use karg.Proc.{proc_adopt}
use karg.Syscalls.{adopt_all, init_pid}

-- One adoption: the process has its new parent, and has left the children of the old one.
proc_adopt-parent :
    (i c q : ℕ) (k : Kernel)
    → ((proc_adopt i c k).procs q).parent ≡ (if q == c then i else (k.procs q).parent)
unfolding proc_adopt
proc_adopt-parent i c q k = ground arith

proc_adopt-children :
    (i c p : ℕ) (k : Kernel)
    → (k.procs c).parent ≡ p
    → i ≢ p
    → ((proc_adopt i c k).procs p).children ≡ erase c (k.procs p).children
unfolding proc_adopt
proc_adopt-children i c p k e n = ground (arith, e)

proc_adopt-table : (i c : ℕ) (k : Kernel) → (proc_adopt i c k).proc_table ≡ k.proc_table
unfolding proc_adopt
proc_adopt-table i c k = ground arith

-- A process that is not the init process hands its children over to it: the loop ends, the process
-- has no children any more, and exactly its children have a new parent, the init process.
pub adopt_all-children :
    (cs : List ℕ) (p : ℕ) (k : Kernel)
    → (k.procs p).children ≡ cs
    → Distinct cs
    → ((q : ℕ) → has q cs ≡ true → (k.procs q).parent ≡ p)
    → k.proc_table init_pid ≢ p
    → (k' : Kernel) × (adopt_all (length cs + 1) (λ q. q.children) p k ≡ some k')
      × ((k'.procs p).children ≡ [])
      × ((q : ℕ)
          → (k'.procs q).parent ≡ (if has q cs then k.proc_table init_pid else (k.procs q).parent))
unfolding adopt_all
adopt_all-children [] p k e d h n = (k, ground (arith, e), e, λ q. refl)
adopt_all-children (c ∷ cs) p k e d h n =
    let i = k.proc_table init_pid in
    let k₁ = proc_adopt i c k in
    let table = proc_adopt-table i c k in
    let (k', r, empty, parents) =
      adopt_all-children cs p k₁ (ground (arith, proc_adopt-children i c p k, h c, e, ==_refl c))
        d.1 (λ q b. ground (arith, proc_adopt-parent i c q k, h q, d.0))
        (λ x. n (sym (ap (λ t. t init_pid) table) ∙ x)) in
    (
      k',
      ground (arith, e, r),
      empty,
      λ q. ground (arith, parents q, proc_adopt-parent i c q k, table, d.0),
    )

-- A process that adopts its own child, moves it to the back of its children, or to its zombies.
proc_adopt-own :
    (c p : ℕ) (cs : List ℕ) (k : Kernel)
    → (k.procs c).parent ≡ p
    → same_state (k.procs c).state zombie ≡ false
    → (k.procs p).children ≡ c ∷ cs
    → ((proc_adopt p c k).procs p).children ≡ cs ++ c ∷ []
unfolding proc_adopt
proc_adopt-own c p cs k h z e = ground (arith, h, z, e, ==_refl c)

proc_adopt-state : (i c q : ℕ) (k : Kernel) → ((proc_adopt i c k).procs q).state ≡ (k.procs q).state
unfolding proc_adopt
proc_adopt-state i c q k = ground arith

cons_of_length : (xs : List ℕ) (n : ℕ) → length xs ≡ suc n → (x : ℕ) × (ys : List ℕ) × (xs ≡ x ∷ ys)
cons_of_length [] n l = absurd (omega arith)
cons_of_length (x ∷ xs) n l = (x, xs, refl)

-- If the init process, whose own children it would adopt, exits with a child and none of its
-- children is a zombie, the loop ends with no fuel.
pub adopt_all-init :
    (fuel p n : ℕ) (k : Kernel)
    → length (k.procs p).children ≡ suc n
    → ((q : ℕ) → has q (k.procs p).children ≡ true → (k.procs q).parent ≡ p)
    → ((q : ℕ) → has q (k.procs p).children ≡ true → same_state (k.procs q).state zombie ≡ false)
    → k.proc_table init_pid ≡ p
    → adopt_all fuel (λ q. q.children) p k ≡ none
unfolding adopt_all
adopt_all-init zero p n k l h z i = refl
adopt_all-init (suc fuel) p n k l h z i =
    let (c, cs, e) = cons_of_length (k.procs p).children n l in
    let e' =
      proc_adopt-own c p cs k (h c (ground (arith, e, ==_refl c)))
        (z c (ground (arith, e, ==_refl c))) e in
    let k₁ = proc_adopt p c k in
    let same : (q : ℕ) → has q (k₁.procs p).children ≡ has q (k.procs p).children =
      λ q. ground (arith, e, e', has-append q cs (c ∷ [])) in
    let r =
      adopt_all-init fuel p n k₁ (ground (arith, e, e', l, length-append cs (c ∷ [])))
        (λ q b. ground (arith, same q, proc_adopt-parent p c q k, h q))
        (λ q b. ground (arith, same q, proc_adopt-state p c q k, z q))
        (ap (λ t. t init_pid) (proc_adopt-table p c k) ∙ i) in
    ground (arith, e, i, r)
