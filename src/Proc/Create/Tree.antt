-- ===== src/Proc/Create/Tree.antt =====
-- What the parts of `proc_init` behind the descriptors do to the tree of processes.
use karg.Base.{
  ℕ, ◌≡◌, refl, ◌∙◌, ◌≢◌, false, true, List, if◌then◌else◌, ℤ, pos, is_neg, Bool-cases, arith,
  test_bit, inl, inr, ◌⊎◌,
}
use karg.Kernel.{Kernel, ProcState}
use karg.Proc.Create.{with_proc, and_then, init_stacks, map_same, map_stacks, register, init_rest}

-- Only the process `p` changes, and that not in its place in the tree.
pub record SameTree (p : ℕ) (k k' : Kernel) : Type 0 where
  pub others : (q : ℕ) → q ≢ p → k'.procs q ≡ k.procs q
  pub parent : (k'.procs p).parent ≡ (k.procs p).parent
  pub children : (k'.procs p).children ≡ (k.procs p).children
  pub zombie_children : (k'.procs p).zombie_children ≡ (k.procs p).zombie_children
  pub pid : (k'.procs p).pid ≡ (k.procs p).pid
  pub table : k'.proc_table ≡ k.proc_table
  pub last_pid : k'.last_pid ≡ k.last_pid

SameTree-refl : (p : ℕ) (k : Kernel) → SameTree p k k
SameTree-refl p k = record {
  others = λ q n. refl;
  parent = refl;
  children = refl;
  zombie_children = refl;
  pid = refl;
  table = refl;
  last_pid = refl;
}

SameTree-trans : (p : ℕ) (k l m : Kernel) → SameTree p k l → SameTree p l m → SameTree p k m
SameTree-trans p k l m a b = record {
  others = λ q n. b.others q n ∙ a.others q n;
  parent = b.parent ∙ a.parent;
  children = b.children ∙ a.children;
  zombie_children = b.zombie_children ∙ a.zombie_children;
  pid = b.pid ∙ a.pid;
  table = b.table ∙ a.table;
  last_pid = b.last_pid ∙ a.last_pid;
}

-- A step that may fail ends the sequence, or is followed by the rest.
and_then-ends :
    (m : ℤ × Kernel) (f : Kernel → ℤ × Kernel) (P : ℤ × Kernel → Type 0)
    → (is_neg m.0 ≡ true → P m)
    → (is_neg m.0 ≡ false → P (f m.1))
    → P (and_then m f)
and_then-ends (res, l) f P a b = elim (Bool-cases (is_neg res)) [
  | inl q ↦ rw q (a q)
  | inr q ↦ rw q (b q)
]

init_stacks-SameTree :
    (p entry : ℕ) (argv : List (List ℕ)) (sstatus : ℕ) (k : Kernel)
    → SameTree p k (init_stacks p entry argv sstatus k).1
unfolding init_stacks
init_stacks-SameTree p entry argv sstatus k = record {
  others = λ q n. ground (arith, n);
  parent = ground arith;
  children = ground arith;
  zombie_children = ground arith;
  pid = ground arith;
  table = ground arith;
  last_pid = ground arith;
}

map_same-SameTree :
    (p page_table addr flags : ℕ) (k : Kernel) → SameTree p k (map_same page_table addr flags k).1
unfolding map_same
map_same-SameTree p page_table addr flags k = record {
  others = λ q n. refl;
  parent = refl;
  children = refl;
  zombie_children = refl;
  pid = refl;
  table = refl;
  last_pid = refl;
}

map_stacks-SameTree : (p trampoline : ℕ) (k : Kernel) → SameTree p k (map_stacks p trampoline k).1
unfolding map_stacks
map_stacks-SameTree p trampoline k =
    let q = k.procs p in
    let first = map_same q.page_table trampoline 5 k in
    let second = map_same q.page_table q.kern_stack 3 first.1 in
    let s₁ = map_same-SameTree p q.page_table trampoline 5 k in
    let s₂ =
      SameTree-trans p k first.1 second.1 s₁
        (map_same-SameTree p q.page_table q.kern_stack 3 first.1) in
    let map_user : Kernel → ℤ × Kernel = λ l. map_same q.page_table q.user_stack 11 l in
    let map_both : Kernel → ℤ × Kernel =
      λ l. and_then (map_same q.page_table q.kern_stack 3 l) map_user in
    and_then-ends first map_both (λ r. SameTree p k r.1) (λ n. s₁)
      λ n.
        and_then-ends second map_user (λ r. SameTree p k r.1) (λ n. s₂)
          λ n.
            SameTree-trans p k second.1 _ s₂
              (map_same-SameTree p q.page_table q.user_stack 11 second.1)

-- How `init_rest` ends: with an error, or with the process in the table and the tree.
abbrev pub Ended : ℕ → Kernel → ℤ × Kernel → Type 0
Ended p k r =
    ((is_neg r.0 ≡ true) × SameTree p k r.1)
    ⊎ ((is_neg r.0 ≡ false) × ((l : Kernel) × (r.1 ≡ register p l) × SameTree p k l))

stacks_if_user-SameTree :
    (p flags trampoline : ℕ) (k : Kernel)
    → SameTree p k (if test_bit flags 0 then (pos 0, k) else map_stacks p trampoline k).1
stacks_if_user-SameTree p flags trampoline k = elim (Bool-cases (test_bit flags 0)) [
  | inl q ↦ rw q (SameTree-refl p k)
  | inr q ↦ rw q (map_stacks-SameTree p trampoline k)
]

pub init_rest-Ended :
    (p entry flags page_table : ℕ) (argv : List (List ℕ)) (trampoline sstatus : ℕ) (k : Kernel)
    → Ended p k (init_rest p entry flags page_table argv trampoline sstatus k)
unfolding init_rest
init_rest-Ended p entry flags page_table argv trampoline sstatus k =
    let k₁ = with_proc p (λ q. record q { state = ProcState.init; page_table = page_table }) k in
    let begun : SameTree p k k₁ = record {
      others = λ q n. ground (arith, n);
      parent = ground arith;
      children = ground arith;
      zombie_children = ground arith;
      pid = ground arith;
      table = refl;
      last_pid = refl;
    } in
    let stacks = init_stacks p entry argv sstatus k₁ in
    let s₂ = SameTree-trans p k k₁ stacks.1 begun (init_stacks-SameTree p entry argv sstatus k₁) in
    let maps = if test_bit flags 0 then (pos 0, stacks.1) else map_stacks p trampoline stacks.1 in
    let s₃ =
      SameTree-trans p k stacks.1 maps.1 s₂ (stacks_if_user-SameTree p flags trampoline stacks.1) in
    let ends : Kernel → ℤ × Kernel = λ l. (pos 0, register p l) in
    let rest : Kernel → ℤ × Kernel =
      λ l. and_then (if test_bit flags 0 then (pos 0, l) else map_stacks p trampoline l) ends in
    and_then-ends stacks rest (Ended p k) (λ n. inl (n, s₂))
      λ n.
        and_then-ends maps ends (Ended p k) (λ m. inl (m, s₃)) λ m. inr (refl, (maps.1, refl, s₃))
