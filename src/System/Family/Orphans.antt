-- ===== src/System/Family/Orphans.antt =====
-- The two loops of `sys_exit` in a tree of processes.
use karg.Base.{
  ℕ, ◌+◌, ◌≡◌, refl, ◌∙◌, ap, ◌≢◌, inl, inr, true, false, some, List, [], ◌∷◌, has, arith, length,
  ==_refl,
}
use karg.Kernel.{Kernel, Proc}
use karg.Proc.{proc_adopt}
use karg.Sched.Same.{SameSched, SameSched-refl, SameSched-trans}
use karg.Syscalls.{adopt_all}
use karg.System.Family.{IsFamily}
use karg.System.Same.{proc_adopt-SameSched}
use karg.System.Family.Adopted.{
  IsIn, adopted-IsMoved, adopted-IsFamily, adopted-pid, adopted-children, adopted-zombies,
  zombies-apart,
}

-- What adoptions of processes of `p` leave true.
pub record IsAdopted (p : ℕ) (k k' : Kernel) : Type 0 where
  pub sched : SameSched k k'
  pub proc_waiting : (q : ℕ) → (k'.procs q).proc_waiting ≡ (k.procs q).proc_waiting
  pub parent : (k'.procs p).parent ≡ (k.procs p).parent
  pub pid : (q : ℕ) → (k'.procs q).pid ≡ (k.procs q).pid
  pub children : (x : ℕ) → has x (k.procs p).children ≡ false → has x (k'.procs p).children ≡ false
  pub zombie_children :
      (q x : ℕ)
      → q ≢ p
      → has x (k.procs q).zombie_children ≡ true
      → has x (k'.procs q).zombie_children ≡ true

IsAdopted-refl : (p : ℕ) (k : Kernel) → IsAdopted p k k
IsAdopted-refl p k = record {
  sched = SameSched-refl k;
  proc_waiting = λ q. refl;
  parent = refl;
  pid = λ q. refl;
  children = λ x h. h;
  zombie_children = λ q x n h. h;
}

IsAdopted-trans : (p : ℕ) (k l m : Kernel) → IsAdopted p k l → IsAdopted p l m → IsAdopted p k m
IsAdopted-trans p k l m a b = record {
  sched = SameSched-trans a.sched b.sched;
  proc_waiting = λ q. b.proc_waiting q ∙ a.proc_waiting q;
  parent = b.parent ∙ a.parent;
  pid = λ q. b.pid q ∙ a.pid q;
  children = λ x h. b.children x (a.children x h);
  zombie_children = λ q x n h. b.zombie_children q x n (a.zombie_children q x n h);
}

proc_adopt-waiting :
    (i c q : ℕ) (k : Kernel) → ((proc_adopt i c k).procs q).proc_waiting ≡ (k.procs q).proc_waiting
unfolding proc_adopt
proc_adopt-waiting i c q k = ground arith

one-IsAdopted :
    (idle first c p : ℕ) (k : Kernel)
    → IsFamily idle first k
    → IsIn c p k
    → p ≢ first
    → IsAdopted p k (proc_adopt first c k)
one-IsAdopted idle first c p k f i n =
    let m = adopted-IsMoved idle first c p k f i n in
    let other : c ≢ p = ground (arith, f.child p c, f.dead p c, i) in
    record {
      sched = proc_adopt-SameSched first c k;
      proc_waiting = λ q. proc_adopt-waiting first c q k;
      parent = ground (arith, m.parent p, other);
      pid = λ q. adopted-pid idle first c p k f i n q;
      children = λ x h. ground (arith, m.children p x, n, h);
      zombie_children =
          λ q x o h. ground (arith, m.zombie_children q x, zombies-apart idle first c p k f i n q);
    }

-- The loop over one of the two lists of `p`, which `list` reads: it ends, and the list is empty.
module _ (list : Proc → List ℕ) (idle first p : ℕ) (n : p ≢ first)
    (listed : (c : ℕ) (k : Kernel) → has c (list (k.procs p)) ≡ true → IsIn c p k)
    (pops : (c : ℕ) (cs : List ℕ) (k : Kernel)
      → IsFamily idle first k
      → list (k.procs p) ≡ c ∷ cs
      → list ((proc_adopt first c k).procs p) ≡ cs) where
  pub adopts_list :
      (cs : List ℕ) (k : Kernel)
      → list (k.procs p) ≡ cs
      → IsFamily idle first k
      → (k' : Kernel) × (adopt_all (length cs + 1) list p k ≡ some k')
        × (list (k'.procs p) ≡ [])
        × IsFamily idle first k'
        × IsAdopted p k k'
  unfolding adopt_all
  adopts_list [] k e f = (k, ground (arith, e), e, f, IsAdopted-refl p k)
  adopts_list (c ∷ cs) k e f =
      let i = listed c k (ap (has c) e ∙ ground (arith, ==_refl c)) in
      let k₁ = proc_adopt first c k in
      let (k', ran, empty, ok, kept) =
        adopts_list cs k₁ (pops c cs k f e) (adopted-IsFamily idle first c p k f i n) in
      (
        k',
        ground (arith, e, f.table, ran),
        empty,
        ok,
        IsAdopted-trans p k k₁ k' (one-IsAdopted idle first c p k f i n) kept,
      )

-- The children, and the zombies.
module _ (idle first p : ℕ) (n : p ≢ first) (k : Kernel) (f : IsFamily idle first k) where
  pub adopts_children :
      (k' : Kernel) × (adopt_all (length (k.procs p).children + 1) (λ q. q.children) p k ≡ some k')
      × ((k'.procs p).children ≡ [])
      × IsFamily idle first k'
      × IsAdopted p k k'
  adopts_children =
      adopts_list (λ q. q.children) idle first p n (λ c l h. inl h)
        (λ c cs l g e. ground (
          arith,
          adopted-children idle first c p l g (inl (ap (has c) e ∙ ground (arith, ==_refl c))) n p,
          e,
          ==_refl c,
        ))
        (k.procs p).children k refl f

  pub adopts_zombies :
      (k' : Kernel) × (adopt_all
          (length (k.procs p).zombie_children + 1)
          (λ q. q.zombie_children)
          p
          k
        ≡ some k')
      × ((k'.procs p).zombie_children ≡ [])
      × IsFamily idle first k'
      × IsAdopted p k k'
  adopts_zombies =
      adopts_list (λ q. q.zombie_children) idle first p n (λ c l h. inr h)
        (λ c cs l g e. ground (
          arith,
          adopted-zombies idle first c p l g (inr (ap (has c) e ∙ ground (arith, ==_refl c))) n p,
          e,
          ==_refl c,
        ))
        (k.procs p).zombie_children k refl f
