-- ===== src/Proc/Create/Made.antt =====
-- What `proc_init` as a whole does to the tree of processes and the process table.
use karg.Base.{
  ℕ, ◌≡◌, refl, ◌∙◌, sym, ap, subst, ◌≢◌, false, true, ◌&&◌, ◌++◌, not, Bool, Option, none, some,
  ◌>>=◌, List, [], ◌∷◌, ◌==◌, if◌then◌else◌, ℤ, is_neg, Bool-cases, arith, inl, inr, has,
}
use karg.Kernel.{Kernel, Fd, null}
use karg.Proc.{new_pid, init_fds, pid_index}
use karg.Proc.Create.{with_proc, register, init_rest, proc_init}
use mathlib.Core.Option.{some-injective}
use karg.Proc.Create.Tree.{SameTree, Ended, init_rest-Ended}

-- Once the identifier is chosen and the rest may fail: only `p` changed, and its lists are empty.
pub record IsMade (p above : ℕ) (is_in : Bool) (k k' : Kernel) : Type 0 where
  pub others :
      (q : ℕ)
      → q ≢ p
      → k'.procs q ≡ (
          if is_in && (q == above) && not (above == null)
          then record (k.procs q) { children = (k.procs q).children ++ p ∷ [] }
          else k.procs q)
  pub parent : is_in ≡ true → (k'.procs p).parent ≡ above
  pub children : (x : ℕ) → has x (k.procs p).children ≡ false → has x (k'.procs p).children ≡ false
  pub zombie_children :
      (x : ℕ)
      → has x (k.procs p).zombie_children ≡ false
      → has x (k'.procs p).zombie_children ≡ false
  pub emptied : is_in ≡ true → ((k'.procs p).children ≡ []) × ((k'.procs p).zombie_children ≡ [])
  pub pid : (k'.procs p).pid ≡ (new_pid k.proc_table k.last_pid).0
  pub last_pid : k'.last_pid ≡ (new_pid k.proc_table k.last_pid).1
  pub table :
      (n : ℕ)
      → k'.proc_table n ≡ (if is_in && (n == pid_index (k'.procs p).pid) then p else k.proc_table n)

-- What is left of `k` in `l` when the identifier has been chosen, and later.
record IsBegun (p : ℕ) (k l : Kernel) : Type 0 where
  others : (q : ℕ) → q ≢ p → l.procs q ≡ k.procs q
  children : (x : ℕ) → has x (k.procs p).children ≡ false → has x (l.procs p).children ≡ false
  zombie_children :
      (x : ℕ)
      → has x (k.procs p).zombie_children ≡ false
      → has x (l.procs p).zombie_children ≡ false
  pid : (l.procs p).pid ≡ (new_pid k.proc_table k.last_pid).0
  last_pid : l.last_pid ≡ (new_pid k.proc_table k.last_pid).1
  table : l.proc_table ≡ k.proc_table

begun-IsMade : (p above : ℕ) (k l : Kernel) → IsBegun p k l → IsMade p above false k l
begun-IsMade p above k l b = record {
  others = b.others;
  parent = λ e. absurd (ground (arith, e));
  children = b.children;
  zombie_children = b.zombie_children;
  emptied = λ e. absurd (ground (arith, e));
  pid = b.pid;
  last_pid = b.last_pid;
  table = λ n. ap (λ t. t n) b.table;
}

IsBegun-same : (p : ℕ) (k l m : Kernel) → IsBegun p k l → SameTree p l m → IsBegun p k m
IsBegun-same p k l m b s = record {
  others = λ q n. s.others q n ∙ b.others q n;
  children = λ x h. ap (has x) s.children ∙ b.children x h;
  zombie_children = λ x h. ap (has x) s.zombie_children ∙ b.zombie_children x h;
  pid = s.pid ∙ b.pid;
  last_pid = s.last_pid ∙ b.last_pid;
  table = s.table ∙ b.table;
}

register-IsMade :
    (p above : ℕ) (k l : Kernel)
    → IsBegun p k l
    → (l.procs p).parent ≡ above
    → above ≢ p
    → (l.procs p).children ≡ []
    → (l.procs p).zombie_children ≡ []
    → IsMade p above true k (register p l)
unfolding register
register-IsMade p above k l b e d c z = record {
  others = λ q m. ground (arith, b.others q, b.others above, e, d);
  parent = λ t. ground (arith, e, d);
  children = λ x h. ground (arith, e, d, b.children x h);
  zombie_children = λ x h. ground (arith, e, d, b.zombie_children x h);
  emptied = λ t. (ground (arith, e, d, c), ground (arith, e, d, z));
  pid = ground (arith, e, d, b.pid);
  last_pid = ground (arith, e, b.last_pid);
  table = λ m. ground (arith, e, d, ap (λ t. t m) b.table);
}

-- A new process with the parent `above`, which may be none.
pub proc_init-IsMade :
    (p entry flags above : ℕ) (argv : List (List ℕ)) (page_table trampoline sstatus : ℕ)
    (k k' : Kernel) (res : ℤ)
    → proc_init p entry flags above argv page_table trampoline sstatus k ≡ some (res, k')
    → above ≢ p
    → IsMade p above (not (is_neg res)) k k'
unfolding proc_init
proc_init-IsMade p entry flags above argv page_table trampoline sstatus k k' res h d =
    elim (Bool-cases (is_neg pid)) [
      | inl q ↦ failed (pid, k₁) (ground (arith, h, q)) q begun₁
      | inr q ↦ go (init_fds (k₂.procs p).fds) (ground (arith, h, q))
    ]
  where
    pid : ℤ
    pid = (new_pid k.proc_table k.last_pid).0

    k₁ : Kernel
    k₁ =
        with_proc p (λ q. record q { pid = pid })
          (record k { last_pid = (new_pid k.proc_table k.last_pid).1 })

    k₂ : Kernel
    k₂ =
        with_proc p
          (λ q. record q { flags = flags; parent = above; children = []; zombie_children = [] }) k₁

    with_fds : List Fd → Kernel
    with_fds fds = with_proc p (λ q. record q { fds = fds }) k₂

    result : (r : ℤ × Kernel) → some r ≡ some (res, k') → r ≡ (res, k')
    result r e = some-injective r (res, k') e

    Made : ℤ × Kernel → Type 0
    Made r = IsMade p above (not (is_neg r.0)) k r.1

    begun₁ : IsBegun p k k₁
    begun₁ = record {
      others = λ q m. ground (arith, m);
      children = λ x e. ground (arith, e);
      zombie_children = λ x e. ground (arith, e);
      pid = ground arith;
      table = refl;
      last_pid = refl;
    }

    begun₃ : (fds : List Fd) → IsBegun p k (with_fds fds)
    begun₃ fds = record {
      others = λ q m. ground (arith, m);
      children = λ x e. ground arith;
      zombie_children = λ x e. ground arith;
      pid = ground arith;
      table = refl;
      last_pid = refl;
    }

    above₃ : (fds : List Fd) → ((with_fds fds).procs p).parent ≡ above
    above₃ fds = ground arith

    no_children : (fds : List Fd) → ((with_fds fds).procs p).children ≡ []
    no_children fds = ground arith

    no_zombies : (fds : List Fd) → ((with_fds fds).procs p).zombie_children ≡ []
    no_zombies fds = ground arith

    failed :
        (r : ℤ × Kernel)
        → some r ≡ some (res, k')
        → is_neg r.0 ≡ true
        → IsBegun p k r.1
        → Made (res, k')
    failed r e q b =
        let q' : not (is_neg r.0) ≡ false = rw q refl in
        subst Made (result r e)
          (subst (λ z. IsMade p above z k r.1) (sym q') (begun-IsMade p above k r.1 b))

    ended :
        (fds : List Fd) (r : ℤ × Kernel)
        → some r ≡ some (res, k')
        → Ended p (with_fds fds) r
        → Made (res, k')
    ended fds r e (inl (q, s)) = failed r e q (IsBegun-same p k (with_fds fds) r.1 (begun₃ fds) s)
    ended fds r e (inr (q, (l, is, s))) =
        let q' : not (is_neg r.0) ≡ true = rw q refl in
        let made =
          register-IsMade p above k l (IsBegun-same p k (with_fds fds) l (begun₃ fds) s)
            (s.parent ∙ above₃ fds) d (s.children ∙ no_children fds)
            (s.zombie_children ∙ no_zombies fds) in
        subst Made (result r e) (
          subst (λ z. IsMade p above z k r.1) (sym q')
            (subst (λ z. IsMade p above true k z) (sym is) made))

    after_fds : ℤ × List Fd → Option (ℤ × Kernel)
    after_fds (r, fds) =
        if is_neg r
        then some (r, with_fds fds)
        else some (init_rest p entry flags page_table argv trampoline sstatus (with_fds fds))

    go : (o : Option (ℤ × List Fd)) → (o >>= after_fds) ≡ some (res, k') → Made (res, k')
    go none e = absurd (ground (arith, e))
    go (some (r, fds)) e = elim (Bool-cases (is_neg r)) [
      | inl q ↦ failed (r, with_fds fds) (rw q at e) q (begun₃ fds)
      | inr q ↦
          ended fds (init_rest p entry flags page_table argv trampoline sstatus (with_fds fds))
            (rw q at e)
            (init_rest-Ended p entry flags page_table argv trampoline sstatus (with_fds fds))
    ]
