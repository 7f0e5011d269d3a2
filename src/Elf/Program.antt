-- ===== src/Elf/Program.antt =====
-- The loop over the program headers, round by round.
use karg.Base.{
  ℕ, zero, suc, ◌+◌, ◌-◌, ◌==◌, ◌*◌, ◌%◌, ◌^◌, ◌<◌, ◌≤◌, ◌≡◌, refl, sym, ◌∙◌, ap, subst, inl, inr,
  arith, pos, is_neg, Bool-cases,
}
use karg.Elf.{vm_flags, ProgHdr, Space, prog_hdr, load_prog, load_progs}
use karg.Elf.Bytes.{prog_hdr-same}
use karg.Elf.Kept.{IsLoadable, prog-IsKept, prog-stays, prog-zero}
use karg.Elf.Mapping.{IsIn, load_prog-maps}
use karg.PageAlloc.{page_size}
use karg.Vm.Free.{AreApart, AreApart-narrow}
use karg.Vm.Walk.{Role, IsTree}

-- The header with the index `i` behind `a`.
abbrev pub header : (a i : ℕ) → (ℕ → ℕ) → ProgHdr
header a i m = prog_hdr (a + i * 56) m

-- The first round has succeeded, and so have the others.
rounds :
    (n elf table a : ℕ) (s : Space)
    → (load_progs (suc n) elf table a s).0 ≡ pos 0
    → let first = load_prog elf table (prog_hdr a s.bytes) s in
      (first.0 ≡ pos 0)
      × ((load_progs n elf table (a + 56) first.1).0 ≡ pos 0)
      × (load_progs (suc n) elf table a s ≡ load_progs n elf table (a + 56) first.1)
unfolding load_progs
rounds n elf table a s ok =
    let first = load_prog elf table (prog_hdr a s.bytes) s in
    elim (Bool-cases (is_neg first.0)) [
      | inl q ↦ absurd (ground (arith, ok, q))
      | inr q ↦ (prog-zero elf table (prog_hdr a s.bytes) s q, rw q at ok, rw q refl)
    ]

-- Behind the first round, the other headers are what they were.
header-IsKept :
    (n elf table a i : ℕ) (h : ProgHdr) (s : Space)
    → AreApart a (a + suc n * 56) s.mm.free
    → i < n
    → header (a + 56) i (load_prog elf table h s).1.bytes ≡ header a (suc i) s.bytes
header-IsKept n elf table a i h s f l =
    let kept = prog-IsKept a (a + suc n * 56) elf table h s f in
    prog_hdr-same (a + 56 + i * 56) s.bytes (load_prog elf table h s).1.bytes
      (λ x g k. kept.bytes x (omega (arith, g)) (omega (arith, g, k, l)))
    ∙ ap (λ y. prog_hdr y s.bytes) (omega arith)

apart_next :
    (n a elf table : ℕ) (h : ProgHdr) (s : Space)
    → AreApart a (a + suc n * 56) s.mm.free
    → AreApart (a + 56) (a + 56 + n * 56) (load_prog elf table h s).1.mm.free
apart_next n a elf table h s f =
    AreApart-narrow a (a + suc n * 56) (a + 56) (a + 56 + n * 56)
      (load_prog elf table h s).1.mm.free (omega arith) (omega arith)
      (prog-IsKept a (a + suc n * 56) elf table h s f).free

module _ (elf table w asked : ℕ) (wl : w < 2 ^ 39) where
  -- What is mapped stays mapped.
  progs-stay :
      (n a : ℕ) (role : ℕ → Role) (s : Space)
      → IsTree role table s.mm
      → AreApart a (a + n * 56) s.mm.free
      → ((j : ℕ) → j < n → IsLoadable (header a j s.bytes))
      → (load_progs n elf table a s).0 ≡ pos 0
      → IsIn table w asked s.mm
      → IsIn table w asked (load_progs n elf table a s).1.mm
  unfolding load_progs
  progs-stay zero a role s v f b ok i = i
  progs-stay (suc n) a role s v f b ok i =
      let h = prog_hdr a s.bytes in
      let first = load_prog elf table h s in
      let (done, rest, is) = rounds n elf table a s ok in
      let loadable : IsLoadable h =
        subst (λ y. IsLoadable (prog_hdr y s.bytes)) (omega arith) (b 0 (omega arith)) in
      let ((role', v'), stays) = prog-stays elf table w asked h role s loadable wl v done in
      let apart = apart_next n a elf table h s f in
      subst (λ r. IsIn table w asked r.1.mm) (sym is)
        (progs-stay n (a + 56) role' first.1 v' apart
          (λ j l.
            subst IsLoadable (sym (header-IsKept n elf table a j h s f l))
              (b (suc j) (omega (arith, l))))
          rest (stays i))

bounds :
    (h : ProgHdr)
    → IsLoadable h
    → h.type ≡ 1
    → (h.vaddr % page_size ≡ 0) × (h.vaddr + h.memsz ≤ 2 ^ 39)
unfolding IsLoadable
bounds h (inl n) t = absurd (n t)
bounds h (inr b) t = b

-- The segments of all headers, of which a later one may take an address over but does not undo its mapping.
flags_as :
    {h h' : ProgHdr} {asked : ℕ} → h ≡ h' → vm_flags h.flags ≡ asked → vm_flags h'.flags ≡ asked
flags_as e q = sym (ap (λ y. vm_flags y.flags) e) ∙ q

pub load_progs-maps :
    (n elf table a i w asked : ℕ) (role : ℕ → Role) (s : Space)
    → IsTree role table s.mm
    → AreApart a (a + n * 56) s.mm.free
    → ((j : ℕ) → j < n → IsLoadable (header a j s.bytes))
    → i < n
    → (header a i s.bytes).type ≡ 1
    → (header a i s.bytes).vaddr ≤ w
    → w < (header a i s.bytes).vaddr + (header a i s.bytes).memsz
    → vm_flags (header a i s.bytes).flags ≡ asked
    → (load_progs n elf table a s).0 ≡ pos 0
    → IsIn table w asked (load_progs n elf table a s).1.mm
load_progs-maps zero elf table a i w asked role s v f b l t from below fl ok =
    absurd (omega (arith, l))
load_progs-maps (suc n) elf table a i w asked role s v f b l t from below fl ok =
    let h = prog_hdr a s.bytes in
    let first = load_prog elf table h s in
    let (done, rest, is) = rounds n elf table a s ok in
    let (al, top) = bounds (header a i s.bytes) (b i l) t in
    let wl : w < 2 ^ 39 = omega (arith, below, top) in
    let loadable : IsLoadable h =
      subst (λ y. IsLoadable (prog_hdr y s.bytes)) (omega arith) (b 0 (omega arith)) in
    let ((role', v'), _) = prog-stays elf table w asked h role s loadable wl v done in
    let apart = apart_next n a elf table h s f in
    let others : (j : ℕ) → j < n → IsLoadable (header (a + 56) j first.1.bytes) = λ j g.
      subst IsLoadable (sym (header-IsKept n elf table a j h s f g))
        (b (suc j) (omega (arith, g))) in
    subst (λ r. IsIn table w asked r.1.mm) (sym is)
      (elim (Bool-cases (i == 0)) [
        | inl z ↦
            let e : header a i s.bytes ≡ h = ap (λ y. prog_hdr y s.bytes) (ground (arith, z)) in
            progs-stay elf table w asked wl n (a + 56) role' first.1 v' apart others rest (
              subst (λ y. IsIn table w y first.1.mm) (flags_as e fl)
                (load_prog-maps role elf table w h s v (sym (ap (λ y. y.type) e) ∙ t)
                  (sym (ap (λ y. y.vaddr % page_size) e) ∙ al)
                  (subst (λ y. y.vaddr + y.memsz ≤ 2 ^ 39) e top) (subst (λ y. y.vaddr ≤ w) e from)
                  (subst (λ y. w < y.vaddr + y.memsz) e below) done))
        | inr z ↦
            let j = i - 1 in
            let less : j < n = ground (arith, z, l) in
            let e : header a i s.bytes ≡ header (a + 56) j first.1.bytes =
              ap (λ y. header a y s.bytes) (ground (arith, z))
              ∙ sym (header-IsKept n elf table a j h s f less) in
            (load_progs-maps n elf table (a + 56) j w asked role' first.1 v' apart others less
              (sym (ap (λ y. y.type) e) ∙ t) (subst (λ y. y.vaddr ≤ w) e from)
              (subst (λ y. w < y.vaddr + y.memsz) e below) (flags_as e fl) rest)
      ])

-- The tables are a tree still.
pub load_progs-IsTree :
    (n elf table a : ℕ) (role : ℕ → Role) (s : Space)
    → IsTree role table s.mm
    → AreApart a (a + n * 56) s.mm.free
    → ((j : ℕ) → j < n → IsLoadable (header a j s.bytes))
    → (load_progs n elf table a s).0 ≡ pos 0
    → (role' : ℕ → Role) × IsTree role' table (load_progs n elf table a s).1.mm
unfolding load_progs
load_progs-IsTree zero elf table a role s v f b ok = (role, v)
load_progs-IsTree (suc n) elf table a role s v f b ok =
    let h = prog_hdr a s.bytes in
    let first = load_prog elf table h s in
    let (done, rest, is) = rounds n elf table a s ok in
    let loadable : IsLoadable h =
      subst (λ y. IsLoadable (prog_hdr y s.bytes)) (omega arith) (b 0 (omega arith)) in
    let ((role', v'), _) = prog-stays elf table 0 0 h role s loadable (omega arith) v done in
    subst (λ r. (q : ℕ → Role) × IsTree q table r.1.mm) (sym is)
      (load_progs-IsTree n elf table (a + 56) role' first.1 v' (apart_next n a elf table h s f)
        (λ j l.
          subst IsLoadable (sym (header-IsKept n elf table a j h s f l))
            (b (suc j) (omega (arith, l))))
        rest)
