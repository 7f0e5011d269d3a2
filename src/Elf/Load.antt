-- ===== src/Elf/Load.antt =====
-- `elf_load` as a whole: from a new page table to the mapped program.
use karg.Base.{
  Bool, test_bit, or_bit, ◌^◌, ◌%◌, ◌-◌, true, ℕ, ◌+◌, ◌*◌, ◌<◌, ◌≤◌, ◌≡◌, refl, sym, ◌∙◌, ap,
  subst, ◌≢◌, inl, inr, false, some, List, [], ◌∷◌, ◌==◌, ◌||◌, not, if◌then◌else◌, arith, pos, has,
  Distinct, Bool-cases,
}
use karg.Elf.{vm_flags, ProgHdr, Space, elf_hdr, check_ident, check_compat, load_progs, elf_load}
use karg.Elf.Bytes.{prog_hdr-same}
use karg.Elf.Kept.{IsLoadable}
use karg.Elf.Program.{header, load_progs-maps, load_progs-IsTree}
use karg.PageAlloc.{page_size, page_alloc}
use karg.Utils.{mem_set}
use karg.Utils.Bytes.{mem_set_lem}
use karg.Vm.{Mm, vm_create_page_table, zero_page}
use karg.Vm.Free.{AreApart}
use karg.Vm.Hardware.{Place, translate, translate-walk}
use karg.Elf.Mapping.{IsIn}
use karg.Vm.Walk.{Covers, pte-zero_page, Role, free, root, AllFree, IsFrame, IsTree, look-zero_page}

-- Page addresses only, for which no role is taken yet.
abbrev pub AllFrames : List ℕ → Type 0
AllFrames ps = AllFree (λ a. free) ps

-- The roles when the table at `p` is the only one.
abbrev alone : ℕ → ℕ → Role
alone p a = if a == p then root else free

AllFree-alone : (p : ℕ) (qs : List ℕ) → has p qs ≡ false → AllFrames qs → AllFree (alone p) qs
AllFree-alone p [] h f = tt
AllFree-alone p (q ∷ qs) h f = (f.0, ground (arith, h), AllFree-alone p qs (ground (arith, h)) f.2)

zero_page-IsTree :
    (p : ℕ) (qs : List ℕ) (m : Mm)
    → IsFrame p
    → Distinct (p ∷ qs)
    → AllFrames qs
    → IsTree (alone p) p (zero_page p (record m { free = qs }))
zero_page-IsTree p qs m f d fs = record {
  top = ground arith;
  frame = f;
  unique = d.1;
  pages = AllFree-alone p qs d.0 fs;
  aligned = λ a i r h. ground (arith, f, h);
  points = λ a i t r h l e. absurd (ground (arith, f, h, e, look-zero_page m p a i f.0));
  blank = λ a i t g l e. ground (arith, t, pte-zero_page (record m { free = qs }) p a i f.0 g l);
}

-- The memory that `elf_load` fills, once it has the table at `p`.
abbrev pub with_table : (p : ℕ) (qs : List ℕ) → Space → Space
with_table p qs s = record {
  mm = zero_page p (record s.mm { free = qs });
  bytes = mem_set p 0 page_size s.bytes;
}

-- Where the program headers are.
abbrev pub headers_from : ℕ → (ℕ → ℕ) → ℕ
headers_from elf m = elf + (elf_hdr elf m).phoff

-- How `elf_load` ends without an error: it has a page for the table, and the loop over the headers
-- gives what it returns.
abbrev Loaded : (elf p : ℕ) (qs : List ℕ) → Space → Type 0
Loaded elf p qs s =
    let n = (elf_hdr elf s.bytes).phnum in
    let loaded = load_progs n elf p (headers_from elf s.bytes) (with_table p qs s) in
    (loaded.0 ≡ pos 0) × ((elf_load elf s).1.page_table ≡ p) × ((elf_load elf s).2 ≡ loaded.1)

no_table : (elf : ℕ) (s : Space) → s.mm.free ≡ [] → (elf_load elf s).0 ≢ pos 0
unfolding elf_load vm_create_page_table page_alloc
no_table elf s e ok = absurd (ground (arith, rw e at ok))

new_table :
    (p : ℕ) (qs : List ℕ) (m : Mm)
    → m.free ≡ p ∷ qs
    → (p == 0) ≡ false
    → vm_create_page_table m ≡ (p, zero_page p (record m { free = qs }))
unfolding vm_create_page_table page_alloc
new_table p qs m e z = rw e (rw z refl)

table_made :
    (elf p : ℕ) (qs : List ℕ) (s : Space)
    → vm_create_page_table s.mm ≡ (p, zero_page p (record s.mm { free = qs }))
    → (p == 0) ≡ false
    → (elf_load elf s).0 ≡ pos 0
    → Loaded elf p qs s
unfolding elf_load
table_made elf p qs s e z ok =
    let h = elf_hdr elf s.bytes in
    let ok₁ = rw z at (rw e at ok) in
    elim (Bool-cases (check_ident h.ident)) [
      | inr a ↦ absurd (ground (arith, rw a at ok₁))
      | inl a ↦ elim (Bool-cases (not (check_compat h.ident) || not (h.type == 2))) [
        | inl b ↦ absurd (ground (arith, rw b at (rw a at ok₁)))
        | inr b ↦ rw e (rw z (rw a (rw b (rw b at (rw a at ok₁), refl, refl))))
      ]
    ]

-- The new table overlaps with no header.
pub header-with_table :
    (a n p j : ℕ) (qs : List ℕ) (s : Space)
    → AreApart a (a + n * 56) (p ∷ qs)
    → j < n
    → header a j (with_table p qs s).bytes ≡ header a j s.bytes
unfolding AreApart
header-with_table a n p j qs s f l =
    prog_hdr-same (a + j * 56) s.bytes (with_table p qs s).bytes
      (λ x g k. ground (arith, mem_set_lem p 0 page_size s.bytes x, f.0, l, g, k))

AreApart-tail : (low high p : ℕ) (qs : List ℕ) → AreApart low high (p ∷ qs) → AreApart low high qs
unfolding AreApart
AreApart-tail low high p qs f = f.1

-- The flags of a page, by those of the segment.
vm_flags-bits :
    (f : ℕ)
    → test_bit f 2 ≡ true
    → (test_bit (vm_flags f) 0 ≡ true)
      × (test_bit (vm_flags f) 3 ≡ true)
      × (test_bit (vm_flags f) 1 ≡ test_bit f 1)
      × (test_bit (vm_flags f) 2 ≡ test_bit f 0)
unfolding vm_flags
vm_flags-bits f r = bits (test_bit f 0) (test_bit f 1) (test_bit f 2) r
  where
    flags : Bool → Bool → Bool → ℕ
    flags x w r =
        let f₀ = or_bit 0 3 in
        let f₁ = if x then or_bit f₀ 2 else f₀ in
        let f₂ = if w then or_bit f₁ 1 else f₁ in if r then or_bit f₂ 0 else f₂

    bits :
        (x w r : Bool)
        → r ≡ true
        → (test_bit (flags x w r) 0 ≡ true)
          × (test_bit (flags x w r) 3 ≡ true)
          × (test_bit (flags x w r) 1 ≡ w)
          × (test_bit (flags x w r) 2 ≡ x)
    bits true true true e = (refl, refl, refl, refl)
    bits true false true e = (refl, refl, refl, refl)
    bits false true true e = (refl, refl, refl, refl)
    bits false false true e = (refl, refl, refl, refl)
    bits x w false e = absurd (ground (arith, e))

-- An access that a process may make: to read, in user mode, and to write and to execute if the segment may
-- be written (bit 1 of its flags) and executed (bit 0).
abbrev pub Allows : (flags allowed : ℕ) → Type 0
Allows flags allowed =
    (test_bit allowed 0 ≡ true)
    × (test_bit allowed 3 ≡ true)
    × ((not (test_bit flags 1) || test_bit allowed 1) ≡ true)
    × ((not (test_bit flags 0) || test_bit allowed 2) ≡ true)

Covers-Allows :
    (f allowed : ℕ) → test_bit f 2 ≡ true → Covers (vm_flags f) allowed → Allows f allowed
Covers-Allows f allowed r c =
    let (read, user, write, execute) = vm_flags-bits f r in
    (
      c 0 (omega arith) read,
      c 3 (omega arith) user,
      elim (Bool-cases (test_bit f 1)) [
        | inl b ↦ rw b (c 1 (omega arith) (write ∙ b))
        | inr b ↦ rw b refl
      ],
      elim (Bool-cases (test_bit f 0)) [
        | inl b ↦ rw b (c 2 (omega arith) (execute ∙ b))
        | inr b ↦ rw b refl
      ],
    )

-- What the hardware makes of an entry that allows to read.
IsIn-translates :
    (role : ℕ → Role) (table w f : ℕ) (m : Mm)
    → IsTree role table m
    → w < 2 ^ 38
    → test_bit f 2 ≡ true
    → IsIn table w (vm_flags f) m
    → (p : Place) × (translate table w m ≡ some p) × Allows f p.allowed
IsIn-translates role table w f m v l r (x, walks, c) =
    let allows = Covers-Allows f (x % page_size) r c in
    (
      record { address = x - x % page_size + w % page_size; allowed = x % page_size },
      translate-walk role table w m v l ∙ rw walks (rw allows.0 refl),
      allows,
    )

-- When `elf_load` returns 0, with free pages that are distinct, not null, at page boundaries and below
-- 2^56, and none of which overlaps with the file's program headers, and each loadable segment of the file
-- begins at a page boundary and ends at 2^39 or below, then the hardware translates, by
-- the page table that `elf_load` returns, every address below 2^38 of every loadable segment that may be
-- read, and lets a process read there, and write and execute there if the segment's flags say so.
pub elf_load-translates :
    (elf i w : ℕ) (s : Space)
    → AllFrames s.mm.free
    → Distinct s.mm.free
    → AreApart
        (headers_from elf s.bytes)
        (headers_from elf s.bytes + (elf_hdr elf s.bytes).phnum * 56)
        s.mm.free
    → ((j : ℕ)
        → j < (elf_hdr elf s.bytes).phnum
        → IsLoadable (header (headers_from elf s.bytes) j s.bytes))
    → i < (elf_hdr elf s.bytes).phnum
    → (header (headers_from elf s.bytes) i s.bytes).type ≡ 1
    → test_bit (header (headers_from elf s.bytes) i s.bytes).flags 2 ≡ true
    → (header (headers_from elf s.bytes) i s.bytes).vaddr ≤ w
    → w
      < (header (headers_from elf s.bytes) i s.bytes).vaddr
        + (header (headers_from elf s.bytes) i s.bytes).memsz
    → w < 2 ^ 38
    → (elf_load elf s).0 ≡ pos 0
    → (p : Place) × (translate (elf_load elf s).1.page_table w (elf_load elf s).2.mm ≡ some p)
      × Allows (header (headers_from elf s.bytes) i s.bytes).flags p.allowed
elf_load-translates elf i w s fs d f b l t r from below wl ok =
    go s.mm.free refl (header (headers_from elf s.bytes) i s.bytes) refl
  where
    Found : ProgHdr → Type 0
    Found h =
        (p : Place) × (translate (elf_load elf s).1.page_table w (elf_load elf s).2.mm ≡ some p)
        × Allows h.flags p.allowed

    go :
        (ps : List ℕ)
        → s.mm.free ≡ ps
        → (h : ProgHdr) → header (headers_from elf s.bytes) i s.bytes ≡ h
        → Found h
    go [] e h eh = absurd (no_table elf s e ok)
    go (p ∷ qs) e h eh =
        let n = (elf_hdr elf s.bytes).phnum in
        let a = headers_from elf s.bytes in
        let made = with_table p qs s in
        let frames : AllFrames (p ∷ qs) = subst AllFrames e fs in
        let apart : AreApart a (a + n * 56) (p ∷ qs) = subst (AreApart a (a + n * 56)) e f in
        let z : (p == 0) ≡ false = ground (arith, frames.0) in
        let (done, table, is) = table_made elf p qs s (new_table p qs s.mm e z) z ok in
        let same : (j : ℕ) → j < n → header a j s.bytes ≡ header a j made.bytes =
          λ j g. sym (header-with_table a n p j qs s apart g) in
        let hs : header a i made.bytes ≡ h = sym (same i l) ∙ eh in
        let tree = zero_page-IsTree p qs s.mm frames.0 (subst Distinct e d) frames.2 in
        let clear = AreApart-tail a (a + n * 56) p qs apart in
        let loadable : (j : ℕ) → j < n → IsLoadable (header a j made.bytes) =
          λ j g. subst IsLoadable (same j g) (b j g) in
        let (role, still) = load_progs-IsTree n elf p a (alone p) made tree clear loadable done in
        let found =
          load_progs-maps n elf p a i w (vm_flags h.flags) (alone p) made tree clear loadable l
            (sym (ap (λ y. y.type) (same i l)) ∙ t) (subst (λ y. y.vaddr ≤ w) (same i l) from)
            (subst (λ y. w < y.vaddr + y.memsz) (same i l) below) (ap (λ y. vm_flags y.flags) hs)
            done in
        let readable : test_bit h.flags 2 ≡ true = subst (λ y. test_bit y.flags 2 ≡ true) eh r in
        let seen =
          IsIn-translates role p w h.flags (load_progs n elf p a made).1.mm still wl readable
            found in
        rw table (rw is seen)
