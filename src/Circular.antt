-- ===== src/Circular.antt =====
-- Circular buffers, for src/drivers/tty.c and src/module/log.c: which places of an array of `size`
-- places hold a sequence of bytes that goes round at the end of the array.
use native.Mathlib.Nat.{mod-add-mod, mod-eq_of_lt, mod-eq-sub-mod}
use karg.Base.{
  ℕ, suc, ◌+◌, ◌-◌, ◌%◌, ◌<◌, ◌≤◌, ◌≡◌, ◌≢◌, ap, sym, ◌∙◌, subst, List, [], ◌∷◌, ◌++◌, ◌==◌,
  if◌then◌else◌, length, arith,
}

-- The array but for place `i`, which holds `v`.
abbrev pub write_byte : (ℕ → ℕ) → ℕ → ℕ → ℕ → ℕ
write_byte buf i v j = if j == i then v else buf j

abbrev pub drop_last : List ℕ → List ℕ
drop_last [] = []
drop_last (x ∷ []) = []
drop_last (x ∷ y ∷ ys) = x ∷ drop_last (y ∷ ys)

pub length-drop_last : (xs : List ℕ) → length (drop_last xs) ≡ length xs - 1
length-drop_last [] = omega arith
length-drop_last (x ∷ []) = omega arith
length-drop_last (x ∷ y ∷ ys) = omega (arith, length-drop_last (y ∷ ys))

module _ (size : ℕ) where
  -- The places from `h` on hold the bytes of the list.
  abbrev pub Holds : (ℕ → ℕ) → ℕ → List ℕ → Type 0
  Holds buf h [] = Unit
  Holds buf h (x ∷ xs) = (buf h ≡ x) × Holds buf ((h + 1) % size) xs

  step_round : (h n : ℕ) → ((h + 1) % size + n) % size ≡ (h + suc n) % size
  step_round h n = rw mod-add-mod (ap (λ k. k % size) (omega arith))

  step_in : (h : ℕ) → h < size → (h + 1) % size < size
  step_in h b = omega arith

  step_apart : (h k : ℕ) → h < size → 0 < k → k < size → (h + k) % size ≢ h
  step_apart h k b p q = grind (arith, mod-eq_of_lt, mod-eq-sub-mod)

  pub Holds-append :
      (buf : ℕ → ℕ) (h : ℕ) (xs ys : List ℕ)
      → h < size
      → Holds buf h xs
      → Holds buf ((h + length xs) % size) ys
      → Holds buf h (xs ++ ys)
  Holds-append buf h [] ys b p q =
      subst (λ i. Holds buf i ys) (ap (λ k. k % size) (omega arith) ∙ mod-eq_of_lt b) q
  Holds-append buf h (x ∷ xs) ys b p q = (
    p.0,
    Holds-append buf ((h + 1) % size) xs ys (step_in h b) p.1
        (subst (λ i. Holds buf i ys) (sym (step_round h (length xs))) q),
  )

  -- A write behind the bytes of the list, before it goes all round, spares them.
  pub Holds-write :
      (buf : ℕ → ℕ) (h i v k : ℕ) (xs : List ℕ)
      → h < size
      → length xs ≤ k
      → k < size
      → i ≡ (h + k) % size
      → Holds buf h xs
      → Holds (write_byte buf i v) h xs
  Holds-write buf h i v k [] b n m e p = tt
  Holds-write buf h i v k (x ∷ xs) b n m e p =
      let ne : h ≢ i = λ eq. step_apart h k b (omega arith) m (sym (eq ∙ e)) in
      let k' : k ≡ suc (k - 1) = omega arith in
      (
        ground (arith, p.0),
        Holds-write buf ((h + 1) % size) i v (k - 1) xs (step_in h b) (omega arith) (omega arith)
            (e ∙ ap (λ j. (h + j) % size) k' ∙ sym (step_round h (k - 1))) p.1,
      )

  pub Holds-drop_last :
      (buf : ℕ → ℕ) (h : ℕ) (xs : List ℕ) → Holds buf h xs → Holds buf h (drop_last xs)
  Holds-drop_last buf h [] p = tt
  Holds-drop_last buf h (x ∷ []) p = tt
  Holds-drop_last buf h (x ∷ y ∷ ys) p = (p.0, Holds-drop_last buf ((h + 1) % size) (y ∷ ys) p.1)
