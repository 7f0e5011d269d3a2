-- ===== src/Log/Flush.antt =====
-- What `flush` gives to the terminal.
use karg.Base.{
  ℕ, zero, suc, ◌+◌, ◌-◌, ◌%◌, ◌<◌, ◌≤◌, ◌≡◌, List, [], ◌∷◌, ◌++◌, ltb, length, arith, Bool-cases,
  inl, inr, append_assoc, append-nil, sym, subst, ap, ap₂, ◌∙◌, ◌⊎◌,
}
use karg.Circular.{Holds}
use karg.Log.{Log, slice, flush}
use karg.Log.Buffer.{Represents}

Holds-next :
    (buf : ℕ → ℕ) (h : ℕ) (xs : List ℕ)
    → Holds 4096 buf ((h + 1) % 4096) xs
    → h + 1 + length xs ≤ 4096
    → Holds 4096 buf (h + 1) xs
Holds-next buf h [] p b = tt
Holds-next buf h (x ∷ xs) p b = subst (λ i. Holds 4096 buf i (x ∷ xs)) (omega arith) p

-- Up to the end of the array the bytes stand in a row.
slice-row :
    (buf : ℕ → ℕ) (h n r j : ℕ) (xs : List ℕ)
    → Holds 4096 buf h xs
    → h + length xs ≤ 4096
    → n ≡ length xs + r
    → j ≡ h + length xs
    → slice buf h n ≡ xs ++ slice buf j r
slice-row buf h n r j [] p b e f = ap₂ (slice buf) (omega arith) (omega arith)
slice-row buf h zero r j (x ∷ xs) p b e f = absurd (omega arith)
slice-row buf h (suc n) r j (x ∷ xs) p b e f = ap₂ ◌∷◌ p.0 (
    slice-row buf (h + 1) n r j xs (Holds-next buf h xs p.1 (omega arith)) (omega arith)
      (omega arith) (omega arith))

-- Bytes that go round the end of the array are the rest of it and then its first ones.
slice-round :
    (buf : ℕ → ℕ) (h n r : ℕ) (xs : List ℕ)
    → Holds 4096 buf h xs
    → h + suc n ≡ 4096
    → r ≤ 4096
    → length xs ≡ suc n + r
    → slice buf h (suc n) ++ slice buf 0 r ≡ xs
slice-round buf h n r [] p e m l = absurd (omega arith)
slice-round buf h zero r (x ∷ xs) p e m l = ap₂ ◌∷◌ p.0 (
    slice-row buf 0 r 0 (length xs) xs (subst (λ i. Holds 4096 buf i xs) (omega arith) p.1)
      (omega arith) (omega arith) (omega arith)
    ∙ append-nil xs)
slice-round buf h (suc n) r (x ∷ xs) p e m l = ap₂ ◌∷◌ p.0 (
    slice-round buf (h + 1) n r xs (subst (λ i. Holds 4096 buf i xs) (omega arith) p.1)
      (omega arith) m (omega arith))

-- `flush` gives the terminal the bytes that the buffer holds, in their order, when these go round
-- the end of the array. When they do not, it also gives what stands behind them, to the end of the
-- array, although that was never logged or has been given up.
pub flush-contents :
    (s : Log) (xs : List ℕ)
    → Represents s xs
    → ((s.log_tail < s.log_head) × ((flush s).out ≡ s.out ++ xs))
      ⊎ ((s.log_head ≤ s.log_tail)
          × ((flush s).out ≡ s.out ++ xs ++ slice s.log_buf s.log_tail (4096 - s.log_tail)))
unfolding flush
flush-contents s xs v = elim (Bool-cases (ltb s.log_tail s.log_head)) [
  | inl c ↦ inl (
    ground arith,
    rw c (
        append_assoc s.out (slice s.log_buf s.log_head (4096 - s.log_head))
          (slice s.log_buf 0 s.log_tail)
        ∙ ap (λ ys. s.out ++ ys)
            (subst (λ n. slice s.log_buf s.log_head n ++ slice s.log_buf 0 s.log_tail ≡ xs)
              {x = suc (4095 - s.log_head)} (omega (arith, v.head_in))
              (slice-round s.log_buf s.log_head (4095 - s.log_head) s.log_tail xs v.bytes
                (omega (arith, v.head_in)) (ground (arith, v.head_in))
                (ground (arith, v.head_in, v.tail, v.fits))))),
  )
  | inr c ↦ inr (
    ground arith,
    rw c (
        ap (λ ys. s.out ++ ys)
          (slice-row s.log_buf s.log_head (4096 - s.log_head) (4096 - s.log_tail) s.log_tail xs
            v.bytes (ground (arith, v.head_in, v.tail, v.fits))
            (ground (arith, v.head_in, v.tail, v.fits)) (ground (arith, v.head_in, v.tail, v.fits)))
        ∙ sym (append_assoc s.out xs (slice s.log_buf s.log_tail (4096 - s.log_tail)))),
  )
]
