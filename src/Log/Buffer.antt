-- ===== src/Log/Buffer.antt =====
-- What stands in the log buffer: the newest 4095 bytes.
use karg.Base.{
  ℕ, zero, suc, ◌+◌, ◌-◌, ◌%◌, ◌<◌, ◌≤◌, ◌≡◌, refl, true, false, List, [], ◌∷◌, ◌++◌, ◌==◌, ltb,
  if◌then◌else◌, length, length-append, drop, arith, Bool-cases, inl, inr, append_assoc, append-nil,
  sym, subst, ap, ◌∙◌,
}
use karg.Circular.{write_byte, Holds, Holds-append, Holds-write}
use karg.Log.{Log, log_byte, log_bytes, write}

-- The buffer holds the bytes of the list, oldest first.
pub record Represents (s : Log) (xs : List ℕ) : Type 0 where
  pub head_in : s.log_head < 4096
  pub bytes : Holds 4096 s.log_buf s.log_head xs
  pub tail : s.log_tail ≡ (s.log_head + length xs) % 4096
  pub fits : length xs ≤ 4095

-- A new byte goes behind the others; when 4095 stand there, the oldest is given up.
abbrev pub logged : ℕ → List ℕ → List ℕ
logged b [] = b ∷ []
logged b (x ∷ xs) = if ltb (suc (length xs)) 4095 then x ∷ xs ++ b ∷ [] else xs ++ b ∷ []

Holds-new :
    (s : Log) (xs : List ℕ) (b : ℕ)
    → Represents s xs
    → Holds 4096 (write_byte s.log_buf s.log_tail b) s.log_head (xs ++ b ∷ [])
Holds-new s xs b v =
    Holds-append 4096 (write_byte s.log_buf s.log_tail b) s.log_head xs (b ∷ []) v.head_in
      (Holds-write 4096 s.log_buf s.log_head s.log_tail b (length xs) xs v.head_in (omega arith)
        (omega (arith, v.fits)) v.tail v.bytes)
      (ground (arith, v.tail), tt)

-- The tail meets the head exactly when 4095 bytes stood in the buffer.
meets :
    (s : Log) (xs : List ℕ)
    → Represents s xs
    → ((s.log_tail + 1) % 4096 == s.log_head) ≡ (if ltb (length xs) 4095 then false else true)
meets s xs v = ground (arith, v.tail, v.head_in, v.fits)

log_byte-Represents :
    (s : Log) (xs : List ℕ) (b : ℕ) → Represents s xs → Represents (log_byte b s) (logged b xs)
unfolding log_byte
log_byte-Represents s [] b v = rw (meets s [] v) (record {
  head_in = v.head_in;
  bytes = Holds-new s [] b v;
  tail = ground (arith, v.head_in, v.tail);
  fits = omega arith;
})
log_byte-Represents s (x ∷ xs) b v = elim (Bool-cases (ltb (suc (length xs)) 4095)) [
  | inl c ↦
      rw (meets s (x ∷ xs) v, c)
        (record {
          head_in = v.head_in;
          bytes = Holds-new s (x ∷ xs) b v;
          tail = ground (arith, v.head_in, v.tail, length-append xs (b ∷ []));
          fits = ground (arith, c, length-append xs (b ∷ []));
        })
  | inr c ↦
      rw (meets s (x ∷ xs) v, c)
        (record {
          head_in = omega arith;
          bytes = (Holds-new s (x ∷ xs) b v).1;
          tail = ground (arith, v.head_in, v.tail, length-append xs (b ∷ []));
          fits = ground (arith, v.fits, length-append xs (b ∷ []));
        })
]

-- The last 4095 bytes of a sequence.
abbrev pub newest : List ℕ → List ℕ
newest ys = drop (length ys - 4095) ys

drop-append : (k : ℕ) (ys zs : List ℕ) → k ≤ length ys → drop k (ys ++ zs) ≡ drop k ys ++ zs
drop-append zero ys zs h = refl
drop-append (suc k) [] zs h = absurd (omega arith)
drop-append (suc k) (y ∷ ys) zs h = drop-append k ys zs (omega arith)

drop_one : (k : ℕ) (ys : List ℕ) → drop 1 (drop k ys) ≡ drop (suc k) ys
drop_one zero [] = refl
drop_one zero (y ∷ ys) = refl
drop_one (suc k) [] = refl
drop_one (suc k) (y ∷ ys) = drop_one k ys

length-drop : (k : ℕ) (ys : List ℕ) → length (drop k ys) ≡ length ys - k
length-drop zero ys = omega arith
length-drop (suc k) [] = omega arith
length-drop (suc k) (y ∷ ys) = omega (arith, length-drop k ys)

logged-full : (b : ℕ) (xs : List ℕ) → length xs ≡ 4095 → logged b xs ≡ drop 1 xs ++ b ∷ []
logged-full b [] e = absurd (omega arith)
logged-full b (x ∷ xs) e = ground arith

logged-free : (b : ℕ) (xs : List ℕ) → length xs < 4095 → logged b xs ≡ xs ++ b ∷ []
logged-free b [] e = refl
logged-free b (x ∷ xs) e = ground arith

logged-newest : (b : ℕ) (ys : List ℕ) → logged b (newest ys) ≡ newest (ys ++ b ∷ [])
logged-newest b ys = elim (Bool-cases (ltb (length ys) 4095)) [
  | inl c ↦
      let k : length ys - 4095 ≡ 0 = ground arith in
      let k' : length (ys ++ b ∷ []) - 4095 ≡ 0 = ground (arith, length-append ys (b ∷ [])) in
      rw (k, k') (logged-free b ys (ground arith))
  | inr c ↦
      let n : length ys - 4095 ≤ length ys = omega arith in
      let k' : length (ys ++ b ∷ []) - 4095 ≡ suc (length ys - 4095) =
        ground (arith, length-append ys (b ∷ [])) in
      rw k' (
        logged-full b (newest ys) (ground (arith, length-drop (length ys - 4095) ys))
        ∙ ap (λ xs. xs ++ b ∷ []) (drop_one (length ys - 4095) ys)
        ∙ sym (drop-append (suc (length ys - 4095)) ys (b ∷ []) (ground arith)))
]

log_bytes-Represents :
    (bs : List ℕ) (s : Log) (ys : List ℕ)
    → Represents s (newest ys)
    → Represents (log_bytes bs s) (newest (ys ++ bs))
unfolding log_bytes
log_bytes-Represents [] s ys v = rw append-nil v
log_bytes-Represents (b ∷ bs) s ys v =
    subst (λ zs. Represents (log_bytes bs (log_byte b s)) (newest zs)) (append_assoc ys (b ∷ []) bs)
      (log_bytes-Represents bs (log_byte b s) (ys ++ b ∷ []) (
        subst (Represents (log_byte b s)) (logged-newest b ys)
          (log_byte-Represents s (newest ys) b v)))

write-buffered : (bs : List ℕ) (s : Log) → s.inited ≡ false → write bs s ≡ log_bytes bs s
unfolding write
write-buffered bs s e = ground (arith, e)

-- Before the log is initialised, the buffer holds the last 4095 bytes of all that was written: if
-- it held those of `ys` it holds those of `ys ++ bs` after `write` of `bs`, in their order.
pub write-newest :
    (bs : List ℕ) (s : Log) (ys : List ℕ)
    → s.inited ≡ false
    → Represents s (newest ys)
    → Represents (write bs s) (newest (ys ++ bs))
write-newest bs s ys e v =
    subst (λ z. Represents z (newest (ys ++ bs))) (sym (write-buffered bs s e))
      (log_bytes-Represents bs s ys v)
