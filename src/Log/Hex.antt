-- ===== src/Log/Hex.antt =====
-- `%p` prints an address so that it can be read back.
use karg.Base.{
  ℕ, zero, suc, ◌+◌, ◌-◌, ◌*◌, ◌/◌, ◌%◌, ◌^◌, ◌<◌, ◌≡◌, refl, List, [], ◌∷◌, ◌++◌, ltb,
  if◌then◌else◌, length, length-append, arith, ◌∙◌,
}
use native.Mathlib.Nat.{pow-suc}
use karg.Log.{hex_digit, hex_digits}

-- The value of a digit, and of a row of digits behind a value.
abbrev pub digit_value : ℕ → ℕ
digit_value c = if ltb c b'A' then c - b'0' else c - b'A' + 10

pub read_hex : ℕ → List ℕ → ℕ
read_hex acc [] = acc
read_hex acc (c ∷ cs) = read_hex (16 * acc + digit_value c) cs

read_hex-append :
    (acc : ℕ) (xs ys : List ℕ) → read_hex acc (xs ++ ys) ≡ read_hex (read_hex acc xs) ys
unfolding read_hex
read_hex-append acc [] ys = refl
read_hex-append acc (x ∷ xs) ys = read_hex-append (16 * acc + digit_value x) xs ys

digit_value-hex_digit : (n : ℕ) → n < 16 → digit_value (hex_digit n) ≡ n
digit_value-hex_digit n h = ground arith

hex_digits-read : (n addr : ℕ) → addr < 16 ^ n → read_hex 0 (hex_digits n addr) ≡ addr
unfolding hex_digits read_hex
hex_digits-read zero addr h = omega arith
hex_digits-read (suc n) addr h =
    let q : addr / 16 < 16 ^ n = omega (arith, pow-suc 16 n) in
    read_hex-append 0 (hex_digits n (addr / 16)) (hex_digit (addr % 16) ∷ [])
    ∙ omega (arith, hex_digits-read n (addr / 16) q, digit_value-hex_digit (addr % 16))

length-hex_digits : (n addr : ℕ) → length (hex_digits n addr) ≡ n
unfolding hex_digits
length-hex_digits zero addr = refl
length-hex_digits (suc n) addr = omega (
  arith,
  length-append (hex_digits n (addr / 16)) (hex_digit (addr % 16) ∷ []),
  length-hex_digits n (addr / 16),
)

-- A 64-bit address is printed as sixteen hexadecimal digits, which read back as that address.
pub hex_digits-roundtrip :
    (addr : ℕ)
    → addr < 2 ^ 64
    → (read_hex 0 (hex_digits 16 addr) ≡ addr) × (length (hex_digits 16 addr) ≡ 16)
hex_digits-roundtrip addr h = (hex_digits-read 16 addr h, length-hex_digits 16 addr)
