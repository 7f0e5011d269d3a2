-- ===== src/Log.antt =====
-- src/module/log.c: the kernel log. Until the terminal is there, what is logged goes to a circular
-- buffer; then `init` flushes it. `out` is the sequence of the bytes given to `dev_write` for the
-- terminal. The argument list of a format is a list of strings and addresses; `none` is undefined
-- behaviour, an argument that is missing or of the other kind, or a format that ends in a `%`.
pub mod Buffer
pub mod Flush
pub mod Hex
pub mod Message
use karg.Base.{
  ℕ, zero, suc, ◌+◌, ◌-◌, ◌/◌, ◌%◌, Bool, true, false, Option, none, some, ◌>>=◌, List, [], ◌∷◌,
  ◌++◌, ◌==◌, ltb, if◌then◌else◌,
}
use karg.Circular.{write_byte}

abbrev pub log_buf_size : ℕ
log_buf_size = 4096

pub record Log : Type 0 where
  pub inited : Bool
  pub log_buf : ℕ → ℕ
  pub log_head : ℕ
  pub log_tail : ℕ
  pub out : List ℕ

-- One round of the loop in `write`.
pub log_byte : ℕ → Log → Log
log_byte b s =
    let tail = (s.log_tail + 1) % log_buf_size in
    record s {
      log_buf = write_byte s.log_buf s.log_tail b;
      log_tail = tail;
      log_head = if tail == s.log_head then (s.log_head + 1) % log_buf_size else s.log_head;
    }

pub log_bytes : List ℕ → Log → Log
log_bytes [] s = s
log_bytes (b ∷ bs) s = log_bytes bs (log_byte b s)

pub write : List ℕ → Log → Log
write str s = if s.inited then record s { out = s.out ++ str } else log_bytes str s

-- The bytes of the array from a place on.
abbrev pub slice : (ℕ → ℕ) → ℕ → ℕ → List ℕ
slice buf i zero = []
slice buf i (suc n) = buf i ∷ slice buf (i + 1) n

pub flush : Log → Log
flush s =
    let out = s.out ++ slice s.log_buf s.log_head (log_buf_size - s.log_head) in
    record s {
      out = if ltb s.log_tail s.log_head then out ++ slice s.log_buf 0 s.log_tail else out;
    }

-- The digit of a nibble.
abbrev pub hex_digit : ℕ → ℕ
hex_digit nibble = if ltb nibble 10 then nibble + b'0' else nibble - 10 + b'A'

-- The loop of `%p`: the lowest nibble is the last of the `n` digits.
pub hex_digits : ℕ → ℕ → List ℕ
hex_digits zero addr = []
hex_digits (suc n) addr = hex_digits n (addr / 16) ++ hex_digit (addr % 16) ∷ []

pub data Arg : Type 0 where
  str : List ℕ → Arg
  addr : ℕ → Arg

-- What stands behind a `%`; another letter prints nothing.
unfoldable pub conversion : ℕ → List Arg → Log → Option (List Arg × Log)
conversion c args s =
    if c == b's' then string args else if c == b'p' then pointer args else some (args, s)
  where
    string : List Arg → Option (List Arg × Log)
    string (str bs ∷ rest) = some (rest, write bs s)
    string _ = none

    pointer : List Arg → Option (List Arg × Log)
    pointer (addr a ∷ rest) = some (rest, write (hex_digits 16 a) s)
    pointer _ = none

unfoldable pub kvprintf : List ℕ → List Arg → Log → Option Log
unfolding conversion
kvprintf [] args s = some s
kvprintf (c ∷ []) args s = if c == b'%' then none else some (write (c ∷ []) s)
kvprintf (c ∷ d ∷ fmt) args s =
    let plain = kvprintf (d ∷ fmt) args (write (c ∷ []) s) in
    let directive = conversion d args s >>= λ (args', s'). kvprintf fmt args' s' in
    if c == b'%' then directive else plain

pub data Severity : Type 0 where
  debug info warning error critical panic : Severity

-- ESC [ colour m
abbrev pub prefix : List ℕ → List ℕ → List ℕ
prefix colour name =
    b'[' ∷ 27 ∷ b'[' ∷ colour ++ (b'm' ∷ name) ++ (27 ∷ b'[' ∷ b'0' ∷ b'm' ∷ b']' ∷ b' ' ∷ [])

abbrev pub severity_prefix : Severity → List ℕ
severity_prefix debug = prefix (b'3' ∷ b'6' ∷ []) (b'd' ∷ b'e' ∷ b'b' ∷ b'u' ∷ b'g' ∷ [])
severity_prefix info = prefix (b'3' ∷ b'2' ∷ []) (b'i' ∷ b'n' ∷ b'f' ∷ b'o' ∷ [])
severity_prefix warning =
    prefix (b'3' ∷ b'3' ∷ []) (b'w' ∷ b'a' ∷ b'r' ∷ b'n' ∷ b'i' ∷ b'n' ∷ b'g' ∷ [])
severity_prefix error = prefix (b'3' ∷ b'1' ∷ []) (b'e' ∷ b'r' ∷ b'r' ∷ b'o' ∷ b'r' ∷ [])
severity_prefix critical =
    prefix (b'4' ∷ b'3' ∷ []) (b'c' ∷ b'r' ∷ b'i' ∷ b't' ∷ b'i' ∷ b'c' ∷ b'a' ∷ b'l' ∷ [])
severity_prefix panic = prefix (b'4' ∷ b'1' ∷ []) (b'p' ∷ b'a' ∷ b'n' ∷ b'i' ∷ b'c' ∷ [])

-- What a call leaves: the log, or a machine that hangs with the log flushed.
pub data Logged : Type 0 where
  returned : Log → Logged
  hung : Log → Logged

unfoldable pub finish : Severity → Log → Logged
finish panic s = hung (flush s)
finish _ s = returned s

unfoldable pub klogf : Severity → List ℕ → List Arg → Log → Option Logged
unfolding finish
klogf severity fmt args s = do
  s₁ ← kvprintf (severity_prefix severity) [] s
  s₂ ← kvprintf fmt args s₁
  some (finish severity s₂)

-- `module_post_init(init)`
pub init : Log → Log
init s = record (flush s) { inited = true }

-- The macros `log_debug` to `log_panic`, one for each severity: the format is put between the name of
-- the module and the end of the line.
unfoldable pub log_as : Severity → (name fmt : List ℕ) → List Arg → Log → Option Logged
log_as severity name fmt args s =
    klogf severity (b'%' ∷ b's' ∷ b':' ∷ b' ' ∷ fmt ++ 10 ∷ []) (str name ∷ args) s
