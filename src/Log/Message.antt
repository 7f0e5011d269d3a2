-- ===== src/Log/Message.antt =====
-- The text of a message.
use karg.Base.{
  ℕ, ◌≡◌, refl, sym, ◌∙◌, ap, false, some, List, [], ◌∷◌, ◌++◌, append_assoc, append-nil, ◌==◌,
  arith,
}
use karg.Log.{
  debug, info, warning, error, critical, panic, Log, Severity, Arg, str, log_byte, log_bytes, write,
  kvprintf, conversion, severity_prefix, finish, klogf, log_as,
}

log_bytes-append :
    (xs ys : List ℕ) (s : Log) → log_bytes (xs ++ ys) s ≡ log_bytes ys (log_bytes xs s)
unfolding log_bytes
log_bytes-append [] ys s = refl
log_bytes-append (x ∷ xs) ys s = log_bytes-append xs ys _

log_bytes-inited : (xs : List ℕ) (s : Log) → (log_bytes xs s).inited ≡ s.inited
unfolding log_bytes log_byte
log_bytes-inited [] s = refl
log_bytes-inited (x ∷ xs) s = log_bytes-inited xs _

-- Two writes are one.
write-append : (xs ys : List ℕ) (s : Log) → write (xs ++ ys) s ≡ write ys (write xs s)
unfolding write
write-append xs ys s =
    ground (arith, append_assoc s.out xs ys, log_bytes-inited xs s, log_bytes-append xs ys s)

-- No byte of a format is a `%`.
abbrev pub IsPlain : List ℕ → Type 0
IsPlain [] = Unit
IsPlain (c ∷ cs) = ((c == b'%') ≡ false) × IsPlain cs

write-nil : (s : Log) → write [] s ≡ s
unfolding write log_bytes
write-nil s = ground (arith, append-nil s.out)

plain_byte :
    (c : ℕ) (rest : List ℕ) (args : List Arg) (s : Log)
    → (c == b'%') ≡ false
    → kvprintf (c ∷ rest) args s ≡ kvprintf rest args (write (c ∷ []) s)
unfolding kvprintf
plain_byte c [] args s h = rw h refl
plain_byte c (d ∷ rest) args s h = rw h refl

-- A plain format is written as it is, and what comes behind it is read in the same way.
plain :
    (fmt rest : List ℕ) (args : List Arg) (s : Log)
    → IsPlain fmt
    → kvprintf (fmt ++ rest) args s ≡ kvprintf rest args (write fmt s)
plain [] rest args s h = ap (kvprintf rest args) (sym (write-nil s))
plain (c ∷ fmt) rest args s h =
    plain_byte c (fmt ++ rest) args s h.0
    ∙ plain fmt rest args (write (c ∷ []) s) h.1
    ∙ ap (kvprintf rest args) (sym (write-append (c ∷ []) fmt s))

plain_all :
    (fmt : List ℕ) (args : List Arg) (s : Log)
    → IsPlain fmt
    → kvprintf fmt args s ≡ some (write fmt s)
unfolding kvprintf
plain_all fmt args s h = ap (λ f. kvprintf f args s) (sym (append-nil fmt)) ∙ plain fmt [] args s h

prefix-IsPlain : (severity : Severity) → IsPlain (severity_prefix severity)
prefix-IsPlain debug = ground arith
prefix-IsPlain info = ground arith
prefix-IsPlain warning = ground arith
prefix-IsPlain error = ground arith
prefix-IsPlain critical = ground arith
prefix-IsPlain panic = ground arith

line-IsPlain : (fmt : List ℕ) → IsPlain fmt → IsPlain (fmt ++ 10 ∷ [])
line-IsPlain [] h = (refl, tt)
line-IsPlain (c ∷ fmt) h = (h.0, line-IsPlain fmt h.1)

-- A `%s` writes its argument, and the rest of the format is read with the other arguments.
string_first :
    (name rest : List ℕ) (s : Log)
    → kvprintf (b'%' ∷ b's' ∷ rest) (str name ∷ []) s ≡ kvprintf rest [] (write name s)
unfolding kvprintf conversion
string_first name rest s = refl

-- A message without arguments, whose format has no directive, is one write of the line that it is: the
-- severity in colour and brackets, the name of the module, a colon, the text and the end of the line;
-- the machine hangs after it if it is a panic, with the log flushed.
pub log_as-text :
    (severity : Severity) (name fmt : List ℕ) (s : Log)
    → IsPlain fmt
    → log_as severity name fmt [] s
      ≡ some (
          finish severity
            (write (severity_prefix severity ++ name ++ (b':' ∷ b' ' ∷ fmt ++ 10 ∷ [])) s))
unfolding log_as klogf
log_as-text severity name fmt s h =
    let s₁ = write (severity_prefix severity) s in
    let text = fmt ++ 10 ∷ [] in
    let started : kvprintf (severity_prefix severity) [] s ≡ some s₁ =
      plain_all (severity_prefix severity) [] s (prefix-IsPlain severity) in
    let named = write name s₁ in
    let line : kvprintf (b':' ∷ b' ' ∷ text) [] named ≡ some (write (b':' ∷ b' ' ∷ text) named) =
      plain_all (b':' ∷ b' ' ∷ text) [] named (refl, (refl, line-IsPlain fmt h)) in
    let end = b':' ∷ b' ' ∷ text in
    let joined : write (severity_prefix severity ++ name ++ end) s ≡ write end named =
      write-append (severity_prefix severity ++ name) end s
      ∙ ap (write end) (write-append (severity_prefix severity) name s) in
    rw started (
      rw (string_first name (b':' ∷ b' ' ∷ text) s₁ ∙ line)
        (ap (λ w. some (finish severity w)) (sym joined)))
