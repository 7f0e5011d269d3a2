-- ===== src/Errno.antt =====
-- include/errno.h and src/errno.c: the error numbers and their names. The constants that other
-- components return are declared one by one, and the `case` labels of `errno_name` are a table of
-- the values that the header gives them.
pub mod Names
use karg.Base.{ℕ, Option, none, some, List, [], ◌∷◌, ◌==◌, if◌then◌else◌}
use Prim.Native.String.{String}

abbrev pub eacces : ℕ
eacces = 13

abbrev pub eagain : ℕ
eagain = 11

abbrev pub ebadf : ℕ
ebadf = 9

abbrev pub echild : ℕ
echild = 10

abbrev pub efault : ℕ
efault = 14

abbrev pub einval : ℕ
einval = 22

abbrev pub enomem : ℕ
enomem = 12

abbrev pub enosys : ℕ
enosys = 88

abbrev pub enotsup : ℕ
enotsup = 134

abbrev pub enxio : ℕ
enxio = 6

abbrev pub eperm : ℕ
eperm = 1

-- The labels in the order of the `switch`, each with the text that `#errno` makes of it.
abbrev pub cases : List (ℕ × String)
cases =
    (7, "E2BIG")
    ∷ (13, "EACCES")
    ∷ (112, "EADDRINUSE")
    ∷ (125, "EADDRNOTAVAIL")
    ∷ (106, "EAFNOSUPPORT")
    ∷ (11, "EAGAIN")
    ∷ (120, "EALREADY")
    ∷ (9, "EBADF")
    ∷ (77, "EBADMSG")
    ∷ (16, "EBUSY")
    ∷ (140, "ECANCELED")
    ∷ (10, "ECHILD")
    ∷ (113, "ECONNABORTED")
    ∷ (111, "ECONNREFUSED")
    ∷ (104, "ECONNRESET")
    ∷ (45, "EDEADLK")
    ∷ (121, "EDESTADDRREQ")
    ∷ (33, "EDOM")
    ∷ (132, "EDQUOT")
    ∷ (17, "EEXIST")
    ∷ (14, "EFAULT")
    ∷ (27, "EFBIG")
    ∷ (118, "EHOSTUNREACH")
    ∷ (36, "EIDRM")
    ∷ (138, "EILSEQ")
    ∷ (119, "EINPROGRESS")
    ∷ (4, "EINTR")
    ∷ (22, "EINVAL")
    ∷ (5, "EIO")
    ∷ (127, "EISCONN")
    ∷ (21, "EISDIR")
    ∷ (92, "ELOOP")
    ∷ (24, "EMFILE")
    ∷ (31, "EMLINK")
    ∷ (122, "EMSGSIZE")
    ∷ (74, "EMULTIHOP")
    ∷ (91, "ENAMETOOLONG")
    ∷ (115, "ENETDOWN")
    ∷ (126, "ENETRESET")
    ∷ (114, "ENETUNREACH")
    ∷ (23, "ENFILE")
    ∷ (105, "ENOBUFS")
    ∷ (61, "ENODATA")
    ∷ (19, "ENODEV")
    ∷ (2, "ENOENT")
    ∷ (8, "ENOEXEC")
    ∷ (46, "ENOLCK")
    ∷ (67, "ENOLINK")
    ∷ (12, "ENOMEM")
    ∷ (35, "ENOMSG")
    ∷ (109, "ENOPROTOOPT")
    ∷ (28, "ENOSPC")
    ∷ (63, "ENOSR")
    ∷ (60, "ENOSTR")
    ∷ (88, "ENOSYS")
    ∷ (128, "ENOTCONN")
    ∷ (20, "ENOTDIR")
    ∷ (90, "ENOTEMPTY")
    ∷ (141, "ENOTRECOVERABLE")
    ∷ (108, "ENOTSOCK")
    ∷ (134, "ENOTSUP")
    ∷ (25, "ENOTTY")
    ∷ (6, "ENXIO")
    ∷ (95, "EOPNOTSUPP")
    ∷ (139, "EOVERFLOW")
    ∷ (142, "EOWNERDEAD")
    ∷ (1, "EPERM")
    ∷ (32, "EPIPE")
    ∷ (71, "EPROTO")
    ∷ (123, "EPROTONOSUPPORT")
    ∷ (107, "EPROTOTYPE")
    ∷ (34, "ERANGE")
    ∷ (30, "EROFS")
    ∷ (29, "ESPIPE")
    ∷ (3, "ESRCH")
    ∷ (133, "ESTALE")
    ∷ (62, "ETIME")
    ∷ (116, "ETIMEDOUT")
    ∷ (26, "ETXTBSY")
    ∷ (18, "EXDEV")
    ∷ []

abbrev pub find_case : ℕ → List (ℕ × String) → Option String
find_case n [] = none
find_case n ((v, s) ∷ cs) = if n == v then some s else find_case n cs

-- `nullptr` is `none`.
unfoldable pub errno_name : ℕ → Option String
errno_name n = find_case n cases
