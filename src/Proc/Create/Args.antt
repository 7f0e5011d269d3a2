-- ===== src/Proc/Create/Args.antt =====
-- What `init_stacks` of src/proc.c writes on the user stack: the pointers `new_argv`, and below them the
-- strings. An argument is the address of a string and the string, and memory is the byte at each
-- address.
pub mod Stored
pub mod Filled
pub mod Found
use karg.Base.{ℕ, zero, suc, ◌+◌, ◌*◌, ◌/◌, ◌%◌, ◌^◌, List, [], ◌∷◌, length}
use karg.Kernel.{put}
use karg.PageAlloc.{page_size}
use karg.Proc.Create.{sub_usize}
use karg.Utils.{mem_copy, str_len}

-- A number in `n` bytes, the lowest first.
pub store_le : (n a v : ℕ) → (ℕ → ℕ) → ℕ → ℕ
store_le zero a v m = m
store_le (suc n) a v m = store_le n (a + 1) (v / 2 ^ 8) (put m a (v % 2 ^ 8))

-- The loop, with the address of `new_argv[i]`: each string is copied below the last, with its
-- terminator, and its pointer is written first.
pub put_args : (slot usp : ℕ) → List (ℕ × List ℕ) → (ℕ → ℕ) → ℕ × (ℕ → ℕ)
unfolding store_le
put_args slot usp [] m = (usp, m)
put_args slot usp ((arg, s) ∷ args) m =
    let len = str_len s in
    let low = sub_usize usp (len + 1) in
    put_args (slot + 8) low args (mem_copy low arg (len + 1) (store_le 8 slot low m))

-- The room for the pointers, the null pointer behind the last, and the loop.
pub fill_args : (user_stack : ℕ) → List (ℕ × List ℕ) → (ℕ → ℕ) → ℕ × (ℕ → ℕ)
unfolding put_args
fill_args user_stack args m =
    let argc = length args in
    let new_argv = sub_usize (user_stack + page_size) ((argc + 1) * 8) in
    put_args new_argv new_argv args (store_le 8 (new_argv + argc * 8) 0 m)
