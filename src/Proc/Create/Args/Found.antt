-- ===== src/Proc/Create/Args/Found.antt =====
-- What `init_stacks` leaves for the new process.
use karg.Base.{
  ==_refl, ◌↔◌, ℕ, suc, ◌+◌, ◌-◌, ◌*◌, ◌^◌, ◌%◌, ◌≢◌, pos, ◌≤◌, ◌<◌, ◌≡◌, refl, sym, ◌∙◌, ap, subst,
  List, [], ◌∷◌, length, map, arith,
}
use karg.PageAlloc.{page_size, page_alloc}
use karg.Kernel.{Kernel, null}
use karg.Proc.Create.{sub_usize, push_strings, fill_frame, init_stacks}
use karg.Proc.Create.Args.{store_le, put_args, fill_args}
use karg.Proc.Create.Args.Stored.{HoldAll, HasArgs, AreOutside, room, str_len-length}
use karg.Utils.{mem_copy, str_len}
use karg.Proc.Create.Args.Filled.{fill_args-HasArgs, fill_args-below}

-- The stack pointer is that of `init_stacks`, whatever fits.
put_args-push_strings :
    (args : List (ℕ × List ℕ)) (slot usp : ℕ) (m : ℕ → ℕ)
    → (put_args slot usp args m).0 ≡ push_strings usp (map (λ a. a.1) args)
unfolding put_args push_strings
put_args-push_strings [] slot usp m = refl
put_args-push_strings ((arg, s) ∷ args) slot usp m =
    let low = sub_usize usp (str_len s + 1) in
    put_args-push_strings args (slot + 8) low
      (mem_copy low arg (str_len s + 1) (store_le 8 slot low m))
    ∙ ap (λ n. push_strings (sub_usize usp (n + 1)) (map (λ a. a.1) args)) (str_len-length s)

fill_args-push_strings :
    (user_stack : ℕ) (args : List (ℕ × List ℕ)) (m : ℕ → ℕ)
    → (fill_args user_stack args m).0
      ≡ push_strings
          (sub_usize (user_stack + page_size) ((length args + 1) * 8))
          (map (λ a. a.1) args)
unfolding fill_args
fill_args-push_strings user_stack args m =
    put_args-push_strings args (sub_usize (user_stack + page_size) ((length args + 1) * 8))
      (sub_usize (user_stack + page_size) ((length args + 1) * 8)) _

length-map : (args : List (ℕ × List ℕ)) → length (map (λ a. a.1) args) ≡ length args
length-map [] = refl
length-map (a ∷ args) = ap suc (length-map args)

-- What `init_stacks` puts in the frame, with both pages given.
init_stacks-frame :
    (p entry : ℕ) (argv : List (List ℕ)) (sstatus : ℕ) (k : Kernel) (kern user : ℕ) (free : List ℕ)
    → k.mm.free ≡ kern ∷ user ∷ free
    → kern ≢ null
    → user ≢ null
    → let (res, k') = init_stacks p entry argv sstatus k in
      let new_argv = sub_usize (user + page_size) ((length argv + 1) * 8) in
      (res ≡ pos 0)
      × ((k'.procs p).user_stack ≡ user)
      × ((k'.procs p).frame.argc ≡ length argv)
      × ((k'.procs p).frame.argv ≡ new_argv)
      × ((k'.procs p).frame.usp ≡ push_strings new_argv argv - push_strings new_argv argv % 16)
unfolding init_stacks fill_frame page_alloc
init_stacks-frame p entry argv sstatus k kern user free e n o = ground (arith, e, n, o, ==_refl p)

-- What a new process finds. If two pages are free, the second of them becomes its user stack, and if the
-- strings and pointers fit there and no string overlaps it, then `init_stacks` succeeds and the
-- first two registers of the process are the number of the arguments and the address of pointers to copies of
-- them, in order, with a null pointer behind; its stack pointer is the end of what was written, rounded down to a multiple of 16.
pub init_stacks-HasArgs :
    (p entry : ℕ) (args : List (ℕ × List ℕ)) (sstatus : ℕ) (k : Kernel) (kern user : ℕ)
    (free : List ℕ) (m : ℕ → ℕ)
    → k.mm.free ≡ kern ∷ user ∷ free
    → kern ≢ null
    → user ≢ null
    → room args + (length args + 1) * 8 ≤ page_size
    → user + page_size < 2 ^ 64
    → AreOutside user (user + page_size) args
    → HoldAll m args
    → let (res, k') = init_stacks p entry (map (λ a. a.1) args) sstatus k in
      let frame = (k'.procs p).frame in
      let (usp, m') = fill_args user args m in
      (res ≡ pos 0)
      × ((k'.procs p).user_stack ≡ user)
      × (frame.argc ≡ length args)
      × HasArgs m' frame.argv args
      × (frame.usp ≡ usp - usp % 16)
init_stacks-HasArgs p entry args sstatus k kern user free m e n o f w out h =
    let argv = map (λ a. a.1) args in
    let (done, stack, argc, argv_is, usp) =
      init_stacks-frame p entry argv sstatus k kern user free e n o in
    let new_argv = user + page_size - (length args + 1) * 8 in
    let is : sub_usize (user + page_size) ((length argv + 1) * 8) ≡ new_argv =
      omega (arith, length-map args) in
    let (found, _, end, _) = fill_args-HasArgs user args m f w out h in
    let usp_is : push_strings (sub_usize (user + page_size) ((length argv + 1) * 8)) argv
        ≡ (fill_args user args m).0 =
      ap (λ n. push_strings (sub_usize (user + page_size) ((n + 1) * 8)) argv) (length-map args)
      ∙ sym (fill_args-push_strings user args m) in
    (
      done,
      stack,
      argc ∙ length-map args,
      subst (λ a. HasArgs (fill_args user args m).1 a args) (sym (argv_is ∙ is)) found,
      usp ∙ ap (λ x. x - x % 16) usp_is,
    )

-- There is no test that the arguments fit. If two pages are free and the strings and pointers need no
-- more than there is memory below the end of the user stack, the stack pointer in the frame from which
-- the process starts is in the user stack's page exactly if strings and pointers fit there; otherwise it is below.
pub init_stacks-below :
    (p entry : ℕ) (args : List (ℕ × List ℕ)) (sstatus : ℕ) (k : Kernel) (kern user : ℕ)
    (free : List ℕ)
    → k.mm.free ≡ kern ∷ user ∷ free
    → kern ≢ null
    → user ≢ null
    → user % page_size ≡ 0
    → user + page_size < 2 ^ 64
    → room args + (length args + 1) * 8 ≤ user + page_size
    → let (res, k') = init_stacks p entry (map (λ a. a.1) args) sstatus k in
      ((k'.procs p).user_stack ≡ user)
      × ((user ≤ (k'.procs p).frame.usp) ↔ (room args + (length args + 1) * 8 ≤ page_size))
init_stacks-below p entry args sstatus k kern user free e n o al w f =
    let argv = map (λ a. a.1) args in
    let (_, stack, _, _, usp) = init_stacks-frame p entry argv sstatus k kern user free e n o in
    let low = (fill_args user args (λ _. 0)).0 in
    let usp_is : push_strings (sub_usize (user + page_size) ((length argv + 1) * 8)) argv ≡ low =
      ap (λ n. push_strings (sub_usize (user + page_size) ((n + 1) * 8)) argv) (length-map args)
      ∙ sym (fill_args-push_strings user args (λ _. 0)) in
    let below = fill_args-below user args (λ _. 0) w f in
    (stack, rw usp (rw usp_is (ground (arith, below, al))))
