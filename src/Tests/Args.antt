-- ===== src/Tests/Args.antt =====
-- The arguments of a new process.
use karg.Base.{
  ℕ, ◌+◌, ◌-◌, ◌*◌, ◌%◌, ◌≤◌, ◌≡◌, ◌↔◌, refl, List, [], ◌∷◌, ◌==◌, if◌then◌else◌, arith, inl, pos,
  map, length, replicate,
}
use karg.Kernel.{Kernel}
use karg.PageAlloc.{page_size}
use karg.Proc.Create.{init_stacks}
use karg.Proc.Create.Args.{fill_args}
use karg.Proc.Create.Args.Stored.{HasArgs, Holds, HoldAll, AreOutside, room}
use karg.Proc.Create.Args.Found.{init_stacks-HasArgs, init_stacks-below}
use karg.Tests.{sample}

-- "hi" stands at 1000 and "a" at 2000.
abbrev memory : ℕ → ℕ
memory a = if a == 1000 then 104 else if a == 1001 then 105 else if a == 2000 then 97 else 0

abbrev args : List (ℕ × List ℕ)
args = (1000, 104 ∷ 105 ∷ []) ∷ (2000, 97 ∷ []) ∷ []

abbrev with_pages : Kernel
with_pages = record sample { mm = record sample.mm { free = 8192 ∷ 12288 ∷ [] } }

args-fit : room args + (length args + 1) * 8 ≤ page_size
unfolding room
args-fit = omega arith

args-AreOutside : AreOutside 12288 16384 args
unfolding AreOutside
args-AreOutside = (inl (omega arith), (inl (omega arith), tt))

args-HoldAll : HoldAll memory args
unfolding HoldAll Holds
args-HoldAll = ((refl, (refl, refl)), ((refl, refl), tt))

init_stacks-HasArgs_example :
    let (res, k') = init_stacks 200 4096 (map (λ a. a.1) args) 0 with_pages in
    let frame = (k'.procs 200).frame in
    let (usp, m') = fill_args 12288 args memory in
    (res ≡ pos 0)
    × ((k'.procs 200).user_stack ≡ 12288)
    × (frame.argc ≡ length args)
    × HasArgs m' frame.argv args
    × (frame.usp ≡ usp - usp % 16)
init_stacks-HasArgs_example =
    init_stacks-HasArgs 200 4096 args 0 with_pages 8192 12288 [] memory refl (ground arith)
      (ground arith) args-fit (omega arith) args-AreOutside args-HoldAll

-- A string of 5000 characters.
abbrev long : List (ℕ × List ℕ)
long = (20000, replicate 5000 97) ∷ []

long-room : room long ≡ 5001
unfolding room
long-room = refl

init_stacks-below_example :
    let (_, k') = init_stacks 200 4096 (map (λ a. a.1) long) 0 with_pages in
    ((k'.procs 200).user_stack ≡ 12288)
    × ((12288 ≤ (k'.procs 200).frame.usp) ↔ (room long + (length long + 1) * 8 ≤ page_size))
init_stacks-below_example =
    init_stacks-below 200 4096 long 0 with_pages 8192 12288 [] refl (ground arith) (ground arith)
      refl (omega arith) (omega (arith, long-room))
