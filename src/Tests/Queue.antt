-- ===== src/Tests/Queue.antt =====
-- Linked lists and timers.
use karg.Base.{◌≡◌, refl, some, true, [], ◌∷◌, arith, ◌==◌, if◌then◌else◌}
use karg.Links.{Memory, list_insert, list_remove_init, list_empty}
use karg.Links.Ring.{IsRing}
use karg.Links.Insert.{list_insert-IsRing}
use karg.Links.Remove.{list_remove_init-IsRing}
use karg.Timer
use karg.Timer.{Timer, Timers, timer_wait, timer_isr, queued, front_time}

-- The head 1 and the nodes 2 and 3.
abbrev pub memory : Memory
memory = record {
  next = λ p. if p == 1 then 2 else if p == 2 then 3 else if p == 3 then 1 else 0;
  prev = λ p. if p == 1 then 3 else if p == 2 then 1 else if p == 3 then 2 else 0;
}

pub memory-IsRing : IsRing memory 1 (2 ∷ 3 ∷ [])
memory-IsRing = record { linked = ground arith; distinct = ground arith }

list_insert-IsRing_example : IsRing (list_insert memory 3 4) 1 (2 ∷ 4 ∷ 3 ∷ [])
list_insert-IsRing_example = list_insert-IsRing memory 1 (2 ∷ []) (3 ∷ []) 4 memory-IsRing refl

list_remove_init-IsRing_example :
    IsRing (list_remove_init memory 2) 1 (3 ∷ [])
    × IsRing (list_remove_init memory 2) 2 []
    × (list_empty (list_remove_init memory 2) 2 ≡ true)
list_remove_init-IsRing_example = list_remove_init-IsRing memory 1 [] 2 (3 ∷ []) memory-IsRing

abbrev first_timer : Timer
first_timer = record { node = 400; time = 90; callback = Timer.Callback.wakeup_proc; arg = 400 }

abbrev timers : Timers
timers = record { wait_queue = first_timer ∷ []; armed = 90 }

abbrev no_timers : Timers
no_timers = record { wait_queue = []; armed = front_time [] }

isr_result : timer_isr timers ≡ some (first_timer, no_timers)
unfolding timer_isr
isr_result = ground arith
