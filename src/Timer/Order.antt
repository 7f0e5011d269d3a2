-- ===== src/Timer/Order.antt =====
-- The timer queue is kept in the order of the deadlines, with the hardware set to the first.
use karg.Base.{
  ℕ, ◌≤◌, ◌≡◌, refl, true, false, ◌||◌, some, List, [], ◌∷◌, arith, ◌==◌, if◌then◌else◌,
}
use karg.Timer.{
  Timer, Timers, Callback, queued, unqueue, front_time, deadline, place, is_front, timer_wait,
  timer_cancel, take_first, timer_isr,
}

-- Every entry is due at `n` or later.
abbrev pub From : ℕ → List Timer → Type 0
From n [] = Unit
From n (t ∷ ts) = (n ≤ t.time) × From n ts

abbrev pub IsSorted : List Timer → Type 0
IsSorted [] = Unit
IsSorted (t ∷ ts) = From t.time ts × IsSorted ts

-- No node is linked twice.
abbrev pub HasDistinct : List Timer → Type 0
HasDistinct [] = Unit
HasDistinct (t ∷ ts) = (queued t.node ts ≡ false) × HasDistinct ts

pub record IsValid (s : Timers) : Type 0 where
  pub sorted : IsSorted s.wait_queue
  pub distinct : HasDistinct s.wait_queue
  pub programmed : s.armed ≡ front_time s.wait_queue

From-mono : (m n : ℕ) (ts : List Timer) → m ≤ n → From n ts → From m ts
From-mono m n [] h f = tt
From-mono m n (t ∷ ts) h f = (omega arith, From-mono m n ts h f.1)

From-place : (n : ℕ) (t : Timer) (ts : List Timer) → n ≤ t.time → From n ts → From n (place t ts)
unfolding place
From-place n t [] h f = (h, tt)
From-place n t (e ∷ es) h f = ground (arith, From-place n t es h f.1)

IsSorted-place : (t : Timer) (ts : List Timer) → IsSorted ts → IsSorted (place t ts)
unfolding place
IsSorted-place t [] s = (tt, tt)
IsSorted-place t (e ∷ es) s =
    ground (arith, IsSorted-place t es s.1, From-place e.time t es, From-mono t.time e.time es)

pub queued-place :
    (n : ℕ) (t : Timer) (ts : List Timer) → queued n (place t ts) ≡ ((n == t.node) || queued n ts)
unfolding place
queued-place n t [] = refl
queued-place n t (e ∷ es) = ground (arith, queued-place n t es)

HasDistinct-place :
    (t : Timer) (ts : List Timer)
    → HasDistinct ts
    → queued t.node ts ≡ false
    → HasDistinct (place t ts)
unfolding place
HasDistinct-place t [] d f = (f, tt)
HasDistinct-place t (e ∷ es) d f =
    ground (arith, HasDistinct-place t es d.1, queued-place e.node t es)

-- The front is the new entry, or what it was.
place-front :
    (t : Timer) (ts : List Timer)
    → queued t.node ts ≡ false
    → front_time (place t ts) ≡ (if is_front t.node (place t ts) then t.time else front_time ts)
unfolding place
place-front t [] f = ground arith
place-front t (e ∷ es) f = ground arith

From-unqueue : (n m : ℕ) (ts : List Timer) → From n ts → From n (unqueue m ts)
From-unqueue n m [] f = tt
From-unqueue n m (t ∷ ts) f = ground (arith, From-unqueue n m ts f.1)

queued-unqueue : (n m : ℕ) (ts : List Timer) → queued n ts ≡ false → queued n (unqueue m ts) ≡ false
queued-unqueue n m [] f = refl
queued-unqueue n m (t ∷ ts) f = ground (arith, queued-unqueue n m ts)

IsSorted-unqueue : (m : ℕ) (ts : List Timer) → IsSorted ts → IsSorted (unqueue m ts)
IsSorted-unqueue m [] s = tt
IsSorted-unqueue m (t ∷ ts) s =
    ground (arith, IsSorted-unqueue m ts s.1, From-unqueue t.time m ts s.0)

HasDistinct-unqueue : (m : ℕ) (ts : List Timer) → HasDistinct ts → HasDistinct (unqueue m ts)
HasDistinct-unqueue m [] d = tt
HasDistinct-unqueue m (t ∷ ts) d =
    ground (arith, HasDistinct-unqueue m ts d.1, queued-unqueue t.node m ts d.0)

pub unqueue-gone : (m : ℕ) (ts : List Timer) → HasDistinct ts → queued m (unqueue m ts) ≡ false
unqueue-gone m [] d = refl
unqueue-gone m (t ∷ ts) d = ground (arith, unqueue-gone m ts d.1)

-- The queue after `timer_wait`.
pub timer_wait-placed :
    (node ns : ℕ) (cb : Callback) (arg now : ℕ) (s : Timers)
    → IsValid s
    → queued node s.wait_queue ≡ false
    → let t : Timer = record { node = node; time = deadline now ns; callback = cb; arg = arg } in
      let q = place t s.wait_queue in
      let s' : Timers = record { wait_queue = q; armed = front_time q } in
      (timer_wait node ns cb arg now s ≡ some s') × IsValid s'
unfolding timer_wait
timer_wait-placed node ns cb arg now s v f =
    let t : Timer = record { node = node; time = deadline now ns; callback = cb; arg = arg } in
    (
      ground (arith, place-front t s.wait_queue, v.programmed),
      record {
        sorted = IsSorted-place t s.wait_queue v.sorted;
        distinct = HasDistinct-place t s.wait_queue v.distinct f;
        programmed = refl;
      },
    )

-- `timer_wait` of a timer that does not wait already succeeds, keeps the queue in the order of the
-- deadlines, links the node, and leaves the hardware set to the first deadline.
pub timer_wait-IsValid :
    (node ns : ℕ) (cb : Callback) (arg now : ℕ) (s : Timers)
    → IsValid s
    → queued node s.wait_queue ≡ false
    → (s' : Timers) × (timer_wait node ns cb arg now s ≡ some s')
      × IsValid s'
      × (queued node s'.wait_queue ≡ true)
timer_wait-IsValid node ns cb arg now s v f =
    let t : Timer = record { node = node; time = deadline now ns; callback = cb; arg = arg } in
    let (e, valid) = timer_wait-placed node ns cb arg now s v f in
    (_, e, valid, ground (arith, queued-place node t s.wait_queue))

-- `timer_cancel` unlinks the node, whether it waited or not, and keeps the order and the hardware
-- deadline right.
pub timer_cancel-IsValid :
    (node : ℕ) (s : Timers)
    → IsValid s
    → IsValid (timer_cancel node s) × (queued node (timer_cancel node s).wait_queue ≡ false)
unfolding timer_cancel
timer_cancel-IsValid node s v = ground (
  arith,
  IsSorted-unqueue node s.wait_queue v.sorted,
  HasDistinct-unqueue node s.wait_queue v.distinct,
  unqueue-gone node s.wait_queue v.distinct,
)

-- `timer_isr` on a queue that is not empty takes out an entry that is due first of all, and keeps
-- the order and the hardware deadline right.
pub timer_isr-IsValid :
    (s : Timers) (t : Timer) (s' : Timers)
    → IsValid s
    → timer_isr s ≡ some (t, s')
    → IsValid s'
      × From t.time s'.wait_queue
      × (s.wait_queue ≡ t ∷ s'.wait_queue)
      × (s.armed ≡ t.time)
unfolding timer_isr
timer_isr-IsValid s t s' v e = isr s.wait_queue s.armed v.sorted v.distinct v.programmed e
  where
    isr :
        (q : List Timer) (armed : ℕ)
        → IsSorted q
        → HasDistinct q
        → armed ≡ front_time q
        → take_first q ≡ some (t, s')
        → IsValid s' × From t.time s'.wait_queue × (q ≡ t ∷ s'.wait_queue) × (armed ≡ t.time)
    isr [] armed so d p e = cc
    isr (x ∷ xs) armed so d p e = ground (arith, so, d, p, e)
