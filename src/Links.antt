-- ===== src/Links.antt =====
-- include/list.h: circular doubly linked lists whose nodes stand inside the objects that they link.
-- Memory is the two pointers of the node at each address. A function that writes returns the new
-- memory. `Links.Ring` says which sequence a head stands for, and the modules below it prove that
-- the pointer code does to that sequence what the other components' models do to a list.
pub mod Ring
pub mod Insert
pub mod Remove
pub mod Loop
use karg.Base.{
  ℕ, zero, suc, ◌+◌, ◌-◌, ◌%◌, ◌^◌, Bool, Option, none, some, ◌>>=◌, List, [], ◌∷◌, ◌==◌,
  if◌then◌else◌,
}

pub record Memory : Type 0 where
  pub prev : ℕ → ℕ
  pub next : ℕ → ℕ

abbrev pub update : (ℕ → ℕ) → ℕ → ℕ → ℕ → ℕ
update f p v q = if q == p then v else f q

-- `p->prev = v`
abbrev pub set_prev : Memory → ℕ → ℕ → Memory
set_prev m p v = record m { prev = update m.prev p v }

-- `p->next = v`
abbrev pub set_next : Memory → ℕ → ℕ → Memory
set_next m p v = record m { next = update m.next p v }

pub list_init_head : Memory → ℕ → Memory
list_init_head m head = set_next (set_prev m head head) head head

pub list_front : Memory → ℕ → ℕ
list_front m head = m.next head

pub list_back : Memory → ℕ → ℕ
list_back m head = m.prev head

pub list_empty : Memory → ℕ → Bool
unfolding list_front
list_empty m head = head == list_front m head

pub list_is_front : Memory → ℕ → ℕ → Bool
list_is_front m head node = m.next head == node

pub list_is_back : Memory → ℕ → ℕ → Bool
list_is_back m head node = m.prev head == node

-- The four assignments in their order, each reading the memory that the last one left.
pub list_insert : Memory → ℕ → ℕ → Memory
list_insert m pos node =
    let m₁ = set_next m (m.prev pos) node in
    let m₂ = set_prev m₁ node (m₁.prev pos) in let m₃ = set_next m₂ node pos in set_prev m₃ pos node

pub list_push_front : Memory → ℕ → ℕ → Memory
list_push_front m head node = list_insert m (list_front m head) node

pub list_push_back : Memory → ℕ → ℕ → Memory
list_push_back m head node = list_insert m head node

pub list_remove : Memory → ℕ → Memory
list_remove m node =
    let m₁ = set_next m (m.prev node) (m.next node) in set_prev m₁ (m₁.next node) (m₁.prev node)

pub list_remove_init : Memory → ℕ → Memory
list_remove_init m node = let m₁ = list_remove m node in set_next (set_prev m₁ node node) node node

pub list_pop_front : Memory → ℕ → Memory
list_pop_front m head = list_remove m (list_front m head)

pub list_pop_back : Memory → ℕ → Memory
list_pop_back m head = list_remove m (list_back m head)

-- The object in which `node` is the member at `offset`, and the node in it; pointers are 64 bits wide.
abbrev pub list_entry : (node offset : ℕ) → ℕ
list_entry node offset = (node + 2 ^ 64 - offset) % 2 ^ 64

abbrev pub list_first_entry : Memory → (head offset : ℕ) → ℕ
list_first_entry m head offset = list_entry (m.next head) offset

abbrev pub list_last_entry : Memory → (head offset : ℕ) → ℕ
list_last_entry m head offset = list_entry (m.prev head) offset

-- `&entry->member`
abbrev pub member : (entry offset : ℕ) → ℕ
member entry offset = (entry + offset) % 2 ^ 64

-- The nodes that the loop `list_for_each` visits from `node` on, if its body changes nothing, and the
-- entries that `list_for_each_entry` visits from `entry` on. On fuel: a round each.
for_each_from : ℕ → Memory → (head node : ℕ) → Option (List ℕ)
for_each_from zero m head node = none
for_each_from (suc fuel) m head node =
    let rest = for_each_from fuel m head (m.next node) in
    if node == head then some [] else (do nodes ← rest; some (node ∷ nodes))

for_each_entry_from : ℕ → Memory → (head offset entry : ℕ) → Option (List ℕ)
for_each_entry_from zero m head offset entry = none
for_each_entry_from (suc fuel) m head offset entry =
    let node = member entry offset in
    let rest = for_each_entry_from fuel m head offset (list_entry (m.next node) offset) in
    if node == head then some [] else (do entries ← rest; some (entry ∷ entries))

pub list_for_each : ℕ → Memory → ℕ → Option (List ℕ)
unfolding for_each_from
list_for_each fuel m head = for_each_from fuel m head (m.next head)

pub list_for_each_entry : ℕ → Memory → (head offset : ℕ) → Option (List ℕ)
unfolding for_each_entry_from
list_for_each_entry fuel m head offset =
    for_each_entry_from fuel m head offset (list_first_entry m head offset)
