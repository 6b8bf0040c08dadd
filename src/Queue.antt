-- ===== src/Queue.antt =====
-- queue.h: the waiting queues of mutexes and conditions, linked through p_nextwaiting;
-- condvar.c: remove_from_queue.
pub mod Laws
pub mod Removal
mod Tests
use read_linuxthreads.Prelude.{ℕ, zero, suc, Option, none, some, ◌==◌, if◌then◌else◌}
use read_linuxthreads.Memory.{Ptr, null, Process, set_nextwaiting}

pub record Queue : Type 0 where
  pub head : Ptr
  pub tail : Ptr

abbrev pub queue_init : Queue
queue_init = record { head = null; tail = null }

unfoldable pub enqueue : Queue → Ptr → Process → Queue × Process
enqueue q th s =
    if q.tail == null
    then (record { head = th; tail = th }, s)
    else (record q { tail = th }, set_nextwaiting q.tail th s)

-- The queue without its head: the assignments to `head` and `tail`.
pub advance : Queue → Ptr → Queue
advance q next = record { head = next; tail = if next == null then null else q.tail }

unfoldable pub dequeue : Queue → Process → Ptr × Queue × Process
unfolding advance
dequeue q s =
    if q.head == null
    then (null, q, s)
    else (q.head, advance q (s.desc q.head).p_nextwaiting, set_nextwaiting q.head null s)

-- The body of the loop at `t`, whose successor is `th`.
pub splice : Queue → Ptr → Ptr → Process → Queue × Process
splice q th t s =
    let after = (s.desc th).p_nextwaiting in
    (
      record q { tail = if after == null then t else q.tail },
      set_nextwaiting th null (set_nextwaiting t after s),
    )

-- The `for` loop from `t`; `none` means that the fuel ran out.
pub remove_loop : ℕ → Queue → Ptr → Ptr → Process → Option (Queue × Process)
unfolding splice
remove_loop zero q th t s = none
remove_loop (suc fuel) q th t s =
    let next = (s.desc t).p_nextwaiting in
    let rest = remove_loop fuel q th next s in
    if next == null then some (q, s) else if next == th then some (splice q th t s) else rest

unfoldable pub remove_from_queue : ℕ → Queue → Ptr → Process → Option (Queue × Process)
unfolding remove_loop advance
remove_from_queue fuel q th s =
    if q.head == null
    then some (q, s)
    else if q.head == th
    then some (advance q (s.desc th).p_nextwaiting, set_nextwaiting th null s)
    else remove_loop fuel q th q.head s
