-- ===== src/Atfork.antt =====
-- ptfork.c: the handlers that run around `fork`.
pub mod Order
pub mod Registered
pub mod Locked
mod Tests
use read_linuxthreads.Prelude.{
  ℕ, zero, suc, Bool, true, false, Option, none, some, List, [], ◌∷◌, ◌++◌, ◌==◌, if◌then◌else◌,
  update, map, option_map, option_bind,
}
use read_linuxthreads.Memory.{Ptr, null, Process, Errno, success, enomem}
use read_linuxthreads.Mutex
use read_linuxthreads.Mutex.{Mutex, mutex_lock, mutex_unlock, lift}
use read_linuxthreads.Run.{Run, done, M, ◌>>=◌, pure, get, modify, ◌>>◌}

-- One of the three lists. Its nodes are the members of the `handler_list_block`s, each named by the
-- address of its block, so the three lists share no node.
pub record HandlerList : Type 0 where
  pub head : Ptr
  pub handler : Ptr → ℕ
  pub next : Ptr → Ptr

pub record Lists : Type 0 where
  pub prepare : HandlerList
  pub parent : HandlerList
  pub child : HandlerList

pub record State : Type 0 where
  pub lists : Lists
  pub atfork_lock : Mutex
  pub process : Process

-- `list` points to the head, or to the `next` field of the node `t`.
pub data Place : Type 0 where
  at_head : Place
  behind : (t : Ptr) → Place

-- The `while` loop from the node `t`; `none` means that the fuel ran out.
pub find_end : ℕ → HandlerList → Ptr → Option Place
find_end zero l t = none
find_end (suc fuel) l t =
    let rest = find_end fuel l (l.next t) in if l.next t == null then some (behind t) else rest

-- The three assignments.
pub store_node : HandlerList → ℕ → Ptr → Place → HandlerList
store_node l handler new at_head = record l {
  head = new;
  handler = update l.handler new handler;
  next = update l.next new l.head;
}
store_node l handler new (behind t) = record l {
  handler = update l.handler new handler;
  next = update (update l.next new (l.next t)) t new;
}

-- Where the new node goes: the loop runs only at the end of a list that is not empty.
pub find_place : ℕ → HandlerList → Bool → Option Place
find_place fuel l at_end =
    let end = if l.head == null then some at_head else find_end fuel l l.head in
    if at_end then end else some at_head

pub insert_list : ℕ → HandlerList → ℕ → Ptr → Bool → Option HandlerList
insert_list fuel l handler new at_end =
    if handler == null
    then some l
    else option_map (store_node l handler new) (find_place fuel l at_end)

-- A call on `pthread_atfork_lock`.
abbrev on_lock : {A : Type 0} → M Mutex.State A → M State A
on_lock =
    lift (λ s. record { mutex = s.atfork_lock; process = s.process })
      (λ t s. record s { atfork_lock = t.mutex; process = t.process })

-- The three calls of `insert_list`.
pub insert_all : ℕ → (prepare parent child : ℕ) → Ptr → Lists → Option Lists
insert_all fuel prepare parent child block s =
    option_bind (insert_list fuel s.prepare prepare block false) λ l.
      option_bind (insert_list fuel s.parent parent block true) λ m.
        option_map (λ n. record s { prepare = l; parent = m; child = n })
          (insert_list fuel s.child child block true)

-- `block` is what malloc returns, `none` for NULL; the result is `none` when the fuel ran out.
pub atfork : ℕ → (prepare parent child : ℕ) → Option Ptr → Ptr → M State (Option Errno)
atfork fuel prepare parent child none self = pure (some enomem)
atfork fuel prepare parent child (some block) self = do
  _ ← on_lock (mutex_lock self)
  s ← get
  let t = insert_all fuel prepare parent child block s.lists
  modify (λ s. elim t [ none ↦ s | some l ↦ record s { lists = l } ])
  _ ← on_lock mutex_unlock
  pure (option_map (λ _. success) t)

-- The handlers from a node on, in the order of their calls; `none` means that the fuel ran out.
pub call_handlers : ℕ → HandlerList → Ptr → Option (List ℕ)
call_handlers zero l t = none
call_handlers (suc fuel) l t =
    let rest = option_map (λ hs. l.handler t ∷ hs) (call_handlers fuel l (l.next t)) in
    if t == null then some [] else rest

-- What `fork` does, in order.
pub data Event : Type 0 where
  calls : (handler : ℕ) → Event
  forks resets_main_thread resets_lockfiles : Event

-- The calls of `fork` behind its reading of the lists; `is_child` is the test `pid == 0`.
pub fork_events : ℕ → (is_child : Bool) → Lists → Option (List Event)
fork_events fuel is_child s =
    let l = if is_child then s.child else s.parent in
    let reset = if is_child then resets_main_thread ∷ resets_lockfiles ∷ [] else [] in
    option_bind (call_handlers fuel s.prepare s.prepare.head) λ before.
      option_map (λ after. map calls before ++ forks ∷ (reset ++ map calls after))
        (call_handlers fuel l l.head)

pub fork : ℕ → (is_child : Bool) → Ptr → M State (Option (List Event))
fork fuel is_child self = do
  _ ← on_lock (mutex_lock self)
  s ← get
  _ ← on_lock mutex_unlock
  pure (fork_events fuel is_child s.lists)
