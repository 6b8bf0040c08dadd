-- ===== src/Atfork/Tests.antt =====
-- Two registrations, and a fork.
use read_linuxthreads.Prelude.{◌≡◌, refl, true, some, [], ◌∷◌, option_bind, arith, List}
use read_linuxthreads.Memory.{null}
use read_linuxthreads.Examples.{fresh_process}
use read_linuxthreads.Queue.{queue_init}
use read_linuxthreads.Mutex.{fast}
use read_linuxthreads.Atfork.{
  HandlerList, Lists, State, insert_all, insert_list, find_place, store_node, fork_events, calls,
  forks, resets_main_thread, resets_lockfiles,
}
use read_linuxthreads.Atfork.Locked.{Unlocked}
use read_linuxthreads.Atfork.Registered.{
  Registration, IsRegistered, AreFresh, blocks, register_all, register_all-fork,
}

abbrev no_handlers : HandlerList
no_handlers = record { head = null; handler = λ a. 0; next = λ a. 0 }

abbrev no_lists : Lists
no_lists = record { prepare = no_handlers; parent = no_handlers; child = no_handlers }

empty : IsRegistered [] no_handlers []
empty = record { nodes = []; chain = refl; handlers = refl; within = λ a i. i; few = omega arith }

-- The second one has no parent handler.
abbrev two : List Registration
two =
    record { before = 21; in_parent = 0; in_child = 23; block = 200 }
    ∷ record { before = 11; in_parent = 12; in_child = 13; block = 100 }
    ∷ []

two-AreFresh : AreFresh (blocks two)
two-AreFresh = (ground arith, refl, (ground arith, refl, tt))

register_all-fork_example :
    option_bind (register_all 3 two no_lists) (fork_events 3 true)
    ≡ some (
        calls 21
        ∷ calls 11
        ∷ forks
        ∷ resets_main_thread
        ∷ resets_lockfiles
        ∷ calls 13
        ∷ calls 23
        ∷ [])
register_all-fork_example =
    register_all-fork 3 no_lists
      (record { in_prepare = empty; in_parent = empty; in_child = empty }) true two two-AreFresh
      (omega arith)

abbrev process_state : State
process_state = record {
  lists = no_lists;
  atfork_lock = record {
    m_spinlock = 0;
    m_count = 0;
    m_owner = null;
    m_kind = fast;
    m_waiting = queue_init;
  };
  process = fresh_process;
}

process_state-Unlocked : Unlocked process_state
process_state-Unlocked = record {
  idle = record { free = refl; queue = record { chain = refl; tail = refl } };
  kind = refl;
  count = refl;
}

inserted : (l : Lists) × (insert_all 1 11 12 13 100 no_lists ≡ some l)
unfolding insert_all insert_list find_place store_node
inserted = (_, refl)
