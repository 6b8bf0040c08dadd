-- ===== src/Queue/Tests.antt =====
-- The waiting queues on concrete threads.
use read_linuxthreads.Prelude.{◌≡◌, refl, some, [], ◌∷◌, ◌∈◌, arith}
use read_linuxthreads.Memory.{null, Process, set_nextwaiting}
use read_linuxthreads.Chain.{SameOutside, nextwaiting}
use read_linuxthreads.Examples.{fresh_process}
use read_linuxthreads.Queue.{Queue, remove_from_queue}
use read_linuxthreads.Queue.Laws.{IsQueue, IsFresh}
use read_linuxthreads.Queue.Removal.{remove_from_queue-erase}

-- 16 is linked to 24.
abbrev linked : Process
linked = set_nextwaiting 16 24 fresh_process

abbrev two : Queue
two = record { head = 16; tail = 24 }

two-IsQueue : IsQueue linked two (16 ∷ 24 ∷ [])
two-IsQueue = record {
  chain = (refl, ground arith, refl, (refl, ground arith, refl, refl));
  tail = refl;
}

fresh : IsFresh linked 32 (16 ∷ 24 ∷ [])
fresh = record { ne_null = ground arith; new = refl; unlinked = refl }

remove_from_queue-erase_example :
    (q' : Queue) × (s' : Process) × (remove_from_queue 3 two 24 linked ≡ some (q', s'))
    × IsQueue s' q' (16 ∷ [])
    × SameOutside (16 ∷ 24 ∷ []) linked s'
    × (24 ∈ 16 ∷ 24 ∷ [] → nextwaiting s' 24 ≡ null)
remove_from_queue-erase_example =
    remove_from_queue-erase 3 two 24 linked (16 ∷ 24 ∷ []) two-IsQueue (omega arith)
