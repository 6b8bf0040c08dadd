-- ===== src/Specific/Tests.antt =====
-- Keys 0 and 1 in use, and the values of one thread.
use read_linuxthreads.Prelude.{ℕ, ◌+◌, ◌≡◌, refl, ltb, arith}
use read_linuxthreads.Memory.{Ptr, null, Process, keys_max, set_desc, success}
use read_linuxthreads.Examples.{fresh_process}
use read_linuxthreads.Run.{done, ◌>>=◌}
use read_linuxthreads.Mutex.{Mutex, fast}
use read_linuxthreads.Queue.{queue_init}
use read_linuxthreads.Specific.{State, key_create, key_delete, getspecific, destroy_specifics}
use read_linuxthreads.Specific.Keys.{Unlocked, reuse_keeps_value}
use read_linuxthreads.Specific.Values.{due, run_calls, IsQuiet, destroy_specifics-due}

abbrev free_mutex : Mutex
free_mutex = record {
  m_spinlock = 0;
  m_count = 0;
  m_owner = null;
  m_kind = fast;
  m_waiting = queue_init;
}

-- The values of the thread at 8.
abbrev with_values : Process
with_values =
    set_desc 8 (record (fresh_process.desc 8) { p_specific = λ key. key + 40 }) fresh_process

abbrev two_keys : State
two_keys = record {
  keys = λ i. record { in_use = ltb i 2; destr = i };
  keys_mutex = free_mutex;
  process = with_values;
}

two_keys-Unlocked : Unlocked two_keys
two_keys-Unlocked = record {
  idle = record { free = refl; queue = record { chain = refl; tail = refl } };
  kind = refl;
  count = refl;
}

reuse_keeps_value_example :
    (t : State) × ((do _ ← key_delete 8 1; key_create 8 7) two_keys ≡ done (success, 1) t)
    × ((th : Ptr) → getspecific th 1 t.process ≡ getspecific th 1 with_values)
reuse_keeps_value_example =
    reuse_keeps_value 8 1 7 two_keys two_keys-Unlocked (omega arith) (λ k le. ground arith)

-- A destructor that notes its argument.
abbrev note : ℕ → ℕ → State → State
note f a s = record s { process = record (s.process) { main_thread = a } }

note-IsQuiet : IsQuiet note 8
note-IsQuiet = record { keys = λ f a s. refl; values = λ f a s. refl }

destroy_specifics-due_example :
    destroy_specifics note 8 two_keys
    ≡ run_calls note (due keys_max 0 two_keys.keys (with_values.desc 8).p_specific) two_keys
destroy_specifics-due_example = destroy_specifics-due note 8 note-IsQuiet two_keys
