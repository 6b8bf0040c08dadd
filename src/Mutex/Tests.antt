-- ===== src/Mutex/Tests.antt =====
-- The mutexes on concrete threads.
use read_linuxthreads.Prelude.{◌≡◌, ◌≢◌, ◌⊎◌, refl, some, [], ◌∷◌, arith}
use read_linuxthreads.Memory.{Ptr, success, einval}
use read_linuxthreads.Examples.{fresh_process}
use read_linuxthreads.Queue.Laws.{IsFresh}
use read_linuxthreads.Run.{done, spins, ◌>>=◌, Returns}
use read_linuxthreads.Mutex.{
  State, MutexAttr, recursive, fast, mutex_init, mutex_lock, mutex_trylock, mutex_unlock,
  mutex_destroy,
}
use read_linuxthreads.Mutex.Waiting.{IsIdle, Freed}
use read_linuxthreads.Mutex.Recursive.{repeat, held, nested-Freed}
use read_linuxthreads.Mutex.Kinds.{stuck, bad_kind-stuck}
use read_linuxthreads.Mutex.System.{
  System, owner, waiting, Reach, Alone, here, later, begin, lock, block,
}
use read_linuxthreads.Mutex.System.Invariant.{Threads, Coming}
use read_linuxthreads.Mutex.System.Safety.{start, mutual_exclusion, no_deadlock}

abbrev of_kind : MutexAttr → State
of_kind attr = record { mutex = mutex_init (some attr); process = fresh_process }

threads : Threads (8 ∷ 16 ∷ []) (start fresh_process)
threads = record { ne_null = refl; pids = λ i j a b e. e }

-- 8 locks the mutex, and then 16 sleeps.
abbrev first : System
first = start fresh_process

reach_locked :
    (s : System) × Reach (8 ∷ 16 ∷ []) (start fresh_process) s
    × (s.pc 8 ≡ owner)
    × (s.pc 16 ≡ waiting)
unfolding mutex_lock mutex_init
reach_locked = (
  _,
  later
      (later (later (later here (begin 8 refl refl)) (lock 8 _ refl refl refl))
        (begin 16 refl refl))
      (block 16 _ refl refl refl),
  refl,
  refl,
)

mutual_exclusion_example : ◌≡◌ {A = Ptr} 8 8
mutual_exclusion_example =
    mutual_exclusion (8 ∷ 16 ∷ []) fresh_process threads (λ i m. refl) {s = reach_locked.0}
      reach_locked.1 8 8 reach_locked.2 reach_locked.2

no_deadlock_example :
    ((j : Ptr) × (reach_locked.0.pc j ≡ owner))
    ⊎ ((j : Ptr) × Coming reach_locked.0 j
        × (t : System) × Alone (8 ∷ 16 ∷ []) j reach_locked.0 t
        × (t.pc j ≡ owner))
no_deadlock_example =
    no_deadlock (8 ∷ 16 ∷ []) fresh_process threads (λ i m. refl) reach_locked.0 reach_locked.1 16
      (λ e. cc reach_locked.3)

abbrev rec_mutex : State
rec_mutex = of_kind (record { mutexkind = recursive })

rec_mutex-IsIdle : IsIdle rec_mutex []
unfolding mutex_init
rec_mutex-IsIdle = record { free = refl; queue = record { chain = refl; tail = refl } }

rec_mutex-kind : rec_mutex.mutex.m_kind ≡ recursive
unfolding mutex_init
rec_mutex-kind = refl

rec_mutex-count : rec_mutex.mutex.m_count ≡ 0
unfolding mutex_init
rec_mutex-count = refl

nested-Freed_example :
    ((do _ ← repeat 3 (mutex_lock 8); repeat 2 mutex_unlock) rec_mutex
      ≡ done success (held 1 8 rec_mutex))
    × Returns
        ((do _ ← repeat 3 (mutex_lock 8); _ ← repeat 2 mutex_unlock; mutex_unlock) rec_mutex)
        success
        (Freed (held 1 8 rec_mutex) [])
nested-Freed_example =
    nested-Freed 8 rec_mutex [] rec_mutex-IsIdle rec_mutex-kind 2 rec_mutex-count (omega arith)

IsFresh-16 : IsFresh fresh_process 16 []
IsFresh-16 = record { ne_null = ground arith; new = refl; unlinked = refl }

abbrev bad_mutex : State
bad_mutex = of_kind (record { mutexkind = 7 })

bad_mutex-spinlock : bad_mutex.mutex.m_spinlock ≡ 0
unfolding mutex_init
bad_mutex-spinlock = refl

bad_mutex-kind : (bad_mutex.mutex.m_kind ≢ fast) × (bad_mutex.mutex.m_kind ≢ recursive)
unfolding mutex_init
bad_mutex-kind = ground arith

bad_kind-stuck_example :
    (mutex_lock 8 bad_mutex ≡ done einval (stuck bad_mutex))
    × (mutex_trylock 8 bad_mutex ≡ done einval (stuck bad_mutex))
    × (mutex_unlock bad_mutex ≡ done einval (stuck bad_mutex))
    × (mutex_lock 16 (stuck bad_mutex) ≡ spins)
    × (mutex_trylock 16 (stuck bad_mutex) ≡ spins)
    × (mutex_unlock (stuck bad_mutex) ≡ spins)
    × (mutex_destroy (stuck bad_mutex) ≡ spins)
bad_kind-stuck_example =
    bad_kind-stuck 8 16 bad_mutex bad_mutex-spinlock bad_mutex-kind.0 bad_mutex-kind.1
