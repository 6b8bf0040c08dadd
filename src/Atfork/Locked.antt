-- ===== src/Atfork/Locked.antt =====
-- ptfork.c: pthread_atfork and fork, with the lock.
use read_linuxthreads.Prelude.{ℕ, ◌≡◌, refl, Bool, none, some, []}
use read_linuxthreads.Memory.{Ptr, success, enomem}
use read_linuxthreads.Run.{done}
use read_linuxthreads.Mutex
use read_linuxthreads.Mutex.{mutex_lock, mutex_unlock, lift-done, fast}
use read_linuxthreads.Mutex.Waiting.{IsIdle}
use read_linuxthreads.Mutex.Fast.{lock_free, unlock_alone}
use read_linuxthreads.Atfork.{State, Lists, on_lock, insert_all, atfork, fork, fork_events}

-- The lock is a fast mutex, free, and nobody waits for it.
pub record Unlocked (s : State) : Type 0 where
  pub idle : IsIdle (record { mutex = s.atfork_lock; process = s.process }) []
  pub kind : s.atfork_lock.m_kind ≡ fast
  pub count : s.atfork_lock.m_count ≡ 0

abbrev view : State → Mutex.State
view s = record { mutex = s.atfork_lock; process = s.process }

abbrev put : Mutex.State → State → State
put t s = record s { atfork_lock = t.mutex; process = t.process }

-- While the lock is held by the call.
abbrev during : State → State
during s = record s { atfork_lock = record (s.atfork_lock) { m_count = 1 } }

locks :
    (self : Ptr) (s : State) → Unlocked s → on_lock (mutex_lock self) s ≡ done success (during s)
locks self s u =
    lift-done view put (mutex_lock self) s success (view (during s))
      (lock_free self (view s) [] u.idle u.kind u.count)

unlocks : (s : State) → Unlocked s → on_lock mutex_unlock (during s) ≡ done success s
unlocks s u =
    lift-done view put mutex_unlock (during s) success (view s)
      (unlock_alone (view s) u.idle u.kind u.count)

-- With the lock free: without memory pthread_atfork returns ENOMEM and changes nothing; otherwise it
-- makes the three insertions and gives the lock back as it was. fork runs its events over the lists
-- as they are, and leaves the state as it was.
pub atfork-fork :
    (fuel prepare parent child block : ℕ) (is_child : Bool) (self : Ptr) (s : State) (l : Lists)
    → Unlocked s
    → insert_all fuel prepare parent child block s.lists ≡ some l
    → (atfork fuel prepare parent child none self s ≡ done (some enomem) s)
      × (atfork fuel prepare parent child (some block) self s
          ≡ done (some success) (record s { lists = l }))
      × (fork fuel is_child self s ≡ done (fork_events fuel is_child s.lists) s)
unfolding atfork fork
atfork-fork fuel prepare parent child block is_child self s l u e = (
  refl,
  rw
      (
        locks self s u,
        e,
        unlocks (record s { lists = l }) (record { idle = u.idle; kind = u.kind; count = u.count }),
      )
      refl,
  rw (locks self s u, unlocks s u) refl,
)
