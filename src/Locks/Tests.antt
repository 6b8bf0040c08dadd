-- ===== src/Locks/Tests.antt =====
-- Two streams, at 100 and 200, whose locks are held at the fork by a thread that is gone.
use read_linuxthreads.Prelude.{◌≡◌, refl, false, some, [], ◌∷◌, arith, ◌∈◌, ◌==◌, if◌then◌else◌}
use read_linuxthreads.Memory.{Ptr, null, success}
use read_linuxthreads.Examples.{fresh_process}
use read_linuxthreads.Run.{done, Returns}
use read_linuxthreads.Chain.{Chain}
use read_linuxthreads.Mutex.{recursive}
use read_linuxthreads.Mutex.Waiting.{IsIdle}
use read_linuxthreads.Locks.{State, Stream, view, ftrylockfile, fresetlockfiles, libc_lock_lock}
use read_linuxthreads.Locks.Streams.{chains, NotLock, fresetlockfiles-unlocked}

abbrev files : Ptr → Stream
files f = record { lock = f; chain = if f == 100 then 200 else null }

abbrev forked : State
forked = record {
  mutexes = λ m. record {
    m_spinlock = 1;
    m_count = 3;
    m_owner = 24;
    m_kind = recursive;
    m_waiting = record { head = 24; tail = 24 };
  };
  process = fresh_process;
}

listed : Chain (chains files) null 100 (100 ∷ 200 ∷ [])
listed = (refl, ground arith, refl, (refl, ground arith, refl, refl))

fresetlockfiles-unlocked_example :
    (t : State) × (fresetlockfiles 3 files 100 forked ≡ some t)
    × (t.process ≡ forked.process)
    × ((m : Ptr) → NotLock files (100 ∷ 200 ∷ []) m → t.mutexes m ≡ forked.mutexes m)
    × ((f : Ptr)
        → f ∈ 100 ∷ 200 ∷ []
        → IsIdle (view (files f).lock t) []
          × ((t.mutexes (files f).lock).m_kind ≡ recursive)
          × Returns (ftrylockfile files f 8 t) success (λ u.
            ((u.mutexes (files f).lock).m_owner ≡ 8) × ((u.mutexes (files f).lock).m_count ≡ 1)))
fresetlockfiles-unlocked_example =
    fresetlockfiles-unlocked 3 files 100 8 (100 ∷ 200 ∷ []) forked listed (omega arith)

-- Without this library the locks of the C library do nothing.
unlinked : libc_lock_lock false 100 8 forked ≡ done success forked
unfolding libc_lock_lock
unlinked = refl
