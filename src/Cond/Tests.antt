-- ===== src/Cond/Tests.antt =====
-- The threads at 16 and 24 wait for a condition, and the thread at 40 for the mutex that 8 has.
use read_linuxthreads.Prelude.{◌≡◌, refl, true, some, [], ◌∷◌, arith}
use read_linuxthreads.Memory.{null, etimedout, set_nextwaiting}
use read_linuxthreads.Examples.{fresh_process}
use read_linuxthreads.Queue.Laws.{IsFresh}
use read_linuxthreads.Run.{done, Waits}
use read_linuxthreads.Mutex.{fast}
use read_linuxthreads.Mutex.Waiting.{IsIdle}
use read_linuxthreads.Cond.{State, cond_wait, ended, timedwait_start, timedwait_end}
use read_linuxthreads.Cond.Waiters.{IsWaitedFor}
use read_linuxthreads.Cond.Wait.{mutex_state, AreApart, Slept, cond_wait-Slept}
use read_linuxthreads.Cond.Timeout.{timedwait-timeout}

abbrev held_by_8 : State
held_by_8 = record {
  cond = record { c_spinlock = 0; c_waiting = record { head = 16; tail = 24 } };
  mutex = record {
    m_spinlock = 0;
    m_count = 1;
    m_owner = null;
    m_kind = fast;
    m_waiting = record { head = 40; tail = 40 };
  };
  process = set_nextwaiting 16 24 fresh_process;
}

waited_for : IsWaitedFor held_by_8 (16 ∷ 24 ∷ [])
waited_for = record {
  free = refl;
  queue = record {
    chain = (refl, ground arith, refl, (refl, ground arith, refl, refl));
    tail = refl;
  };
}

idle : IsIdle (mutex_state held_by_8) (40 ∷ [])
idle = record {
  free = refl;
  queue = record { chain = (refl, ground arith, refl, refl); tail = refl };
}

fresh : IsFresh held_by_8.process 8 (16 ∷ 24 ∷ [])
fresh = record { ne_null = ground arith; new = refl; unlinked = refl }

apart : AreApart 8 (16 ∷ 24 ∷ []) (40 ∷ [])
apart = record { apart = λ a i. ground arith; awake = refl }

cond_wait-Slept_example : Waits (cond_wait 8 held_by_8) (Slept 8 held_by_8 (16 ∷ 24 ∷ []) (40 ∷ []))
cond_wait-Slept_example =
    cond_wait-Slept 8 (16 ∷ 24 ∷ []) (40 ∷ []) held_by_8 waited_for idle refl fresh apart

timedwait-timeout_example : Waits (timedwait_start 500 8 held_by_8) (λ t.
    IsWaitedFor t (16 ∷ 24 ∷ 8 ∷ [])
    × (t' : State) × (timedwait_end 4 true 8 t ≡ some (done (ended etimedout) t'))
    × IsWaitedFor t' (16 ∷ 24 ∷ []))
timedwait-timeout_example =
    timedwait-timeout 4 500 8 (16 ∷ 24 ∷ []) (40 ∷ []) held_by_8 waited_for idle refl fresh apart
      refl (omega arith)
