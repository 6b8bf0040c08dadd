-- ===== src/Mutex/Fast.antt =====
-- Fast mutexes: what lock, trylock and unlock do to the count and to the waiting queue.
use native.Mathlib.Decide.{ℕ_discrete}
use read_linuxthreads.Prelude.{[], subst, ◌∙◌, sym, ◌≡◌, ◌≢◌, List, arith}
use read_linuxthreads.Memory.{Ptr, success, ebusy}
use read_linuxthreads.Queue.Laws.{IsFresh}
use read_linuxthreads.Run.{suspends, done, Returns, Waits}
use read_linuxthreads.Queue.{dequeue}
use read_linuxthreads.Mutex.{
  hand_over, State, fast, mutex_trylock, mutex_lock, mutex_unlock, block, hand_over,
}
use read_linuxthreads.Mutex.Waiting.{IsIdle, Queued, Freed, block-Queued, hand_over-Freed}

module _ (self : Ptr) (s : State) (xs : List Ptr) (idle : IsIdle s xs)
    (kind : s.mutex.m_kind ≡ fast) where
  -- A free mutex is taken, and nothing else changes.
  pub lock_free :
      s.mutex.m_count ≡ 0
      → mutex_lock self s ≡ done success (record s { mutex = record (s.mutex) { m_count = 1 } })
  unfolding mutex_lock
  lock_free zero = ground (arith, idle.free)

  lock_blocks : s.mutex.m_count ≢ 0 → mutex_lock self s ≡ block self s
  unfolding mutex_lock
  lock_blocks busy = ground (arith, idle.free)

  -- A taken mutex: the caller queues up and waits.
  pub lock_busy :
      s.mutex.m_count ≢ 0 → IsFresh s.process self xs → Waits (mutex_lock self s) (Queued self s xs)
  lock_busy busy fresh = rw (lock_blocks busy) (block-Queued s xs self idle fresh)

  pub trylock_free :
      s.mutex.m_count ≡ 0
      → mutex_trylock self s ≡ done success (record s { mutex = record (s.mutex) { m_count = 1 } })
  unfolding mutex_trylock
  trylock_free zero = ground (arith, idle.free)

  pub trylock_busy : s.mutex.m_count ≢ 0 → mutex_trylock self s ≡ done ebusy s
  unfolding mutex_trylock
  trylock_busy busy = ground (arith, idle.free)

module _ (s : State) (xs : List Ptr) (idle : IsIdle s xs) where
  unlock_hands_over :
      s.mutex.m_kind ≡ fast
      → mutex_unlock s
        ≡ hand_over (record s { mutex = record (s.mutex) { m_count = 0; m_spinlock = 1 } })
  unfolding mutex_unlock
  unlock_hands_over kind = ground (arith, idle.free)

  pub unlock-Freed : s.mutex.m_kind ≡ fast → Returns (mutex_unlock s) success (Freed s xs)
  unlock-Freed kind = rw (unlock_hands_over kind) (hand_over-Freed s xs idle.queue)

module _ (self : Ptr) (s : State) (xs : List Ptr) (idle : IsIdle s xs)
    (kind : s.mutex.m_kind ≡ fast) where
  -- Read from the outcome: a call that returns has taken the free mutex, one that waits has queued.
  pub lock-done :
      (s' : State)
      → mutex_lock self s ≡ done success s'
      → (s.mutex.m_count ≡ 0) × (s' ≡ record s { mutex = record (s.mutex) { m_count = 1 } })
  lock-done s' e = elim (ℕ_discrete s.mutex.m_count 0) [
    | yes z ↦ (z, ground (arith, e, lock_free self s xs idle kind z))
    | no nz ↦ absurd (block_returns (sym (lock_blocks self s xs idle kind nz) ∙ e))
  ]
    where
      block_returns : block self s ≡ done success s' → ⊥
      block_returns = unfold block in (λ h. cc)

  pub lock-waits :
      (s' : State)
      → mutex_lock self s ≡ suspends s'
      → IsFresh s.process self xs
      → (s.mutex.m_count ≢ 0) × Queued self s xs s'
  lock-waits s' e fresh = elim (ℕ_discrete s.mutex.m_count 0) [
    | yes z ↦ absurd (cc (lock_free self s xs idle kind z))
    | no nz ↦
        (nz, subst (λ r. Waits r (Queued self s xs)) e (lock_busy self s xs idle kind nz fresh))
  ]

  pub trylock-done :
      (s' : State)
      → mutex_trylock self s ≡ done success s'
      → (s.mutex.m_count ≡ 0) × (s' ≡ record s { mutex = record (s.mutex) { m_count = 1 } })
  trylock-done s' e = elim (ℕ_discrete s.mutex.m_count 0) [
    | yes z ↦ (z, ground (arith, e, trylock_free self s xs idle kind z))
    | no nz ↦ absurd (cc (trylock_busy self s xs idle kind nz))
  ]

module _ (s : State) (xs : List Ptr) (idle : IsIdle s xs) (kind : s.mutex.m_kind ≡ fast) where
  pub unlock-done : (s' : State) → mutex_unlock s ≡ done success s' → Freed s xs s'
  unlock-done s' e = (subst (λ r. Returns r success (Freed s xs)) e (unlock-Freed s xs idle kind)).1

-- With nobody waiting, unlock restores the state that lock found.
pub unlock_alone :
    (s : State)
    → IsIdle s []
    → s.mutex.m_kind ≡ fast
    → s.mutex.m_count ≡ 0
    → mutex_unlock (record s { mutex = record (s.mutex) { m_count = 1 } }) ≡ done success s
unfolding mutex_unlock hand_over dequeue
unlock_alone s idle kind zero = ground (arith, idle.free, idle.queue.chain)
