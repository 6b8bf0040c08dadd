-- ===== src/Mutex/Recursive.antt =====
-- Recursive mutexes: nested calls of lock and unlock by one thread.
use read_linuxthreads.Prelude.{ℕ, zero, suc, ◌+◌, ◌^◌, ◌<◌, ◌≡◌, ◌≢◌, List, arith}
use read_linuxthreads.Memory.{Ptr, Errno, success, ebusy}
use read_linuxthreads.Queue.Laws.{IsFresh}
use read_linuxthreads.Run.{done, M, ◌>>=◌, pure, Returns, Waits}
use read_linuxthreads.Mutex.{
  State, recursive, mutex_trylock, mutex_lock, mutex_unlock, block, hand_over,
}
use read_linuxthreads.Mutex.Waiting.{IsIdle, Queued, Freed, block-Queued, hand_over-Freed}

-- `n` calls one after the other.
pub repeat : ℕ → M State Errno → M State Errno
repeat zero m = pure success
repeat (suc n) m = m >>= λ _. repeat n m

-- `s` with the mutex held `n` times by `self`.
abbrev pub held : ℕ → Ptr → State → State
held n self s = record s { mutex = record (s.mutex) { m_count = n; m_owner = self } }

module _ (self : Ptr) (s : State) (xs : List Ptr) (idle : IsIdle s xs)
    (kind : s.mutex.m_kind ≡ recursive) where
  lock_free : s.mutex.m_count ≡ 0 → mutex_lock self s ≡ done success (held 1 self s)
  unfolding mutex_lock
  lock_free free = ground (arith, idle.free)

  lock_held :
      (k : ℕ)
      → k + 1 < 2 ^ 31
      → mutex_lock self (held k self s) ≡ done success (held (k + 1) self s)
  unfolding mutex_lock
  lock_held k room = ground (arith, idle.free)

  unlock_held :
      (k : ℕ)
      → k + 1 < 2 ^ 31
      → 0 < k
      → mutex_unlock (held (k + 1) self s) ≡ done success (held k self s)
  unfolding mutex_unlock
  unlock_held k room more = ground (arith, idle.free)

  unlock_last :
      mutex_unlock (held 1 self s)
      ≡ hand_over
          (record s { mutex = record (s.mutex) { m_count = 0; m_owner = self; m_spinlock = 1 } })
  unfolding mutex_unlock
  unlock_last = ground (arith, idle.free)

  blocks :
      (other : Ptr) (k : ℕ)
      → other ≢ self
      → 0 < k
      → mutex_lock other (held k self s) ≡ block other (held k self s)
  unfolding mutex_lock
  blocks other k ne pos = ground (arith, idle.free)

  lock_times :
      (n k : ℕ)
      → k + n < 2 ^ 31
      → repeat n (mutex_lock self) (held k self s) ≡ done success (held (k + n) self s)
  unfolding repeat
  lock_times zero k room = ground arith
  lock_times (suc n) k room =
      let e : k + suc n ≡ k + 1 + n = omega arith in
      rw e (rw (lock_held k (omega arith)) (lock_times n (k + 1) (omega arith)))

  unlock_times :
      (n k : ℕ)
      → k + n < 2 ^ 31
      → 0 < k
      → repeat n mutex_unlock (held (k + n) self s) ≡ done success (held k self s)
  unfolding repeat
  unlock_times zero k room more = ground arith
  unlock_times (suc n) k room more =
      let e : k + suc n ≡ k + n + 1 = omega arith in
      rw (e, unlock_held (k + n) (omega arith) (omega arith)) (unlock_times n k (omega arith) more)

  lock_times_free :
      (n : ℕ)
      → s.mutex.m_count ≡ 0
      → n + 1 < 2 ^ 31
      → repeat (suc n) (mutex_lock self) s ≡ done success (held (1 + n) self s)
  unfolding repeat
  lock_times_free n free room = rw (lock_free free) (lock_times n 1 (omega arith))

  -- A thread that locks a free recursive mutex `n + 1` times has it until its last unlock: `n`
  -- unlocks wake nobody and leave the count at 1, the next one frees the mutex and wakes the first
  -- waiting thread. Below 2^31 calls the count does not wrap.
  pub nested-Freed :
      (n : ℕ)
      → s.mutex.m_count ≡ 0
      → n + 1 < 2 ^ 31
      → ((do _ ← repeat (suc n) (mutex_lock self); repeat n mutex_unlock) s
          ≡ done success (held 1 self s))
        × Returns
            ((do _ ← repeat (suc n) (mutex_lock self); _ ← repeat n mutex_unlock; mutex_unlock) s)
            success
            (Freed (held 1 self s) xs)
  nested-Freed n free room = (
    rw locked unlocked,
    rw (locked, unlocked, unlock_last) (hand_over-Freed (held 1 self s) xs idle.queue),
  )
    where
      locked : repeat (suc n) (mutex_lock self) s ≡ done success (held (1 + n) self s)
      locked = lock_times_free n free room

      unlocked : repeat n mutex_unlock (held (1 + n) self s) ≡ done success (held 1 self s)
      unlocked = unlock_times n 1 (omega arith) (omega arith)

  -- While a thread holds a recursive mutex, another one is refused by trylock, with nothing changed,
  -- and lock puts it at the end of the queue.
  pub others_wait :
      (other : Ptr) (k : ℕ)
      → other ≢ self
      → 0 < k
      → IsFresh s.process other xs
      → (mutex_trylock other (held k self s) ≡ done ebusy (held k self s))
        × Waits (mutex_lock other (held k self s)) (Queued other (held k self s) xs)
  unfolding mutex_trylock
  others_wait other k ne pos fresh = (
    ground (arith, idle.free),
    rw (blocks other k ne pos) (
        block-Queued (held k self s) xs other (record { free = idle.free; queue = idle.queue })
          fresh),
  )
