-- ===== src/Cond/System.antt =====
-- The threads `ts` over one fast mutex and one condition, in any interleaving. A step is what a thread
-- runs with one spinlock held, and the restarts that it sends behind the release: one for `unlock` and
-- `signal`, and for `broadcast` the whole walk over its own copy of the queue. Between the entry in the
-- queue of the condition and the release of the mutex other threads run. Only a thread that has the
-- mutex unlocks it or waits, and only one that does not locks it.
pub mod Invariant
pub mod Steps
pub mod Kept
pub mod Safety
mod Tests
use read_linuxthreads.Prelude.{ℕ, ◌≡◌, Bool, true, false, some, List, [], ◌||◌, ◌∈◌, update, ◌⊎◌}
use read_linuxthreads.Memory.{Ptr, Process, success}
use read_linuxthreads.Run.{done, suspends}
use read_linuxthreads.Mutex
use read_linuxthreads.Mutex.{mutex_lock, mutex_unlock}
use read_linuxthreads.Mutex.System.{sent}
use read_linuxthreads.Cond.{State, join_queue, cond_signal, cond_broadcast}
use read_linuxthreads.Cond.Wait.{mutex_state, with_mutex}

-- Where a thread stands: outside; at the top of the loop of `lock`, in a call of its own or behind
-- the sleep of pthread_cond_wait; in the `suspend` of `lock`; with the mutex; in pthread_cond_wait in
-- front of the release of the mutex; or in the `suspend` behind it.
pub data Pc : Type 0 where
  outside locking waiting owner entering sleeping : Pc

abbrev pub has_mutex : Pc → Bool
has_mutex owner = true
has_mutex entering = true
has_mutex _ = false

abbrev pub in_wait : Pc → Bool
in_wait entering = true
in_wait sleeping = true
in_wait _ = false

-- A thread that waits for a restart, or is about to.
abbrev pub asleep : Pc → Bool
asleep waiting = true
asleep pc = in_wait pc

-- `pending` says for which threads a restart is pending; it is blocked but in `suspend`.
pub record System : Type 0 where
  pub state : State
  pub pc : Ptr → Pc
  pub pending : Ptr → Bool

abbrev pub drain : State → State
drain s = record s { process = record (s.process) { kills = [] } }

abbrev pub deliver : State → (Ptr → Bool) → Ptr → Bool
deliver s pending i = pending i || sent (s.process.desc i).p_pid s.process.kills

-- A call of the thread `i` that leaves the state `t` and brings the thread to `pc`.
abbrev pub moves : System → Ptr → Pc → State → System
moves s i pc t = record { state = drain t; pc = update s.pc i pc; pending = deliver t s.pending }

pub data Step (ts : List Ptr) (s : System) : System → Type 0 where
  begin :
      (i : Ptr) → i ∈ ts → s.pc i ≡ outside → Step ts s (record s { pc = update s.pc i locking })
  lock :
      (i : Ptr) (u : Mutex.State)
      → i ∈ ts
      → s.pc i ≡ locking
      → mutex_lock i (mutex_state s.state) ≡ done success u
      → Step ts s (record s { state = with_mutex u s.state; pc = update s.pc i owner })
  block :
      (i : Ptr) (u : Mutex.State)
      → i ∈ ts
      → s.pc i ≡ locking
      → mutex_lock i (mutex_state s.state) ≡ suspends u
      → Step ts s (record s { state = with_mutex u s.state; pc = update s.pc i waiting })
  wake :
      (i : Ptr)
      → i ∈ ts
      → (s.pc i ≡ waiting) ⊎ (s.pc i ≡ sleeping)
      → s.pending i ≡ true
      → Step ts s (record s { pc = update s.pc i locking; pending = update s.pending i false })
  unlock :
      (i : Ptr) (u : Mutex.State)
      → i ∈ ts
      → s.pc i ≡ owner
      → mutex_unlock (mutex_state s.state) ≡ done success u
      → Step ts s (moves s i outside (with_mutex u s.state))
  enter :
      (i : Ptr) (t : State)
      → i ∈ ts
      → s.pc i ≡ owner
      → join_queue i s.state ≡ done tt t
      → Step ts s (record s { state = t; pc = update s.pc i entering })
  let_go :
      (i : Ptr) (u : Mutex.State)
      → i ∈ ts
      → s.pc i ≡ entering
      → mutex_unlock (mutex_state s.state) ≡ done success u
      → Step ts s (moves s i sleeping (with_mutex u s.state))
  signal :
      (i : Ptr) (t : State)
      → i ∈ ts
      → (s.pc i ≡ outside) ⊎ (s.pc i ≡ owner)
      → cond_signal s.state ≡ done success t
      → Step ts s (moves s i (s.pc i) t)
  broadcast :
      (i : Ptr) (fuel : ℕ) (t : State)
      → i ∈ ts
      → (s.pc i ≡ outside) ⊎ (s.pc i ≡ owner)
      → cond_broadcast fuel s.state ≡ some (done success t)
      → Step ts s (moves s i (s.pc i) t)

pub data Reach (ts : List Ptr) (s : System) : System → Type 0 where
  here : Reach ts s s
  later : {t u : System} → Reach ts s t → Step ts t u → Reach ts s u
