-- ===== src/Mutex/System.antt =====
-- The threads `ts` over one fast mutex, in any interleaving. What a thread runs between two waits is
-- one step, since the spinlock of the mutex is held from its first access to its last; the restart of
-- `unlock`, behind the release, belongs to the step. The threads keep the rules of a mutex, which
-- the code of a fast one does not test: only a thread that has it unlocks it, and only one that
-- is in no call and does not have it locks it.
pub mod Invariant
pub mod Calm
pub mod Leaving
pub mod Kept
pub mod Safety
use read_linuxthreads.Prelude.{
  ℕ, ◌≡◌, Bool, true, false, List, [], ◌∷◌, ◌&&◌, ◌||◌, ◌==◌, ◌∈◌, update,
}
use read_linuxthreads.Memory.{Ptr, Process, success, Kill, sig_restart}
use read_linuxthreads.Run.{done, suspends}
use read_linuxthreads.Mutex.{State, mutex_trylock, mutex_lock, mutex_unlock}

-- Where a thread stands: outside, at the top of the loop of `lock`, in `suspend`, or with the mutex.
pub data Pc : Type 0 where
  outside locking waiting owner : Pc

-- A standard signal is pending or not: `kill` of a process for which it is pending changes nothing.
-- The restart signal is blocked but in `suspend`, which returns when it is delivered.
pub record System : Type 0 where
  pub state : State
  pub pc : Ptr → Pc
  pub pending : Ptr → Bool

abbrev pub sent : ℕ → List Kill → Bool
sent pid [] = false
sent pid (k ∷ ks) = ((k.pid == pid) && (k.sig == sig_restart)) || sent pid ks

-- The signals sent by the last call reach the threads.
abbrev pub drain : State → State
drain s = record s { process = record (s.process) { kills = [] } }

abbrev pub deliver : State → (Ptr → Bool) → Ptr → Bool
deliver s pending i = pending i || sent (s.process.desc i).p_pid s.process.kills

pub data Step (ts : List Ptr) (s : System) : System → Type 0 where
  begin :
      (i : Ptr) → i ∈ ts → s.pc i ≡ outside → Step ts s (record s { pc = update s.pc i locking })
  lock :
      (i : Ptr) (t : State)
      → i ∈ ts
      → s.pc i ≡ locking
      → mutex_lock i s.state ≡ done success t
      → Step ts s (record s { state = t; pc = update s.pc i owner })
  block :
      (i : Ptr) (t : State)
      → i ∈ ts
      → s.pc i ≡ locking
      → mutex_lock i s.state ≡ suspends t
      → Step ts s (record s { state = t; pc = update s.pc i waiting })
  wake :
      (i : Ptr)
      → i ∈ ts
      → s.pc i ≡ waiting
      → s.pending i ≡ true
      → Step ts s (record s { pc = update s.pc i locking; pending = update s.pending i false })
  try :
      (i : Ptr) (t : State)
      → i ∈ ts
      → s.pc i ≡ outside
      → mutex_trylock i s.state ≡ done success t
      → Step ts s (record s { state = t; pc = update s.pc i owner })
  unlock :
      (i : Ptr) (t : State)
      → i ∈ ts
      → s.pc i ≡ owner
      → mutex_unlock s.state ≡ done success t
      → Step ts s
          (record { state = drain t; pc = update s.pc i outside; pending = deliver t s.pending })

pub data Reach (ts : List Ptr) (s : System) : System → Type 0 where
  here : Reach ts s s
  later : {t u : System} → Reach ts s t → Step ts t u → Reach ts s u

-- The thread that makes a step.
abbrev pub actor : {ts : List Ptr} {s t : System} → Step ts s t → Ptr
actor (begin i m e) = i
actor (lock i t m e r) = i
actor (block i t m e r) = i
actor (wake i m e p) = i
actor (try i t m e r) = i
actor (unlock i t m e r) = i

-- `t` is reached from `s` by steps of `j`, and of no other thread.
pub data Alone (ts : List Ptr) (j : Ptr) : System → System → Type 0 where
  stop : {s : System} → Alone ts j s s
  go : {s t u : System} (st : Step ts s t) → actor st ≡ j → Alone ts j t u → Alone ts j s u
