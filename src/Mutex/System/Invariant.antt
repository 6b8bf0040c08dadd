-- ===== src/Mutex/System/Invariant.antt =====
-- What holds in every state of a fast mutex: one owner, and nobody sleeps without being in the queue
-- or having been woken.
use read_linuxthreads.Prelude.{◌≡◌, ◌≢◌, ◌⊎◌, true, false, List, [], ◌∈◌, ◌∉◌}
use read_linuxthreads.Memory.{Ptr, null}
use read_linuxthreads.Chain.{nextwaiting}
use read_linuxthreads.Mutex.{fast}
use read_linuxthreads.Mutex.Waiting.{IsIdle}
use read_linuxthreads.Mutex.System.{System, outside, locking, waiting, owner}

-- The threads have addresses, and processes of their own.
pub record Threads (ts : List Ptr) (s : System) : Type 0 where
  pub ne_null : null ∉ ts
  pub pids :
      (i j : Ptr)
      → i ∈ ts
      → j ∈ ts
      → (s.state.process.desc i).p_pid ≡ (s.state.process.desc j).p_pid
      → i ≡ j

-- A thread that will try to take the mutex: it is at the top of the loop, or it has been woken.
abbrev pub Coming : System → Ptr → Type 0
Coming s i = (s.pc i ≡ locking) ⊎ ((s.pc i ≡ waiting) × (s.pending i ≡ true))

pub record Inv (ts : List Ptr) (xs : List Ptr) (s : System) : Type 0 where
  pub idle : IsIdle s.state xs
  pub kind : s.state.mutex.m_kind ≡ fast
  pub kills : s.state.process.kills ≡ []
  pub members : (i : Ptr) → s.pc i ≢ outside → i ∈ ts
  pub owned : (i : Ptr) → s.pc i ≡ owner → s.state.mutex.m_count ≢ 0
  pub taken : s.state.mutex.m_count ≢ 0 → (i : Ptr) × (s.pc i ≡ owner)
  pub unique : (i j : Ptr) → s.pc i ≡ owner → s.pc j ≡ owner → i ≡ j
  pub queued : (i : Ptr) → i ∈ xs → (s.pc i ≡ waiting) × (s.pending i ≡ false)
  pub woken : (i : Ptr) → s.pc i ≡ waiting → i ∉ xs → s.pending i ≡ true
  pub signalled : (i : Ptr) → i ∈ ts → s.pending i ≡ true → s.pc i ≡ waiting
  pub unlinked : (i : Ptr) → i ∈ ts → i ∉ xs → nextwaiting s.state.process i ≡ null
  pub coming : s.state.mutex.m_count ≡ 0 → xs ≢ [] → (i : Ptr) × Coming s i
