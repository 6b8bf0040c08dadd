-- ===== src/Semaphore/System/Invariant.antt =====
-- What holds in every state of a semaphore: the count is what was posted and not taken, and nobody
-- sleeps without being in a list that a post has taken or will take, or having been woken.
use read_linuxthreads.Prelude.{
  ℕ, ◌+◌, ◌*◌, ◌^◌, ◌<◌, ◌≡◌, ◌≢◌, refl, true, false, List, [], ◌∷◌, arith, ◌∈◌, ◌∉◌, inl, inr,
  Bool-cases, ◌==◌,
}
use read_linuxthreads.Memory.{Ptr, Process}
use read_linuxthreads.Chain.{nextwaiting, Chain}
use read_linuxthreads.Semaphore.{is_odd}
use read_linuxthreads.Semaphore.Waiters.{IsThread}
use read_linuxthreads.Semaphore.System.{System, outside, sleeping, posting, in_post}

-- The threads have aligned addresses, and processes of their own.
pub record Threads (ts : List Ptr) (p : Process) : Type 0 where
  pub aligned : (i : Ptr) → i ∈ ts → IsThread i
  pub pids : (i j : Ptr) → i ∈ ts → j ∈ ts → (p.desc i).p_pid ≡ (p.desc j).p_pid → i ≡ j

-- The count is `n`, the threads `xs` stand in the list of the semaphore, the last one to come first, and
-- a post of `i` has still to wake the threads `ps i`.
pub record Inv (initial : ℕ) (ts : List Ptr) (n : ℕ) (xs : List Ptr) (ps : Ptr → List Ptr)
    (s : System) : Type 0 where
  pub listed : n ≡ 0 → Chain (nextwaiting s.state.process) 1 s.state.sem_status xs
  pub counted : n ≢ 0 → (s.state.sem_status ≡ n * 2 + 1) × (xs ≡ [])
  pub small : n < 2 ^ 30
  pub balance : n + s.takes ≡ initial + s.posts
  pub kills : s.state.process.kills ≡ []
  pub members : (i : Ptr) → s.pc i ≢ outside → i ∈ ts
  pub queued : (i : Ptr) → i ∈ xs → (s.pc i ≡ sleeping) × (s.pending i ≡ false)
  pub taken : (i j : Ptr) → i ∈ ps j → (s.pc i ≡ sleeping) × (s.pending i ≡ false) × (i ∉ xs)
  pub apart : (i j k : Ptr) → i ∈ ps j → j ≢ k → i ∉ ps k
  pub walking :
      (j th : Ptr)
      → s.pc j ≡ posting th
      → (th ≢ 1) × Chain (nextwaiting s.state.process) 1 th (ps j)
  pub idle : (j : Ptr) → in_post (s.pc j) ≡ false → ps j ≡ []
  pub reached :
      (i : Ptr) → s.pc i ≡ sleeping → i ∉ xs → s.pending i ≡ false → (j : Ptr) × (i ∈ ps j)
  pub signalled : (i : Ptr) → i ∈ ts → s.pending i ≡ true → s.pc i ≡ sleeping

pub Threads-kept :
    {ts : List Ptr} {p : Process} (p' : Process)
    → Threads ts p
    → ((a : Ptr) → (p'.desc a).p_pid ≡ (p.desc a).p_pid)
    → Threads ts p'
Threads-kept p' threads same = record {
  aligned = threads.aligned;
  pids = λ i j m n e. threads.pids i j m n (ground (arith, same i, same j));
}

module _ {initial : ℕ} {ts : List Ptr} {n : ℕ} {xs : List Ptr} {ps : Ptr → List Ptr} {s : System}
    (inv : Inv initial ts n xs ps s) where
  -- The status is a count, or the thread that came last.
  pub status_odd :
      is_odd s.state.sem_status ≡ true
      → Threads ts s.state.process
      → (s.state.sem_status ≡ n * 2 + 1) × (xs ≡ [])
  status_odd odd threads = elim (Bool-cases (n == 0)) [
    | inr some_count ↦ inv.counted (ground arith)
    | inl none_left ↦
        empty_list xs (inv.listed (ground arith))
          (λ i h. threads.aligned i (inv.members i (ground (arith, inv.queued i h))))
  ]
    where
      empty_list :
          (ys : List Ptr)
          → Chain (nextwaiting s.state.process) 1 s.state.sem_status ys
          → ((i : Ptr) → i ∈ ys → IsThread i)
          → (s.state.sem_status ≡ n * 2 + 1) × (ys ≡ [])
      empty_list [] c even = (ground arith, refl)
      empty_list (y ∷ ys) c even = absurd (ground (arith, even y))

  pub status_even :
      is_odd s.state.sem_status ≡ false
      → (n ≡ 0) × Chain (nextwaiting s.state.process) 1 s.state.sem_status xs
  status_even even = elim (Bool-cases (n == 0)) [
    | inr some_count ↦ absurd (ground (arith, inv.counted))
    | inl none_left ↦ (ground arith, inv.listed (ground arith))
  ]
