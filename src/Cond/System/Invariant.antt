-- ===== src/Cond/System/Invariant.antt =====
-- What holds in every state of a fast mutex and a condition: one holder, and nobody sleeps without
-- being in the queue or having been woken.
use read_linuxthreads.Prelude.{
  ◌≡◌, ◌||◌, ◌≢◌, refl, sym, inl, inr, true, false, List, [], ◌∷◌, ◌++◌, arith, ◌∈◌, ◌∉◌, has,
  Bool-cases, ap, ◌∙◌,
}
use read_linuxthreads.Memory.{Ptr, null, Process}
use read_linuxthreads.Chain.{nextwaiting, SameOutside, mem_ne}
use read_linuxthreads.Queue.Laws.{IsFresh}
use read_linuxthreads.Woken.{restarts}
use read_linuxthreads.Mutex.{fast}
use read_linuxthreads.Mutex.Waiting.{IsIdle, rest, wake_first}
use read_linuxthreads.Mutex.System.{sent}
use read_linuxthreads.Cond.{State}
use read_linuxthreads.Cond.Wait.{mutex_state}
use read_linuxthreads.Cond.Waiters.{IsWaitedFor}
use read_linuxthreads.Cond.System.{System, outside, waiting, has_mutex, in_wait, asleep, deliver}

-- The threads have addresses, and processes of their own.
pub record Threads (ts : List Ptr) (p : Process) : Type 0 where
  pub ne_null : null ∉ ts
  pub pids : (i j : Ptr) → i ∈ ts → j ∈ ts → (p.desc i).p_pid ≡ (p.desc j).p_pid → i ≡ j

-- The threads `xs` stand in the queue of the mutex and `cs` in that of the condition.
pub record Inv (ts xs cs : List Ptr) (s : System) : Type 0 where
  pub idle : IsIdle (mutex_state s.state) xs
  pub waited_for : IsWaitedFor s.state cs
  pub kind : s.state.mutex.m_kind ≡ fast
  pub kills : s.state.process.kills ≡ []
  pub members : (i : Ptr) → s.pc i ≢ outside → i ∈ ts
  pub owned : (i : Ptr) → has_mutex (s.pc i) ≡ true → s.state.mutex.m_count ≢ 0
  pub unique : (i j : Ptr) → has_mutex (s.pc i) ≡ true → has_mutex (s.pc j) ≡ true → i ≡ j
  pub queued : (i : Ptr) → i ∈ xs → (s.pc i ≡ waiting) × (s.pending i ≡ false)
  pub woken : (i : Ptr) → s.pc i ≡ waiting → i ∉ xs → s.pending i ≡ true
  pub in_queue : (i : Ptr) → i ∈ cs → (in_wait (s.pc i) ≡ true) × (s.pending i ≡ false)
  pub reached : (i : Ptr) → in_wait (s.pc i) ≡ true → i ∉ cs → s.pending i ≡ true
  pub signalled : (i : Ptr) → i ∈ ts → s.pending i ≡ true → asleep (s.pc i) ≡ true
  pub unlinked : (i : Ptr) → i ∈ ts → i ∉ xs → i ∉ cs → nextwaiting s.state.process i ≡ null

-- The first thread of a queue, as a list.
abbrev pub first : List Ptr → List Ptr
first [] = []
first (x ∷ xs) = x ∷ []

pub wake_first-first : (p : Process) (xs : List Ptr) → wake_first p xs ≡ restarts p (first xs)
wake_first-first p [] = refl
wake_first-first p (x ∷ xs) = refl

pub has-first : (j : Ptr) (xs : List Ptr) → has j xs ≡ (has j (first xs) || has j (rest xs))
has-first j [] = refl
has-first j (x ∷ xs) = ground arith

-- Whom the restarts of the threads `ws` reach.
pub sent-restarts :
    (ts ws : List Ptr) (p : Process) (j : Ptr)
    → Threads ts p
    → ((k : Ptr) → k ∈ ws → k ∈ ts)
    → j ∈ ts
    → sent (p.desc j).p_pid (restarts p ws) ≡ has j ws
sent-restarts ts [] p j threads members m = refl
sent-restarts ts (x ∷ ws) p j threads members m = ground (
  arith,
  threads.pids x j (members x (ground arith)) m,
  sent-restarts ts ws p j threads (λ k h. members k (ground arith)) m,
)

pub Threads-kept :
    {ts : List Ptr} {p : Process} (p' : Process)
    → Threads ts p
    → ((a : Ptr) → (p'.desc a).p_pid ≡ (p.desc a).p_pid)
    → Threads ts p'
Threads-kept p' threads same = record {
  ne_null = threads.ne_null;
  pids = λ i j m n e. threads.pids i j m n (sym (same i) ∙ e ∙ same j);
}

-- The threads `ws` leave the queue `cs`, of which `rs` is left, and are woken.
pub record Leave (cs ws rs : List Ptr) (p p' : Process) : Type 0 where
  pub kills : p'.kills ≡ p.kills ++ restarts p ws
  pub parts : (j : Ptr) → has j cs ≡ (has j ws || has j rs)
  pub apart : (j : Ptr) → j ∈ ws → j ∉ rs
  pub unlinked : (a : Ptr) → a ∈ cs → a ∉ rs → nextwaiting p' a ≡ null
  pub same : SameOutside cs p p'
  pub pids : (a : Ptr) → (p'.desc a).p_pid ≡ (p.desc a).p_pid

module _ {ts xs cs : List Ptr} {s : System} (inv : Inv ts xs cs s) where
  -- No thread stands in both queues.
  pub queues_apart : (a : Ptr) → a ∈ cs → a ∉ xs
  queues_apart a i = elim (Bool-cases (has a xs)) [
    | inl both ↦ absurd (ground (arith, inv.queued a both, inv.in_queue a i))
    | inr out ↦ out
  ]

  pub IsFresh-of :
      (i : Ptr)
      → Threads ts s.state.process
      → i ∈ ts
      → asleep (s.pc i) ≡ false
      → IsFresh s.state.process i xs × IsFresh s.state.process i cs
  IsFresh-of i threads m awake = (
    record { ne_null = present; new = out_xs; unlinked = inv.unlinked i m out_xs out_cs },
    record { ne_null = present; new = out_cs; unlinked = inv.unlinked i m out_xs out_cs },
  )
    where
      present : i ≢ null
      present e = mem_ne null i ts threads.ne_null m (sym e)

      out_xs : i ∉ xs
      out_xs = elim (Bool-cases (has i xs)) [
        | inl h ↦ absurd (ground (arith, inv.queued i h))
        | inr h ↦ h
      ]

      out_cs : i ∉ cs
      out_cs = elim (Bool-cases (has i cs)) [
        | inl h ↦ absurd (ground (arith, inv.in_queue i h))
        | inr h ↦ h
      ]

  pub xs_members : (k : Ptr) → k ∈ xs → k ∈ ts
  xs_members k h = inv.members k (ground (arith, inv.queued k))

  pub cs_members : (k : Ptr) → k ∈ cs → k ∈ ts
  cs_members k h = inv.members k (ground (arith, inv.in_queue k))

  -- What is pending behind a call that wakes `ws`.
  pub deliver-has :
      (t : State) (zs ws rs : List Ptr) (j : Ptr)
      → Threads ts s.state.process
      → Leave zs ws rs s.state.process t.process
      → ((k : Ptr) → k ∈ zs → k ∈ ts)
      → j ∈ ts
      → deliver t s.pending j ≡ (s.pending j || has j ws)
  deliver-has t zs ws rs j threads leave inside m =
      rw (leave.pids j, leave.kills, inv.kills)
        (ap (λ b. s.pending j || b)
          (sent-restarts ts ws s.state.process j threads
            (λ k h. inside k (ground (arith, leave.parts k))) m))
