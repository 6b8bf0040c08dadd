-- ===== src/Mutex/Waiting.antt =====
-- The waiting queue of a mutex: what `block` and `hand_over` leave, whatever the kind.
use read_linuxthreads.Prelude.{
  ◌≡◌, refl, sym, false, List, [], ◌∷◌, ◌++◌, append-nil, arith, ◌==◌, ◌∈◌, ◌∉◌,
}
use read_linuxthreads.Memory.{Ptr, null, Process, success, Kill, restart_kill, restart}
use read_linuxthreads.Chain.{nextwaiting, SameOutside}
use read_linuxthreads.Queue.{enqueue, dequeue}
use read_linuxthreads.Queue.Laws.{IsQueue, IsFresh, enqueue-IsQueue, dequeue_nil, dequeue_cons}
use read_linuxthreads.Run.{Returns, Waits}
use read_linuxthreads.Mutex.{State, block, hand_over}

-- Between two calls: the spinlock is free and the threads `xs` wait, the longest waiting first.
pub record IsIdle (s : State) (xs : List Ptr) : Type 0 where
  pub free : s.mutex.m_spinlock ≡ 0
  pub queue : IsQueue s.process s.mutex.m_waiting xs

-- The signal that wakes the head of the queue, none for an empty queue.
abbrev pub wake_first : Process → List Ptr → List Kill
wake_first p [] = []
wake_first p (x ∷ xs) = restart_kill x p ∷ []

abbrev pub rest : List Ptr → List Ptr
rest [] = []
rest (x ∷ xs) = xs

-- `s'` is `s` after a thread has got in line: the rest of the mutex is as it was.
pub record Queued (self : Ptr) (s : State) (xs : List Ptr) (s' : State) : Type 0 where
  pub idle : IsIdle s' (xs ++ self ∷ [])
  pub count : s'.mutex.m_count ≡ s.mutex.m_count
  pub owner : s'.mutex.m_owner ≡ s.mutex.m_owner
  pub kind : s'.mutex.m_kind ≡ s.mutex.m_kind
  pub kills : s'.process.kills ≡ s.process.kills
  pub same : SameOutside xs s.process s'.process
  pub pids : (a : Ptr) → (s'.process.desc a).p_pid ≡ (s.process.desc a).p_pid

-- `s'` is `s` after the mutex was given up: free, and the first thread in line is woken.
pub record Freed (s : State) (xs : List Ptr) (s' : State) : Type 0 where
  pub idle : IsIdle s' (rest xs)
  pub count : s'.mutex.m_count ≡ 0
  pub kind : s'.mutex.m_kind ≡ s.mutex.m_kind
  pub kills : s'.process.kills ≡ s.process.kills ++ wake_first s.process xs
  pub same : SameOutside xs s.process s'.process
  pub unlinked : (a : Ptr) → a ∈ xs → a ∉ rest xs → nextwaiting s'.process a ≡ null
  pub pids : (a : Ptr) → (s'.process.desc a).p_pid ≡ (s.process.desc a).p_pid

pub block-Queued :
    (s : State) (xs : List Ptr) (self : Ptr)
    → IsIdle s xs
    → IsFresh s.process self xs
    → Waits (block self s) (Queued self s xs)
unfolding block enqueue
block-Queued s xs self idle fresh = record {
  idle = record {
    free = refl;
    queue = (enqueue-IsQueue s.mutex.m_waiting self s.process xs idle.queue fresh).0;
  };
  count = refl;
  owner = refl;
  kind = refl;
  kills = ground arith;
  same = (enqueue-IsQueue s.mutex.m_waiting self s.process xs idle.queue fresh).1;
  pids = λ a. ground arith;
}

-- The state that `dequeue` leaves when `x` is the head, with the restart of `x`.
woken-Freed :
    (s : State) (x : Ptr) (xs : List Ptr)
    → IsQueue s.process s.mutex.m_waiting (x ∷ xs)
    → let (th, q, p) = dequeue s.mutex.m_waiting s.process in
      (th ≡ x)
      × Freed s (x ∷ xs) (record {
        mutex = record (s.mutex) { m_count = 0; m_waiting = q; m_spinlock = 0 };
        process = restart th p;
      })
unfolding dequeue
woken-Freed s x xs is = (
  d.0,
  record {
    idle = record { free = refl; queue = record { chain = d.1.chain; tail = d.1.tail } };
    count = refl;
    kind = refl;
    kills = ground arith;
    same = λ a out. d.3 a (ground arith);
    unlinked = λ a i out. ground (arith, d.2);
    pids = λ a. ground arith;
  },
)
  where
    d :
        let (th, q', s') = dequeue s.mutex.m_waiting s.process in
        (th ≡ x) × IsQueue s' q' xs × (nextwaiting s' x ≡ null) × SameOutside (x ∷ []) s.process s'
    d = dequeue_cons s.mutex.m_waiting s.process x xs is

zero_count : State → State
zero_count s = record s { mutex = record (s.mutex) { m_count = 0 } }

pub hand_over-Freed :
    (s : State) (xs : List Ptr)
    → IsQueue s.process s.mutex.m_waiting xs
    → Returns
        (hand_over (record s { mutex = record (s.mutex) { m_count = 0; m_spinlock = 1 } }))
        success
        (Freed s xs)
unfolding hand_over
hand_over-Freed s [] is = rw (dequeue_nil s.mutex.m_waiting s.process is) (
  refl,
  record {
    idle = record { free = refl; queue = is };
    count = refl;
    kind = refl;
    kills = sym (append-nil s.process.kills);
    same = λ a out. refl;
    unlinked = λ a i out. cc;
    pids = λ a. refl;
  },
)
hand_over-Freed s (x ∷ xs) is = let (e, freed) = woken-Freed s x xs is in rw nonnull (refl, freed)
  where
    nonnull : ((dequeue s.mutex.m_waiting s.process).0 == null) ≡ false
    nonnull = ground (arith, woken-Freed s x xs is)
