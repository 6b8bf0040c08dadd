-- ===== src/Cond/Waiters.antt =====
-- condvar.c: the threads that wait for a condition, the longest waiting first.
use read_linuxthreads.Prelude.{
  ℕ, zero, suc, ◌<◌, ◌≡◌, ◌≢◌, refl, sym, ap, false, none, some, Option, ◌≤◌, List, [], ◌∷◌, ◌++◌,
  arith, ◌==◌, ◌∈◌, ◌∉◌, length, append-nil,
}
use read_linuxthreads.Memory.{Ptr, null, Process, success, ebusy, restart}
use read_linuxthreads.Chain.{nextwaiting, SameOutside, Chain-frame}
use read_linuxthreads.Queue.{Queue, queue_init, dequeue}
use read_linuxthreads.Queue.Laws.{IsQueue, IsQueue-init, dequeue_nil, dequeue_cons}
use read_linuxthreads.Woken.{Woken, WokenOne, Woken-nil, Woken-cons}
use read_linuxthreads.Run.{done, Returns}
use read_linuxthreads.Mutex.Waiting.{wake_first, rest}
use read_linuxthreads.Cond.{
  State, cond_signal, signal_loop, cond_broadcast, cond_init, cond_destroy,
}

-- Between two calls: the spinlock is free and the threads `xs` wait.
pub record IsWaitedFor (s : State) (xs : List Ptr) : Type 0 where
  pub free : s.cond.c_spinlock ≡ 0
  pub queue : IsQueue s.process s.cond.c_waiting xs

-- The queue of another object in the same memory.
pub IsQueue-frame :
    (p p' : Process) (q : Queue) (xs : List Ptr)
    → IsQueue p q xs
    → ((a : Ptr) → a ∈ xs → p'.desc a ≡ p.desc a)
    → IsQueue p' q xs
IsQueue-frame p p' q xs is same = record {
  chain =
      Chain-frame (nextwaiting p) (nextwaiting p') null q.head xs is.chain
        (λ a i. ap (λ d. d.p_nextwaiting) (same a i));
  tail = is.tail;
}

-- `dequeue` sends nothing and leaves the processes of the threads alone.
dequeue-kills : (q : Queue) (p : Process) → (dequeue q p).2.kills ≡ p.kills
unfolding dequeue
dequeue-kills q p = ground arith

dequeue-pid :
    (q : Queue) (p : Process) (a : Ptr) → ((dequeue q p).2.desc a).p_pid ≡ (p.desc a).p_pid
unfolding dequeue
dequeue-pid q p a = ground arith

-- What `pthread_cond_signal` leaves.
pub record Signalled (s : State) (xs : List Ptr) (t : State) : Type 0 where
  pub waited_for : IsWaitedFor t (rest xs)
  pub mutex : t.mutex ≡ s.mutex
  pub kills : t.process.kills ≡ s.process.kills ++ wake_first s.process xs
  pub unlinked : (a : Ptr) → a ∈ xs → a ∉ rest xs → nextwaiting t.process a ≡ null
  pub same : SameOutside xs s.process t.process
  pub pids : (a : Ptr) → (t.process.desc a).p_pid ≡ (s.process.desc a).p_pid

pub cond_signal-Signalled :
    (s : State) (xs : List Ptr)
    → IsWaitedFor s xs
    → Returns (cond_signal s) success (Signalled s xs)
unfolding cond_signal
cond_signal-Signalled s [] w =
    rw (w.free, dequeue_nil s.cond.c_waiting s.process w.queue)
      (
        refl,
        record {
          waited_for = record {
            free = refl;
            queue = record { chain = w.queue.chain; tail = w.queue.tail };
          };
          mutex = refl;
          kills = sym (append-nil s.process.kills);
          unlinked = λ a i. cc;
          same = λ a o. refl;
          pids = λ a. refl;
        },
      )
cond_signal-Signalled s (x ∷ xs) w =
    let q = s.cond.c_waiting in
    let p = s.process in
    let d = dequeue_cons q p x xs w.queue in
    let nonnull : ((dequeue q p).0 == null) ≡ false = ground (arith, d.0) in
    rw (w.free, nonnull)
      (
        refl,
        record {
          waited_for = record {
            free = refl;
            queue = record { chain = d.1.chain; tail = d.1.tail };
          };
          mutex = refl;
          kills = ground (arith, d.0, dequeue-kills q p, dequeue-pid q p x);
          unlinked = λ a i out. ground (arith, d.2);
          same = λ a o. ground (arith, d.3 a);
          pids = λ a. dequeue-pid q p a;
        },
      )

-- The loop over the copy of the queue.
signal_loop-Woken :
    (fuel : ℕ) (q : Queue) (xs : List Ptr) (p : Process)
    → IsQueue p q xs
    → length xs < fuel
    → (p' : Process) × (signal_loop fuel q p ≡ some p') × Woken p xs p'
unfolding signal_loop
signal_loop-Woken zero q xs p is lt = absurd (omega arith)
signal_loop-Woken (suc k) q [] p is lt = (p, rw (dequeue_nil q p is) refl, Woken-nil p)
signal_loop-Woken (suc k) q (x ∷ xs) p is lt =
    let d = dequeue_cons q p x xs is in
    let q' = (dequeue q p).1 in
    let m : Process = restart (dequeue q p).0 (dequeue q p).2 in
    let nonnull : ((dequeue q p).0 == null) ≡ false = ground (arith, d.0) in
    let one : WokenOne p x m = record {
      kills = ground (arith, d.0, dequeue-kills q p, dequeue-pid q p x);
      unlinked = d.2;
      pids = λ a. dequeue-pid q p a;
      same = d.3;
    } in
    let (p', e, w) =
      signal_loop-Woken k q' xs m (record { chain = d.1.chain; tail = d.1.tail }) (omega arith) in
    (p', rw nonnull e, Woken-cons x xs p m p' is.chain.2 one w)

-- More fuel changes nothing.
signal_loop-more :
    (fuel more : ℕ) (q : Queue) (p p' : Process)
    → fuel ≤ more
    → signal_loop fuel q p ≡ some p'
    → signal_loop more q p ≡ some p'
unfolding signal_loop
signal_loop-more zero more q p p' le e = cc
signal_loop-more (suc k) zero q p p' le e = absurd (omega arith)
signal_loop-more (suc k) (suc m) q p p' le e =
    let (th, q', d) = dequeue q p in
    ground (arith, e, signal_loop-more k m q' (restart th d) p' (omega arith))

-- A broadcast that ends, with whatever fuel, does what it does with enough.
pub broadcast-more :
    (fuel more : ℕ) (s t : State)
    → fuel ≤ more
    → cond_broadcast fuel s ≡ some (done success t)
    → cond_broadcast more s ≡ some (done success t)
unfolding cond_broadcast
broadcast-more fuel more s t le e = looped (signal_loop fuel s.cond.c_waiting s.process) refl
  where
    looped :
        (r : Option Process)
        → signal_loop fuel s.cond.c_waiting s.process ≡ r
        → cond_broadcast more s ≡ some (done success t)
    looped none h = absurd (ground (arith, e, h))
    looped (some p') h =
        let more_loop = signal_loop-more fuel more s.cond.c_waiting s.process p' le h in
        rw more_loop (rw h at e)

-- `pthread_cond_broadcast` with enough fuel, for a condition that the threads `xs` wait for: it
-- returns 0, nobody is left in the queue, each thread is sent one restart, the longest waiting first,
-- and all are unlinked; the mutex and the other threads are as before.
pub broadcast-Woken :
    (fuel : ℕ) (s : State) (xs : List Ptr)
    → IsWaitedFor s xs
    → length xs < fuel
    → (t : State) × (cond_broadcast fuel s ≡ some (done success t))
      × IsWaitedFor t []
      × (t.mutex ≡ s.mutex)
      × Woken s.process xs t.process
unfolding cond_broadcast
broadcast-Woken fuel s xs w lt =
    let (p', e, woken) = signal_loop-Woken fuel s.cond.c_waiting xs s.process w.queue lt in
    (
      record s { cond = record (s.cond) { c_waiting = queue_init }; process = p' },
      rw (w.free, e) refl,
      record { free = w.free; queue = IsQueue-init p' },
      refl,
      woken,
    )

-- An initialised condition has nobody in its queue. `pthread_cond_destroy` changes nothing; it
-- refuses a condition that threads wait for.
pub destroy-busy :
    (s : State) (xs : List Ptr)
    → IsWaitedFor s xs
    → IsWaitedFor (record s { cond = cond_init }) []
      × (xs ≡ [] → cond_destroy s ≡ done success s)
      × (xs ≢ [] → cond_destroy s ≡ done ebusy s)
unfolding cond_init cond_destroy
destroy-busy s xs w =
    let empty : IsWaitedFor (record s { cond = cond_init }) [] = record {
      free = refl;
      queue = IsQueue-init s.process;
    } in
    (
      empty,
      λ e. ground (arith, w.free, none_waits xs e w.queue),
      λ e. ground (arith, w.free, someone_waits xs e w.queue),
    )
  where
    none_waits :
        (ys : List Ptr)
        → ys ≡ []
        → IsQueue s.process s.cond.c_waiting ys
        → s.cond.c_waiting.head ≡ null
    none_waits [] e is = is.chain
    none_waits (y ∷ ys) e is = absurd (cc e)

    someone_waits :
        (ys : List Ptr)
        → ys ≢ []
        → IsQueue s.process s.cond.c_waiting ys
        → s.cond.c_waiting.head ≢ null
    someone_waits [] e is = absurd (e refl)
    someone_waits (y ∷ ys) e is = ground arith
