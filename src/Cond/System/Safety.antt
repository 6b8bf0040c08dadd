-- ===== src/Cond/System/Safety.antt =====
-- What holds in every reachable state of the threads over a mutex and a condition.
use read_linuxthreads.Prelude.{
  ◌≡◌, ◌⊎◌, inl, inr, true, false, List, [], ◌∷◌, arith, ◌∈◌, has, Bool-cases, ◌+◌, length, ◌≢◌,
  ◌==◌, ◌||◌, ◌∙◌, ap, ℕ, some, false,
}
use read_linuxthreads.Memory.{Ptr, null, Process, success}
use read_linuxthreads.Chain.{nextwaiting}
use read_linuxthreads.Run.{Returns-done, done}
use read_linuxthreads.Mutex.Waiting.{rest}
use read_linuxthreads.Queue.{Queue}
use read_linuxthreads.Queue.Laws.{IsQueue}
use read_linuxthreads.Cond.{State, cond_signal, cond_broadcast}
use read_linuxthreads.Cond.Waiters.{Signalled, cond_signal-Signalled, broadcast-Woken}
use read_linuxthreads.Cond.System.{
  System, outside, locking, owner, sleeping, has_mutex, in_wait, moves, deliver, Step, wake, signal,
  broadcast, Reach,
}
use read_linuxthreads.Cond.System.Kept.{Good, Reach-Good, start, start-Good}
use read_linuxthreads.Cond.System.Invariant.{Threads, Leave, first, deliver-has, cs_members}
use read_linuxthreads.Cond.System.Steps.Leaving.{Signalled-Leave, Woken-Leave}

-- The first thread of a queue that somebody stands in is its head.
first_of :
    {p : Process} {q : Queue} (cs : List Ptr) (j : Ptr)
    → IsQueue p q cs
    → j ∈ cs
    → (a : Ptr) → has a (first cs) ≡ (a == q.head)
first_of [] j is h a = absurd (cc h)
first_of (c ∷ cs) j is h a = ground (arith, is.chain)

module _ (ts : List Ptr) (p : Process) (threads : Threads ts p)
    (unlinked : (i : Ptr) → i ∈ ts → nextwaiting p i ≡ null) {s : System}
    (reach : Reach ts (start p) s) where
  good : Good ts s
  good = Reach-Good (start-Good ts p threads unlinked) reach

  -- In every state that the threads `ts` reach over an initialised mutex and condition, each with an
  -- address and a process of its own and none linked, by calls of lock, unlock, wait, signal and
  -- broadcast in any order, with any interleaving inside a wait, in which only a thread that has the mutex
  -- unlocks it or waits, and only one that does not locks it: two threads that have the mutex, one
  -- that has entered the queue of the condition and not yet released it included, are the same.
  pub one_holder : (i j : Ptr) → has_mutex (s.pc i) ≡ true → has_mutex (s.pc j) ≡ true → i ≡ j
  one_holder = good.inv.unique

  -- A waiter is in the queue or has been reached; if the call wakes the whole queue, or it, a restart
  -- is pending for it.
  waiter_woken :
      (u : State) (rs : List Ptr) (j : Ptr)
      → in_wait (s.pc j) ≡ true
      → Leave good.cs rs [] s.state.process u.process
      → deliver u s.pending j ≡ true
  waiter_woken u rs j w leave =
      let now =
        deliver-has good.inv u good.cs rs [] j good.threads leave (cs_members good.inv)
          (good.inv.members j (ground arith)) in
      ground (arith, now, good.inv.reached j w, leave.parts j)

  wakes :
      (t : System) (j : Ptr)
      → s.pc j ≡ sleeping
      → t.pc j ≡ s.pc j
      → t.pending j ≡ true
      → (v : System) × Step ts t v × (v.pc j ≡ locking)
  wakes t j sl same p =
      (_, wake j (good.inv.members j (ground arith)) (inr (ground arith)) p, ground arith)

  -- In every state that the threads `ts` reach over an initialised mutex and condition, each with an
  -- address and a process of its own and none linked, by calls of lock, unlock, wait, signal and
  -- broadcast, the last two one step each, whatever thread `i` outside its calls or with the mutex calls
  -- pthread_cond_broadcast: the call returns 0, and is a step of the threads; behind it a restart is
  -- pending for every thread that is in a wait, also between its entry in the queue and its sleep; for
  -- one that sleeps, a further step then ends the sleep.
  pub broadcast_reaches_all :
      (i : Ptr)
      → i ∈ ts
      → (s.pc i ≡ outside) ⊎ (s.pc i ≡ owner)
      → (fuel : ℕ) × (u : State) × (cond_broadcast fuel s.state ≡ some (done success u))
        × Step ts s (moves s i (s.pc i) u)
        × ((j : Ptr)
            → in_wait (s.pc j) ≡ true
            → (deliver u s.pending j ≡ true)
              × (s.pc j ≡ sleeping
                  → (v : System) × Step ts (moves s i (s.pc i) u) v × (v.pc j ≡ locking)))
  broadcast_reaches_all i m e =
      let cs = good.cs in
      let (u, r, waited, same, woken) =
        broadcast-Woken (length cs + 1) s.state cs good.inv.waited_for (omega arith) in
      let leave = Woken-Leave s.state.process u.process cs woken in
      (
        length cs + 1,
        u,
        r,
        broadcast i (length cs + 1) u m e r,
        λ j w.
            (let now = waiter_woken u cs j w leave in
              (now, λ sl. wakes (moves s i (s.pc i) u) j sl (ground arith) now)),
      )

  -- In every state that the threads `ts` reach over an initialised mutex and condition, each with an
  -- address and a process of its own and none linked, by calls of lock, unlock, wait, signal and
  -- broadcast, the last two one step each, whatever thread `i` outside its calls or with the mutex calls
  -- pthread_cond_signal, while some thread `j` is in a wait and no restart is pending for it: the call
  -- returns 0, and is a step of the threads. The thread at the head of the queue of the condition is
  -- in a wait with no restart pending; behind the call one is pending for it, and for no other
  -- thread for which none was; if it sleeps, a further step then ends the sleep.
  pub signal_reaches_one :
      (i j : Ptr)
      → i ∈ ts
      → (s.pc i ≡ outside) ⊎ (s.pc i ≡ owner)
      → in_wait (s.pc j) ≡ true
      → s.pending j ≡ false
      → let k = s.state.cond.c_waiting.head in
        (u : State) × (cond_signal s.state ≡ done success u)
        × Step ts s (moves s i (s.pc i) u)
        × (in_wait (s.pc k) ≡ true)
        × (s.pending k ≡ false)
        × (deliver u s.pending k ≡ true)
        × ((a : Ptr) → a ∈ ts → a ≢ k → deliver u s.pending a ≡ s.pending a)
        × (s.pc k ≡ sleeping → (v : System) × Step ts (moves s i (s.pc i) u) v × (v.pc k ≡ locking))
  signal_reaches_one i j m e w quiet =
      let cs = good.cs in
      let queued : j ∈ cs = elim (Bool-cases (has j cs)) [
        | inl h ↦ h
        | inr h ↦ absurd (ground (arith, good.inv.reached j w h))
      ] in
      let (u, r, f) =
        Returns-done (cond_signal s.state) success (Signalled s.state cs)
          (cond_signal-Signalled s.state cs good.inv.waited_for) in
      let leave = Signalled-Leave s.state u cs good.inv.waited_for f in
      let k = s.state.cond.c_waiting.head in
      let only = first_of cs j good.inv.waited_for.queue queued in
      let here : k ∈ cs = ground (arith, leave.parts k, only k) in
      let reaches : (a : Ptr) → a ∈ ts → deliver u s.pending a ≡ (s.pending a || (a == k)) = λ a h.
        deliver-has good.inv u cs (first cs) (rest cs) a good.threads leave (cs_members good.inv) h
        ∙ ap (λ b. s.pending a || b) (only a) in
      let pending : deliver u s.pending k ≡ true =
        ground (arith, reaches k (cs_members good.inv k here)) in
      (
        u,
        r,
        signal i u m e r,
        (good.inv.in_queue k here).0,
        (good.inv.in_queue k here).1,
        pending,
        λ a h ne. ground (arith, reaches a h),
        λ sl. wakes (moves s i (s.pc i) u) k sl (ground arith) pending,
      )
