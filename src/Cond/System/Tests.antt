-- ===== src/Cond/System/Tests.antt =====
-- The thread 8 waits for the condition, and the thread 16 signals.
use read_linuxthreads.Prelude.{ℕ, ◌≡◌, ◌≢◌, ◌∈◌, some, refl, inl, true, false, [], ◌∷◌, arith}
use read_linuxthreads.Memory.{Ptr, success}
use read_linuxthreads.Run.{done}
use read_linuxthreads.Examples.{fresh_process}
use read_linuxthreads.Queue.{enqueue, dequeue}
use read_linuxthreads.Mutex.{mutex_init, mutex_lock, mutex_unlock, hand_over}
use read_linuxthreads.Cond.{State, cond_signal, cond_broadcast, cond_init, join_queue}
use read_linuxthreads.Cond.System.{
  moves, deliver, System, outside, locking, entering, sleeping, in_wait, Step, begin, lock, enter,
  let_go, Reach, here, later,
}
use read_linuxthreads.Cond.System.Invariant.{Threads}
use read_linuxthreads.Cond.System.Kept.{start}
use read_linuxthreads.Cond.System.Safety.{one_holder, broadcast_reaches_all, signal_reaches_one}

threads : Threads (8 ∷ 16 ∷ []) fresh_process
threads = record { ne_null = refl; pids = λ i j m n e. e }

-- The thread 8 has released the mutex and sleeps.
reach_sleeping :
    (s : System) × Reach (8 ∷ 16 ∷ []) (start fresh_process) s
    × (s.pc 8 ≡ sleeping)
    × (s.pending 8 ≡ false)
    × (s.pc 16 ≡ outside)
unfolding mutex_lock mutex_unlock hand_over mutex_init join_queue enqueue dequeue cond_init
reach_sleeping = (
  _,
  later
      (later (later (later here (begin 8 refl refl)) (lock 8 _ refl refl refl))
        (enter 8 _ refl refl refl))
      (let_go 8 _ refl refl refl),
  refl,
  refl,
  refl,
)

-- The thread 8 is in front of the release.
reach_entering : (s : System) × Reach (8 ∷ 16 ∷ []) (start fresh_process) s × (s.pc 8 ≡ entering)
unfolding mutex_lock mutex_init join_queue enqueue cond_init
reach_entering = (
  _,
  later (later (later here (begin 8 refl refl)) (lock 8 _ refl refl refl))
      (enter 8 _ refl refl refl),
  refl,
)

one_holder_example : ◌≡◌ {A = Ptr} 8 8
one_holder_example =
    one_holder (8 ∷ 16 ∷ []) fresh_process threads (λ i m. refl) {s = reach_entering.0}
      reach_entering.1 8 8 (ground (arith, reach_entering.2)) (ground (arith, reach_entering.2))

broadcast_reaches_all_example :
    (fuel : ℕ) × (u : State) × (cond_broadcast fuel reach_sleeping.0.state ≡ some (done success u))
    × Step (8 ∷ 16 ∷ []) reach_sleeping.0 (moves reach_sleeping.0 16 (reach_sleeping.0.pc 16) u)
    × ((j : Ptr)
        → in_wait (reach_sleeping.0.pc j) ≡ true
        → (deliver u reach_sleeping.0.pending j ≡ true)
          × (reach_sleeping.0.pc j ≡ sleeping
              → (v : System) × Step
                  (8 ∷ 16 ∷ [])
                  (moves reach_sleeping.0 16 (reach_sleeping.0.pc 16) u)
                  v
                × (v.pc j ≡ locking)))
broadcast_reaches_all_example =
    broadcast_reaches_all (8 ∷ 16 ∷ []) fresh_process threads (λ i m. refl) {s = reach_sleeping.0}
      reach_sleeping.1 16 refl (inl reach_sleeping.4)

signal_reaches_one_example :
    let s = reach_sleeping.0 in
    let k = s.state.cond.c_waiting.head in
    (u : State) × (cond_signal s.state ≡ done success u)
    × Step (8 ∷ 16 ∷ []) s (moves s 16 (s.pc 16) u)
    × (in_wait (s.pc k) ≡ true)
    × (s.pending k ≡ false)
    × (deliver u s.pending k ≡ true)
    × ((a : Ptr) → a ∈ 8 ∷ 16 ∷ [] → a ≢ k → deliver u s.pending a ≡ s.pending a)
    × (s.pc k ≡ sleeping
        → (v : System) × Step (8 ∷ 16 ∷ []) (moves s 16 (s.pc 16) u) v × (v.pc k ≡ locking))
signal_reaches_one_example =
    signal_reaches_one (8 ∷ 16 ∷ []) fresh_process threads (λ i m. refl) {s = reach_sleeping.0}
      reach_sleeping.1 16 8 refl (inl reach_sleeping.4) (ground (arith, reach_sleeping.2))
      reach_sleeping.3
