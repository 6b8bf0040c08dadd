-- ===== src/Cond/Wait.antt =====
-- condvar.c: a thread that waits, from its entry in the queue to its return or its exit.
use read_linuxthreads.Prelude.{
  ℕ, ◌<◌, ◌≡◌, refl, ap, ◌∙◌, true, false, some, List, [], ◌∷◌, ◌++◌, arith, ◌∈◌, ◌∉◌, length,
  erase, has, has-snoc, Bool-cases, inl, inr,
}
use read_linuxthreads.Memory.{Ptr, Process, success, canceled_value, cancel_pending}
use read_linuxthreads.Queue.{Queue, enqueue}
use read_linuxthreads.Queue.Laws.{IsFresh, enqueue-IsQueue}
use read_linuxthreads.Queue.Removal.{remove_from_queue-erase}
use read_linuxthreads.Run.{done, exits, Waits, Returns-done}
use read_linuxthreads.Mutex
use read_linuxthreads.Mutex.{mutex_lock, mutex_unlock, lift-done, fast}
use read_linuxthreads.Mutex.Waiting.{IsIdle, wake_first, rest, Freed}
use read_linuxthreads.Mutex.Fast.{lock_free, unlock-Freed}
use read_linuxthreads.Cond.{
  State, on_mutex, cond_wait, enter_queue, remove_self, wait_end, wait_woken,
}
use read_linuxthreads.Cond.Waiters.{IsWaitedFor, IsQueue-frame}

-- The mutex of a call, as a state of its own.
abbrev pub mutex_state : State → Mutex.State
mutex_state s = record { mutex = s.mutex; process = s.process }

-- The outcome of a call on the mutex, in the larger state.
abbrev pub with_mutex : Mutex.State → State → State
with_mutex t s = record s { mutex = t.mutex; process = t.process }

pub enqueue-kills : (q : Queue) (th : Ptr) (p : Process) → (enqueue q th p).1.kills ≡ p.kills
unfolding enqueue
enqueue-kills q th p = ground arith

pub enqueue-pid :
    (q : Queue) (th : Ptr) (p : Process) (a : Ptr)
    → ((enqueue q th p).1.desc a).p_pid ≡ (p.desc a).p_pid
unfolding enqueue
enqueue-pid q th p a = ground arith

pub wake_first-same :
    (p p' : Process) (ms : List Ptr)
    → ((a : Ptr) → (p'.desc a).p_pid ≡ (p.desc a).p_pid)
    → wake_first p' ms ≡ wake_first p ms
wake_first-same p p' [] same = refl
wake_first-same p p' (m ∷ ms) same = rw (same m) refl

-- The two queues have no thread in common, and the caller is in neither.
pub record AreApart (self : Ptr) (xs ms : List Ptr) : Type 0 where
  pub apart : (a : Ptr) → a ∈ ms → a ∉ xs
  pub awake : self ∉ ms

apart_snoc :
    (self : Ptr) (xs ms : List Ptr) → AreApart self xs ms → (a : Ptr) → a ∈ xs ++ self ∷ [] → a ∉ ms
apart_snoc self xs ms h a i = elim (Bool-cases (has a ms)) [
  | inl m ↦ absurd (ground (arith, h.apart a m, h.awake, has-snoc a self xs))
  | inr out ↦ out
]

-- What `pthread_cond_wait` leaves when its thread goes to sleep.
pub record Slept (self : Ptr) (s : State) (xs ms : List Ptr) (t : State) : Type 0 where
  pub waited_for : IsWaitedFor t (xs ++ self ∷ [])
  pub count : t.mutex.m_count ≡ 0
  pub idle : IsIdle (mutex_state t) (rest ms)
  pub kills : t.process.kills ≡ s.process.kills ++ wake_first s.process ms
  pub itself : t.process.desc self ≡ s.process.desc self

pub enter_queue-Slept :
    (self : Ptr) (xs ms : List Ptr) (s : State)
    → IsWaitedFor s xs
    → IsIdle (mutex_state s) ms
    → s.mutex.m_kind ≡ fast
    → IsFresh s.process self xs
    → AreApart self xs ms
    → (u : State) × (enter_queue self s ≡ done success u) × Slept self s xs ms u
unfolding enter_queue
enter_queue-Slept self xs ms s w idle kind fresh apart =
    let q = s.cond.c_waiting in
    let (is, same) = enqueue-IsQueue q self s.process xs w.queue fresh in
    let p1 = (enqueue q self s.process).1 in
    let v : Mutex.State = record { mutex = s.mutex; process = p1 } in
    let idle1 : IsIdle v ms = record {
      free = idle.free;
      queue =
          IsQueue-frame s.process p1 s.mutex.m_waiting ms idle.queue
            (λ a i. same a (apart.apart a i));
    } in
    let (t, e, freed) =
      Returns-done (mutex_unlock v) success (Freed v ms) (unlock-Freed v ms idle1 kind) in
    let s1 : State = record {
      cond = record { c_spinlock = 0; c_waiting = (enqueue q self s.process).0 };
      mutex = s.mutex;
      process = p1;
    } in
    let unlocked : on_mutex mutex_unlock s1 ≡ done success (with_mutex t s1) =
      lift-done mutex_state with_mutex mutex_unlock s1 success t e in
    (
      with_mutex t s1,
      simp (w.free, unlocked) refl,
      record {
        waited_for = record {
          free = refl;
          queue =
              IsQueue-frame p1 t.process (enqueue q self s.process).0 (xs ++ self ∷ []) is
                (λ a i. freed.same a (apart_snoc self xs ms apart a i));
        };
        count = freed.count;
        idle = freed.idle;
        kills =
            freed.kills
            ∙ ap (λ ks. ks ++ wake_first p1 ms) (enqueue-kills q self s.process)
            ∙ ap (λ ks. s.process.kills ++ ks)
                (wake_first-same s.process p1 ms (enqueue-pid q self s.process));
        itself = freed.same self apart.awake ∙ same self fresh.new;
      },
    )

-- A thread calls pthread_cond_wait with a fast mutex, while the threads `xs` wait for the condition
-- and `ms` for the mutex, none for both and the caller for neither: it sleeps behind `xs`, the mutex
-- is free, and the first of `ms` is woken.
pub cond_wait-Slept :
    (self : Ptr) (xs ms : List Ptr) (s : State)
    → IsWaitedFor s xs
    → IsIdle (mutex_state s) ms
    → s.mutex.m_kind ≡ fast
    → IsFresh s.process self xs
    → AreApart self xs ms
    → Waits (cond_wait self s) (Slept self s xs ms)
unfolding cond_wait
cond_wait-Slept self xs ms s w idle kind fresh apart =
    let (u, e, slept) = enter_queue-Slept self xs ms s w idle kind fresh apart in rw e slept

-- The thread has left the queue.
pub removed :
    (fuel : ℕ) (self : Ptr) (xs : List Ptr) (s : State)
    → IsWaitedFor s xs
    → length xs < fuel
    → (t : State) × (remove_self fuel self s ≡ some t)
      × IsWaitedFor t (erase self xs)
      × (t.mutex ≡ s.mutex)
unfolding remove_self
removed fuel self xs s w lt =
    let (q', p', e, is, same, unlinked) =
      remove_from_queue-erase fuel s.cond.c_waiting self s.process xs w.queue lt in
    (
      record s { cond = record (s.cond) { c_waiting = q' }; process = p' },
      rw e refl,
      record { free = w.free; queue = is },
      refl,
    )

-- The thread with the mutex.
abbrev pub taken : State → State
taken s = record s { mutex = record (s.mutex) { m_count = 1 } }

pub relocked :
    (self : Ptr) (ms : List Ptr) (s : State)
    → IsIdle (mutex_state s) ms
    → s.mutex.m_kind ≡ fast
    → s.mutex.m_count ≡ 0
    → on_mutex (mutex_lock self) s ≡ done success (taken s)
relocked self ms s idle kind zero =
    lift-done mutex_state with_mutex (mutex_lock self) s success
      (record (mutex_state s) { mutex = record (s.mutex) { m_count = 1 } })
      (lock_free self (mutex_state s) ms idle kind zero)

wait_end-returns :
    (fuel : ℕ) (self : Ptr) (s : State)
    → cancel_pending (s.process.desc self) ≡ false
    → wait_end fuel self s ≡ some (done success s)
unfolding wait_end
wait_end-returns fuel self s calm = simp calm refl

-- The end of the wait, by the outcome of the removal.
wait_end-exits :
    (fuel : ℕ) (self : Ptr) (s t : State)
    → s.cond.c_spinlock ≡ 0
    → cancel_pending (s.process.desc self) ≡ true
    → remove_self fuel self s ≡ some t
    → wait_end fuel self s ≡ some (exits canceled_value t)
unfolding wait_end
wait_end-exits fuel self s t free pending e = simp (pending, free, e) refl

-- A thread that wakes up in pthread_cond_wait and finds the fast mutex free, with fuel for the
-- queue: it returns 0 with the mutex, or, with a cancellation pending, exits with PTHREAD_CANCELED
-- with the mutex, and is not in the queue any more, whether it was still there or not.
pub wait_woken-taken :
    (fuel : ℕ) (self : Ptr) (xs ms : List Ptr) (s : State)
    → IsWaitedFor s xs
    → IsIdle (mutex_state s) ms
    → s.mutex.m_kind ≡ fast
    → s.mutex.m_count ≡ 0
    → length xs < fuel
    → (cancel_pending (s.process.desc self) ≡ false
        → wait_woken fuel self s ≡ some (done success (taken s)))
      × (cancel_pending (s.process.desc self) ≡ true
          → (t : State) × (wait_woken fuel self s ≡ some (exits canceled_value t))
            × IsWaitedFor t (erase self xs)
            × (t.mutex ≡ (taken s).mutex))
unfolding wait_woken
wait_woken-taken fuel self xs ms s w idle kind zero lt = (
  λ calm.
      rw (relocked self ms s idle kind zero, wait_woken)
        (wait_end-returns fuel self (taken s) calm),
  λ pending.
      (let (t, e, left, m) =
          removed fuel self xs (taken s) (record { free = w.free; queue = w.queue }) lt in
        (
          t,
          rw (relocked self ms s idle kind zero, wait_woken)
              (wait_end-exits fuel self (taken s) t w.free pending e),
          left,
          m,
        )),
)
