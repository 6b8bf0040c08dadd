-- ===== src/Cond/Timeout.antt =====
-- condvar.c: pthread_cond_timedwait, from the entry in the queue to the end of the sleep.
use read_linuxthreads.Prelude.{
  ℕ, ◌<◌, ◌≡◌, ◌≢◌, refl, ap, subst, ◌+◌, ◌*◌, ◌∙◌, Bool, true, false, none, some, List, [], ◌∷◌,
  ◌++◌, arith, ◌==◌, if◌then◌else◌, ◌∉◌, length, length-append, erase,
}
use read_linuxthreads.Memory.{
  Errno, Ptr, null, Pthread, success, etimedout, eintr, canceled_value, cancel_pending, set_desc,
}
use read_linuxthreads.Chain.{nextwaiting, Chain-frame}
use read_linuxthreads.Queue.Laws.{IsFresh}
use read_linuxthreads.Run.{done, exits, Waits}
use read_linuxthreads.Mutex.{fast}
use read_linuxthreads.Mutex.Waiting.{IsIdle}
use read_linuxthreads.Cond.{
  State, cancelled, ended, timedwait_start, timedwait_end, timedwait_relock, cond_timedwait,
  Timespec,
}
use read_linuxthreads.Cond.Waiters.{IsWaitedFor}
use read_linuxthreads.Cond.Time.{relative_time-difference}
use read_linuxthreads.Cond.Wait.{mutex_state, AreApart, enter_queue-Slept, removed, taken, relocked}

-- A change of the descriptor of `self` that keeps its link.
abbrev with_desc : Ptr → Pthread → State → State
with_desc self d s = record s { process = set_desc self d s.process }

kept_queue :
    (self : Ptr) (xs : List Ptr) (s : State) (d : Pthread)
    → IsWaitedFor s xs
    → d.p_nextwaiting ≡ nextwaiting s.process self
    → IsWaitedFor (with_desc self d s) xs
kept_queue self xs s d w same = record {
  free = w.free;
  queue = record {
    chain =
        Chain-frame (nextwaiting s.process) _ null s.cond.c_waiting.head xs w.queue.chain
          (λ a i. ground arith);
    tail = w.queue.tail;
  };
}

-- The sleep is over.
abbrev up : Ptr → State → State
up self s = with_desc self (record (s.process.desc self) { p_signal_jmp = null }) s

up-pending :
    (self : Ptr) (s : State)
    → cancel_pending ((up self s).process.desc self) ≡ cancel_pending (s.process.desc self)
up-pending self s = ground arith

up-signal :
    (self : Ptr) (s : State)
    → ((up self s).process.desc self).p_signal ≡ (s.process.desc self).p_signal
up-signal self s = ground arith

-- The end of the sleep in pthread_cond_timedwait, with fuel for the queue: a thread with a
-- cancellation pending leaves the queue and goes on to exit; one that was not signalled leaves the
-- queue and goes on to return ETIMEDOUT when its time has expired and EINTR otherwise; one that was
-- signalled goes on to return 0, with the queue as it is.
pub timedwait_end-ended :
    (fuel : ℕ) (expired : Bool) (self : Ptr) (xs : List Ptr) (s : State)
    → IsWaitedFor s xs
    → length xs < fuel
    → (cancel_pending (s.process.desc self) ≡ true
        → (t : State) × (timedwait_end fuel expired self s ≡ some (done cancelled t))
          × IsWaitedFor t (erase self xs)
          × (t.mutex ≡ s.mutex))
      × (cancel_pending (s.process.desc self) ≡ false
          → (s.process.desc self).p_signal ≡ 0
          → (t : State) × (timedwait_end fuel expired self s
              ≡ some (done (ended (if expired then etimedout else eintr)) t))
            × IsWaitedFor t (erase self xs)
            × (t.mutex ≡ s.mutex))
      × (cancel_pending (s.process.desc self) ≡ false
          → (s.process.desc self).p_signal ≢ 0
          → (t : State) × (timedwait_end fuel expired self s ≡ some (done (ended success) t))
            × IsWaitedFor t xs
            × (t.mutex ≡ s.mutex))
unfolding timedwait_end
timedwait_end-ended fuel expired self xs s w lt =
    let w' = kept_queue self xs s _ w refl in
    let (t, e, left, m) = removed fuel self xs (up self s) w' lt in
    (
      λ pending. (t, simp (w.free, up-pending self s, pending, e) refl, left, m),
      λ calm zero.
          (t, simp (w.free, up-pending self s, calm, up-signal self s ∙ zero, e) refl, left, m),
      λ calm signal.
          (let come : ((s.process.desc self).p_signal == 0) ≡ false = ground arith in
            (
              up self s,
              simp (w.free, up-pending self s, calm, up-signal self s, come) refl,
              w',
              refl,
            )),
    )

-- The thread is ready for the signal.
abbrev armed : (jmpbuf self : Ptr) → State → State
armed jmpbuf self s =
    with_desc self (record (s.process.desc self) { p_signal_jmp = jmpbuf; p_signal = 0 }) s

armed-pending :
    (jmpbuf self : Ptr) (s : State)
    → cancel_pending ((armed jmpbuf self s).process.desc self)
      ≡ cancel_pending (s.process.desc self)
armed-pending jmpbuf self s = ground arith

armed-signal :
    (jmpbuf self : Ptr) (s : State) → ((armed jmpbuf self s).process.desc self).p_signal ≡ 0
armed-signal jmpbuf self s = ground arith

erase-snoc : (a : Ptr) (xs : List Ptr) → a ∉ xs → erase a (xs ++ a ∷ []) ≡ xs
erase-snoc a [] out = ground arith
erase-snoc a (x ∷ xs) out = ground (arith, erase-snoc a xs)

-- A thread that is not cancelled calls pthread_cond_timedwait with a fast mutex, while the threads
-- `xs` wait for the condition and `ms` for the mutex, none for both and the caller for neither: it
-- sleeps behind `xs`, and if nothing happens until its time has expired the outcome is ETIMEDOUT and
-- the queue is `xs` again.
pub timedwait-timeout :
    (fuel : ℕ) (jmpbuf self : Ptr) (xs ms : List Ptr) (s : State)
    → IsWaitedFor s xs
    → IsIdle (mutex_state s) ms
    → s.mutex.m_kind ≡ fast
    → IsFresh s.process self xs
    → AreApart self xs ms
    → cancel_pending (s.process.desc self) ≡ false
    → length xs + 1 < fuel
    → Waits (timedwait_start jmpbuf self s) (λ t.
      IsWaitedFor t (xs ++ self ∷ [])
      × (t' : State) × (timedwait_end fuel true self t ≡ some (done (ended etimedout) t'))
      × IsWaitedFor t' xs)
unfolding timedwait_start
timedwait-timeout fuel jmpbuf self xs ms s w idle kind fresh apart calm lt =
    let (u, e, slept) = enter_queue-Slept self xs ms s w idle kind fresh apart in
    let t : State = armed jmpbuf self u in
    let calm_t : cancel_pending (t.process.desc self) ≡ false =
      armed-pending jmpbuf self u ∙ ap cancel_pending slept.itself ∙ calm in
    let w' : IsWaitedFor t (xs ++ self ∷ []) =
      kept_queue self (xs ++ self ∷ []) u _ slept.waited_for refl in
    let out =
      (timedwait_end-ended fuel true self (xs ++ self ∷ []) t w'
          (omega (arith, length-append xs (self ∷ [])))).1
        calm_t (armed-signal jmpbuf self u) in
    simp (e, calm_t)
      (w', out.0, out.1, subst (λ ys. IsWaitedFor out.0 ys) (erase-snoc self xs fresh.new) out.2)

-- The mutex is free when the thread comes back: it returns the code, or exits, with the mutex.
timedwait_relock-taken :
    (self : Ptr) (ms : List Ptr) (s : State)
    → IsIdle (mutex_state s) ms
    → s.mutex.m_kind ≡ fast
    → s.mutex.m_count ≡ 0
    → ((code : Errno) → timedwait_relock self (ended code) s ≡ done code (taken s))
      × (timedwait_relock self cancelled s ≡ exits canceled_value (taken s))
unfolding timedwait_relock
timedwait_relock-taken self ms s idle kind zero =
    let e = relocked self ms s idle kind zero in (λ code. rw e refl, rw e refl)

-- A time in the past: the call returns at once, with nothing changed.
cond_timedwait-past :
    (sec usec : ℕ) (abstime : Timespec) (jmpbuf self : Ptr) (s : State)
    → usec < 1_000_000
    → abstime.tv_nsec < 1_000_000_000
    → abstime.tv_sec * 1_000_000_000 + abstime.tv_nsec < sec * 1_000_000_000 + usec * 1000
    → cond_timedwait sec usec abstime jmpbuf self s ≡ done none s
unfolding cond_timedwait
cond_timedwait-past sec usec abstime jmpbuf self s small fits past =
    rw ((relative_time-difference sec usec abstime small fits).0 past, cond_timedwait) refl
