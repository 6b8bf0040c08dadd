-- ===== src/Cond.antt =====
-- condvar.c: conditions.
pub mod Time
pub mod Waiters
pub mod Wait
pub mod Timeout
pub mod System
mod Tests
use read_linuxthreads.Prelude.{
  ℕ, zero, suc, ◌+◌, ◌-◌, ◌*◌, ◌^◌, Bool, true, false, Option, none, some, ltb, ◌==◌, if◌then◌else◌,
  option_map,
}
use read_linuxthreads.Memory.{
  Ptr, null, Process, Errno, success, ebusy, etimedout, eintr, canceled_value, set_desc, restart,
  cancel_pending,
}
use read_linuxthreads.Queue.{Queue, queue_init, enqueue, dequeue, remove_from_queue}
use read_linuxthreads.Mutex
use read_linuxthreads.Mutex.{Mutex, mutex_lock, mutex_unlock, lift}
use read_linuxthreads.Run.{Run, done, spins, suspends, exits, M, ◌>>=◌, ◌>>◌, pure, get, modify}

pub record Cond : Type 0 where
  pub c_spinlock : ℕ
  pub c_waiting : Queue

-- The condition of a call, the mutex that goes with it, and the process.
pub record State : Type 0 where
  pub cond : Cond
  pub mutex : Mutex
  pub process : Process

unfoldable pub cond_init : Cond
cond_init = record { c_spinlock = 0; c_waiting = queue_init }

abbrev pub on_mutex : {A : Type 0} → M Mutex.State A → M State A
on_mutex =
    lift (λ s. record { mutex = s.mutex; process = s.process })
      (λ t s. record s { mutex = t.mutex; process = t.process })

-- What stands between `acquire(&cond->c_spinlock)` and `release`, as one step on the waiting queue.
abbrev pub locked : {A : Type 0} → (Queue → Process → A × Queue × Process) → M State A
locked f s =
    if s.cond.c_spinlock == 0
    then (let (a, q, p) = f s.cond.c_waiting s.process in
        done a (record s { cond = record { c_spinlock = 0; c_waiting = q }; process = p }))
    else spins

pub cond_destroy : M State Errno
cond_destroy = do
  head ← locked (λ q p. (q.head, q, p))
  if head == null then pure success else pure ebusy

-- The thread enters the queue, and then gives up the mutex, as both kinds of wait begin.
pub join_queue : Ptr → M State (Unit {0})
join_queue self = locked (λ q p. (let (q', p') = enqueue q self p in (tt, q', p')))

pub enter_queue : Ptr → M State Errno
unfolding join_queue
enter_queue self = do join_queue self; on_mutex mutex_unlock

-- As far as `suspend_with_cancellation`.
pub cond_wait : Ptr → M State Errno
cond_wait self = do _ ← enter_queue self; suspends

-- The removal of the thread, with the spinlock taken; `none` means that the fuel ran out.
pub remove_self : ℕ → Ptr → State → Option State
remove_self fuel self s =
    option_map (λ (q, p). record s { cond = record (s.cond) { c_waiting = q }; process = p })
      (remove_from_queue fuel s.cond.c_waiting self s.process)

-- Behind the call of `pthread_mutex_lock`.
pub wait_end : ℕ → Ptr → State → Option (Run State Errno)
wait_end fuel self s =
    if cancel_pending (s.process.desc self)
    then (if s.cond.c_spinlock == 0
        then option_map (exits canceled_value) (remove_self fuel self s)
        else some spins)
    else some (done success s)

-- Behind `suspend_with_cancellation`. A thread that has to wait for the mutex runs this again.
pub wait_woken : ℕ → Ptr → State → Option (Run State Errno)
unfolding wait_end
wait_woken fuel self s = elim (on_mutex (mutex_lock self) s) [
  | done code t ↦ wait_end fuel self t
  | spins ↦ some spins
  | suspends t ↦ some (suspends t)
  | exits v t ↦ some (exits v t)
]

pub cond_signal : M State Errno
cond_signal = do
  th ← locked dequeue
  modify (λ s. record s { process = if th == null then s.process else restart th s.process })
  pure success

-- The loop over the copied queue; `none` means that the fuel ran out.
pub signal_loop : ℕ → Queue → Process → Option Process
signal_loop zero q p = none
signal_loop (suc fuel) q p =
    let (th, q', p') = dequeue q p in
    let rest = signal_loop fuel q' (restart th p') in if th == null then some p' else rest

-- The whole call, with nobody in between: the queue is copied and emptied with the spinlock taken, and
-- the copy is walked behind the release.
pub cond_broadcast : ℕ → State → Option (Run State Errno)
unfolding signal_loop
cond_broadcast fuel s =
    if s.cond.c_spinlock == 0
    then option_map
        (λ p.
          done success
            (record s { cond = record (s.cond) { c_waiting = queue_init }; process = p }))
        (signal_loop fuel s.cond.c_waiting s.process)
    else some spins

-- How the wait in pthread_cond_timedwait_relative ends.
pub data Ending : Type 0 where
  cancelled : Ending
  ended : (code : Errno) → Ending

-- As far as `__libc_nanosleep`: `suspends` when the thread sleeps, and the value -1 of `retsleep`,
-- here `false`, when it does not since it is cancelled. `jmpbuf` is the address of the jump buffer.
pub timedwait_start : (jmpbuf self : Ptr) → M State Bool
timedwait_start jmpbuf self = do
  _ ← enter_queue self
  modify (λ s. record s {
    process =
        set_desc self (record (s.process.desc self) { p_signal_jmp = jmpbuf; p_signal = 0 })
          s.process;
  })
  s ← get
  if cancel_pending (s.process.desc self) then pure false else suspends

-- From the end of the sleep to the last `release`; `expired` is the test `retsleep == 0`.
pub timedwait_end : ℕ → (expired : Bool) → Ptr → State → Option (Run State Ending)
timedwait_end fuel expired self s =
    let t = record s {
      process = set_desc self (record (s.process.desc self) { p_signal_jmp = null }) s.process;
    } in
    let d = t.process.desc self in
    let code = if expired then etimedout else eintr in
    if t.cond.c_spinlock == 0
    then (if cancel_pending d
        then option_map (done cancelled) (remove_self fuel self t)
        else if d.p_signal == 0
        then option_map (done (ended code)) (remove_self fuel self t)
        else some (done (ended success) t))
    else some spins

-- The thread takes the mutex again, and then returns or exits.
pub timedwait_relock : Ptr → Ending → M State Errno
timedwait_relock self ending = do
  _ ← on_mutex (mutex_lock self)
  elim ending [ cancelled ↦ exits canceled_value | ended code ↦ pure code ]

-- A time of day in seconds and nanoseconds.
pub record Timespec : Type 0 where
  pub tv_sec : ℕ
  pub tv_nsec : ℕ

-- The offset from now to `abstime`; `none` is the return of ETIMEDOUT. `sec` and `usec` are what
-- gettimeofday stores. The times are not negative, so the differences are negative when the
-- subtrahend is the larger one.
pub relative_time : (sec usec : ℕ) → Timespec → Option Timespec
relative_time sec usec abstime =
    let borrow = if ltb abstime.tv_nsec (usec * 1000) then 1 else 0 in
    if ltb abstime.tv_sec (sec + borrow)
    then none
    else some (record {
      tv_sec = abstime.tv_sec - (sec + borrow);
      tv_nsec = abstime.tv_nsec + borrow * 1_000_000_000 - usec * 1000;
    })

-- `pthread_cond_timedwait` as far as its sleep, for the time of `relative_time`; `none` is the return
-- of ETIMEDOUT at once.
pub cond_timedwait : (sec usec : ℕ) → Timespec → (jmpbuf self : Ptr) → M State (Option Bool)
cond_timedwait sec usec abstime jmpbuf self = elim (relative_time sec usec abstime) [
  | none ↦ pure none
  | some reltime ↦ (do slept ← timedwait_start jmpbuf self; pure (some slept))
]
