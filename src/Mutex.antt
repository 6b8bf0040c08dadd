-- ===== src/Mutex.antt =====
-- mutex.c: mutexes, their attributes and `pthread_once`.
pub mod Waiting
pub mod System
pub mod Fast
pub mod Recursive
pub mod Kinds
mod Tests
use read_linuxthreads.Prelude.{
  ◌≡◌, refl, ℕ, ◌+◌, ◌-◌, ◌%◌, ◌^◌, Bool, true, false, ◌&&◌, ◌||◌, Option, none, some, ltb, ◌==◌,
  if◌then◌else◌,
}
use read_linuxthreads.Memory.{Ptr, null, Process, Errno, success, ebusy, einval, restart}
use read_linuxthreads.Queue.{Queue, queue_init, enqueue, dequeue}
use read_linuxthreads.Run.{Run, done, spins, suspends, exits, M, ◌>>=◌, ◌>>◌, pure, get, modify}

abbrev pub fast : ℕ
fast = 0

abbrev pub recursive : ℕ
recursive = 1

-- `int m_count`, as its 32-bit pattern.
abbrev pub inc32 : ℕ → ℕ
inc32 n = (n + 1) % 2 ^ 32

abbrev pub dec32 : ℕ → ℕ
dec32 n = (n + 2 ^ 32 - 1) % 2 ^ 32

-- `n > 0` for an `int`.
abbrev pub is_positive : ℕ → Bool
is_positive n = ltb 0 n && ltb n (2 ^ 31)

pub record Mutex : Type 0 where
  pub m_spinlock : ℕ
  pub m_count : ℕ
  pub m_owner : Ptr
  pub m_kind : ℕ
  pub m_waiting : Queue

pub record MutexAttr : Type 0 where
  pub mutexkind : ℕ

-- The mutex of a call, and the process.
pub record State : Type 0 where
  pub mutex : Mutex
  pub process : Process

unfoldable pub mutex_init : Option MutexAttr → Mutex
mutex_init attr = record {
  m_spinlock = 0;
  m_count = 0;
  m_owner = null;
  m_kind = elim attr [ none ↦ fast | some a ↦ a.mutexkind ];
  m_waiting = queue_init;
}

abbrev pub acquire : M State (Unit {0})
acquire s =
    if s.mutex.m_spinlock == 0
    then done tt (record s { mutex = record (s.mutex) { m_spinlock = 1 } })
    else spins

abbrev pub release : M State (Unit {0})
release = modify (λ s. record s { mutex = record (s.mutex) { m_spinlock = 0 } })

abbrev set_count : ℕ → M State (Unit {0})
set_count n = modify (λ s. record s { mutex = record (s.mutex) { m_count = n } })

abbrev set_owner : Ptr → M State (Unit {0})
set_owner th = modify (λ s. record s { mutex = record (s.mutex) { m_owner = th } })

pub mutex_destroy : M State Errno
mutex_destroy = do
  acquire
  s ← get
  let count = s.mutex.m_count
  release
  if is_positive count then pure ebusy else pure success

-- Both kinds take the mutex by such a branch, and then release the spinlock.
take_fast : M State Errno
take_fast = do set_count 1; release; pure success

take_recursive : Ptr → ℕ → M State Errno
take_recursive self count = do set_count (inc32 count); set_owner self; release; pure success

-- `test` chooses the branch; the default case of the switch returns with the spinlock held.
unfoldable pub mutex_trylock : Ptr → M State Errno
unfolding take_fast take_recursive
mutex_trylock self = do
  acquire
  s ← get
  let m = s.mutex
  if m.m_kind == fast
      then (if m.m_count == 0 then take_fast else (do release; pure ebusy))
      else if m.m_kind == recursive
      then (if (m.m_count == 0) || (m.m_owner == self)
          then take_recursive self m.m_count
          else (do release; pure ebusy))
      else pure einval

-- Behind the switch of `lock`: the thread enters the queue and waits. Woken, it runs the loop of
-- `mutex_lock` again from its top.
pub block : Ptr → M State Errno
block self s =
    let (q, p) = enqueue s.mutex.m_waiting self s.process in
    suspends (record { mutex = record (s.mutex) { m_waiting = q; m_spinlock = 0 }; process = p })

-- One round of the loop.
unfoldable pub mutex_lock : Ptr → M State Errno
unfolding take_fast take_recursive block
mutex_lock self = do
  acquire
  s ← get
  let m = s.mutex
  if m.m_kind == fast
      then (if m.m_count == 0 then take_fast else block self)
      else if m.m_kind == recursive
      then (if (m.m_count == 0) || (m.m_owner == self)
          then take_recursive self m.m_count
          else block self)
      else pure einval

-- Behind the switch of `unlock`: the first waiting thread is woken.
unfoldable pub hand_over : M State Errno
hand_over s =
    let (th, q, p) = dequeue s.mutex.m_waiting s.process in
    done success (record {
      mutex = record (s.mutex) { m_waiting = q; m_spinlock = 0 };
      process = if th == null then p else restart th p;
    })

unfoldable pub mutex_unlock : M State Errno
unfolding hand_over
mutex_unlock = do
  acquire
  s ← get
  let m = s.mutex
  if m.m_kind == fast
      then (do set_count 0; hand_over)
      else if m.m_kind == recursive
      then (if is_positive (dec32 m.m_count)
          then (do set_count (dec32 m.m_count); release; pure success)
          else (do set_count 0; hand_over))
      else pure einval

unfoldable pub mutexattr_init : MutexAttr
mutexattr_init = record { mutexkind = fast }

unfoldable pub mutexattr_setkind : MutexAttr → ℕ → MutexAttr × Errno
mutexattr_setkind attr kind =
    if (kind == fast) || (kind == recursive)
    then (record attr { mutexkind = kind }, success)
    else (attr, einval)

pub mutexattr_getkind : MutexAttr → ℕ
mutexattr_getkind attr = attr.mutexkind

-- `testandset` returns the old value and stores 1; `init_routine` is the effect of the routine.
pub once : {S : Type 0} → (S → S) → ℕ × S → ℕ × S
once init_routine (control, s) = (1, if control == 0 then init_routine s else s)

-- A call on the mutex of a larger state, which `view` reads and `put` writes.
unfoldable pub lift : {S A : Type 0} → (S → State) → (State → S → S) → M State A → M S A
lift view put m s = elim (m (view s)) [
  | done a t ↦ done a (put t s)
  | spins ↦ spins
  | suspends t ↦ suspends (put t s)
  | exits v t ↦ exits v (put t s)
]

pub lift-done :
    {S A : Type 0} (view : S → State) (put : State → S → S) (m : M State A) (s : S) (a : A)
    (t : State)
    → m (view s) ≡ done a t
    → lift view put m s ≡ done a (put t s)
unfolding lift
lift-done view put m s a t e = rw (e, lift) refl
