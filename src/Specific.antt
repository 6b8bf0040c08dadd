-- ===== src/Specific.antt =====
-- specific.c: keys and the thread-specific data stored under them.
pub mod Keys
pub mod Values
mod Tests
use read_linuxthreads.Prelude.{
  ℕ, zero, suc, ◌+◌, Bool, true, false, not, ◌&&◌, ◌||◌, Option, none, some, List, [], ◌∷◌, leb,
  ◌==◌, if◌then◌else◌, update,
}
use read_linuxthreads.Memory.{
  Ptr, null, Process, keys_max, Errno, success, eagain, einval, set_desc,
}
use read_linuxthreads.Mutex.{Mutex, mutex_lock, mutex_unlock}
use read_linuxthreads.Mutex
use read_linuxthreads.Run.{Run, done, spins, suspends, exits, M, ◌>>=◌, pure, get, modify, ◌>>◌}

-- struct pthread_key_struct; a destructor is a number, 0 for NULL.
pub record Key : Type 0 where
  pub in_use : Bool
  pub destr : ℕ

-- The table, the mutex that protects it, and the process.
pub record State : Type 0 where
  pub keys : ℕ → Key
  pub keys_mutex : Mutex
  pub process : Process

-- A call of a mutex function on `pthread_keys_mutex`.
pub on_mutex : {A : Type 0} → M Mutex.State A → M State A
on_mutex m s = elim (m (record { mutex = s.keys_mutex; process = s.process })) [
  | done a t ↦ done a (record s { keys_mutex = t.mutex; process = t.process })
  | spins ↦ spins
  | suspends t ↦ suspends (record s { keys_mutex = t.mutex; process = t.process })
  | exits v t ↦ exits v (record s { keys_mutex = t.mutex; process = t.process })
]

-- The `for` loop with `n` rounds left: the first slot from `i` on that is not in use.
pub find_free : ℕ → ℕ → (ℕ → Key) → Option ℕ
find_free zero i keys = none
find_free (suc n) i keys =
    let rest = find_free n (i + 1) keys in if (keys i).in_use then rest else some i

abbrev pub set_key : ℕ → Key → State → State
set_key i k s = record s { keys = update s.keys i k }

-- Behind the loop: the slot is taken, if there is one, and the mutex is unlocked.
pub take_slot : ℕ → Option ℕ → M State (Errno × ℕ)
take_slot destr (some i) = do
  modify (set_key i (record { in_use = true; destr = destr }))
  _ ← on_mutex mutex_unlock
  pure (success, i)
take_slot destr none = do _ ← on_mutex mutex_unlock; pure (eagain, 0)

-- The code and, on success, the key. `self` is the calling thread.
pub key_create : Ptr → ℕ → M State (Errno × ℕ)
key_create self destr = do
  _ ← on_mutex (mutex_lock self)
  s ← get
  take_slot destr (find_free keys_max 0 s.keys)

pub key_delete : Ptr → ℕ → M State Errno
key_delete self key = do
  _ ← on_mutex (mutex_lock self)
  s ← get
  if leb keys_max key || not (s.keys key).in_use
      then (do _ ← on_mutex mutex_unlock; pure einval)
      else (do
        modify (set_key key (record { in_use = false; destr = null }))
        _ ← on_mutex mutex_unlock
        pure success)

abbrev set_specific : Ptr → ℕ → ℕ → Process → Process
set_specific self key pointer p =
    set_desc self
      (record (p.desc self) { p_specific = update (p.desc self).p_specific key pointer }) p

pub setspecific : Ptr → ℕ → ℕ → Process → Errno × Process
setspecific self key pointer p =
    if leb keys_max key then (einval, p) else (success, set_specific self key pointer p)

pub getspecific : Ptr → ℕ → Process → ℕ
getspecific self key p = if leb keys_max key then null else (p.desc self).p_specific key

-- The loop with `n` rounds left, from `i` on; `call destr data` is what a destructor does.
pub destroy_loop : (ℕ → ℕ → State → State) → ℕ → ℕ → Ptr → State → State
destroy_loop call zero i self s = s
destroy_loop call (suc n) i self s =
    let destr = (s.keys i).destr in
    let data' = (s.process.desc self).p_specific i in
    destroy_loop call n (i + 1) self
      (if not (destr == null) && not (data' == null) then call destr data' s else s)

pub destroy_specifics : (ℕ → ℕ → State → State) → Ptr → State → State
destroy_specifics call self s = destroy_loop call keys_max 0 self s
