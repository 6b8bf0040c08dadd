-- ===== src/Mutex/Kinds.antt =====
-- The kind of a mutex: attributes and initialisation, and the default case of the switches.
use read_linuxthreads.Prelude.{
  ℕ, zero, suc, ◌≡◌, ◌≢◌, ◌⊎◌, inl, refl, none, some, List, [], ◌∷◌, arith,
}
use read_linuxthreads.Memory.{Ptr, success, einval}
use read_linuxthreads.Run.{done, spins}
use read_linuxthreads.Mutex.{
  State, fast, recursive, mutex_destroy, mutex_trylock, mutex_lock, mutex_unlock, MutexAttr,
  mutex_init, mutexattr_init, mutexattr_setkind, mutexattr_getkind, once,
}

-- `s` with the spinlock taken.
abbrev pub stuck : State → State
stuck s = record s { mutex = record (s.mutex) { m_spinlock = 1 } }

-- A mutex whose kind is neither fast nor recursive, with its spinlock free: lock, trylock and unlock
-- return EINVAL and leave the spinlock taken; from then on lock, trylock, unlock and destroy, called
-- by any thread, spin.
pub bad_kind-stuck :
    (self other : Ptr) (s : State)
    → s.mutex.m_spinlock ≡ 0
    → s.mutex.m_kind ≢ fast
    → s.mutex.m_kind ≢ recursive
    → (mutex_lock self s ≡ done einval (stuck s))
      × (mutex_trylock self s ≡ done einval (stuck s))
      × (mutex_unlock s ≡ done einval (stuck s))
      × (mutex_lock other (stuck s) ≡ spins)
      × (mutex_trylock other (stuck s) ≡ spins)
      × (mutex_unlock (stuck s) ≡ spins)
      × (mutex_destroy (stuck s) ≡ spins)
unfolding mutex_lock mutex_trylock mutex_unlock mutex_destroy
bad_kind-stuck self other s free not_fast not_recursive = (
  ground arith,
  ground arith,
  ground arith,
  ground arith,
  ground arith,
  ground arith,
  ground arith,
)

-- A sequence of calls of pthread_mutexattr_setkind_np.
abbrev pub set_kinds : MutexAttr → List ℕ → MutexAttr
set_kinds attr [] = attr
set_kinds attr (k ∷ ks) = set_kinds (mutexattr_setkind attr k).0 ks

abbrev IsKind : ℕ → Type 0
IsKind k = (k ≡ fast) ⊎ (k ≡ recursive)

setkind-IsKind :
    (attr : MutexAttr) (k : ℕ)
    → IsKind attr.mutexkind
    → IsKind (mutexattr_setkind attr k).0.mutexkind
unfolding mutexattr_setkind
setkind-IsKind attr k h = ground arith

set_kinds-IsKind :
    (attr : MutexAttr) (ks : List ℕ) → IsKind attr.mutexkind → IsKind (set_kinds attr ks).mutexkind
set_kinds-IsKind attr [] h = h
set_kinds-IsKind attr (k ∷ ks) h =
    set_kinds-IsKind (mutexattr_setkind attr k).0 ks (setkind-IsKind attr k h)

-- From initialised attributes, whatever kinds are set afterwards: the kind of a mutex initialised with
-- them is fast or recursive, and so is that of a mutex initialised without attributes. A kind that
-- setkind accepts is the one that getkind returns; for any other kind it returns EINVAL and leaves the
-- attributes alone.
pub set_kinds-init :
    (ks : List ℕ) (attr : MutexAttr) (k : ℕ)
    → (((mutex_init (some (set_kinds mutexattr_init ks))).m_kind ≡ fast)
        ⊎ ((mutex_init (some (set_kinds mutexattr_init ks))).m_kind ≡ recursive))
      × ((mutex_init none).m_kind ≡ fast)
      × ((k ≡ fast) ⊎ (k ≡ recursive)
          → ((mutexattr_setkind attr k).1 ≡ success)
            × (mutexattr_getkind (mutexattr_setkind attr k).0 ≡ k))
      × (k ≢ fast → k ≢ recursive → mutexattr_setkind attr k ≡ (attr, einval))
unfolding mutex_init mutexattr_init mutexattr_getkind mutexattr_setkind
set_kinds-init ks attr k = (
  set_kinds-IsKind (record { mutexkind = fast }) ks (inl refl),
  refl,
  λ ok. ground arith,
  λ a b. ground arith,
)

-- A number of calls of pthread_once with one control variable and one routine.
abbrev pub once_times : {S : Type 0} → (S → S) → ℕ → ℕ × S → ℕ × S
once_times f zero c = c
once_times f (suc n) c = once_times f n (once f c)

once_done : {S : Type 0} (f : S → S) (n : ℕ) (s : S) → once_times f n (1, s) ≡ (1, s)
unfolding once
once_done f zero s = refl
once_done f (suc n) s = once_done f n s

-- However often pthread_once is called with a control variable that is 0 at first, the routine runs
-- once.
pub once_times-once :
    {S : Type 0} (f : S → S) (n : ℕ) (s : S) → once_times f (suc n) (0, s) ≡ (1, f s)
unfolding once
once_times-once f n s = once_done f n (f s)
