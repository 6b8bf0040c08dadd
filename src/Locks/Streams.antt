-- ===== src/Locks/Streams.antt =====
-- The locks of streams in the child of a fork, and errno of a thread.
use read_linuxthreads.Prelude.{
  ℕ, zero, suc, ◌<◌, ◌≡◌, ◌≢◌, refl, false, some, List, [], ◌∷◌, arith, ◌∈◌, length, ◌==◌,
  Bool-cases, inl, inr, ◌∙◌,
}
use read_linuxthreads.Memory.{Ptr, null, success}
use read_linuxthreads.Chain.{Chain}
use read_linuxthreads.Run.{Returns}
use read_linuxthreads.Mutex.{
  MutexAttr, recursive, mutex_init, mutex_trylock, mutexattr_init, mutexattr_setkind, lift,
}
use read_linuxthreads.Mutex.Waiting.{IsIdle}
use read_linuxthreads.Locks.{
  State, Stream, view, set_mutex, ftrylockfile, reset_loop, fresetlockfiles,
}

abbrev pub chains : (Ptr → Stream) → Ptr → Ptr
chains files fp = (files fp).chain

-- A mutex that is the lock of none of the streams.
abbrev pub NotLock : (Ptr → Stream) → List Ptr → Ptr → Type 0
NotLock files [] m = Unit
NotLock files (fp ∷ fs) m = ((files fp).lock ≢ m) × NotLock files fs m

reset_loop-all :
    (fuel : ℕ) (attr : MutexAttr) (files : Ptr → Stream) (fp : Ptr) (fs : List Ptr) (s : State)
    → Chain (chains files) null fp fs
    → length fs < fuel
    → (t : State) × (reset_loop fuel attr files fp s ≡ some t)
      × (t.process ≡ s.process)
      × ((m : Ptr) → s.mutexes m ≡ mutex_init (some attr) → t.mutexes m ≡ mutex_init (some attr))
      × ((f : Ptr) → f ∈ fs → t.mutexes (files f).lock ≡ mutex_init (some attr))
      × ((m : Ptr) → NotLock files fs m → t.mutexes m ≡ s.mutexes m)
unfolding reset_loop
reset_loop-all zero attr files fp fs s c lt = absurd (omega arith)
reset_loop-all (suc k) attr files fp [] s c lt =
    (s, ground arith, refl, λ m e. e, λ f i. cc, λ m out. refl)
reset_loop-all (suc k) attr files fp (x ∷ xs) s c lt =
    let u = set_mutex (files x).lock (mutex_init (some attr)) s in
    let (t, e, same, kept, all, others) =
      reset_loop-all k attr files (chains files x) xs u c.3 (omega arith) in
    let more : (x == null) ≡ false = ground (arith, c.1) in
    (
      t,
      rw (c.0, more) e,
      same,
      λ m i. kept m (ground arith),
      λ f i. elim (Bool-cases (x == f)) [
        | inl here ↦ kept (files f).lock (ground arith)
        | inr there ↦ all f (ground arith)
      ],
      λ m out. others m out.1 ∙ ground arith,
    )

-- A fresh recursive mutex can be taken.
usable :
    (files : Ptr → Stream) (f self : Ptr) (t : State)
    → t.mutexes (files f).lock ≡ mutex_init (some (record { mutexkind = recursive }))
    → IsIdle (view (files f).lock t) []
      × ((t.mutexes (files f).lock).m_kind ≡ recursive)
      × Returns (ftrylockfile files f self t) success (λ u.
        ((u.mutexes (files f).lock).m_owner ≡ self) × ((u.mutexes (files f).lock).m_count ≡ 1))
unfolding mutex_init ftrylockfile mutex_trylock lift
usable files f self t e =
    (record { free = ground arith; queue = ground arith }, ground arith, ground arith)

-- __fresetlockfiles in the child of a fork, with the streams `fs` of the C library in a list and enough fuel,
-- in whatever state their locks were at the fork: it ends, with the process as it was, mutexes that
-- are no lock of a stream as they were, and the lock of each stream a recursive mutex that nobody
-- has and nobody waits for, which the thread `self` then gets by trylock, once counted.
pub fresetlockfiles-unlocked :
    (fuel : ℕ) (files : Ptr → Stream) (list_all self : Ptr) (fs : List Ptr) (s : State)
    → Chain (chains files) null list_all fs
    → length fs < fuel
    → (t : State) × (fresetlockfiles fuel files list_all s ≡ some t)
      × (t.process ≡ s.process)
      × ((m : Ptr) → NotLock files fs m → t.mutexes m ≡ s.mutexes m)
      × ((f : Ptr)
          → f ∈ fs
          → IsIdle (view (files f).lock t) []
            × ((t.mutexes (files f).lock).m_kind ≡ recursive)
            × Returns (ftrylockfile files f self t) success (λ u.
              ((u.mutexes (files f).lock).m_owner ≡ self)
              × ((u.mutexes (files f).lock).m_count ≡ 1)))
unfolding fresetlockfiles mutexattr_setkind mutexattr_init
fresetlockfiles-unlocked fuel files list_all self fs s c lt =
    let attr = (mutexattr_setkind mutexattr_init recursive).0 in
    let (t, e, same, kept, all, others) = reset_loop-all fuel attr files list_all fs s c lt in
    (t, e, same, others, λ f i. usable files f self t (all f i))
