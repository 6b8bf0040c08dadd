-- ===== src/Specific/Keys.antt =====
-- Allocation of keys.
use read_linuxthreads.Prelude.{
  [], ◌⊎◌, leb, not, ◌||◌, ℕ, zero, suc, ◌+◌, ◌≤◌, ◌<◌, ◌≡◌, refl, true, false, Bool-cases, Option,
  none, some, arith, inl, inr,
}
use read_linuxthreads.Memory.{Ptr, null, keys_max, success, eagain, einval}
use native.Mathlib.Decide.{ℕ_discrete, dec_lt}
use read_linuxthreads.Run.{done, ◌>>=◌}
use read_linuxthreads.Mutex.{mutex_lock, mutex_unlock, fast}
use read_linuxthreads.Mutex.Waiting.{IsIdle}
use read_linuxthreads.Mutex.Fast.{lock_free, unlock_alone}
use read_linuxthreads.Specific.{
  Key, State, find_free, set_key, on_mutex, take_slot, key_create, key_delete, getspecific,
}

find_free-some :
    (n i j : ℕ) (keys : ℕ → Key)
    → find_free n i keys ≡ some j
    → (i ≤ j)
      × (j < i + n)
      × ((keys j).in_use ≡ false)
      × ((k : ℕ) → i ≤ k → k < j → (keys k).in_use ≡ true)
unfolding find_free
find_free-some zero i j keys e = cc
find_free-some (suc n) i j keys e = elim (Bool-cases (keys i).in_use) [
  | inl used ↦
      (let (lo, hi, free, below) = find_free-some n (i + 1) j keys (ground (arith, e)) in
        (
          omega arith,
          omega arith,
          free,
          λ k a b. elim (ℕ_discrete k i) [
            | yes q ↦ ground (arith, q)
            | no q ↦ below k (omega arith) b
          ],
        ))
  | inr free ↦
      (let here : j ≡ i = ground arith in
        (omega arith, omega arith, ground arith, λ k a b. absurd (omega arith)))
]

find_free-none :
    (n i : ℕ) (keys : ℕ → Key)
    → find_free n i keys ≡ none
    → (k : ℕ) → i ≤ k
    → k < i + n
    → (keys k).in_use ≡ true
unfolding find_free
find_free-none zero i keys e k a b = absurd (omega arith)
find_free-none (suc n) i keys e k a b = elim (ℕ_discrete k i) [
  | yes q ↦ ground (arith, q)
  | no q ↦ find_free-none n (i + 1) keys (ground arith) k (omega arith) (omega arith)
]

-- The mutex of the table is a fast one, free, and nobody waits for it.
pub record Unlocked (s : State) : Type 0 where
  pub idle : IsIdle (record { mutex = s.keys_mutex; process = s.process }) []
  pub kind : s.keys_mutex.m_kind ≡ fast
  pub count : s.keys_mutex.m_count ≡ 0

-- While the mutex is held by the call.
abbrev during : State → State
during s = record s { keys_mutex = record (s.keys_mutex) { m_count = 1 } }

locks :
    (self : Ptr) (s : State) → Unlocked s → on_mutex (mutex_lock self) s ≡ done success (during s)
unfolding on_mutex
locks self s u =
    rw
      (
        lock_free self (record { mutex = s.keys_mutex; process = s.process }) [] u.idle u.kind
            u.count,
        on_mutex,
      )
      refl

unlocks : (s : State) → Unlocked s → on_mutex mutex_unlock (during s) ≡ done success s
unfolding on_mutex
unlocks s u =
    rw
      (
        unlock_alone (record { mutex = s.keys_mutex; process = s.process }) u.idle u.kind u.count,
        on_mutex,
      )
      refl

-- A change of the table leaves the mutex alone.
Unlocked-set_key : (i : ℕ) (k : Key) (s : State) → Unlocked s → Unlocked (set_key i k s)
Unlocked-set_key i k s u = record { idle = u.idle; kind = u.kind; count = u.count }

module _ (self : Ptr) (s : State) (u : Unlocked s) where
  create_free :
      (destr i : ℕ)
      → find_free keys_max 0 s.keys ≡ some i
      → key_create self destr s
        ≡ done (success, i) (set_key i (record { in_use = true; destr = destr }) s)
  unfolding key_create take_slot
  create_free destr i e =
      let k : Key = record { in_use = true; destr = destr } in
      rw (locks self s u, e, unlocks (set_key i k s) (Unlocked-set_key i k s u)) refl

  create_full :
      (destr : ℕ)
      → find_free keys_max 0 s.keys ≡ none
      → key_create self destr s ≡ done (eagain, 0) s
  unfolding key_create take_slot
  create_full destr e = rw (locks self s u, e, unlocks s u) refl

  -- With the mutex of the table free, pthread_key_create takes the first slot that is not in use,
  -- stores the destructor there and returns its number, or returns EAGAIN and changes nothing when
  -- all slots are in use; it leaves the mutex as it was.
  pub key_create_lem :
      (destr : ℕ)
      → ((i : ℕ) × (i < keys_max)
          × ((s.keys i).in_use ≡ false)
          × ((k : ℕ) → k < i → (s.keys k).in_use ≡ true)
          × (key_create self destr s
              ≡ done (success, i) (set_key i (record { in_use = true; destr = destr }) s)))
        ⊎ (((k : ℕ) → k < keys_max → (s.keys k).in_use ≡ true)
            × (key_create self destr s ≡ done (eagain, 0) s))
  key_create_lem destr = split (find_free keys_max 0 s.keys) refl
    where
      split :
          (o : Option ℕ)
          → find_free keys_max 0 s.keys ≡ o
          → ((i : ℕ) × (i < keys_max)
              × ((s.keys i).in_use ≡ false)
              × ((k : ℕ) → k < i → (s.keys k).in_use ≡ true)
              × (key_create self destr s
                  ≡ done (success, i) (set_key i (record { in_use = true; destr = destr }) s)))
            ⊎ (((k : ℕ) → k < keys_max → (s.keys k).in_use ≡ true)
                × (key_create self destr s ≡ done (eagain, 0) s))
      split (some i) e =
          let (lo, hi, free, below) = find_free-some keys_max 0 i s.keys e in
          inl (i, omega arith, free, λ k lt. below k (omega arith) lt, create_free destr i e)
      split none e = inr (
        λ k lt. find_free-none keys_max 0 s.keys e k (omega arith) (omega arith),
        create_full destr e,
      )

  -- With the mutex of the table free, pthread_key_delete empties the slot of a key in use, and
  -- returns EINVAL and changes nothing for any other key; it leaves the mutex as it was.
  pub key_delete_lem :
      (key : ℕ)
      → (key < keys_max
          → (s.keys key).in_use ≡ true
          → key_delete self key s
            ≡ done success (set_key key (record { in_use = false; destr = null }) s))
        × ((keys_max ≤ key) ⊎ ((s.keys key).in_use ≡ false) → key_delete self key s ≡ done einval s)
  unfolding key_delete
  key_delete_lem key = (
    λ lt used.
        (let k : Key = record { in_use = false; destr = null } in
          rw (locks self s u, valid lt used, unlocks (set_key key k s) (Unlocked-set_key key k s u))
            refl),
    λ bad. rw (locks self s u, invalid bad, unlocks s u) refl,
  )
    where
      valid :
          key < keys_max
          → (s.keys key).in_use ≡ true
          → (leb keys_max key || not (s.keys key).in_use) ≡ false
      valid lt used = ground arith

      invalid :
          (keys_max ≤ key) ⊎ ((s.keys key).in_use ≡ false)
          → (leb keys_max key || not (s.keys key).in_use) ≡ true
      invalid bad = ground arith

find_free-eq :
    (key : ℕ) (keys : ℕ → Key)
    → key < keys_max
    → (keys key).in_use ≡ false
    → ((k : ℕ) → k < key → (keys k).in_use ≡ true)
    → find_free keys_max 0 keys ≡ some key
find_free-eq key keys lt free below = split (find_free keys_max 0 keys) refl
  where
    split : (o : Option ℕ) → find_free keys_max 0 keys ≡ o → find_free keys_max 0 keys ≡ some key
    split none e = absurd (cc (find_free-none keys_max 0 keys e key (omega arith) (omega arith)))
    split (some j) e =
        let (lo, hi, j_free, j_below) = find_free-some keys_max 0 j keys e in
        let j_le : j ≤ key = elim (dec_lt key j) [
          | yes q ↦ absurd (cc (j_below key (omega arith) q))
          | no q ↦ omega arith
        ] in
        let j_ge : key ≤ j = elim (dec_lt j key) [
          | yes q ↦ absurd (cc (below j q))
          | no q ↦ omega arith
        ] in
        ground (arith, e)

-- With the mutex of the table free: a key that is deleted while all lower keys are in use is the one
-- that the next pthread_key_create returns, and then every thread still reads its old value under
-- it.
pub reuse_keeps_value :
    (self : Ptr) (key destr : ℕ) (s : State)
    → Unlocked s
    → key < keys_max
    → ((k : ℕ) → k ≤ key → (s.keys k).in_use ≡ true)
    → (t : State) × ((do _ ← key_delete self key; key_create self destr) s ≡ done (success, key) t)
      × ((th : Ptr) → getspecific th key t.process ≡ getspecific th key s.process)
reuse_keeps_value self key destr s u lt used =
    let gone : State = set_key key (record { in_use = false; destr = null }) s in
    let e : find_free keys_max 0 gone.keys ≡ some key =
      find_free-eq key gone.keys lt (ground arith)
        (λ k below. ground (arith, used k (omega arith))) in
    (
      set_key key (record { in_use = true; destr = destr }) gone,
      rw ((key_delete_lem self s u key).0 lt (used key (omega arith))) (
          create_free self gone (Unlocked-set_key key (record { in_use = false; destr = null }) s u)
            destr key e),
      λ th. refl,
    )
