-- ===== src/Semaphore/Counting.antt =====
-- The count of a semaphore: initial value, try, post, and the loops around the compare-and-swap.
use read_linuxthreads.Prelude.{
  ℕ, ◌+◌, ◌-◌, ◌*◌, ◌||◌, ◌&&◌, not, ◌∈◌, ◌%◌, ◌^◌, ◌≤◌, ◌<◌, ◌≡◌, inl, inr, refl, Bool, true,
  false, Bool-cases, ==→eq, some, List, [], ◌∷◌, arith, ◌==◌, if◌then◌else◌, subst,
}
use read_linuxthreads.Memory.{Ptr, einval, enosys, eagain, erange}
use read_linuxthreads.Run.{done, suspends}
use read_linuxthreads.Semaphore.{
  State, value_max, long_mod, is_odd, is_max, set_status, set_errno, link, sem_init, wait_loop,
  trywait_loop, post_loop, sem_getvalue, compare_and_swap, wait_won, post_won,
}

-- sem_init refuses a value above SEM_VALUE_MAX with EINVAL, a shared semaphore with ENOSYS, and
-- otherwise succeeds; sem_getvalue then reads the value.
pub getvalue-init :
    (self : Ptr) (value : ℕ) (pshared : Bool) (s : State)
    → (value_max < value → sem_init self value pshared s ≡ done false (set_errno self einval s))
      × (value ≤ value_max
          → pshared ≡ true
          → sem_init self value pshared s ≡ done false (set_errno self enosys s))
      × (value ≤ value_max
          → pshared ≡ false
          → (t : State) × (sem_init self value pshared s ≡ done true t) × (sem_getvalue t ≡ value))
unfolding sem_init sem_getvalue
getvalue-init self value pshared s = (
  λ big. ground arith,
  λ fits shared. ground arith,
  λ fits alone. (set_status ((value * 2 + 1) % long_mod) s, ground arith, ground arith),
)

-- The status of a semaphore whose count is `n` and that nobody waits for.
abbrev pub count_status : ℕ → ℕ
count_status n = n * 2 + 1

pub init_count :
    (self : Ptr) (value : ℕ) (s : State)
    → value < 2 ^ 30
    → sem_init self value false s ≡ done true (set_status (count_status value) s)
unfolding sem_init
init_count self value s small = ground arith

-- sem_trywait, with nobody in between: on the count 0 it fails with EAGAIN, on any other it takes 1.
pub trywait_count :
    (self : Ptr) (n : ℕ) (s : State)
    → s.sem_status ≡ count_status n
    → (n ≡ 0 → trywait_loop [] self s ≡ done false (set_errno self eagain s))
      × (0 < n → trywait_loop [] self s ≡ done true (set_status (count_status (n - 1)) s))
unfolding trywait_loop compare_and_swap
trywait_count self n s e = (λ z. ground arith, λ pos. ground arith)

-- sem_wait of an aligned thread, with nobody in between, on a semaphore that nobody waits for: it
-- takes 1 from a positive count, and on the count 0 the status becomes the thread, linked to the end
-- mark 1, which sleeps.
pub wait_count :
    (self : Ptr) (n : ℕ) (s : State)
    → s.sem_status ≡ count_status n
    → self % 2 ≡ 0
    → (0 < n → wait_loop [] self s ≡ done true (set_status (count_status (n - 1)) s))
      × (n ≡ 0 → wait_loop [] self s ≡ suspends (set_status self (link self 1 s)))
unfolding wait_loop wait_won compare_and_swap
wait_count self n s e even = (λ pos. ground arith, λ z. ground arith)

-- sem_post, with nobody in between, on a semaphore with the count `n` that nobody waits for: below
-- 2^30 - 1 it adds 1; at 2^30 - 1 it fails with ERANGE and leaves the count.
pub post_count :
    (fuel : ℕ) (self : Ptr) (n : ℕ) (s : State)
    → s.sem_status ≡ count_status n
    → (n + 1 < 2 ^ 30
        → post_loop fuel [] self s ≡ some (done true (set_status (count_status (n + 1)) s)))
      × (n + 1 ≡ 2 ^ 30 → post_loop fuel [] self s ≡ some (done false (set_errno self erange s)))
unfolding post_loop post_won compare_and_swap
post_count fuel self n s e = (λ small. ground arith, λ max. ground arith)

-- sem_init with SEM_VALUE_MAX makes a semaphore whose value is read as SEM_VALUE_MAX; sem_post on it
-- succeeds, and its value is then read as 0.
pub post_wraps :
    (fuel : ℕ) (self : Ptr) (s t : State)
    → sem_init self value_max false s ≡ done true t
    → (sem_getvalue t ≡ value_max)
      × (u : State) × (post_loop fuel [] self t ≡ some (done true u))
      × (sem_getvalue u ≡ 0)
unfolding post_loop post_won compare_and_swap sem_init sem_getvalue
post_wraps fuel self s t e = (ground arith, set_status 1 t, ground arith, refl)

cas_same :
    (old new : ℕ) (s : State)
    → s.sem_status ≡ old
    → compare_and_swap old new s ≡ (true, set_status new s)
unfolding compare_and_swap
cas_same old new s e = ground arith

cas_moved :
    (old new : ℕ) (s : State)
    → (s.sem_status == old) ≡ false
    → compare_and_swap old new s ≡ (false, s)
unfolding compare_and_swap
cas_moved old new s e = ground arith

-- Of the status `old` and those stored behind it, the first that is full or is stored again, or the last.
abbrev pub settled : ℕ → List ℕ → ℕ
settled old [] = old
settled old (v ∷ vs) = if (is_odd old && is_max old) || (v == old) then old else settled v vs

module _ (self : Ptr) where
  -- Whatever other threads store between the rounds of the loop of sem_trywait, the call does what
  -- it does alone, at one moment, on a status that the semaphore had during the call.
  pub trywait_loop-linear :
      (vs : List ℕ) (s : State)
      → (v : ℕ) × (v ∈ s.sem_status ∷ vs)
        × (trywait_loop vs self s ≡ trywait_loop [] self (set_status v s))
  unfolding trywait_loop compare_and_swap
  trywait_loop-linear [] s = (s.sem_status, ground arith, refl)
  trywait_loop-linear (v ∷ vs) s =
      elim (Bool-cases (not (is_odd s.sem_status) || (s.sem_status == 1))) [
        | inl empty ↦ (s.sem_status, ground arith, ground (arith, empty))
        | inr count ↦ elim (Bool-cases (v == s.sem_status)) [
          | inl same ↦ (s.sem_status, ground arith, ground (arith, count))
          | inr moved ↦
              (let (w, m, e) = trywait_loop-linear vs (set_status v s) in
                (w, ground arith, ground (arith, count, e)))
        ]
      ]

  -- The loop of sem_post while other threads store `vs`, one status between the load and the
  -- compare-and-swap of each round: the call does what it does alone on the status that stays the
  -- same through a whole round, the first one, or that is found full; so it acts behind every store of
  -- a round that fails, and overwrites none. If each of `vs` changes a status with room, it acts behind
  -- the last.
  pub post_loop-linear :
      (fuel : ℕ) (vs : List ℕ) (s : State)
      → post_loop fuel vs self s ≡ post_loop fuel [] self (set_status (settled s.sem_status vs) s)
  unfolding post_loop
  post_loop-linear fuel [] s = refl
  post_loop-linear fuel (v ∷ vs) s =
      elim (Bool-cases (is_odd s.sem_status && is_max s.sem_status)) [
        | inl full ↦
            (let here : s.sem_status ≡ settled s.sem_status (v ∷ vs) = ground (arith, full) in
              subst acts_on here (rw full refl))
        | inr room ↦ elim (Bool-cases (v == s.sem_status)) [
          | inl same ↦
              (let here : s.sem_status ≡ settled s.sem_status (v ∷ vs) = ground (arith, same) in
                subst acts_on here (
                  rw (
                    room,
                    cas_same s.sem_status _ (set_status v s) (==→eq v s.sem_status same),
                    cas_same s.sem_status _ (set_status s.sem_status s) refl,
                  )))
          | inr moved ↦
              (let later : settled v vs ≡ settled s.sem_status (v ∷ vs) =
                  ground (arith, room, moved) in
                subst acts_on later (
                  rw (room, cas_moved s.sem_status _ (set_status v s) moved)
                    (post_loop-linear fuel vs (set_status v s))))
        ]
      ]
    where
      acts_on : ℕ → Type 0
      acts_on x = post_loop fuel (v ∷ vs) self s ≡ post_loop fuel [] self (set_status x s)
