-- ===== src/Semaphore/Waiters.antt =====
-- The threads that wait for a semaphore, the last one to come first: wait, post, cancellation.
use read_linuxthreads.Prelude.{
  ℕ, zero, suc, ◌%◌, ◌<◌, ◌≡◌, ◌≢◌, refl, sym, subst, inl, inr, true, false, Bool-cases, some, List,
  [], ◌∷◌, arith, ◌==◌, ◌∉◌, length, erase, not-mem-erase,
}
use read_linuxthreads.Memory.{
  ebusy, Ptr, null, Process, canceled_value, set_nextwaiting, restart, cancel_pending,
}
use read_linuxthreads.Chain.{nextwaiting, Chain, SameOutside, Chain-frame, mem_ne}
use read_linuxthreads.Woken.{Woken, WokenOne, Woken-nil, Woken-cons}
use read_linuxthreads.Run.{done, suspends, exits}
use read_linuxthreads.Semaphore.{
  sem_getvalue, sem_destroy, set_errno, State, has_count, set_status, link, wait_loop, wait_won,
  compare_and_swap, unlink_loop, unlink_self, wait_woken, wake_loop, post_won, post_loop,
}

-- Descriptors are aligned, so that an address is told from a count by its lowest bit.
abbrev pub IsThread : Ptr → Type 0
IsThread th = (th ≢ null) × (th % 2 ≡ 0)

abbrev pub AllThreads : List Ptr → Type 0
AllThreads [] = Unit
AllThreads (x ∷ xs) = IsThread x × AllThreads xs

-- The threads `xs` wait, and the count is 0.
pub record IsWaiting (s : State) (xs : List Ptr) : Type 0 where
  pub chain : Chain (nextwaiting s.process) 1 s.sem_status xs
  pub threads : AllThreads xs

no_count : (s : State) (xs : List Ptr) → IsWaiting s xs → has_count s.sem_status ≡ false
no_count s [] w = ground arith
no_count s (x ∷ xs) w = ground arith

-- `self` is linked in front of the chain.
pub Chain-push :
    (self p : Ptr) (xs : List Ptr) (q : Process)
    → Chain (nextwaiting q) 1 p xs
    → IsThread self
    → self ∉ xs
    → Chain (nextwaiting (set_nextwaiting self p q)) 1 self (self ∷ xs)
Chain-push self p xs q c th new = (
  refl,
  ground arith,
  new,
  (let hop : nextwaiting (set_nextwaiting self p q) self ≡ p = ground arith in
      rw hop (Chain-frame (nextwaiting q) _ 1 p xs c (λ b i. ground (arith, mem_ne self b xs)))),
)

-- sem_wait, with nobody in between, on a semaphore that the threads `xs` wait for: the thread, which
-- is none of them, is linked in front of them and sleeps; the other threads are as before.
pub wait-IsWaiting :
    (self : Ptr) (xs : List Ptr) (s : State)
    → IsWaiting s xs
    → IsThread self
    → self ∉ xs
    → (t : State) × (wait_loop [] self s ≡ suspends t)
      × IsWaiting t (self ∷ xs)
      × SameOutside (self ∷ []) s.process t.process
unfolding wait_loop wait_won compare_and_swap
wait-IsWaiting self xs s w th new = (
  set_status self (link self s.sem_status s),
  ground (arith, no_count s xs w),
  record {
    chain = Chain-push self s.sem_status xs s.process w.chain th new;
    threads = (th, w.threads);
  },
  λ a out. ground arith,
)

-- The body of the loop at `x`.
abbrev wake_one : Ptr → Process → Process
wake_one x p = restart x (set_nextwaiting x null p)

wake_one-WokenOne : (x : Ptr) (p : Process) → WokenOne p x (wake_one x p)
wake_one-WokenOne x p = ground arith

wake_loop-Woken :
    (fuel : ℕ) (x : Ptr) (xs : List Ptr) (p : Process)
    → Chain (nextwaiting p) 1 x (x ∷ xs)
    → length xs < fuel
    → (p' : Process) × (wake_loop fuel x p ≡ some p') × Woken p (x ∷ xs) p'
unfolding wake_loop
wake_loop-Woken zero x xs p c lt = absurd (omega arith)
wake_loop-Woken (suc k) x [] p c lt = (
  wake_one x p,
  ground arith,
  Woken-cons x [] p (wake_one x p) (wake_one x p) refl (wake_one-WokenOne x p)
      (Woken-nil (wake_one x p)),
)
wake_loop-Woken (suc k) x (y ∷ ys) p c lt =
    let (p', e, w) = wake_loop-Woken k y ys (wake_one x p) rest_chain (omega arith) in
    (p', ground (arith, e), Woken-cons x (y ∷ ys) p (wake_one x p) p' c.2 (wake_one-WokenOne x p) w)
  where
    rest_chain : Chain (nextwaiting (wake_one x p)) 1 y (y ∷ ys)
    rest_chain =
        Chain-frame (nextwaiting p) _ 1 y (y ∷ ys) (refl, c.3.1, c.3.2, c.3.3)
          (λ a i. ground (arith, mem_ne x a (y ∷ ys)))

-- sem_post, with nobody in between and enough fuel, on a semaphore that the threads `x ∷ xs` wait
-- for, the last one to come first: it succeeds, the count becomes 1, and each of them is sent one
-- restart, in this order, and unlinked; the other threads are as before.
pub post-Woken :
    (fuel : ℕ) (self x : Ptr) (xs : List Ptr) (s : State)
    → IsWaiting s (x ∷ xs)
    → length xs < fuel
    → (t : State) × (post_loop fuel [] self s ≡ some (done true t))
      × (t.sem_status ≡ 3)
      × Woken s.process (x ∷ xs) t.process
unfolding post_loop post_won compare_and_swap
post-Woken fuel self x xs s w lt =
    let (p', e, woken) =
      wake_loop-Woken fuel x xs s.process (refl, w.chain.1, w.chain.2, w.chain.3) lt in
    (record { sem_status = 3; process = p' }, ground (arith, e), refl, woken)

-- The first loop step takes `self` out right behind `t`; later ones leave the link of `t` alone.
unlink_loop-Chain :
    (fuel : ℕ) (self t : Ptr) (xs : List Ptr) (p : Process)
    → Chain (nextwaiting p) 1 t (t ∷ xs)
    → AllThreads xs
    → length xs < fuel
    → (p' : Process) × (unlink_loop fuel self t p ≡ some p')
      × Chain (nextwaiting p') 1 t (t ∷ erase self xs)
      × SameOutside (t ∷ xs) p p'
unfolding unlink_loop
unlink_loop-Chain zero self t xs p c all lt = absurd (omega arith)
unlink_loop-Chain (suc k) self t [] p c all lt = (p, ground arith, c, λ a o. refl)
unlink_loop-Chain (suc k) self t (x ∷ ys) p c all lt = elim (Bool-cases (x == self)) [
  | inl hit ↦
      (let e : self ≡ x = ground arith in
        (
          set_nextwaiting t (nextwaiting p self) p,
          ground arith,
          rw hit (
              subst (λ z. Chain (nextwaiting (set_nextwaiting t (nextwaiting p z) p)) 1 t (t ∷ ys))
                (sym e) (cut x ys c)),
          λ a o. ground arith,
        ))
  | inr miss ↦
      (let (p', e, c', same) =
          unlink_loop-Chain k self x ys p (refl, c.3.1, c.3.2, c.3.3) all.1 (omega arith) in
        (
          p',
          ground (arith, e),
          rw miss (keep x ys p' c c' miss same),
          λ a o. same a (ground arith),
        ))
]
  where
    cut :
        (x : Ptr) (ys : List Ptr)
        → Chain (nextwaiting p) 1 t (t ∷ x ∷ ys)
        → Chain (nextwaiting (set_nextwaiting t (nextwaiting p x) p)) 1 t (t ∷ ys)
    cut x ys c = (
      refl,
      c.1,
      ground arith,
      (let hop : nextwaiting (set_nextwaiting t (nextwaiting p x) p) t ≡ nextwaiting p x =
            ground arith in
          rw hop (
            Chain-frame (nextwaiting p) _ 1 (nextwaiting p x) ys c.3.3
              (λ a i. ground (arith, mem_ne t a ys)))),
    )

    keep :
        (x : Ptr) (ys : List Ptr) (p' : Process)
        → Chain (nextwaiting p) 1 t (t ∷ x ∷ ys)
        → Chain (nextwaiting p') 1 x (x ∷ erase self ys)
        → (x == self) ≡ false
        → SameOutside (x ∷ ys) p p'
        → Chain (nextwaiting p') 1 t (t ∷ x ∷ erase self ys)
    keep x ys p' c c' miss same = (
      refl,
      c.1,
      ground (arith, not-mem-erase t self ys),
      (let hop : nextwaiting p' t ≡ x = ground (arith, same t) in rw hop c'),
    )

AllThreads-erase : (a : Ptr) (xs : List Ptr) → AllThreads xs → AllThreads (erase a xs)
AllThreads-erase a [] all = tt
AllThreads-erase a (x ∷ xs) all = ground (arith, AllThreads-erase a xs)

unlink_self-IsWaiting :
    (fuel : ℕ) (self : Ptr) (xs : List Ptr) (s : State)
    → IsWaiting s xs
    → IsThread self
    → length xs < fuel
    → (t : State) × (unlink_self fuel self s ≡ some t) × IsWaiting t (erase self xs)
unfolding unlink_self compare_and_swap
unlink_self-IsWaiting fuel self [] s w th lt = (s, ground arith, w)
unlink_self-IsWaiting fuel self (x ∷ ys) s w th lt = elim (Bool-cases (x == self)) [
  | inl hit ↦ (
    set_status (nextwaiting s.process x) s,
    ground arith,
    rw hit (record { chain = w.chain.3; threads = w.threads.1 }),
  )
  | inr miss ↦
      (let (p', e, c, same) =
          unlink_loop-Chain fuel self x ys s.process (refl, w.chain.1, w.chain.2, w.chain.3)
            w.threads.1 (omega arith) in
        (
          record s { process = p' },
          ground (arith, e),
          rw miss (record {
            chain = rw w.chain.0 c;
            threads = (w.threads.0, AllThreads-erase self ys w.threads.1);
          }),
        ))
]

-- A thread that wakes up in sem_wait with a cancellation pending, with enough fuel: it exits with
-- PTHREAD_CANCELED, and the threads that wait are the others, in their order, whether it was still
-- among them or not.
pub cancel-IsWaiting :
    (fuel : ℕ) (others : List ℕ) (self : Ptr) (xs : List Ptr) (s : State)
    → IsWaiting s xs
    → IsThread self
    → length xs < fuel
    → cancel_pending (s.process.desc self) ≡ true
    → (t : State) × (wait_woken fuel others self s ≡ some (exits canceled_value t))
      × IsWaiting t (erase self xs)
unfolding wait_woken
cancel-IsWaiting fuel others self xs s w th lt pending =
    let (t, e, left) = unlink_self-IsWaiting fuel self xs s w th lt in
    (t, rw (pending, e) refl, left)

-- While threads wait, the value reads as 0 and sem_destroy fails with EBUSY; otherwise it succeeds.
destroy-IsWaiting :
    (self : Ptr) (x : Ptr) (xs : List Ptr) (s : State)
    → (IsWaiting s (x ∷ xs)
        → (sem_getvalue s ≡ 0) × (sem_destroy self s ≡ done false (set_errno self ebusy s)))
      × (IsWaiting s [] → (sem_getvalue s ≡ 0) × (sem_destroy self s ≡ done true s))
unfolding sem_getvalue sem_destroy
destroy-IsWaiting self x xs s =
    (λ w. (ground arith, ground arith), λ w. (ground arith, ground arith))
