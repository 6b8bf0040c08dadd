-- ===== src/Buffer/System/Waits.antt =====
-- One semaphore that one thread waits for.
use read_linuxthreads.Prelude.{
  ℕ, ◌+◌, ◌-◌, ◌*◌, ◌<◌, ◌≡◌, ◌≢◌, ◌⊎◌, inl, inr, refl, Bool, true, false, some, [], ◌∷◌, ◌++◌,
  arith, Bool-cases, ◌==◌, subst, ◌||◌, ◌∙◌,
}
use read_linuxthreads.Memory.{Ptr, restart_kill}
use read_linuxthreads.Chain.{nextwaiting}
use read_linuxthreads.Run.{done, suspends}
use read_linuxthreads.Semaphore.{State, wait_loop, post_loop, set_status, link}
use read_linuxthreads.Semaphore.Waiters.{IsThread, IsWaiting, post-Woken}
use read_linuxthreads.Semaphore.Counting.{count_status, wait_count, post_count}
use read_linuxthreads.Mutex.System.{sent}
use read_linuxthreads.Semaphore.System.{drain}
use read_linuxthreads.Buffer.System.{Phase, ready, sleeping, holding}

-- The count is `n`; or it is 0, and the thread `i` is in the list and sleeps with no restart pending.
pub record Sem (i : Ptr) (s : State) (n : ℕ) (ph : Phase) (woken : Bool) : Type 0 where
  pub waits : Bool
  pub count : waits ≡ false → s.sem_status ≡ n * 2 + 1
  pub asleep :
      waits ≡ true
      → (n ≡ 0)
        × (s.sem_status ≡ i)
        × (nextwaiting s.process i ≡ 1)
        × (ph ≡ sleeping)
        × (woken ≡ false)
  pub awake : waits ≡ false → ph ≡ sleeping → woken ≡ true
  pub signalled : woken ≡ true → ph ≡ sleeping
  pub small : n < 16

-- A post has raised the count, and woken the thread if it was in the list.
pub record Raised (i : Ptr) (s : State) (n : ℕ) (waits : Bool) (t : State) : Type 0 where
  pub status : t.sem_status ≡ (n + 1) * 2 + 1
  pub quiet : waits ≡ false → t.process ≡ s.process
  pub woken : waits ≡ true → t.process.kills ≡ s.process.kills ++ restart_kill i s.process ∷ []
  pub pids : (a : Ptr) → (t.process.desc a).p_pid ≡ (s.process.desc a).p_pid
  pub links : (a : Ptr) → a ≢ i → nextwaiting t.process a ≡ nextwaiting s.process a

module _ (i : Ptr) (s : State) (n : ℕ) (ph : Phase) (woken : Bool) (thread : IsThread i)
    (sem : Sem i s n ph woken) where
  pub wait-taken :
      (t : State)
      → ph ≡ ready
      → wait_loop [] i s ≡ done true t
      → (n ≢ 0) × (t ≡ set_status ((n - 1) * 2 + 1) s)
  wait-taken t e r = elim (Bool-cases sem.waits) [
    | inl w ↦ absurd (ground (arith, sem.asleep w))
    | inr c ↦ elim (Bool-cases (n == 0)) [
      | inl z ↦ absurd (ground (arith, (wait_count i n s (sem.count c) thread.1).1))
      | inr pos ↦ ground (arith, (wait_count i n s (sem.count c) thread.1).0)
    ]
  ]

  pub wait-slept :
      (t : State)
      → ph ≡ ready
      → wait_loop [] i s ≡ suspends t
      → (n ≡ 0) × (t ≡ set_status i (link i 1 s))
  wait-slept t e r = elim (Bool-cases sem.waits) [
    | inl w ↦ absurd (ground (arith, sem.asleep w))
    | inr c ↦ elim (Bool-cases (n == 0)) [
      | inl z ↦ ground (arith, (wait_count i n s (sem.count c) thread.1).1)
      | inr pos ↦ absurd (ground (arith, (wait_count i n s (sem.count c) thread.1).0))
    ]
  ]

  -- A post succeeds.
  pub post_goes :
      (self : Ptr)
      → (t : State) × (post_loop 1 [] self s ≡ some (done true t)) × Raised i s n sem.waits t
  post_goes self = elim (Bool-cases sem.waits) [
    | inl w ↦
        (let (z, at, last, e, p) = sem.asleep w in
          let waiting : IsWaiting s (i ∷ []) = record {
            chain = (at, ground arith, refl, last);
            threads = (thread, tt);
          } in
          let (u, q, status, wk) = post-Woken 1 self i [] s waiting (omega arith) in
          (
            u,
            q,
            record {
              status = ground arith;
              quiet = λ c. absurd (cc (w, c));
              woken = λ c. wk.kills;
              pids = wk.pids;
              links = λ a ne. ground (arith, wk.same a);
            },
          ))
    | inr c ↦
        (let q = (post_count 1 self n s (sem.count c)).0 (ground (arith, sem.small)) in
          (
            set_status (count_status (n + 1)) s,
            q,
            record {
              status = refl;
              quiet = λ w. refl;
              woken = λ w. absurd (cc (w, c));
              pids = λ a. refl;
              links = λ a ne. refl;
            },
          ))
  ]

  pub post-Raised :
      (self : Ptr) (t : State)
      → post_loop 1 [] self s ≡ some (done true t)
      → Raised i s n sem.waits t
  post-Raised self t r =
      let (u, q, raised) = post_goes self in
      let same : u ≡ t = cc (q, r) in subst (Raised i s n sem.waits) same raised

  -- A round of a wait returns or goes to sleep.
  pub wait_goes :
      ph ≡ ready
      → ((t : State) × (wait_loop [] i s ≡ done true t))
        ⊎ ((t : State) × (wait_loop [] i s ≡ suspends t))
  wait_goes e = elim (Bool-cases sem.waits) [
    | inl w ↦ absurd (ground (arith, sem.asleep w))
    | inr c ↦ elim (Bool-cases (n == 0)) [
      | inl z ↦ inr (_, (wait_count i n s (sem.count c) thread.1).1 (ground arith))
      | inr pos ↦ inl (_, (wait_count i n s (sem.count c) thread.1).0 (ground arith))
    ]
  ]

  pub Sem-taken : ph ≡ ready → n ≢ 0 → Sem i (set_status ((n - 1) * 2 + 1) s) (n - 1) holding woken
  Sem-taken e pos = record {
    waits = false;
    count = λ c. refl;
    asleep = λ w. cc;
    awake = λ c h. cc;
    signalled = λ h. ground (arith, sem.signalled);
    small = ground (arith, sem.small);
  }

  pub Sem-slept : ph ≡ ready → Sem i (set_status i (link i 1 s)) 0 sleeping woken
  Sem-slept e = record {
    waits = true;
    count = λ c. cc;
    asleep = λ w. (refl, refl, ground arith, refl, ground (arith, sem.signalled));
    awake = λ c h. cc;
    signalled = λ h. refl;
    small = omega arith;
  }

  pub Sem-woken : ph ≡ sleeping → woken ≡ true → Sem i s n ready false
  Sem-woken e h = record {
    waits = false;
    count = λ c. ground (arith, sem.count, sem.asleep);
    asleep = λ w. cc;
    awake = λ c h. cc;
    signalled = λ h. cc;
    small = sem.small;
  }

  -- A step of the thread outside `suspend`.
  pub Sem-moves : (ph' : Phase) → ph ≢ sleeping → ph' ≢ sleeping → Sem i s n ph' woken
  Sem-moves ph' e e' = record {
    waits = false;
    count = λ c. ground (arith, sem.count, sem.asleep);
    asleep = λ w. cc;
    awake = λ c h. absurd (e' h);
    signalled = λ h. ground (arith, sem.signalled);
    small = sem.small;
  }

  -- Steps that do not touch the semaphore.
  pub Sem-frame :
      (s' : State)
      → s'.sem_status ≡ s.sem_status
      → nextwaiting s'.process i ≡ nextwaiting s.process i
      → Sem i s' n ph woken
  Sem-frame s' e link = record {
    waits = sem.waits;
    count = λ c. e ∙ sem.count c;
    asleep = λ w. ground (arith, sem.asleep w);
    awake = sem.awake;
    signalled = sem.signalled;
    small = sem.small;
  }

  -- Behind a post, whose restart is delivered.
  pub Sem-Raised :
      (t : State)
      → Raised i s n sem.waits t
      → s.process.kills ≡ []
      → n + 1 < 16
      → Sem i
          (record t { process = drain t.process })
          (n + 1)
          ph
          (woken || sent (t.process.desc i).p_pid t.process.kills)
  Sem-Raised t raised quiet room = record {
    waits = false;
    count = λ c. raised.status;
    asleep = λ w. cc;
    awake = λ c e. elim (Bool-cases sem.waits) [
      | inl w ↦ ground (arith, raised.woken w, raised.pids i)
      | inr not ↦ ground (arith, sem.awake not e)
    ];
    signalled = λ h. elim (Bool-cases sem.waits) [
      | inl w ↦ ground (arith, sem.asleep w)
      | inr not ↦ ground (arith, sem.signalled, raised.quiet not)
    ];
    small = room;
  }

  -- The restart of a post is for this thread only.
  pub sent-other :
      (t : State) (j : Ptr)
      → Raised i s n sem.waits t
      → s.process.kills ≡ []
      → (s.process.desc i).p_pid ≢ (s.process.desc j).p_pid
      → sent (t.process.desc j).p_pid t.process.kills ≡ false
  sent-other t j raised quiet ne = elim (Bool-cases sem.waits) [
    | inl w ↦ ground (arith, raised.woken w, raised.pids j)
    | inr not ↦ ground (arith, raised.quiet not)
  ]
