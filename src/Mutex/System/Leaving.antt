-- ===== src/Mutex/System/Leaving.antt =====
-- The release of the mutex, which wakes the first thread of the queue.
use read_linuxthreads.Prelude.{
  ◌≡◌, ◌==◌, ◌||◌, Bool-cases, ◌≢◌, refl, sym, inl, inr, Bool, true, false, List, [], ◌∷◌, arith,
  ◌∈◌, ◌∉◌, has, update, ◌∙◌,
}
use read_linuxthreads.Memory.{Ptr}
use read_linuxthreads.Mutex.{State}
use read_linuxthreads.Mutex.Waiting.{IsIdle, Freed, rest, wake_first}
use read_linuxthreads.Mutex.System.{System, outside, waiting, owner, deliver, drain, sent}
use read_linuxthreads.Mutex.System.Invariant.{Threads, Coming, Inv}

abbrev is_head : Ptr → List Ptr → Bool
is_head j [] = false
is_head j (x ∷ xs) = x == j

-- Whom the restart of the head of the queue reaches.
sent-head :
    (ts : List Ptr) (s : System) (xs : List Ptr) (j : Ptr)
    → Threads ts s
    → ((k : Ptr) → k ∈ xs → k ∈ ts)
    → j ∈ ts
    → sent (s.state.process.desc j).p_pid (wake_first s.state.process xs) ≡ is_head j xs
sent-head ts s [] j threads members m = refl
sent-head ts s (x ∷ xs) j threads members m =
    ground (arith, threads.pids x j (members x (ground arith)) m)

has-rest : (j : Ptr) (xs : List Ptr) → has j xs ≡ (is_head j xs || has j (rest xs))
has-rest j [] = refl
has-rest j (x ∷ xs) = refl

head-not-mem :
    (s : State) (xs : List Ptr) (j : Ptr) → IsIdle s xs → is_head j xs ≡ true → j ∉ rest xs
head-not-mem s [] j idle h = cc
head-not-mem s (x ∷ xs) j idle h = ground (arith, idle.queue.chain.2)

head-of_ne : (xs : List Ptr) → rest xs ≢ [] → (i : Ptr) × (is_head i xs ≡ true)
head-of_ne [] ne = absurd (ne refl)
head-of_ne (x ∷ xs) ne = (x, ground arith)

module _ {ts xs : List Ptr} {s : System} (threads : Threads ts s) (inv : Inv ts xs s)
    (i : Ptr) where
  queue_members : (k : Ptr) → k ∈ xs → k ∈ ts
  queue_members k h = inv.members k (ground (arith, inv.queued k))

  deliver-head :
      (t : State) (j : Ptr)
      → Freed s.state xs t
      → j ∈ ts
      → deliver t s.pending j ≡ (s.pending j || is_head j xs)
  deliver-head t j f m =
      rw (f.pids j, f.kills, inv.kills, sent-head ts s xs j threads queue_members m)

  pub unlock-Inv :
      (t : State)
      → s.pc i ≡ owner
      → Freed s.state xs t
      → Inv ts
          (rest xs)
          (record { state = drain t; pc = update s.pc i outside; pending = deliver t s.pending })
  unlock-Inv t e f = record {
    idle = record {
      free = f.idle.free;
      queue = record { chain = f.idle.queue.chain; tail = f.idle.queue.tail };
    };
    kind = f.kind ∙ inv.kind;
    kills = refl;
    members = λ j. ground (arith, inv.members j);
    owned = λ j. ground (arith, inv.unique j i);
    taken = λ n. absurd (n f.count);
    unique = λ j k. ground (arith, inv.unique j i);
    queued = λ j h. still_queued j h;
    woken = λ j w out. now_woken j w out;
    signalled = now_signalled;
    unlinked = λ j m out. elim (Bool-cases (has j xs)) [
      | inl was ↦ f.unlinked j was out
      | inr never ↦ ground (arith, f.same j never, inv.unlinked j m never)
    ];
    coming = λ z ne. next_comes ne;
  }
    where
      still_queued :
          (j : Ptr)
          → j ∈ rest xs
          → (update s.pc i outside j ≡ waiting) × (deliver t s.pending j ≡ false)
      still_queued j h =
          let in_queue : j ∈ xs = ground (arith, has-rest j xs) in
          ground (
            arith,
            inv.queued j in_queue,
            head-not-mem s.state xs j inv.idle,
            deliver-head t j f (queue_members j in_queue),
          )

      now_woken :
          (j : Ptr) → update s.pc i outside j ≡ waiting → j ∉ rest xs → deliver t s.pending j ≡ true
      now_woken j w out =
          let was : s.pc j ≡ waiting = ground arith in
          ground (
            arith,
            has-rest j xs,
            inv.woken j was,
            deliver-head t j f (inv.members j (ground arith)),
          )

      now_signalled :
          (j : Ptr) → j ∈ ts → deliver t s.pending j ≡ true → update s.pc i outside j ≡ waiting
      now_signalled j m p =
          let p' : (s.pending j || is_head j xs) ≡ true = sym (deliver-head t j f m) ∙ p in
          ground (arith, inv.signalled j m, inv.queued j, has-rest j xs)

      next_comes :
          rest xs ≢ []
          → (j : Ptr) × Coming
              (record {
                state = drain t;
                pc = update s.pc i outside;
                pending = deliver t s.pending;
              })
              j
      next_comes ne =
          let (j, h) = head-of_ne xs ne in
          let in_queue : j ∈ xs = ground (arith, has-rest j xs) in
          (
            j,
            inr (
              ground (arith, inv.queued j in_queue),
              rw (deliver-head t j f (queue_members j in_queue)) (ground arith),
            ),
          )
