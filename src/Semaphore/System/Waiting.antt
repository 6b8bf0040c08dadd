-- ===== src/Semaphore/System/Waiting.antt =====
-- The steps of sem_wait.
use read_linuxthreads.Prelude.{
  ℕ, ◌+◌, ◌-◌, ◌*◌, ◌≡◌, ◌≢◌, true, false, List, [], ◌∷◌, arith, ◌∈◌, ◌∉◌, has, inl, inr,
  Bool-cases, ◌==◌, update, subst, sym,
}
use read_linuxthreads.Memory.{Ptr, Process, set_nextwaiting}
use read_linuxthreads.Chain.{nextwaiting, Chain, Chain-frame, mem_ne}
use read_linuxthreads.Run.{done, suspends}
use read_linuxthreads.Semaphore.{
  State, has_count, compare_and_swap, wait_loop, wait_won, set_status, link,
}
use read_linuxthreads.Semaphore.Waiters.{Chain-push}
use read_linuxthreads.Semaphore.System.{System, outside, trying, sleeping}
use read_linuxthreads.Semaphore.System.Invariant.{Inv, Threads, status_odd}

-- A thread that is not in the chain is linked elsewhere.
pub Chain-link :
    (i v p : Ptr) (ys : List Ptr) (q : Process)
    → Chain (nextwaiting q) 1 p ys
    → i ∉ ys
    → Chain (nextwaiting (set_nextwaiting i v q)) 1 p ys
Chain-link i v p ys q c out =
    Chain-frame (nextwaiting q) _ 1 p ys c (λ a h. ground (arith, mem_ne i a ys))

module _ {initial : ℕ} {ts : List Ptr} {n : ℕ} {xs : List Ptr} {ps : Ptr → List Ptr} {s : System}
    (inv : Inv initial ts n xs ps s) (threads : Threads ts s.state.process) (i : Ptr)
    (member : i ∈ ts) where
  pub begin-Inv : s.pc i ≡ outside → Inv initial ts n xs ps (record s { pc = update s.pc i trying })
  begin-Inv e = record {
    listed = inv.listed;
    counted = inv.counted;
    small = inv.small;
    balance = inv.balance;
    kills = inv.kills;
    members = λ j. ground (arith, inv.members j);
    queued = λ j. ground (arith, inv.queued j);
    taken = λ j k. ground (arith, inv.taken j k);
    apart = inv.apart;
    walking = λ j th. ground (arith, inv.walking j th);
    idle = λ j. ground (arith, inv.idle j);
    reached = λ j. ground (arith, inv.reached j);
    signalled = λ j. ground (arith, inv.signalled j);
  }

  pub wake-Inv :
      s.pc i ≡ sleeping
      → s.pending i ≡ true
      → Inv initial ts n xs ps
          (record s { pc = update s.pc i trying; pending = update s.pending i false })
  wake-Inv e p = record {
    listed = inv.listed;
    counted = inv.counted;
    small = inv.small;
    balance = inv.balance;
    kills = inv.kills;
    members = λ j. ground (arith, inv.members j);
    queued = λ j. ground (arith, inv.queued j, inv.queued i);
    taken = λ j k. ground (arith, inv.taken j k, inv.taken i k);
    apart = inv.apart;
    walking = λ j th. ground (arith, inv.walking j th);
    idle = λ j. ground (arith, inv.idle j);
    reached = λ j. ground (arith, inv.reached j);
    signalled = λ j. ground (arith, inv.signalled j);
  }

  -- A wait that returns has taken 1 from a positive count.
  pub take-done :
      (t : State)
      → wait_loop [] i s.state ≡ done true t
      → (n ≢ 0) × (xs ≡ []) × (t ≡ set_status (n * 2 - 1) s.state)
  unfolding wait_loop wait_won compare_and_swap
  take-done t e = elim (Bool-cases (has_count s.state.sem_status)) [
    | inl count ↦ (let odd = status_odd inv (ground arith) threads in ground (arith, odd))
    | inr empty ↦ absurd (ground (arith, empty, threads.aligned i member))
  ]

  pub take-Inv :
      (t : State)
      → s.pc i ≡ trying
      → wait_loop [] i s.state ≡ done true t
      → Inv initial ts
          (n - 1)
          xs
          ps
          (record s { state = t; pc = update s.pc i outside; takes = s.takes + 1 })
  take-Inv t e r =
      let (pos, nobody, eq) = take-done t r in
      subst
        (λ v.
          Inv initial ts (n - 1) xs ps
            (record s { state = v; pc = update s.pc i outside; takes = s.takes + 1 }))
        (sym eq)
        (record {
          listed = λ z. rw nobody (omega arith);
          counted = λ m. (omega arith, nobody);
          small = ground (arith, inv.small);
          balance = ground (arith, inv.balance);
          kills = inv.kills;
          members = λ j. ground (arith, inv.members j);
          queued = λ j. ground (arith, inv.queued j);
          taken = λ j k. ground (arith, inv.taken j k);
          apart = inv.apart;
          walking = λ j th h. inv.walking j th (ground arith);
          idle = λ j. ground (arith, inv.idle j);
          reached = λ j. ground (arith, inv.reached j);
          signalled = λ j. ground (arith, inv.signalled j);
        })

  -- A wait that goes to sleep has found the count 0, and is the first in the list.
  pub sleep-done :
      (t : State)
      → wait_loop [] i s.state ≡ suspends t
      → (n ≡ 0) × (t ≡ set_status i (link i s.state.sem_status s.state))
  unfolding wait_loop wait_won compare_and_swap
  sleep-done t e = elim (Bool-cases (has_count s.state.sem_status)) [
    | inl count ↦ absurd (ground (arith, count))
    | inr empty ↦ elim (Bool-cases (n == 0)) [
      | inl z ↦ (ground arith, ground (arith, empty))
      | inr pos ↦ absurd (ground (arith, empty, inv.counted (ground arith)))
    ]
  ]

  pub sleep-Inv :
      (t : State)
      → s.pc i ≡ trying
      → wait_loop [] i s.state ≡ suspends t
      → Inv initial ts n (i ∷ xs) ps (record s { state = t; pc = update s.pc i sleeping })
  sleep-Inv t e r =
      let (z, eq) = sleep-done t r in
      let old = s.state.sem_status in
      let out : i ∉ xs = elim (Bool-cases (has i xs)) [
        | inl h ↦ absurd (ground (arith, inv.queued i h))
        | inr h ↦ h
      ] in
      let not_taken : (j : Ptr) → i ∉ ps j = λ j. elim (Bool-cases (has i (ps j))) [
        | inl h ↦ absurd (ground (arith, inv.taken i j h))
        | inr h ↦ h
      ] in
      subst
        (λ v. Inv initial ts n (i ∷ xs) ps (record s { state = v; pc = update s.pc i sleeping }))
        (sym eq)
        (record {
          listed = λ w.
              Chain-push i old xs s.state.process (inv.listed z) (threads.aligned i member) out;
          counted = λ m. absurd (ground arith);
          small = inv.small;
          balance = inv.balance;
          kills = inv.kills;
          members = λ j. ground (arith, inv.members j);
          queued = λ j. ground (arith, inv.queued j, inv.signalled i);
          taken = λ j k. ground (arith, inv.taken j k);
          apart = inv.apart;
          walking = λ j th h.
              let (ne, c) = inv.walking j th (ground arith) in
              (ne, Chain-link i old th (ps j) s.state.process c (not_taken j));
          idle = λ j. ground (arith, inv.idle j);
          reached = λ j. ground (arith, inv.reached j);
          signalled = λ j. ground (arith, inv.signalled j);
        })
