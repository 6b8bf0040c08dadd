-- ===== src/Semaphore/System/Posting.antt =====
-- The steps of sem_post.
use read_linuxthreads.Prelude.{
  ℕ, ◌+◌, ◌*◌, ◌^◌, ◌<◌, ◌≡◌, ◌≢◌, refl, true, false, List, [], ◌∷◌, arith, ◌∈◌, ◌∉◌, has, inl, inr,
  Bool-cases, ◌==◌, ◌||◌, update, some, subst, sym,
}
use read_linuxthreads.Memory.{Ptr, null}
use read_linuxthreads.Chain.{nextwaiting, Chain}
use read_linuxthreads.Run.{done}
use read_linuxthreads.Mutex.System.{sent}
use read_linuxthreads.Semaphore.{
  State, is_odd, compare_and_swap, post_new, post_loop, post_won, set_status, wake_step,
}
use read_linuxthreads.Semaphore.System.{
  System, Pc, outside, sleeping, posting, in_post, walked, deliver,
}
use read_linuxthreads.Semaphore.System.Invariant.{Inv, Threads, status_odd, status_even}
use read_linuxthreads.Semaphore.System.Waiting.{Chain-link}

-- Of the threads that the posts have still to wake, those of `i` are replaced.
Chain-of :
    (nx : Ptr → Ptr) (ps : Ptr → List Ptr) (i : Ptr) (rs : List Ptr) (p j : Ptr)
    → (i ≡ j → Chain nx 1 p rs)
    → (i ≢ j → Chain nx 1 p (ps j))
    → Chain nx 1 p (update ps i rs j)
Chain-of nx ps i rs p j own other = elim (Bool-cases (i == j)) [
  | inl same ↦ rw same (own (ground arith))
  | inr apart ↦ rw apart (other (ground arith))
]

module _ {initial : ℕ} {ts : List Ptr} {n : ℕ} {xs : List Ptr} {ps : Ptr → List Ptr} {s : System}
    (inv : Inv initial ts n xs ps s) (threads : Threads ts s.state.process) (i : Ptr)
    (member : i ∈ ts) where
  -- A post on a status that is a count has added 1, below 2^30.
  pub add-done :
      (t : State)
      → is_odd s.state.sem_status ≡ true
      → post_loop 0 [] i s.state ≡ some (done true t)
      → (xs ≡ []) × (n + 1 < 2 ^ 30) × (t ≡ set_status ((n + 1) * 2 + 1) s.state)
  unfolding post_loop post_won compare_and_swap
  add-done t odd e =
      let (count, nobody) = status_odd inv odd threads in
      let small = inv.small in (nobody, ground arith, ground arith)

  pub add-Inv :
      (t : State)
      → is_odd s.state.sem_status ≡ true
      → post_loop 0 [] i s.state ≡ some (done true t)
      → Inv initial ts (n + 1) xs ps (record s { state = t; posts = s.posts + 1 })
  add-Inv t odd e =
      let (nobody, room, eq) = add-done t odd e in
      subst (λ v. Inv initial ts (n + 1) xs ps (record s { state = v; posts = s.posts + 1 }))
        (sym eq)
        (record {
          listed = λ z. absurd (omega arith);
          counted = λ m. (refl, nobody);
          small = room;
          balance = ground (arith, inv.balance);
          kills = inv.kills;
          members = inv.members;
          queued = inv.queued;
          taken = inv.taken;
          apart = inv.apart;
          walking = inv.walking;
          idle = inv.idle;
          reached = inv.reached;
          signalled = inv.signalled;
        })

  pub swap-done :
      (t : State)
      → is_odd s.state.sem_status ≡ false
      → compare_and_swap s.state.sem_status (post_new s.state.sem_status) s.state ≡ (true, t)
      → t ≡ set_status 3 s.state
  unfolding compare_and_swap
  swap-done t even e = ground arith

  pub swap-Inv :
      (t : State)
      → s.pc i ≡ outside
      → is_odd s.state.sem_status ≡ false
      → compare_and_swap s.state.sem_status (post_new s.state.sem_status) s.state ≡ (true, t)
      → Inv initial ts 1 [] (update ps i xs) (record s {
        state = t;
        pc = update s.pc i (posting s.state.sem_status);
        posts = s.posts + 1;
      })
  swap-Inv t e even r =
      let old = s.state.sem_status in
      let (z, chain) = status_even inv even in
      let free : ps i ≡ [] = inv.idle i (ground arith) in
      subst
        (λ v.
          Inv initial ts 1 [] (update ps i xs)
            (record s { state = v; pc = update s.pc i (posting old); posts = s.posts + 1 }))
        (sym (swap-done t even r))
        (record {
          listed = λ w. absurd (omega arith);
          counted = λ m. (refl, refl);
          small = omega arith;
          balance = ground (arith, inv.balance);
          kills = inv.kills;
          members = λ j. ground (arith, inv.members j);
          queued = λ j h. cc;
          taken = λ j k. ground (arith, inv.taken j k, inv.queued j);
          apart = λ a j k. ground (arith, inv.apart a j k, inv.taken a j, inv.taken a k);
          walking = λ j th h. (
            ground (arith, inv.walking j th),
            Chain-of (nextwaiting s.state.process) ps i xs th j
                (λ same. let eq : th ≡ old = ground arith in rw eq chain)
                (λ other. (inv.walking j th (ground arith)).1),
          );
          idle = λ j. ground (arith, inv.idle j);
          reached = λ j sl out quiet. elim (Bool-cases (has j xs)) [
            | inl h ↦ (i, ground arith)
            | inr h ↦ (let (k, m) = inv.reached j (ground arith) h quiet in (k, ground arith))
          ];
          signalled = λ j. ground (arith, inv.signalled j);
        })

  -- What is pending behind the body of the loop at `th`.
  pub wake_step-sent :
      (th j : Ptr)
      → th ∈ ts
      → j ∈ ts
      → sent
          (((wake_step th s.state.process).1).desc j).p_pid
          ((wake_step th s.state.process).1).kills
        ≡ (j == th)
  wake_step-sent th j m h = elim (Bool-cases (j == th)) [
    | inl same ↦ ground (arith, inv.kills)
    | inr other ↦ ground (arith, inv.kills, threads.pids th j m h)
  ]

  pub walk-Inv :
      (th : Ptr) (pc : Pc) (rs : List Ptr)
      → s.pc i ≡ posting th
      → ps i ≡ th ∷ rs
      → pc ≢ sleeping
      → ((next : Ptr)
          → pc ≡ posting next
          → (next ≢ 1) × Chain (nextwaiting s.state.process) 1 next rs)
      → (in_post pc ≡ false → rs ≡ [])
      → Inv initial ts n xs (update ps i rs) (walked s i pc th)
  walk-Inv th pc rs e mine awake next end =
      let here : th ∈ ps i = ground arith in
      let fresh : th ∉ rs =
        (subst (λ ys. Chain (nextwaiting s.state.process) 1 th ys) mine (inv.walking i th e).1).2 in
      let (asleep, quiet, out) = inv.taken th i here in
      let th_member : th ∈ ts = inv.members th (ground arith) in
      let now : (j : Ptr)
          → j ∈ ts
          → deliver (wake_step th s.state.process).1 s.pending j ≡ (s.pending j || (j == th)) =
        λ j m. rw (wake_step-sent th j th_member m) refl in
      record {
        listed = λ z. Chain-link th null s.state.sem_status xs s.state.process (inv.listed z) out;
        counted = inv.counted;
        small = inv.small;
        balance = inv.balance;
        kills = refl;
        members = λ j. ground (arith, inv.members j);
        queued = λ j h.
            let (sl, q) = inv.queued j h in ground (arith, now j (inv.members j (ground arith)));
        taken = λ j k h. ground (
          arith,
          inv.taken j k,
          inv.taken j i,
          inv.apart j i k,
          now j (inv.members j (ground (arith, inv.taken j k, inv.taken j i))),
        );
        apart = λ a j k. ground (arith, inv.apart a j k);
        walking = λ j th' h. (
          ground (arith, inv.walking j th', next th'),
          Chain-of _ ps i rs th' j
              (λ same. Chain-link th null th' rs s.state.process (next th' (ground arith)).1 fresh)
              (λ other.
                Chain-link th null th' (ps j) s.state.process (inv.walking j th' (ground arith)).1
                  (inv.apart th i j here other)),
        );
        idle = λ j. ground (arith, inv.idle j);
        reached = λ j sl out' q.
            let (k, h) = inv.reached j (ground arith) out' (ground arith) in
            (k, ground (arith, now j (inv.members j (ground arith))));
        signalled = λ j m. ground (arith, inv.signalled j m, now j m);
      }
