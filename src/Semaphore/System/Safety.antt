-- ===== src/Semaphore/System/Safety.antt =====
-- What holds in every reachable state of the threads over a semaphore.
use read_linuxthreads.Prelude.{
  ℕ, ◌+◌, ◌^◌, ◌<◌, ◌≤◌, ◌≡◌, ◌≢◌, refl, true, false, List, [], ◌∷◌, arith, ◌∈◌, ◌==◌, inl, inr,
  Bool-cases, has, subst, ◌∙◌, ◌⊎◌,
}
use read_linuxthreads.Memory.{Ptr, Process}
use read_linuxthreads.Chain.{nextwaiting, Chain}
use read_linuxthreads.Semaphore.{is_odd, set_status, compare_and_swap, sem_getvalue, wake_step}
use read_linuxthreads.Semaphore.System.{
  System, Pc, outside, trying, sleeping, posting, in_post, Step, begin, take, sleep, wake, add,
  swap, walk, last, walked, Reach, actor, Alone, stop, go,
}
use read_linuxthreads.Semaphore.System.Invariant.{Threads, status_odd, status_even}
use read_linuxthreads.Semaphore.System.Kept.{
  Good, take_list, Reach-Good, round, start, start-Good, none_behind,
}
use read_linuxthreads.Semaphore.System.Posting.{wake_step-sent}

-- The value read is the count.
value_count :
    {initial : ℕ} {ts : List Ptr} {s : System} (good : Good initial ts s)
    → sem_getvalue s.state ≡ good.n
unfolding sem_getvalue
value_count {s = s} good = elim (Bool-cases (is_odd s.state.sem_status)) [
  | inl odd ↦ (let (e, nobody) = status_odd good.inv odd good.threads in ground arith)
  | inr even ↦ (let (z, c) = status_even good.inv even in ground arith)
]

posting_of : (pc : Pc) → in_post pc ≡ true → (th : Ptr) × (pc ≡ posting th)
posting_of outside e = absurd (cc e)
posting_of trying e = absurd (cc e)
posting_of sleeping e = absurd (cc e)
posting_of (posting th) e = (th, refl)

step_others :
    {ts : List Ptr} {k : Ptr} {s t : System} (st : Step ts s t) → k ≢ actor st → t.pc k ≡ s.pc k
step_others (begin i m e) ne = ground arith
step_others (take i t m e r) ne = ground arith
step_others (sleep i t m e r) ne = ground arith
step_others (wake i m e p) ne = ground arith
step_others (add i t m e odd r) ne = ground arith
step_others (swap i t m e even r) ne = ground arith
step_others (walk i th m e more) ne = ground arith
step_others (last i th m e end) ne = ground arith

-- Other threads stand where they stood.
Alone-others : {ts : List Ptr} {j k : Ptr} {s t : System} → Alone ts j s t → k ≢ j → t.pc k ≡ s.pc k
Alone-others stop ne = refl
Alone-others (go st by rest) ne = Alone-others rest ne ∙ step_others st (λ e. ne (e ∙ by))

-- Who has threads to wake is in sem_post.
walker_posts :
    {initial : ℕ} {ts : List Ptr} {s : System} (good : Good initial ts s) (i j : Ptr)
    → i ∈ good.ps j
    → in_post (s.pc j) ≡ true
walker_posts {s = s} good i j h = elim (Bool-cases (in_post (s.pc j))) [
  | inl busy ↦ busy
  | inr idle ↦ absurd (ground (arith, good.inv.idle j idle))
]

-- A post that has still to wake the threads `rs` wakes each of them.
post_wakes :
    {initial : ℕ} {ts : List Ptr} (rs : List Ptr) (i j : Ptr) (s : System)
    (good : Good initial ts s)
    → good.ps j ≡ rs
    → i ∈ rs
    → (t : System) × Alone ts j s t × (t.pending i ≡ true)
post_wakes [] i j s good e h = absurd (cc h)
post_wakes {ts = ts} (r ∷ rs) i j s good e h =
    let inv = good.inv in
    let busy = walker_posts good i j (ground arith) in
    let (th, at) = posting_of (s.pc j) busy in
    let whole =
      subst (λ ys. Chain (nextwaiting s.state.process) 1 th ys) e (inv.walking j th at).1 in
    let same : th ≡ r = whole.0 in
    let mine : good.ps j ≡ th ∷ rs = ground arith in
    let c : Chain (nextwaiting s.state.process) 1 (wake_step th s.state.process).0 rs =
      rw same whole.3 in
    let m : j ∈ ts = inv.members j (ground arith) in
    let th_m : th ∈ ts = inv.members th (ground (arith, inv.taken th j)) in
    let woken : i ≡ th → (pc : Pc) → (walked s j pc th).pending i ≡ true =
      λ is pc. ground (arith, wake_step-sent inv good.threads j m th th th_m th_m) in
    elim (Bool-cases ((wake_step th s.state.process).0 == 1)) [
      | inl end ↦
          (let alone : rs ≡ [] = none_behind _ _ rs (ground arith) c in
            let st : Step ts s (walked s j outside th) = last j th m at (ground arith) in
            (walked s j outside th, go st refl stop, woken (ground arith) outside))
      | inr more ↦
          (let next = (wake_step th s.state.process).0 in
            let st : Step ts s (walked s j (posting next) th) = walk j th m at (ground arith) in
            elim (Bool-cases (i == th)) [
              | inl is ↦ (
                walked s j (posting next) th,
                go st refl stop,
                woken (ground arith) (posting next),
              )
              | inr not ↦
                  (let (good', mine') =
                      round good j th m at rs mine c (posting next) (ground arith)
                        (λ p h. ground arith) (ground arith) in
                    let (t, alone, p) =
                      post_wakes rs i j (walked s j (posting next) th) good' mine' (ground arith) in
                    (t, go st refl alone, p))
            ])
    ]

module _ (initial : ℕ) (ts : List Ptr) (p : Process) (threads : Threads ts p)
    (small : initial < 2 ^ 30) {s : System} (reach : Reach ts (start initial p) s) where
  good : Good initial ts s
  good = Reach-Good (start-Good initial ts p threads small) reach

  -- In every state that the threads `ts`, aligned and each with a process of its own, reach by sem_wait
  -- and sem_post in any interleaving, from a semaphore with the count `initial` below 2^30: the value read
  -- and the waits that have returned make up `initial` and the posts; so no more waits have returned
  -- than that.
  pub takes_balance :
      (sem_getvalue s.state + s.takes ≡ initial + s.posts) × (s.takes ≤ initial + s.posts)
  takes_balance = (rw (value_count good) good.inv.balance, ground (arith, good.inv.balance))

  -- A post of `k`, outside, wakes the threads of the list.
  post_reaches :
      (k i : Ptr)
      → k ∈ ts
      → s.pc k ≡ outside
      → i ∈ good.xs
      → (t : System) × Alone ts k s t × (t.pending i ≡ true)
  unfolding compare_and_swap
  post_reaches k i m e h =
      let even : is_odd s.state.sem_status ≡ false = elim (Bool-cases (is_odd s.state.sem_status)) [
        | inl odd ↦ absurd (ground (arith, (status_odd good.inv odd good.threads).1))
        | inr even ↦ even
      ] in
      let st : Step ts s _ = swap k (set_status 3 s.state) m e even (ground arith) in
      let (good', mine) = take_list good k (set_status 3 s.state) m e even (ground arith) in
      let (t, alone, woken) = post_wakes good.xs i k _ good' mine h in (t, go st refl alone, woken)

  -- In every state that the threads `ts`, aligned and each with a process of its own, reach by sem_wait
  -- and sem_post in any interleaving, from a semaphore with a count below 2^30, when a thread sleeps in
  -- sem_wait with no restart pending, and `k` is outside: for a thread that is in the loop of sem_post,
  -- or else for `k`, the value read then being 0, steps of that thread and of no other lead to a state in
  -- which a restart for the sleeper is pending; then a step of the sleeper takes it back to the top of its
  -- loop.
  pub sleeper_reached :
      (k i : Ptr)
      → k ∈ ts
      → s.pc k ≡ outside
      → s.pc i ≡ sleeping
      → s.pending i ≡ false
      → (j : Ptr) × ((in_post (s.pc j) ≡ true) ⊎ ((j ≡ k) × (sem_getvalue s.state ≡ 0)))
        × (t : System) × Alone ts j s t
        × (t.pending i ≡ true)
        × (u : System) × Step ts t u
        × (u.pc i ≡ trying)
  sleeper_reached k i m e sl quiet =
      let member : i ∈ ts = good.inv.members i (ground arith) in
      elim (Bool-cases (has i good.xs)) [
        | inl h ↦
            (let (t, alone, woken) = post_reaches k i m e h in
              let zero_left : sem_getvalue s.state ≡ 0 =
                ground (arith, value_count good, good.inv.counted) in
              let there : t.pc i ≡ sleeping = Alone-others {k = i} alone (ground arith) ∙ sl in
              (
                k,
                inr (refl, zero_left),
                t,
                alone,
                woken,
                _,
                wake i member there woken,
                ground arith,
              ))
        | inr out ↦
            (let (j, h) = good.inv.reached i sl out quiet in
              let (t, alone, woken) = post_wakes (good.ps j) i j s good refl h in
              let busy = walker_posts good i j h in
              let there : t.pc i ≡ sleeping = Alone-others {k = i} alone (ground arith) ∙ sl in
              (j, inl busy, t, alone, woken, _, wake i member there woken, ground arith))
      ]
