-- ===== src/Semaphore/System/Whole.antt =====
-- A whole call of sem_post, with nobody in between, is what its steps do one after the other.
use read_linuxthreads.Prelude.{
  ℕ, zero, suc, ◌+◌, ◌≡◌, refl, Bool, true, false, some, none, List, [], ◌∷◌, ◌++◌, ◌||◌, arith,
  ◌∈◌, update, inl, inr, Bool-cases, Option, ap, ◌∙◌,
}
use read_linuxthreads.Memory.{Ptr, Process, Kill, restart_kill}
use read_linuxthreads.Run.{done}
use read_linuxthreads.Mutex.System.{sent}
use read_linuxthreads.Semaphore.{
  State, is_odd, compare_and_swap, at_end, wake_step, wake_loop, post_won, post_loop, set_status,
}
use read_linuxthreads.Semaphore.System.{
  System, Pc, outside, posting, Step, add, swap, walk, last, drain, deliver, walked, Alone, stop,
  go,
}

sent-append : (pid : ℕ) (ks ls : List Kill) → sent pid (ks ++ ls) ≡ (sent pid ks || sent pid ls)
sent-append pid [] ls = refl
sent-append pid (k ∷ ks) ls = ground (arith, sent-append pid ks ls)

-- Behind the call: the state is what the call leaves, its restarts are pending, and it is counted.
pub record Called (i : Ptr) (s : System) (t : State) (pending : Ptr → Bool) (u : System)
    : Type 0 where
  pub state : u.state ≡ record t { process = drain t.process }
  pub back : u.pc i ≡ outside
  pub takes : u.takes ≡ s.takes
  pub posts : u.posts ≡ s.posts
  pub woken : (j : Ptr) → u.pending j ≡ deliver t.process pending j

module _ (ts : List Ptr) (i : Ptr) (m : i ∈ ts) (pending : Ptr → Bool) where
  -- One round.
  round_state :
      (th v : Ptr) (p : Process) (s : System) (pc : Pc)
      → s.state ≡ record { sem_status = v; process = drain p }
      → (walked s i pc th).state ≡ record { sem_status = v; process = drain (wake_step th p).1 }
  round_state th v p s pc same =
      ap (λ st. record { sem_status = st.sem_status; process = drain (wake_step th st.process).1 })
        same

  round_woken :
      (th v : Ptr) (p : Process) (s : System) (pc : Pc)
      → s.state ≡ record { sem_status = v; process = drain p }
      → ((j : Ptr) → s.pending j ≡ deliver p pending j)
      → (j : Ptr) → (walked s i pc th).pending j ≡ deliver (wake_step th p).1 pending j
  round_woken th v p s pc same woken j =
      let q = (wake_step th p).1 in
      let more = sent-append (p.desc j).p_pid p.kills (restart_kill th p ∷ []) in
      let now : (walked s i pc th).pending j ≡ deliver (wake_step th (drain p)).1 s.pending j =
        ap (λ st. deliver (wake_step th st.process).1 s.pending j) same in
      now ∙ ground (arith, woken j, more)

  -- The loop from `th`; the restarts that `p` has sent so far are pending already.
  wake_loop-walks :
      (fuel : ℕ) (th v : Ptr) (p p' : Process) (s : System)
      → s.state ≡ record { sem_status = v; process = drain p }
      → s.pc i ≡ posting th
      → ((j : Ptr) → s.pending j ≡ deliver p pending j)
      → wake_loop fuel th p ≡ some p'
      → (u : System) × Alone ts i s u
        × Called i s (record { sem_status = v; process = p' }) pending u
  unfolding wake_loop
  wake_loop-walks zero th v p p' s same at woken e = absurd (cc e)
  wake_loop-walks (suc k) th v p p' s same at woken e =
      elim (Bool-cases (at_end (wake_step th p).0)) [
        | inl end ↦
            (let q : p' ≡ (wake_step th p).1 = ground (arith, e) in
              let st : Step ts s (walked s i outside th) = last i th m at (ground (arith, same)) in
              (
                walked s i outside th,
                go st refl stop,
                rw q (record {
                  state = round_state th v p s outside same;
                  back = ground arith;
                  takes = refl;
                  posts = refl;
                  woken = round_woken th v p s outside same woken;
                }),
              ))
        | inr more ↦
            (let next = (wake_step th s.state.process).0 in
              let st : Step ts s (walked s i (posting next) th) =
                walk i th m at (ground (arith, same)) in
              let (u, alone, called) =
                wake_loop-walks k next v (wake_step th p).1 p' (walked s i (posting next) th)
                  (round_state th v p s (posting next) same) (ground arith)
                  (round_woken th v p s (posting next) same woken) (ground (arith, same, e)) in
              (
                u,
                go st refl alone,
                record {
                  state = called.state;
                  back = called.back;
                  takes = called.takes;
                  posts = called.posts;
                  woken = called.woken;
                },
              ))
      ]

  -- A call of sem_post by a thread outside, in a state with no restart on its way, that succeeds with
  -- nobody in between: steps of this thread alone lead to a state in which it is outside again, the
  -- semaphore and the process are as the call leaves them, exactly the restarts that it sends
  -- have become pending, and one more post is counted.
  pub post_loop-steps :
      (fuel : ℕ) (s : System) (t : State)
      → s.pc i ≡ outside
      → s.state.process.kills ≡ []
      → ((j : Ptr) → s.pending j ≡ pending j)
      → post_loop fuel [] i s.state ≡ some (done true t)
      → (u : System) × Alone ts i s u × Called i (record s { posts = s.posts + 1 }) t pending u
  unfolding post_loop post_won compare_and_swap
  post_loop-steps fuel s t at quiet same e = elim (Bool-cases (is_odd s.state.sem_status)) [
    | inl odd ↦
        (let st : Step ts s (record s { state = t; posts = s.posts + 1 }) =
            add i t m at odd (ground (arith, e)) in
          let kills : t.process.kills ≡ [] = ground (arith, e) in
          (
            _,
            go st refl stop,
            record {
              state = ground arith;
              back = at;
              takes = refl;
              posts = refl;
              woken = λ j. ground (arith, same j);
            },
          ))
    | inr even ↦ listed (wake_loop fuel s.state.sem_status s.state.process) refl even
  ]
    where
      listed :
          (r : Option Process)
          → wake_loop fuel s.state.sem_status s.state.process ≡ r
          → is_odd s.state.sem_status ≡ false
          → (u : System) × Alone ts i s u × Called i (record s { posts = s.posts + 1 }) t pending u
      listed none h even = absurd (ground (arith, e, h))
      listed (some p') h even =
          let taken : System = record s {
            state = set_status 3 s.state;
            pc = update s.pc i (posting s.state.sem_status);
            posts = s.posts + 1;
          } in
          let st : Step ts s taken = swap i (set_status 3 s.state) m at even (ground arith) in
          let left : t ≡ record { sem_status = 3; process = p' } = ground (arith, e, h) in
          let (u, alone, called) =
            wake_loop-walks fuel s.state.sem_status 3 s.state.process p' taken (ground arith)
              (ground arith) (λ j. ground (arith, same j)) h in
          (
            u,
            go st refl alone,
            rw left (record {
              state = called.state;
              back = called.back;
              takes = called.takes;
              posts = called.posts;
              woken = called.woken;
            }),
          )
