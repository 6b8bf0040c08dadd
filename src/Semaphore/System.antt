-- ===== src/Semaphore/System.antt =====
-- The threads `ts` over one semaphore, in any interleaving. A round of sem_wait acts at its
-- compare-and-swap. A post of a status that is a count is `post_loop` itself. On a list, it is the
-- compare-and-swap of `post_loop` and then the rounds of `wake_loop`, one step each.
pub mod Invariant
pub mod Waiting
pub mod Posting
pub mod Kept
pub mod Safety
pub mod Whole
mod Tests
use read_linuxthreads.Prelude.{
  ℕ, ◌+◌, ◌≡◌, ◌≢◌, Bool, true, false, some, List, [], ◌∷◌, ◌||◌, ◌∈◌, update,
}
use read_linuxthreads.Memory.{Ptr, Process}
use read_linuxthreads.Run.{done, suspends}
use read_linuxthreads.Mutex.System.{sent}
use read_linuxthreads.Semaphore.{
  State, is_odd, compare_and_swap, wait_loop, post_loop, wake_step, post_new, at_end,
}

-- Where a thread stands: outside, at the top of the loop of sem_wait, in its `suspend`, or in sem_post
-- in front of the body of the loop at a thread.
pub data Pc : Type 0 where
  outside trying sleeping : Pc
  posting : (th : Ptr) → Pc

abbrev pub in_post : Pc → Bool
in_post outside = false
in_post trying = false
in_post sleeping = false
in_post (posting th) = true

-- `pending` says for which threads a restart is pending; it is blocked but in `suspend`. `takes` and
-- `posts` count the calls of sem_wait that have returned and of sem_post that have changed the status.
pub record System : Type 0 where
  pub state : State
  pub pc : Ptr → Pc
  pub pending : Ptr → Bool
  pub takes : ℕ
  pub posts : ℕ

abbrev pub drain : Process → Process
drain p = record p { kills = [] }

abbrev pub deliver : Process → (Ptr → Bool) → Ptr → Bool
deliver p pending i = pending i || sent (p.desc i).p_pid p.kills

-- The body of the loop of `sem_post` at `th`, run by `i`, which then stands at `pc`.
abbrev pub walked : System → Ptr → Pc → Ptr → System
walked s i pc th =
    let p = (wake_step th s.state.process).1 in
    record s {
      state = record (s.state) { process = drain p };
      pc = update s.pc i pc;
      pending = deliver p s.pending;
    }

pub data Step (ts : List Ptr) (s : System) : System → Type 0 where
  begin : (i : Ptr) → i ∈ ts → s.pc i ≡ outside → Step ts s (record s { pc = update s.pc i trying })
  take :
      (i : Ptr) (t : State)
      → i ∈ ts
      → s.pc i ≡ trying
      → wait_loop [] i s.state ≡ done true t
      → Step ts s (record s { state = t; pc = update s.pc i outside; takes = s.takes + 1 })
  sleep :
      (i : Ptr) (t : State)
      → i ∈ ts
      → s.pc i ≡ trying
      → wait_loop [] i s.state ≡ suspends t
      → Step ts s (record s { state = t; pc = update s.pc i sleeping })
  wake :
      (i : Ptr)
      → i ∈ ts
      → s.pc i ≡ sleeping
      → s.pending i ≡ true
      → Step ts s (record s { pc = update s.pc i trying; pending = update s.pending i false })
  add :
      (i : Ptr) (t : State)
      → i ∈ ts
      → s.pc i ≡ outside
      → is_odd s.state.sem_status ≡ true
      → post_loop 0 [] i s.state ≡ some (done true t)
      → Step ts s (record s { state = t; posts = s.posts + 1 })
  swap :
      (i : Ptr) (t : State)
      → i ∈ ts
      → s.pc i ≡ outside
      → is_odd s.state.sem_status ≡ false
      → compare_and_swap s.state.sem_status (post_new s.state.sem_status) s.state ≡ (true, t)
      → Step ts s (record s {
        state = t;
        pc = update s.pc i (posting s.state.sem_status);
        posts = s.posts + 1;
      })
  walk :
      (i th : Ptr)
      → i ∈ ts
      → s.pc i ≡ posting th
      → at_end (wake_step th s.state.process).0 ≡ false
      → Step ts s (walked s i (posting (wake_step th s.state.process).0) th)
  last :
      (i th : Ptr)
      → i ∈ ts
      → s.pc i ≡ posting th
      → at_end (wake_step th s.state.process).0 ≡ true
      → Step ts s (walked s i outside th)

pub data Reach (ts : List Ptr) (s : System) : System → Type 0 where
  here : Reach ts s s
  later : {t u : System} → Reach ts s t → Step ts t u → Reach ts s u

-- The thread that makes a step.
abbrev pub actor : {ts : List Ptr} {s t : System} → Step ts s t → Ptr
actor (begin i m e) = i
actor (take i t m e r) = i
actor (sleep i t m e r) = i
actor (wake i m e p) = i
actor (add i t m e odd r) = i
actor (swap i t m e even r) = i
actor (walk i th m e more) = i
actor (last i th m e end) = i

-- `t` is reached from `s` by steps of `j`, and of no other thread.
pub data Alone (ts : List Ptr) (j : Ptr) : System → System → Type 0 where
  stop : {s : System} → Alone ts j s s
  go : {s t u : System} (st : Step ts s t) → actor st ≡ j → Alone ts j t u → Alone ts j s u
