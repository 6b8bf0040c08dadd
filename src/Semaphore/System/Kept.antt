-- ===== src/Semaphore/System/Kept.antt =====
-- Every step of the threads over a semaphore keeps the invariant, which holds behind sem_init.
use read_linuxthreads.Prelude.{
  ℕ, ◌+◌, ◌-◌, ◌^◌, ◌<◌, ◌≡◌, ◌≢◌, refl, true, false, List, [], ◌∷◌, arith, ◌∈◌, update,
}
use read_linuxthreads.Memory.{Ptr, Process}
use read_linuxthreads.Chain.{nextwaiting, Chain}
use read_linuxthreads.Semaphore.{State, is_odd, compare_and_swap, post_new, at_end, wake_step}
use read_linuxthreads.Semaphore.Counting.{count_status}
use read_linuxthreads.Semaphore.System.{
  System, Pc, outside, sleeping, posting, in_post, walked, Step, begin, take, sleep, wake, add,
  swap, walk, last, Reach, here, later,
}
use read_linuxthreads.Semaphore.System.Invariant.{Inv, Threads, Threads-kept}
use read_linuxthreads.Semaphore.System.Waiting.{
  begin-Inv, wake-Inv, take-Inv, sleep-Inv, take-done, sleep-done,
}
use read_linuxthreads.Semaphore.System.Posting.{add-Inv, swap-Inv, walk-Inv, add-done, swap-done}

-- The invariant, for some count, list and walks, with the addresses and processes of the threads.
pub record Good (initial : ℕ) (ts : List Ptr) (s : System) : Type 0 where
  pub n : ℕ
  pub xs : List Ptr
  pub ps : Ptr → List Ptr
  pub inv : Inv initial ts n xs ps s
  pub threads : Threads ts s.state.process

-- The threads behind `th`.
rest_of :
    (nx : Ptr → Ptr) (th : Ptr) (ys : List Ptr)
    → Chain nx 1 th ys
    → th ≢ 1
    → (rs : List Ptr) × (ys ≡ th ∷ rs) × Chain nx 1 (nx th) rs
rest_of nx th [] c ne = absurd (ne c)
rest_of nx th (y ∷ ys) c ne = (ys, ground arith, rw c.0 c.3)

pub none_behind : (nx : Ptr → Ptr) (p : Ptr) (rs : List Ptr) → p ≡ 1 → Chain nx 1 p rs → rs ≡ []
none_behind nx p [] e c = refl
none_behind nx p (y ∷ ys) e c = absurd (ground arith)

module _ {initial : ℕ} {ts : List Ptr} {s : System} (good : Good initial ts s) where
  open good use {n, xs, ps, inv, threads}

  -- The body of the loop of a post.
  pub round :
      (i th : Ptr)
      → i ∈ ts
      → s.pc i ≡ posting th
      → (rs : List Ptr) → ps i ≡ th ∷ rs
      → Chain (nextwaiting s.state.process) 1 (wake_step th s.state.process).0 rs
      → (pc : Pc) → pc ≢ sleeping
      → ((next : Ptr) → pc ≡ posting next → (next ≢ 1) × (next ≡ (wake_step th s.state.process).0))
      → (in_post pc ≡ false → at_end (wake_step th s.state.process).0 ≡ true)
      → (g : Good initial ts (walked s i pc th)) × (g.ps i ≡ rs)
  round i th m e rs mine c pc awake next end = (
    record {
      n = n;
      xs = xs;
      ps = update ps i rs;
      inv =
          walk-Inv inv threads i m th pc rs e mine awake (λ p h. ((next p h).0, rw (next p h).1 c))
            (λ h. none_behind _ _ rs (ground (arith, end h)) c);
      threads = Threads-kept _ threads (λ a. ground arith);
    },
    ground arith,
  )

  -- The compare-and-swap of a post on a status that is a thread: the whole list is to be woken.
  pub take_list :
      (i : Ptr) (u : State)
      → i ∈ ts
      → s.pc i ≡ outside
      → is_odd s.state.sem_status ≡ false
      → compare_and_swap s.state.sem_status (post_new s.state.sem_status) s.state ≡ (true, u)
      → (g : Good initial ts (record s {
        state = u;
        pc = update s.pc i (posting s.state.sem_status);
        posts = s.posts + 1;
      }))
        × (g.ps i ≡ xs)
  take_list i u m e even r = (
    record {
      n = 1;
      xs = [];
      ps = update ps i xs;
      inv = swap-Inv inv threads i m u e even r;
      threads = Threads-kept _ threads (λ a. ground (arith, swap-done inv threads i m u even r));
    },
    ground arith,
  )

  pub Step-Good : (t : System) → Step ts s t → Good initial ts t
  Step-Good t (begin i m e) = record {
    n = n;
    xs = xs;
    ps = ps;
    inv = begin-Inv inv threads i m e;
    threads = threads;
  }
  Step-Good t (wake i m e p) = record {
    n = n;
    xs = xs;
    ps = ps;
    inv = wake-Inv inv threads i m e p;
    threads = threads;
  }
  Step-Good t (take i u m e r) = record {
    n = n - 1;
    xs = xs;
    ps = ps;
    inv = take-Inv inv threads i m u e r;
    threads = Threads-kept _ threads (λ a. ground (arith, take-done inv threads i m u r));
  }
  Step-Good t (sleep i u m e r) = record {
    n = n;
    xs = i ∷ xs;
    ps = ps;
    inv = sleep-Inv inv threads i m u e r;
    threads = Threads-kept _ threads (λ a. ground (arith, sleep-done inv threads i m u r));
  }
  Step-Good t (add i u m e odd r) = record {
    n = n + 1;
    xs = xs;
    ps = ps;
    inv = add-Inv inv threads i m u odd r;
    threads = Threads-kept _ threads (λ a. ground (arith, add-done inv threads i m u odd r));
  }
  Step-Good t (swap i u m e even r) = (take_list i u m e even r).0
  Step-Good t (walk i th m e ne) =
      let (rs, mine, c) = rest_of _ th (ps i) (inv.walking i th e).1 (inv.walking i th e).0 in
      (round i th m e rs mine c (posting (wake_step th s.state.process).0) (ground arith)
        (λ p h. ground arith) (ground arith)).0
  Step-Good t (last i th m e end) =
      let (rs, mine, c) = rest_of _ th (ps i) (inv.walking i th e).1 (inv.walking i th e).0 in
      (round i th m e rs mine c outside (ground arith) (λ p h. absurd (ground arith)) (λ h. end)).0

pub Reach-Good :
    {initial : ℕ} {ts : List Ptr} {s t : System}
    → Good initial ts s
    → Reach ts s t
    → Good initial ts t
Reach-Good g here = g
Reach-Good g (later {u = u} r st) = Step-Good (Reach-Good g r) u st

-- A semaphore whose count is `initial`, with no thread at it.
abbrev pub start : ℕ → Process → System
start initial p = record {
  state = record { sem_status = count_status initial; process = record p { kills = [] } };
  pc = λ i. outside;
  pending = λ i. false;
  takes = 0;
  posts = 0;
}

pub start-Good :
    (initial : ℕ) (ts : List Ptr) (p : Process)
    → Threads ts p
    → initial < 2 ^ 30
    → Good initial ts (start initial p)
start-Good initial ts p threads small = record {
  n = initial;
  xs = [];
  ps = λ i. [];
  inv = record {
    listed = λ z. omega arith;
    counted = λ m. (refl, refl);
    small = small;
    balance = refl;
    kills = refl;
    members = λ i h. absurd (h refl);
    queued = λ i h. cc;
    taken = λ i j h. cc;
    apart = λ i j k h. cc;
    walking = λ j th h. cc;
    idle = λ j h. refl;
    reached = λ i h. cc;
    signalled = λ i m h. cc;
  };
  threads = record { aligned = threads.aligned; pids = threads.pids };
}
