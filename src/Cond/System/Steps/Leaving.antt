-- ===== src/Cond/System/Steps/Leaving.antt =====
-- The steps that wake threads of one of the two queues.
use read_linuxthreads.Prelude.{
  ◌≡◌, ◌||◌, refl, sym, inl, inr, true, false, List, [], ◌∷◌, arith, ◌∈◌, ◌∉◌, has, update, ◌∙◌,
  Bool-cases,
}
use read_linuxthreads.Memory.{Ptr, Process}
use read_linuxthreads.Queue.{Queue}
use read_linuxthreads.Queue.Laws.{IsQueue}
use read_linuxthreads.Woken.{Woken}
use read_linuxthreads.Mutex
use read_linuxthreads.Mutex.Waiting.{IsIdle, Freed, rest}
use read_linuxthreads.Cond.{State}
use read_linuxthreads.Cond.Wait.{mutex_state, with_mutex}
use read_linuxthreads.Cond.Waiters.{IsQueue-frame, IsWaitedFor, Signalled}
use read_linuxthreads.Cond.System.{System, Pc, waiting, has_mutex, in_wait, asleep, moves, drain}
use read_linuxthreads.Cond.System.Invariant.{
  Inv, Threads, Leave, queues_apart, xs_members, cs_members, deliver-has, first, has-first,
  wake_first-first,
}

-- The first thread of a queue stands there once.
first_out :
    {p : Process} {q : Queue} (j : Ptr) (xs : List Ptr)
    → IsQueue p q xs
    → j ∈ first xs
    → j ∉ rest xs
first_out j [] is h = cc
first_out j (x ∷ xs) is h = ground (arith, is.chain.2)

module _ {ts xs cs : List Ptr} {s : System} (threads : Threads ts s.state.process)
    (inv : Inv ts xs cs s) (i : Ptr) (member : i ∈ ts) where
  -- The thread gives up the mutex, in unlock or in the wait.
  pub give_up-Inv :
      (u : Mutex.State) (pc : Pc) (ws : List Ptr)
      → has_mutex (s.pc i) ≡ true
      → has_mutex pc ≡ false
      → in_wait pc ≡ in_wait (s.pc i)
      → asleep pc ≡ in_wait pc
      → Freed (mutex_state s.state) xs u
      → Leave xs ws (rest xs) s.state.process u.process
      → Inv ts (rest xs) cs (moves s i pc (with_mutex u s.state))
  give_up-Inv u pc ws holds free_pc same_wait no_lock f leave =
      let t = with_mutex u s.state in
      let now = λ (j : Ptr). deliver-has inv t xs ws (rest xs) j threads leave (xs_members inv) in
      record {
        idle = record {
          free = f.idle.free;
          queue = record { chain = f.idle.queue.chain; tail = f.idle.queue.tail };
        };
        waited_for = record {
          free = inv.waited_for.free;
          queue =
              IsQueue-frame s.state.process (drain t).process s.state.cond.c_waiting cs
                inv.waited_for.queue (λ a h. f.same a (queues_apart inv a h));
        };
        kind = f.kind ∙ inv.kind;
        kills = refl;
        members = λ j. ground (arith, inv.members j);
        owned = λ j. ground (arith, inv.unique j i);
        unique = λ j k. ground (arith, inv.unique j k);
        queued = λ j h.
            (let was : j ∈ xs = ground (arith, leave.parts j) in
              ground (arith, inv.queued j was, leave.apart j, now j (xs_members inv j was)));
        woken = λ j w out.
            (let was : s.pc j ≡ waiting = ground arith in
              ground (arith, leave.parts j, inv.woken j was, now j (inv.members j (ground arith))));
        in_queue = λ j h.
            (let out : j ∉ xs = queues_apart inv j h in
              ground (arith, inv.in_queue j h, leave.parts j, now j (cs_members inv j h)));
        reached = λ j w out.
            (let was : in_wait (s.pc j) ≡ true = ground arith in
              ground (arith, inv.reached j was, now j (inv.members j (ground arith))));
        signalled = λ j m p.
            (let old : (s.pending j || has j ws) ≡ true = sym (now j m) ∙ p in
              ground (arith, inv.signalled j m, inv.queued j, leave.parts j));
        unlinked = λ j m out out'. elim (Bool-cases (has j xs)) [
          | inl was ↦ f.unlinked j was out
          | inr never ↦ ground (arith, f.same j never, inv.unlinked j m never)
        ];
      }

  -- A signal or a broadcast.
  pub wake_up-Inv :
      (t : State) (ws rs : List Ptr)
      → IsWaitedFor t rs
      → t.mutex ≡ s.state.mutex
      → Leave cs ws rs s.state.process t.process
      → Inv ts xs rs (moves s i (s.pc i) t)
  wake_up-Inv t ws rs waited same leave =
      let now = λ (j : Ptr). deliver-has inv t cs ws rs j threads leave (cs_members inv) in
      let still : (j : Ptr) → update s.pc i (s.pc i) j ≡ s.pc j = λ j. ground arith in
      record {
        idle = record {
          free = rw same inv.idle.free;
          queue = rw same (
              IsQueue-frame s.state.process (drain t).process s.state.mutex.m_waiting xs
                inv.idle.queue (λ a h. leave.same a (xs_apart a h)));
        };
        waited_for = record {
          free = waited.free;
          queue = record { chain = waited.queue.chain; tail = waited.queue.tail };
        };
        kind = rw same inv.kind;
        kills = refl;
        members = λ j. rw (still j) (inv.members j);
        owned = λ j. rw (still j, same) (inv.owned j);
        unique = λ j k. rw (still j, still k) (inv.unique j k);
        queued = λ j h.
            (let out : j ∉ cs = xs_apart j h in
              ground (arith, inv.queued j h, leave.parts j, now j (xs_members inv j h)));
        woken = λ j w out.
            (let was : s.pc j ≡ waiting = ground arith in
              ground (arith, inv.woken j was, now j (inv.members j (ground arith))));
        in_queue = λ j h.
            (let was : j ∈ cs = ground (arith, leave.parts j) in
              ground (arith, inv.in_queue j was, leave.apart j, now j (cs_members inv j was)));
        reached = λ j w out.
            (let was : in_wait (s.pc j) ≡ true = ground arith in
              ground
                (arith, leave.parts j, inv.reached j was, now j (inv.members j (ground arith))));
        signalled = λ j m p.
            (let old : (s.pending j || has j ws) ≡ true = sym (now j m) ∙ p in
              ground (arith, inv.signalled j m, inv.in_queue j, leave.parts j));
        unlinked = λ j m out out'. elim (Bool-cases (has j cs)) [
          | inl was ↦ leave.unlinked j was out'
          | inr never ↦ ground (arith, leave.same j never, inv.unlinked j m out never)
        ];
      }
    where
      xs_apart : (a : Ptr) → a ∈ xs → a ∉ cs
      xs_apart a h = elim (Bool-cases (has a cs)) [
        | inl both ↦ absurd (ground (arith, queues_apart inv a both))
        | inr out ↦ out
      ]

-- What an unlock and a signal take out of their queue, and a broadcast.
pub Freed-Leave :
    (s u : Mutex.State) (xs : List Ptr)
    → IsIdle s xs
    → Freed s xs u
    → Leave xs (first xs) (rest xs) s.process u.process
Freed-Leave s u xs idle f = record {
  kills = rw (← wake_first-first s.process xs) f.kills;
  parts = λ j. has-first j xs;
  apart = λ j h. first_out j xs idle.queue h;
  unlinked = f.unlinked;
  same = f.same;
  pids = f.pids;
}

pub Signalled-Leave :
    (s t : State) (cs : List Ptr)
    → IsWaitedFor s cs
    → Signalled s cs t
    → Leave cs (first cs) (rest cs) s.process t.process
Signalled-Leave s t cs w f = record {
  kills = rw (← wake_first-first s.process cs) f.kills;
  parts = λ j. has-first j cs;
  apart = λ j h. first_out j cs w.queue h;
  unlinked = f.unlinked;
  same = f.same;
  pids = f.pids;
}

pub Woken-Leave : (p p' : Process) (cs : List Ptr) → Woken p cs p' → Leave cs cs [] p p'
Woken-Leave p p' cs w = record {
  kills = w.kills;
  parts = λ j. ground arith;
  apart = λ j h. refl;
  unlinked = λ a h out. w.unlinked a h;
  same = w.same;
  pids = w.pids;
}
