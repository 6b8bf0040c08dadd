-- ===== src/Cond/System/Kept.antt =====
-- Every step of the threads over a mutex and a condition keeps the invariant, which holds at the start.
use read_linuxthreads.Prelude.{
  ◌≡◌, refl, false, none, List, [], ◌∷◌, ◌++◌, arith, ◌∈◌, ℕ, update, subst, sym, ◌+◌, length, some,
}
use read_linuxthreads.Memory.{Ptr, null, Process, success}
use read_linuxthreads.Chain.{nextwaiting}
use read_linuxthreads.Woken.{Woken}
use read_linuxthreads.Run.{done, Returns}
use read_linuxthreads.Mutex.{mutex_init}
use read_linuxthreads.Mutex.Waiting.{rest}
use read_linuxthreads.Mutex.Fast.{lock-done, lock-waits, unlock-done}
use read_linuxthreads.Cond.{State, cond_init, cond_signal, cond_broadcast}
use read_linuxthreads.Cond.Wait.{mutex_state, with_mutex, enqueue-pid}
use read_linuxthreads.Cond.Waiters.{
  IsWaitedFor, Signalled, cond_signal-Signalled, broadcast-Woken, broadcast-more,
}
use read_linuxthreads.Cond.System.{
  System, outside, owner, entering, sleeping, Step, begin, lock, block, wake, unlock, enter, let_go,
  signal, broadcast, Reach, here, later,
}
use read_linuxthreads.Cond.System.Invariant.{Inv, Threads, Threads-kept, IsFresh-of, first}
use read_linuxthreads.Cond.System.Steps.Calm.{
  begin-Inv, take-Inv, wake-Inv, block-Inv, enter-done, enter-Inv,
}
use read_linuxthreads.Cond.System.Steps.Leaving.{
  give_up-Inv, wake_up-Inv, Freed-Leave, Signalled-Leave, Woken-Leave,
}

-- The invariant, for some queues, with the addresses and processes of the threads.
pub record Good (ts : List Ptr) (s : System) : Type 0 where
  pub xs : List Ptr
  pub cs : List Ptr
  pub inv : Inv ts xs cs s
  pub threads : Threads ts s.state.process

module _ {ts : List Ptr} {s : System} (good : Good ts s) where
  open good use {xs, cs, inv, threads}

  -- What a signal does, read from its outcome.
  pub signal-Signalled : (t : State) → cond_signal s.state ≡ done success t → Signalled s.state cs t
  signal-Signalled t e =
      (subst (λ r. Returns r success (Signalled s.state cs)) e
        (cond_signal-Signalled s.state cs inv.waited_for)).1

  -- What a broadcast does.
  broadcast-done :
      (fuel : ℕ) (t : State)
      → cond_broadcast fuel s.state ≡ some (done success t)
      → IsWaitedFor t [] × (t.mutex ≡ s.state.mutex) × Woken s.state.process cs t.process
  broadcast-done fuel t e =
      let enough = fuel + length cs + 1 in
      let (u, r, waited, same, woken) =
        broadcast-Woken enough s.state cs inv.waited_for (omega arith) in
      let eq : u ≡ t = cc (r, broadcast-more fuel enough s.state t (omega arith) e) in
      subst (λ v. IsWaitedFor v [] × (v.mutex ≡ s.state.mutex) × Woken s.state.process cs v.process)
        eq (waited, same, woken)

  -- Every step keeps the invariant.
  pub Step-Good : (t : System) → Step ts s t → Good ts t
  Step-Good t (begin i m e) = record {
    xs = xs;
    cs = cs;
    inv = begin-Inv inv i m e;
    threads = threads;
  }
  Step-Good t (lock i u m e r) =
      let (z, same) = lock-done i (mutex_state s.state) xs inv.idle inv.kind u r in
      subst (λ v. Good ts (record s { state = with_mutex v s.state; pc = update s.pc i owner }))
        (sym same) (record { xs = xs; cs = cs; inv = take-Inv inv i m e z; threads = threads })
  Step-Good t (block i u m e r) =
      let (fx, fc) = IsFresh-of inv i threads m (ground arith) in
      let (n, q) = lock-waits i (mutex_state s.state) xs inv.idle inv.kind u r fx in
      record {
        xs = xs ++ i ∷ [];
        cs = cs;
        inv = block-Inv inv i m u e n fc.new q;
        threads = Threads-kept u.process threads q.pids;
      }
  Step-Good t (wake i m e p) = record {
    xs = xs;
    cs = cs;
    inv = wake-Inv inv i m e p;
    threads = threads;
  }
  Step-Good t (unlock i u m e r) =
      let f = unlock-done (mutex_state s.state) xs inv.idle inv.kind u r in
      let leave = Freed-Leave (mutex_state s.state) u xs inv.idle f in
      record {
        xs = rest xs;
        cs = cs;
        inv =
            give_up-Inv threads inv i m u outside (first xs) (ground arith) refl (ground arith) refl
              f leave;
        threads = Threads-kept _ threads f.pids;
      }
  Step-Good t (enter i u m e r) =
      let (fx, fc) = IsFresh-of inv i threads m (ground arith) in
      subst (λ v. Good ts (record s { state = v; pc = update s.pc i entering }))
        (sym (enter-done inv i m u r))
        (record {
          xs = xs;
          cs = cs ++ i ∷ [];
          inv = enter-Inv inv i m e fx.new fc;
          threads = Threads-kept _ threads (enqueue-pid s.state.cond.c_waiting i s.state.process);
        })
  Step-Good t (let_go i u m e r) =
      let f = unlock-done (mutex_state s.state) xs inv.idle inv.kind u r in
      let leave = Freed-Leave (mutex_state s.state) u xs inv.idle f in
      record {
        xs = rest xs;
        cs = cs;
        inv =
            give_up-Inv threads inv i m u sleeping (first xs) (ground arith) refl (ground arith)
              refl f leave;
        threads = Threads-kept _ threads f.pids;
      }
  Step-Good t (signal i u m e r) =
      let f = signal-Signalled u r in
      let leave = Signalled-Leave s.state u cs inv.waited_for f in
      record {
        xs = xs;
        cs = rest cs;
        inv = wake_up-Inv threads inv i m u (first cs) (rest cs) f.waited_for f.mutex leave;
        threads = Threads-kept _ threads f.pids;
      }
  Step-Good t (broadcast i fuel u m e r) =
      let (waited, same, woken) = broadcast-done fuel u r in
      let leave = Woken-Leave s.state.process u.process cs woken in
      record {
        xs = xs;
        cs = [];
        inv = wake_up-Inv threads inv i m u cs [] waited same leave;
        threads = Threads-kept _ threads woken.pids;
      }

pub Reach-Good : {ts : List Ptr} {s t : System} → Good ts s → Reach ts s t → Good ts t
Reach-Good g here = g
Reach-Good g (later {u = u} r st) = Step-Good (Reach-Good g r) u st

-- A mutex and a condition that are set up, with no thread at them.
abbrev pub start : Process → System
start p = record {
  state = record { cond = cond_init; mutex = mutex_init none; process = record p { kills = [] } };
  pc = λ i. outside;
  pending = λ i. false;
}

pub start-Good :
    (ts : List Ptr) (p : Process)
    → Threads ts p
    → ((i : Ptr) → i ∈ ts → nextwaiting p i ≡ null)
    → Good ts (start p)
unfolding mutex_init cond_init
start-Good ts p threads unlinked = record {
  xs = [];
  cs = [];
  inv = record {
    idle = record { free = refl; queue = record { chain = refl; tail = refl } };
    waited_for = record { free = refl; queue = record { chain = refl; tail = refl } };
    kind = refl;
    kills = refl;
    members = λ i h. absurd (h refl);
    owned = λ i h. cc;
    unique = λ i j h. cc;
    queued = λ i h. cc;
    woken = λ i h. cc;
    in_queue = λ i h. cc;
    reached = λ i h. cc;
    signalled = λ i m h. cc;
    unlinked = λ i m out out'. unlinked i m;
  };
  threads = record { ne_null = threads.ne_null; pids = threads.pids };
}
