-- ===== src/Cond/System/Steps/Calm.antt =====
-- The steps that wake nobody.
use read_linuxthreads.Prelude.{
  ◌≡◌, ◌≢◌, ◌⊎◌, refl, inl, inr, true, false, List, [], ◌∷◌, ◌++◌, arith, ◌∈◌, ◌∉◌, has, update,
  has-snoc, ◌∙◌, Bool-cases,
}
use read_linuxthreads.Memory.{Ptr}
use read_linuxthreads.Queue.{enqueue}
use read_linuxthreads.Queue.Laws.{IsFresh, enqueue-IsQueue}
use read_linuxthreads.Run.{done}
use read_linuxthreads.Mutex
use read_linuxthreads.Mutex.Waiting.{Queued}
use read_linuxthreads.Cond.{State, join_queue}
use read_linuxthreads.Cond.Wait.{mutex_state, with_mutex, enqueue-kills}
use read_linuxthreads.Cond.Waiters.{IsQueue-frame}
use read_linuxthreads.Cond.System.{System, outside, locking, waiting, owner, entering, sleeping}
use read_linuxthreads.Cond.System.Invariant.{Inv, queues_apart}

module _ {ts xs cs : List Ptr} {s : System} (inv : Inv ts xs cs s) (i : Ptr) (member : i ∈ ts) where
  pub begin-Inv : s.pc i ≡ outside → Inv ts xs cs (record s { pc = update s.pc i locking })
  begin-Inv e = record {
    idle = inv.idle;
    waited_for = inv.waited_for;
    kind = inv.kind;
    kills = inv.kills;
    members = λ j. ground (arith, inv.members j);
    owned = λ j. ground (arith, inv.owned j);
    unique = λ j k. ground (arith, inv.unique j k);
    queued = λ j. ground (arith, inv.queued j);
    woken = λ j. ground (arith, inv.woken j);
    in_queue = λ j. ground (arith, inv.in_queue j);
    reached = λ j. ground (arith, inv.reached j);
    signalled = λ j. ground (arith, inv.signalled j);
    unlinked = λ j. inv.unlinked j;
  }

  pub take-Inv :
      s.pc i ≡ locking
      → s.state.mutex.m_count ≡ 0
      → Inv ts xs cs (record s {
        state = record (s.state) { mutex = record (s.state.mutex) { m_count = 1 } };
        pc = update s.pc i owner;
      })
  take-Inv e z = record {
    idle = record { free = inv.idle.free; queue = inv.idle.queue };
    waited_for = record { free = inv.waited_for.free; queue = inv.waited_for.queue };
    kind = inv.kind;
    kills = inv.kills;
    members = λ j. ground (arith, inv.members j);
    owned = λ j h. omega arith;
    unique = λ j k. ground (arith, inv.owned j, inv.owned k);
    queued = λ j. ground (arith, inv.queued j);
    woken = λ j. ground (arith, inv.woken j);
    in_queue = λ j. ground (arith, inv.in_queue j);
    reached = λ j. ground (arith, inv.reached j);
    signalled = λ j. ground (arith, inv.signalled j);
    unlinked = λ j. inv.unlinked j;
  }

  pub wake-Inv :
      (s.pc i ≡ waiting) ⊎ (s.pc i ≡ sleeping)
      → s.pending i ≡ true
      → Inv ts xs cs (record s { pc = update s.pc i locking; pending = update s.pending i false })
  wake-Inv e p = record {
    idle = inv.idle;
    waited_for = inv.waited_for;
    kind = inv.kind;
    kills = inv.kills;
    members = λ j. ground (arith, inv.members j);
    owned = λ j. ground (arith, inv.owned j);
    unique = λ j k. ground (arith, inv.unique j k);
    queued = λ j. ground (arith, inv.queued j, inv.queued i);
    woken = λ j. ground (arith, inv.woken j);
    in_queue = λ j. ground (arith, inv.in_queue j, inv.in_queue i);
    reached = λ j. ground (arith, inv.reached j);
    signalled = λ j. ground (arith, inv.signalled j);
    unlinked = λ j. inv.unlinked j;
  }

  pub block-Inv :
      (u : Mutex.State)
      → s.pc i ≡ locking
      → s.state.mutex.m_count ≢ 0
      → i ∉ cs
      → Queued i (mutex_state s.state) xs u
      → Inv ts
          (xs ++ i ∷ [])
          cs
          (record s { state = with_mutex u s.state; pc = update s.pc i waiting })
  block-Inv u e n out_cs q = record {
    idle = q.idle;
    waited_for = record {
      free = inv.waited_for.free;
      queue =
          IsQueue-frame s.state.process u.process s.state.cond.c_waiting cs inv.waited_for.queue
            (λ a h. q.same a (queues_apart inv a h));
    };
    kind = q.kind ∙ inv.kind;
    kills = q.kills ∙ inv.kills;
    members = λ j. ground (arith, inv.members j);
    owned = λ j. ground (arith, inv.owned j, q.count);
    unique = λ j k. ground (arith, inv.unique j k);
    queued = λ j h. ground (arith, inv.queued j, inv.signalled i, has-snoc j i xs);
    woken = λ j w out. ground (arith, inv.woken j, has-snoc j i xs);
    in_queue = λ j. ground (arith, inv.in_queue j);
    reached = λ j. ground (arith, inv.reached j);
    signalled = λ j. ground (arith, inv.signalled j);
    unlinked = λ j m out. ground (arith, inv.unlinked j, q.same j, has-snoc j i xs);
  }

  -- The state behind the entry in the queue of the condition.
  abbrev pub entered : State
  entered = record (s.state) {
    cond = record {
      c_spinlock = 0;
      c_waiting = (enqueue s.state.cond.c_waiting i s.state.process).0;
    };
    process = (enqueue s.state.cond.c_waiting i s.state.process).1;
  }

  pub enter-done : (t : State) → join_queue i s.state ≡ done tt t → t ≡ entered
  unfolding join_queue
  enter-done t e = ground (arith, inv.waited_for.free)

  pub enter-Inv :
      s.pc i ≡ owner
      → i ∉ xs
      → IsFresh s.state.process i cs
      → Inv ts xs (cs ++ i ∷ []) (record s { state = entered; pc = update s.pc i entering })
  enter-Inv e out_xs fresh =
      let q = s.state.cond.c_waiting in
      let (is, same) = enqueue-IsQueue q i s.state.process cs inv.waited_for.queue fresh in
      record {
        idle = record {
          free = inv.idle.free;
          queue =
              IsQueue-frame s.state.process entered.process s.state.mutex.m_waiting xs
                inv.idle.queue (λ a h. same a (xs_apart a h));
        };
        waited_for = record { free = refl; queue = is };
        kind = inv.kind;
        kills = enqueue-kills q i s.state.process ∙ inv.kills;
        members = λ j. ground (arith, inv.members j);
        owned = λ j. ground (arith, inv.owned j, inv.owned i);
        unique = λ j k. ground (arith, inv.unique j k, inv.unique i k, inv.unique j i);
        queued = λ j. ground (arith, inv.queued j);
        woken = λ j. ground (arith, inv.woken j);
        in_queue = λ j h. ground (arith, inv.in_queue j, inv.signalled i, has-snoc j i cs);
        reached = λ j w out. ground (arith, inv.reached j, has-snoc j i cs);
        signalled = λ j. ground (arith, inv.signalled j);
        unlinked = λ j m out out'. ground (arith, inv.unlinked j, same j, has-snoc j i cs);
      }
    where
      xs_apart : (a : Ptr) → a ∈ xs → a ∉ cs
      xs_apart a h = elim (Bool-cases (has a cs)) [
        | inl both ↦ absurd (ground (arith, queues_apart inv a both))
        | inr out ↦ out
      ]
