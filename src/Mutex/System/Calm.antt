-- ===== src/Mutex/System/Calm.antt =====
-- The steps that wake nobody.
use read_linuxthreads.Prelude.{
  ◌≡◌, ◌≢◌, sym, true, false, List, [], ◌∷◌, ◌++◌, arith, ◌∈◌, update, has-snoc, ◌∙◌,
}
use read_linuxthreads.Memory.{Ptr}
use read_linuxthreads.Mutex.{State}
use read_linuxthreads.Mutex.Waiting.{Queued}
use read_linuxthreads.Mutex.System.{System, outside, locking, waiting, owner}
use read_linuxthreads.Mutex.System.Invariant.{Inv}

module _ {ts xs : List Ptr} {s : System} (inv : Inv ts xs s) (i : Ptr) (member : i ∈ ts) where
  pub begin-Inv : s.pc i ≡ outside → Inv ts xs (record s { pc = update s.pc i locking })
  begin-Inv e = record {
    idle = inv.idle;
    kind = inv.kind;
    kills = inv.kills;
    members = λ j. ground (arith, inv.members j);
    owned = λ j. ground (arith, inv.owned j);
    taken = λ n. (let (j, o) = inv.taken n in (j, ground arith));
    unique = λ j k. ground (arith, inv.unique j k);
    queued = λ j. ground (arith, inv.queued j);
    woken = λ j. ground (arith, inv.woken j);
    signalled = λ j. ground (arith, inv.signalled j);
    unlinked = λ j. inv.unlinked j;
    coming = λ z n. (i, ground arith);
  }

  -- The state after a call of `lock` or `trylock` that takes the free mutex.
  pub take-Inv :
      s.pc i ≢ waiting
      → s.state.mutex.m_count ≡ 0
      → Inv ts xs (record {
        state = record (s.state) { mutex = record (s.state.mutex) { m_count = 1 } };
        pc = update s.pc i owner;
        pending = s.pending;
      })
  take-Inv e z = record {
    idle = record { free = inv.idle.free; queue = inv.idle.queue };
    kind = inv.kind;
    kills = inv.kills;
    members = λ j. ground (arith, inv.members j);
    owned = λ j h. omega arith;
    taken = λ n. (i, ground arith);
    unique = λ j k. ground (arith, inv.owned j, inv.owned k);
    queued = λ j. ground (arith, inv.queued j);
    woken = λ j. ground (arith, inv.woken j);
    signalled = λ j. ground (arith, inv.signalled j);
    unlinked = λ j. inv.unlinked j;
    coming = λ one. absurd (omega arith);
  }

  pub wake-Inv :
      s.pc i ≡ waiting
      → s.pending i ≡ true
      → Inv ts xs (record s { pc = update s.pc i locking; pending = update s.pending i false })
  wake-Inv e p = record {
    idle = inv.idle;
    kind = inv.kind;
    kills = inv.kills;
    members = λ j. ground (arith, inv.members j);
    owned = λ j. ground (arith, inv.owned j);
    taken = λ n. (let (j, o) = inv.taken n in (j, ground arith));
    unique = λ j k. ground (arith, inv.unique j k);
    queued = λ j. ground (arith, inv.queued j, inv.queued i);
    woken = λ j. ground (arith, inv.woken j);
    signalled = λ j. ground (arith, inv.signalled j);
    unlinked = λ j. inv.unlinked j;
    coming = λ z n. (i, ground arith);
  }

  pub block-Inv :
      (t : State)
      → s.pc i ≡ locking
      → s.state.mutex.m_count ≢ 0
      → Queued i s.state xs t
      → Inv ts (xs ++ i ∷ []) (record s { state = t; pc = update s.pc i waiting })
  block-Inv t e n q = record {
    idle = q.idle;
    kind = q.kind ∙ inv.kind;
    kills = q.kills ∙ inv.kills;
    members = λ j. ground (arith, inv.members j);
    owned = λ j. ground (arith, inv.owned j, q.count);
    taken = λ m. (let (j, o) = inv.taken n in (j, ground arith));
    unique = λ j k. ground (arith, inv.unique j k);
    queued = λ j h. ground (arith, inv.queued j, inv.signalled i, has-snoc j i xs);
    woken = λ j w out. ground (arith, inv.woken j, has-snoc j i xs);
    signalled = λ j. ground (arith, inv.signalled j);
    unlinked = λ j m out. ground (arith, inv.unlinked j, q.same j, has-snoc j i xs);
    coming = λ z. absurd (n (sym q.count ∙ z));
  }
