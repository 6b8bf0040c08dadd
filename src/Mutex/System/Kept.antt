-- ===== src/Mutex/System/Kept.antt =====
-- Every step of the threads over a mutex keeps the invariant.
use read_linuxthreads.Prelude.{
  ◌≡◌, Bool-cases, ◌≢◌, refl, sym, inl, inr, List, [], ◌∷◌, ◌++◌, arith, ◌∈◌, ◌∉◌, has, update, ◌∙◌,
  subst,
}
use read_linuxthreads.Memory.{Ptr, null}
use read_linuxthreads.Chain.{mem_ne}
use read_linuxthreads.Queue.Laws.{IsFresh}
use read_linuxthreads.Mutex.{State}
use read_linuxthreads.Mutex.Waiting.{Freed, rest}
use read_linuxthreads.Mutex.Fast.{lock-done, lock-waits, trylock-done, unlock-done}
use read_linuxthreads.Mutex.System.{
  System, waiting, owner, Step, begin, lock, block, wake, try, unlock, Reach, here, later,
}
use read_linuxthreads.Mutex.System.Invariant.{Threads, Inv}
use read_linuxthreads.Mutex.System.Calm.{begin-Inv, take-Inv, wake-Inv, block-Inv}
use read_linuxthreads.Mutex.System.Leaving.{unlock-Inv}

-- The invariant, for some queue, with the addresses and processes of the threads.
pub record Good (ts : List Ptr) (s : System) : Type 0 where
  pub xs : List Ptr
  pub inv : Inv ts xs s
  pub threads : Threads ts s

Threads-kept :
    {ts : List Ptr} {s : System} (t : System)
    → Threads ts s
    → ((a : Ptr) → (t.state.process.desc a).p_pid ≡ (s.state.process.desc a).p_pid)
    → Threads ts t
Threads-kept t threads same = record {
  ne_null = threads.ne_null;
  pids = λ i j m n e. threads.pids i j m n (sym (same i) ∙ e ∙ same j);
}

IsFresh-of :
    {ts xs : List Ptr} {s : System} (i : Ptr)
    → Inv ts xs s
    → Threads ts s
    → i ∈ ts
    → s.pc i ≢ waiting
    → IsFresh s.state.process i xs
IsFresh-of {ts} {xs} i inv threads m awake = record {
  ne_null = λ e. mem_ne null i ts threads.ne_null m (sym e);
  new = absent;
  unlinked = inv.unlinked i m absent;
}
  where
    absent : i ∉ xs
    absent = elim (Bool-cases (has i xs)) [ inl h ↦ absurd (awake (inv.queued i h).0) | inr h ↦ h ]

module _ {ts : List Ptr} {s : System} (good : Good ts s) where
  open good use {xs, inv, threads}

  taken-Good :
      (i : Ptr) (t : State)
      → i ∈ ts
      → s.pc i ≢ waiting
      → (s.state.mutex.m_count ≡ 0)
        × (t ≡ record (s.state) { mutex = record (s.state.mutex) { m_count = 1 } })
      → Good ts (record s { state = t; pc = update s.pc i owner })
  taken-Good i t m awake (z, e) =
      subst (λ t. Good ts (record s { state = t; pc = update s.pc i owner })) (sym e)
        (record {
          xs = xs;
          inv = take-Inv inv i m awake z;
          threads = Threads-kept _ threads (λ a. refl);
        })

  -- Every step keeps the invariant.
  pub Step-Good : (t : System) → Step ts s t → Good ts t
  Step-Good t (begin i m e) = record {
    xs = xs;
    inv = begin-Inv inv i m e;
    threads = Threads-kept _ threads (λ a. refl);
  }
  Step-Good t (lock i u m e r) =
      taken-Good i u m (ground arith) (lock-done i s.state xs inv.idle inv.kind u r)
  Step-Good t (block i u m e r) =
      let (n, q) =
        lock-waits i s.state xs inv.idle inv.kind u r (IsFresh-of i inv threads m (ground arith)) in
      record {
        xs = xs ++ i ∷ [];
        inv = block-Inv inv i m u e n q;
        threads = Threads-kept _ threads q.pids;
      }
  Step-Good t (wake i m e p) = record {
    xs = xs;
    inv = wake-Inv inv i m e p;
    threads = Threads-kept _ threads (λ a. refl);
  }
  Step-Good t (try i u m e r) =
      taken-Good i u m (ground arith) (trylock-done i s.state xs inv.idle inv.kind u r)
  Step-Good t (unlock i u m e r) =
      let f : Freed s.state xs u = unlock-done s.state xs inv.idle inv.kind u r in
      record {
        xs = rest xs;
        inv = unlock-Inv threads inv i u e f;
        threads = Threads-kept _ threads f.pids;
      }

pub Reach-Good : {ts : List Ptr} {s t : System} → Good ts s → Reach ts s t → Good ts t
Reach-Good g here = g
Reach-Good g (later {u = u} r st) = Step-Good (Reach-Good g r) u st
