-- ===== src/Mutex/System/Safety.antt =====
-- What holds in every reachable state of the threads over one fast mutex.
use read_linuxthreads.Prelude.{
  ◌≡◌, ◌≢◌, ◌⊎◌, refl, inl, inr, false, none, List, [], arith, ◌∈◌, has, Bool-cases, subst, update,
}
use read_linuxthreads.Memory.{Ptr, null, Process}
use read_linuxthreads.Chain.{nextwaiting}
use native.Mathlib.Decide.{ℕ_discrete}
use read_linuxthreads.Mutex.{mutex_init}
use read_linuxthreads.Mutex.Fast.{lock_free}
use read_linuxthreads.Mutex.System.{
  System, Pc, outside, locking, waiting, owner, Step, lock, wake, Reach, later, Alone, stop, go,
}
use read_linuxthreads.Mutex.System.Invariant.{Threads, Coming}
use read_linuxthreads.Mutex.System.Kept.{Good, Reach-Good}

-- A mutex that `mutex_init` has set up, with no thread at it.
abbrev pub start : Process → System
start p = record {
  state = record { mutex = mutex_init none; process = record p { kills = [] } };
  pc = λ _. outside;
  pending = λ _. false;
}

start-Good :
    (ts : List Ptr) (p : Process)
    → Threads ts (start p)
    → ((i : Ptr) → i ∈ ts → nextwaiting p i ≡ null)
    → Good ts (start p)
unfolding mutex_init
start-Good ts p threads unlinked = record {
  xs = [];
  inv = record {
    idle = record { free = refl; queue = record { chain = refl; tail = refl } };
    kind = refl;
    kills = refl;
    members = λ i h. absurd (h refl);
    owned = λ i h. cc;
    taken = λ h. absurd (h refl);
    unique = λ i j h. cc;
    queued = λ i h. cc;
    woken = λ i h. cc;
    signalled = λ i m h. cc;
    unlinked = λ i m out. unlinked i m;
    coming = λ z h. absurd (h refl);
  };
  threads = threads;
}

module _ (ts : List Ptr) (p : Process) (threads : Threads ts (start p))
    (unlinked : (i : Ptr) → i ∈ ts → nextwaiting p i ≡ null) {s : System}
    (reach : Reach ts (start p) s) where
  good : Good ts s
  good = Reach-Good (start-Good ts p threads unlinked) reach

  -- In every state that the threads `ts` reach over an initialised mutex, each with an address and a
  -- process of its own and none linked, by calls of lock, trylock and unlock in any order, in which only
  -- a thread that has the mutex unlocks it and only one that does not locks it: two threads that
  -- have the mutex are the same.
  pub mutual_exclusion : (i j : Ptr) → s.pc i ≡ owner → s.pc j ≡ owner → i ≡ j
  mutual_exclusion = good.inv.unique

  -- A thread at the top of the loop takes the mutex if it is free.
  lock_next :
      (j : Ptr)
      → s.state.mutex.m_count ≡ 0
      → s.pc j ≡ locking
      → (t : System) × Alone ts j s t × (t.pc j ≡ owner)
  lock_next j z e =
      let st : Step ts s _ =
        lock j _ (good.inv.members j (ground arith)) e
          (lock_free j s.state good.xs good.inv.idle good.inv.kind z) in
      (_, go st refl stop, ground arith)

  -- For a thread that sleeps, some thread has the mutex, or some thread will try to take it.
  pub no_lost_wakeup :
      (i : Ptr) → s.pc i ≡ waiting → ((j : Ptr) × (s.pc j ≡ owner)) ⊎ ((j : Ptr) × Coming s j)
  no_lost_wakeup i w = elim (Bool-cases (has i good.xs)) [
    | inl h ↦ elim (ℕ_discrete s.state.mutex.m_count 0) [
      | yes z ↦ inr (good.inv.coming z (λ e. cc (subst (λ ys. i ∈ ys) e h)))
      | no nz ↦ inl (good.inv.taken nz)
    ]
    | inr h ↦ inr (i, inr (w, good.inv.woken i w h))
  ]

-- A thread that comes gets the mutex, if it is free, in one step or two.
comes-owner :
    (ts : List Ptr) (p : Process) (threads : Threads ts (start p))
    (unlinked : (i : Ptr) → i ∈ ts → nextwaiting p i ≡ null) (s : System)
    → Reach ts (start p) s
    → (j : Ptr) → s.state.mutex.m_count ≡ 0
    → Coming s j
    → (t : System) × Alone ts j s t × (t.pc j ≡ owner)
comes-owner ts p threads unlinked s reach j z (inl e) = lock_next ts p threads unlinked reach j z e
comes-owner ts p threads unlinked s reach j z (inr (e, pending)) =
    let g : Good ts s = good ts p threads unlinked reach in
    let woken : System = record s {
      pc = update s.pc j locking;
      pending = update s.pending j false;
    } in
    let up : Step ts s woken = wake j (g.inv.members j (ground arith)) e pending in
    let (t, st, o) =
      lock_next ts p threads unlinked {s = woken} (later reach up) j z (ground arith) in
    (t, go up refl st, o)

-- In every state that the threads `ts` reach over an initialised mutex, each with an address and a
-- process of its own and none linked, by calls of lock, trylock and unlock in any order, in which only a
-- thread that has the mutex unlocks it and only one that does not locks it: if some thread is in a call of
-- lock, asleep or not, or has the mutex, then some thread has the mutex; or some thread that is in a
-- call of lock, and if it sleeps has a restart pending, comes to have it by steps of its own alone. So the
-- mutex is never free while threads sleep in lock and none that is in lock is awake or woken.
pub no_deadlock :
    (ts : List Ptr) (p : Process)
    → Threads ts (start p)
    → ((i : Ptr) → i ∈ ts → nextwaiting p i ≡ null)
    → (s : System) → Reach ts (start p) s
    → (i : Ptr) → s.pc i ≢ outside
    → ((j : Ptr) × (s.pc j ≡ owner))
      ⊎ ((j : Ptr) × Coming s j × (t : System) × Alone ts j s t × (t.pc j ≡ owner))
no_deadlock ts p threads unlinked s reach i active = elim (ℕ_discrete s.state.mutex.m_count 0) [
  | yes z ↦
      (let (j, c) = someone z in
        let (t, r, o) = comes-owner ts p threads unlinked s reach j z c in inr (j, c, t, r, o))
  | no nz ↦ inl (g.inv.taken nz)
]
  where
    g : Good ts s
    g = good ts p threads unlinked reach

    someone : s.state.mutex.m_count ≡ 0 → (j : Ptr) × Coming s j
    someone z = active_comes (s.pc i) refl
      where
        active_comes : (c : Pc) → s.pc i ≡ c → (j : Ptr) × Coming s j
        active_comes outside e = absurd (active e)
        active_comes locking e = (i, inl e)
        active_comes waiting e = elim (no_lost_wakeup ts p threads unlinked reach i e) [
          | inl (j, o) ↦ absurd (g.inv.owned j o z)
          | inr c ↦ c
        ]
        active_comes owner e = absurd (g.inv.owned i e z)
