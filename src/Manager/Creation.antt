-- ===== src/Manager/Creation.antt =====
-- pthread_handle_create: the ring, the segments and the descriptor of a new thread.
use read_linuxthreads.Prelude.{
  ℕ, ◌+◌, ◌*◌, ◌<◌, ◌≤◌, ◌≡◌, ◌≢◌, refl, Bool, true, false, none, some, List, ◌∷◌, arith, ◌∈◌, ◌∉◌,
  ◌==◌, has, update, ◌∙◌, ap, sym, subst, ==→eq, Bool-cases, inl, inr,
}
use read_linuxthreads.Memory.{Ptr, null, Process, Pthread, SigSet, success, eagain, set_desc}
use read_linuxthreads.Ring.{insert_live}
use read_linuxthreads.Ring.Laws.{IsRing, insert_live-IsRing}
use read_linuxthreads.Ring.Kept.{
  insert_live-blind, pid-IsBlind, IsBlind, insert_live-blind, insert_live-SameProcess,
}
use read_linuxthreads.Stacks.{Segments, stack_size, thread_seg, seg_thread, found, find_segment}
use read_linuxthreads.Stacks.Laws.{IsBounded, IsFound, seg_back, find_segment-IsFound}
use read_linuxthreads.Manager.{State, Layout, Answers, initial_desc, handle_create}
use read_linuxthreads.Manager.Threads.{desc-IsRing, new-IsRing}

-- What the manager knows of the active threads: the ring, and that each of them but the main thread
-- has its descriptor in a segment in use.
pub record IsManaged (lay : Layout) (s : State) (xs : List Ptr) : Type 0 where
  pub ring : IsRing s.process s.process.main_thread xs
  pub placed : (a : Ptr) → a ∈ xs → s.segments.used (seg_thread lay.start lay.size a) ≡ true
  pub bounded : IsBounded s.segments

-- The descriptors fit into segments, the segments that can be mapped lie above address 0, and the
-- main thread has its descriptor outside them.
pub record IsLaidOut (lay : Layout) (maps : ℕ → Bool) (main : Ptr) : Type 0 where
  pub some_size : 0 < lay.size
  pub fits : lay.size ≤ stack_size
  pub above : (k : ℕ) → maps k ≡ true → k * stack_size + stack_size ≤ lay.start
  pub apart : (k : ℕ) → maps k ≡ true → thread_seg lay.start lay.size k ≢ main

-- The descriptor of a new thread.
pub record IsNew (d : Pthread) (detached : Bool) (pid fn arg : ℕ) (mask : SigSet) : Type 0 where
  pub p_pid : d.p_pid ≡ pid
  pub p_detached : d.p_detached ≡ detached
  pub p_terminated : d.p_terminated ≡ false
  pub p_exited : d.p_exited ≡ false
  pub p_joining : d.p_joining ≡ null
  pub p_nextwaiting : d.p_nextwaiting ≡ null
  pub p_spinlock : d.p_spinlock ≡ 0
  pub p_canceled : d.p_canceled ≡ false
  pub p_initial_fn : d.p_initial_fn ≡ fn
  pub p_initial_fn_arg : d.p_initial_fn_arg ≡ arg
  pub p_initial_mask : d.p_initial_mask ≡ mask
  pub p_specific : (key : ℕ) → d.p_specific key ≡ null

-- The segment of the descriptor leads back.
back :
    (lay : Layout) (maps : ℕ → Bool) (main : Ptr) (k : ℕ)
    → IsLaidOut lay maps main
    → maps k ≡ true
    → seg_thread lay.start lay.size (thread_seg lay.start lay.size k) ≡ k
back lay maps main k out mapped = seg_back lay.start lay.size k out.fits (out.above k mapped)

-- The descriptor of a free segment is outside the ring.
pub outside_ring :
    (lay : Layout) (maps : ℕ → Bool) (s : State) (xs : List Ptr) (k : ℕ) (g : Segments)
    → IsManaged lay s xs
    → IsLaidOut lay maps s.process.main_thread
    → IsFound maps k s.segments g
    → thread_seg lay.start lay.size k ∉ s.process.main_thread ∷ xs
outside_ring lay maps s xs k g m out f =
    let th = thread_seg lay.start lay.size k in
    let to_k = back lay maps s.process.main_thread k out f.mapped in
    elim (Bool-cases (has th xs)) [
      | inl i ↦ absurd (ground (arith, m.placed th i, to_k, f.unused))
      | inr o ↦ ground (arith, out.apart k f.mapped)
    ]

desc_at : (th : Ptr) (d : Pthread) (q : Process) → (set_desc th d q).desc th ≡ d
desc_at th d q = let hit : (th == th) ≡ true = ground arith in rw hit refl

-- The insertion into the ring leaves the fields of the new descriptor alone.
module _ (main th : Ptr) (p : Process) (d : Pthread) (detached : Bool) (fn arg : ℕ)
    (mask : SigSet) where
  abbrev inserted : Process
  inserted = insert_live main th (set_desc th (initial_desc d detached fn arg mask) p)

  field :
      {A : Type 0} (f : Pthread → A)
      → IsBlind f
      → f (inserted.desc th) ≡ f (initial_desc d detached fn arg mask)
  field f blind =
      insert_live-blind f blind main th th (set_desc th (initial_desc d detached fn arg mask) p)
      ∙ ap f (desc_at th (initial_desc d detached fn arg mask) p)

  IsNew-inserted :
      (pid : ℕ)
      → IsNew
          ((set_desc th (record (inserted.desc th) { p_pid = pid }) inserted).desc th)
          detached
          pid
          fn
          arg
          mask
  unfolding initial_desc
  IsNew-inserted pid =
      rw (desc_at th (record (inserted.desc th) { p_pid = pid }) inserted) (record {
        p_pid = refl;
        p_detached = field (λ d. d.p_detached) (record { next = λ d v. refl; prev = λ d v. refl });
        p_terminated =
            field (λ d. d.p_terminated) (record { next = λ d v. refl; prev = λ d v. refl });
        p_exited = field (λ d. d.p_exited) (record { next = λ d v. refl; prev = λ d v. refl });
        p_joining = field (λ d. d.p_joining) (record { next = λ d v. refl; prev = λ d v. refl });
        p_nextwaiting =
            field (λ d. d.p_nextwaiting) (record { next = λ d v. refl; prev = λ d v. refl });
        p_spinlock = field (λ d. d.p_spinlock) (record { next = λ d v. refl; prev = λ d v. refl });
        p_canceled = field (λ d. d.p_canceled) (record { next = λ d v. refl; prev = λ d v. refl });
        p_initial_fn =
            field (λ d. d.p_initial_fn) (record { next = λ d v. refl; prev = λ d v. refl });
        p_initial_fn_arg =
            field (λ d. d.p_initial_fn_arg) (record { next = λ d v. refl; prev = λ d v. refl });
        p_initial_mask =
            field (λ d. d.p_initial_mask) (record { next = λ d v. refl; prev = λ d v. refl });
        p_specific = λ key.
            field (λ d. d.p_specific key) (record { next = λ d v. refl; prev = λ d v. refl });
      })

-- The segments of the ring with the new thread are in use.
placed_new :
    (lay : Layout) (maps : ℕ → Bool) (s : State) (xs : List Ptr) (k : ℕ) (g : Segments)
    → IsManaged lay s xs
    → IsFound maps k s.segments g
    → seg_thread lay.start lay.size (thread_seg lay.start lay.size k) ≡ k
    → (a : Ptr) → a ∈ thread_seg lay.start lay.size k ∷ xs
    → g.used (seg_thread lay.start lay.size a) ≡ true
placed_new lay maps s xs k g m f to_k a i =
    elim (Bool-cases (thread_seg lay.start lay.size k == a)) [
      | inl hit ↦ rw (sym (==→eq (thread_seg lay.start lay.size k) a hit), to_k) f.marked
      | inr miss ↦ f.kept (seg_thread lay.start lay.size a) (m.placed a (ground (arith, i)))
    ]

-- No signal is sent, and the other threads keep their process numbers.
pub record IsQuiet (th : Ptr) (s t : State) : Type 0 where
  pub kills : t.process.kills ≡ s.process.kills
  pub pids : (a : Ptr) → a ≢ th → (t.process.desc a).p_pid ≡ (s.process.desc a).p_pid

-- pthread_handle_create, when its search finds the segment `k`, in a state where the active threads
-- form a ring with the main thread, each of the others at the top of a segment in use. If __clone
-- succeeds it returns 0 and the thread at the top of the segment, which stands in the ring right behind
-- the main thread, with the attributes, function, argument and mask of the request, not joined, and
-- with NULL under all keys. If __clone fails it returns EAGAIN, the ring is as before and the segment
-- is free.
pub handle_create_lem :
    (fuel : ℕ) (lay : Layout) (answers : Answers) (detached : Bool) (fn arg : ℕ) (mask : SigSet)
    (s : State) (xs : List Ptr) (k pid : ℕ) (g : Segments)
    → IsManaged lay s xs
    → IsLaidOut lay answers.maps s.process.main_thread
    → find_segment fuel answers.grants answers.maps 0 s.segments ≡ some (found k g)
    → let th = thread_seg lay.start lay.size k in
      (answers.clone ≡ some pid
        → (t : State) × (handle_create fuel lay answers detached fn arg mask s
            ≡ some (success, th, t))
          × IsManaged lay t (th ∷ xs)
          × IsNew (t.process.desc th) detached pid fn arg mask
          × IsQuiet th s t)
      × (answers.clone ≡ none
          → (t : State) × (handle_create fuel lay answers detached fn arg mask s
              ≡ some (eagain, null, t))
            × IsManaged lay t xs
            × (t.segments.used k ≡ false)
            × IsQuiet th s t)
unfolding handle_create
handle_create_lem fuel lay answers detached fn arg mask s xs k pid g m out e =
    let f : IsFound answers.maps k s.segments g =
      find_segment-IsFound fuel answers.grants answers.maps 0 k s.segments g (omega arith) m.bounded
        e in
    let main = s.process.main_thread in
    let th = thread_seg lay.start lay.size k in
    let new = outside_ring lay answers.maps s xs k g m out f in
    let to_k = back lay answers.maps main k out f.mapped in
    let d = initial_desc (s.process.desc th) detached fn arg mask in
    let p1 : Process = set_desc th d s.process in
    let ring1 : IsRing p1 main xs = new-IsRing main th s.process d xs m.ring new in
    let q : Process = insert_live main th p1 in
    let ring2 : IsRing q main (th ∷ xs) = insert_live-IsRing main th p1 xs ring1 new in
    let same = insert_live-SameProcess main th p1 in
    let q' : Process = set_desc th (record (q.desc th) { p_pid = pid }) q in
    let ring3 : IsRing q' main (th ∷ xs) =
      desc-IsRing main th q (record (q.desc th) { p_pid = pid }) (th ∷ xs) ring2 refl refl in
    (
      λ cloned. (
        record s { process = q'; segments = g },
        rw (e, handle_create, cloned) refl,
        record {
          ring = subst (λ a. IsRing q' a (th ∷ xs)) (sym same.main) ring3;
          placed = placed_new lay answers.maps s xs k g m f to_k;
          bounded = f.off;
        },
        IsNew-inserted main th s.process (s.process.desc th) detached fn arg mask pid,
        record {
          kills = same.kills;
          pids = λ a ne. ground (arith, insert_live-blind (λ d. d.p_pid) pid-IsBlind main th a p1);
        },
      ),
      λ failed. (
        record s { process = p1; segments = record g { used = update g.used k false } },
        rw (e, handle_create, failed) refl,
        record {
          ring = ring1;
          placed = λ a i.
              ground (arith, m.placed a i, f.kept (seg_thread lay.start lay.size a), f.unused);
          bounded = λ i ge. ground (arith, f.off i);
        },
        ground arith,
        record { kills = refl; pids = λ a ne. ground arith },
      ),
    )
