-- ===== src/Manager/Threads.antt =====
-- The life of a thread in the manager: creation, the end of its process, and its resources.
use read_linuxthreads.Prelude.{
  ℕ, ◌<◌, ◌≡◌, ◌≢◌, refl, true, false, some, List, ◌∷◌, arith, Bool-cases, inl, inr, ◌∈◌, ◌∉◌,
  if◌then◌else◌, erase, length, ◌∙◌,
}
use read_linuxthreads.Memory.{Ptr, Process, Pthread, set_desc}
use read_linuxthreads.Run.{done}
use read_linuxthreads.Chain.{mem_ne}
use read_linuxthreads.Ring.{remove_live}
use read_linuxthreads.Ring.Laws.{IsRing, nexts, prevs, Links-frame}
use read_linuxthreads.Ring.Removal.{remove_live-IsRing}
use read_linuxthreads.Ring.Kept.{IsBlind, remove_live-blind}
use read_linuxthreads.Ring.Walks.{find_live-some}
use read_linuxthreads.Stacks.{seg_thread}
use read_linuxthreads.Manager.{
  State, Layout, free_thread, check_last, mark_exited, exited, handle_free,
}

-- A change of the descriptor of `th` that keeps its links.
pub desc-IsRing :
    (main th : Ptr) (p : Process) (d : Pthread) (xs : List Ptr)
    → IsRing p main xs
    → d.p_nextlive ≡ (p.desc th).p_nextlive
    → d.p_prevlive ≡ (p.desc th).p_prevlive
    → IsRing (set_desc th d p) main xs
desc-IsRing main th p d xs ring next prev = record {
  links =
      Links-frame (nexts p) (prevs p) (nexts (set_desc th d p)) (prevs (set_desc th d p)) main main
        xs ring.links (λ b i. ground arith) (λ b i. ground arith);
  distinct = ring.distinct;
}

-- A descriptor outside the ring.
pub new-IsRing :
    (main th : Ptr) (p : Process) (d : Pthread) (xs : List Ptr)
    → IsRing p main xs
    → th ∉ main ∷ xs
    → IsRing (set_desc th d p) main xs
new-IsRing main th p d xs ring new = record {
  links =
      Links-frame (nexts p) (prevs p) (nexts (set_desc th d p)) (prevs (set_desc th d p)) main main
        xs ring.links (λ b i. ground (arith, mem_ne th b (main ∷ xs)))
        (λ b i. ground (arith, mem_ne th b (main ∷ xs)));
  distinct = ring.distinct;
}

free_thread-process :
    (lay : Layout) (th : Ptr) (s : State) → (free_thread lay th s).process ≡ s.process
unfolding free_thread
free_thread-process lay th s = ground arith

-- What the end of a process leaves of the descriptors.
pub mark_exited-process :
    (lay : Layout) (th : Ptr) (s : State)
    → (mark_exited lay th s).process
      ≡ set_desc th
          (record ((remove_live th s.process).desc th) { p_exited = true })
          (remove_live th s.process)
unfolding mark_exited
mark_exited-process lay th s = elim (Bool-cases (((remove_live th s.process).desc th).p_detached)) [
  | inl on ↦ rw on (free_thread-process lay th _)
  | inr off ↦ rw off refl
]

detached-IsBlind : IsBlind (λ d. d.p_detached)
detached-IsBlind = record { next = λ d v. refl; prev = λ d v. refl }

free_thread-used :
    (lay : Layout) (th : Ptr) (s : State)
    → th ≢ lay.initial_thread
    → (free_thread lay th s).segments.used (seg_thread lay.start lay.size th) ≡ false
unfolding free_thread
free_thread-used lay th s ne = ground arith

-- Its segment is free afterwards if the thread was detached.
mark_exited-used :
    (lay : Layout) (th : Ptr) (s : State)
    → th ≢ lay.initial_thread
    → let seg = seg_thread lay.start lay.size th in
      (mark_exited lay th s).segments.used seg
      ≡ (if (s.process.desc th).p_detached then false else s.segments.used seg)
unfolding mark_exited
mark_exited-used lay th s ne = elim (Bool-cases ((s.process.desc th).p_detached)) [
  | inl on ↦
      rw (remove_live-blind (λ d. d.p_detached) detached-IsBlind th th s.process, on)
        (free_thread-used lay th _ ne)
  | inr off ↦ rw (remove_live-blind (λ d. d.p_detached) detached-IsBlind th th s.process, off) refl
]

-- The search finds the thread, and the rest is done to it.
pub exited-marks :
    (fuel : ℕ) (lay : Layout) (pid : ℕ) (th : Ptr) (s : State) (xs : List Ptr)
    → IsRing s.process s.process.main_thread xs
    → length xs < fuel
    → th ∈ xs
    → (s.process.desc th).p_pid ≡ pid
    → ((b : Ptr) → b ∈ xs → (s.process.desc b).p_pid ≡ pid → b ≡ th)
    → (s.process.desc th).p_spinlock ≡ 0
    → exited fuel lay pid s ≡ some (check_last (mark_exited lay th s))
unfolding exited
exited-marks fuel lay pid th s xs ring lt i e only unlocked =
    rw
      (
        find_live-some fuel s.process.main_thread pid s.process.main_thread th s.process xs
            ring.links ring.distinct.0 lt i e only,
        exited,
        unlocked,
      )
      refl

-- The ring without the thread.
pub mark_exited-IsRing :
    (lay : Layout) (th : Ptr) (s : State) (xs : List Ptr)
    → IsRing s.process s.process.main_thread xs
    → th ∈ xs
    → IsRing (mark_exited lay th s).process s.process.main_thread (erase th xs)
mark_exited-IsRing lay th s xs ring i =
    let p = remove_live th s.process in
    rw (mark_exited-process lay th s) (
      desc-IsRing s.process.main_thread th p (record (p.desc th) { p_exited = true }) (erase th xs)
        (remove_live-IsRing s.process.main_thread th s.process xs ring i) refl refl)

spinlock-IsBlind : IsBlind (λ d. d.p_spinlock)
spinlock-IsBlind = record { next = λ d v. refl; prev = λ d v. refl }

pub mark_exited-desc :
    (lay : Layout) (th : Ptr) (s : State)
    → let d = (mark_exited lay th s).process.desc th in
      (d.p_exited ≡ true)
      × (d.p_spinlock ≡ (s.process.desc th).p_spinlock)
      × (d.p_detached ≡ (s.process.desc th).p_detached)
mark_exited-desc lay th s = rw (mark_exited-process lay th s) (
  ground arith,
  ground (arith, remove_live-blind (λ d. d.p_spinlock) spinlock-IsBlind th th s.process),
  ground (arith, remove_live-blind (λ d. d.p_detached) detached-IsBlind th th s.process),
)

-- handle_free of a thread whose process still runs, or has ended.
free_running :
    (lay : Layout) (th : Ptr) (s : State)
    → (s.process.desc th).p_spinlock ≡ 0
    → (s.process.desc th).p_exited ≡ false
    → handle_free lay th s
      ≡ done tt (record s {
        process = set_desc th (record (s.process.desc th) { p_detached = true }) s.process;
      })
unfolding handle_free
free_running lay th s unlocked runs = simp (unlocked, runs) refl

free_ended :
    (lay : Layout) (th : Ptr) (s : State)
    → (s.process.desc th).p_spinlock ≡ 0
    → (s.process.desc th).p_exited ≡ true
    → th ≢ lay.initial_thread
    → (w : State) × (handle_free lay th s ≡ done tt w)
      × (w.segments.used (seg_thread lay.start lay.size th) ≡ false)
unfolding handle_free
free_ended lay th s unlocked ended ne =
    let held : State = record s {
      process = set_desc th (record (s.process.desc th) { p_spinlock = 1 }) s.process;
    } in
    (free_thread lay th held, simp (unlocked, ended) refl, free_thread-used lay th held ne)

-- A thread of the ring that is not detached, not the initial one and the only one of its process
-- number, whose spinlock is free, with enough fuel. Its segment is given back once, after the request
-- to free it and the end of its process, in either order: the first of the two leaves it in use, and
-- the second frees it; the thread leaves the ring at the end of its process.
pub freed_in_either_order :
    (fuel : ℕ) (lay : Layout) (pid : ℕ) (th : Ptr) (s : State) (xs : List Ptr)
    → IsRing s.process s.process.main_thread xs
    → length xs < fuel
    → th ∈ xs
    → (s.process.desc th).p_pid ≡ pid
    → ((b : Ptr) → b ∈ xs → (s.process.desc b).p_pid ≡ pid → b ≡ th)
    → th ≢ lay.initial_thread
    → (s.process.desc th).p_spinlock ≡ 0
    → (s.process.desc th).p_exited ≡ false
    → (s.process.desc th).p_detached ≡ false
    → s.segments.used (seg_thread lay.start lay.size th) ≡ true
    → let seg = seg_thread lay.start lay.size th in
      ((u : State) × (t : State) × (handle_free lay th s ≡ done tt u)
        × (u.segments.used seg ≡ true)
        × (exited fuel lay pid u ≡ some (check_last t))
        × (t.segments.used seg ≡ false)
        × IsRing t.process s.process.main_thread (erase th xs))
      × ((v : State) × (w : State) × (exited fuel lay pid s ≡ some (check_last v))
          × (v.segments.used seg ≡ true)
          × IsRing v.process s.process.main_thread (erase th xs)
          × (handle_free lay th v ≡ done tt w)
          × (w.segments.used seg ≡ false))
freed_in_either_order fuel lay pid th s xs ring lt i e only ne unlocked runs attached taken =
    let d = s.process.desc th in
    let u : State = record s { process = set_desc th (record d { p_detached = true }) s.process } in
    let ring_u : IsRing u.process u.process.main_thread xs =
      desc-IsRing s.process.main_thread th s.process (record d { p_detached = true }) xs ring refl
        refl in
    let only_u : (b : Ptr) → b ∈ xs → (u.process.desc b).p_pid ≡ pid → b ≡ th =
      λ b m h. only b m (ground (arith, h)) in
    let v : State = mark_exited lay th s in
    let (ended, spin, det) = mark_exited-desc lay th s in
    let detached_u : (u.process.desc th).p_detached ≡ true = ground arith in
    let now_free : (if (u.process.desc th).p_detached
          then false
          else s.segments.used (seg_thread lay.start lay.size th))
        ≡ false =
      ground (arith, detached_u) in
    let still_used : (if d.p_detached
          then false
          else s.segments.used (seg_thread lay.start lay.size th))
        ≡ true =
      ground (arith, attached, taken) in
    let (w, freed, gone) = free_ended lay th v (spin ∙ unlocked) ended ne in
    (
      (
        u,
        mark_exited lay th u,
        free_running lay th s unlocked runs,
        taken,
        exited-marks fuel lay pid th u xs ring_u lt i (ground (arith, e)) only_u
            (ground (arith, unlocked)),
        mark_exited-used lay th u ne ∙ now_free,
        mark_exited-IsRing lay th u xs ring_u i,
      ),
      (
        v,
        w,
        exited-marks fuel lay pid th s xs ring lt i e only unlocked,
        mark_exited-used lay th s ne ∙ still_used,
        mark_exited-IsRing lay th s xs ring i,
        freed,
        gone,
      ),
    )
