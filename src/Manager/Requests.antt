-- ===== src/Manager/Requests.antt =====
-- A request of pthread_create, from its receipt to the answer.
use read_linuxthreads.Prelude.{
  ℕ, ◌≡◌, ◌≢◌, refl, Bool, none, some, List, [], ◌∷◌, ◌++◌, arith, ◌∈◌, false, subst, sym,
}
use read_linuxthreads.Memory.{Ptr, null, SigSet, success, eagain, restart_kill, req_create}
use read_linuxthreads.Chain.{mem_ne}
use read_linuxthreads.Stacks.{Segments, thread_seg, found, find_segment}
use read_linuxthreads.Stacks.Laws.{find_segment-IsFound}
use read_linuxthreads.Manager.{State, Layout, Answers, continues, answer, handle_request}
use read_linuxthreads.Manager.Creation.{
  IsManaged, IsLaidOut, IsNew, IsQuiet, handle_create_lem, outside_ring,
}
use read_linuxthreads.Manager.Threads.{desc-IsRing}

-- The descriptor of the thread that asked, and the last signal.
pub record IsAnswered (self : Ptr) (t u : State) : Type 0 where
  pub woken : u.process.kills ≡ t.process.kills ++ restart_kill self t.process ∷ []
  pub others : (a : Ptr) → self ≢ a → u.process.desc a ≡ t.process.desc a

answer_success :
    (lay : Layout) (self th : Ptr) (t : State) (xs : List Ptr)
    → IsManaged lay t xs
    → let u = answer self (success, th, t) in
      IsManaged lay u xs
      × IsAnswered self t u
      × ((u.process.desc self).p_retcode ≡ success)
      × ((u.process.desc self).p_retval ≡ th)
unfolding answer
answer_success lay self th t xs m =
    let d = record (t.process.desc self) { p_retcode = success; p_retval = th } in
    let ring = desc-IsRing t.process.main_thread self t.process d xs m.ring refl refl in
    (
      record {
        ring = record { links = ring.links; distinct = ring.distinct };
        placed = m.placed;
        bounded = m.bounded;
      },
      record { woken = ground arith; others = λ a ne. ground arith },
      ground arith,
      ground arith,
    )

answer_eagain :
    (lay : Layout) (self : Ptr) (t : State) (xs : List Ptr)
    → IsManaged lay t xs
    → let u = answer self (eagain, null, t) in
      IsManaged lay u xs × IsAnswered self t u × ((u.process.desc self).p_retcode ≡ eagain)
unfolding answer
answer_eagain lay self t xs m =
    let d = record (t.process.desc self) { p_retcode = eagain } in
    let ring = desc-IsRing t.process.main_thread self t.process d xs m.ring refl refl in
    (
      record {
        ring = record { links = ring.links; distinct = ring.distinct };
        placed = m.placed;
        bounded = m.bounded;
      },
      record { woken = ground arith; others = λ a ne. ground arith },
      ground arith,
    )

only_restart :
    (s t u : State) (self th : Ptr)
    → self ≢ th
    → IsQuiet th s t
    → IsAnswered self t u
    → u.process.kills ≡ s.process.kills ++ restart_kill self s.process ∷ []
only_restart s t u self th ne quiet an = ground (arith, an.woken, quiet.kills, quiet.pids self)

pub create_request :
    (fuel : ℕ) (lay : Layout) (answers : Answers) (detached : ℕ → Bool) (self attr fn arg : ℕ)
    (mask : SigSet) (s : State) (xs : List Ptr) (k pid : ℕ) (g : Segments)
    → IsManaged lay s xs
    → IsLaidOut lay answers.maps s.process.main_thread
    → find_segment fuel answers.grants answers.maps 0 s.segments ≡ some (found k g)
    → self ∈ s.process.main_thread ∷ xs
    → let th = thread_seg lay.start lay.size k in
      (answers.clone ≡ some pid
        → (u : State) × (t : State) × (handle_request fuel lay answers detached self
              (req_create attr fn arg mask)
              s
            ≡ some (continues u))
          × IsManaged lay u (th ∷ xs)
          × IsNew (u.process.desc th) (detached attr) pid fn arg mask
          × IsAnswered self t u
          × ((u.process.desc self).p_retcode ≡ success)
          × ((u.process.desc self).p_retval ≡ th)
          × (u.process.kills ≡ s.process.kills ++ restart_kill self s.process ∷ []))
      × (answers.clone ≡ none
          → (u : State) × (t : State) × (handle_request fuel lay answers detached self
                (req_create attr fn arg mask)
                s
              ≡ some (continues u))
            × IsManaged lay u xs
            × (u.segments.used k ≡ false)
            × IsAnswered self t u
            × ((u.process.desc self).p_retcode ≡ eagain)
            × (u.process.kills ≡ s.process.kills ++ restart_kill self s.process ∷ []))
unfolding handle_request
create_request fuel lay answers detached self attr fn arg mask s xs k pid g m out e i =
    let both =
      handle_create_lem fuel lay answers (detached attr) fn arg mask s xs k pid g m out e in
    let th = thread_seg lay.start lay.size k in
    let f =
      find_segment-IsFound fuel answers.grants answers.maps 0 k s.segments g (omega arith) m.bounded
        e in
    let new_th = outside_ring lay answers.maps s xs k g m out f in
    let ne : self ≢ th = λ q. mem_ne th self (s.process.main_thread ∷ xs) new_th i (sym q) in
    (
      λ cloned.
          (let (t, h, managed, new, quiet) = both.0 cloned in
            let (mu, an, code, val) = answer_success lay self th t (th ∷ xs) managed in
            (
              answer self (success, th, t),
              t,
              rw h refl,
              mu,
              subst (λ d. IsNew d (detached attr) pid fn arg mask) (sym (an.others th ne)) new,
              an,
              code,
              val,
              only_restart s t (answer self (success, th, t)) self th ne quiet an,
            )),
      λ failed.
          (let (t, h, managed, free, quiet) = both.1 failed in
            let (mu, an, code) = answer_eagain lay self t xs managed in
            (
              answer self (eagain, null, t),
              t,
              rw h refl,
              mu,
              free,
              an,
              code,
              only_restart s t (answer self (eagain, null, t)) self th ne quiet an,
            )),
    )
