-- ===== src/Cancel/Cleanup.antt =====
-- The stack of cleanup handlers of a thread.
use read_linuxthreads.Prelude.{
  ℕ, zero, suc, ◌<◌, ◌≡◌, ◌≢◌, refl, Bool, some, List, [], ◌∷◌, arith, ◌∉◌, length, if◌then◌else◌,
  subst, sym,
}
use read_linuxthreads.Memory.{Ptr, null, canceled_value, cancel_deferred}
use read_linuxthreads.Chain.{Chain, Chain-frame, mem_ne}
use read_linuxthreads.Run.{done, exits}
use read_linuxthreads.Cancel.{
  State, Buffer, thread, cancel_now, cleanup_push, cleanup_pop, cleanup_push_defer,
  cleanup_pop_restore, restored, cleanup_loop, perform_cleanup,
}

abbrev pub prev : State → Ptr → Ptr
prev s b = (s.buffers b).prev

-- The buffers of the handlers of `self`, the last one pushed first.
abbrev pub IsStack : Ptr → State → List Ptr → Type 0
IsStack self s bs = Chain (prev s) null (thread self s).p_cleanup bs

pub push-IsStack :
    (self b routine arg : Ptr) (s : State) (bs : List Ptr)
    → IsStack self s bs
    → b ≢ null
    → b ∉ bs
    → IsStack self (cleanup_push self b routine arg s) (b ∷ bs)
unfolding cleanup_push
push-IsStack self b routine arg s bs st ne out = (
  ground arith,
  ne,
  out,
  (let hop : prev (cleanup_push self b routine arg s) b ≡ (thread self s).p_cleanup =
        ground arith in
      rw hop (
        Chain-frame (prev s) _ null (thread self s).p_cleanup bs st
          (λ a i. ground (arith, mem_ne b a bs)))),
)

-- Handlers that push, pop and change no buffer.
pub record IsQuiet (call : ℕ → ℕ → State → State) : Type 0 where
  pub buffers : (f a : ℕ) (s : State) → (call f a s).buffers ≡ s.buffers

-- With handlers that change no buffer, and whatever happens between a push and its pop that leaves
-- the buffer alone: cleanup_pop restores the head of the list of handlers; after push_defer the type
-- is deferred, and pop_restore restores the head and the type and then exits if the thread is to be
-- cancelled at once.
pub pop-push :
    (call : ℕ → ℕ → State → State) (self b routine arg : Ptr) (execute : Bool) (s t : State)
    → IsQuiet call
    → (t.buffers b ≡ (cleanup_push self b routine arg s).buffers b
        → (thread self (cleanup_pop call self b execute t)).p_cleanup ≡ (thread self s).p_cleanup)
      × (t.buffers b ≡ (cleanup_push_defer self b routine arg s).buffers b
          → let u = restored call self b execute t in
            (cleanup_pop_restore call self b execute t
              ≡ (if cancel_now (thread self u) then exits canceled_value u else done tt u))
            × ((thread self u).p_cleanup ≡ (thread self s).p_cleanup)
            × ((thread self u).p_canceltype ≡ (thread self s).p_canceltype))
      × ((thread self (cleanup_push_defer self b routine arg s)).p_canceltype ≡ cancel_deferred)
unfolding cleanup_push cleanup_pop cleanup_push_defer cleanup_pop_restore restored
pop-push call self b routine arg execute s t quiet = (
  λ same. ground (arith, kept),
  λ same. (refl, ground (arith, kept), ground (arith, kept)),
  ground arith,
)
  where
    kept :
        (if execute then call (t.buffers b).routine (t.buffers b).arg t else t).buffers ≡ t.buffers
    kept = ground (arith, quiet.buffers (t.buffers b).routine (t.buffers b).arg t)

-- The handlers of the buffers, called one after the other.
abbrev pub run_handlers : (ℕ → ℕ → State → State) → (Ptr → Buffer) → List Ptr → State → State
run_handlers call buffers [] s = s
run_handlers call buffers (b ∷ bs) s =
    run_handlers call buffers bs (call (buffers b).routine (buffers b).arg s)

cleanup_loop-run :
    (call : ℕ → ℕ → State → State)
    → IsQuiet call
    → (fuel : ℕ) (c : Ptr) (bs : List Ptr) (s : State) → Chain (prev s) null c bs
    → length bs < fuel
    → cleanup_loop call fuel c s ≡ some (run_handlers call s.buffers bs s)
unfolding cleanup_loop
cleanup_loop-run call quiet zero c bs s ch lt = absurd (omega arith)
cleanup_loop-run call quiet (suc k) c [] s ch lt = ground arith
cleanup_loop-run call quiet (suc k) c (b ∷ bs) s ch lt =
    let t : State = call (s.buffers b).routine (s.buffers b).arg s in
    let same : t.buffers ≡ s.buffers = quiet.buffers (s.buffers b).routine (s.buffers b).arg s in
    let tail_run : cleanup_loop call k (prev t b) t ≡ some (run_handlers call s.buffers bs t) =
      subst (λ bf. cleanup_loop call k (prev t b) t ≡ some (run_handlers call bf bs t)) same
        (cleanup_loop-run call quiet k (prev t b) bs t
          (subst (λ bf. Chain (λ a. (bf a).prev) null ((bf b).prev) bs) (sym same) ch.3)
          (omega arith)) in
    ground (arith, tail_run)

-- With handlers that change no buffer, and enough fuel, perform_cleanup runs the handlers of the
-- thread, each once, the last one pushed first.
pub perform_cleanup-run :
    (call : ℕ → ℕ → State → State) (fuel : ℕ) (self : Ptr) (bs : List Ptr) (s : State)
    → IsQuiet call
    → IsStack self s bs
    → length bs < fuel
    → perform_cleanup call fuel self s ≡ some (run_handlers call s.buffers bs s)
unfolding perform_cleanup
perform_cleanup-run call fuel self bs s quiet st lt =
    cleanup_loop-run call quiet fuel (thread self s).p_cleanup bs s st lt
