-- ===== src/Queue/Laws.antt =====
-- queue.h: the operations refine those of a list of threads.
use read_linuxthreads.Prelude.{
  ◌≡◌, ◌≢◌, refl, sym, subst, false, List, [], ◌∷◌, ◌++◌, arith, ◌==◌, ◌∉◌, last, update, mem-last,
}
use read_linuxthreads.Memory.{Ptr, null, Process, set_nextwaiting}
use read_linuxthreads.Chain.{
  nextwaiting, Chain, SameOutside, Chain-frame, Chain-update, stop-not-mem, Chain-snoc, last-append,
  mem_ne,
}
use read_linuxthreads.Queue.{Queue, queue_init, enqueue, advance, dequeue}

-- The queue `q` holds the threads `xs`, the next one to be woken first.
pub record IsQueue (s : Process) (q : Queue) (xs : List Ptr) : Type 0 where
  pub chain : Chain (nextwaiting s) null q.head xs
  pub tail : q.tail ≡ last null xs

pub IsQueue-init : (s : Process) → IsQueue s queue_init []
IsQueue-init s = record { chain = refl; tail = refl }

-- What `enqueue` expects of the thread: ASSERT(th->p_nextwaiting == NULL), and it waits nowhere.
pub record IsFresh (s : Process) (th : Ptr) (xs : List Ptr) : Type 0 where
  pub ne_null : th ≢ null
  pub new : th ∉ xs
  pub unlinked : nextwaiting s th ≡ null

nexts-set :
    (s : Process) (a v b : Ptr)
    → nextwaiting (set_nextwaiting a v s) b ≡ update (nextwaiting s) a v b
nexts-set s a v b = ground arith

-- A change of the links that is an `update` is one of the chain.
Chain-set :
    (s : Process) (stop a v p : Ptr) (xs : List Ptr)
    → Chain (update (nextwaiting s) a v) stop p xs
    → Chain (nextwaiting (set_nextwaiting a v s)) stop p xs
Chain-set s stop a v p xs c = Chain-frame _ _ stop p xs c (λ b i. nexts-set s a v b)

-- enqueue of a thread that is not linked and not in the queue puts it behind the threads `xs`, and
-- leaves the descriptors of all other threads alone but those in the queue.
pub enqueue-IsQueue :
    (q : Queue) (th : Ptr) (s : Process) (xs : List Ptr)
    → IsQueue s q xs
    → IsFresh s th xs
    → let (q', s') = enqueue q th s in IsQueue s' q' (xs ++ th ∷ []) × SameOutside xs s s'
unfolding enqueue
enqueue-IsQueue q th s [] is fresh = ground arith
enqueue-IsQueue q th s (x ∷ ys) is fresh = rw tail_set (
  record {
    chain = Chain-set s null q.tail th q.head (x ∷ ys ++ th ∷ []) (
        subst (λ z. Chain (update (nextwaiting s) z th) null q.head ((x ∷ ys) ++ th ∷ []))
          (sym is.tail)
          (Chain-snoc (nextwaiting s) null q.head x ys th is.chain fresh.new fresh.ne_null
            fresh.unlinked));
    tail = sym (last-append x ys th);
  },
  λ a out. ground (arith, mem-last x ys, mem_ne a (last x ys) (x ∷ ys)),
)
  where
    tail_set : (q.tail == null) ≡ false
    tail_set = ground (arith, mem-last x ys, stop-not-mem (nextwaiting s) null q.head (x ∷ ys))

-- dequeue on the empty queue returns NULL and changes nothing.
pub dequeue_nil : (q : Queue) (s : Process) → IsQueue s q [] → dequeue q s ≡ (null, q, s)
unfolding dequeue
dequeue_nil q s is = ground arith

-- A link of a thread that is in no chain is reset.
Chain-reset :
    (s : Process) (x p : Ptr) (xs : List Ptr)
    → Chain (nextwaiting s) null p xs
    → x ∉ xs
    → Chain (nextwaiting (set_nextwaiting x null s)) null p xs
Chain-reset s x p xs c out =
    Chain-set s null x null p xs (Chain-update (nextwaiting s) null p xs x null c out)

-- The queue without its head.
pub advance-IsQueue :
    (q : Queue) (s : Process) (x : Ptr) (xs : List Ptr)
    → IsQueue s q (x ∷ xs)
    → IsQueue (set_nextwaiting x null s) (advance q (nextwaiting s x)) xs
unfolding advance
advance-IsQueue q s x [] is = ground arith
advance-IsQueue q s x (y ∷ ys) is = record {
  chain = Chain-reset s x (nextwaiting s x) (y ∷ ys) is.chain.3 is.chain.2;
  tail = ground arith;
}

-- dequeue on the queue `x ∷ xs` returns `x`, unlinked, leaves the queue `xs`, and changes no other
-- descriptor.
pub dequeue_cons :
    (q : Queue) (s : Process) (x : Ptr) (xs : List Ptr)
    → IsQueue s q (x ∷ xs)
    → let (th, q', s') = dequeue q s in
      (th ≡ x) × IsQueue s' q' xs × (nextwaiting s' x ≡ null) × SameOutside (x ∷ []) s s'
unfolding dequeue
dequeue_cons q s x xs is =
    rw (is.chain.0, nonnull)
      (refl, advance-IsQueue q s x xs is, ground arith, λ a out. ground arith)
  where
    nonnull : (x == null) ≡ false
    nonnull = ground arith
