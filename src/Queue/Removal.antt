-- ===== src/Queue/Removal.antt =====
-- condvar.c, remove_from_queue: the thread is taken out of the list.
use read_linuxthreads.Prelude.{
  ℕ, zero, suc, ◌<◌, ◌≡◌, refl, sym, subst, ◌∙◌, inl, inr, false, some, List, [], ◌∷◌, arith, ◌==◌,
  if◌then◌else◌, Bool-cases, ◌∈◌, last, length, erase, not-mem-erase,
}
use read_linuxthreads.Memory.{Ptr, null, Process, set_nextwaiting}
use read_linuxthreads.Chain.{nextwaiting, Chain, SameOutside, Chain-frame, mem_ne}
use read_linuxthreads.Queue.{Queue, advance, splice, remove_loop, remove_from_queue}
use read_linuxthreads.Queue.Laws.{IsQueue, advance-IsQueue}

-- The outcome of taking `th` out of the threads `xs` behind `t`.
record Removed (q : Queue) (th t : Ptr) (s : Process) (xs : List Ptr) (q' : Queue) (s' : Process)
    : Type 0 where
  head : q'.head ≡ q.head
  chain : Chain (nextwaiting s') null t (t ∷ erase th xs)
  tail : q'.tail ≡ last t (erase th xs)
  same : SameOutside (t ∷ xs) s s'
  unlinked : th ∈ xs → nextwaiting s' th ≡ null

last_cons :
    (t x : Ptr) (ys : List Ptr) (nx : Ptr → Ptr)
    → Chain nx null (nx x) ys
    → last x ys ≡ (if nx x == null then x else last t ys)
last_cons t x [] nx c = ground arith
last_cons t x (y ∷ ys) nx c = ground arith

erase_self : (a : Ptr) (xs : List Ptr) → erase a (a ∷ xs) ≡ xs
erase_self a xs = ground arith

-- Both links that `splice` writes lie outside the rest of the chain.
splice-Chain :
    (q : Queue) (th t : Ptr) (s : Process) (ys : List Ptr)
    → Chain (nextwaiting s) null t (t ∷ th ∷ ys)
    → Chain (nextwaiting (splice q th t s).1) null t (t ∷ ys)
unfolding splice
splice-Chain q th t s ys c = (
  refl,
  c.1,
  ground arith,
  (let hop : nextwaiting (splice q th t s).1 t ≡ nextwaiting s th = ground arith in
      rw hop (
        Chain-frame (nextwaiting s) _ null (nextwaiting s th) ys c.3.3
          (λ a i. ground (arith, mem_ne t a ys, mem_ne th a ys)))),
)

splice-tail :
    (q : Queue) (th t : Ptr) (s : Process) (ys : List Ptr)
    → Chain (nextwaiting s) null t (t ∷ th ∷ ys)
    → q.tail ≡ last th ys
    → (splice q th t s).0.tail ≡ last t ys
unfolding splice
splice-tail q th t s [] c tl = ground arith
splice-tail q th t s (y ∷ ys) c tl = ground arith

splice-Removed :
    (q : Queue) (th t : Ptr) (s : Process) (ys : List Ptr)
    → Chain (nextwaiting s) null t (t ∷ th ∷ ys)
    → q.tail ≡ last th ys
    → Removed q th t s (th ∷ ys) (splice q th t s).0 (splice q th t s).1
unfolding splice
splice-Removed q th t s ys c tl = record {
  head = refl;
  chain = rw (erase_self th ys) (splice-Chain q th t s ys c);
  tail = rw (erase_self th ys) (splice-tail q th t s ys c tl);
  same = λ a out. ground arith;
  unlinked = λ i. ground arith;
}

-- `th` is not `x`: what the loop does from `x` on, with `t` in front.
Removed-cons :
    (q : Queue) (th t x : Ptr) (s : Process) (ys : List Ptr) (q' : Queue) (s' : Process)
    → Chain (nextwaiting s) null t (t ∷ x ∷ ys)
    → (x == th) ≡ false
    → Removed q th x s ys q' s'
    → Removed q th t s (x ∷ ys) q' s'
Removed-cons q th t x s ys q' s' c miss r = record {
  head = r.head;
  chain = rw miss (refl, c.1, ground (arith, not-mem-erase t th ys), rw hop r.chain);
  tail = rw miss r.tail;
  same = λ a out. r.same a (ground arith);
  unlinked = λ i. r.unlinked (ground arith);
}
  where
    hop : nextwaiting s' t ≡ x
    hop = ground (arith, r.same t)

remove_loop-Removed :
    (fuel : ℕ) (q : Queue) (th t : Ptr) (s : Process) (xs : List Ptr)
    → Chain (nextwaiting s) null t (t ∷ xs)
    → q.tail ≡ last t xs
    → length xs < fuel
    → (q' : Queue) × (s' : Process) × (remove_loop fuel q th t s ≡ some (q', s'))
      × Removed q th t s xs q' s'
unfolding remove_loop
remove_loop-Removed zero q th t s xs c tl lt = absurd (omega arith)
remove_loop-Removed (suc k) q th t s [] c tl lt = (
  q,
  s,
  ground arith,
  record { head = refl; chain = c; tail = tl; same = λ a out. refl; unlinked = λ i. cc },
)
remove_loop-Removed (suc k) q th t s (x ∷ ys) c tl lt = elim (Bool-cases (x == th)) [
  | inl hit ↦
      (let e : x ≡ th = ground arith in
        (
          (splice q th t s).0,
          (splice q th t s).1,
          ground arith,
          subst (λ z. Removed q th t s (z ∷ ys) (splice q th t s).0 (splice q th t s).1) (sym e)
              (splice-Removed q th t s ys
                (subst (λ z. Chain (nextwaiting s) null t (t ∷ z ∷ ys)) e c)
                (subst (λ z. q.tail ≡ last z ys) e tl)),
        ))
  | inr miss ↦
      (let (q', s', e, r) =
          remove_loop-Removed k q th x s ys
            (
              refl,
              c.3.1,
              c.3.2,
              subst (λ z. Chain (nextwaiting s) null (nextwaiting s z) ys) refl c.3.3,
            )
            tl (omega arith) in
        (q', s', ground (arith, e), Removed-cons q th t x s ys q' s' c miss r))
]

Removed-IsQueue :
    (q : Queue) (th x : Ptr) (s : Process) (ys : List Ptr) (q' : Queue) (s' : Process)
    → q.head ≡ x
    → (x == th) ≡ false
    → Removed q th x s ys q' s'
    → IsQueue s' q' (erase th (x ∷ ys))
Removed-IsQueue q th x s ys q' s' h miss r = rw miss (record {
  chain = subst (λ z. Chain (nextwaiting s') null z (x ∷ erase th ys)) (sym (r.head ∙ h)) r.chain;
  tail = r.tail;
})

-- remove_from_queue, with fuel for the threads `xs` of the queue, ends, and leaves the threads
-- without `th`, in their order; `th` is unlinked if it was there, and descriptors outside the queue
-- are as before.
pub remove_from_queue-erase :
    (fuel : ℕ) (q : Queue) (th : Ptr) (s : Process) (xs : List Ptr)
    → IsQueue s q xs
    → length xs < fuel
    → (q' : Queue) × (s' : Process) × (remove_from_queue fuel q th s ≡ some (q', s'))
      × IsQueue s' q' (erase th xs)
      × SameOutside xs s s'
      × (th ∈ xs → nextwaiting s' th ≡ null)
unfolding remove_from_queue
remove_from_queue-erase fuel q th s [] is lt = (q, s, ground arith, is, λ a out. refl, λ i. cc)
remove_from_queue-erase fuel q th s (x ∷ ys) is lt = elim (Bool-cases (x == th)) [
  | inl hit ↦
      (let e : th ≡ x = ground arith in
        (
          advance q (nextwaiting s th),
          set_nextwaiting th null s,
          ground arith,
          rw hit (
              subst (λ z. IsQueue (set_nextwaiting z null s) (advance q (nextwaiting s z)) ys)
                (sym e) (advance-IsQueue q s x ys is)),
          λ a out. ground arith,
          λ i. ground arith,
        ))
  | inr miss ↦
      (let (q', s', e, r) =
          remove_loop-Removed fuel q th x s ys (refl, is.chain.1, is.chain.2, is.chain.3) is.tail
            (omega arith) in
        (
          q',
          s',
          rw is.chain.0 (ground (arith, e)),
          Removed-IsQueue q th x s ys q' s' is.chain.0 miss r,
          λ a out. r.same a out,
          λ i. r.unlinked (ground arith),
        ))
]
