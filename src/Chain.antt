-- ===== src/Chain.antt =====
-- Lists linked through p_nextwaiting: what the waiting queues and the semaphores have in common.
use read_linuxthreads.Prelude.{
  ◌≡◌, ◌≢◌, refl, List, [], ◌∷◌, ◌++◌, arith, ◌∈◌, ◌∉◌, last, update, not-mem-append, mem-last,
}
use read_linuxthreads.Memory.{Ptr, Process}

abbrev pub nextwaiting : Process → Ptr → Ptr
nextwaiting s a = (s.desc a).p_nextwaiting

-- From `p` the links lead through the distinct threads `xs` to `stop`.
abbrev pub Chain : (Ptr → Ptr) → Ptr → Ptr → List Ptr → Type 0
Chain nx stop p [] = p ≡ stop
Chain nx stop p (x ∷ xs) = (p ≡ x) × (x ≢ stop) × (x ∉ xs) × Chain nx stop (nx x) xs

-- Outside the addresses of `xs` the links are the same.
abbrev pub SameOutside : List Ptr → Process → Process → Type 0
SameOutside xs s t = (a : Ptr) → a ∉ xs → t.desc a ≡ s.desc a

module _ (nx nx' : Ptr → Ptr) (stop : Ptr) where
  pub Chain-frame :
      (p : Ptr) (xs : List Ptr)
      → Chain nx stop p xs
      → ((a : Ptr) → a ∈ xs → nx' a ≡ nx a)
      → Chain nx' stop p xs
  Chain-frame p [] c same = c
  Chain-frame p (x ∷ xs) c same = (
    c.0,
    c.1,
    c.2,
    rw (same x (ground arith)) (Chain-frame (nx x) xs c.3 (λ a i. same a (ground arith))),
  )

pub mem_ne : (a b : Ptr) (xs : List Ptr) → a ∉ xs → b ∈ xs → a ≢ b
mem_ne a b [] h k = cc
mem_ne a b (x ∷ xs) h k = ground (arith, mem_ne a b xs)

module _ (nx : Ptr → Ptr) (stop : Ptr) where
  -- A write outside the chain.
  pub Chain-update :
      (p : Ptr) (xs : List Ptr) (a v : Ptr)
      → Chain nx stop p xs
      → a ∉ xs
      → Chain (update nx a v) stop p xs
  Chain-update p xs a v c out =
      Chain-frame nx (update nx a v) stop p xs c (λ b i. ground (arith, mem_ne a b xs))

  pub stop-not-mem : (p : Ptr) (xs : List Ptr) → Chain nx stop p xs → stop ∉ xs
  stop-not-mem p [] c = refl
  stop-not-mem p (x ∷ xs) c = ground (arith, stop-not-mem (nx x) xs c.3)

  pub Chain-last : (p x : Ptr) (xs : List Ptr) → Chain nx stop p (x ∷ xs) → nx (last x xs) ≡ stop
  Chain-last p x [] c = c.3
  Chain-last p x (y ∷ ys) c = Chain-last (nx x) y ys c.3

  -- The last thread is linked to `th`, which ends the chain.
  pub Chain-snoc :
      (p x : Ptr) (xs : List Ptr) (th : Ptr)
      → Chain nx stop p (x ∷ xs)
      → th ∉ x ∷ xs
      → th ≢ stop
      → nx th ≡ stop
      → Chain (update nx (last x xs) th) stop p ((x ∷ xs) ++ th ∷ [])
  Chain-snoc p x [] th c out ne end = ground arith
  Chain-snoc p x (y ∷ ys) th c out ne end =
      let keep : update nx (last y ys) th x ≡ nx x =
        ground (arith, mem-last y ys, mem_ne x (last y ys) (y ∷ ys)) in
      (
        c.0,
        c.1,
        not-mem-append x (y ∷ ys) (th ∷ []) c.2 (ground arith),
        rw keep (Chain-snoc (nx x) y ys th c.3 (ground arith) ne end),
      )

pub last-append {ℓ} : {A : Type ℓ} (d : A) (xs : List A) (x : A) → last d (xs ++ x ∷ []) ≡ x
last-append d [] x = refl
last-append d (y ∷ ys) x = last-append y ys x
