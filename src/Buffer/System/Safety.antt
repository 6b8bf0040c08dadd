-- ===== src/Buffer/System/Safety.antt =====
-- What holds in every reachable state of the producer and the consumer.
use read_linuxthreads.Prelude.{
  ℕ, ◌≡◌, ◌⊎◌, inl, inr, refl, Bool, true, false, arith, length, Bool-cases, suc, zero, ap,
}
use read_linuxthreads.Prelude.Int.{ℤ, pos}
use read_linuxthreads.Memory.{Ptr}
use read_linuxthreads.Buffer.{Prodcons, read_state, write_state, advance}
use read_linuxthreads.Buffer.Contents.{elements}
use read_linuxthreads.Buffer.System.{
  System, Phase, ready, sleeping, holding, moved, Step, Reach, put_wait, put_sleep, put_wake,
  put_store, put_post, get_wait, get_sleep, get_wake, get_fetch, get_post,
}
use read_linuxthreads.Buffer.System.Waits
use read_linuxthreads.Buffer.System.Invariant.{Pair, Inv}
use read_linuxthreads.Buffer.System.Kept.{Reach-Inv, start, start-Inv}

length-elements : (f : ℕ → ℤ) (n p : ℕ) → length (elements f n p) ≡ n
length-elements f zero p = refl
length-elements f (suc n) p = ap suc (length-elements f n (advance p))

asleep_cases :
    (ph : Phase) (woken : Bool)
    → (ph ≡ sleeping → woken ≡ true) ⊎ ((ph ≡ sleeping) × (woken ≡ false))
asleep_cases ready w = inl (λ e. cc)
asleep_cases sleeping true = inl (λ e. refl)
asleep_cases sleeping false = inr (refl, refl)
asleep_cases holding w = inl (λ e. cc)
asleep_cases moved w = inl (λ e. cc)

module _ (self p c : Ptr) (b : Prodcons) (pair : Pair p c b.process) {s : System}
    (reach : Reach p c (start self b) s) where
  inv : Inv p c s
  inv = Reach-Inv (start-Inv self p c b pair) reach

  not_both_asleep :
      s.producer ≡ sleeping
      → s.consumer ≡ sleeping
      → (s.producer_woken ≡ true) ⊎ (s.consumer_woken ≡ true)
  not_both_asleep e f = elim (Bool-cases inv.reads.waits) [
    | inr no_reader ↦ inr (inv.reads.awake no_reader f)
    | inl reader ↦ elim (Bool-cases inv.writes.waits) [
      | inr no_writer ↦ inl (inv.writes.awake no_writer e)
      | inl writer ↦ absurd (
          ground
            (arith, inv.reads.asleep reader, inv.writes.asleep writer, inv.elements, inv.places))
    ]
  ]

  producer_moves :
      (ph : Phase)
      → s.producer ≡ ph
      → (ph ≡ sleeping → s.producer_woken ≡ true)
      → (t : System) × Step p c s t
  producer_moves ready e h =
      elim (Waits.wait_goes p (write_state s.b) inv.w s.producer s.producer_woken inv.pair.producer
        inv.writes e) [ inl r ↦ (_, put_wait r.0 e r.1) | inr r ↦ (_, put_sleep r.0 e r.1) ]
  producer_moves sleeping e h = (_, put_wake e (h refl))
  producer_moves holding e h = (_, put_store (pos 0) e)
  producer_moves moved e h =
      let (t, r, raised) =
        Waits.post_goes c (read_state s.b) inv.r s.consumer s.consumer_woken inv.pair.consumer
          inv.reads p in
      (_, put_post t e r)

  consumer_moves :
      (ph : Phase)
      → s.consumer ≡ ph
      → (ph ≡ sleeping → s.consumer_woken ≡ true)
      → (t : System) × Step p c s t
  consumer_moves ready e h =
      elim (Waits.wait_goes c (read_state s.b) inv.r s.consumer s.consumer_woken inv.pair.consumer
        inv.reads e) [ inl r ↦ (_, get_wait r.0 e r.1) | inr r ↦ (_, get_sleep r.0 e r.1) ]
  consumer_moves sleeping e h = (_, get_wake e (h refl))
  consumer_moves holding e h = (_, get_fetch e)
  consumer_moves moved e h =
      let (t, r, raised) =
        Waits.post_goes p (write_state s.b) inv.w s.producer s.producer_woken inv.pair.producer
          inv.writes c in
      (_, get_post t e r)

  -- In every state that one producer and one consumer, with addresses and processes of their own, reach
  -- by calls of `put` and `get` in any interleaving from a buffer behind `init`, the producer or the
  -- consumer can make a step: they never both sleep with no restart pending, and a post on the way
  -- succeeds.
  pub buffer_moves : (t : System) × Step p c s t
  buffer_moves = elim (asleep_cases s.producer s.producer_woken) [
    | inl go ↦ producer_moves s.producer refl go
    | inr stuck ↦
        consumer_moves s.consumer refl
          (λ f. elim (not_both_asleep stuck.0 f) [ inl w ↦ absurd (cc (stuck.1, w)) | inr w ↦ w ])
  ]
