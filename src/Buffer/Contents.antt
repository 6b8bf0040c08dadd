-- ===== src/Buffer/Contents.antt =====
-- The elements of the circular buffer, in the order in which they are to be read.
use read_linuxthreads.Prelude.{
  ℕ, ◌-◌, zero, suc, ◌+◌, ◌<◌, ◌≡◌, List, [], ◌∷◌, ◌++◌, arith, update, subst, sym, ap, ◌∙◌, leb,
  if◌then◌else◌,
}
use read_linuxthreads.Prelude.Int.{ℤ}
use read_linuxthreads.Buffer.{Prodcons, buffer_size, advance, store, fetch}

-- The position `n` places behind `p`.
abbrev pub place : ℕ → ℕ → ℕ
place n p = if leb buffer_size (p + n) then p + n - buffer_size else p + n

-- The `n` elements from the position `p`.
abbrev pub elements : (ℕ → ℤ) → ℕ → ℕ → List ℤ
elements buffer zero p = []
elements buffer (suc n) p = buffer p ∷ elements buffer n (advance p)

-- There are `n` elements, and room for one more between the two positions.
pub record Holds (buffer : ℕ → ℤ) (readpos writepos n : ℕ) (xs : List ℤ) : Type 0 where
  pub read_in : readpos < buffer_size
  pub few : n < buffer_size
  pub write_at : writepos ≡ place n readpos
  pub content : elements buffer n readpos ≡ xs

abbrev pub HoldsIn : Prodcons → ℕ → List ℤ → Type 0
HoldsIn b n xs = Holds b.buffer b.readpos b.writepos n xs

elements-store :
    (buffer : ℕ → ℤ) (d : ℤ) (n p : ℕ)
    → p < buffer_size
    → n < buffer_size
    → elements (update buffer (place n p) d) (suc n) p ≡ elements buffer n p ++ d ∷ []
elements-store buffer d zero p lt few = ground arith
elements-store buffer d (suc n) p lt few =
    let same : place n (advance p) ≡ place (suc n) p = ground arith in
    let tail =
      subst
        (λ q.
          elements (update buffer q d) (suc n) (advance p)
          ≡ elements buffer n (advance p) ++ d ∷ [])
        same (elements-store buffer d n (advance p) (ground arith) (omega arith)) in
    let kept : update buffer (place (suc n) p) d p ≡ buffer p = ground arith in
    let behind = elements (update buffer (place (suc n) p) d) (suc n) (advance p) in
    ap (λ x. x ∷ behind) kept ∙ ap (λ xs. buffer p ∷ xs) tail

pub store-Holds :
    (d : ℤ) (b : Prodcons) (n : ℕ) (xs : List ℤ)
    → HoldsIn b n xs
    → n + 1 < buffer_size
    → HoldsIn (store d b) (n + 1) (xs ++ d ∷ [])
unfolding store
store-Holds d b n xs h room = record {
  read_in = h.read_in;
  few = room;
  write_at = ground (arith, h.read_in, h.write_at);
  content =
      let one_more : suc n ≡ n + 1 = omega arith in
      subst (λ k. elements (store d b).buffer k b.readpos ≡ xs ++ d ∷ []) one_more
        (subst (λ q. elements (update b.buffer q d) (suc n) b.readpos ≡ xs ++ d ∷ [])
          (sym h.write_at)
          (elements-store b.buffer d n b.readpos h.read_in h.few
            ∙ ap (λ ys. ys ++ d ∷ []) h.content));
}

pub fetch-Holds :
    (b : Prodcons) (n : ℕ) (x : ℤ) (xs : List ℤ)
    → HoldsIn b (suc n) (x ∷ xs)
    → ((fetch b).0 ≡ x) × HoldsIn (fetch b).1 n xs
unfolding fetch
fetch-Holds b n x xs h = (
  ground (arith, h.content),
  record {
    read_in = ground (arith, h.read_in);
    few = ground (arith, h.few);
    write_at = ground (arith, h.read_in, h.write_at);
    content = ground (arith, h.content);
  },
)
