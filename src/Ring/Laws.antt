-- ===== src/Ring/Laws.antt =====
-- manager.c: the ring of active threads as a list, and insertion.
use read_linuxthreads.Prelude.{◌≡◌, ◌≢◌, ◌∙◌, List, [], ◌∷◌, arith, ◌∈◌, ◌∉◌, update}
use read_linuxthreads.Memory.{Ptr, Process}
use read_linuxthreads.Chain.{mem_ne}
use read_linuxthreads.Ring.{set_nextlive, set_prevlive, insert_live, remove_live}

abbrev pub nexts : Process → Ptr → Ptr
nexts p a = (p.desc a).p_nextlive

abbrev pub prevs : Process → Ptr → Ptr
prevs p a = (p.desc a).p_prevlive

abbrev pub Distinct : List Ptr → Type 0
Distinct [] = Unit
Distinct (x ∷ xs) = (x ∉ xs) × Distinct xs

-- From `a` the links lead through `xs` to `stop`, and back.
abbrev pub Links : (nx pv : Ptr → Ptr) (stop a : Ptr) → List Ptr → Type 0
Links nx pv stop a [] = (nx a ≡ stop) × (pv stop ≡ a)
Links nx pv stop a (x ∷ xs) = (nx a ≡ x) × (pv x ≡ a) × Links nx pv stop x xs

-- The ring, read from `a`, is `a ∷ xs`.
pub record IsRing (p : Process) (a : Ptr) (xs : List Ptr) : Type 0 where
  pub links : Links (nexts p) (prevs p) a a xs
  pub distinct : Distinct (a ∷ xs)

pub Links-frame :
    (nx pv nx' pv' : Ptr → Ptr) (stop a : Ptr) (xs : List Ptr)
    → Links nx pv stop a xs
    → ((b : Ptr) → b ∈ a ∷ xs → nx' b ≡ nx b)
    → ((b : Ptr) → b ∈ stop ∷ xs → pv' b ≡ pv b)
    → Links nx' pv' stop a xs
Links-frame nx pv nx' pv' stop a [] l n v = (n a (ground arith) ∙ l.0, v stop (ground arith) ∙ l.1)
Links-frame nx pv nx' pv' stop a (x ∷ xs) l n v = (
  n a (ground arith) ∙ l.0,
  v x (ground arith) ∙ l.1,
  Links-frame nx pv nx' pv' stop x xs l.2 (λ b i. n b (ground arith)) (λ b i. v b (ground arith)),
)

next_set :
    (a v : Ptr) (p : Process) (b : Ptr) → nexts (set_nextlive a v p) b ≡ update (nexts p) a v b
unfolding set_nextlive
next_set a v p b = ground arith

prev_set :
    (a v : Ptr) (p : Process) (b : Ptr) → prevs (set_prevlive a v p) b ≡ update (prevs p) a v b
unfolding set_prevlive
prev_set a v p b = ground arith

next_kept : (a v : Ptr) (p : Process) (b : Ptr) → nexts (set_prevlive a v p) b ≡ nexts p b
unfolding set_prevlive
next_kept a v p b = ground arith

prev_kept : (a v : Ptr) (p : Process) (b : Ptr) → prevs (set_nextlive a v p) b ≡ prevs p b
unfolding set_nextlive
prev_kept a v p b = ground arith

-- The links after an insertion, by address.
insert-next :
    (main th : Ptr) (p : Process) (b : Ptr)
    → nexts (insert_live main th p) b ≡ update (update (nexts p) th (nexts p main)) main th b
unfolding insert_live
insert-next main th p b =
    let p1 = set_prevlive th main p in
    let p2 = set_nextlive th (nexts p1 main) p1 in
    let p3 = set_prevlive (nexts p2 main) th p2 in
    ground (
      arith,
      next_set main th p3 b,
      next_kept (nexts p2 main) th p2 b,
      next_set th (nexts p1 main) p1 b,
      next_kept th main p b,
      next_kept th main p main,
    )

insert-prev :
    (main th : Ptr) (p : Process) (b : Ptr)
    → main ≢ th
    → prevs (insert_live main th p) b ≡ update (update (prevs p) th main) (nexts p main) th b
unfolding insert_live
insert-prev main th p b ne =
    let p1 = set_prevlive th main p in
    let p2 = set_nextlive th (nexts p1 main) p1 in
    let p3 = set_prevlive (nexts p2 main) th p2 in
    ground (
      arith,
      prev_kept main th p3 b,
      prev_set (nexts p2 main) th p2 b,
      prev_kept th (nexts p1 main) p1 b,
      prev_set th main p b,
      next_set th (nexts p1 main) p1 main,
      next_kept th main p main,
    )

-- The first insertion makes a ring of two, whatever the back link of the main thread was.
pub insert_live-alone :
    (main th : Ptr) (p : Process)
    → nexts p main ≡ main
    → th ≢ main
    → IsRing (insert_live main th p) main (th ∷ [])
insert_live-alone main th p alone ne = record {
  links = ground (
    arith,
    insert-next main th p main,
    insert-next main th p th,
    insert-prev main th p main (ground arith),
    insert-prev main th p th (ground arith),
    alone,
  );
  distinct = ground arith;
}

-- The links after a removal, by address.
pub remove-prev :
    (th : Ptr) (p : Process) (b : Ptr)
    → prevs (remove_live th p) b ≡ update (prevs p) (nexts p th) (prevs p th) b
unfolding remove_live
remove-prev th p b =
    let p1 = set_prevlive (nexts p th) (prevs p th) p in
    ground
      (arith, prev_kept (prevs p1 th) (nexts p1 th) p1 b, prev_set (nexts p th) (prevs p th) p b)

pub remove-next :
    (th : Ptr) (p : Process) (b : Ptr)
    → nexts p th ≢ th
    → nexts (remove_live th p) b ≡ update (nexts p) (prevs p th) (nexts p th) b
unfolding remove_live
remove-next th p b ne =
    let p1 = set_prevlive (nexts p th) (prevs p th) p in
    ground (
      arith,
      next_set (prevs p1 th) (nexts p1 th) p1 b,
      prev_set (nexts p th) (prevs p th) p th,
      next_kept (nexts p th) (prevs p th) p th,
      next_kept (nexts p th) (prevs p th) p b,
    )

-- A new thread right behind the main thread.
pub insert_live-IsRing :
    (main th : Ptr) (p : Process) (xs : List Ptr)
    → IsRing p main xs
    → th ∉ main ∷ xs
    → IsRing (insert_live main th p) main (th ∷ xs)
insert_live-IsRing main th p [] ring new = record {
  links = ground (
    arith,
    insert-next main th p main,
    insert-next main th p th,
    insert-prev main th p main (ground arith),
    insert-prev main th p th (ground arith),
    ring.links,
  );
  distinct = ground arith;
}
insert_live-IsRing main th p (x ∷ xs) ring new = record {
  links = (
    ground (arith, insert-next main th p main),
    ground (arith, insert-prev main th p th (ground arith), ring.links, ring.distinct),
    (
      ground (arith, insert-next main th p th, ring.links),
      ground (arith, insert-prev main th p x (ground arith), ring.links),
      Links-frame (nexts p) (prevs p) (nexts (insert_live main th p))
          (prevs (insert_live main th p)) main x xs ring.links.2
          (λ b i. ground (
            arith,
            insert-next main th p b,
            mem_ne main b (x ∷ xs),
            mem_ne th b (x ∷ xs),
            ring.distinct,
          ))
          (λ b i. ground (
            arith,
            insert-prev main th p b (ground arith),
            ring.links,
            ring.distinct,
            mem_ne x b (main ∷ xs),
            mem_ne th b (main ∷ xs),
          )),
    ),
  );
  distinct = ground (arith, ring.distinct);
}
