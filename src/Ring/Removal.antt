-- ===== src/Ring/Removal.antt =====
-- manager.c: a thread is taken out of the ring.
use read_linuxthreads.Prelude.{
  ◌≢◌, subst, ==→eq, inl, inr, List, [], ◌∷◌, arith, ◌==◌, Bool-cases, ◌∈◌, ◌∉◌, erase, update,
  not-mem-erase,
}
use read_linuxthreads.Memory.{Ptr, Process}
use read_linuxthreads.Chain.{mem_ne}
use read_linuxthreads.Ring.{remove_live}
use read_linuxthreads.Ring.Laws.{
  nexts, prevs, Distinct, Links, IsRing, Links-frame, remove-prev, remove-next,
}

-- The links of a thread in the middle lead to its neighbours.
Links-pred :
    (nx pv : Ptr → Ptr) (stop a th : Ptr) (xs : List Ptr)
    → Links nx pv stop a xs
    → th ∈ xs
    → pv th ∈ a ∷ xs
Links-pred nx pv stop a th [] l i = cc
Links-pred nx pv stop a th (x ∷ xs) l i = elim (Bool-cases (x == th)) [
  | inl hit ↦ ground (arith, l.1)
  | inr miss ↦ ground (arith, Links-pred nx pv stop x th xs l.2 (ground arith))
]

Links-head :
    (nx pv : Ptr → Ptr) (stop x : Ptr) (ys : List Ptr) → Links nx pv stop x ys → nx x ∈ stop ∷ ys
Links-head nx pv stop x [] l = ground (arith, l)
Links-head nx pv stop x (y ∷ ys) l = ground (arith, l)

Links-succ :
    (nx pv : Ptr → Ptr) (stop a th : Ptr) (xs : List Ptr)
    → Links nx pv stop a xs
    → th ∈ xs
    → nx th ∈ stop ∷ xs
Links-succ nx pv stop a th [] l i = cc
Links-succ nx pv stop a th (x ∷ xs) l i = elim (Bool-cases (x == th)) [
  | inl hit ↦ ground (arith, Links-head nx pv stop x xs l.2)
  | inr miss ↦ ground (arith, Links-succ nx pv stop x th xs l.2 (ground arith))
]

-- The first thread is taken out.
Links-skip :
    (nx pv : Ptr → Ptr) (stop a x : Ptr) (xs : List Ptr)
    → Links nx pv stop a (x ∷ xs)
    → Distinct (a ∷ x ∷ xs)
    → stop ∉ x ∷ xs
    → Links (update nx (pv x) (nx x)) (update pv (nx x) (pv x)) stop a xs
Links-skip nx pv stop a x [] l d out = ground (arith, l, d)
Links-skip nx pv stop a x (y ∷ ys) l d out = (
  ground (arith, l, d),
  ground (arith, l, d),
  Links-frame nx pv (update nx (pv x) (nx x)) (update pv (nx x) (pv x)) stop y ys l.2.2
      (λ b i. ground (arith, l, d, mem_ne a b (y ∷ ys)))
      (λ b i. ground (arith, l, d, out, mem_ne y b (stop ∷ ys))),
)

-- A thread is taken out.
Links-remove :
    (nx pv : Ptr → Ptr) (stop a th : Ptr) (xs : List Ptr)
    → Links nx pv stop a xs
    → Distinct (a ∷ xs)
    → stop ∉ xs
    → th ∈ xs
    → Links (update nx (pv th) (nx th)) (update pv (nx th) (pv th)) stop a (erase th xs)
Links-remove nx pv stop a th [] l d out i = cc
Links-remove nx pv stop a th (x ∷ xs) l d out i = elim (Bool-cases (x == th)) [
  | inl hit ↦ rw hit (
      subst (λ z. Links (update nx (pv z) (nx z)) (update pv (nx z) (pv z)) stop a xs)
        (==→eq x th hit) (Links-skip nx pv stop a x xs l d out))
  | inr miss ↦ rw miss (
    ground (
      arith,
      Links-pred nx pv stop x th xs l.2 (ground arith),
      l.0,
      d,
      mem_ne a (pv th) (x ∷ xs),
    ),
    ground (
      arith,
      Links-succ nx pv stop x th xs l.2 (ground arith),
      l.1,
      d,
      out,
      mem_ne x (nx th) (stop ∷ xs),
    ),
    Links-remove nx pv stop x th xs l.2 d.1 (ground arith) (ground arith),
  )
]

-- No thread in the middle is linked to itself.
Links-moves :
    (nx pv : Ptr → Ptr) (stop a th : Ptr) (xs : List Ptr)
    → Links nx pv stop a xs
    → Distinct (a ∷ xs)
    → stop ∉ xs
    → th ∈ xs
    → nx th ≢ th
Links-moves nx pv stop a th [] l d out i = cc
Links-moves nx pv stop a th (x ∷ xs) l d out i = elim (Bool-cases (x == th)) [
  | inl hit ↦ ground (arith, Links-head nx pv stop x xs l.2, mem_ne x (nx x) (stop ∷ xs), d, out)
  | inr miss ↦ Links-moves nx pv stop x th xs l.2 d.1 (ground arith) (ground arith)
]

Distinct-erase : (th a : Ptr) (xs : List Ptr) → Distinct (a ∷ xs) → Distinct (a ∷ erase th xs)
Distinct-erase th a [] d = d
Distinct-erase th a (x ∷ xs) d = elim (Bool-cases (x == th)) [
  | inl hit ↦ rw hit (ground (arith, d), d.1.1)
  | inr miss ↦ rw miss (ground (arith, d, not-mem-erase a th xs), Distinct-erase th x xs d.1)
]

pub remove_live-IsRing :
    (main th : Ptr) (p : Process) (xs : List Ptr)
    → IsRing p main xs
    → th ∈ xs
    → IsRing (remove_live th p) main (erase th xs)
remove_live-IsRing main th p xs ring i = record {
  links =
      Links-frame (update (nexts p) (prevs p th) (nexts p th))
        (update (prevs p) (nexts p th) (prevs p th)) (nexts (remove_live th p))
        (prevs (remove_live th p)) main main (erase th xs)
        (Links-remove (nexts p) (prevs p) main main th xs ring.links ring.distinct ring.distinct.0
          i)
        (λ b m. remove-next th p b (
          Links-moves (nexts p) (prevs p) main main th xs ring.links ring.distinct ring.distinct.0
            i))
        (λ b m. remove-prev th p b);
  distinct = Distinct-erase th main xs ring.distinct;
}
