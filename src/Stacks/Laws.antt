-- ===== src/Stacks/Laws.antt =====
-- The segments that are handed out, and their addresses.
use read_linuxthreads.Prelude.{
  ℕ, zero, suc, ◌+◌, ◌-◌, ◌*◌, ◌<◌, ◌≤◌, ◌≡◌, refl, Bool, true, false, Option, none, some, arith,
  update, Bool-cases, inl, inr, subst, sym,
}
use read_linuxthreads.Stacks.{
  stack_size, Segments, thread_seg, seg_thread, grow_stack_segments, reserve, try_segment, Found,
  no_memory, found, find_segment,
}

pub seg_back :
    (start size seg : ℕ)
    → size ≤ stack_size
    → seg * stack_size + stack_size ≤ start
    → seg_thread start size (thread_seg start size seg) ≡ seg
unfolding seg_thread thread_seg
seg_back start size seg fits low =
    let back : start - (start - seg * stack_size - size + size) ≡ seg * stack_size = omega arith in
    rw back (omega arith)

-- Of descriptors that fit into a segment and segments above address 0: the descriptor of a segment
-- leads back to it, and the stacks of two segments do not overlap.
pub seg_thread-thread_seg :
    (start size seg other : ℕ)
    → 0 < size
    → size ≤ stack_size
    → seg * stack_size + stack_size ≤ start
    → other < seg
    → (seg_thread start size (thread_seg start size seg) ≡ seg)
      × (thread_seg start size seg + size ≤ thread_seg start size other + size - stack_size)
unfolding thread_seg
seg_thread-thread_seg start size seg other pos fits low lt =
    (seg_back start size seg fits low, omega arith)

-- No segment outside the array is in use.
abbrev pub IsBounded : Segments → Type 0
IsBounded s = (i : ℕ) → s.num ≤ i → s.used i ≡ false

-- The segment is in the array, and the segments in use are the same.
record Reserved (sseg : ℕ) (s t : Segments) : Type 0 where
  inside : sseg < t.num
  longer : s.num ≤ t.num
  same : (i : ℕ) → t.used i ≡ s.used i

reserve-Reserved :
    (grants : ℕ → Bool) (sseg : ℕ) (s t : Segments)
    → sseg ≤ s.num
    → IsBounded s
    → reserve grants sseg s ≡ some t
    → Reserved sseg s t
unfolding reserve grow_stack_segments
reserve-Reserved grants sseg s t le off e = record {
  inside = ground (arith, e);
  longer = ground (arith, e);
  same = λ i. ground (arith, e, off i);
}

-- What a successful search leaves.
pub record IsFound (maps : ℕ → Bool) (k : ℕ) (s t : Segments) : Type 0 where
  pub mapped : maps k ≡ true
  pub inside : k < t.num
  pub marked : t.used k ≡ true
  pub unused : s.used k ≡ false
  pub kept : (i : ℕ) → s.used i ≡ true → t.used i ≡ true
  pub off : IsBounded t

mark-IsFound :
    (grants maps : ℕ → Bool) (sseg : ℕ) (s t : Segments)
    → Reserved sseg s t
    → IsBounded s
    → t.used sseg ≡ false
    → maps sseg ≡ true
    → IsFound maps sseg s (record t { used = update t.used sseg true })
mark-IsFound grants maps sseg s t r off free mapped = record {
  mapped = mapped;
  inside = r.inside;
  marked = ground arith;
  unused = ground (arith, r.same sseg);
  kept = λ i h. ground (arith, r.same i);
  off = λ i ge. ground (arith, r.same i, off i, r.inside, r.longer);
}

-- The rest of the search starts from a longer array with more segments in use.
later-IsFound :
    (grants maps : ℕ → Bool) (sseg k : ℕ) (s m t : Segments)
    → ((i : ℕ) → s.used i ≡ true → m.used i ≡ true)
    → IsFound maps k m t
    → IsFound maps k s t
later-IsFound grants maps sseg k s m t more f = record {
  mapped = f.mapped;
  inside = f.inside;
  marked = f.marked;
  unused = ground (arith, f.unused, more k);
  kept = λ i h. f.kept i (more i h);
  off = f.off;
}

try_segment-IsFound :
    (grants maps : ℕ → Bool) (rest : Segments → Option Found) (sseg k : ℕ) (s t : Segments)
    (o : Option Segments)
    → ((m : Segments)
        → sseg + 1 ≤ m.num
        → IsBounded m
        → rest m ≡ some (found k t)
        → IsFound maps k m t)
    → sseg ≤ s.num
    → IsBounded s
    → reserve grants sseg s ≡ o
    → try_segment maps rest sseg s o ≡ some (found k t)
    → IsFound maps k s t
unfolding try_segment
try_segment-IsFound grants maps rest sseg k s t none ih le off e h = cc
try_segment-IsFound grants maps rest sseg k s t (some m) ih le off e h =
    let r = reserve-Reserved grants sseg s m le off e in
    let marked : Segments = record m { used = update m.used sseg true } in
    let bounded : IsBounded m = λ i ge. ground (arith, r.same i, off i, r.longer) in
    let marked_bounded : IsBounded marked = λ i ge. ground (arith, bounded i, r.inside) in
    elim (Bool-cases (m.used sseg)) [
      | inl skip ↦
          later-IsFound grants maps sseg k s m t (λ i u. ground (arith, r.same i))
            (ih m (omega (arith, r.inside)) bounded (ground (arith, h)))
      | inr free ↦ elim (Bool-cases (maps sseg)) [
        | inl mapped ↦
            (let here : k ≡ sseg = ground (arith, h) in
              let same : t ≡ marked = ground (arith, h) in
              subst (λ j. IsFound maps j s t) (sym here)
                (subst (λ u. IsFound maps sseg s u) (sym same)
                  (mark-IsFound grants maps sseg s m r off free mapped)))
        | inr miss ↦
            later-IsFound grants maps sseg k s marked t (λ i u. ground (arith, r.same i))
              (ih marked (omega (arith, r.inside)) marked_bounded (ground (arith, h)))
      ]
    ]

pub find_segment-IsFound :
    (fuel : ℕ) (grants maps : ℕ → Bool) (sseg k : ℕ) (s t : Segments)
    → sseg ≤ s.num
    → IsBounded s
    → find_segment fuel grants maps sseg s ≡ some (found k t)
    → IsFound maps k s t
unfolding find_segment
find_segment-IsFound zero grants maps sseg k s t le off h = cc
find_segment-IsFound (suc fuel) grants maps sseg k s t le off h =
    try_segment-IsFound grants maps (find_segment fuel grants maps (sseg + 1)) sseg k s t
      (reserve grants sseg s)
      (λ m le' off' h'. find_segment-IsFound fuel grants maps (sseg + 1) k m t le' off' h') le off
      refl h

-- The outcome of a round, when what follows has one for every table in which `j` is free.
try_segment-ends :
    (grants maps : ℕ → Bool) (rest : Segments → Option Found) (sseg j : ℕ) (s : Segments)
    (o : Option Segments)
    → sseg ≤ j
    → maps j ≡ true
    → s.used j ≡ false
    → (sseg < j
        → (m : Segments) → sseg + 1 ≤ m.num
        → IsBounded m
        → m.used j ≡ false
        → (r : Found) × (rest m ≡ some r))
    → sseg ≤ s.num
    → IsBounded s
    → reserve grants sseg s ≡ o
    → (r : Found) × (try_segment maps rest sseg s o ≡ some r)
unfolding try_segment
try_segment-ends grants maps rest sseg j s none le mapped free ih low off e = (no_memory s, refl)
try_segment-ends grants maps rest sseg j s (some m) le mapped free ih low off e =
    let r = reserve-Reserved grants sseg s m low off e in
    let marked : Segments = record m { used = update m.used sseg true } in
    let bounded : IsBounded m = λ i ge. ground (arith, r.same i, off i, r.longer) in
    let marked_bounded : IsBounded marked = λ i ge. ground (arith, bounded i, r.inside) in
    elim (Bool-cases (m.used sseg)) [
      | inl skip ↦
          (let (o, h) =
              ih (ground (arith, r.same j)) m (omega (arith, r.inside)) bounded
                (ground (arith, r.same j)) in
            (o, rw skip h))
      | inr unused ↦ elim (Bool-cases (maps sseg)) [
        | inl here ↦ (found sseg marked, rw (unused, here) refl)
        | inr miss ↦
            (let (o, h) =
                ih (ground arith) marked (omega (arith, r.inside)) marked_bounded
                  (ground (arith, r.same j)) in
              (o, rw (unused, miss) h))
      ]
    ]

find_segment-ends :
    (fuel : ℕ) (grants maps : ℕ → Bool) (sseg j : ℕ) (s : Segments)
    → sseg ≤ j
    → j < sseg + fuel
    → maps j ≡ true
    → s.used j ≡ false
    → sseg ≤ s.num
    → IsBounded s
    → (r : Found) × (find_segment fuel grants maps sseg s ≡ some r)
unfolding find_segment
find_segment-ends zero grants maps sseg j s le lt mapped free low off = absurd (omega arith)
find_segment-ends (suc fuel) grants maps sseg j s le lt mapped free low off =
    try_segment-ends grants maps (find_segment fuel grants maps (sseg + 1)) sseg j s
      (reserve grants sseg s) le mapped free
      (λ more m low' off' free'.
        find_segment-ends fuel grants maps (sseg + 1) j m (omega arith) (omega arith) mapped free'
          low' off')
      low off refl

-- The search of pthread_handle_create in a table with no segment in use outside the array. With some
-- segment that is free and can be mapped, and fuel beyond it, the search ends. A segment that it
-- returns was free, could be mapped, stands in the array and is marked; the segments in use before
-- still are, and none outside the array is.
pub find_segment-free :
    (fuel : ℕ) (grants maps : ℕ → Bool) (j : ℕ) (s : Segments)
    → j < fuel
    → maps j ≡ true
    → s.used j ≡ false
    → IsBounded s
    → ((r : Found) × (find_segment fuel grants maps 0 s ≡ some r))
      × ((k : ℕ) (t : Segments)
          → find_segment fuel grants maps 0 s ≡ some (found k t)
          → IsFound maps k s t)
find_segment-free fuel grants maps j s lt mapped free off = (
  find_segment-ends fuel grants maps 0 j s (omega arith) (omega arith) mapped free (omega arith)
      off,
  λ k t h. find_segment-IsFound fuel grants maps 0 k s t (omega arith) off h,
)
