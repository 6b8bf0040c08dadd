-- ===== src/Atfork/Registered.antt =====
-- ptfork.c: what a sequence of registrations leaves for `fork`.
use read_linuxthreads.Prelude.{
  ℕ, ◌<◌, ◌≤◌, ◌≡◌, ◌≢◌, refl, ◌∙◌, ap, Bool, true, false, Option, some, List, [], ◌∷◌, ◌++◌, arith,
  ◌==◌, if◌then◌else◌, map, option_bind, ◌∉◌, ◌∈◌, has, length, length-append, Bool-cases, inl, inr,
}
use read_linuxthreads.Memory.{Ptr, null}
use read_linuxthreads.Chain.{Chain}
use read_linuxthreads.Atfork.{
  HandlerList, Lists, insert_list, insert_all, call_handlers, Event, calls, forks,
  resets_main_thread, resets_lockfiles, fork_events,
}
use read_linuxthreads.Atfork.Order.{IsList, call_handlers-map, insert_front, insert_back}

-- The arguments of one call of pthread_atfork, and the block that malloc returns to it.
pub record Registration : Type 0 where
  pub before : ℕ
  pub in_parent : ℕ
  pub in_child : ℕ
  pub block : Ptr

-- The handlers `hs` are registered, on nodes among the blocks `used`.
pub record IsRegistered (used : List Ptr) (l : HandlerList) (hs : List ℕ) : Type 0 where
  pub nodes : List Ptr
  pub chain : Chain l.next null l.head nodes
  pub handlers : map l.handler nodes ≡ hs
  pub within : (a : Ptr) → a ∈ nodes → a ∈ used
  pub few : length nodes ≤ length used

-- A handler in front of the others or behind them, if there is one.
abbrev pub first : ℕ → List ℕ → List ℕ
first h hs = if h == null then hs else h ∷ hs

abbrev pub final : ℕ → List ℕ → List ℕ
final h hs = if h == null then hs else hs ++ h ∷ []

fresh : (b : Ptr) (ns used : List Ptr) → ((a : Ptr) → a ∈ ns → a ∈ used) → b ∉ used → b ∉ ns
fresh b ns used within new = elim (Bool-cases (has b ns)) [
  | inl h ↦ absurd (ground (arith, within b h))
  | inr h ↦ h
]

mem-snoc : (b : Ptr) (ns : List Ptr) (a : Ptr) → a ∈ ns ++ b ∷ [] → a ∈ b ∷ ns
mem-snoc b [] a i = i
mem-snoc b (x ∷ ns) a i = ground (arith, mem-snoc b ns a)

-- The blocks of the longer list.
within_more :
    (b : Ptr) (ns used : List Ptr)
    → ((a : Ptr) → a ∈ ns → a ∈ used)
    → (a : Ptr) → a ∈ b ∷ ns
    → a ∈ b ∷ used
within_more b ns used within a i = ground (arith, within a)

-- The list without the new handler is registered with one more block.
unchanged :
    (l : HandlerList) (b : ℕ) (used : List Ptr) (hs hs' : List ℕ)
    → IsRegistered used l hs
    → hs' ≡ hs
    → IsRegistered (b ∷ used) l hs'
unchanged l b used hs hs' is same = record {
  nodes = is.nodes;
  chain = is.chain;
  handlers = ground (arith, is.handlers);
  within = λ a i. ground (arith, is.within a i);
  few = omega (arith, is.few);
}

module _ (fuel : ℕ) (l : HandlerList) (h b : ℕ) (used : List Ptr) (hs : List ℕ)
    (is : IsRegistered used l hs) (new : b ∉ used) (nonnull : b ≢ null) where
  abbrev out : b ∉ is.nodes
  out = fresh b is.nodes used is.within new

  abbrev own : IsList l is.nodes hs
  own = record { chain = is.chain; handlers = is.handlers }

  insert_first :
      (m : HandlerList) × (insert_list fuel l h b false ≡ some m)
      × IsRegistered (b ∷ used) m (first h hs)
  unfolding insert_list
  insert_first = elim (Bool-cases (h == null)) [
    | inl e ↦ (l, ground arith, unchanged l b used hs (first h hs) is (ground arith))
    | inr e ↦
        let r = insert_front fuel l h b is.nodes hs own (ground arith) out nonnull in
        (
          r.0,
          r.1,
          record {
            nodes = b ∷ is.nodes;
            chain = r.2.chain;
            handlers = ground (arith, r.2.handlers);
            within = within_more b is.nodes used is.within;
            few = omega (arith, is.few);
          },
        )
  ]

  insert_final :
      length used < fuel
      → (m : HandlerList) × (insert_list fuel l h b true ≡ some m)
        × IsRegistered (b ∷ used) m (final h hs)
  unfolding insert_list
  insert_final lt = elim (Bool-cases (h == null)) [
    | inl e ↦ (l, ground arith, unchanged l b used hs (final h hs) is (ground arith))
    | inr e ↦
        let r =
          insert_back fuel l h b is.nodes hs own (ground arith) out nonnull
            (omega (arith, is.few)) in
        (
          r.0,
          r.1,
          record {
            nodes = is.nodes ++ b ∷ [];
            chain = r.2.chain;
            handlers = ground (arith, r.2.handlers);
            within = λ a i. within_more b is.nodes used is.within a (mem-snoc b is.nodes a i);
            few = omega (arith, is.few, length-append is.nodes (b ∷ []));
          },
        )
  ]

-- What the registrations leave, the latest of them first in the list `rs`.
abbrev pub blocks : List Registration → List Ptr
blocks rs = map (λ r. r.block) rs

abbrev pub prepares : List Registration → List ℕ
prepares [] = []
prepares (r ∷ rs) = first r.before (prepares rs)

abbrev pub parents : List Registration → List ℕ
parents [] = []
parents (r ∷ rs) = final r.in_parent (parents rs)

abbrev pub children : List Registration → List ℕ
children [] = []
children (r ∷ rs) = final r.in_child (children rs)

-- The registrations in turn, from the last element of the list to the first.
pub register_all : ℕ → List Registration → Lists → Option Lists
register_all fuel [] s = some s
register_all fuel (r ∷ rs) s =
    option_bind (register_all fuel rs s) (insert_all fuel r.before r.in_parent r.in_child r.block)

pub record IsRegisteredAll (rs : List Registration) (s : Lists) : Type 0 where
  pub in_prepare : IsRegistered (blocks rs) s.prepare (prepares rs)
  pub in_parent : IsRegistered (blocks rs) s.parent (parents rs)
  pub in_child : IsRegistered (blocks rs) s.child (children rs)

-- malloc returns blocks that differ from each other and from NULL.
abbrev pub AreFresh : List Ptr → Type 0
AreFresh [] = Unit
AreFresh (b ∷ bs) = (b ≢ null) × (b ∉ bs) × AreFresh bs

call_handlers-hs :
    (fuel : ℕ) (l : HandlerList) (used : List Ptr) (hs : List ℕ)
    → IsRegistered used l hs
    → length used < fuel
    → call_handlers fuel l l.head ≡ some hs
call_handlers-hs fuel l used hs is lt =
    call_handlers-map fuel l l.head is.nodes is.chain (omega (arith, is.few)) ∙ ap some is.handlers

-- The calls of `fork` after the registrations.
abbrev pub expected : List Registration → Bool → List Event
expected rs is_child =
    map calls (prepares rs)
    ++ forks
      ∷ (if is_child
          then resets_main_thread ∷ resets_lockfiles ∷ map calls (children rs)
          else map calls (parents rs))

fork_events-order :
    (fuel : ℕ) (s : Lists) (rs : List Registration)
    → IsRegisteredAll rs s
    → length (blocks rs) < fuel
    → (is_child : Bool) → fork_events fuel is_child s ≡ some (expected rs is_child)
unfolding fork_events
fork_events-order fuel s rs is lt true =
    rw
      (
        call_handlers-hs fuel s.prepare (blocks rs) (prepares rs) is.in_prepare lt,
        call_handlers-hs fuel s.child (blocks rs) (children rs) is.in_child lt,
      )
      refl
fork_events-order fuel s rs is lt false =
    rw
      (
        call_handlers-hs fuel s.prepare (blocks rs) (prepares rs) is.in_prepare lt,
        call_handlers-hs fuel s.parent (blocks rs) (parents rs) is.in_parent lt,
      )
      refl

module _ (fuel : ℕ) (s : Lists) (empty : IsRegisteredAll [] s) where
  register_all-IsRegisteredAll :
      (rs : List Registration)
      → AreFresh (blocks rs)
      → length (blocks rs) < fuel
      → (t : Lists) × (register_all fuel rs s ≡ some t) × IsRegisteredAll rs t
  unfolding register_all insert_all
  register_all-IsRegisteredAll [] new lt = (s, refl, empty)
  register_all-IsRegisteredAll (r ∷ rs) new lt =
      let before = register_all-IsRegisteredAll rs new.2 (omega arith) in
      let t : Lists = before.0 in
      let bs = blocks rs in
      let is : IsRegisteredAll rs t = before.2 in
      let a =
        insert_first fuel t.prepare r.before r.block bs (prepares rs) is.in_prepare new.1 new.0 in
      let b =
        insert_final fuel t.parent r.in_parent r.block bs (parents rs) is.in_parent new.1 new.0
          (omega arith) in
      let c =
        insert_final fuel t.child r.in_child r.block bs (children rs) is.in_child new.1 new.0
          (omega arith) in
      (
        record t { prepare = a.0; parent = b.0; child = c.0 },
        rw (before.1, a.1, b.1, c.1) refl,
        record { in_prepare = a.2; in_parent = b.2; in_child = c.2 },
      )

  -- Registrations one after the other on empty lists, with blocks that differ from each other and
  -- from NULL, with enough fuel, and then fork: the prepare handlers run in the reverse order of
  -- their registration, then the process forks, then the parent's handlers, or in the child, behind
  -- the two resets, the child's handlers, run in the order of their registration; NULL handlers are
  -- left out.
  pub register_all-fork :
      (is_child : Bool) (rs : List Registration)
      → AreFresh (blocks rs)
      → length (blocks rs) < fuel
      → option_bind (register_all fuel rs s) (fork_events fuel is_child)
        ≡ some (expected rs is_child)
  register_all-fork is_child rs new lt =
      let after = register_all-IsRegisteredAll rs new lt in
      let t : Lists = after.0 in
      let is : IsRegisteredAll rs t = after.2 in
      rw (after.1) (fork_events-order fuel t rs is lt is_child)
