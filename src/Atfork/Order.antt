-- ===== src/Atfork/Order.antt =====
-- The order of the handlers: prepare handlers last in, first out; the others first in, first out.
use read_linuxthreads.Prelude.{
  ℕ, zero, suc, ◌<◌, ◌≡◌, ◌≢◌, refl, ◌∙◌, true, false, some, List, [], ◌∷◌, ◌++◌, arith, update,
  map, ◌∉◌, last, length,
}
use read_linuxthreads.Memory.{Ptr, null}
use read_linuxthreads.Chain.{Chain, Chain-update, Chain-snoc, Chain-last}
use read_linuxthreads.Atfork.{
  HandlerList, at_head, behind, find_end, find_place, store_node, insert_list, call_handlers,
}

-- The list holds the handlers of the nodes `ns`.
pub record IsList (l : HandlerList) (ns : List Ptr) (hs : List ℕ) : Type 0 where
  pub chain : Chain l.next null l.head ns
  pub handlers : map l.handler ns ≡ hs

pub call_handlers-map :
    (fuel : ℕ) (l : HandlerList) (t : Ptr) (ns : List Ptr)
    → Chain l.next null t ns
    → length ns < fuel
    → call_handlers fuel l t ≡ some (map l.handler ns)
unfolding call_handlers
call_handlers-map zero l t ns c lt = absurd (omega arith)
call_handlers-map (suc k) l t [] c lt = ground arith
call_handlers-map (suc k) l t (x ∷ ns) c lt =
    ground (arith, call_handlers-map k l (l.next x) ns c.3 (omega arith))

-- The walk stops at the last node.
find_end-last :
    (fuel : ℕ) (l : HandlerList) (x : Ptr) (ns : List Ptr)
    → Chain l.next null x (x ∷ ns)
    → length ns < fuel
    → find_end fuel l x ≡ some (behind (last x ns))
unfolding find_end
find_end-last zero l x ns c lt = absurd (omega arith)
find_end-last (suc k) l x [] c lt = ground arith
find_end-last (suc k) l x (y ∷ ns) c lt =
    let on : l.next x ≡ y = c.3.0 in
    let tail : Chain l.next null y (y ∷ ns) = (refl, c.3.1, c.3.2, c.3.3) in
    rw on (ground (arith, find_end-last k l y ns tail (omega arith)))

map-update : (f : Ptr → ℕ) (a v : ℕ) (ns : List Ptr) → a ∉ ns → map (update f a v) ns ≡ map f ns
map-update f a v [] out = refl
map-update f a v (x ∷ ns) out = ground (arith, map-update f a v ns)

map-snoc :
    (f : Ptr → ℕ) (a v : ℕ) (ns : List Ptr)
    → a ∉ ns
    → map (update f a v) (ns ++ a ∷ []) ≡ map f ns ++ v ∷ []
map-snoc f a v [] out = ground arith
map-snoc f a v (x ∷ ns) out = ground (arith, map-snoc f a v ns)

module _ (fuel : ℕ) (l : HandlerList) (h b : ℕ) (ns : List Ptr) (hs : List ℕ) (is : IsList l ns hs)
    (set : h ≢ 0) (new : b ∉ ns) (nonnull : b ≢ null) where
  pub insert_front :
      (m : HandlerList) × (insert_list fuel l h b false ≡ some m) × IsList m (b ∷ ns) (h ∷ hs)
  unfolding insert_list find_place store_node
  insert_front =
      let hop : update l.next b l.head b ≡ l.head = ground arith in
      let kept = Chain-update l.next null l.head ns b l.head is.chain new in
      (
        store_node l h b at_head,
        ground arith,
        record {
          chain = (refl, nonnull, new, rw hop kept);
          handlers = ground (arith, map-update l.handler b h ns new, is.handlers);
        },
      )

pub insert_back :
    (fuel : ℕ) (l : HandlerList) (h b : ℕ) (ns : List Ptr) (hs : List ℕ)
    → IsList l ns hs
    → h ≢ 0
    → b ∉ ns
    → b ≢ null
    → length ns < fuel
    → (m : HandlerList) × (insert_list fuel l h b true ≡ some m)
      × IsList m (ns ++ b ∷ []) (hs ++ h ∷ [])
unfolding insert_list find_place store_node
insert_back fuel l h b [] hs is set new nonnull lt =
    let empty : l.head ≡ null = is.chain in
    let hop : update l.next b l.head b ≡ l.head = ground arith in
    (
      store_node l h b at_head,
      ground arith,
      record { chain = (refl, nonnull, refl, hop ∙ empty); handlers = ground (arith, is.handlers) },
    )
insert_back fuel l h b (x ∷ xs) hs is set new nonnull lt =
    let first : l.head ≡ x = is.chain.0 in
    let own : Chain l.next null x (x ∷ xs) = (refl, is.chain.1, is.chain.2, is.chain.3) in
    let found = find_end-last fuel l x xs own (omega arith) in
    let end = Chain-last l.next null l.head x xs is.chain in
    let t = last x xs in
    let kept = Chain-update l.next null l.head (x ∷ xs) b (l.next t) is.chain new in
    (
      store_node l h b (behind (last x xs)),
      ground (arith, found),
      record {
        chain =
            Chain-snoc (update l.next b (l.next t)) null l.head x xs b kept new nonnull
              (ground arith);
        handlers = ground (arith, map-snoc l.handler b h (x ∷ xs) new, is.handlers);
      },
    )
