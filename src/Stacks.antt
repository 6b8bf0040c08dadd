-- ===== src/Stacks.antt =====
-- manager.c: the stack segments, and the descriptors at their tops.
pub mod Laws
mod Tests
use read_linuxthreads.Prelude.{
  ℕ, zero, suc, ◌+◌, ◌-◌, ◌*◌, ◌/◌, Bool, true, false, not, ◌&&◌, ◌||◌, Option, none, some, ltb,
  leb, ◌==◌, if◌then◌else◌, update,
}
use read_linuxthreads.Memory.{Ptr}

-- STACK_SIZE
abbrev pub stack_size : ℕ
stack_size = 2 * 1024 * 1024

-- The array `stack_segments` and its length.
pub record Segments : Type 0 where
  pub used : ℕ → Bool
  pub num : ℕ

-- THREAD_SEG and SEG_THREAD; `start` is THREAD_STACK_START_ADDRESS and `size` that of a descriptor.
unfoldable pub thread_seg : (start size seg : ℕ) → Ptr
thread_seg start size seg = start - seg * stack_size - size

unfoldable pub seg_thread : (start size : ℕ) → Ptr → ℕ
seg_thread start size th = (start - (th + size)) / stack_size

-- `grants` says for which sizes malloc and realloc succeed; `none` is the return of -1.
pub grow_stack_segments : (grants : ℕ → Bool) → Segments → Option Segments
grow_stack_segments grants s =
    let new = if s.num == 0 then 128 else s.num * 2 in
    if grants new
    then some (record { used = λ i. if ltb i s.num then s.used i else false; num = new })
    else none

-- The array is long enough for the segment, or it grows.
unfoldable pub reserve : (grants : ℕ → Bool) → ℕ → Segments → Option Segments
reserve grants sseg s = if leb s.num sseg then grow_stack_segments grants s else some s

-- How the search ends.
pub data Found : Type 0 where
  no_memory : Segments → Found
  found : (sseg : ℕ) → Segments → Found

-- One round of the loops at `sseg`, with the array of `reserve`; `rest` is what follows.
unfoldable pub try_segment :
    (maps : ℕ → Bool)
    → (rest : Segments → Option Found) → ℕ
    → Segments
    → Option Segments
    → Option Found
try_segment maps rest sseg s none = some (no_memory s)
try_segment maps rest sseg s (some t) =
    let marked = record t { used = update t.used sseg true } in
    if t.used sseg then rest t else if maps sseg then some (found sseg marked) else rest marked

-- The two loops of pthread_handle_create from `sseg`; `maps` says which segments mmap can map.
-- `none` means that the fuel ran out.
unfoldable pub find_segment : ℕ → (grants maps : ℕ → Bool) → ℕ → Segments → Option Found
find_segment zero grants maps sseg s = none
find_segment (suc fuel) grants maps sseg s =
    try_segment maps (find_segment fuel grants maps (sseg + 1)) sseg s (reserve grants sseg s)
