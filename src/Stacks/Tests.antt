-- ===== src/Stacks/Tests.antt =====
-- A table with one segment in use, where segment 1 cannot be mapped.
use read_linuxthreads.Prelude.{ℕ, ◌≡◌, refl, Bool, true, not, some, ◌==◌, arith}
use read_linuxthreads.Stacks.{Segments, Found, found, find_segment}
use read_linuxthreads.Stacks.Laws.{IsBounded, IsFound, find_segment-free}

abbrev one_used : Segments
one_used = record { used = λ i. i == 0; num = 1 }

one_used-IsBounded : IsBounded one_used
one_used-IsBounded i ge = ground arith

abbrev maps : ℕ → Bool
maps i = not (i == 1)

find_segment-free_example :
    ((r : Found) × (find_segment 3 (λ n. true) maps 0 one_used ≡ some r))
    × ((k : ℕ) (t : Segments)
        → find_segment 3 (λ n. true) maps 0 one_used ≡ some (found k t)
        → IsFound maps k one_used t)
find_segment-free_example =
    find_segment-free 3 (λ n. true) maps 2 one_used (omega arith) refl refl one_used-IsBounded
