-- ===== src/Vm/Tests.antt =====
-- An address space with two or three mappings.
use sneks.Base.{ℕ, ◌≡◌, refl, ap, true, false, none, some, List, [], ◌∷◌, abort, arith}
use sneks.Vm.{
  Mmap, Tree, leaf, node, in_order, insert_lazy_mmap_helper, insert_lazy_mmap, find_lazy_mmap,
  last_visited, go_right, go_left, first_from, first_lazy_mmap, carve, munmap_space,
}
use sneks.Vm.Order.{is_sorted, end_of, IsOrdered}
use sneks.Vm.First.{Finds, first_lazy_mmap-Finds}
use sneks.Vm.Unmapped.{Unmaps, munmap_space-Unmaps}
use sneks.Vm.Reserve.{
  Space, Reserves, is_nogo, insert_or_abort, reserve_fresh, reserve_fixed, reserve_mmap,
}
use sneks.Vm.Reserve.Outcome.{reserve_mmap-Reserves}

abbrev file : (addr length : ℕ) → Mmap
file addr length = record {
  addr = addr;
  length = length;
  flags = 262145;
  fd_serv = 7;
  ino = 3;
  offset = 0;
  tailsz = 0;
}

-- The mapping at 16 MiB is the root, the one at 4 MiB to its left.
abbrev two : Tree
two = node (node leaf (file 4194304 65536) leaf) (file 16777216 65536) leaf

-- A tree that leans to the right.
spine : List Mmap → Tree
spine [] = leaf
spine (m ∷ ms) = node leaf m (spine ms)

abbrev lean : Tree → List Mmap → Tree
lean t xs = spine xs

lean_law : (t : Tree) (xs : List Mmap) → in_order (lean t xs) ≡ xs
unfolding in_order spine
lean_law t [] = refl
lean_law t (m ∷ ms) = ap (λ (l : List Mmap). m ∷ l) (lean_law t ms)

two-IsOrdered : IsOrdered two
unfolding is_sorted in_order end_of
two-IsOrdered = (refl, omega arith)

first_lazy_mmap-Finds_example : Finds 4198400 4096 (in_order two) (first_lazy_mmap 4198400 4096 two)
first_lazy_mmap-Finds_example =
    first_lazy_mmap-Finds 4198400 4096 two (omega arith) (omega arith) two-IsOrdered

munmap_space-Unmaps_example :
    Unmaps 4198400 4096 two (munmap_space lean 4198400 4096 two) (first_lazy_mmap 4198400 4096 two)
munmap_space-Unmaps_example =
    munmap_space-Unmaps lean lean_law 4198400 4096 two (omega arith) (omega arith) two-IsOrdered

abbrev space : Space
space = record { areas = (1048576, 4096) ∷ []; maps = two; mmap_bot = 3221225471 }

reserve_mmap-Reserves_example :
    Reserves
      (file 0 0)
      4194304
      8192
      true
      space
      (reserve_mmap lean (file 0 0) 4194304 8192 true space)
reserve_mmap-Reserves_example =
    reserve_mmap-Reserves lean lean_law (file 0 0) 4194304 8192 true space (omega arith)
      (omega arith) (omega arith) (omega arith) two-IsOrdered

-- A range before the root that overlaps with it: the descent ends at the mapping to the left, and
-- nothing is found.
root_missed : first_lazy_mmap 16773120 8192 two ≡ none
unfolding first_lazy_mmap first_from last_visited go_right go_left in_order
root_missed = refl

-- A fixed mapping there fails the assert.
fixed_aborts : reserve_mmap lean (file 0 0) 16773120 8192 true space ≡ abort
unfolding reserve_mmap is_nogo reserve_fixed insert_or_abort insert_lazy_mmap
    insert_lazy_mmap_helper munmap_space first_lazy_mmap first_from last_visited go_right go_left
    in_order
fixed_aborts = refl

-- A mapping just below mmap_bot makes the next one without an address fail the assert.
bottom_aborts :
    reserve_mmap lean
      (file 0 0)
      0
      4096
      false
      (record space { maps = node leaf (file 3221221376 4096) leaf })
    ≡ abort
unfolding reserve_mmap is_nogo reserve_fresh insert_or_abort insert_lazy_mmap
    insert_lazy_mmap_helper
bottom_aborts = refl

-- What is left of a mapping above the range starts at the same page of the file as before.
offset_stays :
    find_lazy_mmap 4198400 (munmap_space lean 4194304 4096 two)
    ≡ some (record (file 4194304 65536) { addr = 4198400; length = 61440 })
unfolding find_lazy_mmap munmap_space first_lazy_mmap first_from in_order carve spine
offset_stays = refl
