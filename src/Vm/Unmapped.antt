-- ===== src/Vm/Unmapped.antt =====
-- sys/vm/vm.c: what munmap_space() leaves.
use sneks.Base.{
  ℕ, ◌+◌, ◌≤◌, ◌<◌, ◌^◌, ◌≡◌, refl, sym, ◌∙◌, true, Option, none, some, List, [], ◌∷◌,
  if◌then◌else◌, arith, Bool-cases, inl, inr,
}
use mathlib.Core.Path.{subst}
use sneks.Vm.{Mmap, Tree, in_order, Place, onto, first_lazy_mmap, carve, carve_from, munmap_space}
use sneks.Vm.Order.{
  IsOrdered, is_sorted, backing, none_ended, sorted_suffix, backing-onto, onto_same, all_end_by,
}
use sneks.Vm.First.{Finds, any-Finds}
use sneks.Vm.Carved.{in_range, ends_past, carve-backing, carve-sorted}

-- By the place that first_lazy_mmap() found: nothing changes and the first address is not mapped;
-- or the range is unmapped and every other address is as before.
abbrev pub Unmaps : (addr size : ℕ) → Tree → Tree → Option Place → Type 0
Unmaps addr size t t' none = (t' ≡ t) × (backing addr (in_order t) ≡ none)
Unmaps addr size t t' (some p) =
    (is_sorted 0 (in_order t') ≡ true)
    × ((q : ℕ)
        → backing q (in_order t') ≡ (if in_range addr size q then none else backing q (in_order t)))

sorted_onto :
    (bs : List Mmap) (lo : ℕ) (xs ys : List Mmap)
    → ((l : ℕ) → is_sorted l xs ≡ true → is_sorted l ys ≡ true)
    → is_sorted lo (onto bs xs) ≡ true
    → is_sorted lo (onto bs ys) ≡ true
unfolding is_sorted
sorted_onto [] lo xs ys h sorted = h lo sorted
sorted_onto (b ∷ bs) lo xs ys h sorted =
    sorted_onto bs lo (b ∷ xs) (b ∷ ys)
      (λ (l : ℕ) (k : is_sorted l (b ∷ xs) ≡ true). ground (arith, h (b.addr + b.length))) sorted

onto-carve :
    (a s q : ℕ) (bs xs full : List Mmap)
    → onto bs xs ≡ full
    → all_end_by a bs ≡ true
    → is_sorted 0 xs ≡ true
    → ends_past a xs ≡ true
    → backing q (onto bs (carve a s xs)) ≡ (if in_range a s q then none else backing q full)
onto-carve a s q bs xs full whole before sorted past = elim (Bool-cases (in_range a s q)) [
  | inl inside ↦ rw inside (
      backing-onto q bs (carve a s xs) (none_ended q a bs before (ground arith))
      ∙ (carve-backing a s q 0 xs sorted past ∙ rw inside refl))
  | inr outside ↦
      rw (outside, sym whole)
        (onto_same q bs (carve a s xs) xs (carve-backing a s q 0 xs sorted past ∙ rw outside refl))
]

module _ (rebuild : Tree → List Mmap → Tree)
    (rebuild_law : (t : Tree) (xs : List Mmap) → in_order (rebuild t xs) ≡ xs) where
  carve_from-Unmaps :
      (addr size : ℕ) (t : Tree) (o : Option Place)
      → is_sorted 0 (in_order t) ≡ true
      → Finds addr size (in_order t) o
      → Unmaps addr size t (carve_from rebuild addr size t o) o
  carve_from-Unmaps addr size t none sorted finds = (refl, finds)
  carve_from-Unmaps addr size t (some p) sorted (whole, past, near, before) = (
    subst (λ (xs : List Mmap). is_sorted 0 xs ≡ true)
        (sym (rebuild_law t (onto p.before (carve addr size (p.here ∷ p.after)))))
        (sorted_onto p.before 0 (p.here ∷ p.after) (carve addr size (p.here ∷ p.after))
          (λ (l : ℕ) (k : is_sorted l (p.here ∷ p.after) ≡ true).
            carve-sorted addr size l (p.here ∷ p.after) k (ground arith))
          (subst (λ (xs : List Mmap). is_sorted 0 xs ≡ true) (sym whole) sorted)),
    λ (q : ℕ).
        subst
          (λ (xs : List Mmap).
            backing q xs ≡ (if in_range addr size q then none else backing q (in_order t)))
          (sym (rebuild_law t (onto p.before (carve addr size (p.here ∷ p.after)))))
          (onto-carve addr size q p.before (p.here ∷ p.after) (in_order t) whole before
            (sorted_suffix 0 p.before (p.here ∷ p.after)
              (subst (λ (xs : List Mmap). is_sorted 0 xs ≡ true) (sym whole) sorted))
            (ground arith)),
  )

  pub any-Unmaps :
      (addr size : ℕ) (t : Tree)
      → 1 ≤ size
      → is_sorted 0 (in_order t) ≡ true
      → Unmaps addr size t (munmap_space rebuild addr size t) (first_lazy_mmap addr size t)
  unfolding munmap_space
  any-Unmaps addr size t some_size sorted =
      carve_from-Unmaps addr size t (first_lazy_mmap addr size t) sorted
        (any-Finds addr size t some_size sorted)

  -- munmap_space() of a range that is not empty, in 32-bit addresses and a tree in order, with any rebalancing of the
  -- tree: either it changes nothing, and nothing maps the first address of the range, or it
  -- unmaps the range and leaves every other address mapped to the same file, in order.
  pub munmap_space-Unmaps :
      (addr size : ℕ) (t : Tree)
      → 1 ≤ size
      → addr + size < 2 ^ 32
      → IsOrdered t
      → Unmaps addr size t (munmap_space rebuild addr size t) (first_lazy_mmap addr size t)
  munmap_space-Unmaps addr size t some_size below ordered =
      any-Unmaps addr size t some_size ordered.0
