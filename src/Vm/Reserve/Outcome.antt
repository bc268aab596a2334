-- ===== src/Vm/Reserve/Outcome.antt =====
-- sys/vm/vm.c: how reserve_mmap() ends.
use sneks.Base.{
  leb, not, [], ◌∷◌, ◌↔◌, ℕ, ◌+◌, ◌-◌, ◌%◌, ◌^◌, ◌≤◌, ◌<◌, max, ◌≡◌, refl, sym, ◌∙◌, Bool, true,
  false, ◌||◌, ap, Option, none, some, List, ◌==◌, if◌then◌else◌, arith, Bool-cases, inl, inr,
}
use mathlib.Core.Path.{subst}
use sneks.Vm.{Mmap, Tree, in_order, Place, first_lazy_mmap, insert_lazy_mmap, munmap_space}
use sneks.Vm.Order.{IsOrdered, is_sorted, covers, file_of, File, backing}
use sneks.Vm.Carved.{in_range}
use sneks.Vm.Unmapped.{Unmaps, any-Unmaps}
use sneks.Vm.Inserted.{Inserts, insert_lazy_mmap-Inserts}
use sneks.Vm.Reserve.{
  is_nogo, fresh, placed, insert_or_abort, reserve_fresh, reserve_fixed, reserve_hinted,
  reserve_mmap, Taken, Overlaps, ReservesFixed, ReservesFree, Reserves, Space,
}

old_Taken :
    (m : Mmap) (t : Tree) (old : Mmap) (u : Tree)
    → 1 ≤ m.length
    → Inserts m t (some old, u)
    → Taken m t
old_Taken m t old u size (same, below, above, found) =
    (max m.addr old.addr, ground arith, file_of old, found)

unmapped_order :
    (a n : ℕ) (t u : Tree) (o : Option Place)
    → is_sorted 0 (in_order t) ≡ true
    → Unmaps a n t u o
    → is_sorted 0 (in_order u) ≡ true
unmapped_order a n t u none sorted (same, unmapped) =
    subst (λ (v : Tree). is_sorted 0 (in_order v) ≡ true) (sym same) sorted
unmapped_order a n t u (some p) sorted (order, unmapped) = order

none-some : (f : ℕ × ℕ × ℕ) → ◌≡◌ {A = File} none (some f) → false ≡ true
none-some f e = ground arith

is_nogo_iff :
    (address length : ℕ) (areas : List (ℕ × ℕ))
    → (is_nogo address length areas ≡ true) ↔ Overlaps address length areas
unfolding is_nogo
is_nogo_iff address length [] = (λ h. h, λ h. h)
is_nogo_iff address length ((start, size) ∷ areas) =
    let rest = is_nogo_iff address length areas in
    (
      λ h. elim (Bool-cases (not (leb (start + size) address || leb (address + length) start))) [
        | inl here ↦ inl (ground arith, ground arith)
        | inr apart ↦ inr (rest.0 (ground arith))
      ],
      λ h. elim h [ inl (left, right) ↦ ground arith | inr later ↦ ground (arith, rest.1 later) ],
    )

nogo_clear :
    (address length : ℕ) (areas : List (ℕ × ℕ))
    → is_nogo address length areas ≡ false
    → ¬ Overlaps address length areas
nogo_clear address length areas clear over =
    ground (arith, clear, (is_nogo_iff address length areas).1 over)

module _ (rebuild : Tree → List Mmap → Tree)
    (rebuild_law : (t : Tree) (xs : List Mmap) → in_order (rebuild t xs) ≡ xs) where
  -- The second insertion, after munmap_space().
  again :
      (m : Mmap) (s : Space) (o : Option Place) (u : Tree) (r : Option Mmap × Tree)
      → ¬ Overlaps m.addr m.length s.areas
      → 1 ≤ m.length
      → o ≡ first_lazy_mmap m.addr m.length s.maps
      → Taken m s.maps
      → Unmaps m.addr m.length s.maps u o
      → Inserts m u r
      → ReservesFixed m s (insert_or_abort rebuild m r s)
  unfolding insert_or_abort
  again m s none u (none, v) clear size first over (same, unmapped) (sorted, has) = (
    clear,
    refl,
    (
      sorted,
      λ (p : ℕ).
          has p
          ∙ ap (λ (t : Tree). if covers m p then some (file_of m) else backing p (in_order t)) same,
    ),
  )
  again m s none u (some old, v) clear size first over unmaps inserts = (clear, sym first, over)
  again m s (some q) u (none, v) clear size first over (order, unmapped) (sorted, has) =
      (clear, refl, (sorted, λ (p : ℕ). has p ∙ ground (arith, unmapped p)))
  again m s (some q) u (some old, v) clear size first over (order, unmapped)
        (same, below, above, found) =
      absurd (
        ground (
          arith,
          none-some (file_of old) (sym (none_there (max m.addr old.addr) (ground arith)) ∙ found),
        ))
    where
      none_there : (p : ℕ) → in_range m.addr m.length p ≡ true → backing p (in_order u) ≡ none
      none_there p inside = unmapped p ∙ rw inside refl

  fixed-Reserves :
      (m : Mmap) (s : Space) (r : Option Mmap × Tree)
      → ¬ Overlaps m.addr m.length s.areas
      → 1 ≤ m.length
      → is_sorted 0 (in_order s.maps) ≡ true
      → Inserts m s.maps r
      → ReservesFixed m s (reserve_fixed rebuild m r s)
  unfolding reserve_fixed
  fixed-Reserves m s (none, t) clear size sorted inserts = (clear, refl, inserts)
  fixed-Reserves m s (some old, t) clear size sorted inserts =
      let unmaps = any-Unmaps rebuild rebuild_law m.addr m.length s.maps size sorted in
      again m s (first_lazy_mmap m.addr m.length s.maps)
        (munmap_space rebuild m.addr m.length s.maps)
        (insert_lazy_mmap rebuild m (munmap_space rebuild m.addr m.length s.maps)) clear size refl
        (old_Taken m s.maps old t size inserts) unmaps
        (insert_lazy_mmap-Inserts rebuild rebuild_law m
          (munmap_space rebuild m.addr m.length s.maps) size
          (unmapped_order m.addr m.length s.maps (munmap_space rebuild m.addr m.length s.maps)
            (first_lazy_mmap m.addr m.length s.maps) sorted unmaps))

  fresh-Reserves :
      (mm : Mmap) (at address length : ℕ) (s : Space)
      → 1 ≤ length
      → is_sorted 0 (in_order s.maps) ≡ true
      → ReservesFree (placed mm address length) s (reserve_fresh rebuild (placed mm at length) s)
  unfolding reserve_fresh insert_or_abort
  fresh-Reserves mm at address length s size sorted =
      at_end (insert_lazy_mmap rebuild low s.maps)
        (insert_lazy_mmap-Inserts rebuild rebuild_law low s.maps size sorted)
    where
      low : Mmap
      low = fresh (placed mm at length) s

      at_end :
          (r : Option Mmap × Tree)
          → Inserts low s.maps r
          → ReservesFree (placed mm address length) s (
              insert_or_abort rebuild low r
                (record s { mmap_bot = (2 ^ 32 + s.mmap_bot - length) % 2 ^ 32 }))
      at_end (none, t) inserts = (inr refl, inserts)
      at_end (some old, t) inserts = old_Taken low s.maps old t size inserts

  hinted-Reserves :
      (mm : Mmap) (address length : ℕ) (s : Space) (r : Option Mmap × Tree)
      → 1 ≤ length
      → is_sorted 0 (in_order s.maps) ≡ true
      → Inserts (placed mm address length) s.maps r
      → ReservesFree
          (placed mm address length)
          s
          (reserve_hinted rebuild (placed mm address length) r s)
  unfolding reserve_hinted
  hinted-Reserves mm address length s (none, t) size sorted inserts = (inl refl, inserts)
  hinted-Reserves mm address length s (some old, t) size sorted inserts =
      fresh-Reserves mm address address length s size sorted

  -- reserve_mmap() of a range that is not empty and is at most mmap_bot long, in 32-bit addresses
  -- and a tree in order, with any rebalancing: a fixed mapping gives EEXIST exactly where the range
  -- has an address of one of the areas, and elsewhere puts the mapping at its address, or fails the
  -- assert, where first_lazy_mmap() missed a mapping in the range; another one puts the mapping at
  -- the address asked for or just below mmap_bot, or fails the assert, where the place below
  -- mmap_bot is taken. The tree then has the mapping there and what it had at every other address.
  pub reserve_mmap-Reserves :
      (mm : Mmap) (address length : ℕ) (fixed : Bool) (s : Space)
      → 1 ≤ length
      → address + length < 2 ^ 32
      → length ≤ s.mmap_bot
      → s.mmap_bot < 2 ^ 32
      → IsOrdered s.maps
      → Reserves mm address length fixed s (reserve_mmap rebuild mm address length fixed s)
  unfolding reserve_mmap
  reserve_mmap-Reserves mm address length true s size below room bottom (sorted, ends) =
      elim (Bool-cases (is_nogo address length s.areas)) [
        | inl nogo ↦ rw nogo (refl, (is_nogo_iff address length s.areas).0 nogo)
        | inr clear ↦ rw clear (
            fixed-Reserves (placed mm address length) s
              (insert_lazy_mmap rebuild (placed mm address length) s.maps)
              (nogo_clear address length s.areas clear) size sorted
              (insert_lazy_mmap-Inserts rebuild rebuild_law (placed mm address length) s.maps size
                sorted))
      ]
  reserve_mmap-Reserves mm address length false s size below room bottom (sorted, ends) =
      elim (Bool-cases (is_nogo address length s.areas || address == 0)) [
        | inl anew ↦ rw anew (fresh-Reserves mm 0 address length s size sorted)
        | inr hint ↦ rw hint (
            hinted-Reserves mm address length s
              (insert_lazy_mmap rebuild (placed mm address length) s.maps) size sorted
              (insert_lazy_mmap-Inserts rebuild rebuild_law (placed mm address length) s.maps size
                sorted))
      ]
