-- ===== src/Vm/Reserve.antt =====
-- sys/vm/vm.c: reserve_mmap() puts a mapping at the address that was asked for, or at a fresh one.
pub mod Outcome
use sneks.Base.{
  ◌<◌, ℕ, ◌+◌, ◌-◌, ◌%◌, ◌^◌, ◌≤◌, max, ◌≡◌, refl, sym, ◌∙◌, Bool, true, false, not, ◌||◌, ◌⊎◌, ap,
  Option, none, some, List, [], ◌∷◌, ◌==◌, leb, if◌then◌else◌, arith, Bool-cases, inl, inr, Ends,
  abort, returns,
}
use mathlib.Core.Path.{subst}
use sneks.Vm.{Mmap, Tree, in_order, Place, first_lazy_mmap, insert_lazy_mmap, munmap_space}
use sneks.Vm.Order.{is_sorted, covers, file_of, File, backing}
use sneks.Vm.Carved.{in_range}
use sneks.Vm.Unmapped.{Unmaps, munmap_space-Unmaps}
use sneks.Vm.Inserted.{Inserts, insert_lazy_mmap-Inserts}

-- The parts of `struct vm_space` that reserve_mmap() uses; `areas` are the UTCB, kernel interface
-- and system information areas and the page below the break, each with its size.
pub record Space : Type 0 where
  pub areas : List (ℕ × ℕ)
  pub maps : Tree
  pub mmap_bot : ℕ

pub data Reserved : Type 0 where
  reserved : Mmap → Reserved
  eexist : Reserved

-- RANGE_IN_FPAGE() of any of the areas.
unfoldable pub is_nogo : (address length : ℕ) → List (ℕ × ℕ) → Bool
is_nogo address length [] = false
is_nogo address length ((start, size) ∷ areas) =
    not (leb (start + size) address || leb (address + length) start) || is_nogo address length areas

-- The mapping just below mmap_bot.
abbrev pub fresh : Mmap → Space → Mmap
fresh mm s = record mm { addr = (2 ^ 32 + s.mmap_bot + 1 - mm.length) % 2 ^ 32 }

abbrev pub placed : Mmap → (address length : ℕ) → Mmap
placed mm address length = record mm { addr = address; length = length }

module _ (rebuild : Tree → List Mmap → Tree) where
  -- The last insertion of reserve_mmap(), and its assert.
  unfoldable pub insert_or_abort : Mmap → Option Mmap × Tree → Space → Ends (Reserved × Space)
  insert_or_abort mm (none, t) s = returns (reserved mm, record s { maps = t })
  insert_or_abort mm (some old, t) s = abort

  -- Fresh address space below the last one.
  unfoldable pub reserve_fresh : Mmap → Space → Ends (Reserved × Space)
  reserve_fresh mm s =
      insert_or_abort (fresh mm s) (insert_lazy_mmap rebuild (fresh mm s) s.maps)
        (record s { mmap_bot = (2 ^ 32 + s.mmap_bot - mm.length) % 2 ^ 32 })

  unfoldable pub reserve_fixed : Mmap → Option Mmap × Tree → Space → Ends (Reserved × Space)
  reserve_fixed mm (none, t) s = returns (reserved mm, record s { maps = t })
  reserve_fixed mm (some old, t) s =
      insert_or_abort mm
        (insert_lazy_mmap rebuild mm (munmap_space rebuild mm.addr mm.length s.maps)) s

  unfoldable pub reserve_hinted : Mmap → Option Mmap × Tree → Space → Ends (Reserved × Space)
  reserve_hinted mm (none, t) s = returns (reserved mm, record s { maps = t })
  reserve_hinted mm (some old, t) s = reserve_fresh mm s

  -- reserve_mmap() of a mapping that is not both anonymous and shared. Its callers pass whole pages
  -- and are inside an epoch, as its first three asserts want, which are left out.
  unfoldable pub reserve_mmap :
      Mmap → (address length : ℕ) → (fixed : Bool) → Space → Ends (Reserved × Space)
  reserve_mmap mm address length fixed s =
      let nogo = is_nogo address length s.areas in
      let m = placed mm address length in
      if fixed
      then (if nogo
          then returns (eexist, s)
          else reserve_fixed m (insert_lazy_mmap rebuild m s.maps) s)
      else if nogo || address == 0
      then reserve_fresh (placed mm 0 length) s
      else reserve_hinted m (insert_lazy_mmap rebuild m s.maps) s

-- The mapping is in the tree at its addresses, and every other address is as it was.
abbrev pub Adds : Mmap → Tree → Tree → Type 0
Adds mm t t' =
    (is_sorted 0 (in_order t') ≡ true)
    × ((p : ℕ)
        → backing p (in_order t')
          ≡ (if covers mm p then some (file_of mm) else backing p (in_order t)))

-- Some address of a mapping is taken in the tree.
abbrev pub Taken : Mmap → Tree → Type 0
Taken mm t = (p : ℕ) × (covers mm p ≡ true) × (f : ℕ × ℕ × ℕ) × (backing p (in_order t) ≡ some f)

-- Whether the range has an address in common with one of the areas.
abbrev pub Overlaps : (address length : ℕ) → List (ℕ × ℕ) → Type 0
Overlaps address length [] = false ≡ true
Overlaps address length ((start, size) ∷ areas) =
    ((start < address + length) × (address < start + size)) ⊎ Overlaps address length areas

-- How reserve_mmap() of a fixed mapping ends: with EEXIST and nothing changed, where the range is
-- on an area, and elsewhere with the mapping, or at the assert, where first_lazy_mmap() missed a
-- mapping in the range.
abbrev pub ReservesFixed : Mmap → Space → Ends (Reserved × Space) → Type 0
ReservesFixed m s abort =
    (¬ Overlaps m.addr m.length s.areas)
    × (first_lazy_mmap m.addr m.length s.maps ≡ none)
    × Taken m s.maps
ReservesFixed m s (returns (reserved m', t)) =
    (¬ Overlaps m.addr m.length s.areas) × (m' ≡ m) × Adds m s.maps t.maps
ReservesFixed m s (returns (eexist, t)) = (t ≡ s) × Overlaps m.addr m.length s.areas

-- How it ends otherwise: with the mapping at the address asked for or just below mmap_bot, or at the assert, where the
-- place below mmap_bot is taken.
abbrev pub ReservesFree : Mmap → Space → Ends (Reserved × Space) → Type 0
ReservesFree m s abort = Taken (fresh m s) s.maps
ReservesFree m s (returns (reserved m', t)) = ((m' ≡ m) ⊎ (m' ≡ fresh m s)) × Adds m' s.maps t.maps
ReservesFree m s (returns (eexist, t)) = false ≡ true

abbrev pub Reserves :
    Mmap → (address length : ℕ) → (fixed : Bool) → Space → Ends (Reserved × Space) → Type 0
Reserves mm address length true s r = ReservesFixed (placed mm address length) s r
Reserves mm address length false s r = ReservesFree (placed mm address length) s r
