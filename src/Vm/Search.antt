-- ===== src/Vm/Search.antt =====
-- sys/vm/vm.c: find_lazy_mmap() finds the mapping of an address.
use sneks.Base.{
  ℕ, ◌+◌, ◌≤◌, ◌≡◌, refl, sym, true, Option, none, some, List, [], ◌∷◌, ◌++◌, ltb, leb, arith,
  Bool-cases, inl, inr,
}
use sneks.Vm.{Mmap, Tree, leaf, node, in_order, find_lazy_mmap}
use sneks.Vm.Order.{
  is_sorted, file_of, File, backing, or_else, backing-append, backing_skip, backing_here, end_of,
  sorted-append, none_above, none_below,
}

abbrev pub file_in : Option Mmap → File
file_in none = none
file_in (some m) = some (file_of m)

or_none : (x : File) → or_else x none ≡ x
or_none none = refl
or_none (some x) = refl

-- What the order says of a mapping and those before and after it.
pub in_middle :
    (lo : ℕ) (xs : List Mmap) (m : Mmap) (ys : List Mmap)
    → is_sorted lo (xs ++ (m ∷ ys)) ≡ true
    → (is_sorted lo xs ≡ true)
      × (end_of lo xs ≤ m.addr)
      × (1 ≤ m.length)
      × (is_sorted (m.addr + m.length) ys ≡ true)
unfolding is_sorted
in_middle lo xs m ys h = ground (arith, sorted-append lo xs (m ∷ ys))

pub backing_nil : (p : ℕ) → backing p [] ≡ none
unfolding backing
backing_nil p = refl

-- find_lazy_mmap() in a tree whose mappings are in order and do not overlap finds the one that covers the address, or none if there is none.
pub find_lazy_mmap-backing :
    (addr lo : ℕ) (t : Tree)
    → is_sorted lo (in_order t) ≡ true
    → file_in (find_lazy_mmap addr t) ≡ backing addr (in_order t)
unfolding find_lazy_mmap in_order is_sorted
find_lazy_mmap-backing a lo leaf h = sym (backing_nil a)
find_lazy_mmap-backing a lo (node l c r) h =
    let (left, le, full, right) = in_middle lo (in_order l) c (in_order r) h in
    elim (Bool-cases (ltb a c.addr)) [
      | inl low ↦
          rw
            (
              low,
              backing-append a (in_order l) (c ∷ in_order r),
              none_above a c.addr (c ∷ in_order r) (ground arith) (ground arith),
              or_none (backing a (in_order l)),
            )
            (find_lazy_mmap-backing a lo l left)
      | inr high ↦ elim (Bool-cases (leb (c.addr + c.length) a)) [
        | inl past ↦
            rw
              (
                high,
                past,
                backing-append a (in_order l) (c ∷ in_order r),
                none_below a lo (in_order l) left (ground arith),
                backing_skip a c (in_order r) (ground arith),
              )
              (find_lazy_mmap-backing a (c.addr + c.length) r right)
        | inr within ↦
            rw
              (
                high,
                within,
                backing-append a (in_order l) (c ∷ in_order r),
                none_below a lo (in_order l) left (ground arith),
                backing_here a c (in_order r) (ground arith),
              )
              refl
      ]
    ]
