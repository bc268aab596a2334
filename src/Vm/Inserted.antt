-- ===== src/Vm/Inserted.antt =====
-- sys/vm/vm.c: what insert_lazy_mmap() does.
use sneks.Base.{
  ℕ, ◌+◌, ◌-◌, ◌≤◌, ◌<◌, ◌≡◌, refl, sym, ap, ◌∙◌, Bool, true, false, Option, none, some, List, [],
  ◌∷◌, ◌++◌, ltb, if◌then◌else◌, arith, max, Bool-cases, inl, inr,
}
use mathlib.Core.Path.{subst}
use sneks.Vm.{Mmap, Tree, leaf, node, in_order, insert_lazy_mmap_helper, insert_lazy_mmap}
use sneks.Vm.Order.{
  is_sorted, covers, file_of, File, backing, or_else, backing_skip, backing_here, backing-append,
  none_below, end_of, sorted-append,
}
use sneks.Vm.Search.{in_middle}

-- The mapping overlaps with one of the tree, and the tree is as it was; or it is in its place.
abbrev pub Linked : Mmap → List Mmap → Option Mmap → List Mmap → Type 0
Linked mm xs (some oth) ys =
    (ys ≡ xs)
    × (mm.addr < oth.addr + oth.length)
    × (oth.addr < mm.addr + mm.length)
    × (backing (max mm.addr oth.addr) xs ≡ some (file_of oth))
Linked mm xs none ys =
    (p : ℕ) → backing p ys ≡ (if covers mm p then some (file_of mm) else backing p xs)

append_assoc : (xs ys zs : List Mmap) → (xs ++ ys) ++ zs ≡ xs ++ (ys ++ zs)
append_assoc [] ys zs = refl
append_assoc (x ∷ xs) ys zs = ap (λ (l : List Mmap). x ∷ l) (append_assoc xs ys zs)

-- The order is kept, also before mappings that start after the new one.
insert-sorted :
    (mm : Mmap) (lo : ℕ) (t : Tree) (rs : List Mmap)
    → 1 ≤ mm.length
    → lo ≤ mm.addr
    → is_sorted (mm.addr + mm.length) rs ≡ true
    → is_sorted lo (in_order t ++ rs) ≡ true
    → is_sorted lo (in_order (insert_lazy_mmap_helper mm t).1 ++ rs) ≡ true
unfolding insert_lazy_mmap_helper in_order is_sorted
insert-sorted mm lo leaf rs size low after sorted = ground arith
insert-sorted mm lo (node l oth r) rs size low after sorted =
    let whole =
      subst (λ (xs : List Mmap). is_sorted lo xs ≡ true)
        (append_assoc (in_order l) (oth ∷ in_order r) rs) sorted in
    let (left, le, full, right) = in_middle lo (in_order l) oth (in_order r ++ rs) whole in
    elim (Bool-cases (ltb (mm.addr + mm.length - 1) oth.addr)) [
      | inl before ↦
          rw
            (before, append_assoc (in_order (insert_lazy_mmap_helper mm l).1) (oth ∷ in_order r) rs)
            (insert-sorted mm lo l (oth ∷ (in_order r ++ rs)) size low (ground arith) whole)
      | inr not_before ↦ elim (Bool-cases (ltb (oth.addr + oth.length - 1) mm.addr)) [
        | inl beyond ↦
            rw
              (
                not_before,
                beyond,
                append_assoc (in_order l) (oth ∷ in_order (insert_lazy_mmap_helper mm r).1) rs,
                sorted-append lo (in_order l)
                    (oth ∷ (in_order (insert_lazy_mmap_helper mm r).1 ++ rs)),
                left,
              )
              (ground (
                arith,
                insert-sorted mm (oth.addr + oth.length) r rs size (ground arith) after right,
              ))
        | inr overlaps ↦ rw (not_before, overlaps) sorted
      ]
    ]

or_covered :
    (c : Bool) (f x y : File)
    → or_else (if c then f else x) y ≡ (if c then or_else f y else or_else x y)
or_covered true f x y = refl
or_covered false f x y = refl

link_left :
    (mm oth : Mmap) (o : Option Mmap) (xs xs' ys : List Mmap)
    → Linked mm xs o xs'
    → Linked mm (xs ++ (oth ∷ ys)) o (xs' ++ (oth ∷ ys))
link_left mm oth (some d) xs xs' ys (same, below, above, found) = (
  ap (λ (zs : List Mmap). zs ++ (oth ∷ ys)) same,
  below,
  above,
  backing-append (max mm.addr d.addr) xs (oth ∷ ys)
      ∙ ap (λ (g : File). or_else g (backing (max mm.addr d.addr) (oth ∷ ys))) found,
)
link_left mm oth none xs xs' ys linked = λ (p : ℕ).
    rw (backing-append p xs' (oth ∷ ys), backing-append p xs (oth ∷ ys), linked p)
      (or_covered (covers mm p) (some (file_of mm)) (backing p xs) (backing p (oth ∷ ys)))

link_right :
    (mm oth : Mmap) (o : Option Mmap) (lo : ℕ) (xs ys ys' : List Mmap)
    → is_sorted lo xs ≡ true
    → end_of lo xs ≤ oth.addr
    → oth.addr + oth.length ≤ mm.addr
    → Linked mm ys o ys'
    → Linked mm (xs ++ (oth ∷ ys)) o (xs ++ (oth ∷ ys'))
unfolding backing
link_right mm oth (some d) lo xs ys ys' sorted le past (same, below, above, found) = (
  ap (λ (zs : List Mmap). xs ++ (oth ∷ zs)) same,
  below,
  above,
  rw
      (
        backing-append (max mm.addr d.addr) xs (oth ∷ ys),
        none_below (max mm.addr d.addr) lo xs sorted (omega arith),
        backing_skip (max mm.addr d.addr) oth ys (ground arith),
      )
      found,
)
link_right mm oth none lo xs ys ys' sorted le past linked = λ (p : ℕ).
    rw (backing-append p xs (oth ∷ ys'), backing-append p xs (oth ∷ ys), linked p)
      (elim (Bool-cases (covers mm p)) [
        | inl inside ↦ rw (inside, none_below p lo xs sorted (ground arith), clear p inside) refl
        | inr outside ↦ rw outside refl
      ])
  where
    clear : (p : ℕ) → covers mm p ≡ true → covers oth p ≡ false
    clear p inside = ground arith

insert-Linked :
    (mm : Mmap) (lo : ℕ) (t : Tree)
    → 1 ≤ mm.length
    → is_sorted lo (in_order t) ≡ true
    → Linked mm
        (in_order t)
        (insert_lazy_mmap_helper mm t).0
        (in_order (insert_lazy_mmap_helper mm t).1)
unfolding insert_lazy_mmap_helper in_order backing
insert-Linked mm lo leaf size sorted = λ (p : ℕ). refl
insert-Linked mm lo (node l oth r) size sorted =
    let (left, le, full, right) = in_middle lo (in_order l) oth (in_order r) sorted in
    elim (Bool-cases (ltb (mm.addr + mm.length - 1) oth.addr)) [
      | inl before ↦ rw before (
          link_left mm oth (insert_lazy_mmap_helper mm l).0 (in_order l)
            (in_order (insert_lazy_mmap_helper mm l).1) (in_order r)
            (insert-Linked mm lo l size left))
      | inr not_before ↦ elim (Bool-cases (ltb (oth.addr + oth.length - 1) mm.addr)) [
        | inl beyond ↦
            rw (not_before, beyond)
              (link_right mm oth (insert_lazy_mmap_helper mm r).0 lo (in_order l) (in_order r)
                (in_order (insert_lazy_mmap_helper mm r).1) left le (ground arith)
                (insert-Linked mm (oth.addr + oth.length) r size right))
        | inr overlaps ↦
            rw (not_before, overlaps)
              (
                refl,
                ground arith,
                ground arith,
                rw
                    (
                      backing-append (max mm.addr oth.addr) (in_order l) (oth ∷ in_order r),
                      none_below (max mm.addr oth.addr) lo (in_order l) left (omega arith),
                      backing_here (max mm.addr oth.addr) oth (in_order r) (ground arith),
                    )
                    refl,
              )
      ]
    ]

append_nil : (xs : List Mmap) → xs ++ [] ≡ xs
append_nil [] = refl
append_nil (x ∷ xs) = ap (λ (l : List Mmap). x ∷ l) (append_nil xs)

sorted_nil : (lo : ℕ) → is_sorted lo [] ≡ true
unfolding is_sorted
sorted_nil lo = refl

-- The mapping that was in the way, with the tree as it was; or the tree with the new mapping.
abbrev pub Inserts : Mmap → Tree → Option Mmap × Tree → Type 0
Inserts mm t (some oth, t') =
    (t' ≡ t)
    × (mm.addr < oth.addr + oth.length)
    × (oth.addr < mm.addr + mm.length)
    × (backing (max mm.addr oth.addr) (in_order t) ≡ some (file_of oth))
Inserts mm t (none, t') =
    (is_sorted 0 (in_order t') ≡ true)
    × ((p : ℕ)
        → backing p (in_order t')
          ≡ (if covers mm p then some (file_of mm) else backing p (in_order t)))

module _ (rebuild : Tree → List Mmap → Tree)
    (rebuild_law : (t : Tree) (xs : List Mmap) → in_order (rebuild t xs) ≡ xs) where
  from_Linked :
      (mm : Mmap) (t : Tree) (r : Option Mmap × Tree)
      → is_sorted 0 (in_order r.1) ≡ true
      → Linked mm (in_order t) r.0 (in_order r.1)
      → Inserts mm t
          (elim r.0 [ none ↦ (none, rebuild t (in_order r.1)) | some oth ↦ (some oth, t) ])
  from_Linked mm t (some oth, u) sorted (same, below, above, found) = (refl, below, above, found)
  from_Linked mm t (none, u) sorted linked = (
    subst (λ (xs : List Mmap). is_sorted 0 xs ≡ true) (sym (rebuild_law t (in_order u))) sorted,
    λ (p : ℕ).
        subst
          (λ (xs : List Mmap).
            backing p xs ≡ (if covers mm p then some (file_of mm) else backing p (in_order t)))
          (sym (rebuild_law t (in_order u))) (linked p),
  )

  -- insert_lazy_mmap() of a mapping that is not empty, in a tree in order, with any rebalancing
  -- of the tree: either it gives a mapping that overlaps with it and changes nothing, or the
  -- tree is in order and has the new mapping at its addresses and what it had at all others.
  pub insert_lazy_mmap-Inserts :
      (mm : Mmap) (t : Tree)
      → 1 ≤ mm.length
      → is_sorted 0 (in_order t) ≡ true
      → Inserts mm t (insert_lazy_mmap rebuild mm t)
  unfolding insert_lazy_mmap
  insert_lazy_mmap-Inserts mm t size sorted =
      from_Linked mm t (insert_lazy_mmap_helper mm t) (kept sorted)
        (insert-Linked mm 0 t size sorted)
    where
      nothing_after : is_sorted (mm.addr + mm.length) [] ≡ true
      nothing_after = sorted_nil (mm.addr + mm.length)

      kept :
          is_sorted 0 (in_order t) ≡ true
          → is_sorted 0 (in_order (insert_lazy_mmap_helper mm t).1) ≡ true
      kept h =
          subst (λ (xs : List Mmap). is_sorted 0 xs ≡ true)
            (append_nil (in_order (insert_lazy_mmap_helper mm t).1))
            (insert-sorted mm 0 t [] size (omega arith) nothing_after
              (subst (λ (xs : List Mmap). is_sorted 0 xs ≡ true) (sym (append_nil (in_order t))) h))
