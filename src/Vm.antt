-- ===== src/Vm.antt =====
-- sys/vm/vm.c: the lazy mappings of an address space. Page addresses and sizes are numbers; every
-- mapping ends below 2 ^ 32, so that the sums of the code do not wrap.
pub mod Order
pub mod Search
pub mod First
pub mod Carved
pub mod Unmapped
pub mod Inserted
pub mod Reserve
mod Tests
use sneks.Base.{
  ℕ, ◌+◌, ◌-◌, Bool, true, false, ◌&&◌, Option, none, some, List, [], ◌∷◌, ◌++◌, ltb, leb,
  if◌then◌else◌,
}

-- `struct lazy_mmap`.
pub record Mmap : Type 0 where
  pub addr : ℕ
  pub length : ℕ
  pub flags : ℕ
  pub fd_serv : ℕ
  pub ino : ℕ
  pub offset : ℕ
  pub tailsz : ℕ

-- A tree of lib/rbtree.c, without its colours.
pub data Tree : Type 0 where
  leaf : Tree
  node : Tree → Mmap → Tree → Tree

unfoldable pub in_order : Tree → List Mmap
in_order leaf = []
in_order (node l m r) = in_order l ++ (m ∷ in_order r)

-- The mapping that overlaps with a new one, or the tree with the new one linked.
unfoldable pub insert_lazy_mmap_helper : Mmap → Tree → Option Mmap × Tree
insert_lazy_mmap_helper mm leaf = (none, node leaf mm leaf)
insert_lazy_mmap_helper mm (node l oth r) =
    let left = insert_lazy_mmap_helper mm l in
    let right = insert_lazy_mmap_helper mm r in
    if ltb (mm.addr + mm.length - 1) oth.addr
    then (left.0, node left.1 oth r)
    else if ltb (oth.addr + oth.length - 1) mm.addr
    then (right.0, node l oth right.1)
    else (some oth, node l oth r)

-- The search of find_lazy_mmap(), without the mapping found last.
unfoldable pub find_lazy_mmap : (addr : ℕ) → Tree → Option Mmap
find_lazy_mmap addr leaf = none
find_lazy_mmap addr (node l cand r) =
    let left = find_lazy_mmap addr l in
    let right = find_lazy_mmap addr r in
    if ltb addr cand.addr
    then left
    else if leb (cand.addr + cand.length) addr
    then right
    else some cand

-- A node in the order of the tree, with those before it, nearest first, and those after it.
pub record Place : Type 0 where
  pub before : List Mmap
  pub here : Mmap
  pub after : List Mmap

abbrev pub onto : List Mmap → List Mmap → List Mmap
onto [] ys = ys
onto (x ∷ xs) ys = onto xs (x ∷ ys)

-- The node at which a descent ended: the neighbour to the right if its last step was to the left, and
-- the one to the left if it was to the right.
unfoldable pub last_visited : (went_left : Option Bool) (before after : List Mmap) → Option Place
last_visited none ls rs = none
last_visited (some true) ls [] = none
last_visited (some true) ls (r ∷ rs) = some (record { before = ls; here = r; after = rs })
last_visited (some false) [] rs = none
last_visited (some false) (l ∷ ls) rs = some (record { before = ls; here = l; after = rs })

-- `while(cand != NULL && addr + sz <= cand->addr)`, with `__rb_next`.
unfoldable pub go_right : (limit : ℕ) → List Mmap → Mmap → List Mmap → Option Place
go_right limit before here [] =
    if leb limit here.addr then none else some (record { before = before; here = here; after = [] })
go_right limit before here (n ∷ ns) =
    let rest = go_right limit (here ∷ before) n ns in
    if leb limit here.addr
    then rest
    else some (record { before = before; here = here; after = n ∷ ns })

-- `while(cand != NULL && addr >= cand->addr + cand->length)`, with `__rb_prev`.
unfoldable pub go_left : (addr : ℕ) → List Mmap → Mmap → List Mmap → Option Place
go_left addr [] here after =
    if leb (here.addr + here.length) addr
    then none
    else some (record { before = []; here = here; after = after })
go_left addr (b ∷ bs) here after =
    let rest = go_left addr bs b (here ∷ after) in
    if leb (here.addr + here.length) addr
    then rest
    else some (record { before = b ∷ bs; here = here; after = after })

abbrev pub left_from : (addr : ℕ) → Option Place → Option Place
left_from addr none = none
left_from addr (some p) = go_left addr p.before p.here p.after

abbrev pub right_from : (limit : ℕ) → Option Place → Option Place
right_from limit none = none
right_from limit (some p) = go_right limit p.before p.here p.after

unfoldable pub first_from :
    (addr sz : ℕ) → Tree → (before after : List Mmap) (went_left : Option Bool) → Option Place
first_from addr sz leaf ls rs side =
    left_from addr (right_from (addr + sz) (last_visited side ls rs))
first_from addr sz (node l cand r) ls rs side =
    let left = first_from addr sz l ls (cand ∷ (in_order r ++ rs)) (some true) in
    let right = first_from addr sz r (cand ∷ onto (in_order l) ls) rs (some false) in
    if ltb addr cand.addr
    then left
    else if leb (cand.addr + cand.length) addr
    then right
    else some (record { before = onto (in_order l) ls; here = cand; after = in_order r ++ rs })

unfoldable pub first_lazy_mmap : (addr sz : ℕ) → Tree → Option Place
first_lazy_mmap addr sz t = first_from addr sz t [] [] none

abbrev pub page_size : ℕ
page_size = 4096

-- The loop of munmap_space() from one mapping on.
unfoldable pub carve : (addr size : ℕ) → List Mmap → List Mmap
carve addr size [] = []
carve addr size (cur ∷ next) =
    let rest = carve addr size next in
    if leb (addr + size) cur.addr
    then cur ∷ next
    else if leb addr cur.addr && leb (cur.addr + cur.length) (addr + size)
    then rest
    else if ltb cur.addr addr && ltb (addr + size) (cur.addr + cur.length)
    then record cur { length = addr - cur.addr; tailsz = page_size }
      ∷ (record cur { addr = addr + size; length = cur.length - (addr + size - cur.addr) } ∷ rest)
    else if ltb cur.addr addr
    then record cur { length = addr - cur.addr; tailsz = page_size } ∷ rest
    else record cur { addr = addr + size; length = cur.length - (addr + size - cur.addr) } ∷ rest

module _ (rebuild : Tree → List Mmap → Tree) where
  -- insert_lazy_mmap(): the colours are set if the new mapping is linked.
  unfoldable pub insert_lazy_mmap : Mmap → Tree → Option Mmap × Tree
  insert_lazy_mmap mm t =
      let linked = insert_lazy_mmap_helper mm t in
      elim linked.0 [ none ↦ (none, rebuild t (in_order linked.1)) | some oth ↦ (some oth, t) ]

  abbrev pub carve_from : (addr size : ℕ) → Tree → Option Place → Tree
  carve_from addr size t none = t
  carve_from addr size t (some p) = rebuild t (onto p.before (carve addr size (p.here ∷ p.after)))

  -- munmap_space(), on the mappings.
  unfoldable pub munmap_space : (addr size : ℕ) → Tree → Tree
  munmap_space addr size t = carve_from addr size t (first_lazy_mmap addr size t)
