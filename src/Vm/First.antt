-- ===== src/Vm/First.antt =====
-- sys/vm/vm.c: what first_lazy_mmap() finds.
use sneks.Base.{
  ℕ, ◌+◌, ◌≤◌, ◌<◌, ◌^◌, ◌≡◌, refl, sym, ap, ◌∙◌, Bool, true, false, ◌&&◌, Option, none, some, List,
  [], ◌∷◌, ◌++◌, ltb, leb, arith, Bool-cases, inl, inr,
}
use mathlib.Core.Path.{subst}
use sneks.Vm.{
  Mmap, Tree, leaf, node, in_order, Place, onto, last_visited, go_right, go_left, left_from,
  right_from, first_from, first_lazy_mmap,
}
use sneks.Vm.Order.{
  IsOrdered, is_sorted, backing, none_above, sorted_down, onto-onto, sorted_suffix, all_end_by,
  end_by_up, before_end, none_ended, backing-onto,
}

-- Nothing maps the address; or a place in the order whose mapping overlaps with the range and
-- before which all end.
abbrev pub Finds : (addr sz : ℕ) → List Mmap → Option Place → Type 0
Finds addr sz full none = backing addr full ≡ none
Finds addr sz full (some p) =
    (onto p.before (p.here ∷ p.after) ≡ full)
    × (addr < p.here.addr + p.here.length)
    × (p.here.addr < addr + sz)
    × (all_end_by addr p.before ≡ true)

right_none :
    (limit : ℕ) (bs : List Mmap) (m : Mmap) (ms : List Mmap)
    → is_sorted limit (m ∷ ms) ≡ true
    → go_right limit bs m ms ≡ none
unfolding go_right is_sorted
right_none limit bs m [] h = ground arith
right_none limit bs m (n ∷ ns) h = rw (far h) (
    right_none limit (m ∷ bs) n ns
      (sorted_down limit (m.addr + m.length) (n ∷ ns) (ground arith) (ground arith)))
  where
    far :
        leb limit m.addr && (leb 1 m.length && is_sorted (m.addr + m.length) (n ∷ ns)) ≡ true
        → leb limit m.addr ≡ true
    far k = ground arith

right_stays :
    (limit : ℕ) (bs : List Mmap) (m : Mmap) (ms : List Mmap)
    → leb limit m.addr ≡ false
    → go_right limit bs m ms ≡ some (record { before = bs; here = m; after = ms })
unfolding go_right
right_stays limit bs m [] h = rw h refl
right_stays limit bs m (n ∷ ns) h = rw h refl

left_none :
    (addr : ℕ) (bs : List Mmap) (m : Mmap) (ms : List Mmap)
    → all_end_by addr (m ∷ bs) ≡ true
    → go_left addr bs m ms ≡ none
unfolding go_left all_end_by
left_none addr [] m ms h = ground arith
left_none addr (b ∷ bs) m ms h = rw (ended h) (left_none addr bs b (m ∷ ms) (ground arith))
  where
    ended :
        leb (m.addr + m.length) addr && all_end_by addr (b ∷ bs) ≡ true
        → leb (m.addr + m.length) addr ≡ true
    ended k = ground arith

left_stays :
    (addr : ℕ) (bs : List Mmap) (m : Mmap) (ms : List Mmap)
    → leb (m.addr + m.length) addr ≡ false
    → go_left addr bs m ms ≡ some (record { before = bs; here = m; after = ms })
unfolding go_left
left_stays addr [] m ms h = rw h refl
left_stays addr (b ∷ bs) m ms h = rw h refl

-- The address is between two neighbours.
nothing_between :
    (a : ℕ) (ls rs : List Mmap)
    → all_end_by a ls ≡ true
    → is_sorted (a + 1) rs ≡ true
    → backing a (onto ls rs) ≡ none
nothing_between a ls rs before after =
    backing-onto a ls rs (none_ended a a ls before (omega arith))
    ∙ none_above a (a + 1) rs after (omega arith)

from_last :
    (a sz : ℕ) (ls rs : List Mmap) (side : Option Bool)
    → 1 ≤ sz
    → is_sorted 0 (onto ls rs) ≡ true
    → all_end_by a ls ≡ true
    → is_sorted (a + 1) rs ≡ true
    → Finds a sz (onto ls rs) (left_from a (right_from (a + sz) (last_visited side ls rs)))
unfolding last_visited is_sorted all_end_by
from_last a sz ls rs none some_size sorted before after = nothing_between a ls rs before after
from_last a sz ls [] (some true) some_size sorted before after =
    nothing_between a ls [] before after
from_last a sz ls (r ∷ rs) (some true) some_size sorted before after =
    elim (Bool-cases (leb (a + sz) r.addr)) [
      | inl far ↦
          rw (right_none (a + sz) ls r rs (from far)) (nothing_between a ls (r ∷ rs) before after)
      | inr near ↦
          rw (right_stays (a + sz) ls r rs near, left_stays a ls r rs beyond)
            (refl, ground arith, ground arith, before)
    ]
  where
    from : leb (a + sz) r.addr ≡ true → is_sorted (a + sz) (r ∷ rs) ≡ true
    from far = ground arith

    beyond : leb (r.addr + r.length) a ≡ false
    beyond = ground arith
from_last a sz [] rs (some false) some_size sorted before after =
    nothing_between a [] rs before after
from_last a sz (l ∷ ls) rs (some false) some_size sorted before after =
    rw (right_stays (a + sz) ls l rs near, left_none a ls l rs before)
      (nothing_between a (l ∷ ls) rs before after)
  where
    near : leb (a + sz) l.addr ≡ false
    near = ground arith

append_assoc : (xs ys zs : List Mmap) → (xs ++ ys) ++ zs ≡ xs ++ (ys ++ zs)
append_assoc [] ys zs = refl
append_assoc (x ∷ xs) ys zs = ap (λ (l : List Mmap). x ∷ l) (append_assoc xs ys zs)

-- The neighbours of a node that the descent goes past.
after_low :
    (a lo : ℕ) (bs : List Mmap) (c : Mmap) (ys : List Mmap)
    → is_sorted lo (onto bs (c ∷ ys)) ≡ true
    → a < c.addr
    → is_sorted (a + 1) (c ∷ ys) ≡ true
unfolding is_sorted
after_low a lo bs c ys h low = ground (arith, sorted_suffix lo bs (c ∷ ys) h)

past_before :
    (a : ℕ) (bs : List Mmap) (c : Mmap)
    → leb (c.addr + c.length) a ≡ true
    → all_end_by c.addr bs ≡ true
    → all_end_by a (c ∷ bs) ≡ true
unfolding all_end_by
past_before a bs c past ended = ground (arith, end_by_up c.addr a bs (ground arith) ended)

first_from-Finds :
    (a sz : ℕ) (t : Tree) (ls rs full : List Mmap) (side : Option Bool)
    → 1 ≤ sz
    → onto ls (in_order t ++ rs) ≡ full
    → is_sorted 0 full ≡ true
    → all_end_by a ls ≡ true
    → is_sorted (a + 1) rs ≡ true
    → Finds a sz full (first_from a sz t ls rs side)
unfolding first_from in_order
first_from-Finds a sz leaf ls rs full side some_size e sorted before after =
    subst
      (λ (xs : List Mmap).
        Finds a sz xs (left_from a (right_from (a + sz) (last_visited side ls rs))))
      e
      (from_last a sz ls rs side some_size
        (subst (λ (xs : List Mmap). is_sorted 0 xs ≡ true) (sym e) sorted) before after)
first_from-Finds a sz (node l c r) ls rs full side some_size e sorted before after =
    let whole =
      ap (λ (xs : List Mmap). onto ls xs) (sym (append_assoc (in_order l) (c ∷ in_order r) rs))
      ∙ e in
    let split = onto-onto (in_order l) ls (c ∷ (in_order r ++ rs)) ∙ whole in
    let ended =
      before_end 0 (onto (in_order l) ls) c (in_order r ++ rs)
        (subst (λ (xs : List Mmap). is_sorted 0 xs ≡ true) (sym split) sorted) in
    elim (Bool-cases (ltb a c.addr)) [
      | inl low ↦ rw low (
          first_from-Finds a sz l ls (c ∷ (in_order r ++ rs)) full (some true) some_size whole
            sorted before
            (after_low a 0 (onto (in_order l) ls) c (in_order r ++ rs)
              (subst (λ (xs : List Mmap). is_sorted 0 xs ≡ true) (sym split) sorted)
              (ground arith)))
      | inr high ↦ elim (Bool-cases (leb (c.addr + c.length) a)) [
        | inl past ↦
            rw (high, past)
              (first_from-Finds a sz r (c ∷ onto (in_order l) ls) rs full (some false) some_size
                split sorted (past_before a (onto (in_order l) ls) c past ended) after)
        | inr within ↦
            rw (high, within)
              (
                split,
                ground arith,
                ground arith,
                end_by_up c.addr a (onto (in_order l) ls) (ground arith) ended,
              )
      ]
    ]

pub any-Finds :
    (addr sz : ℕ) (t : Tree)
    → 1 ≤ sz
    → is_sorted 0 (in_order t) ≡ true
    → Finds addr sz (in_order t) (first_lazy_mmap addr sz t)
unfolding first_lazy_mmap is_sorted all_end_by
any-Finds addr sz t some_size sorted =
    first_from-Finds addr sz t [] [] (in_order t) none some_size (append_nil (in_order t)) sorted
      (none_before addr) (none_after addr)
  where
    append_nil : (xs : List Mmap) → xs ++ [] ≡ xs
    append_nil [] = refl
    append_nil (x ∷ xs) = ap (λ (l : List Mmap). x ∷ l) (append_nil xs)

    none_before : (a : ℕ) → all_end_by a [] ≡ true
    none_before a = refl

    none_after : (a : ℕ) → is_sorted (a + 1) [] ≡ true
    none_after a = refl

-- first_lazy_mmap() of a range that is not empty, in 32-bit addresses and a tree in order, gives a mapping that overlaps
-- with the range and before which all end before the range; if it gives none, then no mapping
-- covers the first address of the range.
pub first_lazy_mmap-Finds :
    (addr sz : ℕ) (t : Tree)
    → 1 ≤ sz
    → addr + sz < 2 ^ 32
    → IsOrdered t
    → Finds addr sz (in_order t) (first_lazy_mmap addr sz t)
first_lazy_mmap-Finds addr sz t some_size below ordered = any-Finds addr sz t some_size ordered.0
