-- ===== src/Vm/Order.antt =====
-- sys/vm/vm.c: mappings in the order of their addresses.
use sneks.Base.{
  ℕ, ◌+◌, ◌≤◌, ◌<◌, ◌^◌, ◌≡◌, refl, ap, ◌∙◌, Bool, true, false, ◌&&◌, Option, none, some, List, [],
  ◌∷◌, ◌++◌, ltb, leb, if◌then◌else◌, arith, Bool-cases, inl, inr,
}
use mathlib.Core.Path.{subst}
use sneks.Vm.{Mmap, Tree, in_order, onto}

-- Mappings from `lo` on that are not empty and do not overlap.
unfoldable pub is_sorted : (lo : ℕ) → List Mmap → Bool
is_sorted lo [] = true
is_sorted lo (m ∷ ms) = leb lo m.addr && (leb 1 m.length && is_sorted (m.addr + m.length) ms)

abbrev pub covers : Mmap → ℕ → Bool
covers m p = leb m.addr p && ltb p (m.addr + m.length)

-- The file or memory behind an address, with its rights.
abbrev pub file_of : Mmap → ℕ × ℕ × ℕ
file_of m = (m.fd_serv, m.ino, m.flags)

abbrev pub File : Type 0
File = Option (ℕ × ℕ × ℕ)

unfoldable pub backing : ℕ → List Mmap → File
backing p [] = none
backing p (m ∷ ms) = let rest = backing p ms in if covers m p then some (file_of m) else rest

pub backing_skip :
    (p : ℕ) (m : Mmap) (ms : List Mmap) → covers m p ≡ false → backing p (m ∷ ms) ≡ backing p ms
unfolding backing
backing_skip p m ms h = rw h refl

pub backing_here :
    (p : ℕ) (m : Mmap) (ms : List Mmap) → covers m p ≡ true → backing p (m ∷ ms) ≡ some (file_of m)
unfolding backing
backing_here p m ms h = rw h refl

abbrev pub or_else : File → File → File
or_else none y = y
or_else (some x) y = some x

pub backing-append :
    (p : ℕ) (xs ys : List Mmap) → backing p (xs ++ ys) ≡ or_else (backing p xs) (backing p ys)
unfolding backing
backing-append p [] ys = refl
backing-append p (x ∷ xs) ys = elim (Bool-cases (covers x p)) [
  | inl here ↦ rw here refl
  | inr skip ↦ rw skip (backing-append p xs ys)
]

pub sorted_down :
    (lo hi : ℕ) (xs : List Mmap) → lo ≤ hi → is_sorted hi xs ≡ true → is_sorted lo xs ≡ true
unfolding is_sorted
sorted_down lo hi [] le h = refl
sorted_down lo hi (x ∷ xs) le h = ground arith

pub sorted_here :
    (lo : ℕ) (m : Mmap) (ms : List Mmap)
    → is_sorted lo (m ∷ ms) ≡ true
    → is_sorted m.addr (m ∷ ms) ≡ true
unfolding is_sorted
sorted_here lo m ms h = ground arith

-- Where mappings end.
unfoldable pub end_of : (lo : ℕ) → List Mmap → ℕ
end_of lo [] = lo
end_of lo (m ∷ ms) = end_of (m.addr + m.length) ms

pub end_of-le : (lo : ℕ) (xs : List Mmap) → is_sorted lo xs ≡ true → lo ≤ end_of lo xs
unfolding is_sorted end_of
end_of-le lo [] h = omega arith
end_of-le lo (x ∷ xs) h = ground (arith, end_of-le (x.addr + x.length) xs (ground arith))

pub sorted-append :
    (lo : ℕ) (xs ys : List Mmap)
    → is_sorted lo (xs ++ ys) ≡ (is_sorted lo xs && is_sorted (end_of lo xs) ys)
unfolding is_sorted end_of
sorted-append lo [] ys = refl
sorted-append lo (x ∷ xs) ys = ground (arith, sorted-append (x.addr + x.length) xs ys)

pub none_above : (p lo : ℕ) (xs : List Mmap) → is_sorted lo xs ≡ true → p < lo → backing p xs ≡ none
unfolding is_sorted backing
none_above p lo [] h low = refl
none_above p lo (x ∷ xs) h low =
    rw (skip h) (none_above p (x.addr + x.length) xs (ground arith) (ground arith))
  where
    skip :
        leb lo x.addr && (leb 1 x.length && is_sorted (x.addr + x.length) xs) ≡ true
        → covers x p ≡ false
    skip k = ground arith

pub none_below :
    (p lo : ℕ) (xs : List Mmap) → is_sorted lo xs ≡ true → end_of lo xs ≤ p → backing p xs ≡ none
unfolding is_sorted backing end_of
none_below p lo [] h high = refl
none_below p lo (x ∷ xs) h high =
    rw (skip (end_of-le (x.addr + x.length) xs (ground arith)))
      (none_below p (x.addr + x.length) xs (ground arith) high)
  where
    skip : x.addr + x.length ≤ end_of (x.addr + x.length) xs → covers x p ≡ false
    skip k = ground arith

-- Mappings put back before others.
pub onto-onto : (xs ls ys : List Mmap) → onto (onto xs ls) ys ≡ onto ls (xs ++ ys)
onto-onto [] ls ys = refl
onto-onto (x ∷ xs) ls ys = onto-onto xs (x ∷ ls) ys

pub sorted_suffix :
    (lo : ℕ) (bs ys : List Mmap) → is_sorted lo (onto bs ys) ≡ true → is_sorted 0 ys ≡ true
unfolding is_sorted
sorted_suffix lo [] ys h = sorted_down 0 lo ys (omega arith) h
sorted_suffix lo (b ∷ bs) ys h = drop_first (sorted_suffix lo bs (b ∷ ys) h)
  where
    drop_first : is_sorted 0 (b ∷ ys) ≡ true → is_sorted 0 ys ≡ true
    drop_first k = sorted_down 0 (b.addr + b.length) ys (omega arith) (ground arith)

-- The mappings of a tree are in order, and end below 2 ^ 32.
abbrev pub IsOrdered : Tree → Type 0
IsOrdered t = (is_sorted 0 (in_order t) ≡ true) × (end_of 0 (in_order t) < 2 ^ 32)

-- All of them end at an address or before.
unfoldable pub all_end_by : ℕ → List Mmap → Bool
all_end_by a [] = true
all_end_by a (m ∷ ms) = leb (m.addr + m.length) a && all_end_by a ms

pub end_by_up : (a b : ℕ) (xs : List Mmap) → a ≤ b → all_end_by a xs ≡ true → all_end_by b xs ≡ true
unfolding all_end_by
end_by_up a b [] le h = refl
end_by_up a b (x ∷ xs) le h = ground (arith, end_by_up a b xs le (ground arith))

pub before_end :
    (lo : ℕ) (bs : List Mmap) (m : Mmap) (ms : List Mmap)
    → is_sorted lo (onto bs (m ∷ ms)) ≡ true
    → all_end_by m.addr bs ≡ true
unfolding all_end_by is_sorted
before_end lo [] m ms h = refl
before_end lo (b ∷ bs) m ms h = ground (
  arith,
  sorted_suffix lo bs (b ∷ (m ∷ ms)) h,
  end_by_up b.addr m.addr bs (ground (arith, sorted_suffix lo bs (b ∷ (m ∷ ms)) h))
      (before_end lo bs b (m ∷ ms) h),
)

pub none_ended : (p a : ℕ) (xs : List Mmap) → all_end_by a xs ≡ true → a ≤ p → backing p xs ≡ none
unfolding all_end_by backing
none_ended p a [] h le = refl
none_ended p a (x ∷ xs) h le = rw (skip h) (none_ended p a xs (ground arith) le)
  where
    skip : leb (x.addr + x.length) a && all_end_by a xs ≡ true → covers x p ≡ false
    skip k = ground arith

pub backing-onto :
    (p : ℕ) (bs ys : List Mmap) → backing p bs ≡ none → backing p (onto bs ys) ≡ backing p ys
unfolding backing
backing-onto p [] ys h = refl
backing-onto p (b ∷ bs) ys h = elim (Bool-cases (covers b p)) [
  | inl here ↦ absurd (found here)
  | inr skip ↦ backing-onto p bs (b ∷ ys) (unskip skip) ∙ rw skip refl
]
  where
    found : covers b p ≡ true → ⊥
    found here = ground (arith, taken here)
      where
        taken : covers b p ≡ true → ◌≡◌ {A = File} (some (file_of b)) none
        taken here =
            subst (λ (c : Bool). (if c then some (file_of b) else backing p bs) ≡ none) here h

    unskip : covers b p ≡ false → backing p bs ≡ none
    unskip skip = subst (λ (c : Bool). (if c then some (file_of b) else backing p bs) ≡ none) skip h

pub onto_same :
    (p : ℕ) (bs xs ys : List Mmap)
    → backing p xs ≡ backing p ys
    → backing p (onto bs xs) ≡ backing p (onto bs ys)
unfolding backing
onto_same p [] xs ys h = h
onto_same p (b ∷ bs) xs ys h =
    onto_same p bs (b ∷ xs) (b ∷ ys)
      (ap (λ (r : File). if covers b p then some (file_of b) else r) h)
