-- ===== src/Vm/Carved.antt =====
-- sys/vm/vm.c: the loop of munmap_space() over the mappings.
use sneks.Base.{
  ℕ, ◌+◌, ◌-◌, ◌≤◌, ◌<◌, ◌≡◌, refl, Bool, true, ◌&&◌, none, some, List, [], ◌∷◌, ltb, leb,
  if◌then◌else◌, arith, Bool-cases, inl, inr,
}
use sneks.Vm.{Mmap, carve}
use sneks.Vm.Order.{is_sorted, file_of, File, backing, none_above, sorted_down, sorted_here}

abbrev pub in_range : (addr size p : ℕ) → Bool
in_range addr size p = leb addr p && ltb p (addr + size)

abbrev pub ends_past : ℕ → List Mmap → Bool
ends_past a [] = true
ends_past a (m ∷ ms) = ltb a (m.addr + m.length)

next_past : (a lo : ℕ) (ms : List Mmap) → a < lo → is_sorted lo ms ≡ true → ends_past a ms ≡ true
unfolding is_sorted
next_past a lo [] h sorted = refl
next_past a lo (m ∷ ms) h sorted = ground arith

rest_past :
    (a lo : ℕ) (m : Mmap) (ms : List Mmap)
    → is_sorted lo (m ∷ ms) ≡ true
    → ends_past a (m ∷ ms) ≡ true
    → (is_sorted (m.addr + m.length) ms ≡ true)
      × (ends_past a ms ≡ true)
      × (1 ≤ m.length)
      × (lo ≤ m.addr)
unfolding is_sorted
rest_past a lo m ms sorted past = (
  ground arith,
  next_past a (m.addr + m.length) ms (ground arith) (ground arith),
  ground arith,
  ground arith,
)

break_range :
    (a s p lo : ℕ) (m : Mmap) (ms : List Mmap)
    → is_sorted lo (m ∷ ms) ≡ true
    → leb (a + s) m.addr ≡ true
    → backing p (m ∷ ms) ≡ (if in_range a s p then none else backing p (m ∷ ms))
break_range a s p lo m ms sorted far = elim (Bool-cases (in_range a s p)) [
  | inl inside ↦
      rw inside (none_above p m.addr (m ∷ ms) (sorted_here lo m ms sorted) (ground arith))
  | inr outside ↦ rw outside refl
]

cut_left : (x a : ℕ) → ltb x a ≡ true → x + (a - x) ≡ a
cut_left x a h = ground arith

cut_right : (x n e : ℕ) → leb x e ≡ true → leb e (x + n) ≡ true → e + (n - (e - x)) ≡ x + n
cut_right x n e h k = ground arith

-- An address in what is left of a mapping around the range, or on one side of it.
left_part :
    (x n a s p : ℕ) (f r : File)
    → ltb x a ≡ true
    → ltb a (x + n) ≡ true
    → leb (x + n) (a + s) ≡ true
    → (if leb x p && ltb p a then f else if in_range a s p then none else r)
      ≡ (if in_range a s p then none else if leb x p && ltb p (x + n) then f else r)
left_part x n a s p f r h k l = ground arith

right_part :
    (x n a s p : ℕ) (f r : File)
    → leb a x ≡ true
    → ltb x (a + s) ≡ true
    → ltb (a + s) (x + n) ≡ true
    → (if leb (a + s) p && ltb p (x + n) then f else if in_range a s p then none else r)
      ≡ (if in_range a s p then none else if leb x p && ltb p (x + n) then f else r)
right_part x n a s p f r h k l = ground arith

both_parts :
    (x n a s p : ℕ) (f r : File)
    → ltb x a ≡ true
    → ltb (a + s) (x + n) ≡ true
    → (if leb x p && ltb p a
        then f
        else if leb (a + s) p && ltb p (x + n)
        then f
        else if in_range a s p
        then none
        else r)
      ≡ (if in_range a s p then none else if leb x p && ltb p (x + n) then f else r)
both_parts x n a s p f r h k = ground arith

pub carve-backing :
    (a s p lo : ℕ) (xs : List Mmap)
    → is_sorted lo xs ≡ true
    → ends_past a xs ≡ true
    → backing p (carve a s xs) ≡ (if in_range a s p then none else backing p xs)
unfolding carve backing
carve-backing a s p lo [] sorted past = ground arith
carve-backing a s p lo (m ∷ ms) sorted past =
    let (ordered, next, full, low) = rest_past a lo m ms sorted past in
    let rest = carve-backing a s p (m.addr + m.length) ms ordered next in
    elim (Bool-cases (leb (a + s) m.addr)) [
      | inl far ↦ rw far (break_range a s p lo m ms sorted far)
      | inr near ↦ elim (Bool-cases (leb a m.addr && leb (m.addr + m.length) (a + s))) [
        | inl within ↦ rw (near, within, rest) (ground arith)
        | inr partly ↦ elim (Bool-cases (ltb m.addr a && ltb (a + s) (m.addr + m.length))) [
          | inl around ↦
              rw
                (
                  near,
                  partly,
                  around,
                  rest,
                  cut_left m.addr a (ground arith),
                  cut_right m.addr m.length (a + s) (ground arith) (ground arith),
                )
                (both_parts m.addr m.length a s p (some (file_of m)) (backing p ms) (ground arith)
                  (ground arith))
          | inr side ↦ elim (Bool-cases (ltb m.addr a)) [
            | inl left ↦
                rw (near, partly, side, left, rest, cut_left m.addr a left)
                  (left_part m.addr m.length a s p (some (file_of m)) (backing p ms) left past
                    (ground arith))
            | inr right ↦
                rw
                  (
                    near,
                    partly,
                    side,
                    right,
                    rest,
                    cut_right m.addr m.length (a + s) (ground arith) (ground arith),
                  )
                  (right_part m.addr m.length a s p (some (file_of m)) (backing p ms) (ground arith)
                    (ground arith) (ground arith))
          ]
        ]
      ]
    ]

pub carve-sorted :
    (a s lo : ℕ) (xs : List Mmap)
    → is_sorted lo xs ≡ true
    → ends_past a xs ≡ true
    → is_sorted lo (carve a s xs) ≡ true
unfolding carve is_sorted
carve-sorted a s lo [] sorted past = refl
carve-sorted a s lo (m ∷ ms) sorted past =
    let (ordered, next, full, low) = rest_past a lo m ms sorted past in
    let rest = carve-sorted a s (m.addr + m.length) ms ordered next in
    elim (Bool-cases (leb (a + s) m.addr)) [
      | inl far ↦ rw far sorted
      | inr near ↦ elim (Bool-cases (leb a m.addr && leb (m.addr + m.length) (a + s))) [
        | inl within ↦
            rw (near, within) (sorted_down lo (m.addr + m.length) (carve a s ms) (omega arith) rest)
        | inr partly ↦ elim (Bool-cases (ltb m.addr a && ltb (a + s) (m.addr + m.length))) [
          | inl around ↦
              rw
                (
                  near,
                  partly,
                  around,
                  cut_left m.addr a (ground arith),
                  cut_right m.addr m.length (a + s) (ground arith) (ground arith),
                )
                (ground (arith, rest))
          | inr side ↦ elim (Bool-cases (ltb m.addr a)) [
            | inl left ↦
                rw (near, partly, side, left, cut_left m.addr a left)
                  (ground
                    (arith, sorted_down a (m.addr + m.length) (carve a s ms) (ground arith) rest))
            | inr right ↦
                rw
                  (
                    near,
                    partly,
                    side,
                    right,
                    cut_right m.addr m.length (a + s) (ground arith) (ground arith),
                  )
                  (ground (arith, rest))
          ]
        ]
      ]
    ]
