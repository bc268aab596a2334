-- ===== src/Threads/Returned.antt =====
-- root/uapi.c: free_thread() and free_threadno() take back what allocate_thread() gave.
use native.Mathlib.Nat.{pow-suc, one-le-pow, mul-div_cancel, mul-lt-mul_of_pos_right}
use sneks.Base.{
  Ends, returns, ℕ, zero, suc, ◌+◌, ◌-◌, ◌*◌, ◌/◌, ◌^◌, ◌≤◌, ◌<◌, ◌≡◌, inl, inr, refl, sym, ap, ◌∙◌,
  Bool, true, false, ◌||◌, Option, none, some, List, [], ◌∷◌, ◌++◌, leb, ltb, ◌==◌, arith, bit_or,
  Bool-cases, ==_iff, length, get_or, set, take, length-append, get_or-append_eq, take-append,
  take-length, bit_and, bit_and-low,
}
use sneks.Threads.{ThreadIds, Bitmap}
use sneks.Threads.Alloc.{
  Numbers, Task, tnos_per_bitmap, find_tid, tid_remove_fast, remove_at, tidlist_remove_from,
  put_number, free_threadno, free_thread, allocate_thread, version_of,
}
use sneks.Threads.Identity.{IsPid, version_of-lt, bit_or-shifted}
use sneks.Threads.Counted.{restored, Counted, SameNumbers, Without, count_lt, count_ext}
use sneks.Threads.Outcome.{Taken, Allocates, allocate_thread-Allocates}

zero_add : (j : ℕ) → 0 + j ≡ j
zero_add j = omega arith

add_zero : (j : ℕ) → j + 0 ≡ j
add_zero j = omega arith

two_pow_add : (a b : ℕ) → 2 ^ (a + b) ≡ 2 ^ a * 2 ^ b
two_pow_add a zero = omega (arith, ap (λ (t : ℕ). 2 ^ t) (add_zero a))
two_pow_add a (suc b) = omega (
  arith,
  pow-suc 2 (a + b),
  ap (λ (t : ℕ). 2 ^ t) (omega' a b),
  ap (λ (t : ℕ). 2 ^ a * t) (pow-suc 2 b),
  ap (λ (t : ℕ). t * 2) (two_pow_add a b),
  mul_twice (2 ^ a) (2 ^ b),
)
  where
    omega' : (a b : ℕ) → a + suc b ≡ suc (a + b)
    omega' a b = omega arith

    mul_twice : (x y : ℕ) → x * (y * 2) ≡ x * y * 2
    mul_twice x y = ground arith

offset : (a x : ℕ) → a + x - a ≡ x
offset a x = omega arith

module _ {T : Type 0} where
  set-same : (xs : List T) (i : ℕ) (v d : T) → i < length xs → get_or xs i d ≡ v → set xs i v ≡ xs
  set-same [] i v d h e = absurd (omega arith)
  set-same (x ∷ xs) zero v d h e = ap (λ (t : T). t ∷ xs) (sym e)
  set-same (x ∷ xs) (suc i) v d h e = ap (λ (t : List T). x ∷ t) (set-same xs i v d (omega arith) e)

  module _ (same : T → T → Bool) (tid : T) (nil : T) (same-refl : same tid tid ≡ true)
      (same-eq : (a : T) → same a tid ≡ true → a ≡ tid) where
    -- The search finds an element that is the thread, at or before the last place.
    abbrev FoundIn : List T → ℕ → Option ℕ → Type 0
    FoundIn xs i none = ⊥
    FoundIn xs i (some found) =
        (j : ℕ) × (found ≡ i + j) × (j ≤ length xs) × (get_or (xs ++ (tid ∷ [])) j nil ≡ tid)

    deeper :
        (x : T) (xs : List T) (i : ℕ) (o : Option ℕ) → FoundIn xs (suc i) o → FoundIn (x ∷ xs) i o
    deeper x xs i none found = found
    deeper x xs i (some k) (j, e, h, at) = (suc j, omega arith, omega arith, at)

    find_tid_last : (xs : List T) (i : ℕ) → FoundIn xs i (find_tid same tid (xs ++ (tid ∷ [])) i)
    unfolding find_tid
    find_tid_last [] i = rw same-refl (0, omega arith, omega arith, refl)
    find_tid_last (x ∷ xs) i = elim (Bool-cases (same x tid)) [
      | inl e ↦ rw e (0, omega arith, omega arith, same-eq x e)
      | inr e ↦ rw e (deeper x xs i _ (find_tid_last xs (suc i)))
    ]

    last_index : (xs : List T) → length (xs ++ (tid ∷ [])) - 1 ≡ length xs
    last_index xs = omega (arith, length-append xs (tid ∷ []))

    last_off : (xs : List T) → take (length xs) (xs ++ (tid ∷ [])) ≡ xs
    last_off xs = take-append (length xs) xs (tid ∷ []) (omega arith) ∙ take-length xs

    tid_remove_fast-last :
        (xs : List T) (j : ℕ)
        → j ≤ length xs
        → get_or (xs ++ (tid ∷ [])) j nil ≡ tid
        → tid_remove_fast nil (xs ++ (tid ∷ [])) j ≡ xs
    unfolding tid_remove_fast
    tid_remove_fast-last xs j h at =
        rw (last_index xs, get_or-append_eq xs tid nil)
          (elim (Bool-cases (ltb j (length xs))) [
            | inl e ↦
                rw
                  (
                    e,
                    set-same (xs ++ (tid ∷ [])) j tid nil
                        (ground (arith, length-append xs (tid ∷ []))) at,
                  )
                  (last_off xs)
            | inr e ↦ rw e (last_off xs)
          ])

    remove_found :
        (xs : List T) (o : Option ℕ) → FoundIn xs 0 o → (remove_at nil (xs ++ (tid ∷ [])) o).0 ≡ xs
    unfolding remove_at
    remove_found xs none found = absurd found
    remove_found xs (some k) (j, e, h, at) = rw (e, zero_add j) (tid_remove_fast-last xs j h at)

    pub tidlist_remove_from-last :
        (xs : List T) → (tidlist_remove_from same nil tid (xs ++ (tid ∷ []))).0 ≡ xs
    unfolding tidlist_remove_from
    tidlist_remove_from-last xs = remove_found xs _ (find_tid_last xs 0)

module _ {T M : Type 0} (ids : ThreadIds T) (bm : Bitmap M) where
  -- A slot below `2 ^ (size - k)` starts below `2 ^ size`.
  slot_inside : (size k slot : ℕ) → k ≤ size → slot < 2 ^ (size - k) → slot * 2 ^ k < 2 ^ size
  slot_inside size k slot h below = omega (
    arith,
    two_pow_add (size - k) k,
    ap (λ (t : ℕ). 2 ^ t) (omega' size k h),
    mul-lt-mul_of_pos_right below (one-le-pow k 2 (omega arith)),
  )
    where
      omega' : (size k : ℕ) → k ≤ size → size - k + k ≡ size
      omega' size k h = omega arith

  module _ (self nil : T) (same : T → T → Bool) (same-refl : (a : T) → same a a ≡ true)
      (same-eq : (a b : T) → same a b ≡ true → a ≡ b) (k pid : ℕ) (valid : IsPid pid)
      (s : Numbers M) (task : Task T M) (h : k ≤ task.utcb_size_log2) where
    abbrev pub Freed : Ends (Task T M) → Type 0
    Freed r =
        (task2 : Task T M) × (r ≡ returns task2)
        × (task2.threads ≡ task.threads)
        × ((j : ℕ) → bm.bit task2.utcb_free j ≡ bm.bit task.utcb_free j)

    abbrev pub Returned : Ends (Numbers M) → Type 0
    Returned r = (u : Numbers M) × (r ≡ returns u) × SameNumbers ids bm s u

    in_area :
        (slot : ℕ)
        → slot < 2 ^ (task.utcb_size_log2 - k)
        → bm.bit task.utcb_free slot ≡ true
        → (ltb (task.utcb_address + slot * 2 ^ k) task.utcb_address
            || leb (2 ^ task.utcb_size_log2) (slot * 2 ^ k)
            || bm.bit (bm.clear_bit task.utcb_free slot) slot)
          ≡ false
    in_area slot inside was_free = ground (
      arith,
      slot_inside task.utcb_size_log2 k slot h inside,
      bm.bit-clear_bit task.utcb_free slot slot,
    )

    free_thread-Taken :
        (tid : T) (loc : ℕ) (t : Numbers M) (task1 : Task T M)
        → Taken ids bm self k pid s task (tid, loc) t task1
        → Freed (free_thread ids bm same nil k tid loc task1)
    unfolding free_thread
    free_thread-Taken tid loc t task1
          (
            map, bit, slot, small, hb, made, belongs, free, without, counts, inside, was_free, at,
            e,
          ) =
        rw
          (
            e,
            at,
            offset task.utcb_address (slot * 2 ^ k),
            mul-div_cancel slot (one-le-pow k 2 (omega arith)),
            in_area slot inside was_free,
          )
          (
            record task {
              utcb_free = bm.set_bit (bm.clear_bit task.utcb_free slot) slot;
              threads = (tidlist_remove_from same nil tid (task.threads ++ (tid ∷ []))).0;
            },
            refl,
            tidlist_remove_from-last same tid nil (same-refl tid) (λ a. same-eq a tid) task.threads,
            λ j. ground (
              arith,
              bm.bit-set_bit (bm.clear_bit task.utcb_free slot) slot j,
              restored ids bm task.utcb_free slot j was_free,
            ),
          )

    high_part : (map bit : ℕ) → bit < tnos_per_bitmap → (map * 2 ^ 16 + bit) / 2 ^ 16 ≡ map
    high_part map bit hb = omega arith

    low_part : (map bit : ℕ) → bit < tnos_per_bitmap → bit_and (map * 2 ^ 16 + bit) 0xffff ≡ bit
    low_part map bit hb = bit_and-low 16 map bit hb

    thread_no_of :
        (map bit : ℕ)
        → map < 4
        → bit < tnos_per_bitmap
        → ids.thread_no (ids.global_id (bit_or (map * 2 ^ 16) bit) (version_of pid))
          ≡ map * 2 ^ 16 + bit
    thread_no_of map bit small hb = rw (bit_or-shifted 16 map bit hb) (
        ids.thread_no-global_id (map * 2 ^ 16 + bit) (version_of pid) (omega arith)
          (version_of-lt pid valid))

    bit_back :
        (t : Numbers M) (map bit : ℕ)
        → map < 4
        → bm.bit (s.maps map) bit ≡ true
        → Without ids bm s map bit t
        → (j : ℕ) → bm.bit (bm.set_bit (t.maps map) bit) j ≡ bm.bit (s.maps map) j
    bit_back t map bit small free without j = elim (Bool-cases (bit == j)) [
      | inl on ↦ ground (arith, (==_iff bit j).0 on, bm.bit-set_bit (t.maps map) bit j)
      | inr off ↦ ground (arith, bm.bit-set_bit (t.maps map) bit j, without map small j)
    ]

    others :
        (t : Numbers M) (map bit : ℕ)
        → Counted ids bm s
        → Counted ids bm t
        → Without ids bm s map bit t
        → (m : ℕ) → m < 4
        → (map == m) ≡ false
        → t.counts m ≡ s.counts m
    others t map bit counted counted_t without m hm off = ground (
      arith,
      counted m hm,
      counted_t m hm,
      count_ext (bm.bit (t.maps m)) (bm.bit (s.maps m)) tnos_per_bitmap
          (λ j below. ground (arith, without m hm j)),
    )

    assert_holds :
        (t : Numbers M) (map bit : ℕ)
        → map < 4
        → bit < tnos_per_bitmap
        → Counted ids bm t
        → bm.bit (t.maps map) bit ≡ false
        → (bm.bit (t.maps map) bit || leb (suc tnos_per_bitmap) (t.counts map + 1)) ≡ false
    assert_holds t map bit small hb counted cleared =
        ground
          (arith, counted map small, count_lt (bm.bit (t.maps map)) tnos_per_bitmap bit hb cleared)

    free_threadno-Taken :
        (tid : T) (loc : ℕ) (t : Numbers M) (task1 : Task T M)
        → Counted ids bm s
        → Counted ids bm t
        → Taken ids bm self k pid s task (tid, loc) t task1
        → Returned (free_threadno ids bm tid t)
    unfolding free_threadno put_number
    free_threadno-Taken tid loc t task1 counted counted_t
          (
            map, bit, slot, small, hb, made, belongs, free, without, counts, inside, was_free, at,
            e,
          ) =
        rw (made, thread_no_of map bit small hb, high_part map bit hb, low_part map bit hb)
          (rw (assert_holds t map bit small hb counted_t (ground (arith, without map small bit))) (
            put_number ids bm map bit t,
            refl,
            λ m hm. elim (Bool-cases (map == m)) [
              | inl on ↦ (
                ground (arith, (==_iff map m).0 on, counts),
                λ j. ground (arith, (==_iff map m).0 on, bit_back t map bit small free without j),
              )
              | inr off ↦ (
                ground (arith, others t map bit counted counted_t without m hm off),
                λ j. ground (arith, without m hm j),
              )
            ],
          ))

    freed :
        (tid : T) (loc : ℕ) (t : Numbers M) (task1 : Task T M)
        → Counted ids bm s
        → Allocates ids bm self k pid s task (returns (some (tid, loc), t, task1))
        → Freed (free_thread ids bm same nil k tid loc task1)
          × Returned (free_threadno ids bm tid t)
    unfolding Allocates
    freed tid loc t task1 counted (counted_t, taken) = (
      free_thread-Taken tid loc t task1 taken,
      free_threadno-Taken tid loc t task1 counted counted_t taken,
    )

    -- What allocate_thread() gave can be given back at once: free_thread() and free_threadno() of
    -- the thread fail no assert, the task has the threads that it had, in their order, and the same
    -- free UTCB slots, and the maps and counts are as before.
    pub free-allocate_thread :
        (tid : T) (loc : ℕ) (t : Numbers M) (task1 : Task T M)
        → Counted ids bm s
        → allocate_thread ids bm k self pid s task ≡ returns (some (tid, loc), t, task1)
        → Freed (free_thread ids bm same nil k tid loc task1)
          × Returned (free_threadno ids bm tid t)
    free-allocate_thread tid loc t task1 counted e =
        freed tid loc t task1 counted
          (rw (sym e) (allocate_thread-Allocates ids bm self k pid s task valid counted))
