-- ===== src/Threads/Tests.antt =====
-- Thread numbers on a root task that has just started, with a task of eight UTCB slots.
use sneks.Base.{
  returns, ℕ, zero, suc, ◌+◌, ◌*◌, ◌/◌, ◌%◌, ◌^◌, ◌≤◌, ◌<◌, ◌≡◌, inl, inr, refl, Bool, true, false,
  [], ◌∷◌, ◌==◌, update, arith, Bool-cases, some, find_first,
}
use sneks.Threads.{ThreadIds, Bitmap, pidof_np, above_mask}
use sneks.Threads.Alloc.{
  Numbers, Task, uapi_init, allocate_thread, allocate_utcb, take_number, choose_map, map_of_pid,
  version_of, free_thread, free_threadno,
}
use sneks.Threads.Counted.{Counted, uapi_init-Counted}
use sneks.Threads.Outcome.{Allocates, allocate_thread-Allocates}
use sneks.Threads.Returned.{Freed, Returned, free-allocate_thread}

-- The first set bit from `i` on, among `n`.
abbrev first_set : (ℕ → Bool) → (n i : ℕ) → ℕ
first_set f zero i = i
first_set f (suc n) i = elim (f i) [ true ↦ i | false ↦ first_set f n (suc i) ]

first_set_le : (f : ℕ → Bool) (n i : ℕ) → first_set f n i ≤ i + n
first_set_le f zero i = omega arith
first_set_le f (suc n) i = ground (arith, first_set_le f n (suc i))

first_set-bit : (f : ℕ → Bool) (n i : ℕ) → first_set f n i < i + n → f (first_set f n i) ≡ true
first_set-bit f zero i h = absurd (omega arith)
first_set-bit f (suc n) i h = ground (arith, first_set-bit f n (suc i))

first_set_below : (f : ℕ → Bool) (n i j : ℕ) → i ≤ j → j < first_set f n i → f j ≡ false
first_set_below f zero i j low h = absurd (omega arith)
first_set_below f (suc n) i j low h = elim (Bool-cases (i == j)) [
  | inl at ↦ ground arith
  | inr off ↦ ground (arith, first_set_below f n (suc i) j)
]

abbrev bits : Bitmap (ℕ → Bool)
bits = record {
  bit = λ m. m;
  set_bit = λ m k. update m k true;
  clear_bit = λ m k. update m k false;
  ffs = λ m n. first_set m n 0;
  bit-set_bit = λ m k j. refl;
  bit-clear_bit = λ m k j. refl;
  ffs_le = λ m n. omega (arith, first_set_le m n 0);
  bit-ffs = λ m n h. first_set-bit m n 0 (omega arith);
  bit_below_ffs = λ m n j h. first_set_below m n 0 j (omega arith) h;
}

abbrev words : ThreadIds ℕ
words = record {
  global_id = λ n v. n * 2 ^ 14 + v;
  thread_no = λ t. t / 2 ^ 14;
  version = λ t. t % 2 ^ 14;
  is_local = λ t. t % 64 == 0;
  thread_no-global_id = λ n v hn hv. omega arith;
  version-global_id = λ n v hn hv. omega arith;
  is_local-global_id = λ n v hn hv h. ground arith;
}

abbrev all_set : ℕ → Bool
all_set j = true

abbrev started : Numbers (ℕ → Bool)
started = uapi_init words bits all_set

abbrev fresh : Task ℕ (ℕ → Bool)
fresh = record { utcb_address = 0x10000; utcb_size_log2 = 12; utcb_free = all_set; threads = [] }

started-Counted : Counted words bits started
started-Counted = uapi_init-Counted words bits all_set (λ j h. refl)

-- Process 8195 = 0x2003 has its numbers in map 1, and version 7.
allocate_thread-Allocates_example :
    Allocates words bits 1 9 8195 started fresh (allocate_thread words bits 9 1 8195 started fresh)
allocate_thread-Allocates_example =
    allocate_thread-Allocates words bits 1 9 8195 started fresh (inl (omega arith)) started-Counted

abbrev first_task : Task ℕ (ℕ → Bool)
first_task = record fresh { utcb_free = update all_set 0 false; threads = (2 ^ 30 + 7) ∷ [] }

-- It gets number 0 of that map and the first UTCB.
first_thread :
    allocate_thread words bits 9 1 8195 started fresh
    ≡ returns (some (2 ^ 30 + 7, 0x10000), take_number words bits 1 0 started, first_task)
unfolding allocate_thread allocate_utcb take_number choose_map map_of_pid version_of pidof_np
    above_mask find_first uapi_init
first_thread = refl

abbrev same : ℕ → ℕ → Bool
same a b = a == b

same-refl : (a : ℕ) → same a a ≡ true
same-refl a = ground arith

same-eq : (a b : ℕ) → same a b ≡ true → a ≡ b
same-eq a b e = ground arith

free-allocate_thread_example :
    Freed words bits 1 0 same same-refl same-eq 9 8195
      (inl (omega arith))
      started
      fresh
      (omega arith)
      (free_thread words bits same 0 9 (2 ^ 30 + 7) 0x10000 first_task)
    × Returned words bits 1 0 same same-refl same-eq 9 8195
        (inl (omega arith))
        started
        fresh
        (omega arith)
        (free_threadno words bits (2 ^ 30 + 7) (take_number words bits 1 0 started))
free-allocate_thread_example =
    free-allocate_thread words bits 1 0 same same-refl same-eq 9 8195 (inl (omega arith)) started
      fresh (omega arith) (2 ^ 30 + 7) 0x10000 (take_number words bits 1 0 started) first_task
      started-Counted first_thread
